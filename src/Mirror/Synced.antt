-- ===== src/Mirror/Synced.antt =====
-- What a run of the mirror has stored when it succeeds
use eks_hybrid.Base.{
  ℕ, ◌==◌, String, ◌<>◌, str_eq_refl, ◌≡◌, refl, subst, Bool, true, false, Option-cases, some, List,
  [], ◌∷◌, All, Err, ok, IsOk, arith,
}
use eks_hybrid.Machine.{Bytes, World, Host, write_file, wrapping, guard, lift, os_write_file}
use eks_hybrid.Machine.Success.{
  both-IsOk, answered, ok-IsOk, unwrapped-ok, unwrapped-IsOk, guard-true,
}
use eks_hybrid.Release.Defs.{Artifact}
use eks_hybrid.Mirror.{
  ArtifactInfo, Downloader, CustomManifest, collect_artifacts, endpoint, s3_key, custom_artifact,
  custom_manifest, custom_uri-s3_key,
}
use eks_hybrid.Mirror.Run.{
  MirrorHost, manifest_name, stream_to_s3, sync_artifact, sync_all, generate_custom_manifest,
  run_mirror,
}
use eks_hybrid.Mirror.Listed.{IsListed, all-IsListed}

is_found : (n : ℕ) → (n == 200) ≡ true → n ≡ 200
is_found n e = ground arith

guard-world : (b : Bool) (e : Err) (v : World) → (guard b e v).1 ≡ v
guard-world true e v = refl
guard-world false e v = refl

module _ (h : Host) (m : MirrorHost) (d : Downloader) where
  -- A request for the URL delivered a body with status 200, which was uploaded under the key next.
  abbrev pub IsStored : String → String → World → Type 0
  IsStored url key w =
      (b : Bytes) × ((m.get url w).0 ≡ ok (200, b)) × IsOk (m.upload key b (m.get url w).1).0

  -- The manifest lists an artifact of this name, whose address is the bucket's endpoint followed by the
  -- key under which the artifact is stored.
  abbrev pub IsMirrored : CustomManifest → ArtifactInfo → World → Type 0
  IsMirrored manifest a w =
      (x : Artifact) × (key : String) × IsListed x manifest
      × (x.name ≡ a.name)
      × (x.uri ≡ endpoint d <> key)
      × IsStored a.url key w

  -- each of some artifacts, from the world in which its turn in the run comes
  unfoldable pub AllMirrored : CustomManifest → List ArtifactInfo → World → Type 0
  AllMirrored manifest [] w = Unit
  AllMirrored manifest (a ∷ more) w =
      IsMirrored manifest a w × AllMirrored manifest more (sync_artifact h m d a w).1

  -- the file of the manifest holds it, encoded
  abbrev pub IsWritten : CustomManifest → World → Type 0
  IsWritten manifest v =
      (b : Bytes) × (m.marshal manifest ≡ ok b) × (v.files (manifest_name d) ≡ some b)

  stream_to_s3-IsStored :
      (url key : String) (w : World) → IsOk (stream_to_s3 h m d url key w).0 → IsStored url key w
  unfolding stream_to_s3 wrapping
  stream_to_s3-IsStored url key w o =
      let ((n, b), e, g) = both-IsOk _ (wrapping "making request" (m.get url)) w o in
      let v = (m.get url w).1 in
      let (u, f, k) = both-IsOk _ (guard (n == 200) _) v g in
      let p : n ≡ 200 = is_found n (guard-true (n == 200) _ v (ok-IsOk _ u f)) in
      (
        b,
        subst (λ c. (m.get url w).0 ≡ ok (c, b)) p (unwrapped-ok _ _ (n, b) e),
        subst (λ x. IsOk (m.upload key b x).0) (guard-world (n == 200) _ v) (unwrapped-IsOk _ _ k),
      )

  sync_artifact-IsStored :
      (a : ArtifactInfo) (w : World)
      → IsOk (sync_artifact h m d a w).0
      → IsStored a.url (s3_key d a) w
  unfolding sync_artifact wrapping
  sync_artifact-IsStored a w o =
      let (u, e, g) = both-IsOk _ (wrapping _ (stream_to_s3 h m d a.url (s3_key d a))) w o in
      stream_to_s3-IsStored a.url (s3_key d a) w (unwrapped-IsOk _ _ (ok-IsOk _ u e))

  sync_all-AllMirrored :
      (manifest : CustomManifest) (found : List ArtifactInfo) (w : World)
      → All (λ a. IsListed (custom_artifact d a) manifest) found
      → IsOk (sync_all h m d found w).0
      → AllMirrored manifest found w
  unfolding sync_all wrapping AllMirrored custom_artifact
  sync_all-AllMirrored manifest [] w l o = tt
  sync_all-AllMirrored manifest (a ∷ more) w (l, ls) o =
      let (u, e, g) = both-IsOk _ (wrapping _ (sync_artifact h m d a)) w o in
      (
        (
          custom_artifact d a,
          s3_key d a,
          l,
          refl,
          custom_uri-s3_key d a,
          sync_artifact-IsStored a w (unwrapped-IsOk _ _ (ok-IsOk _ u e)),
        ),
        sync_all-AllMirrored manifest more _ ls g,
      )

  written :
      (p : String) (b : Bytes) (w : World)
      → IsOk (os_write_file h p b w).0
      → (os_write_file h p b w).1.files p ≡ some b
  unfolding os_write_file
  written p b w o = ground (arith, str_eq_refl p, Option-cases (h.act w.trace (write_file p)))

  generate_custom_manifest-IsWritten :
      (found : List ArtifactInfo) (w : World)
      → IsOk (generate_custom_manifest h m d found w).0
      → IsWritten (custom_manifest d found) (generate_custom_manifest h m d found w).1
  unfolding generate_custom_manifest wrapping
  generate_custom_manifest-IsWritten found w =
      answered _ (λ r. IsWritten (custom_manifest d found) r.1)
        (wrapping "marshaling manifest to YAML" (lift (m.marshal (custom_manifest d found)))) w
        (λ b e o. (b, unwrapped-ok _ _ b e, written (manifest_name d) b w (unwrapped-IsOk _ _ o)))

  -- When the mirror's run succeeds, it has found artifacts, and the file of the custom manifest holds
  -- the manifest for them, encoded. That manifest lists each artifact found, by its name and an address
  -- that is the bucket's endpoint followed by a key; and when the artifact's turn came, a request for
  -- its URL delivered a body with status 200, which was uploaded under that key next.
  pub run_mirror-AllMirrored :
      (w : World)
      → IsOk (run_mirror h m d w).0
      → (found : List ArtifactInfo) × (collect_artifacts d ≡ ok found)
        × AllMirrored (custom_manifest d found) found w
        × IsWritten (custom_manifest d found) (run_mirror h m d w).1
  unfolding run_mirror wrapping
  run_mirror-AllMirrored w =
      answered _
        (λ r.
          (found : List ArtifactInfo) × (collect_artifacts d ≡ ok found)
          × AllMirrored (custom_manifest d found) found w
          × IsWritten (custom_manifest d found) r.1)
        (wrapping "collecting artifacts" (lift (collect_artifacts d))) w
        (λ found e o.
          let c = unwrapped-ok _ _ found e in
          let (u, f, k) = both-IsOk _ (sync_all h m d found) w o in
          (
            found,
            c,
            sync_all-AllMirrored (custom_manifest d found) found w (all-IsListed d found c)
                (ok-IsOk _ u f),
            answered _ (λ r. IsWritten (custom_manifest d found) r.1) (sync_all h m d found) w
                (λ _ _ o'. generate_custom_manifest-IsWritten found _ (unwrapped-IsOk _ _ o')) o,
          ))
