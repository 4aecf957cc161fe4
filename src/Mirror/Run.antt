-- ===== src/Mirror/Run.antt =====
-- (*Downloader).Run of cmd/nodeadm/sync_artifacts/sync_artifacts.go, and validateS3Bucket
use eks_hybrid.Base.{
  ℕ, ◌==◌, String, ◌<>◌, str_eq, has_infix, if◌then◌else◌, ◌≡◌, refl, Bool, true, false, not, ◌||◌,
  List, [], ◌∷◌, Err, errorf, Result, ok, err,
}
use eks_hybrid.Machine.{
  Bytes, World, Host, Exec, pure, lift, ◌>>=◌, ◌>>◌, wrapping, guard, os_write_file,
}
use eks_hybrid.Components.Ssm.{ignoring}
use eks_hybrid.Mirror.{
  ArtifactInfo, Downloader, CustomManifest, custom_manifest, collect_artifacts, s3_key,
}

-- The network, the store and the encoding, as the run uses them
pub record MirrorHost : Type 0 where
  -- NewRequestWithContext and Do: the status and the body
  pub get : String → Exec (ℕ × Bytes)
  -- Upload to a key of the bucket
  pub upload : String → Bytes → Exec Unit
  pub head_bucket : Exec Unit
  pub error_text : Err → String
  pub marshal : CustomManifest → Result Bytes

abbrev pub bucket_rule : (Err → String) → Result (Unit {0}) → Result (Unit {0})
bucket_rule text (ok _) = ok tt
bucket_rule text (err e) =
    if has_infix (text e) "NotFound"
      || (has_infix (text e) "NoSuchBucket" || has_infix (text e) "MovedPermanently")
    then err (errorf "bucket does not exist")
    else if has_infix (text e) "Forbidden" || has_infix (text e) "AccessDenied"
    then err (errorf "access denied to bucket - check your AWS credentials and bucket permissions")
    else ok tt

abbrev pub manifest_name : Downloader → String
manifest_name d =
    "manifest-" <> d.source.eks.version <> "-" <> d.arch <> "-" <> d.os <> "-" <> d.timestamp
    <> ".yaml"

module _ (h : Host) (m : MirrorHost) (d : Downloader) where
  -- validateS3Bucket
  unfoldable pub validate_bucket : Exec Unit
  validate_bucket w = let (r, w') = m.head_bucket w in (bucket_rule m.error_text r, w')

  unfoldable pub stream_to_s3 : String → String → Exec Unit
  stream_to_s3 url key = do
    (status, body) ← wrapping "making request" (m.get url)
    guard (status == 200) (errorf "HTTP status")
    wrapping "uploading to S3 using manager" (m.upload key body)

  -- syncArtifactToS3: a checksum that cannot be stored is only warned about
  unfoldable pub sync_artifact : ArtifactInfo → Exec Unit
  sync_artifact a = do
    wrapping ("streaming " <> a.name <> " to S3") (stream_to_s3 a.url (s3_key d a))
    sync_checksum (not (str_eq a.checksum_url "")) a
    where
      sync_checksum : Bool → ArtifactInfo → Exec Unit
      sync_checksum true b = ignoring (stream_to_s3 b.checksum_url (s3_key d b <> ".sha256"))
      sync_checksum false b = pure tt

  unfoldable pub sync_all : List ArtifactInfo → Exec Unit
  sync_all [] = pure tt
  sync_all (a ∷ more) = do wrapping ("sync artifact " <> a.name) (sync_artifact a); sync_all more

  unfoldable pub generate_custom_manifest : List ArtifactInfo → Exec Unit
  generate_custom_manifest artifacts = do
    b ← wrapping "marshaling manifest to YAML" (lift (m.marshal (custom_manifest d artifacts)))
    wrapping "writing manifest file" (os_write_file h (manifest_name d) b)

  -- (*Downloader).Run
  unfoldable pub run_mirror : Exec Unit
  run_mirror = do
    artifacts ← wrapping "collecting artifacts" (lift (collect_artifacts d))
    sync_all artifacts
    wrapping "generating custom manifest" (generate_custom_manifest artifacts)

  -- An error of the store's check of the bucket in which none of five words stands counts as success.
  pub validate_bucket-other_error :
      (w : World) (e : Err)
      → (m.head_bucket w).0 ≡ err e
      → has_infix (m.error_text e) "NotFound" ≡ false
      → has_infix (m.error_text e) "NoSuchBucket" ≡ false
      → has_infix (m.error_text e) "MovedPermanently" ≡ false
      → has_infix (m.error_text e) "Forbidden" ≡ false
      → has_infix (m.error_text e) "AccessDenied" ≡ false
      → (validate_bucket w).0 ≡ ok tt
  unfolding validate_bucket
  validate_bucket-other_error w e q a b c f g = rw (q, a, b, c, f, g) refl
