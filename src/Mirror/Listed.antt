-- ===== src/Mirror/Listed.antt =====
-- Which artifacts the custom manifest lists
use eks_hybrid.Base.{
  String, ◌<>◌, starts_with, ◌≡◌, refl, sym, subst, ◌⊎◌, inl, inr, true, false, Bool-cases, Option,
  none, some, List, [], ◌∷◌, ◌++◌, All, Result, ok, err,
}
use text.Mathlib.TextPositions.{starts_with_of_prefix}
use mathlib.Core.List.{Memᴰ}
use mathlib.Core.List.Memᴰ.{head, tail}
use eks_hybrid.Release.Defs.{Artifact, EksPatchRelease, IamRolesAnywhereRelease}
use eks_hybrid.Mirror.{
  ArtifactInfo, Downloader, CustomManifest, is_empty, info_at, eks_infos, ssm_infos, some_or_error,
  ssm_installer_url, find_artifact, collect_artifacts, custom_artifact, under_path, custom_manifest,
}

-- The manifest has the artifact in a release of one of the three kinds.
abbrev pub IsListed : Artifact → CustomManifest → Type 0
IsListed x manifest =
    ((r : EksPatchRelease) × Memᴰ r manifest.eks.patch_releases × Memᴰ x r.artifacts)
    ⊎ (((r : IamRolesAnywhereRelease) × Memᴰ r manifest.iam_releases × Memᴰ x r.artifacts)
        ⊎ ((r : List Artifact) × Memᴰ r manifest.ssm_releases × Memᴰ x r))

-- The path is below one of the three directories.
abbrev HasPath : ArtifactInfo → Type 0
HasPath a =
    (starts_with a.local_path "eks/" ≡ true)
    ⊎ ((starts_with a.local_path "iam-ra/" ≡ true) ⊎ (starts_with a.local_path "ssm/" ≡ true))

All-append : (xs ys : List ArtifactInfo) → All HasPath xs → All HasPath ys → All HasPath (xs ++ ys)
All-append [] ys a b = b
All-append (x ∷ xs) ys (p, a) b = (p, All-append xs ys a b)

some_or_error-ok :
    (d : Downloader) (es found : List ArtifactInfo) → some_or_error d es ≡ ok found → es ≡ found
some_or_error-ok d [] found e = cc
some_or_error-ok d (x ∷ es) found e = cc

pub All-mapped :
    {P Q : ArtifactInfo → Type 0} (xs : List ArtifactInfo)
    → ((a : ArtifactInfo) → Memᴰ a xs → Q a → P a)
    → All Q xs
    → All P xs
All-mapped [] f q = tt
All-mapped (x ∷ xs) f (q, qs) = (f x (head refl) q, All-mapped xs (λ a m. f a (tail m)) qs)

module _ (d : Downloader) where
  info_at-HasPath :
      (name path : String) (o : Option Artifact)
      → ((a : ArtifactInfo) → a.local_path ≡ path → HasPath a)
      → All HasPath (info_at d name path o)
  info_at-HasPath name path none p = tt
  info_at-HasPath name path (some a) p = (
    p (record { name = name; url = a.uri; checksum_url = a.checksum_uri; local_path = path }) refl,
    tt,
  )

  eks_path : (name : String) (a : ArtifactInfo) → a.local_path ≡ "eks/" <> name → HasPath a
  eks_path name a e = inl (starts_with_of_prefix "eks/" a.local_path (name, sym e))

  eks_infos-HasPath : (names : List String) → All HasPath (eks_infos d names)
  unfolding eks_infos
  eks_infos-HasPath [] = tt
  eks_infos-HasPath (name ∷ names) =
      All-append (info_at d name ("eks/" <> name) (find_artifact d d.source.eks.artifacts name)) _
        (info_at-HasPath name ("eks/" <> name) _ (eks_path name)) (eks_infos-HasPath names)

  ssm_infos-HasPath : (r : Result String) → All HasPath (ssm_infos d r)
  ssm_infos-HasPath (err e) = tt
  ssm_infos-HasPath (ok url) = (inr (inr refl), (inr (inr refl), tt))

  collect_artifacts-HasPath :
      (found : List ArtifactInfo) → collect_artifacts d ≡ ok found → All HasPath found
  unfolding collect_artifacts
  collect_artifacts-HasPath found e = subst (All HasPath) (some_or_error-ok d _ found e) (
      All-append (eks_infos d _) _ (eks_infos-HasPath _) (
        All-append (info_at d "aws_signing_helper" "iam-ra/aws_signing_helper" _) _
          (info_at-HasPath "aws_signing_helper" "iam-ra/aws_signing_helper" _
            (λ a p. inr (inl (rw p refl))))
          (ssm_infos-HasPath (ssm_installer_url d))))

  under_path-Memᴰ :
      (dir : String) (found : List ArtifactInfo) (a : ArtifactInfo)
      → Memᴰ a found
      → starts_with a.local_path dir ≡ true
      → Memᴰ (custom_artifact d a) (under_path d dir found)
  unfolding under_path
  under_path-Memᴰ dir [] a m s = elim m [ ]
  under_path-Memᴰ dir (x ∷ found) a (head e) s = rw (← e, s) (head refl)
  under_path-Memᴰ dir (x ∷ found) a (tail m) s =
      let rest = under_path-Memᴰ dir found a m s in
      elim (Bool-cases (starts_with x.local_path dir)) [
        | inl t ↦ rw t (tail rest)
        | inr f ↦ rw f rest
      ]

  non_empty : {x : Artifact} (xs : List Artifact) → Memᴰ x xs → is_empty xs ≡ false
  non_empty [] m = elim m [ ]
  non_empty (y ∷ ys) m = refl

  pub custom_manifest-IsListed :
      (found : List ArtifactInfo) (a : ArtifactInfo)
      → Memᴰ a found
      → HasPath a
      → IsListed (custom_artifact d a) (custom_manifest d found)
  unfolding custom_manifest
  custom_manifest-IsListed found a m (inl s) =
      inl (_, head refl, under_path-Memᴰ "eks/" found a m s)
  custom_manifest-IsListed found a m (inr (inl s)) =
      let x = under_path-Memᴰ "iam-ra/" found a m s in
      inr (inl (rw (non_empty _ x) (_, head refl, x)))
  custom_manifest-IsListed found a m (inr (inr s)) =
      let x = under_path-Memᴰ "ssm/" found a m s in inr (inr (rw (non_empty _ x) (_, head refl, x)))

  -- Each artifact that was collected is listed.
  pub all-IsListed :
      (found : List ArtifactInfo)
      → collect_artifacts d ≡ ok found
      → All (λ a. IsListed (custom_artifact d a) (custom_manifest d found)) found
  all-IsListed found e =
      All-mapped found (custom_manifest-IsListed found) (collect_artifacts-HasPath found e)
