-- ===== src/Release/Select.antt =====
-- internal/aws/source.go
use eks_hybrid.Base.{
  String, ◌<>◌, str_eq, ◌==◌, ltb, if◌then◌else◌, Bool, true, false, not, ◌||◌, Option, none, some,
  List, [], ◌∷◌, ◌++◌, starts_with, cut_prefix, without_char, count_char, Err, errorf, Result, ok,
  err, wrap_err,
}
use eks_hybrid.Release.Defs.{
  EksPatchRelease, SupportedEksRelease, IamRolesAnywhereRelease, RegionData, Manifest, Source,
  Versions,
}

module _ {ℓ κ} {A : Type ℓ} {B : Type κ} where
  infixl 5 ◌>>=◌
  abbrev pub ◌>>=◌ : Result A → (A → Result B) → Result B
  first >>= next = elim first [ ok a ↦ next a | err e ↦ err e ]

module _ {ℓ} {B : Type ℓ} where
  infixl 5 ◌>>◌
  -- a check before the rest
  abbrev pub ◌>>◌ : Result (Unit {0}) → Result B → Result B
  check >> rest = check >>= λ _. rest

abbrev pub require : Bool → Err → Result (Unit {0})
require true e = ok tt
require false e = err e

-- manifest.RegionConfig[region]
unfoldable pub find_region : String → List (String × RegionData) → Result RegionData
find_region region [] = err (errorf ("region " <> region <> " not found in manifest"))
find_region region ((r, d) ∷ rest) =
    let more = find_region region rest in if str_eq r region then ok d else more

-- what is looked for in one supported release: the patch asked for, or its latest one
abbrev pub wanted_patch : Option String → SupportedEksRelease → String
wanted_patch (some patch) s = patch
wanted_patch none s = s.latest_patch_version

unfoldable pub patches_at : String → List EksPatchRelease → List EksPatchRelease
patches_at patch [] = []
patches_at patch (r ∷ rs) =
    let rest = patches_at patch rs in if str_eq r.patch_version patch then r ∷ rest else rest

unfoldable pub matched_releases :
    String → Option String → List SupportedEksRelease → List EksPatchRelease
unfolding patches_at
matched_releases mm patch [] = []
matched_releases mm patch (s ∷ ss) =
    let rest = matched_releases mm patch ss in
    if str_eq s.major_minor_version mm
    then patches_at (wanted_patch patch s) s.patch_releases ++ rest
    else rest

-- internal/aws/partition.go
unfoldable pub partition_of_region : String → String
partition_of_region region =
    if starts_with region "cn-"
    then "aws-cn"
    else if starts_with region "us-gov-"
    then "aws-us-gov"
    else if starts_with region "us-isob-"
    then "aws-iso-b"
    else if starts_with region "us-isoe-"
    then "aws-iso-e"
    else if starts_with region "us-isof-"
    then "aws-iso-f"
    else if starts_with region "us-iso-"
    then "aws-iso"
    else if starts_with region "eusc-"
    then "aws-eusc"
    else "aws"

-- getManifestURL; `default_url` is set at build time.
unfoldable pub manifest_url : String → String → String
manifest_url default_url region =
    if str_eq region ""
    then default_url
    else if str_eq (partition_of_region region) "aws-cn"
    then "https://eks-hybrid-assets.awsstatic.cn/manifest.yaml"
    else default_url

module _ (v : Versions) where
  -- the loop of getLatestDateEksPatchRelease, from the latest release so far
  unfoldable pub latest_by_date : EksPatchRelease → List EksPatchRelease → Result EksPatchRelease
  latest_by_date latest [] = ok latest
  latest_by_date latest (r ∷ rs) = do
    a ← v.parse_date latest.release_date
    b ← v.parse_date r.release_date
    latest_by_date (if ltb a b then r else latest) rs

  unfoldable pub latest_date_release : List EksPatchRelease → Result EksPatchRelease
  unfolding latest_by_date
  latest_date_release [] = err (errorf "input semver did not match with any available releases")
  latest_date_release (r ∷ rs) = latest_by_date r (r ∷ rs)

  unfoldable pub latest_iam :
      IamRolesAnywhereRelease → List IamRolesAnywhereRelease → IamRolesAnywhereRelease
  latest_iam latest [] = latest
  latest_iam latest (r ∷ rs) = latest_iam (if v.lt latest.version r.version then r else latest) rs

  unfoldable pub latest_iam_source : Manifest → Result IamRolesAnywhereRelease
  latest_iam_source m = elim m.iam_roles_anywhere_releases [
    | [] ↦ err (errorf "no iam signer helper releases found")
    | r ∷ rs ↦ ok (latest_iam r (r ∷ rs))
  ]

  unfoldable pub major_minor_of : String → String
  major_minor_of version = without_char b'v' (v.major_minor ("v" <> version))

  -- the choice among the releases that match
  abbrev pub choose : Option String → List EksPatchRelease → Result EksPatchRelease
  choose patch (r ∷ []) = ok r
  choose patch (r ∷ s ∷ rs) = latest_date_release (r ∷ s ∷ rs)
  choose (some _) [] = err (
      errorf
        "input semver did not match with available releases. Try again with major.minor version")
  choose none [] = err (errorf "input semver did not match with any available releases")

  unfoldable pub latest_eks_source : String → Manifest → Result EksPatchRelease
  unfolding matched_releases
  latest_eks_source version m = do
    require (not (str_eq version "")) (errorf "eks version is empty")
    require (v.is_valid ("v" <> version)) (errorf ("invalid semantic version: " <> version))
    let mm = major_minor_of version
    let patch = cut_prefix version (mm <> ".")
    choose patch (matched_releases mm patch m.supported_eks_releases)

  unfoldable pub validate_version_match : String → String → Result (Unit {0})
  validate_version_match requested manifest = do
    require (not (str_eq requested "" || str_eq manifest "")) (errorf "version cannot be empty")
    require (v.is_valid ("v" <> requested)) (errorf ("invalid requested version: " <> requested))
    require (v.is_valid ("v" <> manifest)) (errorf ("invalid manifest version: " <> manifest))
    require (str_eq (major_minor_of requested) (major_minor_of manifest))
        (errorf "Kubernetes version mismatch")
    require (not (count_char b'.' requested == 2) || str_eq requested manifest)
        (errorf "Kubernetes patch version mismatch")

  unfoldable pub source_from_manifest : String → String → Manifest → Result Source
  source_from_manifest version region m = do
    eks ← wrap_err "getting latest eks release" (latest_eks_source version m)
    validate_version_match version eks.version
    iam ← wrap_err "getting iam roles anywhere release" (latest_iam_source m)
    region_info ← find_region region m.region_config
    ok (record { eks = eks; iam = iam; region_info = region_info })
