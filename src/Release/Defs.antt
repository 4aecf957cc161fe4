-- ===== src/Release/Defs.antt =====
-- internal/aws/manifest.go: the manifest's types
use eks_hybrid.Base.{ℕ, String, Bool, List, Result}

pub record Artifact : Type 0 where
  pub name : String
  pub arch : String
  pub os : String
  pub uri : String
  pub checksum_uri : String
  pub gzip_uri : String

pub record EksPatchRelease : Type 0 where
  pub version : String
  pub patch_version : String
  pub release_date : String
  pub artifacts : List Artifact

pub record SupportedEksRelease : Type 0 where
  pub major_minor_version : String
  pub latest_patch_version : String
  pub patch_releases : List EksPatchRelease

pub record IamRolesAnywhereRelease : Type 0 where
  pub version : String
  pub artifacts : List Artifact

pub record RegionData : Type 0 where
  pub ecr_account_id : String
  pub partition : String
  pub dns_suffix : String
  pub cred_providers : List (String × Bool)

pub record Manifest : Type 0 where
  pub supported_eks_releases : List SupportedEksRelease
  pub iam_roles_anywhere_releases : List IamRolesAnywhereRelease
  pub region_config : List (String × RegionData)

pub record Source : Type 0 where
  pub eks : EksPatchRelease
  pub iam : IamRolesAnywhereRelease
  pub region_info : RegionData

-- golang.org/x/mod/semver, and time.Parse of a date as a number of days
pub record Versions : Type 0 where
  pub is_valid : String → Bool
  pub major_minor : String → String
  -- semver.Compare(v, w) < 0
  pub lt : String → String → Bool
  pub parse_date : String → Result ℕ
