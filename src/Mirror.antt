-- ===== src/Mirror.antt =====
-- cmd/nodeadm/sync_artifacts/sync_artifacts.go: the mirror of the artifacts in a bucket, and the
-- manifest that leads to it. HTTP, S3 and YAML are parameters, and so is the text of a number.
use eks_hybrid.Base.{
  ℕ, ◌==◌, String, ◌<>◌, str_eq, starts_with, has_infix, split_at, trim_suffix, if◌then◌else◌, ◌≡◌,
  refl, ap, ◌∙◌, Bool, true, false, not, ◌&&◌, ◌||◌, Option, none, some, List, [], ◌∷◌, ◌++◌, Err,
  errorf, Result, ok, err,
}
use text.Mathlib.TextLemmas.{append_assoc}
use eks_hybrid.Machine.{
  Bytes, World, Host, Exec, pure, lift, ◌>>=◌, ◌>>◌, wrapping, guard, os_write_file,
}
use eks_hybrid.Components.Ssm.{ignoring}
use eks_hybrid.Release.Defs.{Artifact, SupportedEksRelease, IamRolesAnywhereRelease, Source}
use eks_hybrid.Release.Select.{partition_of_region}
use eks_hybrid.Node.Registry.{dns_suffix_of}
pub mod Run
pub mod Listed
pub mod Synced

pub record ArtifactInfo : Type 0 where
  pub name : String
  pub url : String
  pub checksum_url : String
  pub local_path : String

pub record Downloader : Type 0 where
  pub source : Source
  pub arch : String
  pub os : String
  pub region : String
  pub s3_bucket : String
  pub s3_prefix : String
  -- SyncTimestamp, printed
  pub timestamp : String

-- aws.Manifest as generateCustomManifest fills it
pub record CustomManifest : Type 0 where
  pub region : String
  pub ecr_account_id : String
  pub iam_ra : Bool
  pub ssm : Bool
  pub eks : SupportedEksRelease
  pub iam_releases : List IamRolesAnywhereRelease
  -- the artifacts of the one release of SSM, if there is one
  pub ssm_releases : List (List Artifact)

abbrev pub is_empty : List Artifact → Bool
is_empty [] = true
is_empty (a ∷ more) = false

-- extractMajorMinor
abbrev pub first_two : String → List String → String
first_two version (a ∷ b ∷ rest) = a <> "." <> b
first_two version _ = version

unfoldable pub major_minor : String → String
major_minor version = first_two version (split_at b'.' version)

-- a lookup in CredProviders, false where the key is missing
unfoldable pub offers : String → List (String × Bool) → Bool
offers k [] = false
offers k ((j, b) ∷ rest) = let more = offers k rest in if str_eq j k then b else more

module _ (d : Downloader) where
  unfoldable pub find_artifact : List Artifact → String → Option Artifact
  find_artifact [] name = none
  find_artifact (a ∷ more) name =
      let rest = find_artifact more name in
      if str_eq a.name name && (str_eq a.arch d.arch && str_eq a.os d.os) then some a else rest

  abbrev pub info_at : String → String → Option Artifact → List ArtifactInfo
  info_at name path none = []
  info_at name path (some a) =
      record { name = name; url = a.uri; checksum_url = a.checksum_uri; local_path = path } ∷ []

  unfoldable pub eks_infos : List String → List ArtifactInfo
  eks_infos [] = []
  eks_infos (name ∷ names) =
      info_at name ("eks/" <> name) (find_artifact d.source.eks.artifacts name) ++ eks_infos names

  abbrev pub suffix : String
  suffix =
      if str_eq d.source.region_info.dns_suffix ""
      then dns_suffix_of (partition_of_region d.region)
      else d.source.region_info.dns_suffix

  -- getSSMInstallerURL, with the one variant that detectPlatformVariant knows
  unfoldable pub ssm_installer_url : Result String
  ssm_installer_url =
      if str_eq d.os "linux"
      then ok (
          "https://amazon-ssm-" <> d.region <> ".s3." <> d.region <> "." <> suffix
          <> "/latest/linux_" <> d.arch <> "/ssm-setup-cli")
      else err (errorf ("unsupported OS: " <> d.os))

  abbrev pub ssm_infos : Result String → List ArtifactInfo
  ssm_infos (err e) = []
  ssm_infos (ok url) =
      record {
        name = "ssm-setup-cli";
        url = url;
        checksum_url = "";
        local_path = "ssm/ssm-setup-cli";
      }
      ∷ record {
        name = "ssm-setup-cli.sig";
        url = url <> ".sig";
        checksum_url = "";
        local_path = "ssm/ssm-setup-cli.sig";
      }
      ∷ []

  abbrev pub some_or_error : List ArtifactInfo → Result (List ArtifactInfo)
  some_or_error [] = err (errorf "no artifacts found")
  some_or_error (a ∷ rest) = ok (a ∷ rest)

  unfoldable pub collect_artifacts : Result (List ArtifactInfo)
  collect_artifacts = some_or_error (
      eks_infos (
        "kubelet" ∷ "kubectl" ∷ "cni-plugins" ∷ "ecr-credential-provider" ∷ "aws-iam-authenticator"
        ∷ [])
      ++ (info_at "aws_signing_helper" "iam-ra/aws_signing_helper"
            (find_artifact d.source.iam.artifacts "aws_signing_helper")
          ++ ssm_infos ssm_installer_url))

  -- the prefix less a slash at its end
  abbrev pub prefix : String
  prefix = trim_suffix b'/' d.s3_prefix

  unfoldable pub s3_key : ArtifactInfo → String
  s3_key a = prefix <> ("/" <> (d.timestamp <> ("/" <> a.local_path)))

  abbrev pub endpoint : String
  endpoint = "https://" <> d.s3_bucket <> ".s3." <> d.region <> "." <> suffix <> "/"

  unfoldable pub base_url : String
  base_url = endpoint <> (prefix <> ("/" <> d.timestamp))

  unfoldable pub custom_uri : ArtifactInfo → String
  custom_uri a = base_url <> ("/" <> a.local_path)

  unfoldable pub custom_artifact : ArtifactInfo → Artifact
  custom_artifact a = record {
    name = a.name;
    arch = d.arch;
    os = d.os;
    uri = custom_uri a;
    checksum_uri = if str_eq a.checksum_url "" then "" else custom_uri a <> ".sha256";
    gzip_uri = "";
  }

  -- the artifacts below one of the three directories
  unfoldable pub under_path : String → List ArtifactInfo → List Artifact
  under_path dir [] = []
  under_path dir (a ∷ more) =
      let rest = under_path dir more in
      if starts_with a.local_path dir then custom_artifact a ∷ rest else rest

  unfoldable pub custom_manifest : List ArtifactInfo → CustomManifest
  custom_manifest artifacts = record {
    region = d.region;
    ecr_account_id = d.source.region_info.ecr_account_id;
    iam_ra = offers "iam-ra" d.source.region_info.cred_providers;
    ssm = offers "ssm" d.source.region_info.cred_providers;
    eks = record {
      major_minor_version = major_minor d.source.eks.version;
      latest_patch_version = d.source.eks.patch_version;
      patch_releases =
          record {
            version = d.source.eks.version;
            patch_version = d.source.eks.patch_version;
            release_date = d.source.eks.release_date;
            artifacts = under_path "eks/" artifacts;
          }
          ∷ [];
    };
    iam_releases =
        let found = under_path "iam-ra/" artifacts in
        if is_empty found
        then []
        else record { version = d.source.iam.version; artifacts = found } ∷ [];
    ssm_releases =
        let found = under_path "ssm/" artifacts in if is_empty found then [] else found ∷ [];
  }

  -- The address that the custom manifest gives for an artifact is the bucket's endpoint, followed by
  -- the key under which the artifact is stored.
  pub custom_uri-s3_key : (a : ArtifactInfo) → custom_uri a ≡ endpoint <> s3_key a
  unfolding custom_uri base_url s3_key
  custom_uri-s3_key a =
      append_assoc endpoint _ _
      ∙ ap (λ s. endpoint <> s)
          (append_assoc prefix _ _ ∙ ap (λ s. prefix <> s) (append_assoc "/" _ _))
