-- ===== src/Examples/Parts.antt =====
-- The theorems on the components and on releases, applied to concrete inputs.
use eks_hybrid.Examples.Quiet.{empty_world, payload, quiet_host, used_world, west}
use eks_hybrid.Machine.{Cmd, retry, pure}
use eks_hybrid.Machine.Retried.{Succeeded, Retried, retry-Succeeded, retry-Retried}
use eks_hybrid.Base.{
  ◌+◌, ◌*◌, ◌≤◌, length, ℕ, String, ◌<>◌, str_eq, str_eq_iff, starts_with, ◌≡◌, refl, sym, ap,
  subst, ◌∙◌, ◌⊎◌, Bool, true, false, ◌||◌, inl, inr, Bool-cases, Option, none, some, List, [], ◌∷◌,
  zero, suc, if◌then◌else◌, errorf, codes, cut_prefix, All, arith, Result, ok, err,
}
use eks_hybrid.Machine.{
  Bytes, Call, TarItem, tar_file, Source as Download, Host, World, under, attempts, or_empty,
}
use eks_hybrid.Artifact.Install.{valid_rel_path}
use mathlib.Core.List.{Memᴰ}
use eks_hybrid.Release.Defs.{EksPatchRelease, IamRolesAnywhereRelease, Manifest, Source, Versions}
use eks_hybrid.Release.Select.{
  find_region, major_minor_of, latest_date_release, source_from_manifest,
}
use eks_hybrid.Release.Chosen.{NotAfter, Offered, latest_date_release-NotAfter}
use eks_hybrid.Release.Match.{source_from_manifest-Offered, source_from_manifest-patch}
use eks_hybrid.Artifact.Upgrade.{upgrade}
use eks_hybrid.Artifact.Upgraded.{HasDigest, upgrade-HasDigest}
use eks_hybrid.Components.Download.{Binary, download_file_with_retries}
use eks_hybrid.Components.Verified.{Holds, download_file_with_retries-verified}
use eks_hybrid.Components.Ssm
use eks_hybrid.Components.Ssm.{
  Fields, end, field, object, number, get_field, ssm_section, with_credential_retry,
}
use eks_hybrid.Components.SsmVerified.{
  Signed, attempts-download_file_to-Signed, get_field-with_credential_retry,
}

abbrev tool : Binary
tool = record { name = "kubectl"; label = "kubectl"; path = "/usr/local/bin/kubectl" }

download_file_with_retries-verified_example :
    Holds quiet_host "kubectl" "/usr/local/bin/kubectl"
      (download_file_with_retries quiet_host tool empty_world).1
unfolding download_file_with_retries attempts eks_hybrid.Components.Download.download_file_to
    eks_hybrid.Machine.◌>>=◌ eks_hybrid.Machine.wrapping eks_hybrid.Machine.get_source
    eks_hybrid.Artifact.Install.install_file eks_hybrid.Machine.os_remove_all eks_hybrid.Machine.act
    eks_hybrid.Machine.os_open_trunc eks_hybrid.Machine.io_copy
    eks_hybrid.Artifact.Checksum.verify_checksum
download_file_with_retries-verified_example =
    download_file_with_retries-verified quiet_host tool empty_world tt

upgrade-HasDigest_example :
    HasDigest quiet_host "/usr/bin/kubelet"
      (1 ∷ 2 ∷ [])
      (upgrade quiet_host "kubelet" "/usr/bin/kubelet" payload used_world).1
unfolding upgrade eks_hybrid.Machine.◌>>=◌ eks_hybrid.Artifact.Upgrade.checksum_match
    eks_hybrid.Machine.wrapping eks_hybrid.Machine.os_open eks_hybrid.Machine.os_read_file
    eks_hybrid.Artifact.Checksum.bytes_eq eks_hybrid.Artifact.Install.install_file
    eks_hybrid.Machine.os_remove_all eks_hybrid.Machine.act eks_hybrid.Machine.os_open_trunc
    eks_hybrid.Machine.io_copy eks_hybrid.Artifact.Checksum.verify_checksum
upgrade-HasDigest_example =
    upgrade-HasDigest quiet_host "kubelet" "/usr/bin/kubelet" payload used_world tt

attempts-download_file_to-Signed_example :
    Signed quiet_host (attempts 3 (ok tt) (Ssm.download_file_to quiet_host) empty_world).1
unfolding attempts Ssm.download_file_to eks_hybrid.Machine.◌>>=◌ eks_hybrid.Machine.wrapping
    eks_hybrid.Machine.get_source eks_hybrid.Artifact.Install.install_file
    eks_hybrid.Machine.os_remove_all eks_hybrid.Machine.act eks_hybrid.Machine.os_open_trunc
    eks_hybrid.Machine.io_copy
attempts-download_file_to-Signed_example =
    attempts-download_file_to-Signed quiet_host empty_world tt

-- version text up to its second dot, and dates that are all the same day but one
abbrev versions : Versions
versions = record {
  is_valid = λ v. true;
  major_minor = λ v. "v1.31";
  lt = λ a b. false;
  parse_date = λ d. if str_eq d "2025-02-01" then ok 32 else ok 1;
}

abbrev older : EksPatchRelease
older = record {
  version = "1.31.2";
  patch_version = "2";
  release_date = "2025-01-01";
  artifacts = [];
}

abbrev newer : EksPatchRelease
newer = record {
  version = "1.31.3";
  patch_version = "3";
  release_date = "2025-02-01";
  artifacts = [];
}

abbrev signer : IamRolesAnywhereRelease
signer = record { version = "1.2.0"; artifacts = [] }

abbrev manifest : Manifest
manifest = record {
  supported_eks_releases =
      record {
        major_minor_version = "1.31";
        latest_patch_version = "3";
        patch_releases = older ∷ newer ∷ [];
      }
      ∷ [];
  iam_roles_anywhere_releases = signer ∷ [];
  region_config = ("us-west-2", west) ∷ [];
}

abbrev chosen : Source
chosen = record { eks = newer; iam = signer; region_info = west }

source_from_manifest-Offered_example :
    Offered
      (major_minor_of versions "1.31")
      (cut_prefix "1.31" (major_minor_of versions "1.31" <> "."))
      manifest.supported_eks_releases
      newer
    × major_minor_of versions "1.31" ≡ major_minor_of versions "1.31.3"
    × find_region "us-west-2" manifest.region_config ≡ ok west
unfolding source_from_manifest eks_hybrid.Release.Select.latest_eks_source major_minor_of
    eks_hybrid.Base.without_char cut_prefix eks_hybrid.Release.Select.validate_version_match
    eks_hybrid.Base.count_char eks_hybrid.Release.Select.latest_iam_source find_region
    eks_hybrid.Release.Select.latest_iam
source_from_manifest-Offered_example =
    source_from_manifest-Offered versions "1.31" "us-west-2" manifest chosen refl

abbrev pinned : Source
pinned = record { eks = older; iam = signer; region_info = west }

source_from_manifest-patch_example : pinned.eks.version ≡ "1.31.2"
unfolding source_from_manifest eks_hybrid.Release.Select.latest_eks_source major_minor_of
    eks_hybrid.Base.without_char cut_prefix eks_hybrid.Release.Select.validate_version_match
    eks_hybrid.Base.count_char eks_hybrid.Release.Select.latest_iam_source find_region
    eks_hybrid.Release.Select.latest_iam
source_from_manifest-patch_example =
    source_from_manifest-patch versions "1.31.2" "us-west-2" manifest pinned refl refl

latest_date_release-NotAfter_example :
    Memᴰ newer (older ∷ newer ∷ older ∷ [])
    × All (NotAfter versions newer) (older ∷ newer ∷ older ∷ [])
unfolding latest_date_release
latest_date_release-NotAfter_example =
    latest_date_release-NotAfter versions (older ∷ newer ∷ older ∷ []) newer refl

abbrev agent_config : Fields
agent_config =
    field "Ssm" (object (field "HealthFrequencyMinutes" (number 5) end))
      (field "Mds" (number 1) end)

abbrev changed_config : Fields
changed_config = with_credential_retry agent_config

get_field-with_credential_retry_example :
    (get_field "CredentialRetryMaxSleepSeconds" (ssm_section (get_field "Ssm" changed_config))
      ≡ some (number 60))
    × (get_field "Mds" changed_config ≡ some (number 1))
unfolding get_field
get_field-with_credential_retry_example =
    get_field-with_credential_retry agent_config "CredentialRetryMaxSleepSeconds" "Mds"

abbrev some_command : Cmd
some_command = record { path = "apt"; args = "update" ∷ [] }

retry-Succeeded_example :
    Succeeded quiet_host some_command (retry quiet_host some_command empty_world).1
unfolding retry eks_hybrid.Machine.act
retry-Succeeded_example = retry-Succeeded quiet_host some_command empty_world tt

retry-Retried_example :
    Retried quiet_host some_command
      (quiet_host.waits empty_world.trace)
      empty_world.trace
      (retry quiet_host some_command empty_world)
retry-Retried_example = retry-Retried quiet_host some_command empty_world
