-- ===== src/Flows/Upgrade.antt =====
-- internal/flows/upgrade.go
use eks_hybrid.Base.{
  ℕ, String, ◌<>◌, Bool, not, str_eq, contains, if◌then◌else◌, some, List, errorf, Result, err,
}
use eks_hybrid.Machine.{Host, Exec, lift, ◌>>◌, wrapping, when}
use eks_hybrid.Tracker.{InstalledArtifacts, source_none}
use eks_hybrid.Release.Defs.{RegionData}
use eks_hybrid.PackageManager.{DistroPackageManager, refresh_metadata_cache}
use eks_hybrid.Components.Binaries.{
  upgrade_kubectl, upgrade_authenticator, upgrade_image_credential_provider,
}
use eks_hybrid.Components.Kubelet
use eks_hybrid.Components.Cni
use eks_hybrid.Components.IamRolesAnywhere
use eks_hybrid.Components.Iptables
use eks_hybrid.Components.Containerd
use eks_hybrid.Components.Ssm
use eks_hybrid.Components.Ssm.{JsonCodec}
use eks_hybrid.Flows.Init.{NodeProvider, init_daemons}

pub record Upgrader : Type 0 where
  pub provider : NodeProvider
  pub eks_version : String
  pub region_info : RegionData
  pub package_manager : DistroPackageManager
  pub credential_provider : String
  pub artifacts : InstalledArtifacts
  pub skip_phases : List String
  pub private_mode : Bool
  pub json : JsonCodec
  -- what GetContainerdMajorVersion gives
  pub containerd_major : Result ℕ

module _ (h : Host) (u : Upgrader) where
  unfoldable pub upgrade_distro_packages : Exec Unit
  unfolding contains
  upgrade_distro_packages = do
    refresh_metadata_cache h u.package_manager
    when (not (str_eq u.artifacts.containerd source_none)) (
        Containerd.upgrade h u.package_manager u.containerd_major u.eks_version
          (contains u.skip_phases "containerd-major-version-upgrade"))
    when u.artifacts.iptables (Iptables.upgrade h u.package_manager)

  unfoldable pub upgrade_credential_provider : Exec Unit
  upgrade_credential_provider =
      if str_eq u.credential_provider "iam-ra"
      then IamRolesAnywhere.upgrade h
      else if str_eq u.credential_provider "ssm"
      then Ssm.upgrade h u.json u.provider.region
      else lift (
          err (
            errorf (
              "installed credential provider " <> u.credential_provider
              <> " is not supported for upgrade")))

  unfoldable pub upgrade_eks_artifacts : Exec Unit
  upgrade_eks_artifacts = do
    wrapping "failed to upgrade kubelet" (Kubelet.upgrade h)
    upgrade_kubectl h
    upgrade_image_credential_provider h
    upgrade_authenticator h
    Cni.upgrade h

  -- (*Upgrader).Run
  unfoldable pub run : Exec Unit
  run = do
    when (not u.private_mode) upgrade_distro_packages
    upgrade_credential_provider
    upgrade_eks_artifacts
    u.provider.configure_aws
    u.provider.enrich (some u.region_info)
    init_daemons u.provider u.skip_phases
    u.provider.cleanup
