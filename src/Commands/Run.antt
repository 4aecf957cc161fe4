-- ===== src/Commands/Run.antt =====
-- cmd/nodeadm/install/install.go, uninstall/uninstall.go, upgrade/upgrade.go and init/init.go, with
-- internal/cleanup. The flags of a command are its arguments; where the source shows the help text
-- and exits, the command ends with an error.
use eks_hybrid.Base.{
  ℕ, String, str_eq, contains, if◌then◌else◌, Bool, true, false, not, ◌&&◌, List, Err, errorf,
  not_exist, Result, ok, err,
}
use eks_hybrid.Machine.{
  Bytes, Host, Exec, pure, lift, ◌>>=◌, ◌>>◌, wrapping, reporting, guard, when, os_remove_all,
}
use eks_hybrid.Tracker.{InstalledArtifacts, source_distro, source_docker, containerd_source}
use eks_hybrid.PackageManager.{DistroPackageManager, new, of_manager}
use eks_hybrid.Release.Defs.{Manifest, Source, Versions}
use eks_hybrid.Release.Select.{source_from_manifest, manifest_url}
use eks_hybrid.Components.Ssm.{JsonCodec}
use eks_hybrid.Config.Defs.{
  NodeConfig, CredentialProvider, ssm_provider, iam_ra_provider, same_provider,
  get_credential_provider, provider_from_node_config, provider_from_artifacts,
}
use eks_hybrid.Flows.Store.{get_installed_artifacts}
use eks_hybrid.Flows.Install
use eks_hybrid.Flows.Uninstall
use eks_hybrid.Flows.Uninstall.{DaemonStatus, running, stopped, unknown, get_daemon_status}
use eks_hybrid.Flows.Upgrade
use eks_hybrid.Flows.Init.{NodeProvider}
use eks_hybrid.Commands.Preflight.{NodeAccess, preflight, is_initialized}

-- What a command gets from the operating system, the network and the build
pub record Cli : Type 0 where
  -- the effective user is root
  pub is_root : Result Bool
  pub os_name : String
  pub default_url : String
  pub fetch_manifest : String → Exec Manifest
  pub versions : Versions
  -- NewDaemonManager, DaemonReload and Close
  pub new_daemon_manager : Exec Unit
  pub daemon_reload : Exec Unit
  pub json : JsonCodec
  pub unit_file : Bytes
  pub arch : String
  pub code_name : String
  pub containerd_major : Result ℕ
  -- node.NewNodeProvider on a configuration source, with the node configuration it holds once the
  -- defaults are there
  pub new_node_provider : String → List String → Exec (NodeProvider × NodeConfig)

abbrev pub must_run_as_root : Err
must_run_as_root = errorf "must run as root"

abbrev pub root_of : Result Bool → Result (Unit {0})
root_of (ok true) = ok tt
root_of (ok false) = err must_run_as_root
root_of (err e) = err e

abbrev pub private_rule : Bool → String → Exec Unit
private_rule private_mode override =
    guard (not (private_mode && str_eq override ""))
      (errorf "--private-mode requires --manifest-override to be specified")

-- ValidateContainerdSource
unfoldable pub validate_containerd_source : String → String → Result (Unit {0})
validate_containerd_source os source =
    if str_eq source source_docker && str_eq os "amzn"
    then err (
        errorf
          "docker source for containerd is not supported on AL2023. Please provide `none` or `distro` to the --containerd-source flag")
    else if str_eq source source_distro && str_eq os "rhel"
    then err (
        errorf
          "distro source for containerd is not supported on RHEL. Please provide `none` or `docker` to the --containerd-source flag")
    else ok tt

abbrev pub provider_name : CredentialProvider → String
provider_name ssm_provider = "ssm"
provider_name iam_ra_provider = "iam-ra"

-- the tracker's artifacts, where a missing tracker ends the command with success
abbrev pub if_installed : Result InstalledArtifacts → (InstalledArtifacts → Exec Unit) → Exec Unit
if_installed (ok a) rest = rest a
if_installed (err not_exist) rest = pure tt
if_installed (err e) rest = lift (err e)

-- No package manager is made in private mode, and none is used then.
abbrev pub no_manager : DistroPackageManager
no_manager = of_manager "" ""

module _ (h : Host) (c : Cli) where
  unfoldable pub with_installed : (InstalledArtifacts → Exec Unit) → Exec Unit
  with_installed rest w = let (r, w') = get_installed_artifacts h w in if_installed r rest w'

  abbrev pub package_manager_for : Bool → String → Exec DistroPackageManager
  package_manager_for true source = pure no_manager
  package_manager_for false source = new h source

  -- GetLatestSource and GetLatestSourceFromManifest
  unfoldable pub latest_source : String → String → String → Exec Source
  latest_source version region override = do
    m ←
        c.fetch_manifest
          (if str_eq override "" then manifest_url c.default_url region else override)
    lift (source_from_manifest c.versions version region m)

pub record InstallFlags : Type 0 where
  pub kubernetes_version : String
  pub credential_provider : String
  pub containerd_source : String
  pub region : String
  pub manifest_override : String
  pub private_mode : Bool

module _ (h : Host) (c : Cli) (f : InstallFlags) where
  unfoldable pub run_install : Exec Unit
  run_install = do
    lift (root_of c.is_root)
    guard (not (str_eq f.credential_provider ""))
        (errorf "--credential-provider is a required flag. Allowed values are ssm & iam-ra")
    private_rule f.private_mode f.manifest_override
    provider ← lift (get_credential_provider f.credential_provider)
    source ← lift (containerd_source f.containerd_source)
    lift (validate_containerd_source c.os_name source)
    release ← latest_source h c f.kubernetes_version f.region f.manifest_override
    manager ← package_manager_for h c f.private_mode source
    Install.run h (record {
      eks_version = release.eks.version;
      containerd_source = source;
      package_manager = manager;
      credential_provider = provider_name provider;
      ssm_region = f.region;
      private_mode = f.private_mode;
      json = c.json;
      unit_file = c.unit_file;
      arch = c.arch;
      code_name = c.code_name;
    })

module _ (h : Host) (c : Cli) (n : NodeAccess) (skip_phases : List String) where
  -- Cleanup of internal/cleanup
  unfoldable pub clean_directories : Exec Unit
  clean_directories = do
    wrapping "removing directory /var/lib/cni" (os_remove_all h "/var/lib/cni")
    wrapping "removing directory /etc/cni/net.d" (os_remove_all h "/etc/cni/net.d")

  unfoldable pub uninstall_installed : Bool → InstalledArtifacts → Exec Unit
  uninstall_installed force a = do
    c.new_daemon_manager
    preflight n h skip_phases a
    manager ← new h a.containerd
    Uninstall.run h (record { artifacts = a; package_manager = manager })
    when force (wrapping "cleaning up additional directories" clean_directories)

  unfoldable pub run_uninstall : Bool → Exec Unit
  run_uninstall force = do lift (root_of c.is_root); with_installed h c (uninstall_installed force)

  module _ (version config_source override : String) (private_mode : Bool) where
    unfoldable pub upgrade_configured : InstalledArtifacts → NodeProvider × NodeConfig → Exec Unit
    upgrade_configured a (provider, config) = do
      (λ w. (ok tt, provider.populate_defaults w))
      provider.validate_config
      wanted ← lift (provider_from_node_config config)
      current ← lift (provider_from_artifacts a)
      guard (same_provider current wanted) (
          errorf
            "upgrade does not support changing credential providers. Please uninstall and install with new credential provider")
      release ← latest_source h c version config.spec.cluster.region override
      c.new_daemon_manager
      preflight n h skip_phases a
      manager ← package_manager_for h c private_mode a.containerd
      Upgrade.run h (record {
        provider = provider;
        eks_version = release.eks.version;
        region_info = release.region_info;
        package_manager = manager;
        credential_provider = provider_name wanted;
        artifacts = a;
        skip_phases = skip_phases;
        private_mode = private_mode;
        json = c.json;
        containerd_major = c.containerd_major;
      })

    unfoldable pub upgrade_installed : InstalledArtifacts → Exec Unit
    upgrade_installed a = do
      when (not (contains skip_phases "init-validation")) (
          reporting "node not initialized. Please use nodeadm init command to bootstrap a node"
            (is_initialized n))
      provider ← c.new_node_provider config_source skip_phases
      upgrade_configured a provider

    unfoldable pub run_upgrade : Exec Unit
    run_upgrade = do
      lift (root_of c.is_root)
      guard (not (str_eq config_source "")) (errorf "--config-source is a required flag")
      private_rule private_mode override
      with_installed h c upgrade_installed
