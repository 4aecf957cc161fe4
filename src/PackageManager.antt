-- ===== src/PackageManager.antt =====
-- internal/packagemanager/packagemanager.go, with internal/artifact/package.go
use eks_hybrid.Base.{
  String, ◌<>◌, Bool, true, false, Option, none, some, [], ◌∷◌, str_eq, if◌then◌else◌, codes, Err,
  errorf, not_exist, wrap, Result, ok, err,
}
use eks_hybrid.Machine.{
  command, stat, Host, Exec, pure, lift, ◌>>=◌, ◌>>◌, wrapping, guard, when, log, act, found,
  get_source, os_remove, write_file_with_dir, Cmd, retry,
}
use eks_hybrid.Tracker.{source_docker}

-- artifact.Package: the three commands of a package
pub record Package : Type 0 where
  pub install_cmd : Cmd
  pub uninstall_cmd : Cmd
  pub upgrade_cmd : Cmd

pub record DistroPackageManager : Type 0 where
  pub manager : String
  pub install_verb : String
  pub update_verb : String
  pub delete_verb : String
  pub refresh_metadata_verb : String
  pub docker_repo : String

-- packageManagerInstallCmd and the maps below it; a missing key reads as the empty text.
abbrev by_manager : String → String → String → String
by_manager manager apt yum =
    if str_eq manager "apt" then apt else if str_eq manager "yum" then yum else ""

abbrev centos_docker_repo : String
centos_docker_repo = "https://download.docker.com/linux/centos/docker-ce.repo"

abbrev ubuntu_docker_repo : String
ubuntu_docker_repo = "https://download.docker.com/linux/ubuntu"

abbrev pub docker_gpg_key_path : String
docker_gpg_key_path = "/etc/apt/keyrings/docker.asc"

abbrev pub apt_docker_repo_path : String
apt_docker_repo_path = "/etc/apt/sources.list.d/docker.list"

abbrev pub yum_docker_repo_path : String
yum_docker_repo_path = "/etc/yum.repos.d/docker-ce.repo"

-- New, once the manager is known
unfoldable pub of_manager : String → String → DistroPackageManager
of_manager containerd_source manager = record {
  manager = manager;
  install_verb = by_manager manager "install" "install";
  update_verb = by_manager manager "upgrade" "update";
  delete_verb = by_manager manager "autoremove" "remove";
  refresh_metadata_verb = by_manager manager "update" "makecache";
  docker_repo =
      if str_eq containerd_source source_docker
      then by_manager manager ubuntu_docker_repo centos_docker_repo
      else "";
}

abbrev choose : Bool → Bool → Result String
choose true _ = ok "yum"
choose false true = ok "apt"
choose false false =
    err (errorf "unsupported package manager encountered. Please run nodeadm from a supported os")

module _ (h : Host) where
  -- getOsPackageManager
  unfoldable pub os_package_manager : Exec String
  os_package_manager = do
    yum ← found h "yum"
    apt ← if yum then pure false else found h "apt"
    lift (choose yum apt)

  unfoldable pub new : String → Exec DistroPackageManager
  new containerd_source = do
    manager ← os_package_manager
    pure (of_manager containerd_source manager)

module _ (pm : DistroPackageManager) where
  abbrev package_of : String → Package
  package_of name = record {
    install_cmd = record { path = pm.manager; args = pm.install_verb ∷ name ∷ "-y" ∷ [] };
    uninstall_cmd = record { path = pm.manager; args = pm.delete_verb ∷ name ∷ "-y" ∷ [] };
    upgrade_cmd = record { path = pm.manager; args = pm.update_verb ∷ name ∷ "-y" ∷ [] };
  }

  unfoldable pub append_package_version : String → String → String
  append_package_version name version =
      if str_eq version ""
      then name
      else if str_eq pm.manager "yum"
      then name <> "-" <> version
      else if str_eq pm.manager "apt"
      then name <> "=" <> version
      else name

  unfoldable pub containerd_package_name : String → String
  unfolding append_package_version
  containerd_package_name version =
      append_package_version (if str_eq pm.docker_repo "" then "containerd" else "containerd.io")
        version

  unfoldable pub get_containerd : String → Package
  unfolding containerd_package_name
  get_containerd version = package_of (containerd_package_name version)

  unfoldable pub get_iptables : Package
  get_iptables = package_of "iptables"

  -- With apt the SSM agent is a snap.
  unfoldable pub get_ssm_package : Package
  get_ssm_package =
      if str_eq pm.manager "apt"
      then (record {
        install_cmd = record { path = "snap"; args = "install" ∷ "amazon-ssm-agent" ∷ [] };
        uninstall_cmd = record { path = "snap"; args = "remove" ∷ "amazon-ssm-agent" ∷ [] };
        upgrade_cmd = record { path = "snap"; args = "refresh" ∷ "amazon-ssm-agent" ∷ [] };
      })
      else package_of "amazon-ssm-agent"

module _ (h : Host) (pm : DistroPackageManager) where
  unfoldable pub refresh_metadata_cache : Exec Unit
  refresh_metadata_cache =
      retry h (record { path = pm.manager; args = pm.refresh_metadata_verb ∷ [] })

  unfoldable pub configure_yum : Exec Unit
  configure_yum = do
    runc ← found h "runc"
    when runc (
        wrapping "failed to remove runc using package manager"
          (retry h (package_of pm "runc").uninstall_cmd))
    wrapping "failed to install yum-utils using package manager"
        (retry h (package_of pm "yum-utils").install_cmd)
    utils ← found h "yum-config-manager"
    guard utils (errorf "failed to locate yum utils manager in $PATH")
    wrapping "failed adding docker repo to package manager"
        (act h (command "yum-config-manager" ("--add-repo" ∷ centos_docker_repo ∷ [])))

  -- `arch` is runtime.GOARCH and `code_name` what system.GetVersionCodeName gives.
  unfoldable pub configure_apt : String → String → Exec Unit
  configure_apt arch code_name = do
    wrapping "failed running commands to configure package manager"
        (retry h (package_of pm "ca-certificates").install_cmd)
    key ←
        wrapping "downloading docker gpg key"
          (get_source h "https://download.docker.com/linux/ubuntu/gpg")
    write_file_with_dir h docker_gpg_key_path key.contents
    write_file_with_dir h apt_docker_repo_path (
        codes (
          "deb [arch=" <> arch <> " signed-by=" <> docker_gpg_key_path <> "] " <> ubuntu_docker_repo
          <> " " <> code_name <> " stable\n"))
    wrapping "failed running commands to configure package manager" refresh_metadata_cache

  unfoldable pub configure : String → String → Exec Unit
  configure arch code_name =
      if str_eq pm.docker_repo ""
      then pure tt
      else if str_eq pm.manager "yum"
      then configure_yum
      else if str_eq pm.manager "apt"
      then configure_apt arch code_name
      else pure tt

  -- What os.Stat says of a repo file: it is removed if it is there.
  abbrev pub remove_if_there : String → Option Err → Exec Unit
  remove_if_there path none = wrapping "failed to remove docker repo" (os_remove h path)
  remove_if_there path (some not_exist) = pure tt
  remove_if_there path (some e) =
      lift (err (wrap "encountered error while trying to reach docker repo file" e))

  unfoldable pub remove_repo_file : String → Exec Unit
  remove_repo_file path w = remove_if_there path (h.act w.trace (stat path)) (log (stat path) w)

  -- A key that is not there is no error.
  abbrev tolerate : Result (Unit {0}) → Result (Unit {0})
  tolerate (ok _) = ok tt
  tolerate (err not_exist) = ok tt
  tolerate (err e) = err e

  unfoldable pub remove_key : Exec Unit
  remove_key w = let (r, w') = os_remove h docker_gpg_key_path w in (tolerate r, w')

  unfoldable pub uninstall_docker_repo : Exec Unit
  uninstall_docker_repo =
      if str_eq pm.manager "yum"
      then remove_repo_file yum_docker_repo_path
      else if str_eq pm.manager "apt"
      then remove_key >> remove_repo_file apt_docker_repo_path
      else pure tt

  unfoldable pub cleanup : Exec Unit
  cleanup = if str_eq pm.docker_repo "" then pure tt else uninstall_docker_repo
