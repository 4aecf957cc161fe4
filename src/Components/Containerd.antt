-- ===== src/Components/Containerd.antt =====
-- internal/containerd/install.go, and the version of internal/containerd/version.go
use eks_hybrid.Base.{
  ℕ, String, ◌<>◌, Bool, ◌&&◌, str_eq, ◌==◌, if◌then◌else◌, errorf, Result, ok, err,
}
use eks_hybrid.Machine.{
  Host, Exec, pure, lift, ◌>>=◌, ◌>>◌, wrapping, when, found, retry, os_remove_all,
}
use eks_hybrid.PackageManager.{DistroPackageManager, get_containerd}
use eks_hybrid.Tracker.{source_none}

abbrev pub config_dir : String
config_dir = "/etc/containerd"

-- artifactsTracker.Artifacts.Containerd = source
unfoldable pub set_source : String → Exec Unit
set_source s w = (ok tt, record w { artifacts = record w.artifacts { containerd = s } })

module _ (h : Host) where
  unfoldable pub version_constraint : String → String
  version_constraint kubernetes_version =
      if h.semver_lt ("v" <> kubernetes_version) "v1.30.0" then "1.*" else ""

  -- Both are looked up, whatever the first answer is.
  unfoldable pub are_containerd_and_runc_installed : Exec Bool
  are_containerd_and_runc_installed = do c ← found h "containerd"; r ← found h "runc"; pure (c && r)

module _ (h : Host) (pm : DistroPackageManager) where
  abbrev install_package : String → String → Exec Unit
  install_package containerd_source kubernetes_version = do
    wrapping "installing containerd"
        (retry h (get_containerd pm (version_constraint h kubernetes_version)).install_cmd)
    set_source containerd_source

  abbrev install_unless : String → String → Bool → Exec Unit
  install_unless containerd_source kubernetes_version installed =
      if installed
      then set_source source_none
      else install_package containerd_source kubernetes_version

  unfoldable pub install : String → String → Exec Unit
  install containerd_source kubernetes_version =
      if str_eq containerd_source source_none
      then set_source source_none
      else are_containerd_and_runc_installed h
        >>= install_unless containerd_source kubernetes_version

  unfoldable pub uninstall : Exec Unit
  uninstall = do
    installed ← found h "containerd"
    when installed (do
      wrapping "uninstalling containerd" (retry h (get_containerd pm "").uninstall_cmd)
      wrapping "removing containerd config files" (os_remove_all h config_dir))

  -- the constraint that pins the installed major version
  unfoldable pub pinned_constraint : ℕ → Result String
  pinned_constraint major =
      if major == 1
      then ok "1.*"
      else if major == 2
      then ok "2.0.*"
      else err (errorf "unsupported containerd major version")

  -- `major` is what GetContainerdMajorVersion gives.
  unfoldable pub upgrade : Result ℕ → String → Bool → Exec Unit
  unfolding pinned_constraint
  upgrade major kubernetes_version skip_major_upgrade = do
    constraint ←
        if skip_major_upgrade
        then lift major >>= (λ m. lift (pinned_constraint m))
        else pure (version_constraint h kubernetes_version)
    wrapping "upgrading containerd" (retry h (get_containerd pm constraint).upgrade_cmd)
