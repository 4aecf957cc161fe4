-- ===== src/Components/Kubelet.antt =====
-- internal/kubelet/install.go
use eks_hybrid.Base.{
  String, str_eq, if◌then◌else◌, List, [], ◌∷◌, ◌++◌, map, not_exist, wrap, Result, ok, err,
}
use eks_hybrid.Machine.{
  Bytes, Host, Exec, lift, gets, ◌>>=◌, ◌>>◌, wrapping, reporting, os_remove_all,
}
use eks_hybrid.Artifact.Install.{install_file}
use eks_hybrid.Components.Download.{Binary, track, download_file_with_retries, upgrade_binary}
use eks_hybrid.Components.Gather.{run_all}

abbrev pub kubelet_binary : Binary
kubelet_binary = record { name = "kubelet"; label = "kubelet"; path = "/usr/bin/kubelet" }

abbrev pub unit_path : String
unit_path = "/etc/systemd/system/kubelet.service"

abbrev pub current_cert_path : String
current_cert_path = "/var/lib/kubelet/pki/kubelet-server-current.pem"

abbrev pub kubeconfig_path : String
kubeconfig_path = "/var/lib/kubelet/kubeconfig"

abbrev pub kubelet_config_dir : String
kubelet_config_dir = "/etc/kubernetes"

abbrev pub paths_to_remove : List String
paths_to_remove =
    "/usr/bin/kubelet" ∷ unit_path ∷ kubeconfig_path ∷ kubelet_config_dir ∷ current_cert_path ∷ []

-- The symbolic link's target, with the error that is reported when it does not resolve.
abbrev pub resolved_errors : Result String → List (Exec (Unit {0}))
resolved_errors (ok _) = []
resolved_errors (err not_exist) = []
resolved_errors (err e) = lift (err (wrap "resolving symlink for kubelet cert" e)) ∷ []

abbrev pub resolved_paths : Result String → List String
resolved_paths (ok p) = if str_eq p "" then [] else p ∷ []
resolved_paths (err _) = []

module _ (h : Host) (unit_file : Bytes) where
  unfoldable pub install_systemd_unit : Exec Unit
  install_systemd_unit =
      reporting "failed to install kubelet systemd unit" (install_file h unit_path unit_file)

  unfoldable pub install : Exec Unit
  install = do
    wrapping "installing kubelet" (download_file_with_retries h kubelet_binary)
    wrapping "installing systemd unit" install_systemd_unit
    wrapping "adding kubelet to tracker" (track "kubelet")

module _ (h : Host) where
  unfoldable pub uninstall : Exec Unit
  uninstall = do
    actual ← gets (λ w. h.eval_symlinks w.trace current_cert_path)
    run_all
        (resolved_errors actual ++ map (os_remove_all h) (paths_to_remove ++ resolved_paths actual))

  unfoldable pub upgrade : Exec Unit
  upgrade = upgrade_binary h kubelet_binary
