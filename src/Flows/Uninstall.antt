-- ===== src/Flows/Uninstall.antt =====
-- internal/flows/uninstall.go, with StopDaemon and GetDaemonStatus of internal/daemon/systemd.go
use eks_hybrid.Base.{String, ◌<>◌, Bool, true, false, not, str_eq, if◌then◌else◌, Result, ok, err}
use eks_hybrid.Machine.{
  unit_status, unit_stop, service, Host, Exec, pure, ◌>>=◌, ◌>>◌, wrapping, when, act,
  os_remove_all,
}
use eks_hybrid.Tracker.{InstalledArtifacts, source_none}
use eks_hybrid.PackageManager.{DistroPackageManager, cleanup}
use eks_hybrid.Components.Binaries.{
  uninstall_kubectl, uninstall_authenticator, uninstall_image_credential_provider,
}
use eks_hybrid.Components.Kubelet
use eks_hybrid.Components.Cni
use eks_hybrid.Components.IamRolesAnywhere
use eks_hybrid.Components.Iptables
use eks_hybrid.Components.Containerd
use eks_hybrid.Components.Ssm
use eks_hybrid.Flows.Store.{clear}

pub data DaemonStatus : Type 0 where
  running stopped unknown : DaemonStatus

abbrev pub status_of : String → DaemonStatus
status_of s =
    if str_eq s "\"active\"" then running else if str_eq s "\"inactive\"" then stopped else unknown

abbrev pub is_running : DaemonStatus → Bool
is_running running = true
is_running _ = false

module _ (h : Host) where
  unfoldable pub get_daemon_status : String → Exec DaemonStatus
  get_daemon_status name = do
    act h (unit_status (name <> ".service"))
    (λ w. (ok (status_of (h.text w.trace (unit_status (name <> ".service")))), w))

  unfoldable pub stop_daemon : String → Exec Unit
  stop_daemon name = do
    status ← get_daemon_status name
    when (is_running status) (act h (unit_stop (name <> ".service")))

pub record Uninstaller : Type 0 where
  pub artifacts : InstalledArtifacts
  pub package_manager : DistroPackageManager

module _ (h : Host) (u : Uninstaller) where
  -- The status is asked first. It is unknown whenever asking failed, so the daemon is stopped
  -- exactly if asking succeeded.
  abbrev pub stop_if_known : Result DaemonStatus → Exec Unit
  stop_if_known (ok _) = stop_daemon h "aws_signing_helper_update"
  stop_if_known (err _) = pure tt

  unfoldable pub stop_signing_helper : Exec Unit
  stop_signing_helper w =
      let (r, w') = get_daemon_status h "aws_signing_helper_update" w in stop_if_known r w'

  unfoldable pub uninstall_kubelet_daemon : Exec Unit
  uninstall_kubelet_daemon = do stop_daemon h "kubelet"; Kubelet.uninstall h

  unfoldable pub uninstall_ssm_daemon : Exec Unit
  uninstall_ssm_daemon = do
    stop_daemon h "amazon-ssm-agent"
    region ← Ssm.get_region h
    act h (service ("LoadDefaultConfig " <> region))
    wrapping "uninstalling SSM" (Ssm.uninstall h u.package_manager)

  unfoldable pub uninstall_containerd_daemon : Exec Unit
  uninstall_containerd_daemon = do
    stop_daemon h "containerd"
    Containerd.uninstall h u.package_manager

  unfoldable pub uninstall_daemons : Exec Unit
  uninstall_daemons = do
    when u.artifacts.kubelet uninstall_kubelet_daemon
    when u.artifacts.ssm uninstall_ssm_daemon
    when u.artifacts.iam_roles_anywhere stop_signing_helper
    when (not (str_eq u.artifacts.containerd source_none)) uninstall_containerd_daemon

  unfoldable pub uninstall_binaries : Exec Unit
  uninstall_binaries = do
    when u.artifacts.kubectl (uninstall_kubectl h)
    when u.artifacts.cni_plugins (Cni.uninstall h)
    when u.artifacts.iam_authenticator (uninstall_authenticator h)
    when u.artifacts.iam_roles_anywhere (IamRolesAnywhere.uninstall h)
    when u.artifacts.image_credential_provider (uninstall_image_credential_provider h)
    when u.artifacts.iptables (Iptables.uninstall h u.package_manager)

  unfoldable pub clean_up : Exec Unit
  clean_up = do cleanup h u.package_manager; os_remove_all h "/etc/eks"

  -- (*Uninstaller).Run
  unfoldable pub run : Exec Unit
  run = do uninstall_daemons; uninstall_binaries; clean_up; clear h
