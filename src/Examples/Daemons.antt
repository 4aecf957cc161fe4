-- ===== src/Examples/Daemons.antt =====
-- The theorems on daemons and on commands, applied to a machine on which every call succeeds.
use eks_hybrid.Base.{
  ℕ, suc, length, contains, ◌≡◌, refl, true, false, none, some, [], ◌∷◌, errorf, arith, ok, err,
  IsOk,
}
use eks_hybrid.Machine.{World, Exec, pure, lift}
use eks_hybrid.Tracker.{InstalledArtifacts, no_artifacts}
use eks_hybrid.Examples.Quiet.{empty_world, installer, quiet_host}
use eks_hybrid.Flows.Uninstall.{DaemonStatus, running, stopped, get_daemon_status}
use eks_hybrid.Daemons.Manager.{Bus, DaemonManager, systemd}
use eks_hybrid.Daemons.Wait.{wait_for_status}
use eks_hybrid.Daemons.Reached.{wait_for_status-reached}
use eks_hybrid.Daemons.Services.{Parts, ensure_containerd}
use eks_hybrid.Daemons.Running.{SeenRunning, ensure_containerd-SeenRunning}
use eks_hybrid.Node.Drained.{Pod}
use eks_hybrid.Commands.Preflight.{NodeAccess, node_is_drained}
use eks_hybrid.Commands.Run.{Cli}
use eks_hybrid.Commands.Guarded.{uninstall_installed-drained}

-- A daemon that is stopped until two waits have passed
abbrev status_after : ℕ → DaemonStatus
status_after (suc (suc n)) = running
status_after _ = stopped

abbrev slow_status : Exec DaemonStatus
slow_status w = (ok (status_after (length w.trace)), w)

wait_for_status-reached_example :
    IsOk (wait_for_status quiet_host 5 slow_status running empty_world).0
unfolding eks_hybrid.Daemons.Reached.polled eks_hybrid.Machine.note
wait_for_status-reached_example =
    wait_for_status-reached quiet_host slow_status running 5 2 empty_world (omega arith) refl

abbrev bus : Bus
bus = record {
  reload = pure tt;
  start_unit = λ n m. pure tt;
  restart_unit = λ n m. pure tt;
  enable_unit_files = λ fs. pure [];
  disable_unit_files = λ fs. pure ("unlink" ∷ []);
  close = pure tt;
}

abbrev manager : DaemonManager
manager = systemd quiet_host bus

abbrev parts : Parts
parts = record {
  containerd_config = λ image. ok [];
  kernel_modules = [];
  to_bytes = λ s. [];
  config_dump = λ w. [];
  config_version = λ b. ok 2;
  sandbox_image = λ b. some "pause";
  sandbox = λ b. none;
  signing_helper_unit = λ c. ok [];
  error_text = λ e. "";
  os_name = "ubuntu";
  shared_credentials_file = none;
}

ensure_containerd-SeenRunning_example :
    SeenRunning quiet_host manager parts "containerd"
      (ensure_containerd quiet_host manager parts empty_world)
unfolding ensure_containerd eks_hybrid.Machine.◌>>=◌ systemd
    eks_hybrid.Daemons.Manager.enable_daemon eks_hybrid.Daemons.Services.wait_running
    eks_hybrid.Machine.wrapping wait_for_status get_daemon_status eks_hybrid.Machine.act
ensure_containerd-SeenRunning_example =
    ensure_containerd-SeenRunning quiet_host manager parts empty_world tt

abbrev node_access : NodeAccess
node_access = record {
  get_node_name = pure "mi-0123";
  build_client = pure tt;
  pods_on = λ n. pure (record { name = "proxy"; controller = some "DaemonSet" } ∷ []);
  static_manifests = λ w. ok [];
  get_node = λ n. pure true;
  is_not_found = λ e. false;
}

abbrev cli : Cli
cli = record {
  is_root = ok true;
  os_name = "ubuntu";
  default_url = "https://manifest";
  fetch_manifest = λ u. lift (err (errorf "offline"));
  versions = record {
    is_valid = λ v. true;
    major_minor = λ v. v;
    lt = λ a b. false;
    parse_date = λ d. ok 0;
  };
  new_daemon_manager = pure tt;
  daemon_reload = pure tt;
  json = installer.json;
  unit_file = [];
  arch = "amd64";
  code_name = "jammy";
  containerd_major = ok 1;
  new_node_provider = λ s k. lift (err (errorf "no configuration"));
}

abbrev kubelet_only : InstalledArtifacts
kubelet_only = record no_artifacts { kubelet = true }

uninstall_installed-drained_example :
    (node_is_drained node_access
      (get_daemon_status quiet_host "kubelet" (cli.new_daemon_manager empty_world).1).1).0
    ≡ ok true
unfolding contains get_daemon_status eks_hybrid.Machine.◌>>=◌ eks_hybrid.Machine.act
    eks_hybrid.Commands.Run.uninstall_installed eks_hybrid.Commands.Preflight.preflight
    eks_hybrid.Commands.Preflight.check_running eks_hybrid.Commands.Preflight.check_pods
    eks_hybrid.Commands.Preflight.check_drained eks_hybrid.Machine.wrapping node_is_drained
    eks_hybrid.Node.Drained.is_drained eks_hybrid.Node.Drained.get_static_pods
    eks_hybrid.Node.Drained.names_in eks_hybrid.Node.Drained.reject
    eks_hybrid.Commands.Preflight.check_node eks_hybrid.Commands.Preflight.is_unscheduled
    eks_hybrid.Commands.Preflight.get_current_node eks_hybrid.Commands.Run.clean_directories
    eks_hybrid.Components.Binaries.uninstall_authenticator
    eks_hybrid.Components.Binaries.uninstall_image_credential_provider
    eks_hybrid.Components.Binaries.uninstall_kubectl eks_hybrid.Components.Cni.uninstall
    eks_hybrid.Components.Containerd.uninstall eks_hybrid.Components.Gather.gather
    eks_hybrid.Components.Gather.join eks_hybrid.Components.Gather.run_all
    eks_hybrid.Components.IamRolesAnywhere.uninstall eks_hybrid.Components.Iptables.uninstall
    eks_hybrid.Components.Kubelet.uninstall eks_hybrid.Components.Ssm.deregister
    eks_hybrid.Components.Ssm.get_region eks_hybrid.Components.Ssm.is_instance_managed
    eks_hybrid.Components.Ssm.managed_instance_id eks_hybrid.Components.Ssm.uninstall
    eks_hybrid.Components.Ssm.uninstall_pre_register_components eks_hybrid.Flows.Store.clear
    eks_hybrid.Flows.Uninstall.clean_up eks_hybrid.Flows.Uninstall.run
    eks_hybrid.Flows.Uninstall.stop_daemon eks_hybrid.Flows.Uninstall.stop_signing_helper
    eks_hybrid.Flows.Uninstall.uninstall_binaries
    eks_hybrid.Flows.Uninstall.uninstall_containerd_daemon
    eks_hybrid.Flows.Uninstall.uninstall_daemons eks_hybrid.Flows.Uninstall.uninstall_kubelet_daemon
    eks_hybrid.Flows.Uninstall.uninstall_ssm_daemon eks_hybrid.Machine.found eks_hybrid.Machine.note
    eks_hybrid.Machine.os_read_file eks_hybrid.Machine.os_remove eks_hybrid.Machine.os_remove_all
    eks_hybrid.Machine.test eks_hybrid.Machine.under eks_hybrid.Machine.retry
    eks_hybrid.Machine.retry_loop eks_hybrid.PackageManager.append_package_version
    eks_hybrid.PackageManager.cleanup eks_hybrid.PackageManager.containerd_package_name
    eks_hybrid.PackageManager.get_containerd eks_hybrid.PackageManager.get_iptables
    eks_hybrid.PackageManager.get_ssm_package eks_hybrid.PackageManager.new
    eks_hybrid.PackageManager.of_manager eks_hybrid.PackageManager.os_package_manager
    eks_hybrid.PackageManager.remove_key eks_hybrid.PackageManager.remove_repo_file
    eks_hybrid.PackageManager.uninstall_docker_repo
uninstall_installed-drained_example =
    uninstall_installed-drained node_access quiet_host cli [] true kubelet_only empty_world refl
      refl refl tt
