-- ===== src/Examples/Flows.antt =====
-- The theorems on the flows, applied to runs on that machine.
use eks_hybrid.Examples.Quiet.{
  codec, distro, empty_world, installer, joins, quiet_host, tracked_world, used_world, west,
}
use eks_hybrid.Machine.{Cmd, retry, pure}
use eks_hybrid.Flows.Init.{NodeProvider}
use eks_hybrid.Flows.Upgrade
use eks_hybrid.Flows.Upgrade.{Upgrader}
use eks_hybrid.Flows.Upgraded.{AllCurrent, upgrade_eks_artifacts-AllCurrent}
use eks_hybrid.Base.{◌≡◌, refl, false, none, [], ◌∷◌, ok}
use eks_hybrid.Tracker.{InstalledArtifacts, no_artifacts, source_none}
use eks_hybrid.Machine.{
  Bytes, Call, TarItem, tar_file, Source as Download, Host, World, under, attempts, or_empty,
}
use eks_hybrid.Artifact.Install.{valid_rel_path}
use eks_hybrid.Components.Cni.{bin_path}
use eks_hybrid.PackageManager.{DistroPackageManager, of_manager}
use eks_hybrid.Flows.Install
use eks_hybrid.Flows.Install.{Installer}
use eks_hybrid.Flows.Saved.{Saved}
use mathlib.Core.List.Memᴰ.{head, tail}
use eks_hybrid.Artifact.Upgrade.{upgrade}
use eks_hybrid.Components.Cni
use eks_hybrid.Components.Download.{Binary, download_file_with_retries}
use eks_hybrid.Components.Ssm
use eks_hybrid.Components.Ssm.{
  write_file_unique_line, Fields, end, field, object, number, get_field, ssm_section,
  with_credential_retry,
}
use eks_hybrid.Flows.Store.{save, get_current_state}
use eks_hybrid.Flows.Loaded.{save-get_current_state}
use eks_hybrid.Flows.Uninstall
use eks_hybrid.Flows.Uninstall.{Uninstaller}
use eks_hybrid.Flows.Removed.{run-Removed}
use eks_hybrid.Flows.Installed.{Installed, run-Installed}

run-Installed_example :
    Installed quiet_host (7 ∷ []) (Install.run quiet_host installer empty_world).1
    × Saved quiet_host (Install.run quiet_host installer empty_world).1
unfolding Install.run Install.install_all Install.install_distro_packages Install.install_rest
    Install.install_credential_process Install.install_eks_artifacts of_manager valid_rel_path under
    eks_hybrid.Machine.◌>>=◌ eks_hybrid.Flows.Store.get_current_state
    eks_hybrid.Flows.Store.get_installed_artifacts eks_hybrid.Machine.os_read_file
    eks_hybrid.PackageManager.configure eks_hybrid.Components.Containerd.install
    eks_hybrid.Components.Containerd.set_source eks_hybrid.Components.Iptables.install
    eks_hybrid.Machine.found eks_hybrid.Components.IamRolesAnywhere.install
    eks_hybrid.Machine.wrapping eks_hybrid.Components.Download.download_file_with_retries
    eks_hybrid.Artifact.Checksum.bytes_eq eks_hybrid.Artifact.Checksum.verify_checksum
    eks_hybrid.Artifact.Install.install_file eks_hybrid.Artifact.Install.install_item
    eks_hybrid.Artifact.Install.install_items eks_hybrid.Artifact.Install.install_tar_gz
    eks_hybrid.Components.Binaries.install_authenticator
    eks_hybrid.Components.Binaries.install_image_credential_provider
    eks_hybrid.Components.Binaries.install_kubectl eks_hybrid.Components.Cni.download_file_to
    eks_hybrid.Components.Cni.install eks_hybrid.Components.Cni.install_from_source
    eks_hybrid.Components.Download.download_file_to eks_hybrid.Components.Download.track
    eks_hybrid.Components.Kubelet.install eks_hybrid.Components.Kubelet.install_systemd_unit
    eks_hybrid.Flows.Store.load eks_hybrid.Flows.Store.normalised eks_hybrid.Flows.Store.save
    eks_hybrid.Machine.act eks_hybrid.Machine.get_source eks_hybrid.Machine.io_copy
    eks_hybrid.Machine.os_open eks_hybrid.Machine.os_open_trunc eks_hybrid.Machine.os_remove_all
    eks_hybrid.Machine.os_write_file eks_hybrid.Machine.test eks_hybrid.Machine.write_file_with_dir
    eks_hybrid.Machine.attempts eks_hybrid.Machine.reporting eks_hybrid.Tracker.add
    eks_hybrid.Tracker.containerd_source eks_hybrid.Machine.os_remove
run-Installed_example = run-Installed quiet_host installer joins empty_world tt

save-get_current_state_example :
    (get_current_state quiet_host (save quiet_host tracked_world).1).0 ≡ ok tt
    × (get_current_state quiet_host (save quiet_host tracked_world).1).1.artifacts
      ≡ (save quiet_host tracked_world).1.artifacts
unfolding save eks_hybrid.Machine.◌>>=◌ eks_hybrid.Tracker.containerd_source
    eks_hybrid.Components.Containerd.set_source eks_hybrid.Machine.write_file_with_dir
    eks_hybrid.Machine.os_write_file eks_hybrid.Machine.act
save-get_current_state_example = save-get_current_state quiet_host codec tracked_world tt refl

abbrev uninstaller : Uninstaller
uninstaller = record { artifacts = tracked_world.artifacts; package_manager = distro }

run-Removed_example :
    (Uninstall.run quiet_host uninstaller used_world).1.files "/opt/cni/bin/bridge" ≡ none
unfolding Uninstall.run under eks_hybrid.Machine.◌>>=◌ Uninstall.uninstall_daemons
    Uninstall.uninstall_kubelet_daemon Uninstall.stop_daemon Uninstall.get_daemon_status
    eks_hybrid.Machine.act eks_hybrid.Components.Kubelet.uninstall
    eks_hybrid.Components.Gather.run_all eks_hybrid.Machine.os_remove_all
    Uninstall.uninstall_containerd_daemon eks_hybrid.Components.Containerd.uninstall
    eks_hybrid.Machine.found eks_hybrid.Machine.wrapping eks_hybrid.Machine.retry
    Uninstall.uninstall_binaries eks_hybrid.Components.Binaries.uninstall_kubectl Cni.uninstall
    eks_hybrid.Components.Binaries.uninstall_authenticator
    eks_hybrid.Components.Binaries.uninstall_image_credential_provider
    eks_hybrid.Components.Gather.gather eks_hybrid.Components.Gather.join
    eks_hybrid.Components.IamRolesAnywhere.uninstall eks_hybrid.Components.Iptables.uninstall
    Ssm.deregister Ssm.get_region Ssm.is_instance_managed Ssm.managed_instance_id Ssm.uninstall
    Ssm.uninstall_pre_register_components eks_hybrid.Flows.Store.clear Uninstall.clean_up
    Uninstall.stop_signing_helper Uninstall.uninstall_ssm_daemon eks_hybrid.Machine.note
    eks_hybrid.Machine.os_read_file eks_hybrid.Machine.os_remove eks_hybrid.Machine.test
    eks_hybrid.Machine.retry_loop eks_hybrid.PackageManager.append_package_version
    eks_hybrid.PackageManager.cleanup eks_hybrid.PackageManager.containerd_package_name
    eks_hybrid.PackageManager.get_containerd eks_hybrid.PackageManager.get_iptables
    eks_hybrid.PackageManager.get_ssm_package eks_hybrid.PackageManager.remove_key
    eks_hybrid.PackageManager.remove_repo_file eks_hybrid.PackageManager.uninstall_docker_repo
    of_manager
run-Removed_example =
    run-Removed quiet_host uninstaller Cni.root_dir "/opt/cni/bin/bridge"
      (tail (tail (tail (tail (tail (tail (tail (tail (head refl))))))))) refl used_world tt

abbrev node_provider : NodeProvider
node_provider = record {
  populate_defaults = λ w. w;
  validate_config = pure tt;
  configure_aws = pure tt;
  enrich = λ r. pure tt;
  validate = pure tt;
  aspects = [];
  pre_process_daemon = pure tt;
  daemons = pure [];
  cleanup = pure tt;
  region = "us-west-2";
}

abbrev upgrader : Upgrader
upgrader = record {
  artifacts = tracked_world.artifacts;
  eks_version = "1.31";
  package_manager = distro;
  credential_provider = "iam-ra";
  provider = node_provider;
  region_info = west;
  skip_phases = [];
  private_mode = false;
  json = installer.json;
  containerd_major = ok 1;
}

upgrade_eks_artifacts-AllCurrent_example :
    AllCurrent quiet_host (Upgrade.upgrade_eks_artifacts quiet_host upgrader used_world).1
unfolding Upgrade.upgrade_eks_artifacts eks_hybrid.Machine.◌>>=◌ eks_hybrid.Machine.wrapping
    eks_hybrid.Components.Kubelet.upgrade eks_hybrid.Components.Download.upgrade_binary
    eks_hybrid.Machine.get_source upgrade eks_hybrid.Artifact.Upgrade.checksum_match
    eks_hybrid.Machine.os_open eks_hybrid.Machine.os_read_file eks_hybrid.Artifact.Checksum.bytes_eq
    eks_hybrid.Artifact.Install.install_file eks_hybrid.Machine.os_remove_all eks_hybrid.Machine.act
    eks_hybrid.Machine.os_open_trunc eks_hybrid.Machine.io_copy
    eks_hybrid.Artifact.Checksum.verify_checksum eks_hybrid.Components.Binaries.upgrade_kubectl
    eks_hybrid.Artifact.Install.install_item eks_hybrid.Artifact.Install.install_items
    eks_hybrid.Artifact.Install.install_tar_gz valid_rel_path
    eks_hybrid.Components.Binaries.upgrade_authenticator
    eks_hybrid.Components.Binaries.upgrade_image_credential_provider Cni.download_file_to
    Cni.install_from_source Cni.upgrade eks_hybrid.Machine.os_remove under attempts
upgrade_eks_artifacts-AllCurrent_example =
    upgrade_eks_artifacts-AllCurrent quiet_host joins upgrader used_world tt
