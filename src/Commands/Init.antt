-- ===== src/Commands/Init.antt =====
-- cmd/nodeadm/init/init.go, with ValidateSystemdUnitFile of internal/containerd/install.go
use eks_hybrid.Base.{
  String, contains, str_eq, Bool, true, false, not, List, errorf, Result, ok, err,
}
use eks_hybrid.Machine.{Host, Exec, lift, ◌>>=◌, ◌>>◌, wrapping, reporting, guard, when}
use eks_hybrid.Tracker.{InstalledArtifacts}
use eks_hybrid.Flows.Init
use eks_hybrid.Flows.Uninstall.{DaemonStatus, running, stopped, unknown, get_daemon_status}
use eks_hybrid.System.Firewall.{Firewall}
use eks_hybrid.System.Aspects.{validate_open_ports}
use eks_hybrid.Commands.Run.{Cli, root_of, private_rule, with_installed}

abbrev pub found_status : Result DaemonStatus → Result (Unit {0})
found_status (ok running) = ok tt
found_status (ok stopped) = ok tt
found_status (ok unknown) = err (errorf "containerd daemon not found")
found_status (err e) = err (errorf "containerd daemon not found")

module _ (h : Host) (c : Cli) where
  unfoldable pub validate_systemd_unit_file : Exec Unit
  validate_systemd_unit_file = do
    c.new_daemon_manager
    c.daemon_reload
    (λ w. let (r, w') = get_daemon_status h "containerd" w in (found_status r, w'))

  module _ {S : Type 0} (f : Firewall S) (rules : S) (config_source override : String)
      (private_mode : Bool) (skip : List String) where
    unfoldable pub init_node : Exec Unit
    init_node = do
      when (not (contains skip "cni-validation")) (
          reporting
            "Cilium (8472/udp) or Calico (4789/udp) VxLan ports are not open on the host. If you are not using VxLan, this validation can by bypassed with --skip cni-validation"
            (validate_open_ports f rules))
      (provider, config) ← c.new_node_provider config_source skip
      Init.run (record {
        provider = provider;
        skip_phases = skip;
        manifest_override = override;
        default_url = c.default_url;
        fetch_manifest = c.fetch_manifest;
      })

    unfoldable pub init_installed : InstalledArtifacts → Exec Unit
    init_installed a = do
      wrapping "a systemd unit file for containerd is required to init the node"
          validate_systemd_unit_file
      init_node

    unfoldable pub check_install : Bool → Exec Unit
    check_install true = init_node
    check_install false = with_installed h c init_installed

    unfoldable pub run_init : Exec Unit
    run_init = do
      lift (root_of c.is_root)
      guard (not (str_eq config_source "")) (errorf "--config-source is a required flag")
      private_rule private_mode override
      check_install (contains skip "install-validation")
