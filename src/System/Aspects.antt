-- ===== src/System/Aspects.antt =====
-- internal/system/ports.go, sysctl.go, networking.go and local_disk.go: the aspects of the system
-- that are set up, and validateFirewallOpenPorts of cmd/nodeadm/init/init.go
use eks_hybrid.Base.{String, str_eq, Bool, true, false, not, ◌&&◌, [], ◌∷◌, errorf, Result, ok, err}
use eks_hybrid.Machine.{
  Bytes, Host, command, mkdir_all, Exec, pure, lift, ◌>>=◌, ◌>>◌, wrapping, reporting, guard, when,
  act, os_write_file, write_file_with_dir,
}
use eks_hybrid.Config.Defs.{NodeConfig}
use eks_hybrid.System.Firewall.{Firewall}

module _ {S : Type 0} (f : Firewall S) where
  unfoldable pub allow_ports : Exec Unit
  allow_ports = do
    f.allow_tcp_port "10250"
    f.allow_tcp_port "10256"
    f.allow_tcp_port_range "30000" "32767"
    f.flush_rules

  -- A firewall whose state cannot be read is left alone.
  abbrev pub if_enabled : Result Bool → Exec Unit
  if_enabled (ok true) = allow_ports
  if_enabled (ok false) = pure tt
  if_enabled (err e) = pure tt

  -- Setup of the ports aspect
  unfoldable pub set_up_ports : Exec Unit
  set_up_ports w = let (r, w') = f.is_enabled w in if_enabled r w'

  unfoldable pub check_vxlan : S → Exec Unit
  check_vxlan s = do
    f.flush_rules
    (cilium, s') ← f.is_port_open s "8472" "udp"
    (calico, s'') ← f.is_port_open s' "4789" "udp"
    guard (not (not cilium && not calico)) (errorf "both cilium and calico vxlan ports are closed")

  -- validateFirewallOpenPorts
  unfoldable pub validate_open_ports : S → Exec Unit
  validate_open_ports s = do enabled ← f.is_enabled; when enabled (check_vxlan s)

module _ (h : Host) where
  -- Setup of the sysctl aspect, with the embedded file
  unfoldable pub set_up_sysctl : Bytes → Exec Unit
  set_up_sysctl data_file = do
    write_file_with_dir h "/etc/sysctl.d/99-nodeadm.conf" data_file
    reporting "running sysctl reload command" (act h (command "sysctl" ("--system" ∷ [])))

  abbrev pub primary_eni_conf : String
  primary_eni_conf = "/etc/systemd/network/80-ec2.network.d/10-eks_primary_eni_only.conf"

  unfoldable pub write_network_conf : Bytes → Exec Unit
  write_network_conf conf = do
    wrapping "failed to create network configuration drop-in directory"
        (act h (mkdir_all "/etc/systemd/network/80-ec2.network.d"))
    wrapping "failed to write eks_primary_eni_only network configuration"
        (os_write_file h primary_eni_conf conf)
    wrapping "failed to reload network configurations"
        (act h (command "networkctl" ("reload" ∷ [])))

  abbrev pub unless_there : Bool → Result Bytes → Exec Unit
  unless_there true conf = pure tt
  unless_there false conf = do
    b ← wrapping "failed to generate eks_primary_eni_only network configuration" (lift conf)
    write_network_conf b

  -- Setup of the networking aspect; IsFilePathExists and the template are the arguments
  unfoldable pub set_up_networking : Exec Bool → (String → Result Bytes) → NodeConfig → Exec Unit
  set_up_networking path_exists template c =
      wrapping "failed to ensure eks network configuration" (do
        there ←
            wrapping "failed to check eks_primary_eni_only network configuration existance"
              path_exists
        unless_there there (template c.status.instance_details.mac))

  -- Setup of the local disk aspect, with strings.ToLower
  unfoldable pub set_up_local_disk : (String → String) → NodeConfig → Exec Unit
  set_up_local_disk to_lower c =
      when (not (str_eq c.spec.local_storage_strategy ""))
        (act h (command "setup-local-disks" (to_lower c.spec.local_storage_strategy ∷ [])))
