-- ===== src/Examples/Rules.antt =====
-- The theorems on the rules, on checksums and on init, applied to small inputs.
use eks_hybrid.Base.{
  ◌/◌, pos, ℕ, ◌+◌, ◌*◌, ◌≤◌, String, str_eq, codes, ◌≡◌, ◌↔◌, refl, subst, Bool, true, false, inl,
  Option, none, some, if◌then◌else◌, List, [], ◌∷◌, ◌++◌, All, arith, Err, errorf, Result, ok, err,
}
use mathlib.Core.List.{Memᴰ}
use eks_hybrid.Tracker.{no_artifacts}
use eks_hybrid.Machine.{Bytes, World, Exec, lift, pure}
use eks_hybrid.Machine.Triple.{Keeps}
use eks_hybrid.Artifact.Checksum.{parse_gnu_checksum}
use eks_hybrid.Artifact.Gnu.{encode_hex, parse_gnu_checksum-encode_hex}
use eks_hybrid.Flows.Init
use eks_hybrid.Flows.Init.{Daemon, NodeProvider, Initer, init_daemons}
use eks_hybrid.Flows.Phases.{init_daemons-no_run, run-validation_failed}
use eks_hybrid.Rules.Reserved.{
  reserved_memory, in_mib, table_memory, reserved_cpu, table_cpu, reserved_memory-table_memory,
  reserved_memory_mono, reserved_cpu-table_cpu,
}
use eks_hybrid.Rules.Network.{
  Interface, Net, RemoteNetworks, node_cidrs, networks_of, contains_ip, get_node_ip, validate,
}
use eks_hybrid.Rules.NetworkValid.{validate-InSome, validate-InRange, Serves, InRange}
use eks_hybrid.Rules.Runner.{
  Validation, warning, plain, passed, sequentially, OnlyWarns, sequentially-passed,
}

parse_gnu_checksum-encode_hex_example :
    parse_gnu_checksum (encode_hex (171 ∷ 5 ∷ []) ++ (32 ∷ codes "kubelet")) ≡ ok (171 ∷ 5 ∷ [])
parse_gnu_checksum-encode_hex_example =
    parse_gnu_checksum-encode_hex (171 ∷ 5 ∷ []) (codes "kubelet") (omega arith, (omega arith, tt))

reserved_memory-table_memory_example :
    reserved_memory 68719476736 ≡ table_memory (68719476736 / 1073741824)
reserved_memory-table_memory_example = reserved_memory-table_memory 68719476736

reserved_memory_mono_example :
    in_mib (reserved_memory 8589934592) ≤ in_mib (reserved_memory 17179869184)
reserved_memory_mono_example =
    reserved_memory_mono 8589934592 17179869184 (omega arith) (omega arith)

reserved_cpu-table_cpu_example : reserved_cpu 8000 ≡ pos (table_cpu 8000)
reserved_cpu-table_cpu_example = reserved_cpu-table_cpu 8000

abbrev address : Bytes
address = 10 ∷ 0 ∷ 0 ∷ 7 ∷ []

abbrev eth0 : Interface
eth0 = record { loopback = false; up = true; mtu = 1500; addrs = ok (some address ∷ []) }

abbrev one_net : Net
one_net = record {
  parse_ip = λ s. some address;
  parse_cidr = λ s. if str_eq s "10.0.0.0/16" then ok (λ ip. true) else ok (λ ip. false);
  is_v4 = λ ip. true;
  is_v16 = λ ip. false;
  is_loopback = λ ip. false;
  is_multicast = λ ip. false;
  is_link_local = λ ip. false;
  is_unspecified = λ ip. false;
  equal = λ a b. true;
  lookup_ip = λ s. [];
  resolve_bind_address = λ a. ok a;
  interface_addrs = ok [];
  interfaces = ok (eth0 ∷ []);
}

abbrev networks : List (List String)
networks = ("10.1.0.0/16" ∷ []) ∷ ("" ∷ "10.0.0.0/16" ∷ []) ∷ []

abbrev cluster : RemoteNetworks
cluster = some (some networks)

abbrev node_args : List String
node_args = "--v=2" ∷ "--node-ip=10.0.0.7" ∷ []

validate-InSome_example :
    (ns : List (List String)) × (ip : Bytes) × (cidr : String) × (networks_of cluster ≡ ok ns
      × get_node_ip one_net node_args "" ≡ ok ip
      × Memᴰ cidr (node_cidrs ns)
      × contains_ip one_net cidr ip ≡ ok true)
unfolding validate eks_hybrid.Base.cut_prefix eks_hybrid.Rules.Network.is_ip_in_cidrs
    eks_hybrid.Rules.Network.in_some_cidr eks_hybrid.Rules.Network.validate_interface_mtu
validate-InSome_example = validate-InSome one_net true cluster node_args "" refl

validate-InRange_example :
    (ip : Bytes) × (is : List Interface) × (i : Interface) × (get_node_ip one_net node_args ""
        ≡ ok ip
      × one_net.interfaces ≡ ok is
      × Memᴰ i is
      × Serves one_net ip i
      × InRange one_net i.mtu)
unfolding validate eks_hybrid.Base.cut_prefix eks_hybrid.Rules.Network.is_ip_in_cidrs
    eks_hybrid.Rules.Network.in_some_cidr eks_hybrid.Rules.Network.validate_interface_mtu
validate-InRange_example = validate-InRange one_net cluster node_args "" refl

abbrev slow_clock : Validation ℕ
slow_clock = record {
  name = "ntp";
  validate = λ o. (some (warning (plain "not synchronised") "start chrony"), o);
}

sequentially-passed_example :
    (sequentially (λ a b. true) (slow_clock ∷ []) 3 ≡ passed) ↔ All (OnlyWarns 3) (slow_clock ∷ [])
sequentially-passed_example = sequentially-passed 3 (λ a b. true) (slow_clock ∷ []) (refl, tt) refl

abbrev HasNoFile : World → Type 0
HasNoFile w = w.files "/etc/kubernetes/kubelet" ≡ none

abbrev provider : NodeProvider
provider = record {
  populate_defaults = λ w. w;
  validate_config = pure tt;
  configure_aws = pure tt;
  enrich = λ r. pure tt;
  validate = lift (err (errorf "node validation"));
  aspects = [];
  pre_process_daemon = pure tt;
  daemons = pure [];
  cleanup = pure tt;
  region = "us-west-2";
}

abbrev bare_world : World
bare_world = record { trace = []; files = λ p. none; artifacts = no_artifacts }

abbrev initer : Initer
initer = record {
  provider = provider;
  skip_phases = [];
  manifest_override = "";
  default_url = "https://example.com/manifest.yaml";
  fetch_manifest = λ u. lift (err (errorf "no network"));
}

run-validation_failed_example :
    (e : Err) × ((Init.run initer bare_world).0 ≡ err e × HasNoFile (Init.run initer bare_world).1)
unfolding Init.region_config eks_hybrid.Machine.◌>>=◌
run-validation_failed_example =
    run-validation_failed HasNoFile initer (λ w p. p) (record { at = λ w p. p })
      (record { at = λ w p. p }) (record { at = λ w p. p }) (λ r. record { at = λ w p. p })
      (record { at = λ w p. p }) (λ w. (errorf "node validation", refl)) bare_world refl

abbrev no_file : Exec Unit
no_file w = (ok tt, record w { files = λ p. none })

abbrev writing : Exec Unit
writing w = (ok tt, record w { files = λ p. some [] })

abbrev daemon : Daemon
daemon = record { configure = no_file; ensure_running = writing; post_launch = writing }

abbrev one_daemon : NodeProvider
one_daemon = record provider { daemons = pure (daemon ∷ []) }

listed :
    (w : World) (ds : List Daemon)
    → (one_daemon.daemons w).0 ≡ ok ds
    → All (λ d. Keeps HasNoFile d.configure) ds
listed w ds e =
    subst (All (λ d. Keeps HasNoFile d.configure)) (injective e) (record { at = λ v p. refl }, tt)
  where
    injective : {x y : List Daemon} → ok x ≡ ok y → x ≡ y
    injective e = cc

init_daemons-no_run_example : HasNoFile (init_daemons one_daemon ("run" ∷ []) bare_world).1
unfolding eks_hybrid.Base.contains
init_daemons-no_run_example =
    init_daemons-no_run HasNoFile one_daemon ("run" ∷ []) refl (record { at = λ w p. p })
      (record { at = λ w p. p }) listed bare_world refl
