-- ===== src/Kubelet/Config.antt =====
-- internal/kubelet/config.go and internal/api/net.go: the configuration that is generated for
-- kubelet. What is read of the machine, the network and the instance's metadata is a parameter.
use eks_hybrid.Base.{
  ℤ, pos, ℕ, ◌+◌, ◌*◌, ◌%◌, ◌^◌, String, ◌<>◌, str_eq, split_at, if◌then◌else◌, Bool, Option, none,
  some, List, [], ◌∷◌, errorf, Result, ok, err,
}
use eks_hybrid.Machine.{Exec, lift, ◌>>=◌, ◌>>◌, when}
use eks_hybrid.Rules.Reserved.{Amount, mi, reserved_memory, reserved_cpu}
use eks_hybrid.Config.Defs.{
  ClusterDetails, NodeConfig, NodeType, ssm_node, iam_roles_anywhere_node, ec2_node, outpost_node,
  get_node_type, is_hybrid_node, is_outpost_node,
}
use eks_hybrid.Kubelet.NodeName.{provider_id, hybrid_provider_id}
use eks_hybrid.Kubelet.Defs.{Table, set_key, KubeletConfig, default_sub_config}

pub data IpFamily : Type 0 where
  ipv4 ipv6 : IpFamily

pub record KubeletHost : Type 0 where
  -- GetKubeletVersion, and semver.Compare(v, w) < 0
  pub version : Result String
  pub semver_lt : String → String → Bool
  -- GetCIDRIpFamily over net.ParseCIDR, and s[:strings.LastIndex(s, ".")]
  pub ip_family : String → Result IpFamily
  pub before_last_dot : String → String
  -- url.Parse(endpoint).Host, net.LookupHost, and the write to /etc/hosts
  pub host_of : String → Result String
  pub lookup_host : String → Result (List String)
  pub append_hosts : String → Exec Unit
  -- a value of the instance's metadata
  pub metadata : String → Result String
  pub memory_capacity : Result ℕ
  pub milli_cores : Result ℕ
  -- MaxPodsPerInstanceType, and CalcMaxPods on a type that is not in it
  pub max_pods : String → Option ℕ
  pub calc_max_pods : String → String → ℕ
  pub os_name : String

abbrev pub first_part : List String → String
first_part [] = ""
first_part (s ∷ ss) = s

abbrev pub type_name : NodeType → String
type_name ssm_node = "ssm"
type_name iam_roles_anywhere_node = "iam-ra"
type_name ec2_node = "ec2"
type_name outpost_node = "outpost"

unfoldable pub host_lines : String → List String → String
host_lines host [] = "\n"
host_lines host (ip ∷ []) = ip <> "\t" <> host <> "\n"
host_lines host (ip ∷ i ∷ ips) = ip <> "\t" <> host <> "\n" <> host_lines host (i ∷ ips)

module _ (h : KubeletHost) where
  abbrev pub dns_of : String → IpFamily → String
  dns_of cidr ipv4 = h.before_last_dot cidr <> ".10"
  dns_of cidr ipv6 = first_part (split_at b'/' cidr) <> "a"

  abbrev pub dns_for : String → Result IpFamily → Result String
  dns_for cidr (ok f) = ok (dns_of cidr f)
  dns_for cidr (err e) = err e

  unfoldable pub get_cluster_dns : ClusterDetails → Result String
  get_cluster_dns d = dns_for d.cidr (h.ip_family d.cidr)

  unfoldable pub map_control_plane : ClusterDetails → Exec Unit
  map_control_plane d = do
    host ← lift (h.host_of d.api_server_endpoint)
    ips ← lift (h.lookup_host host)
    h.append_hosts (host_lines host ips)

  unfoldable pub outpost_setup : NodeConfig → Exec Unit
  outpost_setup c = when (is_outpost_node c) (
      if str_eq c.spec.cluster.id ""
      then lift (err (errorf "clusterId cannot be empty when outpost is enabled."))
      else map_control_plane c.spec.cluster)

  abbrev pub ip_path : NodeConfig → IpFamily → String
  ip_path c ipv4 = "local-ipv4"
  ip_path c ipv6 = "network/interfaces/macs/" <> c.status.instance_details.mac <> "/ipv6s"

  abbrev pub ip_from : NodeConfig → Result IpFamily → Result String
  ip_from c (ok f) = h.metadata (ip_path c f)
  ip_from c (err e) = err e

  -- getNodeIp
  unfoldable pub get_node_ip : NodeConfig → Result String
  get_node_ip c = ip_from c (h.ip_family c.spec.cluster.cidr)

  -- getCPUMillicoresToReserve: nothing is reserved where the processors cannot be counted
  abbrev pub cpu_to_reserve : Result ℕ → ℤ
  cpu_to_reserve (ok millis) = reserved_cpu millis
  cpu_to_reserve (err e) = pos 0

  -- getMemoryMebibytesToReserve, in the 32 bits of its type
  unfoldable pub memory_to_reserve : ℕ → ℕ
  memory_to_reserve pods = (11 * pods + 255) % 2 ^ 32

  abbrev pub pods_for : NodeConfig → Option ℕ → ℕ
  pods_for c (some n) = n
  pods_for c none =
      h.calc_max_pods c.status.instance_details.region c.status.instance_details.instance_type

  abbrev pub reserving : Amount → KubeletConfig → KubeletConfig
  reserving memory k = record k {
    system_reserved_cgroup = some "/system";
    kube_reserved_cgroup = some "/runtime";
    kube_reserved = some (record {
      cpu_millis = cpu_to_reserve h.milli_cores;
      ephemeral_storage = "1Gi";
      memory = memory;
    });
  }

  -- withDefaultReservedResources
  unfoldable pub default_reserved : NodeConfig → KubeletConfig → KubeletConfig
  default_reserved c k =
      let pods = pods_for c (h.max_pods c.status.instance_details.instance_type) in
      reserving (mi (memory_to_reserve pods)) (record k { max_pods = pods })

  -- withPodInfraContainerImage
  unfoldable pub pod_infra_flag : NodeConfig → String → Table → Table
  pod_infra_flag c version flags =
      if h.semver_lt version "v1.29.0"
      then set_key "pod-infra-container-image" c.status.sandbox_image flags
      else flags

  -- withHybridCloudProvider and withHybridNodeLabels on the flags
  unfoldable pub hybrid_flags : NodeConfig → Table → Table
  hybrid_flags c flags =
      set_key "node-labels"
        ("eks.amazonaws.com/compute-type=hybrid,eks.amazonaws.com/hybrid-credential-provider="
          <> type_name (get_node_type c))
        (set_key "hostname-override" c.status.node_name (set_key "cloud-provider" "" flags))

  unfoldable pub with_hybrid_provider : NodeConfig → KubeletConfig → KubeletConfig
  with_hybrid_provider c k = record k {
    provider_id =
        some (hybrid_provider_id c.spec.cluster.region c.spec.cluster.name c.status.node_name);
  }

  abbrev pub with_resolv_conf : KubeletConfig → KubeletConfig
  with_resolv_conf k =
      if str_eq h.os_name "ubuntu"
      then record k { resolv_conf = "/run/systemd/resolve/resolv.conf" }
      else k

  abbrev pub Generated : Type 0
  Generated = KubeletConfig × Table

  unfoldable pub generate_hybrid : NodeConfig → KubeletConfig → Table → Result Generated
  generate_hybrid c k flags = elim h.memory_capacity [
    | err e ↦ err e
    | ok bytes ↦ ok (
      with_resolv_conf (reserving (reserved_memory bytes) (with_hybrid_provider c k)),
      hybrid_flags c flags,
    )
  ]

  -- withNodeIp, withCloudProvider and the reservation of a node in the cloud
  unfoldable pub generate_cloud : NodeConfig → KubeletConfig → Table → Result Generated
  generate_cloud c k flags = elim (get_node_ip c) [
    | err e ↦ err e
    | ok ip ↦ ok (
      default_reserved c (record k {
        provider_id =
            some (
              provider_id c.status.instance_details.availability_zone c.status.instance_details.id);
      }),
      set_key "hostname-override" c.status.instance_details.private_dns_name
          (set_key "cloud-provider" "external" (set_key "node-ip" ip flags)),
    )
  ]

  -- GenerateKubeletConfig, with the flags it sets
  unfoldable pub generate_kubelet_config : NodeConfig → Table → Exec Generated
  generate_kubelet_config c flags = do
    version ← lift h.version
    dns ← lift (get_cluster_dns c.spec.cluster)
    outpost_setup c
    lift (
        let k = record default_sub_config { cluster_dns = dns ∷ [] } in
        let infra = pod_infra_flag c version flags in
        if is_hybrid_node c then generate_hybrid c k infra else generate_cloud c k infra)
