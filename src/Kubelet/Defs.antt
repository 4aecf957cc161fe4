-- ===== src/Kubelet/Defs.antt =====
-- The type kubeletConfig of internal/kubelet/config.go, and the configuration that each node starts from
use eks_hybrid.Base.{
  ℤ, ℕ, String, str_eq, if◌then◌else◌, Bool, true, false, Option, none, List, [], ◌∷◌,
}
use eks_hybrid.Rules.Reserved.{Amount}

-- A Go map with texts as keys, as an association list
abbrev pub Table : Type 0
Table = List (String × String)

unfoldable pub set_key : String → String → Table → Table
set_key k v [] = (k, v) ∷ []
set_key k v ((j, u) ∷ rest) =
    let more = set_key k v rest in if str_eq j k then (k, v) ∷ rest else (j, u) ∷ more

pub record Reserved : Type 0 where
  pub cpu_millis : ℤ
  pub ephemeral_storage : String
  pub memory : Amount

-- KubeletAuthentication and KubeletAuthorization; durations in seconds
pub record Authentication : Type 0 where
  pub anonymous : Bool
  pub webhook : Bool
  pub webhook_cache_ttl : ℕ
  pub client_ca_file : String
  pub authorization_mode : String
  pub cache_authorized_ttl : ℕ
  pub cache_unauthorized_ttl : ℕ

pub record KubeletConfig : Type 0 where
  pub address : String
  pub authentication : Authentication
  pub cgroup_driver : String
  pub cgroup_root : String
  pub cluster_dns : List String
  pub cluster_domain : String
  pub container_runtime_endpoint : String
  pub eviction_hard : Table
  pub feature_gates : List (String × Bool)
  pub hairpin_mode : String
  pub kube_reserved : Option Reserved
  pub kube_reserved_cgroup : Option String
  pub verbosity : ℕ
  pub max_pods : ℕ
  pub protect_kernel_defaults : Bool
  pub provider_id : Option String
  pub read_only_port : ℕ
  pub serialize_image_pulls : Bool
  pub server_tls_bootstrap : Bool
  pub system_reserved_cgroup : Option String
  pub tls_cipher_suites : List String
  pub resolv_conf : String
  pub kind : String
  pub api_version : String

abbrev pub ca_certificate_path : String
ca_certificate_path = "/etc/kubernetes/pki/ca.crt"

unfoldable pub default_sub_config : KubeletConfig
default_sub_config = record {
  address = "0.0.0.0";
  authentication = record {
    anonymous = false;
    webhook = true;
    webhook_cache_ttl = 120;
    client_ca_file = ca_certificate_path;
    authorization_mode = "Webhook";
    cache_authorized_ttl = 300;
    cache_unauthorized_ttl = 30;
  };
  cgroup_driver = "systemd";
  cgroup_root = "/";
  cluster_dns = [];
  cluster_domain = "cluster.local";
  container_runtime_endpoint = "unix:///run/containerd/containerd.sock";
  eviction_hard =
      ("memory.available", "100Mi")
      ∷ ("nodefs.available", "10%")
      ∷ ("nodefs.inodesFree", "5%")
      ∷ [];
  feature_gates = ("RotateKubeletServerCertificate", true) ∷ [];
  hairpin_mode = "hairpin-veth";
  kube_reserved = none;
  kube_reserved_cgroup = none;
  verbosity = 2;
  max_pods = 0;
  protect_kernel_defaults = true;
  provider_id = none;
  read_only_port = 0;
  serialize_image_pulls = false;
  server_tls_bootstrap = true;
  system_reserved_cgroup = none;
  tls_cipher_suites =
      "TLS_ECDHE_ECDSA_WITH_AES_128_GCM_SHA256" ∷ "TLS_ECDHE_ECDSA_WITH_AES_256_GCM_SHA384"
      ∷ "TLS_ECDHE_ECDSA_WITH_CHACHA20_POLY1305" ∷ "TLS_ECDHE_RSA_WITH_AES_128_GCM_SHA256"
      ∷ "TLS_ECDHE_RSA_WITH_AES_256_GCM_SHA384" ∷ "TLS_ECDHE_RSA_WITH_CHACHA20_POLY1305"
      ∷ "TLS_RSA_WITH_AES_128_GCM_SHA256" ∷ "TLS_RSA_WITH_AES_256_GCM_SHA384" ∷ [];
  resolv_conf = "";
  kind = "KubeletConfiguration";
  api_version = "kubelet.config.k8s.io/v1beta1";
}
