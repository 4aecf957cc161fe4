-- ===== src/Examples/Config.antt =====
-- The theorems on the configuration and on the node, applied to small inputs.
use eks_hybrid.Base.{
  ℕ, ◌≤◌, ◌+◌, String, ◌<>◌, str_eq, if◌then◌else◌, ◌≡◌, ◌↔◌, refl, Bool, true, false, Option, none,
  some, List, [], ◌∷◌, All, Err, errorf, not_exist, Result, ok, err, arith,
}
use eks_hybrid.Config.Defs.{ClusterDetails, NodeConfig}
use eks_hybrid.Config.Certificate.{
  CertHost, HoldsCertificate, validate_certificate, validate_certificate-none,
}
use eks_hybrid.Config.Validate.{hybrid_validator}
use eks_hybrid.Config.Valid.{IsConfigured, hybrid_validator-none}
use eks_hybrid.Node.Skew.{Semver, validate_skew, validate_skew-none}
use eks_hybrid.Node.Drained.{Pod, Manifest, MayStay, is_drained, is_drained-true}
use eks_hybrid.Node.Roles.{
  Page, Services, last_page, one_more, fetch_all_access_entries, fetch_all_access_entries-Pages,
}
use eks_hybrid.Node.Aws.{AwsConfig, completed, write_aws_config}
use eks_hybrid.Node.Credentials.{IsComplete, HoldsRendered, write_aws_config-HoldsRendered}
use eks_hybrid.Machine.{Bytes}
use eks_hybrid.Examples.Quiet.{empty_world, quiet_host}

-- certificates that are valid from the hour 5 to the hour 9, on a machine where it is the hour 7
abbrev cert_host : CertHost
cert_host = record {
  stat = λ path. if str_eq path "/etc/iam/pki/server.pem" then none else some not_exist;
  read_file = λ path. ok (1 ∷ 2 ∷ []);
  pem_decode = λ b. some b;
  parse_certificate = λ b. ok (record { not_before = 5; not_after = 9; raw = b });
  now = 7;
  appends = λ ca. true;
  verify = λ ca now c. none;
}

abbrev cluster : ClusterDetails
cluster = record {
  name = "prod";
  region = "us-west-2";
  api_server_endpoint = "";
  certificate_authority = none;
  cidr = "10.0.0.0/16";
  enable_outpost = none;
  id = "";
}

abbrev ssm_config : NodeConfig
ssm_config = record {
  spec = record {
    cluster = cluster;
    containerd_config = "";
    local_storage_strategy = "";
    kubelet = record { config = []; flags = "--v=2" ∷ [] };
    hybrid = some (record {
      enable_credentials_file = false;
      iam_roles_anywhere = none;
      ssm = some (record {
        activation_code = "01234567890123456789";
        activation_id = "01234567-89ab-cdef-0123-456789abcdef";
      });
    });
  };
  status = record {
    instance_details = record {
      id = "";
      region = "";
      instance_type = "";
      availability_zone = "";
      mac = "";
      private_dns_name = "";
    };
    node_name = "";
    sandbox_image = "";
  };
}

hybrid_validator-none_example :
    (hybrid_validator cert_host ssm_config ≡ none) ↔ IsConfigured cert_host ssm_config
hybrid_validator-none_example = hybrid_validator-none cert_host ssm_config

validate_certificate-none_example :
    (validate_certificate cert_host "/etc/iam/pki/server.pem" (4 ∷ []) ≡ none) ↔ (
      (cert_host.stat "/etc/iam/pki/server.pem" ≡ none)
      × HoldsCertificate cert_host "/etc/iam/pki/server.pem" (4 ∷ []))
validate_certificate-none_example =
    validate_certificate-none cert_host "/etc/iam/pki/server.pem" (4 ∷ [])

abbrev parse_version : String → Result Semver
parse_version v =
    if str_eq v "1.31.0"
    then ok (record { major = 1; minor = 31; patch = 0 })
    else if str_eq v "1.28.4"
    then ok (record { major = 1; minor = 28; patch = 4 })
    else err (errorf "invalid version")

validate_skew-none_example :
    (validate_skew parse_version "1.31" (ok "v1.28.4") ≡ none) ↔ ((28 ≤ 31) × (31 ≤ 28 + 3))
unfolding eks_hybrid.Node.Skew.parse_k8s_version eks_hybrid.Node.Skew.complete
    eks_hybrid.Base.count_char eks_hybrid.Base.cut_prefix
validate_skew-none_example =
    validate_skew-none parse_version "1.31" "v1.28.4" (record { major = 1; minor = 31; patch = 0 })
      (record { major = 1; minor = 28; patch = 4 }) refl refl (omega arith)

abbrev manifests : Result (List Manifest)
manifests = ok (
    record { extension = ".yaml"; pod_name = ok "etcd" }
    ∷ record { extension = ".txt"; pod_name = err (errorf "not yaml") }
    ∷ [])

abbrev pods : List Pod
pods =
    record { name = "proxy"; controller = some "DaemonSet" }
    ∷ record { name = "etcd"; controller = none }
    ∷ record { name = "web"; controller = some "ReplicaSet" }
    ∷ []

is_drained-true_example : (is_drained manifests pods ≡ ok true) ↔ All (MayStay ("etcd" ∷ [])) pods
unfolding eks_hybrid.Node.Drained.get_static_pods eks_hybrid.Node.Drained.names_in
is_drained-true_example = is_drained-true manifests ("etcd" ∷ []) pods refl

abbrev first_page : Page
first_page = record { entries = "arn:aws:iam::1:role/a" ∷ []; next_token = some "2" }

abbrev second_page : Page
second_page = record { entries = "arn:aws:iam::1:role/b" ∷ []; next_token = some "" }

abbrev page_at : Option String → Page
page_at none = first_page
page_at (some t) = second_page

abbrev services : Services
services = record {
  caller_arn = ok none;
  parse_arn = λ a. ok (record { service = "iam"; resource = "role/a" });
  list_access_entries = λ token. ok (page_at token);
}

fetch_all_access_entries-Pages_example :
    fetch_all_access_entries services (2 + 1) [] none
    ≡ some (ok ("arn:aws:iam::1:role/a" ∷ "arn:aws:iam::1:role/b" ∷ []))
fetch_all_access_entries-Pages_example =
    fetch_all_access_entries-Pages services 2 1 [] none
      ("arn:aws:iam::1:role/a" ∷ "arn:aws:iam::1:role/b" ∷ [])
      (one_more first_page "2" refl refl (last_page second_page refl refl))

abbrev aws_config : AwsConfig
aws_config = record {
  trust_anchor_arn = "arn:1";
  profile_arn = "arn:2";
  role_arn = "arn:3";
  region = "us-west-2";
  node_name = "node";
  config_path = "";
  signing_helper_bin_path = "/usr/local/bin/aws_signing_helper";
  certificate_path = "/etc/iam/pki/server.pem";
  private_key_path = "/etc/iam/pki/server.key";
  proxy_enabled = false;
}

abbrev rendered : AwsConfig → Result Bytes
rendered c = ok (7 ∷ [])

write_aws_config-HoldsRendered_example :
    IsComplete aws_config
    × HoldsRendered quiet_host rendered true
        (completed true aws_config)
        (write_aws_config quiet_host rendered true aws_config empty_world).1
unfolding write_aws_config eks_hybrid.Machine.◌>>=◌ eks_hybrid.Node.Aws.validate_aws_config
    eks_hybrid.Node.Aws.write_config_file eks_hybrid.Machine.act eks_hybrid.Machine.wrapping
    eks_hybrid.Machine.os_write_file
write_aws_config-HoldsRendered_example =
    write_aws_config-HoldsRendered quiet_host rendered true aws_config empty_world tt
