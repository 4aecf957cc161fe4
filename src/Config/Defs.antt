-- ===== src/Config/Defs.antt =====
-- internal/api/types.go, less the metadata of Kubernetes objects, and internal/creds/creds.go
use eks_hybrid.Base.{
  String, str_eq, if◌then◌else◌, Bool, true, false, Option, none, some, List, errorf, Result, ok,
  err,
}
use eks_hybrid.Machine.{Bytes}
use eks_hybrid.Tracker.{InstalledArtifacts}

pub record ClusterDetails : Type 0 where
  pub name : String
  pub region : String
  pub api_server_endpoint : String
  -- nil is `none`
  pub certificate_authority : Option Bytes
  pub cidr : String
  pub enable_outpost : Option Bool
  pub id : String

-- InlineDocument: a map from keys to raw values
abbrev pub InlineDocument : Type 0
InlineDocument = List (String × Bytes)

pub record KubeletOptions : Type 0 where
  pub config : InlineDocument
  pub flags : List String

pub record InstanceDetails : Type 0 where
  pub id : String
  pub region : String
  pub instance_type : String
  pub availability_zone : String
  pub mac : String
  pub private_dns_name : String

pub record IamRolesAnywhere : Type 0 where
  pub node_name : String
  pub trust_anchor_arn : String
  pub profile_arn : String
  pub role_arn : String
  pub aws_config_path : String
  pub certificate_path : String
  pub private_key_path : String

pub record Ssm : Type 0 where
  pub activation_code : String
  pub activation_id : String

pub record HybridOptions : Type 0 where
  pub enable_credentials_file : Bool
  pub iam_roles_anywhere : Option IamRolesAnywhere
  pub ssm : Option Ssm

pub record NodeConfigSpec : Type 0 where
  pub cluster : ClusterDetails
  -- ContainerdOptions
  pub containerd_config : String
  -- InstanceOptions
  pub local_storage_strategy : String
  pub kubelet : KubeletOptions
  pub hybrid : Option HybridOptions

pub record NodeConfigStatus : Type 0 where
  pub instance_details : InstanceDetails
  -- HybridDetails
  pub node_name : String
  -- DefaultOptions
  pub sandbox_image : String

pub record NodeConfig : Type 0 where
  pub spec : NodeConfigSpec
  pub status : NodeConfigStatus

pub data NodeType : Type 0 where
  ssm_node iam_roles_anywhere_node ec2_node outpost_node : NodeType

abbrev pub is_some {ℓ} : {A : Type ℓ} → Option A → Bool
is_some none = false
is_some (some a) = true

-- Spec.Hybrid.IAMRolesAnywhere, if both pointers are set
abbrev pub iam_options : Option HybridOptions → Option IamRolesAnywhere
iam_options none = none
iam_options (some h) = h.iam_roles_anywhere

abbrev pub ssm_options : Option HybridOptions → Option Ssm
ssm_options none = none
ssm_options (some h) = h.ssm

abbrev pub is_hybrid_node : NodeConfig → Bool
is_hybrid_node c = is_some c.spec.hybrid

abbrev pub is_set : Option Bool → Bool
is_set none = false
is_set (some b) = b

abbrev pub is_outpost_node : NodeConfig → Bool
is_outpost_node c = is_set c.spec.cluster.enable_outpost

abbrev pub is_iam_roles_anywhere : NodeConfig → Bool
is_iam_roles_anywhere c = is_some (iam_options c.spec.hybrid)

abbrev pub is_ssm : NodeConfig → Bool
is_ssm c = is_some (ssm_options c.spec.hybrid)

unfoldable pub get_node_type : NodeConfig → NodeType
get_node_type c =
    if is_ssm c
    then ssm_node
    else if is_iam_roles_anywhere c
    then iam_roles_anywhere_node
    else if is_outpost_node c
    then outpost_node
    else ec2_node

pub data CredentialProvider : Type 0 where
  ssm_provider iam_ra_provider : CredentialProvider

abbrev pub same_provider : CredentialProvider → CredentialProvider → Bool
same_provider ssm_provider ssm_provider = true
same_provider iam_ra_provider iam_ra_provider = true
same_provider _ _ = false

unfoldable pub get_credential_provider : String → Result CredentialProvider
get_credential_provider cred_process =
    if str_eq cred_process "ssm"
    then ok ssm_provider
    else if str_eq cred_process "iam-ra"
    then ok iam_ra_provider
    else err (errorf "invalid credential process provided. Valid options are ssm and iam-ra")

unfoldable pub provider_from_node_config : NodeConfig → Result CredentialProvider
provider_from_node_config c =
    if is_ssm c
    then ok ssm_provider
    else if is_iam_roles_anywhere c
    then ok iam_ra_provider
    else err (errorf "no credential process provided in nodeConfig")

unfoldable pub provider_from_artifacts : InstalledArtifacts → Result CredentialProvider
provider_from_artifacts a =
    if a.ssm
    then ok ssm_provider
    else if a.iam_roles_anywhere
    then ok iam_ra_provider
    else err (errorf "no credential process found in installed artifacts")
