-- ===== src/Config/Validate.antt =====
-- internal/node/hybrid/validator.go and defaults.go
use eks_hybrid.Base.{
  String, ◌<>◌, str_eq, ltb, if◌then◌else◌, Bool, true, false, not, ◌&&◌, Option, none, some, List,
  [], ◌∷◌, cut_prefix, Err,
}
use eks_hybrid.Rules.Runner.{Failure, plain, remediable, first_error}
use eks_hybrid.Config.Defs.{
  NodeConfig, HybridOptions, IamRolesAnywhere, Ssm, iam_options, ssm_options, is_iam_roles_anywhere,
  is_ssm,
}
use eks_hybrid.Config.Patterns.{byte_length, is_activation_code, is_activation_id}
use eks_hybrid.Config.Certificate.{
  CertHost, CertKind, CertError, cert_not_found, cert_file, cert_read, cert_invalid_format,
  cert_clock_skew, cert_expired, cert_parse_ca, cert_invalid_ca, is_not_exist, validate_certificate,
}

-- Checks in turn: the first that fails returns its error.
unfoldable pub first_failure : List (Option Failure) → Option Failure
first_failure [] = none
first_failure (c ∷ cs) = first_error c (first_failure cs)

-- if b { return fmt.Errorf(m) }
abbrev pub refuse : Bool → String → Option Failure
refuse true m = some (plain m)
refuse false m = none

-- if s == "" { return fmt.Errorf(m) }
abbrev pub required : String → String → Option Failure
required s m = refuse (str_eq s "") m

abbrev pub guide : String
guide =
    "To generate a new IAM Roles Anywhere (IAM-RA) certificate, see the steps in the documentation: https://docs.aws.amazon.com/eks/latest/userguide/hybrid-nodes-creds.html#hybrid-nodes-role"

abbrev pub iam_remedy : String → CertKind → String
iam_remedy path cert_not_found =
    "Verify the IAM role anywhere certificate at " <> path <> ". " <> guide
iam_remedy path cert_file = "Verify the IAM role anywhere certificate at " <> path <> ". " <> guide
iam_remedy path cert_read = "Verify the IAM role anywhere certificate at " <> path <> ". " <> guide
iam_remedy path cert_invalid_format = "Verify the IAM Role certificate format. " <> guide
iam_remedy path cert_clock_skew =
    "Verify the IAM Role certificate validity or system time is correct. " <> guide
iam_remedy path cert_expired =
    "Generate a new IAM Roles Anywhere certificate as the current one has expired. " <> guide
iam_remedy path cert_parse_ca = "Ensure the IAM Roles Anywhere certificate is valid. " <> guide
iam_remedy path cert_invalid_ca =
    "Please remove the IAM Roles Anywhere certificate file at " <> path <> ". " <> guide

-- addIAMRARemediation
abbrev pub add_iam_remediation : String → CertError → Failure
add_iam_remediation path e =
    remediable (plain ("validating iam-roles-anywhere certificate: " <> e.message))
      (iam_remedy path e.kind)

-- if err := certificate.Validate(...); err != nil
abbrev pub valid_certificate : String → Option CertError → Option Failure
valid_certificate path none = none
valid_certificate path (some e) = some (add_iam_remediation path e)

abbrev pub present : Option Err → Bool
present none = true
present (some e) = not (is_not_exist e)

abbrev pub flag_or : Option String → String → String
flag_or none value = value
flag_or (some v) value = v

-- extractFlagValue: the last value of the flag
unfoldable pub extract_flag : String → List String → String → String
extract_flag value [] flag = value
extract_flag value (arg ∷ args) flag =
    extract_flag (flag_or (cut_prefix arg ("--" <> flag <> "=")) value) args flag

module _ (h : CertHost) where
  -- file.Exists
  abbrev pub exists : String → Bool
  exists path = present (h.stat path)

  -- validateRolesAnywhereNode
  unfoldable pub validate_roles_anywhere : IamRolesAnywhere → Option Failure
  validate_roles_anywhere r = first_failure (
      required r.role_arn "RoleARN is missing in hybrid iam roles anywhere configuration"
      ∷ required r.profile_arn "ProfileARN is missing in hybrid iam roles anywhere configuration"
      ∷ required r.trust_anchor_arn
          "TrustAnchorARN is missing in hybrid iam roles anywhere configuration"
      ∷ required r.node_name "NodeName can't be empty in hybrid iam roles anywhere configuration"
      ∷ refuse (ltb 64 (byte_length r.node_name))
          "NodeName can't be longer than 64 characters in hybrid iam roles anywhere configuration"
      ∷ required r.certificate_path
          "CertificatePath is missing in hybrid iam roles anywhere configuration"
      ∷ refuse (not (exists r.certificate_path))
          ("IAM Roles Anywhere certificate " <> r.certificate_path <> " not found")
      ∷ valid_certificate r.certificate_path (validate_certificate h r.certificate_path [])
      ∷ required r.private_key_path
          "PrivateKeyPath is missing in hybrid iam roles anywhere configuration"
      ∷ refuse (not (exists r.private_key_path))
          ("IAM Roles Anywhere private key " <> r.private_key_path <> " not found")
      ∷ [])

  unfoldable pub validate_activation : Ssm → Option Failure
  validate_activation s = first_failure (
      required s.activation_code "ActivationCode is missing in hybrid ssm configuration"
      ∷ required s.activation_id "ActivationID is missing in hybrid ssm configuration"
      ∷ refuse (not (is_activation_code s.activation_code))
          ("invalid ActivationCode format: " <> s.activation_code <> ". Must be 20-250 characters")
      ∷ refuse (not (is_activation_id s.activation_id)) (
          "invalid ActivationID format: " <> s.activation_id
          <> ". Must be in format: ^[0-9a-f]{8}-[0-9a-f]{4}-[0-9a-f]{4}-[0-9a-f]{4}-[0-9a-f]{12}$")
      ∷ [])

  abbrev pub check_roles_anywhere : Option IamRolesAnywhere → Option Failure
  check_roles_anywhere none = none
  check_roles_anywhere (some r) = validate_roles_anywhere r

  abbrev pub check_activation : Option Ssm → Option Failure
  check_activation none = none
  check_activation (some s) = validate_activation s

  -- withHybridValidators
  unfoldable pub hybrid_validator : NodeConfig → Option Failure
  hybrid_validator c = first_failure (
      required c.spec.cluster.name "Name is missing in cluster configuration"
      ∷ required c.spec.cluster.region "Region is missing in cluster configuration"
      ∷ refuse (not (str_eq (extract_flag "" c.spec.kubelet.flags "hostname-override") "")) (
          "hostname-override kubelet flag is not supported for hybrid nodes but found override: "
          <> extract_flag "" c.spec.kubelet.flags "hostname-override")
      ∷ refuse (not (is_iam_roles_anywhere c) && not (is_ssm c))
          "Either IAMRolesAnywhere or SSM must be provided for hybrid node configuration"
      ∷ refuse (is_iam_roles_anywhere c && is_ssm c)
          "Only one of IAMRolesAnywhere or SSM must be provided for hybrid node configuration"
      ∷ check_roles_anywhere (iam_options c.spec.hybrid)
      ∷ check_activation (ssm_options c.spec.hybrid)
      ∷ [])

-- PopulateNodeConfigDefaults, in its parts
abbrev pub or_default : String → String → String
or_default s d = if str_eq s "" then d else s

abbrev pub iam_defaults : IamRolesAnywhere → IamRolesAnywhere
iam_defaults r = record r {
  aws_config_path = or_default r.aws_config_path "/etc/aws/hybrid/config";
  certificate_path = or_default r.certificate_path "/etc/iam/pki/server.pem";
  private_key_path = or_default r.private_key_path "/etc/iam/pki/server.key";
}

abbrev pub with_iam : HybridOptions → Option IamRolesAnywhere → NodeConfig → NodeConfig
with_iam o none c = c
with_iam o (some r) c = record c {
  spec = record c.spec { hybrid = some (record o { iam_roles_anywhere = some (iam_defaults r) }) };
  status = record c.status { node_name = r.node_name };
}

abbrev pub with_hybrid : Option HybridOptions → NodeConfig → NodeConfig
with_hybrid none c = c
with_hybrid (some o) c = with_iam o o.iam_roles_anywhere c

unfoldable pub populate_node_config_defaults : NodeConfig → NodeConfig
populate_node_config_defaults c = with_hybrid c.spec.hybrid c
