-- ===== src/Node/Aws.antt =====
-- internal/iamrolesanywhere/aws_config.go and ConfigureAws of internal/node/hybrid/aws.go. The
-- template and the loading of the AWS configuration are parameters.
use eks_hybrid.Base.{
  String, ◌<>◌, str_eq, if◌then◌else◌, Bool, false, Option, none, some, List, [], ◌∷◌, Err, errorf,
  panic, Result, err,
}
use eks_hybrid.Machine.{
  Bytes, Host, Exec, pure, lift, ◌>>=◌, ◌>>◌, wrapping, when, act, mkdir_all, service,
  os_write_file,
}
use eks_hybrid.Config.Defs.{NodeConfig, HybridOptions, IamRolesAnywhere, Ssm}
use eks_hybrid.Config.Validate.{or_default}
use eks_hybrid.Components.Gather.{joined}
use eks_hybrid.Daemons.Manager.{DaemonManager}
use eks_hybrid.Daemons.Services.{
  Parts, configure_ssm, ensure_ssm, post_launch_ssm, wait_for_aws_config, configure_signing_helper,
  ensure_signing_helper, post_launch_signing_helper,
}

pub record AwsConfig : Type 0 where
  pub trust_anchor_arn : String
  pub profile_arn : String
  pub role_arn : String
  pub region : String
  pub node_name : String
  pub config_path : String
  pub signing_helper_bin_path : String
  pub certificate_path : String
  pub private_key_path : String
  pub proxy_enabled : Bool

-- if s == "" { errs = append(errs, errors.New(m)) }
abbrev pub missing : String → String → List Err → List Err
missing s m errs = if str_eq s "" then errorf m ∷ errs else errs

unfoldable pub validate_aws_config : AwsConfig → Result (Unit {0})
validate_aws_config c = joined (
    missing c.trust_anchor_arn "TrustAnchorARN cannot be empty" (
      missing c.profile_arn "ProfileARN cannot be empty" (
        missing c.role_arn "RoleARN cannot be empty" (
          missing c.region "Region cannot be empty" (
            missing c.node_name "NodeName cannot be empty" (
              missing c.signing_helper_bin_path "Signing helper path cannot be empty" (
                missing c.certificate_path "CertificatePath cannot be empty"
                  (missing c.private_key_path "PrivateKeyPath cannot be empty" []))))))))

-- The configuration with its default path and the state of the proxy
abbrev pub completed : Bool → AwsConfig → AwsConfig
completed proxy c = record c {
  config_path = or_default c.config_path "/etc/aws/hybrid/config";
  proxy_enabled = proxy;
}

module _ (h : Host) (render : AwsConfig → Result Bytes) (proxy : Bool) where
  unfoldable pub write_config_file : AwsConfig → Exec Unit
  write_config_file c = do
    b ← lift (render c)
    act h (mkdir_all (h.dir c.config_path))
    wrapping "writing AWS config file" (os_write_file h c.config_path b)

  unfoldable pub write_aws_config : AwsConfig → Exec Unit
  write_aws_config c = do
    lift (validate_aws_config (completed proxy c))
    write_config_file (completed proxy c)

  module _ (m : DaemonManager) (p : Parts) where
    -- (SSMAWSConfigurator).Configure: the id of the machine becomes the node's name
    unfoldable pub configure_with_ssm : NodeConfig → HybridOptions → Ssm → Exec NodeConfig
    configure_with_ssm c o s = do
      id ← configure_ssm h m p c.spec.cluster.region s
      ensure_ssm h m p
      post_launch_ssm h m p o
      pure (record c { status = record c.status { node_name = id } })

    abbrev pub aws_config_of : NodeConfig → IamRolesAnywhere → AwsConfig
    aws_config_of c r = record {
      trust_anchor_arn = r.trust_anchor_arn;
      profile_arn = r.profile_arn;
      role_arn = r.role_arn;
      region = c.spec.cluster.region;
      node_name = c.status.node_name;
      config_path = r.aws_config_path;
      signing_helper_bin_path = "/usr/local/bin/aws_signing_helper";
      certificate_path = r.certificate_path;
      private_key_path = r.private_key_path;
      proxy_enabled = false;
    }

    -- (RolesAnywhereAWSConfigurator).Configure
    unfoldable pub configure_with_roles_anywhere :
        NodeConfig → HybridOptions → IamRolesAnywhere → Exec Unit
    configure_with_roles_anywhere c o r = do
      write_aws_config (aws_config_of c r)
      when o.enable_credentials_file (do
        configure_signing_helper h m p c
        ensure_signing_helper h m p
        post_launch_signing_helper h m p o)

    abbrev pub with_ssm : NodeConfig → HybridOptions → Ssm → Exec NodeConfig
    with_ssm c o s = do
      c' ← wrapping "configuring aws credentials with SSM" (configure_with_ssm c o s)
      wrapping "reading aws config for SSM" (wait_for_aws_config h m p c.spec.cluster.region)
      pure c'

    abbrev pub with_roles_anywhere :
        NodeConfig → HybridOptions → Option IamRolesAnywhere → Exec NodeConfig
    with_roles_anywhere c o none = lift (err (panic "nil pointer dereference"))
    with_roles_anywhere c o (some r) = do
      wrapping "configuring aws credentials with IAM Roles Anywhere"
          (configure_with_roles_anywhere c o r)
      wrapping "generating aws config for IAM Roles Anywhere"
          (act h (service ("LoadDefaultConfig " <> c.spec.cluster.region)))
      pure c

    abbrev pub with_credentials : NodeConfig → HybridOptions → Option Ssm → Exec NodeConfig
    with_credentials c o (some s) = with_ssm c o s
    with_credentials c o none = with_roles_anywhere c o o.iam_roles_anywhere

    abbrev pub with_options : NodeConfig → Option HybridOptions → Exec NodeConfig
    with_options c none = lift (err (panic "nil pointer dereference"))
    with_options c (some o) = with_credentials c o o.ssm

    -- ConfigureAws, with the configuration it leaves
    unfoldable pub configure_aws : NodeConfig → Exec NodeConfig
    configure_aws c = with_options c c.spec.hybrid
