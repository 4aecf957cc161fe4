-- ===== src/Kubelet/Write.antt =====
-- internal/kubelet: the files that are written for kubelet, in config.go, kubeconfig.go,
-- image-credential-provider.go, cert.go and environment.go, and the daemon of daemon.go. JSON, YAML
-- and the templates are parameters, and so is the order in which a Go map is iterated.
use eks_hybrid.Base.{
  String, ◌<>◌, str_eq, if◌then◌else◌, Option, none, some, List, [], ◌∷◌, ◌++◌, Result,
}
use eks_hybrid.Machine.{
  Bytes, Host, stat, Exec, pure, lift, ◌>>=◌, ◌>>◌, wrapping, reporting, act, or_empty,
  write_file_with_dir,
}
use eks_hybrid.Config.Defs.{
  NodeConfig, InlineDocument, IamRolesAnywhere, iam_options, is_hybrid_node, is_outpost_node,
  is_ssm,
}
use eks_hybrid.Flows.Init.{Daemon}
use eks_hybrid.Daemons.Manager.{DaemonManager}
use eks_hybrid.Daemons.Services.{Parts, wait_running}
use eks_hybrid.Kubelet.Defs.{Table, set_key, KubeletConfig, ca_certificate_path}
use eks_hybrid.Kubelet.Config.{KubeletHost, generate_kubelet_config}

-- the maps of the type kubelet
pub record Kubelet : Type 0 where
  pub flags : Table
  pub environment : Table

-- kubeconfigTemplateVars
pub record KubeconfigVars : Type 0 where
  pub cluster : String
  pub region : String
  pub api_server_endpoint : String
  pub ca_cert_path : String
  pub aws_config_path : String
  pub authenticator_path : String
  pub aws_profile : String

pub record CredentialProviderAwsConfig : Type 0 where
  pub profile : String
  pub credentials_path : String

pub record Formats : Type 0 where
  -- json.MarshalIndent of the configuration, of it merged with the user's, and of the user's with
  -- the type metadata of a kubelet configuration
  pub config_json : KubeletConfig → Result Bytes
  pub merged_json : KubeletConfig → InlineDocument → Result Bytes
  pub user_json : InlineDocument → Result Bytes
  pub hybrid_kubeconfig : KubeconfigVars → Result Bytes
  pub kubeconfig : KubeconfigVars → Result Bytes
  -- the configuration of the provider, from its name and environment
  pub provider_json : String → Table → Result Bytes
  pub to_bytes : String → Bytes
  -- the pairs of a map in the order of one iteration
  pub iterate : Table → Table
  -- path.Dir and filepath.Base
  pub dir : String → String
  pub base : String → String
  -- ECR_CREDENTIAL_PROVIDER_BIN_PATH
  pub provider_path : Option String

abbrev pub flag_text : String × String → String
flag_text (flag, value) = "--" <> flag <> "=" <> value

unfoldable pub flag_texts : Table → List String
flag_texts [] = []
flag_texts (f ∷ fs) = flag_text f ∷ flag_texts fs

-- the arguments of kubelet: what nodeadm sets, then what the user sets
unfoldable pub kubelet_args : Formats → Table → List String → List String
kubelet_args m flags user = flag_texts (m.iterate flags) ++ user

unfoldable pub join_with : String → List String → String
join_with sep [] = ""
join_with sep (s ∷ []) = s
join_with sep (s ∷ t ∷ ss) = s <> sep <> join_with sep (t ∷ ss)

unfoldable pub environment_lines : Table → List String
environment_lines [] = []
environment_lines ((k, v) ∷ rest) = (k <> "=\"" <> v <> "\"") ∷ environment_lines rest

-- newKubeconfigTemplateVars and the functions that complete it
unfoldable pub kubeconfig_vars : NodeConfig → KubeconfigVars
kubeconfig_vars c = for_hybrid (iam_options c.spec.hybrid)
  where
    base : KubeconfigVars
    base = record {
      cluster = if is_outpost_node c then c.spec.cluster.id else c.spec.cluster.name;
      region = c.status.instance_details.region;
      api_server_endpoint = c.spec.cluster.api_server_endpoint;
      ca_cert_path = ca_certificate_path;
      aws_config_path = "";
      authenticator_path = if is_hybrid_node c then "/usr/local/bin/aws-iam-authenticator" else "";
      aws_profile = "";
    }

    for_hybrid : Option IamRolesAnywhere → KubeconfigVars
    for_hybrid (some r) = record base {
      region = c.spec.cluster.region;
      aws_config_path = r.aws_config_path;
      aws_profile = "default";
    }
    for_hybrid none = if is_ssm c then record base { region = c.spec.cluster.region } else base

module _ (h : Host) (k : KubeletHost) (m : Formats) where
  abbrev pub config_path : String
  config_path = "/etc/kubernetes/kubelet/config.json"

  abbrev pub config_bytes : KubeletConfig → InlineDocument → Result Bytes
  config_bytes c [] = m.config_json c
  config_bytes c (d ∷ ds) = m.merged_json c (d ∷ ds)

  unfoldable pub write_config_to_file : NodeConfig → Kubelet → Exec Kubelet
  write_config_to_file c s = do
    (config, flags) ← generate_kubelet_config k c s.flags
    b ← lift (config_bytes config c.spec.kubelet.config)
    write_file_with_dir h config_path b
    pure (record s { flags = set_key "config" config_path flags })

  -- the user's configuration as a drop-in file, if there is one
  unfoldable pub write_drop_in : InlineDocument → Kubelet → Exec Kubelet
  write_drop_in [] s = pure s
  write_drop_in (d ∷ ds) s = do
    b ← lift (m.user_json (d ∷ ds))
    write_file_with_dir h "/etc/kubernetes/kubelet/config.json.d/00-nodeadm.conf" b
    pure (record s {
      flags = set_key "config-dir" "/etc/kubernetes/kubelet/config.json.d" s.flags;
      environment = set_key "KUBELET_CONFIG_DROPIN_DIR_ALPHA" "on" s.environment;
    })

  unfoldable pub write_config_to_dir : NodeConfig → Kubelet → Exec Kubelet
  write_config_to_dir c s = do
    (config, flags) ← generate_kubelet_config k c s.flags
    b ← lift (m.config_json config)
    write_file_with_dir h config_path b
    write_drop_in c.spec.kubelet.config (record s { flags = set_key "config" config_path flags })

  -- writeKubeletConfig
  unfoldable pub write_kubelet_config : NodeConfig → Kubelet → Exec Kubelet
  write_kubelet_config c s = do
    version ← lift k.version
    if k.semver_lt version "v1.29.0" then write_config_to_file c s else write_config_to_dir c s

  abbrev pub kubeconfig_place : NodeConfig → String × String
  kubeconfig_place c =
      if is_outpost_node c
      then ("bootstrap-kubeconfig", "/var/lib/kubelet/bootstrap-kubeconfig")
      else ("kubeconfig", "/var/lib/kubelet/kubeconfig")

  -- generateKubeconfig and writeKubeconfig
  unfoldable pub write_kubeconfig : NodeConfig → Kubelet → Exec Kubelet
  write_kubeconfig c s = do
    b ← lift (
        if is_hybrid_node c
        then m.hybrid_kubeconfig (kubeconfig_vars c)
        else m.kubeconfig (kubeconfig_vars c))
    write_file_with_dir h (kubeconfig_place c).1 b
    pure (record s { flags = set_key (kubeconfig_place c).0 (kubeconfig_place c).1 s.flags })

  abbrev pub named : String → String → Table
  named name value = if str_eq value "" then [] else (name, value) ∷ []

  abbrev pub config_file : Option IamRolesAnywhere → Table
  config_file none = []
  config_file (some r) = ("AWS_CONFIG_FILE", r.aws_config_path) ∷ []

  unfoldable pub provider_environment : NodeConfig → CredentialProviderAwsConfig → Table
  provider_environment c a =
      config_file (iam_options c.spec.hybrid)
      ++ (named "AWS_PROFILE" a.profile ++ named "AWS_SHARED_CREDENTIALS_FILE" a.credentials_path)

  abbrev pub provider_bin : Option String → String
  provider_bin none = "/etc/eks/image-credential-provider/ecr-credential-provider"
  provider_bin (some path) = path

  unfoldable pub write_image_credential_provider :
      NodeConfig → CredentialProviderAwsConfig → Kubelet → Exec Kubelet
  write_image_credential_provider c a s = do
    reporting "image credential provider binary was not found"
        (act h (stat (provider_bin m.provider_path)))
    b ←
        wrapping "marshalling image credential provider config" (
          lift (m.provider_json (m.base (provider_bin m.provider_path)) (provider_environment c a)))
    write_file_with_dir h "/etc/eks/image-credential-provider/config.json" b
    pure (record s {
      flags =
          set_key "image-credential-provider-config"
            "/etc/eks/image-credential-provider/config.json"
            (set_key "image-credential-provider-bin-dir" (m.dir (provider_bin m.provider_path))
              s.flags);
    })

  -- writeKubeletEnvironment
  unfoldable pub write_environment : NodeConfig → Kubelet → Exec Unit
  write_environment c s =
      let args = join_with " " (kubelet_args m s.flags c.spec.kubelet.flags) in
      write_file_with_dir h "/etc/eks/kubelet/environment" (
        m.to_bytes (
          join_with "\n"
            (environment_lines (m.iterate (set_key "NODEADM_KUBELET_ARGS" args s.environment)))))

  -- Configure, with the runner of validations, if there is one
  unfoldable pub configure_kubelet :
      NodeConfig → CredentialProviderAwsConfig → Option (Exec Unit) → Exec Unit
  configure_kubelet c a runner = do
    s1 ← write_kubelet_config c (record { flags = []; environment = [] })
    s2 ← write_kubeconfig c s1
    s3 ← write_image_credential_provider c a s2
    write_file_with_dir h ca_certificate_path (or_empty c.spec.cluster.certificate_authority)
    write_environment c s3
    elim runner [ none ↦ pure tt | some run ↦ run ]

  unfoldable pub ensure_kubelet : DaemonManager → Parts → Exec Unit
  ensure_kubelet d p = do
    d.daemon_reload
    d.enable_daemon "kubelet"
    d.restart_daemon "kubelet"
    wait_running h d p "kubelet"

  unfoldable pub kubelet_daemon :
      DaemonManager → Parts → NodeConfig → CredentialProviderAwsConfig → Option (Exec Unit) → Daemon
  kubelet_daemon d p c a runner = record {
    configure = configure_kubelet c a runner;
    ensure_running = ensure_kubelet d p;
    post_launch = pure tt;
  }
