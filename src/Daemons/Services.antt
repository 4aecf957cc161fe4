-- ===== src/Daemons/Services.antt =====
-- internal/containerd/config.go, daemon.go and sandbox.go, internal/ssm/daemon.go, config.go and
-- credentials.go, and internal/iamrolesanywhere/daemon.go. Templates, regular expressions, the
-- credential files of the AWS SDK and the image service of containerd are parameters.
use eks_hybrid.Base.{
  ℕ, zero, suc, leb, ◌==◌, String, ◌<>◌, str_eq, has_infix, if◌then◌else◌, Bool, true, false, not,
  Option, none, some, [], ◌∷◌, Err, errorf, not_exist, wrap, Result, ok, err,
}
use eks_hybrid.Machine.{
  Bytes, World, Host, command, stat, mkdir_all, backoff, service, Exec, pure, lift, ◌>>=◌, ◌>>◌,
  wrapping, reporting, when, attempts, act, note, test, os_remove_all, write_file_with_dir, retry,
}
use eks_hybrid.Components.Ssm.{managed_instance_id}
use eks_hybrid.Config.Defs.{NodeConfig, HybridOptions, Ssm}
use eks_hybrid.Flows.Init.{Daemon}
use eks_hybrid.Flows.Uninstall.{running}
use eks_hybrid.Daemons.Manager.{DaemonManager}
use eks_hybrid.Daemons.Wait.{wait_for_status, retry_operation}

-- What the code gets from embedded files, templates, regular expressions and other programs
pub record Parts : Type 0 where
  -- the containerd configuration with a sandbox image, and the embedded list of kernel modules
  pub containerd_config : String → Result Bytes
  pub kernel_modules : Bytes
  pub to_bytes : String → Bytes
  -- the output of `containerd config dump`, and the matches in it
  pub config_dump : World → Bytes
  pub config_version : Bytes → Result ℕ
  pub sandbox_image : Bytes → Option String
  pub sandbox : Bytes → Option String
  -- the unit of aws_signing_helper_update
  pub signing_helper_unit : NodeConfig → Result Bytes
  -- err.Error()
  pub error_text : Err → String
  pub os_name : String
  -- the credentials file of the AWS SDK
  pub shared_credentials_file : Option String

module _ (h : Host) (m : DaemonManager) (p : Parts) where
  -- WaitForStatus until the daemon runs, in a context of its own
  unfoldable pub wait_running : String → Exec Unit
  wait_running name =
      wrapping ("waiting for " <> name <> " to be running")
        (λ w. wait_for_status h (h.waits w.trace) (m.get_daemon_status name) running w)

  unfoldable pub write_containerd_config : NodeConfig → Exec Unit
  write_containerd_config c = do
    config ← lift (p.containerd_config c.status.sandbox_image)
    write_file_with_dir h "/etc/containerd/config.toml" config
    when (not (str_eq c.spec.containerd_config "")) (
        write_file_with_dir h "/etc/containerd/config.d/00-nodeadm.toml"
          (p.to_bytes c.spec.containerd_config))

  unfoldable pub configure_containerd : NodeConfig → Exec Unit
  configure_containerd c = do
    write_containerd_config c
    write_file_with_dir h "/etc/modules-load.d/containerd.conf" p.kernel_modules

  unfoldable pub ensure_containerd : Exec Unit
  ensure_containerd = do
    m.restart_daemon "systemd-modules-load"
    m.enable_daemon "containerd"
    m.restart_daemon "containerd"
    wait_running "containerd"

  abbrev pub image_found : Option String → Result String
  image_found none = err (errorf "sandbox image could not be found in containerd config")
  image_found (some image) = ok image

  -- sandboxImageRegexForConfigVersion, and the match of its result in the dump
  abbrev pub find_image : ℕ → Bytes → Result String
  find_image version dump =
      if leb 3 version
      then image_found (p.sandbox dump)
      else if version == 2
      then image_found (p.sandbox_image dump)
      else err (errorf "unsupported containerd config version")

  -- cacheSandboxImage; the pause after a failed attempt is left out
  unfoldable pub cache_sandbox_image : Exec Unit
  cache_sandbox_image = do
    act h (command "containerd" ("config" ∷ "dump" ∷ []))
    version ← (λ w.
        wrapping "failed to parse containerd config version"
          (lift (p.config_version (p.config_dump w))) w)
    image ← (λ w. (find_image version (p.config_dump w), w))
    act h (service "GetAuthorizationToken")
    act h (service "NewImageService")
    attempts 3 (ok tt) (act h (service ("PullImage " <> image)))

  unfoldable pub containerd_daemon : NodeConfig → Daemon
  containerd_daemon c = record {
    configure = configure_containerd c;
    ensure_running = ensure_containerd;
    post_launch = cache_sandbox_image;
  }

  -- fileExists and file.Exists, where `test` answers whether os.Stat does not report absence
  abbrev pub exists : String → Exec Bool
  exists path = test h (stat path)

  abbrev pub snap_path : Bool → Result String
  snap_path true = ok "/snap/amazon-ssm-agent/current/amazon-ssm-agent"
  snap_path false = err (errorf "ssm agent binary not found in any of the well known paths")

  abbrev pub usr_path : Bool → Exec String
  usr_path true = pure "/usr/bin/amazon-ssm-agent"
  usr_path false = do
    snapped ← exists "/snap/amazon-ssm-agent/current/amazon-ssm-agent"
    lift (snap_path snapped)

  unfoldable pub agent_binary_path : Exec String
  agent_binary_path = do packaged ← exists "/usr/bin/amazon-ssm-agent"; usr_path packaged

  -- isRegistered: absence of the file is the answer no, any other error is one
  abbrev pub registered : Result String → Result Bool
  registered (ok id) = ok true
  registered (err not_exist) = ok false
  registered (err e) = err (wrap "reading ssm registration file" e)

  unfoldable pub is_registered : Exec Bool
  is_registered w = let (r, w') = managed_instance_id h w in (registered r, w')

  unfoldable pub run_registration : String → Ssm → Exec Unit
  run_registration region s = do
    agent ← wrapping "can't register without ssm agent installed" agent_binary_path
    wrapping "failed to register machine with SSM after multiple attempts" (
        retry h (record {
          path = agent;
          args =
              "-register" ∷ "-y" ∷ "-region" ∷ region ∷ "-code" ∷ s.activation_code ∷ "-id"
              ∷ s.activation_id ∷ [];
        }))

  -- registerMachine: the id under which the machine is registered, which becomes the node's name
  unfoldable pub register_machine : String → Ssm → Exec String
  register_machine region s = do
    known ← is_registered
    when (not known) (run_registration region s)
    managed_instance_id h

  abbrev pub explain : Result String → Result String
  explain (ok id) = ok id
  explain (err e) =
      if has_infix (p.error_text e) "ActivationExpire"
      then err (errorf "SSM activation expired. Please use a valid activation")
      else if has_infix (p.error_text e) "InvalidActivatio"
      then err (
          errorf
            "invalid SSM activation. Please use a valid activation code, activation id and region")
      else err e

  unfoldable pub configure_ssm : String → Ssm → Exec String
  configure_ssm region s w = let (r, w') = register_machine region s w in (explain r, w')

  abbrev pub ssm_daemon_name : String
  ssm_daemon_name =
      if str_eq p.os_name "ubuntu"
      then "snap.amazon-ssm-agent.amazon-ssm-agent"
      else "amazon-ssm-agent"

  unfoldable pub ensure_ssm : Exec Unit
  ensure_ssm = do
    m.enable_daemon ssm_daemon_name
    wrapping "restarting SSM agent"
        (λ w. retry_operation h (h.waits w.trace) (m.restart_daemon ssm_daemon_name) w)
    wait_running ssm_daemon_name

  abbrev pub unless_missing : Result (Unit {0}) → Result (Unit {0})
  unless_missing (ok _) = ok tt
  unless_missing (err not_exist) = ok tt
  unless_missing (err e) = err e

  unfoldable pub link_credentials : Exec Unit
  link_credentials = do
    reporting "creating path" (act h (mkdir_all "/eks-hybrid"))
    reporting "removing directory /eks-hybrid/.aws"
        (λ w. let (r, w') = os_remove_all h "/eks-hybrid/.aws" w in (unless_missing r, w'))
    reporting "creating symlink" (act h (service "symlink /root/.aws /eks-hybrid/.aws"))

  abbrev pub post_launch_ssm : HybridOptions → Exec Unit
  post_launch_ssm o = when o.enable_credentials_file link_credentials

  -- for !file.Exists(path) { wait for the backoff or the end of the context }
  abbrev pub once_there : Bool → Exec Unit → Exec Unit
  once_there true more = pure tt
  once_there false more = more

  unfoldable pub wait_for_file : ℕ → String → Exec Unit
  wait_for_file zero path = do
    there ← exists path
    once_there there (
        lift
          (err (wrap ("file " <> path <> " hasn't been created on time") (errorf "context done"))))
  wait_for_file (suc n) path =
      let more = wait_for_file n path in
      (do there ← exists path; once_there there (note h backoff >> more))

  abbrev pub aws_creds_file : String
  aws_creds_file = elim p.shared_credentials_file [ none ↦ "/root/.aws/credentials" | some f ↦ f ]

  -- WaitForAWSConfig
  unfoldable pub wait_for_aws_config : String → Exec Unit
  wait_for_aws_config region = do
    (λ w. wait_for_file (h.waits w.trace) aws_creds_file w)
    act h (service ("LoadDefaultConfig " <> region))

  unfoldable pub configure_signing_helper : NodeConfig → Exec Unit
  configure_signing_helper c = do
    unit ← lift (p.signing_helper_unit c)
    reporting "writing aws_signing_helper_update service file /eks-hybrid/.aws/credentials"
        (write_file_with_dir h "/etc/systemd/system/aws_signing_helper_update.service" unit)
    reporting "reloading systemd daemon" m.daemon_reload

  unfoldable pub ensure_signing_helper : Exec Unit
  ensure_signing_helper = do
    m.enable_daemon "aws_signing_helper_update"
    m.restart_daemon "aws_signing_helper_update"

  unfoldable pub post_launch_signing_helper : HybridOptions → Exec Unit
  post_launch_signing_helper o = when o.enable_credentials_file (
      wrapping "waiting for AWS credentials file"
        (λ w. wait_for_file (h.waits w.trace) "/eks-hybrid/.aws/credentials" w))
