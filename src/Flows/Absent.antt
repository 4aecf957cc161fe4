-- ===== src/Flows/Absent.antt =====
-- Files that are absent, through the steps of an uninstallation.
use eks_hybrid.Base.{
  String, ◌++◌, map, Option, none, some, List, [], ◌∷◌, All, Err, not_exist, Result, ok, err,
}
use eks_hybrid.Machine.{stat, log, Host, os_remove_all}
use eks_hybrid.Machine.Triple.{
  Keeps, Keeps-bind, Keeps-lift, Keeps-handled, Keeps-when, Keeps-wrapping, keeps_rules,
}
use eks_hybrid.Machine.Frame.{At, At-act, At-os_read_file}
use eks_hybrid.Machine.Absent.{Absent-os_remove_all, Absent-os_remove, absent_rules}
use eks_hybrid.Artifact.Frame.{Keeps-gets}
use eks_hybrid.PackageManager.{
  cleanup, uninstall_docker_repo, remove_if_there, remove_repo_file, remove_key,
}
use eks_hybrid.Components.Gathered.{Keeps-run_all}
use eks_hybrid.Components.Binaries.{
  uninstall_kubectl, uninstall_authenticator, uninstall_image_credential_provider,
}
use eks_hybrid.Components.Kubelet
use eks_hybrid.Components.Kubelet.{paths_to_remove, resolved_errors, resolved_paths}
use eks_hybrid.Components.Cni
use eks_hybrid.Components.IamRolesAnywhere
use eks_hybrid.Components.Iptables
use eks_hybrid.Components.Containerd
use eks_hybrid.Components.Ssm
use eks_hybrid.Flows.Uninstall.{
  DaemonStatus, get_daemon_status, stop_daemon, Uninstaller, stop_if_known, stop_signing_helper,
  uninstall_ssm_daemon, uninstall_containerd_daemon, uninstall_binaries, clean_up,
}

module _ (h : Host) (q : String) where
  pub Absent-paths : (ps : List String) → All (Keeps (At q none)) (map (os_remove_all h) ps)
  Absent-paths [] = tt
  Absent-paths (p ∷ ps) = (Absent-os_remove_all h p, Absent-paths ps)

  Absent-kubelet_paths :
      (r : Result String) (ps : List String)
      → All (Keeps (At q none)) (resolved_errors r ++ map (os_remove_all h) ps)
  Absent-kubelet_paths (ok p) ps = Absent-paths ps
  Absent-kubelet_paths (err not_exist) ps = Absent-paths ps
  Absent-kubelet_paths (err e) ps = (Keeps-lift _, Absent-paths ps)

  pub Absent-kubelet : Keeps (At q none) (Kubelet.uninstall h)
  unfolding Kubelet.uninstall
  Absent-kubelet =
      Keeps-bind _ _ (Keeps-gets _)
        (λ r. Keeps-run_all _ (Absent-kubelet_paths r (paths_to_remove ++ resolved_paths r)))

  Absent-get_daemon_status : (name : String) → Keeps (At q none) (get_daemon_status h name)
  unfolding get_daemon_status
  Absent-get_daemon_status name = Keeps-bind _ _ (At-act h _) λ _. record { at = λ w p. p }

  pub Absent-stop_daemon : (name : String) → Keeps (At q none) (stop_daemon h name)
  unfolding stop_daemon
  Absent-stop_daemon name =
      Keeps-bind _ _ (Absent-get_daemon_status name) λ r. Keeps-when _ _ (At-act h _)

  Absent-managed_instance_id : Keeps (At q none) (Ssm.managed_instance_id h)
  unfolding Ssm.managed_instance_id
  Absent-managed_instance_id =
      Keeps-bind _ _ (At-os_read_file h _)
        λ b. Keeps-bind _ _ (Keeps-lift (h.registration b)) λ _. record { at = λ w p. p }

  Absent-deregister_id : (r : Result String) → Keeps (At q none) (Ssm.deregister_id h r)
  unfolding Ssm.is_instance_managed
  Absent-deregister_id (ok _) = search (keeps_rules, absent_rules) depth 9
  Absent-deregister_id (err not_exist) = record { at = λ w p. p }
  Absent-deregister_id (err e) = Keeps-lift _

  Absent-deregister : Keeps (At q none) (Ssm.deregister h)
  unfolding Ssm.deregister
  Absent-deregister =
      Keeps-handled _ (Ssm.deregister_id h) Absent-managed_instance_id Absent-deregister_id

  Absent-region : (r : Result String) → Keeps (At q none) (Ssm.region_if_registered h r)
  Absent-region (ok _) = record {
    at = λ w p.
        (Keeps-bind _ _ (At-os_read_file h Ssm.registration_path)
            (λ b. Keeps-lift (h.registration b))).at
          w p;
  }
  Absent-region (err _) = record { at = λ w p. p }

  Absent-get_region : Keeps (At q none) (Ssm.get_region h)
  unfolding Ssm.get_region
  Absent-get_region =
      Keeps-handled _ (Ssm.region_if_registered h) Absent-managed_instance_id Absent-region

  module _ (u : Uninstaller) where
    Absent-ssm : Keeps (At q none) (Ssm.uninstall h u.package_manager)
    unfolding Ssm.uninstall Ssm.uninstall_pre_register_components
    Absent-ssm = Keeps-run_all _ (
      Absent-deregister,
      (
        search (keeps_rules, absent_rules) depth 9,
        (
          search (keeps_rules, absent_rules) depth 9,
          (
            search (keeps_rules, absent_rules) depth 9,
            (
              search (keeps_rules, absent_rules) depth 9,
              (search (keeps_rules, absent_rules) depth 9, tt),
            ),
          ),
        ),
      ),
    )

    pub Absent-ssm_daemon : Keeps (At q none) (uninstall_ssm_daemon h u)
    unfolding uninstall_ssm_daemon
    Absent-ssm_daemon =
        search (keeps_rules, absent_rules, Absent-stop_daemon, Absent-get_region, Absent-ssm) depth
          9

    pub Absent-containerd_daemon : Keeps (At q none) (uninstall_containerd_daemon h u)
    unfolding uninstall_containerd_daemon Containerd.uninstall
    Absent-containerd_daemon = search (keeps_rules, absent_rules, Absent-stop_daemon) depth 9

    pub Absent-signing_helper : Keeps (At q none) (stop_signing_helper h u)
    unfolding stop_signing_helper
    Absent-signing_helper =
        Keeps-handled _ (stop_if_known h u) (Absent-get_daemon_status "aws_signing_helper_update")
          after_status
      where
        after_status : (r : Result DaemonStatus) → Keeps (At q none) (stop_if_known h u r)
        after_status (ok _) = Absent-stop_daemon "aws_signing_helper_update"
        after_status (err _) = record { at = λ w p. p }

    pub Absent-binaries : Keeps (At q none) (uninstall_binaries h u)
    unfolding uninstall_binaries uninstall_kubectl uninstall_authenticator
        uninstall_image_credential_provider Cni.uninstall IamRolesAnywhere.uninstall
        Iptables.uninstall
    Absent-binaries = search (keeps_rules, absent_rules) depth 12

    Absent-remove_repo_file :
        (p : String) → Keeps (At q none) (remove_repo_file h u.package_manager p)
    unfolding remove_repo_file
    Absent-remove_repo_file p = record {
      at = λ w i. (either (h.act w.trace (stat p))).at (log (stat p) w) i;
    }
      where
        either : (o : Option Err) → Keeps (At q none) (remove_if_there h u.package_manager p o)
        either none = Keeps-wrapping _ _ (Absent-os_remove h p)
        either (some not_exist) = record { at = λ w i. i }
        either (some e) = Keeps-lift _

    Absent-remove_key : Keeps (At q none) (remove_key h u.package_manager)
    unfolding remove_key
    Absent-remove_key = record { at = λ w i. (Absent-os_remove h _).at w i }

    pub Absent-clean_up : Keeps (At q none) (clean_up h u)
    unfolding clean_up cleanup uninstall_docker_repo
    Absent-clean_up =
        search (keeps_rules, absent_rules, Absent-remove_repo_file, Absent-remove_key) depth 12
