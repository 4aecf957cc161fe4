-- ===== src/Commands/Guarded.antt =====
-- The commands and the check that the node was drained
use eks_hybrid.Base.{
  String, contains, ◌≡◌, sym, subst, ◌∙◌, Bool, true, false, List, wrap_err, ok, IsOk,
}
use eks_hybrid.Machine.{World, Host, when, wrapping}
use eks_hybrid.Machine.Success.{both-IsOk, ok-IsOk, unwrapped-ok, guard-true}
use eks_hybrid.Tracker.{InstalledArtifacts}
use eks_hybrid.Flows.Uninstall.{DaemonStatus, is_running, running, get_daemon_status}
use eks_hybrid.Commands.Preflight.{
  NodeAccess, node_is_drained, check_drained, check_pods, check_running, preflight,
}
use eks_hybrid.Commands.Run.{Cli, uninstall_installed}

ok_injective : {a b : DaemonStatus} → ok a ≡ ok b → a ≡ b
ok_injective e = cc

module _ (n : NodeAccess) where
  check_drained-ok : (w : World) → IsOk (check_drained n w).0 → (node_is_drained n w).0 ≡ ok true
  unfolding check_drained wrapping
  check_drained-ok w o =
      let (b, e, g) =
        both-IsOk _ (wrapping "validating if node has been drained" (node_is_drained n)) w o in
      unwrapped-ok "validating if node has been drained" (node_is_drained n w).0 true (
        subst (λ c. wrap_err "validating if node has been drained" (node_is_drained n w).0 ≡ ok c)
          (guard-true b _ _ g) e)

  preflight-drained :
      (h : Host) (skip : List String) (a : InstalledArtifacts) (w : World)
      → contains skip "pod-validation" ≡ false
      → a.kubelet ≡ true
      → (get_daemon_status h "kubelet" w).0 ≡ ok running
      → IsOk (preflight n h skip a w).0
      → (node_is_drained n (get_daemon_status h "kubelet" w).1).0 ≡ ok true
  unfolding preflight check_running check_pods
  preflight-drained h skip a w s k r o =
      let (st, e, g) = both-IsOk _ (get_daemon_status h "kubelet") w (rw k at o) in
      let g' : IsOk
          (when (is_running st) (check_running n skip) (get_daemon_status h "kubelet" w).1).0 =
        g in
      let x : st ≡ running = ok_injective (sym e ∙ r) in
      let (u, p, rest) = both-IsOk _ (check_pods n skip) _ (rw x at g') in
      let q : IsOk (check_pods n skip (get_daemon_status h "kubelet" w).1).0 = ok-IsOk _ u p in
      check_drained-ok _ (rw s at q)

  -- When the uninstallation of what is installed succeeds, without skipping the validation of pods,
  -- while kubelet is installed and running as the preflight checks begin, then the node was found
  -- drained.
  pub uninstall_installed-drained :
      (h : Host) (c : Cli) (skip : List String) (force : Bool) (a : InstalledArtifacts) (w : World)
      → contains skip "pod-validation" ≡ false
      → a.kubelet ≡ true
      → (get_daemon_status h "kubelet" (c.new_daemon_manager w).1).0 ≡ ok running
      → IsOk (uninstall_installed h c n skip force a w).0
      → (node_is_drained n (get_daemon_status h "kubelet" (c.new_daemon_manager w).1).1).0 ≡ ok true
  unfolding uninstall_installed
  uninstall_installed-drained h c skip force a w s k r o =
      let (u, e, g) = both-IsOk _ c.new_daemon_manager w o in
      let (v, p, rest) = both-IsOk _ (preflight n h skip a) _ g in
      preflight-drained h skip a _ s k r (ok-IsOk _ v p)
