-- ===== src/Commands/Preflight.antt =====
-- internal/node/validations.go, and what the commands uninstall and upgrade check of the node. The
-- access to the cluster is a parameter.
use eks_hybrid.Base.{
  String, ◌<>◌, contains, if◌then◌else◌, Bool, true, false, not, List, Err, errorf, Result, ok, err,
}
use eks_hybrid.Machine.{World, Host, Exec, pure, ◌>>=◌, ◌>>◌, wrapping, guard, when}
use eks_hybrid.Tracker.{InstalledArtifacts}
use eks_hybrid.Node.Drained.{Pod, Manifest, is_drained}
use eks_hybrid.Flows.Uninstall.{is_running, get_daemon_status}

pub record NodeAccess : Type 0 where
  -- kubelet.GetNodeName
  pub get_node_name : Exec String
  -- hybrid.BuildKubeClient
  pub build_client : Exec Unit
  -- GetPodsOnNode
  pub pods_on : String → Exec (List Pod)
  -- the directory of static manifests, as it is read
  pub static_manifests : World → Result (List Manifest)
  -- Get of a node, with its retries: whether it is unschedulable
  pub get_node : String → Exec Bool
  -- apierrors.IsNotFound
  pub is_not_found : Err → Bool

module _ (n : NodeAccess) where
  -- IsDrained
  unfoldable pub node_is_drained : Exec Bool
  node_is_drained = do
    name ← wrapping "getting node name from kubelet" n.get_node_name
    wrapping "failed to create kubernetes client" n.build_client
    pods ← wrapping ("getting pods for node " <> name) (n.pods_on name)
    (λ w. (is_drained (n.static_manifests w) pods, w))

  unfoldable pub get_current_node : Exec Bool
  get_current_node = do name ← n.get_node_name; n.build_client; n.get_node name

  abbrev pub unscheduled : Result Bool → Result (Unit {0})
  unscheduled (ok true) = ok tt
  unscheduled (ok false) = err (errorf "node is schedulable")
  unscheduled (err e) = if n.is_not_found e then ok tt else err e

  -- IsUnscheduled: a node that is not there counts as unscheduled
  unfoldable pub is_unscheduled : Exec Unit
  is_unscheduled w = let (r, w') = get_current_node w in (unscheduled r, w')

  unfoldable pub is_initialized : Exec Unit
  is_initialized = do get_current_node; pure tt

  unfoldable pub check_drained : Exec Unit
  check_drained = do
    drained ← wrapping "validating if node has been drained" node_is_drained
    guard drained (
        errorf
          "only static pods and pods controlled by daemon-sets can be running on the node. Please move pods to different node or use --skip pod-validation")

  unfoldable pub check_pods : List String → Exec Unit
  check_pods skip = when (not (contains skip "pod-validation")) check_drained

  unfoldable pub check_node : List String → Exec Unit
  check_node skip = when (not (contains skip "node-validation")) (
      wrapping "please drain or cordon node to mark it unschedulable or use --skip node-validation"
        is_unscheduled)

  unfoldable pub check_running : List String → Exec Unit
  check_running skip = do check_pods skip; check_node skip

  -- the checks that uninstall and upgrade make before they change anything
  unfoldable pub preflight : Host → List String → InstalledArtifacts → Exec Unit
  preflight h skip a =
      when a.kubelet
        (do status ← get_daemon_status h "kubelet"; when (is_running status) (check_running skip))
