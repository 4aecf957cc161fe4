-- ===== src/Node/Inactive.antt =====
-- internal/node/hybrid/nodeinactive_validator.go
use eks_hybrid.Base.{
  String, ◌≡◌, refl, Option, none, some, [], Err, errorf, not_exist, wrap, join_cons, join_end,
  panic, Result, ok, err,
}
use eks_hybrid.Rules.Runner.{Failure, plain, warning, errors_of, errors_among}
use eks_hybrid.Flows.Uninstall.{DaemonStatus, running, stopped, unknown}

abbrev pub warned : String → Option Failure
warned m = some (
    warning (plain m)
      "Ensure the hybrid node is made inactive by running 'nodeadm uninstall' before attaching to the EKS cluster")

-- if _, statErr := os.Stat(p); !os.IsNotExist(statErr)
abbrev pub unless_absent : Option Err → String → String → Option Failure → Option Failure
unless_absent none there unclear rest = warned there
unless_absent (some not_exist) there unclear rest = rest
unless_absent (some e) there unclear rest = warned unclear

abbrev pub not_running : Result DaemonStatus → Option Failure
not_running (ok running) =
    warned "kubelet service is still active and may be connected to a previous cluster"
not_running (ok stopped) = none
not_running (ok unknown) = none
not_running (err e) = warned "getting the status of kubelet"

-- ValidateNodeIsInactive, from what os.Stat says of the two paths and from the kubelet's status
unfoldable pub validate_inactive : Option Err → Option Err → Result DaemonStatus → Option Failure
validate_inactive environment directory status =
    unless_absent environment "kubelet args environment file /etc/eks/kubelet/environment exists"
      "checking kubelet environment file /etc/eks/kubelet/environment cleanup"
      (unless_absent directory "kubernetes directory /etc/kubernetes still exists"
        "checking kubernetes directory /etc/kubernetes cleanup" (not_running status))

module _ (there unclear : String) where
  unless_absent-warning :
      (o : Option Err) (rest : Option Failure)
      → errors_of rest ≡ []
      → errors_of (unless_absent o there unclear rest) ≡ []
  unfolding errors_among
  unless_absent-warning none rest e = refl
  unless_absent-warning (some (errorf m)) rest e = refl
  unless_absent-warning (some not_exist) rest e = e
  unless_absent-warning (some (wrap m c)) rest e = refl
  unless_absent-warning (some (join_cons a b)) rest e = refl
  unless_absent-warning (some join_end) rest e = refl
  unless_absent-warning (some (panic m)) rest e = refl

not_running-warning : (status : Result DaemonStatus) → errors_of (not_running status) ≡ []
unfolding errors_among
not_running-warning (ok running) = refl
not_running-warning (ok stopped) = refl
not_running-warning (ok unknown) = refl
not_running-warning (err e) = refl

-- The validation never fails a node: what it reports is at most a warning.
pub validate_inactive-warning :
    (environment directory : Option Err) (status : Result DaemonStatus)
    → errors_of (validate_inactive environment directory status) ≡ []
unfolding validate_inactive
validate_inactive-warning environment directory status =
    unless_absent-warning _ _ environment _
      (unless_absent-warning _ _ directory _ (not_running-warning status))
