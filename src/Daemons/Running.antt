-- ===== src/Daemons/Running.antt =====
-- The status of a daemon that is ensured to run
use eks_hybrid.Base.{String, ◌≡◌, true, Result, IsOk}
use eks_hybrid.Machine.{World, Host, wrapping}
use eks_hybrid.Machine.Success.{at_last, unwrapped-IsOk}
use eks_hybrid.Flows.Uninstall.{running}
use eks_hybrid.Daemons.Manager.{DaemonManager}
use eks_hybrid.Daemons.Wait.{has_status}
use eks_hybrid.Daemons.Reached.{polled, wait_for_status-was_reached}
use eks_hybrid.Daemons.Services.{Parts, wait_running, ensure_containerd}

module _ (h : Host) (m : DaemonManager) (p : Parts) where
  -- the last thing that was done was to ask for a daemon's status, and it was running
  abbrev pub SeenRunning : String → Result (Unit {0}) × World → Type 0
  SeenRunning name o =
      (u : World) × (has_status running (m.get_daemon_status name u).0 ≡ true)
      × (o.1 ≡ (m.get_daemon_status name u).1)

  wait_running-SeenRunning :
      (name : String) (w : World)
      → IsOk (wait_running h m p name w).0
      → SeenRunning name (wait_running h m p name w)
  unfolding wait_running wrapping
  wait_running-SeenRunning name w o =
      let (k, l, s, v) =
        wait_for_status-was_reached h (m.get_daemon_status name) running (h.waits w.trace) w
          (unwrapped-IsOk _ _ o) in
      (polled h (m.get_daemon_status name) running k w, s, v)

  -- When the containerd daemon is ensured to run with success, the last thing done was to ask for
  -- its status, and that was running.
  pub ensure_containerd-SeenRunning :
      (w : World)
      → IsOk (ensure_containerd h m p w).0
      → SeenRunning "containerd" (ensure_containerd h m p w)
  unfolding ensure_containerd
  ensure_containerd-SeenRunning w o =
      at_last _ (SeenRunning "containerd") _
        (λ _. at_last _ (SeenRunning "containerd") _ (λ _.
          at_last _ (SeenRunning "containerd") _ (λ _. wait_running-SeenRunning "containerd")))
        w o
