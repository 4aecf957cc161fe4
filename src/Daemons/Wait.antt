-- ===== src/Daemons/Wait.antt =====
-- internal/daemon/wait.go and retry.go. A context is the number of times that time.After(backoff)
-- wins against it.
use eks_hybrid.Base.{
  ℕ, zero, suc, String, ◌<>◌, Bool, true, false, Option, none, some, errorf, wrap, Result, ok, err,
  Err,
}
use eks_hybrid.Machine.{World, Host, backoff, Exec, pure, lift, ◌>>◌, note}
use eks_hybrid.Flows.Uninstall.{DaemonStatus, running, stopped, unknown}

abbrev pub same_status : DaemonStatus → DaemonStatus → Bool
same_status running running = true
same_status stopped stopped = true
same_status unknown unknown = true
same_status _ _ = false

-- The status is the desired one; an error counts as not yet.
abbrev pub has_status : DaemonStatus → Result DaemonStatus → Bool
has_status desired (ok s) = same_status s desired
has_status desired (err e) = false

abbrev pub done_or : Bool → Exec Unit → Exec Unit
done_or true more = pure tt
done_or false more = more

abbrev pub after_wait : Result DaemonStatus → DaemonStatus → Exec Unit → Exec Unit
after_wait r desired more = done_or (has_status desired r) more

abbrev pub end_of_context : Err
end_of_context = wrap "daemon still has another status" (errorf "context done")

module _ (h : Host) where
  unfoldable pub wait_for_status : ℕ → Exec DaemonStatus → DaemonStatus → Exec Unit
  wait_for_status zero query desired w =
      let (r, w') = query w in after_wait r desired (lift (err end_of_context)) w'
  wait_for_status (suc n) query desired w =
      let (r, w') = query w in
      after_wait r desired (note h backoff >> wait_for_status n query desired) w'

pub data OperationResult : Type 0 where
  done canceled timeout failed dependency skipped : OperationResult

-- what the select yields: a result, or the end of the context
abbrev pub of_result : String → Option OperationResult → Result (Unit {0})
of_result name none = err (
    wrap ("operation for daemon " <> name <> " did not complete in time, result is unknown")
      (errorf "context done"))
of_result name (some failed) =
    err (errorf ("operation for daemon " <> name <> " failed with result [failed]"))
of_result name (some timeout) =
    err (errorf ("operation for daemon " <> name <> " failed with result [timeout]"))
of_result name (some _) = ok tt

-- WaitForOperation, over an operation that reports its result in the background
unfoldable pub wait_for_operation :
    Bool → Exec Unit → (World → Option OperationResult) → String → Exec Unit
wait_for_operation true op answer name =
    lift (err (errorf "cannot specify a result channel when waiting for an operation"))
wait_for_operation false op answer name = do op; (λ w. (of_result name (answer w), w))

abbrev pub tried : Result (Unit {0}) → (Err → Exec Unit) → Exec Unit
tried (ok _) more = pure tt
tried (err e) more = more e

module _ (h : Host) where
  -- RetryOperation, over one round of waiting for the operation
  unfoldable pub retry_operation : ℕ → Exec Unit → Exec Unit
  retry_operation zero m w =
      let (r, w') = m w in tried r (λ e. lift (err (wrap "operation didn't succeed" e))) w'
  retry_operation (suc n) m w =
      let (r, w') = m w in tried r (λ e. note h backoff >> retry_operation n m) w'
