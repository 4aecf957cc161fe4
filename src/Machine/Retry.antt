-- ===== src/Machine/Retry.antt =====
-- internal/util/cmd/retry.go. A context is the number of backoff waits that end before it is done:
-- `h.waits` at the call. A context that is never done and a command that never succeeds make the
-- loop run for ever, and are not covered.
use eks_hybrid.Base.{ℕ, zero, suc, String, List, errorf, wrap, Result, ok, err}
use eks_hybrid.Machine.Defs.{Call, command, backoff, Host}
use eks_hybrid.Machine.Monad.{Exec, pure, lift, ◌>>◌}
use eks_hybrid.Machine.Calls.{act, note}

-- a command line, path first
pub record Cmd : Type 0 where
  pub path : String
  pub args : List String

abbrev pub run : Cmd → Call
run c = command c.path c.args

module _ (h : Host) where
  -- the branch taken after one run of the command
  abbrev pub after : Result (Unit {0}) → Exec (Unit {0}) → Exec (Unit {0})
  after (ok _) more = pure tt
  after (err e) more = more

  unfoldable pub retry_loop : ℕ → Cmd → Exec (Unit {0})
  retry_loop zero c w =
      let (r, w') = act h (run c) w in
      after r (lift (err (wrap "context done" (errorf "running command")))) w'
  retry_loop (suc n) c w =
      let (r, w') = act h (run c) w in after r (note h backoff >> retry_loop n c) w'

  unfoldable pub retry : Cmd → Exec (Unit {0})
  unfolding retry_loop
  retry c w = retry_loop (h.waits w.trace) c w
