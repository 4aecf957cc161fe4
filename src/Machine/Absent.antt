-- ===== src/Machine/Absent.antt =====
-- Files that are absent: what makes them so, and what keeps them so.
use eks_hybrid.Base.{
  ℕ, zero, suc, String, ◌≡◌, true, Option, none, List, arith, Option-cases, errorf, wrap, Result,
  ok, err,
}
use eks_hybrid.Machine.Defs.{Call, remove_all, remove, backoff, Host, World, under}
use eks_hybrid.Machine.Monad.{Exec}
use eks_hybrid.Machine.Calls.{act, note, os_remove_all, os_remove}
use eks_hybrid.Machine.Retry.{Cmd, run, after, retry_loop, retry}
use eks_hybrid.Machine.Triple.{Triple, Keeps, Keeps-bind, Keeps-lift}
use eks_hybrid.Machine.Frame.{At, At-act, At-test, At-found, At-os_read_file}

module _ (h : Host) {q : String} where
  pub Absent-os_remove_all : (p : String) → Keeps (At q none) (os_remove_all h p)
  unfolding os_remove_all
  Absent-os_remove_all p = record {
    at = λ w e. ground (arith, Option-cases (h.act w.trace (remove_all p)));
  }

  pub Absent-os_remove : (p : String) → Keeps (At q none) (os_remove h p)
  unfolding os_remove
  Absent-os_remove p = record {
    at = λ w e. ground (arith, Option-cases (h.act w.trace (remove p)));
  }

  -- What a successful RemoveAll covers is gone.
  pub os_remove_all-Absent :
      {P : World → Type 0} (p : String)
      → under p q ≡ true
      → Triple P (os_remove_all h p) (At q none)
  unfolding os_remove_all
  os_remove_all-Absent p u = record {
    at = λ w _ o. ground (arith, u, Option-cases (h.act w.trace (remove_all p)));
  }

after-Keeps :
    (h : Host) (P : World → Type 0) (r : Result Unit) (more : Exec Unit)
    → Keeps P more
    → Keeps P (after h r more)
after-Keeps h P (ok _) more k = record { at = λ w p. p }
after-Keeps h P (err e) more k = k

module _ (h : Host) {q : String} {o : Option (List ℕ)} where
  At-note : (c : Call) → Keeps (At q o) (note h c)
  unfolding note
  At-note c = record { at = λ w e. e }

  At-retry_loop : (n : ℕ) (c : Cmd) → Keeps (At q o) (retry_loop h n c)
  unfolding retry_loop
  At-retry_loop zero c = record {
    at = λ w p.
        let (r, w') = act h (run c) w in
        (after-Keeps h (At q o) r _
            (Keeps-lift (err (wrap "context done" (errorf "running command"))))).at
          w' ((At-act h (run c)).at w p);
  }
  At-retry_loop (suc n) c = record {
    at = λ w p.
        let (r, w') = act h (run c) w in
        (after-Keeps h (At q o) r _ (Keeps-bind _ _ (At-note backoff) (λ _. At-retry_loop n c))).at
          w' ((At-act h (run c)).at w p);
  }

  pub At-retry : (c : Cmd) → Keeps (At q o) (retry h c)
  unfolding retry
  At-retry c = record { at = λ w p. (At-retry_loop (h.waits w.trace) c).at w p }

pub ruleset absent_rules =
    (At-act, At-test, At-found, At-os_read_file, At-retry, Absent-os_remove_all, Absent-os_remove)
