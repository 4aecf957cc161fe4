-- ===== src/Machine/Retried.antt =====
-- A command that is retried: its runs, the waits between them, and its success.
use eks_hybrid.Base.{
  ◌∷◌, ℕ, zero, suc, ◌≤◌, ◌≡◌, ◌≢◌, ◌⊎◌, inl, inr, refl, ap, Option, none, some, List, arith, Err,
  Result, ok, err, of_error, IsOk,
}
use eks_hybrid.Machine.Defs.{Call, backoff, Host, World}
use eks_hybrid.Machine.Monad.{Exec, lift, ◌>>=◌}
use eks_hybrid.Machine.Calls.{log, act, note}
use eks_hybrid.Machine.Retry.{Cmd, run, after, retry_loop, retry}

module _ (h : Host) (c : Cmd) where
  -- The last call was the command, and it succeeded.
  abbrev pub Succeeded : World → Type 0
  Succeeded w = (t : List Call) × (w.trace ≡ run c ∷ t × h.act t (run c) ≡ none)

  done_now :
      (w : World) (o : Option Err)
      → h.act w.trace (run c) ≡ o
      → IsOk (of_error o)
      → Succeeded (log (run c) w)
  done_now w none e i = (w.trace, (refl, e))
  done_now w (some x) e i = elim i [ ]

  after-Succeeded :
      (r : Result Unit) (more : Exec Unit) (w : World)
      → (IsOk r → Succeeded w)
      → (IsOk (more w).0 → Succeeded (more w).1)
      → IsOk (after h r more w).0
      → Succeeded (after h r more w).1
  after-Succeeded (ok _) more w now later i = now tt
  after-Succeeded (err e) more w now later i = later i

  -- the calls after one run and `k` more, with a wait before each of those
  unfoldable pub rounds : ℕ → List Call → List Call
  rounds zero t = run c ∷ t
  rounds (suc k) t = rounds k (backoff ∷ run c ∷ t)

  -- of these runs, all but the last failed
  unfoldable pub FailedBefore : ℕ → List Call → Type 0
  FailedBefore zero t = Unit
  FailedBefore (suc k) t = (h.act t (run c) ≢ none) × FailedBefore k (backoff ∷ run c ∷ t)

  -- From the calls `t`, with at most `n` waits: one run more than the waits that were made; without
  -- success, all waits were made.
  abbrev pub Retried : ℕ → List Call → Result (Unit {0}) × World → Type 0
  Retried n t o =
      (k : ℕ) × (k ≤ n) × (o.1.trace ≡ rounds k t) × FailedBefore k t × (IsOk o.0 ⊎ (k ≡ n))

  retry_loop-Succeeded :
      (n : ℕ) (w : World) → IsOk (retry_loop h n c w).0 → Succeeded (retry_loop h n c w).1
  unfolding retry_loop act note ◌>>=◌
  retry_loop-Succeeded zero w i =
      after-Succeeded (act h (run c) w).0 _ (act h (run c) w).1 (done_now w _ refl)
        (λ x. elim x [ ]) i
  retry_loop-Succeeded (suc n) w i =
      after-Succeeded (act h (run c) w).0 _ (act h (run c) w).1 (done_now w _ refl)
        (retry_loop-Succeeded n _) i

  -- A retried command counts as done only if its last run, which is the last call made, succeeded.
  pub retry-Succeeded : (w : World) → IsOk (retry h c w).0 → Succeeded (retry h c w).1
  unfolding retry
  retry-Succeeded w i = retry_loop-Succeeded (h.waits w.trace) w i

  last_round :
      (w : World) (o : Option Err) (e : Err)
      → Retried 0 w.trace (after h (of_error o) (lift (err e)) (log (run c) w))
  unfolding rounds FailedBefore
  last_round w none e = (0, omega arith, refl, tt, inl tt)
  last_round w (some x) e = (0, omega arith, refl, tt, inr refl)

  one_more :
      (n : ℕ) (w : World) (o : Option Err) (more : Exec Unit)
      → h.act w.trace (run c) ≡ o
      → Retried n (backoff ∷ run c ∷ w.trace) (more (log (run c) w))
      → Retried (suc n) w.trace (after h (of_error o) more (log (run c) w))
  unfolding rounds FailedBefore
  one_more n w none more e r = (0, omega arith, refl, tt, inl tt)
  one_more n w (some x) more e (k, l, t, f, s) = (
    suc k,
    omega (arith, l),
    t,
    ((λ q. cc), f),
    elim s [ inl i ↦ inl i | inr j ↦ inr (ap suc j) ],
  )

  retry_loop-Retried : (n : ℕ) (w : World) → Retried n w.trace (retry_loop h n c w)
  unfolding retry_loop act note ◌>>=◌
  retry_loop-Retried zero w = last_round w (h.act w.trace (run c)) _
  retry_loop-Retried (suc n) w =
      one_more n w (h.act w.trace (run c)) _ refl (retry_loop-Retried n _)

  -- A retried command ends after some runs, with one wait between two runs and no other calls, all of
  -- them but the last failing; it waits at most as often as the context allows, and just as often if
  -- it does not succeed.
  pub retry-Retried : (w : World) → Retried (h.waits w.trace) w.trace (retry h c w)
  unfolding retry
  retry-Retried w = retry_loop-Retried (h.waits w.trace) w
