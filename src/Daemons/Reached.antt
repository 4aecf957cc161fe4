-- ===== src/Daemons/Reached.antt =====
-- When the loops of internal/daemon end with success
use eks_hybrid.Base.{
  ℕ, zero, suc, ◌≤◌, ◌≡◌, inl, inr, refl, subst, true, Bool-cases, err, IsOk, arith,
}
use eks_hybrid.Machine.{World, Host, backoff, Exec, ◌>>=◌, ◌>>◌, lift, note}
use eks_hybrid.Flows.Uninstall.{DaemonStatus}
use eks_hybrid.Daemons.Wait.{has_status, done_or, end_of_context, wait_for_status}

module _ (h : Host) (query : Exec DaemonStatus) (desired : DaemonStatus) where
  -- the world in which the status is asked for after a number of waits
  unfoldable pub polled : ℕ → World → World
  polled zero w = w
  polled (suc k) w = polled k (note h backoff (query w).1).1

  -- A daemon that has the desired status at one of the times when it is asked for it is waited for
  -- with success.
  pub wait_for_status-reached :
      (n k : ℕ) (w : World)
      → k ≤ n
      → has_status desired (query (polled k w)).0 ≡ true
      → IsOk (wait_for_status h n query desired w).0
  unfolding polled wait_for_status ◌>>=◌ note
  wait_for_status-reached zero zero w l s = rw s tt
  wait_for_status-reached zero (suc k) w l s = absurd (omega (arith, l))
  wait_for_status-reached (suc n) zero w l s = rw s tt
  wait_for_status-reached (suc n) (suc k) w l s =
      elim (Bool-cases (has_status desired (query w).0)) [
        | inl e ↦ rw e tt
        | inr e ↦ rw e (wait_for_status-reached n k _ (omega arith) s)
      ]

  -- Success means that the status was the desired one at one of those times, and that asking for it
  -- was the last thing done.
  pub wait_for_status-was_reached :
      (n : ℕ) (w : World)
      → IsOk (wait_for_status h n query desired w).0
      → (k : ℕ) × (k ≤ n)
        × (has_status desired (query (polled k w)).0 ≡ true)
        × ((wait_for_status h n query desired w).1 ≡ (query (polled k w)).1)
  unfolding polled wait_for_status ◌>>=◌ note
  wait_for_status-was_reached zero w o = elim (Bool-cases (has_status desired (query w).0)) [
    | inl e ↦ (0, omega arith, e, rw e refl)
    | inr e ↦ absurd (subst (λ b. IsOk (done_or b (lift (err end_of_context)) (query w).1).0) e o)
  ]
  wait_for_status-was_reached (suc n) w o = elim (Bool-cases (has_status desired (query w).0)) [
    | inl e ↦ (0, omega arith, e, rw e refl)
    | inr e ↦
        let (k, l, s, v) = wait_for_status-was_reached n _ (
          subst
            (λ b.
              IsOk (done_or b (note h backoff >> wait_for_status h n query desired) (query w).1).0)
            e o) in
        (suc k, omega arith, s, rw e v)
  ]
