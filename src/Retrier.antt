-- ===== src/Retrier.antt =====
-- internal/retry/retry.go and maxerrors.go. The loop wait.ExponentialBackoffWithContext is a
-- parameter: it is given the number of steps and the condition.
use eks_hybrid.Base.{
  ℕ, suc, ◌+◌, ◌≤◌, ◌^◌, ◌-◌, leb, ◌==◌, if◌then◌else◌, ◌≡◌, ◌↔◌, refl, ◌∙◌, Bool, true, false,
  ◌&&◌, Option, none, some, List, [], ◌∷◌, ◌++◌, map, length, Err, errorf, wrap, Result, ok, err,
  arith,
}

-- A handler of errors, with the state its closure keeps: it answers `none` to go on.
pub record Handler (H : Type 0) : Type 0 where
  pub handle : H → Option Err → Option Err × H

abbrev pub next_attempts : ℕ → Option Err → ℕ
next_attempts n none = 0
next_attempts n (some e) = suc n

abbrev pub within : ℕ → ℕ → Option Err → Option Err
within max n e = if leb n max then none else some (wrap "max attempts reached" (of_cause e))
  where
    of_cause : Option Err → Err
    of_cause none = errorf "<nil>"
    of_cause (some c) = c

-- NewMaxConsecutiveErrorHandler
unfoldable pub max_consecutive : ℕ → Handler ℕ
max_consecutive max = record {
  handle = λ n e. (within max (next_attempts n e) e, next_attempts n e);
}

pub record Retrier (H : Type 0) : Type 0 where
  pub handle_error : Option (Handler H)
  pub has_timeout : Bool
  -- Backoff.Steps
  pub steps : ℕ

abbrev pub later_error : Option Err → Option Err → Option Err
later_error none last = last
later_error (some e) last = some e

-- after the handler: its answer replaces the operation's error
abbrev pub handled : Bool → Option Err → Result Bool
handled done (some e) = err e
handled done none = ok done

abbrev pub is_nil : Option Err → Bool
is_nil none = true
is_nil (some e) = false

-- what the loop ends with: an error of the condition, or the end of the context or of the steps
pub data Ended : Type 0 where
  succeeded : Ended
  condition_failed : Err → Ended
  interrupted : Err → Ended

abbrev pub while_retrying : Err → Option Err → Option Err
while_retrying e none = some e
while_retrying e (some last) = some (wrap "while retrying" last)

abbrev pub outcome : Ended → Option Err → Option Err
outcome succeeded last = none
outcome (condition_failed e) last = some e
outcome (interrupted e) last = while_retrying e last

abbrev pub steps_or_max : ℕ → ℕ
steps_or_max n = if n == 0 then 2 ^ 63 - 1 else n

-- An operation: whether it is done, and its error
abbrev pub Operation : Type 0 → Type 0
Operation S = S → (Bool × Option Err) × S

pub record Progress (S H : Type 0) : Type 0 where
  pub world : S
  pub handler : H
  pub last_error : Option Err

module _ {S H : Type 0} where
  abbrev pub judge :
      Option (Handler H) → Bool × Option Err → Progress S H → Result Bool × Progress S H
  judge none (done, e) p = (ok (done && is_nil e), p)
  judge (some k) (done, e) p =
      let (answer, h) = k.handle p.handler e in (handled done answer, record p { handler = h })

  -- the condition that Do gives to the loop
  unfoldable pub condition :
      Option (Handler H) → Operation S → Progress S H → Result Bool × Progress S H
  condition handler op p =
      let (r, s) = op p.world in
      judge handler r (record p { world = s; last_error = later_error r.1 p.last_error })

  -- Do
  unfoldable pub do_retry :
      (ℕ → (Progress S H → Result Bool × Progress S H) → Progress S H → Ended × Progress S H)
      → Retrier H
      → Operation S
      → Progress S H
      → Option Err × Progress S H
  do_retry loop r op p =
      let (e, q) = loop (steps_or_max r.steps) (condition r.handle_error op) p in
      (outcome e q.last_error, q)

  -- With a handler that lets the error pass, a round in which the operation is done but has an error
  -- ends the loop with success, and the error is only kept as the last one.
  pub condition-done_error :
      (k : Handler H) (op : Operation S) (p : Progress S H) (s : S) (e : Err) (h : H)
      → op p.world ≡ ((true, some e), s)
      → k.handle p.handler (some e) ≡ (none, h)
      → condition (some k) op p ≡ (ok true, record { world = s; handler = h; last_error = some e })
  unfolding condition
  condition-done_error k op p s e h a b = rw (a, b) refl

-- the state that a handler's closure keeps after some calls of it
unfoldable pub state_after : {H : Type 0} → Handler H → H → List (Option Err) → H
state_after k s [] = s
state_after k s (e ∷ es) = state_after k (k.handle s e).1 es

state_after-append :
    {H : Type 0} (k : Handler H) (es fs : List (Option Err)) (s : H)
    → state_after k s (es ++ fs) ≡ state_after k (state_after k s es) fs
unfolding state_after
state_after-append k [] fs s = refl
state_after-append k (e ∷ es) fs s = state_after-append k es fs _

state_after-errors :
    (max : ℕ) (fs : List Err) (n : ℕ)
    → state_after (max_consecutive max) n (map some fs) ≡ n + length fs
unfolding state_after max_consecutive
state_after-errors max [] n = omega arith
state_after-errors max (f ∷ fs) n = omega (arith, state_after-errors max fs (suc n))

passes : (max n : ℕ) (e : Err) → (within max n (some e) ≡ none) ↔ (n ≤ max)
passes max n e = ((λ q. ground arith), λ l. ground arith)

-- Whatever calls came before, after a call without an error and then some errors in a row, the handler
-- lets the next error pass just if there were fewer of them than its maximum.
pub max_consecutive-after_success :
    (max n : ℕ) (es : List (Option Err)) (fs : List Err) (e : Err)
    → (((max_consecutive max).handle
          (state_after (max_consecutive max) n (es ++ (none ∷ map some fs)))
          (some e)).0
        ≡ none)
      ↔ (suc (length fs) ≤ max)
unfolding max_consecutive state_after
max_consecutive-after_success max n es fs e =
    let c : state_after (max_consecutive max) n (es ++ (none ∷ map some fs)) ≡ length fs =
      state_after-append (max_consecutive max) es _ n
      ∙ omega (arith, state_after-errors max fs 0) in
    rw c (passes max (suc (length fs)) e)
