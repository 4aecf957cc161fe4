-- ===== src/Machine/Success.antt =====
-- What a run that succeeds has gone through
use eks_hybrid.Base.{String, ◌≡◌, refl, Bool, true, false, wrap_err, Err, Result, ok, err, IsOk}
use eks_hybrid.Machine.{World, Exec, guard, continue, ◌>>=◌}

module _ {A B : Type 0} (f : A → Exec B) where
  went_on :
      (r : Result A) (v : World) → IsOk (continue r f v).0 → (a : A) × (r ≡ ok a) × IsOk (f a v).0
  went_on (ok a) v o = (a, refl, o)
  went_on (err e) v o = absurd o

  -- both steps of a run that succeeds do
  pub both-IsOk :
      (m : Exec A) (w : World)
      → IsOk ((m >>= f) w).0
      → (a : A) × ((m w).0 ≡ ok a) × IsOk (f a (m w).1).0
  unfolding ◌>>=◌
  both-IsOk m w o = went_on (m w).0 (m w).1 o

  module _ (P : Result B × World → Type 0) where
    continued :
        (r : Result A) (v : World)
        → ((a : A) → r ≡ ok a → IsOk (f a v).0 → P (f a v))
        → IsOk (continue r f v).0
        → P (continue r f v)
    continued (ok a) v each o = each a refl o
    continued (err e) v each o = absurd o

    -- what the second of two steps gives, after what the first has answered
    pub answered :
        (m : Exec A) (w : World)
        → ((a : A) → (m w).0 ≡ ok a → IsOk (f a (m w).1).0 → P (f a (m w).1))
        → IsOk ((m >>= f) w).0
        → P ((m >>= f) w)
    unfolding ◌>>=◌
    answered m w each o = continued (m w).0 (m w).1 each o

    -- what the last of two steps gives
    pub at_last :
        (m : Exec A)
        → ((a : A) (v : World) → IsOk (f a v).0 → P (f a v))
        → (w : World) → IsOk ((m >>= f) w).0
        → P ((m >>= f) w)
    at_last m each w o = answered m w (λ a e. each a (m w).1) o

pub ok-IsOk : {A : Type 0} (r : Result A) (a : A) → r ≡ ok a → IsOk r
ok-IsOk r a e = rw e tt

pub unwrapped-IsOk : {A : Type 0} (s : String) (r : Result A) → IsOk (wrap_err s r) → IsOk r
unwrapped-IsOk s (ok a) o = o
unwrapped-IsOk s (err e) o = o

pub unwrapped-ok : {A : Type 0} (s : String) (r : Result A) (a : A) → wrap_err s r ≡ ok a → r ≡ ok a
unwrapped-ok s (ok b) a e = e
unwrapped-ok s (err x) a e = cc

pub guard-true : (b : Bool) (e : Err) (w : World) → IsOk (guard b e w).0 → b ≡ true
guard-true true e w o = refl
guard-true false e w o = absurd o
