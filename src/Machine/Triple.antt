-- ===== src/Machine/Triple.antt =====
-- What holds after code that succeeded, and what code keeps whether it succeeds or not.
use eks_hybrid.Base.{
  ℕ, zero, suc, ◌≡◌, refl, Bool, true, false, String, if◌then◌else◌, Err, join_end, Result, ok, err,
  IsOk, wrap_err,
}
use eks_hybrid.Machine.Defs.{World}
use eks_hybrid.Machine.Monad.{
  Exec, lift, guard, when, round, attempts, continue, ◌>>=◌, wrapping, report_err, reporting,
}

-- a successful run of `m` from `P` ends in `Q`
pub record Triple {A : Type 0} (P : World → Type 0) (m : Exec A) (Q : World → Type 0) : Type 0 where
  pub at : (w : World) → P w → IsOk (m w).0 → Q (m w).1

-- `m` keeps `P`, whether it succeeds or not
pub record Keeps {A : Type 0} (P : World → Type 0) (m : Exec A) : Type 0 where
  pub at : (w : World) → P w → P (m w).1

module _ {A : Type 0} {P : World → Type 0} where
  pub Keeps-lift : (r : Result A) → Keeps P (lift r)
  Keeps-lift r = record { at = λ w p. p }

  pub Keeps-wrapping : (s : String) (m : Exec A) → Keeps P m → Keeps P (wrapping s m)
  unfolding wrapping
  Keeps-wrapping s m k = record { at = λ w p. k.at w p }

  pub Keeps-reporting : (s : String) (m : Exec A) → Keeps P m → Keeps P (reporting s m)
  unfolding reporting
  Keeps-reporting s m k = record { at = λ w p. k.at w p }

  pub Keeps-if : (b : Bool) (m n : Exec A) → Keeps P m → Keeps P n → Keeps P (if b then m else n)
  Keeps-if true m n km kn = km
  Keeps-if false m n km kn = kn

  pub Triple-Keeps : {m : Exec A} → Keeps P m → Triple P m P
  Triple-Keeps k = record { at = λ w p s. k.at w p }

module _ {A B : Type 0} {P : World → Type 0} where
  continue-Keeps :
      (r : Result A) (f : A → Exec B) → ((a : A) → Keeps P (f a)) → Keeps P (continue r f)
  continue-Keeps (ok a) f k = k a
  continue-Keeps (err e) f k = record { at = λ w p. p }

  pub Keeps-bind :
      (first : Exec A) (next : A → Exec B)
      → Keeps P first
      → ((a : A) → Keeps P (next a))
      → Keeps P (first >>= next)
  unfolding ◌>>=◌
  Keeps-bind first next kept each = record {
    at = λ w p. (continue-Keeps (first w).0 next each).at (first w).1 (kept.at w p);
  }

module _ {A B : Type 0} {P : World → Type 0} where
  -- code that looks at the error of what it called
  pub Keeps-handled :
      (m : Exec A) (k : Result A → Exec B)
      → Keeps P m
      → ((r : Result A) → Keeps P (k r))
      → Keeps P (λ w. let (r, w') = m w in k r w')
  Keeps-handled m k km kk = record { at = λ w p. (kk (m w).0).at (m w).1 (km.at w p) }

module _ {P : World → Type 0} where
  pub Keeps-when : (b : Bool) (m : Exec Unit) → Keeps P m → Keeps P (when b m)
  Keeps-when true m k = k
  Keeps-when false m k = record { at = λ w p. p }

  pub Keeps-guard : (b : Bool) (e : Err) → Keeps P (guard b e)
  Keeps-guard true e = record { at = λ w p. p }
  Keeps-guard false e = record { at = λ w p. p }

  round-Keeps :
      (r : Result Unit) (more : Result Unit → Exec Unit)
      → ((e : Result Unit) → Keeps P (more e))
      → Keeps P (round r more)
  round-Keeps (ok _) more k = record { at = λ w p. p }
  round-Keeps (err e) more k = k (err e)

  pub Keeps-attempts :
      (n : ℕ) (last : Result Unit) (m : Exec Unit) → Keeps P m → Keeps P (attempts n last m)
  unfolding attempts
  Keeps-attempts zero last m k = record { at = λ w p. p }
  Keeps-attempts (suc n) last m k = record {
    at = λ w p.
        let (r, w') = m w in (round-Keeps r _ (λ e. Keeps-attempts n e m k)).at w' (k.at w p);
  }

module _ {A : Type 0} {P Q : World → Type 0} where
  pub Triple-wrapping : (s : String) (m : Exec A) → Triple P m Q → Triple P (wrapping s m) Q
  unfolding wrapping
  Triple-wrapping s m t = record { at = λ w p o. t.at w p (unwrap (m w).0 o) }
    where
      unwrap : (r : Result A) → IsOk (wrap_err s r) → IsOk r
      unwrap (ok a) o = o
      unwrap (err e) o = o

continue-Triple :
    {A B : Type 0} {Q R : World → Type 0} (r : Result A) (f : A → Exec B)
    → ((a : A) → Triple R (f a) Q)
    → (w : World) → (IsOk r → R w)
    → IsOk (continue r f w).0
    → Q (continue r f w).1
continue-Triple (ok a) f t w p o = (t a).at w (p tt) o
continue-Triple (err e) f t w p o = elim o [ ]

module _ {A : Type 0} {P Q : World → Type 0} where
  pub Triple-reporting : (s : String) (m : Exec A) → Triple P m Q → Triple P (reporting s m) Q
  unfolding reporting
  Triple-reporting s m t = record { at = λ w p o. t.at w p (unwrap (m w).0 o) }
    where
      unwrap : (r : Result A) → IsOk (report_err s r) → IsOk r
      unwrap (ok a) o = o
      unwrap (err e) o = o

module _ {A B : Type 0} {P Q R : World → Type 0} where
  pub Triple-bind :
      (m : Exec A) (f : A → Exec B)
      → Triple P m R
      → ((a : A) → Triple R (f a) Q)
      → Triple P (m >>= f) Q
  unfolding ◌>>=◌
  Triple-bind m f tm tf = record {
    at = λ w p o. let (r, w') = m w in continue-Triple r f tf w' (λ s. tm.at w p s) o;
  }

continue-value :
    {A B : Type 0} {P Q : World → Type 0} (r : Result A) (f : A → Exec B)
    → ((a : A) → r ≡ ok a → Triple P (f a) Q)
    → (w : World) → P w
    → IsOk (continue r f w).0
    → Q (continue r f w).1
continue-value (ok a) f t w p o = (t a refl).at w p o
continue-value (err e) f t w p o = elim o [ ]

-- the rest of a block may use which value the first step gave
pub Triple-bind_value :
    {A B : Type 0} {P Q : World → Type 0} (m : Exec A) (f : A → Exec B)
    → Keeps P m
    → ((w : World) (a : A) → (m w).0 ≡ ok a → Triple P (f a) Q)
    → Triple P (m >>= f) Q
unfolding ◌>>=◌
Triple-bind_value m f k tf = record {
  at = λ w p o. continue-value (m w).0 f (tf w) (m w).1 (k.at w p) o;
}

pub Triple-guard :
    {P Q : World → Type 0} (b : Bool) (e : Err)
    → ((w : World) → b ≡ true → P w → Q w)
    → Triple P (guard b e) Q
Triple-guard true e t = record { at = λ w p o. t w refl p }
Triple-guard false e t = record { at = λ w p o. elim o [ ] }

pub wrap_err-eq-ok {ℓ} :
    {A : Type ℓ} (s : String) (r : Result A) {a : A} → wrap_err s r ≡ ok a → r ≡ ok a
wrap_err-eq-ok s (ok a) e = e
wrap_err-eq-ok s (err x) e = cc

module _ {P Q : World → Type 0} (m : Exec Unit) (k : Keeps P m) (t : Triple P m Q) where
  round-Triple :
      (r : Result Unit) (more : Result Unit → Exec Unit) (w : World)
      → (IsOk r → Q w)
      → P w
      → ((e : Err) → Triple P (more (err e)) Q)
      → IsOk (round r more w).0
      → Q (round r more w).1
  round-Triple (ok _) more w q p tm o = q tt
  round-Triple (err e) more w q p tm o = (tm e).at w p o

  attempts_failed : (n : ℕ) (e : Err) → Triple P (attempts n (err e) m) Q
  unfolding attempts
  attempts_failed zero e = record { at = λ w p o. elim o [ ] }
  attempts_failed (suc n) e = record {
    at = λ w p o.
        let (r, w') = m w in
        round-Triple r _ w' (λ s. t.at w p s) (k.at w p) (λ e'. attempts_failed n e') o;
  }

  pub Triple-attempts : (n : ℕ) (last : Result Unit) → Triple P (attempts (suc n) last m) Q
  unfolding attempts
  Triple-attempts n last = record { at = λ w p o. (attempts_failed (suc n) join_end).at w p o }

module _ {A : Type 0} {P Q R : World → Type 0} {m : Exec A} where
  -- a step that reaches `Q` and keeps what held before it
  pub Triple-adds :
      Triple P m Q → ((w : World) → R w → P w) → Keeps R m → Triple R m (λ w. R w × Q w)
  Triple-adds t weaken k = record { at = λ w r o. (k.at w r, t.at w (weaken w r) o) }

  pub Triple-consequence : ((w : World) → R w → P w) → Triple P m Q → Triple R m Q
  Triple-consequence weaken t = record { at = λ w r o. t.at w (weaken w r) o }

module _ {A : Type 0} {P Q : World → Type 0} {m : Exec A} where
  pub Keeps-× : Keeps P m → Keeps Q m → Keeps (λ w. P w × Q w) m
  Keeps-× k l = record { at = λ w p. (k.at w p.0, l.at w p.1) }

pub ruleset keeps_rules = (
  Keeps-lift, Keeps-wrapping, Keeps-reporting, Keeps-if, Keeps-bind, Keeps-when, Keeps-guard,
  Keeps-attempts,
)
