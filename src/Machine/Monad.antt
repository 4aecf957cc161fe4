-- ===== src/Machine/Monad.antt =====
-- Code that acts on the machine and may fail. What was done before a failure stays done.
use eks_hybrid.Base.{
  ℕ, zero, suc, String, Bool, true, false, Err, errorf, Result, ok, err, wrap_err,
}
use eks_hybrid.Machine.Defs.{World}

abbrev pub Exec : Type 0 → Type 0
Exec A = World → Result A × World

module _ {A : Type 0} where
  abbrev pub pure : A → Exec A
  pure a w = (ok a, w)

  abbrev pub lift : Result A → Exec A
  lift r w = (r, w)

  abbrev pub gets : (World → A) → Exec A
  gets f w = (ok (f w), w)

module _ {A B : Type 0} where
  abbrev pub continue : Result A → (A → Exec B) → Exec B
  continue (ok a) f w = f a w
  continue (err e) f w = (err e, w)

  infixl 10 ◌>>=◌ ◌>>◌
  unfoldable pub ◌>>=◌ : Exec A → (A → Exec B) → Exec B
  ◌>>=◌ m f w = let (r, w') = m w in continue r f w'

  abbrev pub ◌>>◌ : Exec A → Exec B → Exec B
  m >> n = m >>= λ _. n

-- if err := m(); err != nil { return errors.Wrap(err, s) }
unfoldable pub wrapping : {A : Type 0} → String → Exec A → Exec A
wrapping s m w = let (r, w') = m w in (wrap_err s r, w')

-- if !b { return e }
abbrev pub guard : Bool → Err → Exec (Unit {0})
guard true e = pure tt
guard false e = lift (err e)

abbrev pub when : Bool → Exec (Unit {0}) → Exec (Unit {0})
when true m = m
when false m = pure tt

abbrev pub round : Result (Unit {0}) → (Result (Unit {0}) → Exec (Unit {0})) → Exec (Unit {0})
round (ok _) more = pure tt
round (err e) more = more (err e)

-- err := last; for range n { err = m(); if err == nil { break } }; return err
unfoldable pub attempts : ℕ → Result (Unit {0}) → Exec (Unit {0}) → Exec (Unit {0})
attempts zero last m w = (last, w)
attempts (suc n) last m w = let (r, w') = m w in round r (λ e. attempts n e m) w'

-- if err := m(); err != nil { return fmt.Errorf("s: %v", err) }, which drops the cause
abbrev pub report_err {ℓ} : {A : Type ℓ} → String → Result A → Result A
report_err s (ok a) = ok a
report_err s (err e) = err (errorf s)

unfoldable pub reporting : {A : Type 0} → String → Exec A → Exec A
reporting s m w = let (r, w') = m w in (report_err s r, w')
