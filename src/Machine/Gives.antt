-- ===== src/Machine/Gives.antt =====
-- What holds of the value that code gave and of the state it ended in.
use eks_hybrid.Base.{String, ◌≡◌, refl, Result, ok, err, IsOk}
use eks_hybrid.Machine.Defs.{World}
use eks_hybrid.Machine.Monad.{Exec, continue, ◌>>=◌, wrapping}
use eks_hybrid.Machine.Triple.{Triple, wrap_err-eq-ok}

-- A run of `m` from `P` that gives `a` ends in `Q a`.
pub record Gives {A : Type 0} (P : World → Type 0) (m : Exec A) (Q : A → World → Type 0)
    : Type 0 where
  pub at : (w : World) → P w → (a : A) → (m w).0 ≡ ok a → Q a (m w).1

module _ {A : Type 0} {P : World → Type 0} {Q : A → World → Type 0} where
  pub Gives-wrapping : (s : String) (m : Exec A) → Gives P m Q → Gives P (wrapping s m) Q
  unfolding wrapping
  Gives-wrapping s m g = record { at = λ w p a e. g.at w p a (wrap_err-eq-ok s (m w).0 e) }

module _ {A B : Type 0} {R : A → World → Type 0} where
  continue-Gives :
      {Q : B → World → Type 0} (r : Result A) (f : A → Exec B) (w : World)
      → ((a : A) → r ≡ ok a → R a w)
      → ((a : A) → Gives (R a) (f a) Q)
      → (b : B) → (continue r f w).0 ≡ ok b
      → Q b (continue r f w).1
  continue-Gives (ok a) f w p g b e = (g a).at w (p a refl) b e
  continue-Gives (err x) f w p g b e = cc

  pub Gives-bind :
      {P : World → Type 0} {Q : B → World → Type 0} (m : Exec A) (f : A → Exec B)
      → Gives P m R
      → ((a : A) → Gives (R a) (f a) Q)
      → Gives P (m >>= f) Q
  unfolding ◌>>=◌
  Gives-bind m f gm gf = record {
    at = λ w p b e. continue-Gives (m w).0 f (m w).1 (gm.at w p) gf b e;
  }

  continue-Triple :
      {Q : World → Type 0} (r : Result A) (f : A → Exec B) (w : World)
      → ((a : A) → r ≡ ok a → R a w)
      → ((a : A) → Triple (R a) (f a) Q)
      → IsOk (continue r f w).0
      → Q (continue r f w).1
  continue-Triple (ok a) f w p t o = (t a).at w (p a refl) o
  continue-Triple (err x) f w p t o = elim o [ ]

  pub Gives-then :
      {P : World → Type 0} {Q : World → Type 0} (m : Exec A) (f : A → Exec B)
      → Gives P m R
      → ((a : A) → Triple (R a) (f a) Q)
      → Triple P (m >>= f) Q
  unfolding ◌>>=◌
  Gives-then m f gm tf = record { at = λ w p o. continue-Triple (m w).0 f (m w).1 (gm.at w p) tf o }
