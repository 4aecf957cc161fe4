-- ===== src/Components/Gathered.antt =====
-- Actions that all run: what they keep together, and their success.
use eks_hybrid.Base.{List, [], ◌∷◌, All, Err, Result, ok, err, IsOk}
use eks_hybrid.Machine.{World, Exec}
use eks_hybrid.Machine.Triple.{Triple, Keeps}
use eks_hybrid.Components.Gather.{push_err, gather, joined, run_all}

module _ (P : World → Type 0) where
  Keeps-gather : (ms : List (Exec Unit)) → All (Keeps P) ms → (w : World) → P w → P (gather ms w).1
  unfolding gather
  Keeps-gather [] k w p = p
  Keeps-gather (m ∷ ms) (k, ks) w p = Keeps-gather ms ks (m w).1 (k.at w p)

module _ {P : World → Type 0} where
  pub Keeps-run_all : (ms : List (Exec Unit)) → All (Keeps P) ms → Keeps P (run_all ms)
  unfolding run_all
  Keeps-run_all ms ks = record { at = λ w p. Keeps-gather P ms ks w p }

first-IsOk : (r : Result Unit) (es : List Err) → IsOk (joined (push_err r es)) → IsOk r
first-IsOk (ok _) es o = tt
first-IsOk (err e) es o = o

rest-IsOk : (r : Result Unit) (es : List Err) → IsOk (joined (push_err r es)) → IsOk (joined es)
rest-IsOk (ok _) es o = o
rest-IsOk (err e) es o = elim o [ ]

module _ {P Q : World → Type 0} where
  -- the first action reaches `Q`, and the others keep it
  pub run_all-first :
      (m : Exec Unit) (ms : List (Exec Unit))
      → Triple P m Q
      → All (Keeps Q) ms
      → Triple P (run_all (m ∷ ms)) Q
  unfolding run_all gather
  run_all-first m ms t ks = record {
    at = λ w p o.
        Keeps-gather Q ms ks (m w).1 (t.at w p (first-IsOk (m w).0 (gather ms (m w).1).0 o));
  }

  -- the first action is passed over
  pub run_all-later :
      (m : Exec Unit) (ms : List (Exec Unit))
      → Keeps P m
      → Triple P (run_all ms) Q
      → Triple P (run_all (m ∷ ms)) Q
  unfolding run_all gather
  run_all-later m ms k t = record {
    at = λ w p o. t.at (m w).1 (k.at w p) (rest-IsOk (m w).0 (gather ms (m w).1).0 o);
  }
