-- ===== src/Rules/Runner.antt =====
-- internal/validation/runner.go and error.go. A validation gets a copy of the object, which it may
-- modify; reports to the informer are left out.
use eks_hybrid.Base.{
  String, contains, ◌≡◌, ◌↔◌, refl, sym, subst, ◌∙◌, Bool, true, false, if◌then◌else◌, Option, none,
  some, List, [], ◌∷◌, ◌++◌, All,
}

mutual
  -- An error: of any kind, a warning, a remediable error, or what errors.Join made of several.
  pub data Failure : Type 0 where
    plain : String → Failure
    warning : Failure → String → Failure
    remediable : Failure → String → Failure
    joined : Failures → Failure

  pub data Failures : Type 0 where
    end : Failures
    also : Failure → Failures → Failures

abbrev pub listed : Failures → List Failure
listed end = []
listed (also e es) = e ∷ listed es

-- Unwrap
abbrev pub unwrap : Failure → List Failure
unwrap (joined es) = listed es
unwrap e = e ∷ []

abbrev pub is_warning : Failure → Bool
is_warning (warning e r) = true
is_warning _ = false

unfoldable pub errors_among : List Failure → List Failure
errors_among [] = []
errors_among (e ∷ es) = if is_warning e then errors_among es else e ∷ errors_among es

-- what one validation adds to the errors
abbrev pub errors_of : Option Failure → List Failure
unfolding errors_among
errors_of none = []
errors_of (some e) = errors_among (unwrap e)

pub data Outcome : Type 0 where
  passed : Outcome
  failed : List Failure → Outcome
  panicked : Outcome

pub record Validation (O : Type 0) : Type 0 where
  pub name : String
  -- the error, and the object as the validation leaves it
  pub validate : O → Option Failure × O

abbrev pub outcome : List Failure → Outcome
outcome [] = passed
outcome (e ∷ es) = failed (e ∷ es)

abbrev pub first_error : Option Failure → Option Failure → Option Failure
first_error none later = later
first_error (some e) later = some e

append-nil : (es fs : List Failure) → es ++ fs ≡ [] → es ≡ [] × fs ≡ []
append-nil [] fs e = (refl, e)
append-nil (x ∷ es) fs e = cc

nil-append : (es fs : List Failure) → es ≡ [] → fs ≡ [] → es ++ fs ≡ []
nil-append es fs p q = rw (p, q) refl

outcome-passed : (es : List Failure) → (outcome es ≡ passed) ↔ (es ≡ [])
outcome-passed [] = ((λ e. refl), λ e. refl)
outcome-passed (x ∷ es) = ((λ e. cc), λ e. cc)

-- the constructor of warnings
abbrev pub IsWarning : Failure → Type 0
IsWarning (warning e r) = Unit
IsWarning (plain m) = ⊥
IsWarning (remediable e r) = ⊥
IsWarning (joined es) = ⊥

abbrev pub AllWarnings : Failures → Type 0
AllWarnings end = Unit
AllWarnings (also e es) = IsWarning e × AllWarnings es

-- no error, a warning, or warnings that errors.Join made one error
abbrev pub IsTolerated : Option Failure → Type 0
IsTolerated none = Unit
IsTolerated (some (plain m)) = ⊥
IsTolerated (some (warning e r)) = Unit
IsTolerated (some (remediable e r)) = ⊥
IsTolerated (some (joined es)) = AllWarnings es

listed-AllWarnings : (es : Failures) → (errors_among (listed es) ≡ []) ↔ AllWarnings es
unfolding errors_among
listed-AllWarnings end = ((λ e. tt), λ w. refl)
listed-AllWarnings (also (plain m) es) = ((λ e. cc), λ (w, ws). absurd w)
listed-AllWarnings (also (warning f r) es) =
    ((λ e. (tt, (listed-AllWarnings es).0 e)), λ (w, ws). (listed-AllWarnings es).1 ws)
listed-AllWarnings (also (remediable f r) es) = ((λ e. cc), λ (w, ws). absurd w)
listed-AllWarnings (also (joined fs) es) = ((λ e. cc), λ (w, ws). absurd w)

errors_of-IsTolerated : (o : Option Failure) → (errors_of o ≡ []) ↔ IsTolerated o
unfolding errors_of errors_among
errors_of-IsTolerated none = ((λ e. tt), λ w. refl)
errors_of-IsTolerated (some (plain m)) = ((λ e. cc), λ w. absurd w)
errors_of-IsTolerated (some (warning e r)) = ((λ e. tt), λ w. refl)
errors_of-IsTolerated (some (remediable e r)) = ((λ e. cc), λ w. absurd w)
errors_of-IsTolerated (some (joined es)) = listed-AllWarnings es

module _ {O : Type 0} where
  -- Register, with the names to skip
  unfoldable pub register :
      List String → List (Validation O) → List (Validation O) → List (Validation O)
  unfolding contains
  register skip registered [] = registered
  register skip registered (v ∷ vs) =
      register skip (if contains skip v.name then registered else registered ++ (v ∷ [])) vs

  unfoldable pub collect : List (Validation O) → O → List Failure × O
  unfolding errors_among
  collect [] o = ([], o)
  collect (v ∷ vs) o =
      let (e, o') = v.validate o in let (es, o'') = collect vs o' in (errors_of e ++ es, o'')

  unfoldable pub sequentially : (O → O → Bool) → List (Validation O) → O → Outcome
  unfolding collect
  sequentially deep_equal vs o =
      let (es, o') = collect vs o in if deep_equal o o' then outcome es else panicked

  -- The first error of some validations, run in turn until one fails.
  unfoldable pub until_error : List (Validation O) → O → Option Failure
  until_error [] o = none
  until_error (v ∷ vs) o = let (e, o') = v.validate o in first_error e (until_error vs o')

  -- The validation reports nothing, a warning, or several warnings joined.
  abbrev pub OnlyWarns : O → Validation O → Type 0
  OnlyWarns o v = IsTolerated (v.validate o).0

  module _ (o : O) where
    collect-unmodified :
        (vs : List (Validation O)) → All (λ v. (v.validate o).1 ≡ o) vs → (collect vs o).1 ≡ o
    unfolding collect
    collect-unmodified [] a = refl
    collect-unmodified (v ∷ vs) (e, a) = rw e (collect-unmodified vs a)

    collect-nil :
        (vs : List (Validation O))
        → All (λ v. (v.validate o).1 ≡ o) vs
        → ((collect vs o).0 ≡ []) ↔ All (OnlyWarns o) vs
    unfolding collect
    collect-nil [] a = ((λ e. tt), λ w. refl)
    collect-nil (v ∷ vs) (e, a) = (
      (λ n.
          let (p, q) = append-nil (errors_of (v.validate o).0) _ n in
          (
            (errors_of-IsTolerated _).0 p,
            (collect-nil vs a).0 (subst (λ x. (collect vs x).0 ≡ []) e q),
          )),
      λ (w, ws).
          nil-append (errors_of (v.validate o).0) _ ((errors_of-IsTolerated _).1 w)
            (subst (λ x. (collect vs x).0 ≡ []) (sym e) ((collect-nil vs a).1 ws)),
    )

    -- When no validation modifies the object, and the object equals itself, the runner passes just
    -- where each validation reports nothing, a warning, or warnings that were joined.
    pub sequentially-passed :
        (deep_equal : O → O → Bool) (vs : List (Validation O))
        → All (λ v. (v.validate o).1 ≡ o) vs
        → deep_equal o o ≡ true
        → (sequentially deep_equal vs o ≡ passed) ↔ All (OnlyWarns o) vs
    unfolding sequentially
    sequentially-passed deep_equal vs a d =
        let same : sequentially deep_equal vs o ≡ outcome (collect vs o).0 =
          rw (collect-unmodified vs a, d) refl in
        (
          (λ e. (collect-nil vs a).0 ((outcome-passed _).0 (sym same ∙ e))),
          λ w. same ∙ (outcome-passed _).1 ((collect-nil vs a).1 w),
        )
