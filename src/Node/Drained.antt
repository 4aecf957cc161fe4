-- ===== src/Node/Drained.antt =====
-- internal/node/pods.go and isDrained of internal/node/validations.go. The static manifests are
-- what the directory and the files hold, decoded.
use eks_hybrid.Base.{
  String, str_eq, contains, if◌then◌else◌, ◌≡◌, ◌↔◌, ◌⊎◌, inl, inr, refl, sym, ap, ◌∙◌, Bool, true,
  false, ◌||◌, Bool-cases, Option, none, some, List, [], ◌∷◌, All, not_exist, Result, ok, err,
  wrap_err,
}
use mathlib.Core.Logic.Iff
use eks_hybrid.Release.Select.{◌>>=◌}

pub record Pod : Type 0 where
  pub name : String
  -- the kind of the owner that metav1.GetControllerOf finds
  pub controller : Option String

abbrev pub is_daemon_set : Option String → Bool
is_daemon_set none = false
is_daemon_set (some kind) = str_eq kind "DaemonSet"

-- the elements that fail a test
unfoldable pub reject : (Pod → Bool) → List Pod → List Pod
reject p [] = []
reject p (pod ∷ pods) = let rest = reject p pods in if p pod then rest else pod ∷ rest

abbrev pub daemon_set_filter : List Pod → Result (List Pod)
daemon_set_filter pods = ok (reject (λ pod. is_daemon_set pod.controller) pods)

-- A file of the directory of static manifests: its extension, and the name that decoding it as an
-- ObjectMeta gives, or the error of reading or decoding it.
pub record Manifest : Type 0 where
  pub extension : String
  pub pod_name : Result String

unfoldable pub names_in : List Manifest → Result (List String)
names_in [] = ok []
names_in (f ∷ fs) =
    if str_eq f.extension ".yaml" || str_eq f.extension ".yml"
    then (do name ← f.pod_name; names ← names_in fs; ok (name ∷ names))
    else names_in fs

-- A directory that does not exist holds no static pod.
unfoldable pub get_static_pods : Result (List Manifest) → Result (List String)
get_static_pods (ok files) = names_in files
get_static_pods (err not_exist) = ok []
get_static_pods (err e) = wrap_err "failed to read static manifest directory" (err e)

abbrev pub without : List String → List Pod → List Pod
without [] pods = pods
without (s ∷ ss) pods = reject (λ pod. contains (s ∷ ss) pod.name) pods

abbrev pub static_pods_filter : Result (List Manifest) → List Pod → Result (List Pod)
static_pods_filter dir pods = do names ← get_static_pods dir; ok (without names pods)

abbrev pub is_empty : List Pod → Bool
is_empty [] = true
is_empty (p ∷ ps) = false

-- isDrained, with the two filters in their order
unfoldable pub is_drained : Result (List Manifest) → List Pod → Result Bool
is_drained dir pods = do
  movable ← wrap_err "running filter on pods" (daemon_set_filter pods)
  left ← wrap_err "running filter on pods" (static_pods_filter dir movable)
  ok (is_empty left)

ok_injective : {a b : Bool} → ok a ≡ ok b → a ≡ b
ok_injective e = cc

reject-never : (pods : List Pod) → reject (λ pod. false) pods ≡ pods
unfolding reject
reject-never [] = refl
reject-never (p ∷ ps) = ap (λ r. p ∷ r) (reject-never ps)

without-reject :
    (names : List String) (pods : List Pod)
    → without names pods ≡ reject (λ pod. contains names pod.name) pods
unfolding contains
without-reject [] pods = sym (reject-never pods)
without-reject (s ∷ ss) pods = refl

reject_twice-empty :
    (p q : Pod → Bool) (pods : List Pod)
    → (is_empty (reject q (reject p pods)) ≡ true)
      ↔ All (λ pod. (p pod ≡ true) ⊎ (q pod ≡ true)) pods
unfolding reject
reject_twice-empty p q [] = ((λ e. tt), λ a. refl)
reject_twice-empty p q (x ∷ xs) = elim (Bool-cases (p x)) [
  | inl e ↦ rw e (
    (λ n. (inl refl, (reject_twice-empty p q xs).0 n)),
    λ (c, a). (reject_twice-empty p q xs).1 a,
  )
  | inr e ↦ elim (Bool-cases (q x)) [
    | inl f ↦
        rw (e, f)
          (
            (λ n. (inr refl, (reject_twice-empty p q xs).0 n)),
            λ (c, a). (reject_twice-empty p q xs).1 a,
          )
    | inr f ↦ rw (e, f) ((λ n. cc), λ (c, a). elim c [ inl y ↦ cc | inr y ↦ cc ])
  ]
]

abbrev pub MayStay : List String → Pod → Type 0
MayStay names pod = (is_daemon_set pod.controller ≡ true) ⊎ (contains names pod.name ≡ true)

-- Where the names in the static manifests can be read, a node counts as drained just if each of its
-- pods is controlled by a daemon set or has one of these names.
pub is_drained-true :
    (dir : Result (List Manifest)) (names : List String) (pods : List Pod)
    → get_static_pods dir ≡ ok names
    → (is_drained dir pods ≡ ok true) ↔ All (MayStay names) pods
unfolding is_drained
is_drained-true dir names pods e =
    let same : is_drained dir pods
        ≡ ok (
            is_empty (
              reject (λ pod. contains names pod.name)
                (reject (λ pod. is_daemon_set pod.controller) pods))) =
      rw (e, without-reject names) refl in
    Iff.trans ((λ d. ok_injective (sym same ∙ d)), λ n. same ∙ ap ok n)
      (reject_twice-empty _ _ pods)
