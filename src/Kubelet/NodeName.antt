-- ===== src/Kubelet/NodeName.antt =====
-- internal/kubelet/config.go: the provider id of a hybrid node, and the node's name read back from it
use eks_hybrid.Base.{
  ℕ, ◌==◌, String, ◌<>◌, str_eq, str_eq-false, codes, cut_prefix, if◌then◌else◌, ◌≡◌, ◌≢◌, refl,
  sym, ap, ◌∙◌, Bool, true, false, ◌||◌, Bool-cases, inl, inr, Option, none, some, errorf, wrap,
  panic, Result, ok, err, arith,
}
use Prim.Native.Char.{Char, code}
use text.Mathlib.TextLemmas.{nil-append, cons-append}
use eks_hybrid.Config.Patterns.{has_newline}

unfoldable pub hybrid_provider_id : String → String → String → String
hybrid_provider_id region cluster name =
    "eks-hybrid:///" <> (region <> ("/" <> (cluster <> ("/" <> name))))

unfoldable pub provider_id : String → String → String
provider_id zone instance_id = "aws:///" <> (zone <> ("/" <> instance_id))

-- [^/]+/ as what stands behind it, where a character was seen or not
unfoldable pub skip_segment : Bool → String → Option String
skip_segment seen String.[] = none
skip_segment seen (String.◌∷◌ c s) =
    let rest = skip_segment true s in if code c == 47 then (if seen then some s else none) else rest

abbrev pub then_skip : Option String → Option String
then_skip none = none
then_skip (some s) = skip_segment false s

-- (.+)$
abbrev pub to_the_end : Option String → Option String
to_the_end none = none
to_the_end (some s) = if str_eq s "" || has_newline (codes s) then none else some s

-- nodeNameProviderIdRegexPattern: ^eks-hybrid:///[^/]+/[^/]+/(.+)$
unfoldable pub match_node_name : String → Option String
match_node_name id = to_the_end (then_skip (then_skip (cut_prefix id "eks-hybrid:///")))

abbrev pub name_or_error : Option String → Result String
name_or_error (some name) = ok name
name_or_error none = err (errorf "failed to get node name from provider id")

abbrev pub of_provider_id : Option String → Result String
of_provider_id none = err (panic "nil pointer dereference")
of_provider_id (some id) = name_or_error (match_node_name id)

-- GetNodeName, from the provider id of the configuration on disk
unfoldable pub get_node_name : Result (Option String) → Result String
get_node_name (ok id) = of_provider_id id
get_node_name (err e) = err (wrap "failed to get kubelet configuration from disk" e)

unfoldable pub has_slash : String → Bool
has_slash String.[] = false
has_slash (String.◌∷◌ c s) = (code c == 47) || has_slash s

no_slash_after :
    (c : Char) (a : String)
    → (code c == 47) ≡ false
    → has_slash (String.◌∷◌ c a) ≡ false
    → has_slash a ≡ false
unfolding has_slash
no_slash_after c a q e = sym (rw q refl) ∙ e

is_same : (n : ℕ) → (n == n) ≡ true
is_same n = ground arith

skip_segment-slash : (s : String) → skip_segment true ("/" <> s) ≡ some s
unfolding skip_segment
skip_segment-slash s = rw (cons-append "/" "" s, nil-append s) refl

skip_segment-append :
    (a s : String) → has_slash a ≡ false → skip_segment true (a <> ("/" <> s)) ≡ some s
unfolding skip_segment has_slash
skip_segment-append String.[] s e = rw (nil-append ("/" <> s)) (skip_segment-slash s)
skip_segment-append (String.◌∷◌ c a) s e = elim (Bool-cases (code c == 47)) [
  | inl q ↦ cc
  | inr q ↦ rw (cons-append c a ("/" <> s), q) (skip_segment-append a s (no_slash_after c a q e))
]

segment-skipped :
    (a s : String) → a ≢ "" → has_slash a ≡ false → skip_segment false (a <> ("/" <> s)) ≡ some s
unfolding skip_segment has_slash
segment-skipped String.[] s n e = absurd (n refl)
segment-skipped (String.◌∷◌ c a) s n e = elim (Bool-cases (code c == 47)) [
  | inl q ↦ cc
  | inr q ↦ rw (cons-append c a ("/" <> s), q) (skip_segment-append a s (no_slash_after c a q e))
]

pub cut_prefix-append : (p s : String) → cut_prefix (p <> s) p ≡ some s
unfolding cut_prefix
cut_prefix-append String.[] s = ap some (nil-append s)
cut_prefix-append (String.◌∷◌ c p) s =
    rw (cons-append c p s, is_same (code c)) (cut_prefix-append p s)

-- The provider id that is written for a hybrid node reads back as the node's name, where the region
-- and the cluster's name are not empty and have no slash, and the node's name is not empty and has
-- no line break.
pub get_node_name-hybrid_provider_id :
    (region cluster name : String)
    → region ≢ ""
    → has_slash region ≡ false
    → cluster ≢ ""
    → has_slash cluster ≡ false
    → name ≢ ""
    → has_newline (codes name) ≡ false
    → get_node_name (ok (some (hybrid_provider_id region cluster name))) ≡ ok name
unfolding get_node_name hybrid_provider_id match_node_name
get_node_name-hybrid_provider_id region cluster name r1 r2 c1 c2 n1 n2 =
    rw
      (
        cut_prefix-append "eks-hybrid:///" (region <> ("/" <> (cluster <> ("/" <> name)))),
        segment-skipped region (cluster <> ("/" <> name)) r1 r2,
        segment-skipped cluster name c1 c2,
        (str_eq-false name "").1 n1,
        n2,
      )
      refl
