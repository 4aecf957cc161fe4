-- ===== src/Config/Valid.antt =====
-- What the validation of internal/node/hybrid/validator.go and the defaults amount to
use eks_hybrid.Base.{
  ℕ, ◌≤◌, ltb, String, str_eq, str_eq_iff, str_eq-false, ◌≡◌, ◌≢◌, ◌↔◌, inl, inr, refl, Bool, true,
  false, not, ◌&&◌, Bool-cases, Option, none, some, List, [], ◌∷◌, arith,
}
use mathlib.Core.Logic.Iff
use eks_hybrid.Rules.Runner.{Failure}
use eks_hybrid.Config.Defs.{
  NodeConfig, HybridOptions, IamRolesAnywhere, Ssm, iam_options, ssm_options, is_some,
}
use eks_hybrid.Config.Patterns.{byte_length, is_activation_code, is_activation_id}
use eks_hybrid.Config.Certificate.{
  CertHost, CertError, HoldsCertificate, validate_certificate, validate_certificate-none,
}
use eks_hybrid.Config.Validate.{
  first_failure, refuse, required, valid_certificate, exists, extract_flag, validate_roles_anywhere,
  validate_activation, check_roles_anywhere, check_activation, hybrid_validator, or_default,
  iam_defaults, with_iam, with_hybrid, populate_node_config_defaults,
}

first_failure-cons :
    {P Q : Type 0} (c : Option Failure) (cs : List (Option Failure))
    → (c ≡ none) ↔ P
    → (first_failure cs ≡ none) ↔ Q
    → (first_failure (c ∷ cs) ≡ none) ↔ (P × Q)
unfolding first_failure
first_failure-cons none cs p q = ((λ n. (p.0 refl, q.0 n)), λ (a, b). q.1 b)
first_failure-cons (some c) cs p q = ((λ n. cc), λ (a, b). p.1 a)

first_failure-last :
    {P : Type 0} (c : Option Failure) → (c ≡ none) ↔ P → (first_failure (c ∷ []) ≡ none) ↔ P
unfolding first_failure
first_failure-last none p = ((λ e. p.0 refl), λ a. refl)
first_failure-last (some c) p = ((λ e. p.0 e), λ a. p.1 a)

refuse-none : (b : Bool) (m : String) → (refuse b m ≡ none) ↔ (b ≡ false)
refuse-none true m = ((λ e. cc), λ e. cc)
refuse-none false m = ((λ e. refl), λ e. refl)

required-none : (s m : String) → (required s m ≡ none) ↔ (s ≢ "")
required-none s m = Iff.trans (refuse-none (str_eq s "") m) (str_eq-false s "")

not-false : (b : Bool) → (not b ≡ false) ↔ (b ≡ true)
not-false true = ((λ e. refl), λ e. refl)
not-false false = ((λ e. cc), λ e. cc)

refuse-not-none : (b : Bool) (m : String) → (refuse (not b) m ≡ none) ↔ (b ≡ true)
refuse-not-none b m = Iff.trans (refuse-none (not b) m) (not-false b)

refuse-ltb-none : (n : ℕ) (m : String) → (refuse (ltb 64 n) m ≡ none) ↔ (n ≤ 64)
refuse-ltb-none n m = ((λ e. ground arith), λ l. ground arith)

valid_certificate-none :
    (path : String) (o : Option CertError) → (valid_certificate path o ≡ none) ↔ (o ≡ none)
valid_certificate-none path none = ((λ e. refl), λ e. refl)
valid_certificate-none path (some e) = ((λ q. cc), λ q. cc)

ruleset parts =
    (first_failure-cons, first_failure-last, required-none, refuse-not-none, refuse-ltb-none)

abbrev pub IsActivation : Ssm → Type 0
IsActivation s =
    (s.activation_code ≢ "")
    × ((s.activation_id ≢ "")
        × ((is_activation_code s.activation_code ≡ true)
            × ((is_activation_id s.activation_id ≡ true))))

module _ (h : CertHost) where
  abbrev pub IsRolesAnywhere : IamRolesAnywhere → Type 0
  IsRolesAnywhere r =
      (r.role_arn ≢ "")
      × ((r.profile_arn ≢ "")
          × ((r.trust_anchor_arn ≢ "")
              × ((r.node_name ≢ "")
                  × ((byte_length r.node_name ≤ 64)
                      × ((r.certificate_path ≢ "")
                          × ((exists h r.certificate_path ≡ true)
                              × (((h.stat r.certificate_path ≡ none)
                                    × HoldsCertificate h r.certificate_path [])
                                  × ((r.private_key_path ≢ "")
                                      × ((exists h r.private_key_path ≡ true))))))))))

  -- Exactly one of the two providers is configured, and is so completely.
  abbrev pub IsProvided : Option IamRolesAnywhere → Option Ssm → Type 0
  IsProvided (some r) none = IsRolesAnywhere r
  IsProvided none (some s) = IsActivation s
  IsProvided _ _ = ⊥

  abbrev pub IsConfigured : NodeConfig → Type 0
  IsConfigured c =
      (c.spec.cluster.name ≢ "")
      × ((c.spec.cluster.region ≢ "")
          × ((extract_flag "" c.spec.kubelet.flags "hostname-override" ≡ "")
              × (IsProvided (iam_options c.spec.hybrid) (ssm_options c.spec.hybrid))))

  valid_path :
      (path : String)
      → (valid_certificate path (validate_certificate h path []) ≡ none)
        ↔ ((h.stat path ≡ none) × HoldsCertificate h path [])
  valid_path path = Iff.trans (valid_certificate-none path _) (validate_certificate-none h path [])

  validate_activation-none : (s : Ssm) → (validate_activation h s ≡ none) ↔ IsActivation s
  unfolding validate_activation
  validate_activation-none s = search parts depth 9

  validate_roles_anywhere-none :
      (r : IamRolesAnywhere) → (validate_roles_anywhere h r ≡ none) ↔ IsRolesAnywhere r
  unfolding validate_roles_anywhere
  validate_roles_anywhere-none r = search (valid_path, parts) depth 15

  providers-none :
      (i : Option IamRolesAnywhere) (s : Option Ssm) (m n : String)
      → (first_failure (
            refuse (not (is_some i) && not (is_some s)) m
            ∷ refuse (is_some i && is_some s) n
            ∷ check_roles_anywhere h i
            ∷ check_activation h s
            ∷ [])
          ≡ none)
        ↔ IsProvided i s
  unfolding first_failure
  providers-none none none m n = ((λ e. cc), λ x. absurd x)
  providers-none none (some s) m n =
      first_failure-last (validate_activation h s) (validate_activation-none s)
  providers-none (some r) none m n =
      first_failure-last (validate_roles_anywhere h r) (validate_roles_anywhere-none r)
  providers-none (some r) (some s) m n = ((λ e. cc), λ x. absurd x)

  no_override-none : (v m : String) → (refuse (not (str_eq v "")) m ≡ none) ↔ (v ≡ "")
  no_override-none v m = Iff.trans (refuse-not-none (str_eq v "") m) (str_eq_iff v "")

  -- The configuration of a hybrid node passes the validation just where it names its cluster and
  -- region, overrides no hostname, and configures exactly one of the two credential providers,
  -- completely: for SSM, an activation in the two formats; for IAM Roles Anywhere, the three ARNs, a
  -- node name of at most 64 bytes, a certificate that can be read and is valid now, and a key.
  pub hybrid_validator-none : (c : NodeConfig) → (hybrid_validator h c ≡ none) ↔ IsConfigured c
  unfolding hybrid_validator
  hybrid_validator-none c =
      search
        (
          no_override-none,
          providers-none (iam_options c.spec.hybrid) (ssm_options c.spec.hybrid) _ _,
          parts,
        )
        depth 9

or_default-nonempty : (s d : String) → d ≢ "" → or_default s d ≢ ""
or_default-nonempty s d n = elim (Bool-cases (str_eq s "")) [
  | inl e ↦ rw e n
  | inr e ↦ rw e ((str_eq-false s "").0 e)
]

or_default-twice : (s d : String) → d ≢ "" → or_default (or_default s d) d ≡ or_default s d
or_default-twice s d n = rw ((str_eq-false _ "").1 (or_default-nonempty s d n)) refl

iam_defaults-twice : (r : IamRolesAnywhere) → iam_defaults (iam_defaults r) ≡ iam_defaults r
iam_defaults-twice r =
    rw
      (
        or_default-twice r.aws_config_path "/etc/aws/hybrid/config" (λ e. cc),
        or_default-twice r.certificate_path "/etc/iam/pki/server.pem" (λ e. cc),
        or_default-twice r.private_key_path "/etc/iam/pki/server.key" (λ e. cc),
      )
      refl

with_iam-twice :
    (o : HybridOptions) (i : Option IamRolesAnywhere) (c : NodeConfig)
    → o.iam_roles_anywhere ≡ i
    → c.spec.hybrid ≡ some o
    → populate_node_config_defaults (with_iam o i c) ≡ with_iam o i c
unfolding populate_node_config_defaults
with_iam-twice o none c e f = rw (f, e) refl
with_iam-twice o (some r) c e f = rw (iam_defaults-twice r) refl

with_hybrid-twice :
    (o : Option HybridOptions) (c : NodeConfig)
    → c.spec.hybrid ≡ o
    → populate_node_config_defaults (with_hybrid o c) ≡ with_hybrid o c
unfolding populate_node_config_defaults
with_hybrid-twice none c e = rw e refl
with_hybrid-twice (some o) c e = with_iam-twice o o.iam_roles_anywhere c refl e

-- Filling in the defaults a second time changes nothing.
pub populate_node_config_defaults-twice :
    (c : NodeConfig)
    → populate_node_config_defaults (populate_node_config_defaults c)
      ≡ populate_node_config_defaults c
unfolding populate_node_config_defaults
populate_node_config_defaults-twice c = with_hybrid-twice c.spec.hybrid c refl
