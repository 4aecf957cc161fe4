-- ===== src/Rules/SwapOff.antt =====
-- Which lines of /etc/fstab are written back
use eks_hybrid.Base.{
  codes, ◌≡◌, ◌≢◌, ◌⊎◌, inl, inr, refl, arith, subst, true, false, Bool-cases, Option, List, [],
  ◌∷◌, ok, wrap_err,
}
use eks_hybrid.Machine.{Bytes}
use eks_hybrid.Machine.Triple.{wrap_err-eq-ok}
use eks_hybrid.Artifact.Checksum.{bytes_eq}
use eks_hybrid.Artifact.Verified.{bytes_eq→eq}
use eks_hybrid.Release.Chosen.{>>=-ok}
use eks_hybrid.Rules.Swap.{
  Mount, fields_from, trim_left, is_comment, mount_of, parse_fstab_line, is_swap, kept_lines,
}

abbrev pub swap_type : Bytes
swap_type = codes "swap"

-- The line is blank, or its first byte that is no space is a number sign.
abbrev pub IsComment : Bytes → Type 0
IsComment [] = Unit
IsComment (c ∷ cs) = c ≡ 35

is_comment-IsComment : (b : Bytes) → is_comment b ≡ true → IsComment b
is_comment-IsComment [] e = tt
is_comment-IsComment (c ∷ cs) e = ground (arith, e)

is_comment-no : (b : Bytes) → is_comment b ≡ false → ¬ IsComment b
is_comment-no [] e = cc
is_comment-no (c ∷ cs) e = λ q. ground (arith, e, q)

-- The line is no comment, and the third of its fields is `swap`.
abbrev pub MountsSwap : Bytes → Type 0
MountsSwap line =
    (a : Bytes) × (b : Bytes) × (rest : List Bytes) × (¬ IsComment (trim_left line))
    × (fields_from [] (trim_left line) ≡ a ∷ b ∷ swap_type ∷ rest)

-- The line is blank or a comment, or the third of its fields is another.
abbrev pub MountsNone : Bytes → Type 0
MountsNone line =
    IsComment (trim_left line)
    ⊎ ((a : Bytes) × (b : Bytes) × (c : Bytes) × (rest : List Bytes) × (fields_from []
            (trim_left line)
          ≡ a ∷ b ∷ c ∷ rest)
        × (c ≢ swap_type))

-- The lines that mount swap are left out, and all others are kept, in their order.
pub data WithoutSwap : List Bytes → List Bytes → Type 0 where
  no_line : WithoutSwap [] []
  kept :
      {lines out : List Bytes} (line : Bytes)
      → MountsNone line
      → WithoutSwap lines out
      → WithoutSwap (line ∷ lines) (line ∷ out)
  dropped :
      {lines out : List Bytes} (line : Bytes)
      → MountsSwap line
      → WithoutSwap lines out
      → WithoutSwap (line ∷ lines) out

injective : {A : Type 0} {x y : A} → ok x ≡ ok y → x ≡ y
injective e = cc

bytes_eq_refl : (b : Bytes) → bytes_eq b b ≡ true
unfolding bytes_eq
bytes_eq_refl [] = refl
bytes_eq_refl (x ∷ b) = ground (arith, bytes_eq_refl b)

-- what a line is by the mount that was parsed
abbrev Parsed : Bytes → Option Mount → Type 0
Parsed line m = (is_swap m ≡ true × MountsSwap line) ⊎ (is_swap m ≡ false × MountsNone line)

bytes_eq-ne : (a b : Bytes) → bytes_eq a b ≡ false → a ≢ b
bytes_eq-ne a b e q = let s = bytes_eq_refl b in let t = (rw q at e) in cc

of_fields :
    (line : Bytes) (fields : List Bytes) (m : Option Mount)
    → is_comment (trim_left line) ≡ false
    → fields_from [] (trim_left line) ≡ fields
    → mount_of fields ≡ ok m
    → Parsed line m
of_fields line [] m n f e = cc
of_fields line (a ∷ []) m n f e = cc
of_fields line (a ∷ b ∷ []) m n f e = cc
of_fields line (a ∷ b ∷ c ∷ rest) m n f e =
    subst (Parsed line) (injective e) (elim (Bool-cases (bytes_eq c swap_type)) [
      | inl s ↦ inl (
        s,
        (
          a,
          b,
          rest,
          is_comment-no _ n,
          subst (λ x. fields_from [] (trim_left line) ≡ a ∷ b ∷ x ∷ rest)
              (bytes_eq→eq c swap_type s) f,
        ),
      )
      | inr s ↦ inr (s, inr (a, b, c, rest, f, bytes_eq-ne c swap_type s))
    ])

parse_fstab_line-Parsed :
    (line : Bytes) (m : Option Mount) → parse_fstab_line line ≡ ok m → Parsed line m
unfolding parse_fstab_line
parse_fstab_line-Parsed line m e = elim (Bool-cases (is_comment (trim_left line))) [
  | inl c ↦ subst (Parsed line) (injective (rw c at e)) (inr (refl, inl (is_comment-IsComment _ c)))
  | inr c ↦ of_fields line _ m c refl (rw c at e)
]

-- When the lines parse, those that mount swap are left out of what is written back.
pub kept_lines-WithoutSwap :
    (lines out : List Bytes) → kept_lines lines ≡ ok out → WithoutSwap lines out
unfolding kept_lines
kept_lines-WithoutSwap [] out e = subst (WithoutSwap []) (injective e) no_line
kept_lines-WithoutSwap (line ∷ lines) out e =
    let (m, (p, e1)) = >>=-ok (wrap_err _ (parse_fstab_line line)) _ e in
    let (rest, (q, e2)) = >>=-ok (kept_lines lines) _ e1 in
    let w = kept_lines-WithoutSwap lines rest q in
    elim (parse_fstab_line-Parsed line m (wrap_err-eq-ok _ _ p)) [
      | inl (s, y) ↦ subst (WithoutSwap (line ∷ lines)) (injective (rw s at e2)) (dropped line y w)
      | inr (s, n) ↦ subst (WithoutSwap (line ∷ lines)) (injective (rw s at e2)) (kept line n w)
    ]
