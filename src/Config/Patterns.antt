-- ===== src/Config/Patterns.antt =====
-- The two patterns of internal/node/hybrid/validator.go, and the length of a Go string in bytes
use eks_hybrid.Base.{
  ℕ, zero, suc, ◌+◌, ltb, leb, ◌==◌, String, codes, length, if◌then◌else◌, Bool, true, false, not,
  ◌&&◌, ◌||◌, Option, none, some, List, [], ◌∷◌,
}

-- The bytes of a character in UTF-8, by its code
abbrev pub utf8_width : ℕ → ℕ
utf8_width c = if ltb c 128 then 1 else if ltb c 2048 then 2 else if ltb c 65536 then 3 else 4

unfoldable pub byte_length_of : List ℕ → ℕ
byte_length_of [] = 0
byte_length_of (c ∷ cs) = utf8_width c + byte_length_of cs

-- len(s)
abbrev pub byte_length : String → ℕ
byte_length s = byte_length_of (codes s)

unfoldable pub has_newline : List ℕ → Bool
has_newline [] = false
has_newline (c ∷ cs) = (c == 10) || has_newline cs

-- ^.{20,250}$
unfoldable pub is_activation_code : String → Bool
is_activation_code s =
    let n = length (codes s) in leb 20 n && (leb n 250 && not (has_newline (codes s)))

-- [0-9a-f]
abbrev pub is_hex : ℕ → Bool
is_hex c = (leb 48 c && leb c 57) || (leb 97 c && leb c 102)

-- [0-9a-f]{n}, as what stands behind it
unfoldable pub skip_hex : ℕ → List ℕ → Option (List ℕ)
skip_hex zero cs = some cs
skip_hex (suc n) [] = none
skip_hex (suc n) (c ∷ cs) = let rest = skip_hex n cs in if is_hex c then rest else none

-- a dash and a group of n digits, for each n
unfoldable pub skip_groups : List ℕ → Option (List ℕ) → Option (List ℕ)
skip_groups groups none = none
skip_groups [] (some cs) = some cs
skip_groups (n ∷ ns) (some []) = none
skip_groups (n ∷ ns) (some (c ∷ cs)) =
    let rest = skip_groups ns (skip_hex n cs) in if c == 45 then rest else none

abbrev pub is_end : Option (List ℕ) → Bool
is_end (some []) = true
is_end _ = false

-- ^[0-9a-f]{8}-[0-9a-f]{4}-[0-9a-f]{4}-[0-9a-f]{4}-[0-9a-f]{12}$
unfoldable pub is_activation_id : String → Bool
is_activation_id s = is_end (skip_groups (4 ∷ 4 ∷ 4 ∷ 12 ∷ []) (skip_hex 8 (codes s)))
