-- ===== src/Base/Texts.antt =====
-- Texts as the numbers of their characters.
use Prim.Native.Nat.{ℕ, suc}
use Prim.Native.Char.{Char, code}
use Prim.Native.String.{String}
use text.Mathlib.Text.{◌==◌ as text_eq, starts_with}
use mathlib.Core.Bool.{Bool, ◌||◌}
use mathlib.Core.List.{List, [], ◌∷◌}
use mathlib.Core.Option.{Option, none, some}
use eks_hybrid.Base.Tests.{◌==◌, if◌then◌else◌}

abbrev pub codes : String → List ℕ
codes String.[] = []
codes (String.◌∷◌ c s) = code c ∷ codes s

-- strings.CutPrefix: what stands behind the prefix, if it is one.
unfoldable pub cut_prefix : String → String → Option String
cut_prefix s String.[] = some s
cut_prefix String.[] (String.◌∷◌ d p) = none
cut_prefix (String.◌∷◌ c s) (String.◌∷◌ d p) =
    let rest = cut_prefix s p in if code c == code d then rest else none

-- strings.ReplaceAll(s, c, ""), for one character by its code
unfoldable pub without_char : ℕ → String → String
without_char v String.[] = String.[]
without_char v (String.◌∷◌ c s) =
    let rest = without_char v s in if code c == v then rest else String.◌∷◌ c rest

-- strings.Count(s, c), for one character by its code
unfoldable pub count_char : ℕ → String → ℕ
count_char v String.[] = 0
count_char v (String.◌∷◌ c s) = let rest = count_char v s in if code c == v then suc rest else rest

-- strings.Contains
unfoldable pub has_infix : String → String → Bool
has_infix String.[] t = starts_with String.[] t
has_infix (String.◌∷◌ c s) t = let rest = has_infix s t in starts_with (String.◌∷◌ c s) t || rest

-- strings.HasSuffix
unfoldable pub has_suffix : String → String → Bool
has_suffix String.[] t = text_eq String.[] t
has_suffix (String.◌∷◌ c s) t = let rest = has_suffix s t in text_eq (String.◌∷◌ c s) t || rest

abbrev extend : Char → List String → List String
extend c [] = String.◌∷◌ c String.[] ∷ []
extend c (part ∷ parts) = String.◌∷◌ c part ∷ parts

-- strings.Split(s, c), for one character by its code
unfoldable pub split_at : ℕ → String → List String
split_at v String.[] = String.[] ∷ []
split_at v (String.◌∷◌ c s) =
    let parts = split_at v s in if code c == v then String.[] ∷ parts else extend c parts

-- strings.TrimSuffix(s, c), for one character by its code
unfoldable pub trim_suffix : ℕ → String → String
trim_suffix v String.[] = String.[]
trim_suffix v (String.◌∷◌ c String.[]) = if code c == v then String.[] else String.◌∷◌ c String.[]
trim_suffix v (String.◌∷◌ c (String.◌∷◌ d s)) = String.◌∷◌ c (trim_suffix v (String.◌∷◌ d s))
