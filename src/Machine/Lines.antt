-- ===== src/Machine/Lines.antt =====
-- bufio.Scanner over the bytes of a file, which gives lines. It holds at most 65536 bytes: a line that
-- does not end within them stops it, with an error that is only told by its Err.
use eks_hybrid.Base.{
  ℕ, ◌-◌, ◌≤◌, ◌==◌, if◌then◌else◌, ◌≡◌, refl, ap, ◌∙◌, arith, Bool, true, false, ◌||◌, List, [],
  ◌∷◌, ◌++◌, length, All,
}
use mathlib.Core.List.{append_assoc, append-nil}
use eks_hybrid.Machine.Defs.{Bytes}

-- a line without the carriage return at its end
unfoldable pub drop_return : Bytes → Bytes
drop_return [] = []
drop_return (c ∷ []) = if c == 13 then [] else c ∷ []
drop_return (c ∷ d ∷ cs) = c ∷ drop_return (d ∷ cs)

abbrev pub last_line : Bytes → List Bytes
last_line [] = []
last_line (c ∷ cs) = drop_return (c ∷ cs) ∷ []

-- how many bytes a line may have in front of its line break
abbrev pub line_limit : ℕ
line_limit = 65535

-- one more byte: whether it is a line break, and whether the line has no room for it
abbrev pub on_byte : Bool → Bool → (ℕ → Bytes → List Bytes) → ℕ → Bytes → ℕ → List Bytes
on_byte true full more left line c = drop_return line ∷ more line_limit []
on_byte false true more left line c = []
on_byte false false more left line c = more (left - 1) (line ++ (c ∷ []))

-- the lines, with how many bytes the present line may still have, and the line so far
unfoldable pub scan_from : ℕ → Bytes → Bytes → List Bytes
scan_from left line [] = last_line line
scan_from left line (c ∷ cs) = on_byte (c == 10) (left == 0) (λ l b. scan_from l b cs) left line c

abbrev pub scan : Bytes → List Bytes
scan b = scan_from line_limit [] b

unfoldable pub unlines : List Bytes → Bytes
unlines [] = []
unlines (line ∷ lines) = line ++ (10 ∷ unlines lines)

unfoldable pub has_break : Bytes → Bool
has_break [] = false
has_break (c ∷ cs) = (c == 10) || has_break cs

-- Bytes without a line break or a carriage return at the end, which the scanner can hold
abbrev pub IsLine : Bytes → Type 0
IsLine line = (has_break line ≡ false) × (drop_return line ≡ line) × (length line ≤ 65535)

or_false : (a b : Bool) → (a || b) ≡ false → (a ≡ false) × (b ≡ false)
or_false true b e = cc
or_false false b e = (refl, e)

scan_from-line :
    (line : Bytes) (left : ℕ) (before rest : Bytes)
    → has_break line ≡ false
    → length line ≤ left
    → scan_from left before (line ++ (10 ∷ rest)) ≡ drop_return (before ++ line) ∷ scan rest
unfolding scan_from has_break
scan_from-line [] left before rest a l = rw (append-nil before) refl
scan_from-line (c ∷ cs) left before rest e l =
    let (n, a) = or_false (c == 10) (has_break cs) e in
    let some_left : (left == 0) ≡ false = ground (arith, l) in
    rw (n, some_left)
      (scan_from-line cs (left - 1) (before ++ (c ∷ [])) rest a (omega (arith, l))
        ∙ ap (λ x. drop_return x ∷ scan rest) (append_assoc before (c ∷ []) cs))

-- Lines that were written are scanned as they were.
pub scan-unlines : (lines : List Bytes) → All IsLine lines → scan (unlines lines) ≡ lines
unfolding scan_from unlines
scan-unlines [] a = refl
scan-unlines (line ∷ lines) ((n, d, l), a) =
    scan_from-line line line_limit [] (unlines lines) n l ∙ rw (d, scan-unlines lines a) refl
