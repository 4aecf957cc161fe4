-- ===== src/Components/UniqueLine.antt =====
-- util.WriteFileUniqueLine, by the lines of the file
use eks_hybrid.Base.{
  ℕ, codes, String, str_eq_refl, ◌≡◌, refl, sym, ap, ◌∙◌, ◌⊎◌, inl, inr, arith, Bool, true, false,
  not, ◌&&◌, ◌==◌, Bool-cases, Option-cases, List, [], ◌∷◌, ◌++◌, All, IsOk, Result, ok,
}
use eks_hybrid.Machine.{
  Bytes, World, Host, write_file, open_append, act, when, or_empty, os_open_append, os_write_file,
  mkdir_all, gets,
}
use eks_hybrid.Machine.Success.{answered}
use eks_hybrid.Machine.Lines.{scan, unlines, IsLine, scan-unlines}
use eks_hybrid.Components.Ssm.{starts_bytes, holds, some_line_holds, write_file_unique_line}
use mathlib.Core.List.{append_assoc}

-- The data stands somewhere in the line.
abbrev pub Contains : Bytes → Bytes → Type 0
Contains d line = (before : Bytes) × (behind : Bytes) × (line ≡ before ++ (d ++ behind))

starts_bytes-append : (d r : Bytes) → starts_bytes d (d ++ r) ≡ true
starts_bytes-append [] r = refl
starts_bytes-append (x ∷ d) r = ground (arith, starts_bytes-append d r)

holds-starts : (d c : Bytes) → starts_bytes d c ≡ true → holds d c ≡ true
unfolding holds
holds-starts d [] e = e
holds-starts d (x ∷ c) e = rw e refl

holds-append : (d f r : Bytes) → holds d (f ++ (d ++ r)) ≡ true
unfolding holds
holds-append d [] r = holds-starts d (d ++ r) (starts_bytes-append d r)
holds-append d (x ∷ f) r = ground (arith, holds-append d f r)

both : (a b : Bool) → (a && b) ≡ true → (a ≡ true) × (b ≡ true)
both true b e = (refl, e)
both false b e = cc

same_byte : (m n : ℕ) → (m == n) ≡ true → n ≡ m
same_byte m n e = ground arith

starts_bytes-rest : (d c : Bytes) → starts_bytes d c ≡ true → (r : Bytes) × (c ≡ d ++ r)
starts_bytes-rest [] c e = (c, refl)
starts_bytes-rest (x ∷ d) [] e = cc
starts_bytes-rest (x ∷ d) (y ∷ c) e =
    let (f, g) = both (x == y) _ e in
    let (r, q) = starts_bytes-rest d c g in (r, rw (same_byte x y f, q) refl)

holds-Contains : (d line : Bytes) → holds d line ≡ true → Contains d line
unfolding holds
holds-Contains d [] e = let (r, q) = starts_bytes-rest d [] e in ([], r, q)
holds-Contains d (c ∷ cs) e = elim (Bool-cases (starts_bytes d (c ∷ cs))) [
  | inl s ↦ let (r, q) = starts_bytes-rest d (c ∷ cs) s in ([], r, q)
  | inr s ↦ let (b, r, q) = holds-Contains d cs (rw s at e) in (c ∷ b, r, ap (λ x. c ∷ x) q)
]

holds-no : (d line : Bytes) → holds d line ≡ false → ¬ Contains d line
holds-no d line e (b, r, q) = let t = holds-append d b r in let u = (rw (← q) at t) in cc

-- one of the lines contains the data
abbrev pub SomeContains : Bytes → List Bytes → Type 0
SomeContains d [] = ⊥
SomeContains d (line ∷ lines) = Contains d line ⊎ SomeContains d lines

some_line_holds-SomeContains :
    (d : Bytes) (lines : List Bytes) → some_line_holds d lines ≡ true → SomeContains d lines
unfolding some_line_holds
some_line_holds-SomeContains d [] e = cc
some_line_holds-SomeContains d (line ∷ lines) e = elim (Bool-cases (holds d line)) [
  | inl s ↦ inl (holds-Contains d line s)
  | inr s ↦ inr (some_line_holds-SomeContains d lines (rw s at e))
]

some_line_holds-no :
    (d : Bytes) (lines : List Bytes) → some_line_holds d lines ≡ false → ¬ SomeContains d lines
unfolding some_line_holds
some_line_holds-no d [] e s = s
some_line_holds-no d (line ∷ lines) e s = elim (Bool-cases (holds d line)) [
  | inl t ↦ let u = (rw t at e) in cc
  | inr t ↦ elim s [
    | inl c ↦ holds-no d line t c
    | inr cs ↦ some_line_holds-no d lines (rw t at e) cs
  ]
]

unlines-last :
    (lines : List Bytes) (d : Bytes)
    → unlines lines ++ (d ++ codes "\n") ≡ unlines (lines ++ (d ∷ []))
unfolding unlines
unlines-last [] d = refl
unlines-last (line ∷ lines) d =
    append_assoc line (10 ∷ unlines lines) (d ++ codes "\n")
    ∙ ap (λ x. line ++ (10 ∷ x)) (unlines-last lines d)

-- what the file holds afterwards: the same lines if one contains the data, or else one line more
abbrev pub OneHolds : Bytes → List Bytes → Bytes → Type 0
OneHolds d lines after =
    (SomeContains d lines × (after ≡ unlines lines))
    ⊎ ((¬ SomeContains d lines) × (after ≡ unlines (lines ++ (d ∷ []))))

ok_injective : {a b : Bytes} → ok a ≡ ok b → a ≡ b
ok_injective e = cc

module _ (h : Host) (p : String) (d : Bytes) where
  os_write_file-content :
      (b : Bytes) (w : World)
      → IsOk (os_write_file h p b w).0
      → or_empty ((os_write_file h p b w).1.files p) ≡ b
  unfolding os_write_file
  os_write_file-content b w o =
      ground (arith, str_eq_refl p, Option-cases (h.act w.trace (write_file p)))

  os_open_append-content :
      (w : World) → or_empty ((os_open_append h p w).1.files p) ≡ or_empty (w.files p)
  unfolding os_open_append
  os_open_append-content w =
      ground (arith, str_eq_refl p, Option-cases (h.act w.trace (open_append p)))

  appended :
      (lines : List Bytes) (file : Bytes) (v : World) (b : Bool)
      → file ≡ unlines lines
      → scan file ≡ lines
      → some_line_holds d (scan file) ≡ b
      → or_empty (v.files p) ≡ unlines lines
      → IsOk (when (not b) (os_write_file h p (file ++ (d ++ codes "\n"))) v).0
      → OneHolds d lines
          (or_empty ((when (not b) (os_write_file h p (file ++ (d ++ codes "\n"))) v).1.files p))
  appended lines file v true same seen e f o =
      inl (some_line_holds-SomeContains d lines (ap (some_line_holds d) (sym seen) ∙ e), f)
  appended lines file v false same seen e f o = inr (
    some_line_holds-no d lines (ap (some_line_holds d) (sym seen) ∙ e),
    os_write_file-content _ v o ∙ ap (λ x. x ++ (d ++ codes "\n")) same ∙ unlines-last lines d,
  )

  -- When the file holds lines, none of which is longer than 65535 bytes or has a carriage return at its
  -- end, or there is no file and no line, and the data is written with success, then the file has the
  -- same lines if one of them contains the data, and otherwise the data and a line break behind them.
  pub write_file_unique_line-OneHolds :
      (lines : List Bytes) (w : World)
      → All IsLine lines
      → or_empty (w.files p) ≡ unlines lines
      → IsOk (write_file_unique_line h p d w).0
      → OneHolds d lines (or_empty ((write_file_unique_line h p d w).1.files p))
  unfolding write_file_unique_line act
  write_file_unique_line-OneHolds lines w a f =
      let P = λ (r : Result Unit × World). OneHolds d lines (or_empty (r.1.files p)) in
      answered _ P (act h (mkdir_all (h.dir p))) w (λ _ _.
        let v = (act h (mkdir_all (h.dir p)) w).1 in
        answered _ P (os_open_append h p) v (λ _ _.
          let u = (os_open_append h p v).1 in
          let g : or_empty (u.files p) ≡ unlines lines = os_open_append-content v ∙ f in
          answered _ P (gets (λ x. or_empty (x.files p))) u (λ file q.
            let same : file ≡ unlines lines = sym (ok_injective q) ∙ g in
            appended lines file u (some_line_holds d (scan file)) same
              (ap scan same ∙ scan-unlines lines a) refl g)))
