-- ===== src/Rules/Reserved.antt =====
-- internal/kubelet/config.go: what is reserved for kubelet on a hybrid node.
use eks_hybrid.Base.{
  ℕ, ◌+◌, ◌-◌, ◌*◌, ◌/◌, ◌≤◌, ◌≡◌, ◌⊎◌, inl, inr, refl, ap, ◌∙◌, List, [], ◌∷◌, Bool-cases, ltb,
  leb, if◌then◌else◌, arith, ℤ, pos, sub_ℕ, ◌+ℤ◌, scale, quot,
}

-- An amount with its unit: mebibytes or gibibytes.
pub data Amount : Type 0 where
  mi gi : ℕ → Amount

-- int(math.Round(x)), for a number of so many hundredths
abbrev pub round_hundredths : ℕ → ℕ
round_hundredths x = (x + 50) / 100

-- the switch of withHybridReservedResources on the memory in GiB, with the factors in hundredths
unfoldable pub reserved_gib : ℕ → Amount
reserved_gib total =
    if ltb total 1
    then mi 255
    else if ltb total 4
    then gi (round_hundredths (total * 25))
    else if ltb total 8
    then gi (round_hundredths (25 * 4 + (total - 4) * 20))
    else if ltb total 16
    then gi (round_hundredths (25 * 4 + 20 * 4 + (total - 8) * 10))
    else if leb total 128
    then gi (round_hundredths (25 * 4 + 20 * 4 + 10 * 8 + (total - 16) * 6))
    else gi (round_hundredths (25 * 4 + 20 * 4 + 10 * 8 + 6 * 112 + (total - 128) * 2))

-- the memory that withHybridReservedResources reserves, from the machine's memory in bytes
abbrev pub reserved_memory : ℕ → Amount
reserved_memory bytes = reserved_gib (bytes / 1073741824)

-- getResourceToReserveInRange
unfoldable pub reserved_in_range : ℕ → ℕ → ℕ → ℕ → ℤ
reserved_in_range total first last percentage =
    if leb total first
    then pos 0
    else quot (scale (sub_ℕ (if ltb last total then last else total) first) percentage) 10000

-- the loop over the ranges, from a range's start and the ranges' ends with their percentages
unfoldable pub reserved_over : ℕ → ℕ → List (ℕ × ℕ) → ℤ
reserved_over total first [] = pos 0
reserved_over total first ((last, percentage) ∷ rest) =
    reserved_in_range total first last percentage +ℤ reserved_over total last rest

-- getCPUMillicoresToReserve, from the number that GetMilliNumCores gives
unfoldable pub reserved_cpu : ℕ → ℤ
reserved_cpu total =
    reserved_over total 0 ((1000, 600) ∷ (2000, 100) ∷ (4000, 50) ∷ (total, 25) ∷ [])

-- how much of `total` lies between two bounds
abbrev pub between : ℕ → ℕ → ℕ → ℕ
between low high total = (if ltb total high then total else high) - low

-- The table of the source's comment, in hundredths: a quarter of the first 4 GiB, a fifth of the next
-- 4, a tenth of the next 8, 6% of the next 112 and 2% of the rest.
abbrev pub table : ℕ → ℕ
table total =
    between 0 4 total * 25
    + between 4 8 total * 20
    + between 8 16 total * 10
    + between 16 128 total * 6
    + (total - 128) * 2

-- The first row of the table, and the sum of the others in whole GiB
abbrev pub table_memory : ℕ → Amount
table_memory total = if ltb total 1 then mi 255 else gi (round_hundredths (table total))

reserved_gib-table_memory : (total : ℕ) → reserved_gib total ≡ table_memory total
unfolding reserved_gib
reserved_gib-table_memory total = ground arith

-- The memory reserved is 255 MiB below 1 GiB; from there on it is the sum over the table's ranges, for
-- the memory in whole GiB, rounded to whole GiB.
pub reserved_memory-table_memory :
    (bytes : ℕ) → reserved_memory bytes ≡ table_memory (bytes / 1073741824)
reserved_memory-table_memory bytes = reserved_gib-table_memory (bytes / 1073741824)

-- 6% of the first core, 1% of the second, half a percent of the next two and a quarter of a percent of
-- the rest, each in whole thousandths of a core
abbrev pub table_cpu : ℕ → ℕ
table_cpu total =
    between 0 1000 total * 600 / 10000
    + (between 1000 2000 total * 100 / 10000
        + (between 2000 4000 total * 50 / 10000 + (total - 4000) * 25 / 10000))

reserved_in_range-between :
    (total first last percentage : ℕ)
    → (total ≤ first) ⊎ (first ≤ last)
    → reserved_in_range total first last percentage
      ≡ pos (between first last total * percentage / 10000)
unfolding reserved_in_range scale quot
reserved_in_range-between total first last percentage o = elim (Bool-cases (leb total first)) [
  | inl e ↦
      let z : between first last total ≡ 0 = ground (arith, e) in
      let n : 0 * percentage / 10000 ≡ 0 = omega arith in rw (e, z, n) refl
  | inr e ↦
      let s : sub_ℕ (if ltb last total then last else total) first
          ≡ pos (between first last total) =
        ground (arith, e, o) in
      rw (e, s) refl
]

above_4000 : (total : ℕ) → between 4000 total total ≡ total - 4000
above_4000 total = ground arith

-- The processors reserved are, in thousandths, the sum over the ranges of what is reserved of the part
-- of the total in the range.
pub reserved_cpu-table_cpu : (total : ℕ) → reserved_cpu total ≡ pos (table_cpu total)
unfolding reserved_cpu reserved_over ◌+ℤ◌
reserved_cpu-table_cpu total =
    rw
      (
        reserved_in_range-between total 0 1000 600 (inr (omega arith)),
        reserved_in_range-between total 1000 2000 100 (inr (omega arith)),
        reserved_in_range-between total 2000 4000 50 (inr (omega arith)),
        reserved_in_range-between total 4000 total 25 (elim (Bool-cases (leb total 4000)) [
          | inl e ↦ inl (ground (arith, e))
          | inr e ↦ inr (ground (arith, e))
        ]),
        above_4000 total,
      )
      (ap pos (omega arith))

abbrev pub in_mib : Amount → ℕ
in_mib (mi n) = n
in_mib (gi n) = n * 1024

between_mono : (low high a b : ℕ) → a ≤ b → between low high a ≤ between low high b
between_mono low high a b l = ground (arith, l)

table_mono : (a b : ℕ) → a ≤ b → table a ≤ table b
table_mono a b l = omega (
  arith,
  l,
  between_mono 0 4 a b l,
  between_mono 4 8 a b l,
  between_mono 8 16 a b l,
  between_mono 16 128 a b l,
)

above_1 : (total : ℕ) → 1 ≤ total → reserved_gib total ≡ gi (round_hundredths (table total))
above_1 total l = reserved_gib-table_memory total ∙ ground (arith, l)

reserved_gib_mono : (a b : ℕ) → 1 ≤ a → a ≤ b → in_mib (reserved_gib a) ≤ in_mib (reserved_gib b)
reserved_gib_mono a b g l =
    rw (above_1 a g, above_1 b (omega (arith, g, l))) (omega (arith, table_mono a b l))

-- From 1 GiB on, a machine with more memory never reserves less of it.
pub reserved_memory_mono :
    (a b : ℕ) → 1073741824 ≤ a → a ≤ b → in_mib (reserved_memory a) ≤ in_mib (reserved_memory b)
reserved_memory_mono a b g l =
    reserved_gib_mono (a / 1073741824) (b / 1073741824) (omega (arith, g)) (omega (arith, l))
