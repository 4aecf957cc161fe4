-- ===== src/Rules/Swap.antt =====
-- internal/system/swap.go: the lines of /proc/swaps and /etc/fstab. A line is the bytes of its text,
-- without the line break, as bufio.Scanner gives it; white space is that of one-byte characters.
use eks_hybrid.Base.{
  ℕ, Bool, true, false, ◌&&◌, ◌||◌, ◌==◌, leb, if◌then◌else◌, Option, none, some, List, [], ◌∷◌,
  ◌++◌, codes, errorf, panic, Result, ok, err, wrap_err,
}
use eks_hybrid.Machine.{Bytes}
use eks_hybrid.Artifact.Checksum.{bytes_eq}
use eks_hybrid.Release.Select.{◌>>=◌}

abbrev pub is_space : ℕ → Bool
is_space c = c == 32 || leb 9 c && leb c 13

abbrev pub flush : Bytes → List Bytes → List Bytes
flush [] words = words
flush (c ∷ cs) words = (c ∷ cs) ∷ words

-- strings.Fields, with the word so far
unfoldable pub fields_from : Bytes → Bytes → List Bytes
fields_from word [] = flush word []
fields_from word (c ∷ cs) = elim (is_space c) [
  | true ↦ flush word (fields_from [] cs)
  | false ↦ fields_from (word ++ (c ∷ [])) cs
]

-- strings.TrimSpace, on the left; what it drops on the right is never looked at.
unfoldable pub trim_left : Bytes → Bytes
trim_left [] = []
trim_left (c ∷ cs) = let rest = trim_left cs in if is_space c then rest else c ∷ cs

-- empty lines and comments
abbrev pub is_comment : Bytes → Bool
is_comment [] = true
is_comment (c ∷ cs) = c == 35

pub record Mount : Type 0 where
  pub spec : Bytes
  pub file : Bytes
  pub vfs_type : Bytes

abbrev pub mount_of : List Bytes → Result (Option Mount)
mount_of (a ∷ b ∷ c ∷ rest) = ok (some (record { spec = a; file = b; vfs_type = c }))
mount_of _ = err (errorf "too few fields")

unfoldable pub parse_fstab_line : Bytes → Result (Option Mount)
unfolding fields_from trim_left
parse_fstab_line line =
    let text = trim_left line in if is_comment text then ok none else mount_of (fields_from [] text)

pub record SwapArea : Type 0 where
  pub file_path : Bytes
  pub swap_type : Bytes

abbrev pub swap_of : List Bytes → Result (Option SwapArea)
swap_of (a ∷ b ∷ c ∷ d ∷ e ∷ []) = ok (some (record { file_path = a; swap_type = b }))
swap_of _ = err (errorf "Error in /proc/swaps file, 5 fields are expected")

unfoldable pub parse_proc_swaps_line : Bytes → Result (Option SwapArea)
unfolding fields_from trim_left
parse_proc_swaps_line line =
    let text = trim_left line in if is_comment text then ok none else swap_of (fields_from [] text)

-- the loop of getSwapfilePaths behind the heading; a nil pointer stands for an empty line.
unfoldable pub swap_areas : List Bytes → Result (List (Option SwapArea))
unfolding parse_proc_swaps_line
swap_areas [] = ok []
swap_areas (line ∷ lines) = do
  area ← wrap_err "/proc/swaps file syntax error" (parse_proc_swaps_line line)
  areas ← swap_areas lines
  ok (area ∷ areas)

-- partitionSwapExists, which dereferences each pointer
unfoldable pub partition_swap_exists : List (Option SwapArea) → Result Bool
partition_swap_exists [] = ok false
partition_swap_exists (none ∷ areas) = err (panic "nil swap")
partition_swap_exists (some a ∷ areas) =
    let rest = partition_swap_exists areas in
    if bytes_eq a.swap_type (codes "partition") then ok true else rest

abbrev pub is_swap : Option Mount → Bool
is_swap none = false
is_swap (some m) = bytes_eq m.vfs_type (codes "swap")

-- the lines that disableSwapOnFstab writes back
unfoldable pub kept_lines : List Bytes → Result (List Bytes)
unfolding parse_fstab_line
kept_lines [] = ok []
kept_lines (line ∷ lines) = do
  mount ← wrap_err "/etc/fstab syntax error" (parse_fstab_line line)
  rest ← kept_lines lines
  ok (if is_swap mount then rest else line ∷ rest)
