-- ===== src/System/Online.antt =====
-- internal/system/resources.go: the list of processors that are online, their number and the
-- memory. The files, ParseUint and Glob are parameters.
use eks_hybrid.Base.{
  ℕ, ◌+◌, ◌*◌, ◌%◌, ◌^◌, ◌≤◌, leb, ◌==◌, String, split_at, ◌≡◌, refl, Bool, true, false, ◌&&◌, ◌||◌,
  not, Option, none, some, List, [], ◌∷◌, Err, errorf, not_exist, Result, ok, err, arith,
}
use eks_hybrid.Release.Select.{◌>>=◌, ◌>>◌, require}
use eks_hybrid.System.Cores.{CpuDir, get_cores_info, thread_count}

module _ (parse_uint : String → Result ℕ) where
  -- one part of the list, split at its dashes
  abbrev pub segment : ℕ → List String → Result Bool
  segment id (v ∷ []) = do value ← parse_uint v; ok (value == id)
  segment id (lo ∷ hi ∷ []) = do
    low ← parse_uint lo
    high ← parse_uint hi
    require (leb low high) (errorf "invalid values")
    ok (leb low id && leb id high)
  segment id _ = err (errorf "invalid values")

  abbrev pub stop_at : Result Bool → Result Bool → Result Bool
  stop_at (err e) rest = err e
  stop_at (ok true) rest = ok true
  stop_at (ok false) rest = rest

  unfoldable pub online_in : ℕ → List (List String) → Result Bool
  online_in id [] = ok false
  online_in id (s ∷ ss) = stop_at (segment id s) (online_in id ss)

  unfoldable pub segments : List String → List (List String)
  segments [] = []
  segments (s ∷ ss) = split_at b'-' s ∷ segments ss

  -- isCpuOnline, on the trimmed text of the file; the number of the processor is cut to 16 bits
  unfoldable pub is_cpu_online : String → ℕ → Result Bool
  is_cpu_online text id = online_in (id % 2 ^ 16) (segments (split_at b',' text))

  abbrev pub or_offline : Result Bool → Bool
  or_offline (ok b) = b
  or_offline (err e) = false

  abbrev pub online_of : ℕ → Result String → Bool
  online_of id (ok text) = or_offline (is_cpu_online text id)
  online_of id (err e) = false

  -- IsCPUOnline, from what os.Stat and os.ReadFile say of the file `online`: without it, hotplug is
  -- off and every processor is online.
  abbrev pub is_online : Option Err → Result String → ℕ → Bool
  is_online (some not_exist) file id = true
  is_online _ file id = online_of id file

  -- A part of the list stands for the numbers from `a` to `b`.
  abbrev pub StandsFor : List String → ℕ → ℕ → Type 0
  StandsFor (v ∷ []) a b = (parse_uint v ≡ ok a) × (a ≡ b)
  StandsFor (lo ∷ hi ∷ []) a b = (parse_uint lo ≡ ok a) × (parse_uint hi ≡ ok b) × (a ≤ b)
  StandsFor _ a b = ⊥

  abbrev pub AllStandFor : List (List String) → List (ℕ × ℕ) → Type 0
  AllStandFor [] [] = Unit
  AllStandFor (s ∷ ss) ((a, b) ∷ rs) = StandsFor s a b × AllStandFor ss rs
  AllStandFor _ _ = ⊥

  unfoldable pub in_some : ℕ → List (ℕ × ℕ) → Bool
  in_some id [] = false
  in_some id ((a, b) ∷ rs) = (leb a id && leb id b) || in_some id rs

  stop_at-or : (x y : Bool) → stop_at (ok x) (ok y) ≡ ok (x || y)
  stop_at-or true y = refl
  stop_at-or false y = refl

  segment-StandsFor :
      (id : ℕ) (s : List String) (a b : ℕ)
      → StandsFor s a b
      → segment id s ≡ ok (leb a id && leb id b)
  segment-StandsFor id [] a b p = absurd p
  segment-StandsFor id (v ∷ []) a b (e, f) = rw (e, ← f) (ground arith)
  segment-StandsFor id (lo ∷ hi ∷ []) a b (e, f, l) = rw (e, f) (ground arith)
  segment-StandsFor id (x ∷ y ∷ z ∷ rest) a b p = absurd p

  -- Where each part of the list stands for a range of numbers, a processor is found online just if
  -- its number is in one of the ranges.
  pub online_in-AllStandFor :
      (id : ℕ) (ss : List (List String)) (rs : List (ℕ × ℕ))
      → AllStandFor ss rs
      → online_in id ss ≡ ok (in_some id rs)
  unfolding online_in in_some
  online_in-AllStandFor id [] [] p = refl
  online_in-AllStandFor id [] (r ∷ rs) p = absurd p
  online_in-AllStandFor id (s ∷ ss) [] p = absurd p
  online_in-AllStandFor id (s ∷ ss) ((a, b) ∷ rs) (p, ps) =
      rw (segment-StandsFor id s a b p, online_in-AllStandFor id ss rs ps) (stop_at-or _ _)

-- The processors below the directory of one node; a node without any is only logged.
unfoldable pub node_cores : (ℕ → Bool) → List CpuDir → Result ℕ
node_cores online [] = ok 0
node_cores online (d ∷ ds) = do cores ← get_cores_info online [] (d ∷ ds); ok (thread_count cores)

unfoldable pub all_cores : (ℕ → Bool) → ℕ → List (List CpuDir) → Result ℕ
all_cores online sum [] = ok sum
all_cores online sum (node ∷ nodes) = do
  n ← node_cores online node
  all_cores online (sum + n) nodes

-- GetMilliNumCores, from the directories of the nodes and, if there are none, the number of those of
-- the processors
unfoldable pub milli_cores : (ℕ → Bool) → Result (List (List CpuDir)) → Result ℕ → Result ℕ
milli_cores online (err e) cpus = err e
milli_cores online (ok []) cpus = do
  n ← cpus
  require (not (n == 0)) (errorf "Any CPU is not available")
  ok (n * 1000)
milli_cores online (ok (node ∷ nodes)) cpus = do
  n ← all_cores online 0 (node ∷ nodes)
  ok (n * 1000)

-- parseCapacity, from the match of the regular expression: kilobytes as bytes, in 64 bits
unfoldable pub parse_capacity : (String → Result ℕ) → Option String → Result ℕ
parse_capacity parse_uint none = err (errorf "failed to match regexp in output")
parse_capacity parse_uint (some digits) = do
  kilobytes ← parse_uint digits
  ok ((kilobytes * 1024) % 2 ^ 64)
