-- ===== src/System/Cores.antt =====
-- internal/system/resources.go: the processors that are online. Reading the files of /sys and
-- their numbers are parameters.
use eks_hybrid.Base.{
  ℤ, int_eq, ℕ, suc, ◌+◌, if◌then◌else◌, ◌≡◌, inl, inr, Bool-cases, length-append, Bool, false,
  ◌&&◌, Option, none, some, List, [], ◌∷◌, ◌++◌, length, Err, errorf, not_exist, Result, ok, err,
  arith,
}
use eks_hybrid.Release.Select.{◌>>=◌}
use eks_hybrid.Release.Chosen.{>>=-ok}

pub record Core : Type 0 where
  pub id : ℤ
  pub threads : List ℕ
  pub socket_id : ℤ

-- What is found in the directory of one processor: its number, and the numbers in the files core_id
-- and physical_package_id
pub record CpuDir : Type 0 where
  pub cpu_id : Result ℕ
  pub core_id : Result ℤ
  pub package_id : Result ℤ

abbrev pub is_core : ℤ → ℤ → Core → Bool
is_core physical socket c = int_eq c.id physical && int_eq c.socket_id socket

-- The thread goes to the last core with these numbers, or else to a new one.
abbrev pub new_core : ℤ → ℤ → ℕ → Core
new_core physical socket thread = record {
  id = physical;
  threads = thread ∷ [];
  socket_id = socket;
}

abbrev pub add_here : ℤ → ℤ → ℕ → Core → List Core → Option (List Core) → Option (List Core)
add_here physical socket thread c cs (some more) = some (c ∷ more)
add_here physical socket thread c cs none =
    if is_core physical socket c
    then some (record c { threads = c.threads ++ (thread ∷ []) } ∷ cs)
    else none

unfoldable pub add_to_last : ℤ → ℤ → ℕ → List Core → Option (List Core)
add_to_last physical socket thread [] = none
add_to_last physical socket thread (c ∷ cs) =
    add_here physical socket thread c cs (add_to_last physical socket thread cs)

abbrev pub or_new_core : ℤ → ℤ → ℕ → List Core → Option (List Core) → List Core
or_new_core physical socket thread cores (some more) = more
or_new_core physical socket thread cores none = cores ++ (new_core physical socket thread ∷ [])

unfoldable pub add_thread : ℤ → ℤ → ℕ → List Core → List Core
add_thread physical socket thread cores =
    or_new_core physical socket thread cores (add_to_last physical socket thread cores)

-- A processor counts if its files are there: a file that is absent skips it, any other error ends
-- the loop.
abbrev pub topology : CpuDir → Result (Option (ℤ × ℤ))
topology d = elim d.core_id [
  | err not_exist ↦ ok none
  | err e ↦ err e
  | ok physical ↦ elim d.package_id [
    | err not_exist ↦ ok none
    | err e ↦ err e
    | ok socket ↦ ok (some (physical, socket))
  ]
]

abbrev pub take_in : ℕ → Option (ℤ × ℤ) → List Core → List Core
take_in thread none cores = cores
take_in thread (some (physical, socket)) cores = add_thread physical socket thread cores

unfoldable pub thread_count : List Core → ℕ
thread_count [] = 0
thread_count (c ∷ cs) = length c.threads + thread_count cs

-- one thread more, where there is a list
abbrev AddsOne : Option (List Core) → ℕ → Type 0
unfolding thread_count
AddsOne none n = Unit
AddsOne (some more) n = thread_count more ≡ suc n

add_here-AddsOne :
    (physical socket : ℤ) (thread : ℕ) (c : Core) (cs : List Core) (o : Option (List Core))
    → AddsOne o (thread_count cs)
    → AddsOne (add_here physical socket thread c cs o) (length c.threads + thread_count cs)
unfolding thread_count AddsOne
add_here-AddsOne physical socket thread c cs (some more) a = omega (arith, a)
add_here-AddsOne physical socket thread c cs none a =
    elim (Bool-cases (is_core physical socket c)) [
      | inl e ↦ rw e (omega (arith, length-append c.threads (thread ∷ [])))
      | inr e ↦ rw e tt
    ]

add_to_last-AddsOne :
    (physical socket : ℤ) (thread : ℕ) (cores : List Core)
    → AddsOne (add_to_last physical socket thread cores) (thread_count cores)
unfolding add_to_last thread_count AddsOne
add_to_last-AddsOne physical socket thread [] = tt
add_to_last-AddsOne physical socket thread (c ∷ cs) =
    add_here-AddsOne physical socket thread c cs _ (add_to_last-AddsOne physical socket thread cs)

thread_count-append :
    (cs ds : List Core) → thread_count (cs ++ ds) ≡ thread_count cs + thread_count ds
unfolding thread_count
thread_count-append [] ds = omega arith
thread_count-append (c ∷ cs) ds = omega (arith, thread_count-append cs ds)

or_new_core-count :
    (physical socket : ℤ) (thread : ℕ) (cores : List Core) (o : Option (List Core))
    → AddsOne o (thread_count cores)
    → thread_count (or_new_core physical socket thread cores o) ≡ suc (thread_count cores)
unfolding thread_count AddsOne
or_new_core-count physical socket thread cores (some more) a = a
or_new_core-count physical socket thread cores none a =
    omega (arith, thread_count-append cores (new_core physical socket thread ∷ []))

add_thread-count :
    (physical socket : ℤ) (thread : ℕ) (cores : List Core)
    → thread_count (add_thread physical socket thread cores) ≡ suc (thread_count cores)
unfolding add_thread
add_thread-count physical socket thread cores =
    or_new_core-count physical socket thread cores _
      (add_to_last-AddsOne physical socket thread cores)

ok_injective : {A : Type 0} {a b : A} → ok a ≡ ok b → a ≡ b
ok_injective e = cc

module _ (online : ℕ → Bool) where
  abbrev pub visited : Result ℕ → Result (Option (ℤ × ℤ)) → List Core → Result (List Core)
  visited (err e) t cores = err (errorf "unexpected format of CPU directory")
  visited (ok thread) (ok t) cores = ok (if online thread then take_in thread t cores else cores)
  visited (ok thread) (err e) cores = if online thread then err e else ok cores

  abbrev pub visit : CpuDir → List Core → Result (List Core)
  visit d cores = visited d.cpu_id (topology d) cores

  -- getCoresInfo, from the cores so far
  unfoldable pub get_cores_info : List Core → List CpuDir → Result (List Core)
  get_cores_info cores [] = ok cores
  get_cores_info cores (d ∷ ds) = visit d cores >>= λ more. get_cores_info more ds

  -- the processors that are online and whose files are there
  abbrev pub has_topology : Result (Option (ℤ × ℤ)) → ℕ
  has_topology (ok (some _)) = 1
  has_topology _ = 0

  abbrev pub counted : Result ℕ → Result (Option (ℤ × ℤ)) → ℕ
  counted (err e) t = 0
  counted (ok thread) t = if online thread then has_topology t else 0

  abbrev pub counts : CpuDir → ℕ
  counts d = counted d.cpu_id (topology d)

  unfoldable pub usable : List CpuDir → ℕ
  usable [] = 0
  usable (d ∷ ds) = counts d + usable ds

  take_in-count :
      (thread : ℕ) (t : Option (ℤ × ℤ)) (cores : List Core)
      → thread_count (take_in thread t cores) ≡ has_topology (ok t) + thread_count cores
  take_in-count thread none cores = omega arith
  take_in-count thread (some (p, s)) cores = omega (arith, add_thread-count p s thread cores)

  kept :
      (thread : ℕ) (x : Err) (cores more : List Core)
      → online thread ≡ false
      → visited (ok thread) (err x) cores ≡ ok more
      → cores ≡ more
  kept thread x cores more e q = ground (arith)

  visited-count :
      (r : Result ℕ) (t : Result (Option (ℤ × ℤ))) (cores more : List Core)
      → visited r t cores ≡ ok more
      → thread_count more ≡ counted r t + thread_count cores
  visited-count (err e) t cores more q = cc
  visited-count (ok thread) (ok t) cores more q = elim (Bool-cases (online thread)) [
    | inl e ↦ rw (← ok_injective q, e) (take_in-count thread t cores)
    | inr e ↦ rw (← ok_injective q, e) (omega arith)
  ]
  visited-count (ok thread) (err x) cores more q = elim (Bool-cases (online thread)) [
    | inl e ↦ cc
    | inr e ↦ rw (← kept thread x cores more e q, e) (omega arith)
  ]

  -- Over all processors that the loop visits without an error, the threads of the cores are as many
  -- as the processors that are online and whose files are there.
  pub get_cores_info-count :
      (ds : List CpuDir) (cores all : List Core)
      → get_cores_info cores ds ≡ ok all
      → thread_count all ≡ usable ds + thread_count cores
  unfolding get_cores_info usable
  get_cores_info-count [] cores all e = rw (← ok_injective e) (omega arith)
  get_cores_info-count (d ∷ ds) cores all e =
      let (more, (v, rest)) = >>=-ok (visit d cores) _ e in
      omega (
        arith,
        visited-count d.cpu_id (topology d) cores more v,
        get_cores_info-count ds more all rest,
      )
