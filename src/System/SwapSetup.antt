-- ===== src/System/SwapSetup.antt =====
-- Setup of internal/system/swap.go, over the lines of Rules/Swap. A file that was opened is read without
-- an error.
use eks_hybrid.Base.{
  String, codes, not, Option, none, some, List, [], ◌∷◌, Err, errorf, not_exist, panic, Result, ok,
  err,
}
use eks_hybrid.Machine.{
  Bytes, Host, stat, command, service, or_empty, Exec, pure, lift, ◌>>=◌, ◌>>◌, reporting, guard,
  act, os_open, os_open_trunc, io_copy,
}
use eks_hybrid.Machine.Lines.{scan, unlines}
use eks_hybrid.Artifact.Checksum.{bytes_eq}
use eks_hybrid.Rules.Swap.{SwapArea, swap_areas, partition_swap_exists, kept_lines}

abbrev pub behind_first : List Bytes → List Bytes
behind_first [] = []
behind_first (heading ∷ lines) = lines

-- `text` is the text of some bytes, `areas_file` ACTIVE_SWAP_AREAS or else /proc/swaps.
module _ (h : Host) (text : Bytes → String) (areas_file : String) where
  abbrev pub contents : String → Exec Bytes
  contents p w = (ok (or_empty (w.files p)), w)

  abbrev pub paths_in : Result (Unit {0}) → Exec (List (Option SwapArea))
  paths_in (ok _) = do b ← contents areas_file; lift (swap_areas (behind_first (scan b)))
  paths_in (err not_exist) = pure []
  paths_in (err e) = lift (err e)

  unfoldable pub get_swapfile_paths : Exec (List (Option SwapArea))
  get_swapfile_paths w = let (r, w') = os_open h areas_file w in paths_in r w'

  abbrev pub off_after : SwapArea → Result (Unit {0}) → Exec Unit
  off_after a (ok _) =
      reporting "failed to turn of swap" (act h (command "swapoff" (text a.file_path ∷ [])))
  off_after a (err not_exist) = pure tt
  off_after a (err e) = lift (err (errorf "unexpced error while trying to open /proc/swaps file"))

  unfoldable pub turn_off : SwapArea → Exec Unit
  turn_off a w = let (r, w') = act h (stat (text a.file_path)) w in off_after a r w'

  unfoldable pub swap_off : List (Option SwapArea) → Exec Unit
  swap_off [] = pure tt
  swap_off (none ∷ areas) = lift (err (panic "nil swap"))
  swap_off (some a ∷ areas) = do
    guard (not (bytes_eq a.swap_type (codes "partition")))
        (errorf "partition type swapfile found in /proc/swaps, please remove the swapfile")
    turn_off a
    swap_off areas

  unfoldable pub rewrite_fstab : List Bytes → Exec Unit
  rewrite_fstab lines = do
    os_open_trunc h "/etc/fstab"
    act h (service "seek /etc/fstab")
    io_copy h "/etc/fstab" (unlines lines)

  unfoldable pub disable_swap_on_fstab : Exec Unit
  disable_swap_on_fstab = do
    os_open h "/etc/fstab"
    b ← contents "/etc/fstab"
    lines ← lift (kept_lines (scan b))
    rewrite_fstab lines

  abbrev pub partition_found : Err
  partition_found = errorf "failed to disable swap: partition type swap found on the host"

  -- (*swapAspect).Setup
  unfoldable pub set_up_swap : Exec Unit
  set_up_swap = do
    areas ← get_swapfile_paths
    has_partition ← lift (partition_swap_exists areas)
    guard (not has_partition) partition_found
    swap_off areas
    disable_swap_on_fstab
