-- ===== src/Machine/Calls.antt =====
-- The calls of the standard library that the code makes, with what they do to the files.
use eks_hybrid.Base.{
  String, Bool, Option, none, some, [], ◌∷◌, str_eq, if◌then◌else◌, Result, ok, err, not_exist,
  of_error,
}
use eks_hybrid.Machine.Defs.{
  Bytes, Call, fetch, remove_all, remove, mkdir_all, open_trunc, open_append, copy, open_read,
  read_file, write_file, look_path, Source, Host, World, under,
}
use eks_hybrid.Machine.Monad.{Exec, ◌>>◌}

abbrev pub log : Call → World → World
log c w = record w { trace = c ∷ w.trace }

-- the files after a write to `p` that left `b` there
abbrev pub put : String → Option Bytes → (String → Option Bytes) → String → Option Bytes
put p b files q = if str_eq q p then b else files q

abbrev pub or_empty : Option Bytes → Bytes
or_empty none = []
or_empty (some b) = b

module _ (h : Host) where
  -- a call that touches no file, answered by an error or its absence
  unfoldable pub act : Call → Exec Unit
  act c w = (of_error (h.act w.trace c), log c w)

  -- a call that cannot fail
  unfoldable pub note : Call → Exec Unit
  note c w = (ok tt, log c w)

  unfoldable pub test : Call → Exec Bool
  test c w = (ok (h.test w.trace c), log c w)

  -- exec.LookPath succeeds
  unfoldable pub found : String → Exec Bool
  unfolding test
  found p = test (look_path p)

  unfoldable pub get_source : String → Exec Source
  get_source name w = (h.fetch_source w.trace name, log (fetch name) w)

  -- os.RemoveAll: everything at and below the path goes; a failure may leave some of it.
  unfoldable pub os_remove_all : String → Exec Unit
  os_remove_all p w = elim (h.act w.trace (remove_all p)) [
    | none ↦ (
      ok tt,
      record w {
        trace = remove_all p ∷ w.trace;
        files = λ q. if under p q then none else w.files q;
      },
    )
    | some e ↦ (
      err e,
      record w {
        trace = remove_all p ∷ w.trace;
        files =
            λ q. if under p q then (if h.left w.trace q then w.files q else none) else w.files q;
      },
    )
  ]

  -- os.Remove of a file
  unfoldable pub os_remove : String → Exec Unit
  os_remove p w = elim (h.act w.trace (remove p)) [
    | none ↦ (ok tt, record w { trace = remove p ∷ w.trace; files = put p none w.files })
    | some e ↦ (err e, log (remove p) w)
  ]

  -- os.OpenFile with O_CREATE and O_TRUNC
  unfoldable pub os_open_trunc : String → Exec Unit
  os_open_trunc p w = elim (h.act w.trace (open_trunc p)) [
    | none ↦ (ok tt, record w { trace = open_trunc p ∷ w.trace; files = put p (some []) w.files })
    | some e ↦ (err e, log (open_trunc p) w)
  ]

  -- os.OpenFile with O_CREATE and O_APPEND
  unfoldable pub os_open_append : String → Exec Unit
  os_open_append p w = elim (h.act w.trace (open_append p)) [
    | none ↦ (
      ok tt,
      record w {
        trace = open_append p ∷ w.trace;
        files = put p (some (or_empty (w.files p))) w.files;
      },
    )
    | some e ↦ (err e, log (open_append p) w)
  ]

  -- io.Copy into the file just opened; a failure may leave any part of the bytes.
  unfoldable pub io_copy : String → Bytes → Exec Unit
  io_copy p b w = elim (h.act w.trace (copy p)) [
    | none ↦ (ok tt, record w { trace = copy p ∷ w.trace; files = put p (some b) w.files })
    | some e ↦
        (err e, record w { trace = copy p ∷ w.trace; files = put p (h.torn w.trace p) w.files })
  ]

  -- os.WriteFile
  unfoldable pub os_write_file : String → Bytes → Exec Unit
  os_write_file p b w = elim (h.act w.trace (write_file p)) [
    | none ↦ (ok tt, record w { trace = write_file p ∷ w.trace; files = put p (some b) w.files })
    | some e ↦ (
      err e,
      record w { trace = write_file p ∷ w.trace; files = put p (h.torn w.trace p) w.files },
    )
  ]

  abbrev pub file_bytes : Option Bytes → Result Bytes
  file_bytes none = err not_exist
  file_bytes (some b) = ok b

  -- os.Open
  unfoldable pub os_open : String → Exec Unit
  os_open p w = elim (h.act w.trace (open_read p)) [
    | none ↦ ((elim (w.files p) [ none ↦ err not_exist | some b ↦ ok tt ]), log (open_read p) w)
    | some e ↦ (err e, log (open_read p) w)
  ]

  -- os.ReadFile, and the read of a file just opened
  unfoldable pub os_read_file : String → Exec Bytes
  os_read_file p w = elim (h.act w.trace (read_file p)) [
    | none ↦ (file_bytes (w.files p), log (read_file p) w)
    | some e ↦ (err e, log (read_file p) w)
  ]

  -- internal/util/files.go
  unfoldable pub write_file_with_dir : String → Bytes → Exec Unit
  write_file_with_dir p b = do act (mkdir_all (h.dir p)); os_write_file p b
