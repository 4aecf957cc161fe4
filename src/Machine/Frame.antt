-- ===== src/Machine/Frame.antt =====
-- What the calls leave alone: the files at other paths, and the artifacts in memory.
use eks_hybrid.Base.{String, str_eq, ◌≡◌, refl, sym, subst, false, Option, arith, Option-cases}
use eks_hybrid.Tracker.{InstalledArtifacts}
use eks_hybrid.Machine.Defs.{
  Bytes, Call, remove_all, remove, copy, open_read, open_trunc, open_append, read_file, write_file,
  Host, World, under,
}
use eks_hybrid.Machine.Monad.{Exec}
use eks_hybrid.Machine.Calls.{
  act, test, found, get_source, os_remove_all, os_remove, os_open, os_open_trunc, os_open_append,
  io_copy, os_write_file, os_read_file, write_file_with_dir,
}
use eks_hybrid.Machine.Triple.{Keeps, Keeps-bind}

-- what a file is, and what is tracked in memory
abbrev pub At : String → Option Bytes → World → Type 0
At q o w = w.files q ≡ o

pub record Tracks (P : InstalledArtifacts → Type 0) (w : World) : Type 0 where
  pub tracked : P w.artifacts

pub under-ne : (p q : String) → under p q ≡ false → str_eq q p ≡ false
unfolding under
under-ne p q h = ground arith

module _ (h : Host) {q : String} {o : Option Bytes} where
  pub At-act : (c : Call) → Keeps (At q o) (act h c)
  unfolding act
  At-act c = record { at = λ w p. p }

  pub At-test : (c : Call) → Keeps (At q o) (test h c)
  unfolding test
  At-test c = record { at = λ w p. p }

  pub At-found : (p : String) → Keeps (At q o) (found h p)
  unfolding found
  At-found p = record { at = λ w p. p }

  pub At-get_source : (name : String) → Keeps (At q o) (get_source h name)
  unfolding get_source
  At-get_source name = record { at = λ w p. p }

  pub At-os_remove_all : (p : String) → under p q ≡ false → Keeps (At q o) (os_remove_all h p)
  unfolding os_remove_all
  At-os_remove_all p a = record {
    at = λ w e. ground (arith, Option-cases (h.act w.trace (remove_all p)));
  }

  pub At-os_remove : (p : String) → under p q ≡ false → Keeps (At q o) (os_remove h p)
  unfolding os_remove
  At-os_remove p a = record {
    at = λ w e. ground (arith, under-ne p q a, Option-cases (h.act w.trace (remove p)));
  }

  pub At-os_open : (p : String) → Keeps (At q o) (os_open h p)
  unfolding os_open
  At-os_open p = record { at = λ w e. ground (arith, Option-cases (h.act w.trace (open_read p))) }

  pub At-os_open_trunc : (p : String) → under p q ≡ false → Keeps (At q o) (os_open_trunc h p)
  unfolding os_open_trunc
  At-os_open_trunc p a = record {
    at = λ w e. ground (arith, under-ne p q a, Option-cases (h.act w.trace (open_trunc p)));
  }

  pub At-os_open_append : (p : String) → under p q ≡ false → Keeps (At q o) (os_open_append h p)
  unfolding os_open_append
  At-os_open_append p a = record {
    at = λ w e. ground (arith, under-ne p q a, Option-cases (h.act w.trace (open_append p)));
  }

  pub At-io_copy : (p : String) (b : Bytes) → under p q ≡ false → Keeps (At q o) (io_copy h p b)
  unfolding io_copy
  At-io_copy p b a = record {
    at = λ w e. ground (arith, under-ne p q a, Option-cases (h.act w.trace (copy p)));
  }

  pub At-os_write_file :
      (p : String) (b : Bytes) → under p q ≡ false → Keeps (At q o) (os_write_file h p b)
  unfolding os_write_file
  At-os_write_file p b a = record {
    at = λ w e. ground (arith, under-ne p q a, Option-cases (h.act w.trace (write_file p)));
  }

  pub At-os_read_file : (p : String) → Keeps (At q o) (os_read_file h p)
  unfolding os_read_file
  At-os_read_file p = record {
    at = λ w e. ground (arith, Option-cases (h.act w.trace (read_file p)));
  }

  pub At-write_file_with_dir :
      (p : String) (b : Bytes) → under p q ≡ false → Keeps (At q o) (write_file_with_dir h p b)
  unfolding write_file_with_dir
  At-write_file_with_dir p b a = Keeps-bind _ _ (At-act _) (λ _. At-os_write_file p b a)

pub ruleset at_rules = (
  At-act, At-test, At-found, At-get_source, At-os_remove_all, At-os_remove, At-os_open,
  At-os_open_trunc, At-os_open_append, At-io_copy, At-os_write_file, At-os_read_file,
  At-write_file_with_dir,
)

pub Tracks-same :
    {A : Type 0} {P : InstalledArtifacts → Type 0} (m : Exec A)
    → ((w : World) → (m w).1.artifacts ≡ w.artifacts)
    → Keeps (Tracks P) m
Tracks-same {P} m e = record { at = λ w t. record { tracked = subst P (sym (e w)) t.tracked } }

module _ (h : Host) {P : InstalledArtifacts → Type 0} where
  pub Tracks-act : (c : Call) → Keeps (Tracks P) (act h c)
  unfolding act
  Tracks-act c = Tracks-same _ (λ w. refl)

  pub Tracks-get_source : (name : String) → Keeps (Tracks P) (get_source h name)
  unfolding get_source
  Tracks-get_source name = Tracks-same _ (λ w. refl)

  pub Tracks-test : (c : Call) → Keeps (Tracks P) (test h c)
  unfolding test
  Tracks-test c = Tracks-same _ (λ w. refl)

  pub Tracks-found : (p : String) → Keeps (Tracks P) (found h p)
  unfolding found
  Tracks-found p = Tracks-same _ (λ w. refl)

  pub Tracks-os_remove_all : (p : String) → Keeps (Tracks P) (os_remove_all h p)
  unfolding os_remove_all
  Tracks-os_remove_all p =
      Tracks-same _ (λ w. ground (arith, Option-cases (h.act w.trace (remove_all p))))

  pub Tracks-os_remove : (p : String) → Keeps (Tracks P) (os_remove h p)
  unfolding os_remove
  Tracks-os_remove p = Tracks-same _ (λ w. ground (arith, Option-cases (h.act w.trace (remove p))))

  pub Tracks-os_open : (p : String) → Keeps (Tracks P) (os_open h p)
  unfolding os_open
  Tracks-os_open p = Tracks-same _ (λ w. ground (arith, Option-cases (h.act w.trace (open_read p))))

  pub Tracks-os_open_trunc : (p : String) → Keeps (Tracks P) (os_open_trunc h p)
  unfolding os_open_trunc
  Tracks-os_open_trunc p =
      Tracks-same _ (λ w. ground (arith, Option-cases (h.act w.trace (open_trunc p))))

  pub Tracks-io_copy : (p : String) (b : Bytes) → Keeps (Tracks P) (io_copy h p b)
  unfolding io_copy
  Tracks-io_copy p b = Tracks-same _ (λ w. ground (arith, Option-cases (h.act w.trace (copy p))))

  pub Tracks-os_write_file : (p : String) (b : Bytes) → Keeps (Tracks P) (os_write_file h p b)
  unfolding os_write_file
  Tracks-os_write_file p b =
      Tracks-same _ (λ w. ground (arith, Option-cases (h.act w.trace (write_file p))))

  pub Tracks-write_file_with_dir :
      (p : String) (b : Bytes) → Keeps (Tracks P) (write_file_with_dir h p b)
  unfolding write_file_with_dir
  Tracks-write_file_with_dir p b = Keeps-bind _ _ (Tracks-act _) (λ _. Tracks-os_write_file p b)

pub ruleset tracks_rules = (
  Tracks-act, Tracks-test, Tracks-found, Tracks-get_source, Tracks-os_remove_all, Tracks-os_remove,
  Tracks-os_open, Tracks-os_open_trunc, Tracks-io_copy, Tracks-os_write_file,
  Tracks-write_file_with_dir,
)
