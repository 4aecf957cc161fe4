-- ===== src/Artifact/Verified.antt =====
-- What a file holds after InstallFile, and the comparison of checksums.
use eks_hybrid.Base.{String, str_eq_refl, ◌≡◌, refl, true, some, [], ◌∷◌, arith, Option-cases}
use eks_hybrid.Machine.{
  Bytes, copy, mkdir_all, Host, World, Exec, act, os_remove_all, os_open_trunc, io_copy,
}
use eks_hybrid.Machine.Triple.{Triple, Triple-bind}
use eks_hybrid.Artifact.Checksum.{bytes_eq}
use eks_hybrid.Artifact.Install.{install_file}

pub bytes_eq→eq : (a b : Bytes) → bytes_eq a b ≡ true → a ≡ b
unfolding bytes_eq
bytes_eq→eq [] [] h = refl
bytes_eq→eq [] (y ∷ ys) h = cc
bytes_eq→eq (x ∷ xs) [] h = cc
bytes_eq→eq (x ∷ xs) (y ∷ ys) h = ground (arith, bytes_eq→eq xs ys)

pub bytes_eq_refl : (a : Bytes) → bytes_eq a a ≡ true
unfolding bytes_eq
bytes_eq_refl [] = refl
bytes_eq_refl (x ∷ xs) = ground (arith, bytes_eq_refl xs)

abbrev pub Any : World → Type 0
Any w = Unit

module _ (h : Host) where
  Triple-Any : {A : Type 0} (m : Exec A) → Triple Any m Any
  Triple-Any m = record { at = λ w p o. tt }

  files-io_copy : (p : String) (b : Bytes) → Triple Any (io_copy h p b) (λ w. w.files p ≡ some b)
  unfolding io_copy
  files-io_copy p b = record {
    at = λ w _ o. ground (arith, str_eq_refl p, Option-cases (h.act w.trace (copy p)));
  }

  -- A file that was installed holds the bytes of its source.
  pub files-install_file :
      (p : String) (b : Bytes) → Triple Any (install_file h p b) (λ w. w.files p ≡ some b)
  unfolding install_file
  files-install_file p b = Triple-bind _ _ (Triple-Any (os_remove_all h p)) λ _.
      Triple-bind _ _ (Triple-Any (act h (mkdir_all (h.dir p))))
        λ _. Triple-bind _ _ (Triple-Any (os_open_trunc h p)) λ _. files-io_copy p b
