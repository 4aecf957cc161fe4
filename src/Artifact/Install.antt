-- ===== src/Artifact/Install.antt =====
-- internal/artifact/install.go. Every mode of a file is left out.
use text.Mathlib.Text.{find?}
use eks_hybrid.Base.{
  String, ◌<>◌, starts_with, Bool, true, false, not, ◌||◌, Option, none, some, List, [], ◌∷◌,
  str_eq, if◌then◌else◌, errorf, wrap, err,
}
use eks_hybrid.Machine.{
  Bytes, mkdir_all, TarItem, tar_error, tar_dir, tar_file, Host, Exec, pure, lift, gets, ◌>>=◌,
  ◌>>◌, wrapping, act, os_remove_all, os_remove, os_open, os_open_trunc, io_copy,
}

-- strings.Contains
abbrev contains_text : String → String → Bool
contains_text s t = elim (find? s t) [ none ↦ false | some _ ↦ true ]

unfoldable pub valid_rel_path : String → Bool
valid_rel_path p =
    not (str_eq p "" || contains_text p "\\" || starts_with p "/" || contains_text p "../")

abbrev opened : Option Bytes → Bytes
opened none = []
opened (some b) = b

module _ (h : Host) where
  unfoldable pub install_file : String → Bytes → Exec Unit
  install_file dst src = do
    os_remove_all h dst
    act h (mkdir_all (h.dir dst))
    os_open_trunc h dst
    io_copy h dst src

  -- one round of the loop over the archive
  unfoldable pub install_item : String → TarItem → Exec Unit
  install_item dst (tar_error e) = lift (err (wrap "reading tar file" e))
  install_item dst (tar_dir name) =
      if valid_rel_path name
      then wrapping "creating directory" (act h (mkdir_all (h.join dst name)))
      else lift (err (errorf ("tar contained invalid name error " <> name)))
  install_item dst (tar_file name b) =
      if valid_rel_path name
      then (do
        wrapping "creating file" (os_open_trunc h (h.join dst name))
        wrapping "copying file contents" (io_copy h (h.join dst name) b))
      else lift (err (errorf ("tar contained invalid name error " <> name)))

  unfoldable pub install_items : String → List TarItem → Exec Unit
  install_items dst [] = pure tt
  install_items dst (item ∷ items) = do install_item dst item; install_items dst items

  unfoldable pub install_tar_gz : String → String → Exec Unit
  install_tar_gz dst src = do
    act h (mkdir_all dst)
    wrapping "opening source file" (os_open h src)
    archive ← gets (λ w. opened (w.files src))
    items ← wrapping "creating gzip reader" (lift (h.untar archive))
    install_items dst items
    wrapping "removing source file" (os_remove h src)
