-- ===== src/Artifact/Frame.antt =====
-- What InstallFile, InstallTarGz and Upgrade leave alone: the files elsewhere, and the tracker.
use eks_hybrid.Base.{String, ◌≡◌, inl, inr, true, false, Bool-cases, Option, List, [], ◌∷◌}
use eks_hybrid.Tracker.{InstalledArtifacts}
use eks_hybrid.Machine.{
  Bytes, TarItem, tar_error, tar_dir, tar_file, Source, Host, World, gets, under,
}
use eks_hybrid.Machine.Triple.{Keeps, Keeps-lift, Keeps-wrapping, Keeps-bind, keeps_rules}
use eks_hybrid.Machine.Frame.{At, Tracks, at_rules, tracks_rules, At-os_open_trunc, At-io_copy}
use eks_hybrid.Artifact.Install.{
  valid_rel_path, install_file, install_item, install_items, install_tar_gz,
}
use eks_hybrid.Artifact.Upgrade.{checksum_match, upgrade}

pub Keeps-gets : {A : Type 0} {P : World → Type 0} (f : World → A) → Keeps P (gets f)
Keeps-gets f = record { at = λ w p. p }

module _ (h : Host) {q : String} {o : Option Bytes} where
  pub At-install_file :
      (p : String) (b : Bytes) → under p q ≡ false → Keeps (At q o) (install_file h p b)
  unfolding install_file
  At-install_file p b a = search (keeps_rules, at_rules) depth 9

  pub At-upgrade :
      (name p : String) (src : Source) → under p q ≡ false → Keeps (At q o) (upgrade h name p src)
  unfolding upgrade checksum_match
  At-upgrade name p src a = search (keeps_rules, at_rules, At-install_file) depth 9

  module _ (dst : String)
      (apart : (name : String)
        → valid_rel_path name ≡ true
        → under (h.join dst name) q ≡ false) where
    At-install_item : (item : TarItem) → Keeps (At q o) (install_item h dst item)
    unfolding install_item
    At-install_item (tar_error e) = Keeps-lift _
    At-install_item (tar_dir name) = search (keeps_rules, at_rules) depth 9
    At-install_item (tar_file name b) = elim (Bool-cases (valid_rel_path name)) [
      | inl v ↦ rw v (
          Keeps-bind _ _ (Keeps-wrapping _ _ (At-os_open_trunc h _ (apart name v)))
            λ _. Keeps-wrapping _ _ (At-io_copy h _ b (apart name v)))
      | inr v ↦ rw v (Keeps-lift _)
    ]

    At-install_items : (items : List TarItem) → Keeps (At q o) (install_items h dst items)
    unfolding install_items
    At-install_items [] = Keeps-lift _
    At-install_items (item ∷ items) =
        Keeps-bind _ _ (At-install_item item) (λ _. At-install_items items)

    pub At-install_tar_gz :
        (src : String) → under src q ≡ false → Keeps (At q o) (install_tar_gz h dst src)
    unfolding install_tar_gz
    At-install_tar_gz src a = search (keeps_rules, Keeps-gets, at_rules, At-install_items) depth 9

module _ (h : Host) {P : InstalledArtifacts → Type 0} where
  pub Tracks-install_file : (p : String) (b : Bytes) → Keeps (Tracks P) (install_file h p b)
  unfolding install_file
  Tracks-install_file p b = search (keeps_rules, tracks_rules) depth 9

  Tracks-install_item : (dst : String) (item : TarItem) → Keeps (Tracks P) (install_item h dst item)
  unfolding install_item
  Tracks-install_item dst (tar_error e) = Keeps-lift _
  Tracks-install_item dst (tar_dir name) = search (keeps_rules, tracks_rules) depth 9
  Tracks-install_item dst (tar_file name b) = search (keeps_rules, tracks_rules) depth 9

  Tracks-install_items :
      (dst : String) (items : List TarItem) → Keeps (Tracks P) (install_items h dst items)
  unfolding install_items
  Tracks-install_items dst [] = Keeps-lift _
  Tracks-install_items dst (item ∷ items) =
      Keeps-bind _ _ (Tracks-install_item dst item) (λ _. Tracks-install_items dst items)

  pub Tracks-install_tar_gz : (dst src : String) → Keeps (Tracks P) (install_tar_gz h dst src)
  unfolding install_tar_gz
  Tracks-install_tar_gz dst src =
      search (keeps_rules, Keeps-gets, tracks_rules, Tracks-install_items) depth 9
