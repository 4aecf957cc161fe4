-- ===== src/Flows/Loaded.antt =====
-- The tracker's file, as it is saved and as it is read back
use eks_hybrid.Base.{
  String, ◌≡◌, refl, ◌⊎◌, inl, inr, ap, sym, ◌∙◌, none, some, arith, Err, ok, err, IsOk, wrap_err,
}
use eks_hybrid.Tracker.{
  InstalledArtifacts, containerd_source, source_distro, source_docker, source_none,
}
use eks_hybrid.Machine.{
  Bytes, read_file, Host, World, Exec, lift, continue, log, ◌>>=◌, os_read_file,
  write_file_with_dir, gets,
}
use eks_hybrid.Machine.Triple.{
  Triple, Keeps, Triple-bind, Triple-bind_value, Triple-Keeps, keeps_rules,
}
use eks_hybrid.Machine.Frame.{Tracks, tracks_rules}
use eks_hybrid.Artifact.Frame.{Keeps-gets}
use eks_hybrid.Artifact.Verified.{Any}
use eks_hybrid.Components.Containerd.{set_source}
use eks_hybrid.Flows.Store.{
  tracker_file, save, load, normalised, or_new, get_installed_artifacts, get_current_state,
}
use eks_hybrid.Flows.Saved.{Saved, save-Saved}

-- the source of containerd is one of the three names
abbrev IsNormal : InstalledArtifacts → Type 0
IsNormal a = containerd_source a.containerd ≡ ok a.containerd

ok_injective : {s t : String} → ok s ≡ ok t → s ≡ t
ok_injective e = cc

containerd_source_cases :
    (s : String)
    → (containerd_source s ≡ ok source_distro)
      ⊎ ((containerd_source s ≡ ok source_docker)
          ⊎ ((containerd_source s ≡ ok source_none) ⊎ ((e : Err) × (containerd_source s ≡ err e))))
unfolding containerd_source
containerd_source_cases s = ground arith

containerd_source-normal : (s t : String) → containerd_source s ≡ ok t → containerd_source t ≡ ok t
unfolding containerd_source
containerd_source-normal s t e = elim (containerd_source_cases s) [
  | inl p ↦ rw (ok_injective (sym e ∙ p)) refl
  | inr (inl p) ↦ rw (ok_injective (sym e ∙ p)) refl
  | inr (inr (inl p)) ↦ rw (ok_injective (sym e ∙ p)) refl
  | inr (inr (inr (x, p))) ↦ cc
]

normal-normalised : (a : InstalledArtifacts) → IsNormal a → normalised a ≡ ok a
unfolding normalised
normal-normalised a n = rw (n, normalised) refl

bind-ok :
    {A B : Type 0} {a : A} {w v : World} (m : Exec A) (f : A → Exec B)
    → m w ≡ (ok a, v)
    → (m >>= f) w ≡ f a v
unfolding ◌>>=◌
bind-ok m f e = ap (λ (r, v). continue r f v) e

module _ (h : Host) where
  read_back :
      (w : World) (b : Bytes)
      → w.files tracker_file ≡ some b
      → h.act w.trace (read_file tracker_file) ≡ none
      → os_read_file h tracker_file w ≡ (ok b, log (read_file tracker_file) w)
  unfolding os_read_file
  read_back w b f r = ground arith

  abbrev source_set : String → Exec Unit
  source_set s = set_source s >>= λ _. gets (λ w. w.artifacts) >>= λ b.
      lift (h.marshal b) >>= λ b. write_file_with_dir h tracker_file b

  IsNormal-source :
      (s t : String) → containerd_source s ≡ ok t → Triple Any (set_source t) (Tracks IsNormal)
  unfolding set_source
  IsNormal-source s t e = record {
    at = λ w _ o. record { tracked = containerd_source-normal s t e };
  }

  rest-IsNormal : Keeps (Tracks IsNormal) (
      gets (λ w. w.artifacts) >>= λ a.
      lift (h.marshal a) >>= λ b. write_file_with_dir h tracker_file b)
  rest-IsNormal = search (keeps_rules, tracks_rules, Keeps-gets) depth 9

  save-IsNormal : Triple Any (save h) (Tracks IsNormal)
  unfolding save
  save-IsNormal =
      Triple-bind {R = Any} _ _ (record { at = λ w p o. tt })
        λ a.
          Triple-bind_value _ _ (record { at = λ w p. p })
            λ w s e.
              Triple-bind _ _ (IsNormal-source a.containerd s e) λ _. Triple-Keeps rest-IsNormal

  module _
      (codec : (a : InstalledArtifacts) (b : Bytes)
        → h.marshal a ≡ ok b
        → h.unmarshal b ≡ ok (some a)) where
    loaded :
        (w : World)
        → Saved h w
        → Tracks IsNormal w
        → h.act w.trace (read_file tracker_file) ≡ none
        → get_current_state h w ≡ (ok tt, log (read_file tracker_file) w)
    unfolding get_current_state get_installed_artifacts load
    loaded w (b, m, f) n r =
        ap (λ (x, v). or_new h x v)
          (bind-ok _ _ (read_back w b f r)
            ∙ bind-ok {a = some w.artifacts} _ _ (
                ap
                  (λ x. (wrap_err "invalid yaml data in tracker" x, log (read_file tracker_file) w))
                  (codec w.artifacts b m))
            ∙ bind-ok {a = w.artifacts} _ _ refl
            ∙ ap (λ x. (x, log (read_file tracker_file) w))
                (normal-normalised w.artifacts n.tracked))

    -- When the codec decodes what it encoded, the tracker was saved with success and its file can be
    -- read, loading the current state succeeds and gives the tracker as it was after saving.
    pub save-get_current_state :
        (w : World)
        → IsOk (save h w).0
        → h.act (save h w).1.trace (read_file tracker_file) ≡ none
        → (get_current_state h (save h w).1).0 ≡ ok tt
          × (get_current_state h (save h w).1).1.artifacts ≡ (save h w).1.artifacts
    save-get_current_state w o r =
        let e = loaded (save h w).1 ((save-Saved h).at w tt o) (save-IsNormal.at w tt o) r in
        (ap (λ x. x.0) e, ap (λ x. x.1.artifacts) e)
