-- ===== src/Flows/Saved.antt =====
-- What saving the tracker writes and leaves alone.
use eks_hybrid.Base.{
  String, str_eq_refl, ◌≡◌, refl, ap, ◌∙◌, false, Option, some, arith, Option-cases, ok,
}
use eks_hybrid.Tracker.{InstalledArtifacts}
use eks_hybrid.Machine.{
  ◌>>=◌, Bytes, Host, World, Exec, lift, gets, under, write_file, write_file_with_dir,
  os_write_file,
}
use eks_hybrid.Machine.Triple.{Triple, Keeps, Triple-bind, Triple-bind_value, keeps_rules}
use eks_hybrid.Machine.Frame.{At, Tracks, at_rules, tracks_rules, Tracks-write_file_with_dir}
use eks_hybrid.Artifact.Frame.{Keeps-gets}
use eks_hybrid.Artifact.Verified.{Any}
use eks_hybrid.Components.Containerd.{set_source}
use eks_hybrid.Components.Frame.{IsKept}
use eks_hybrid.Flows.Store.{tracker_file, save}

At-set_source : {q : String} {o : Option Bytes} (s : String) → Keeps (At q o) (set_source s)
unfolding set_source
At-set_source s = record { at = λ w e. e }

Tracks-set_source :
    {P : InstalledArtifacts → Type 0} → IsKept P → (s : String) → Keeps (Tracks P) (set_source s)
unfolding set_source
Tracks-set_source k s = record {
  at = λ w t. record { tracked = k.by_source s w.artifacts t.tracked };
}

-- the tracker's file holds the artifacts in memory, encoded
abbrev pub Saved : Host → World → Type 0
Saved h w = (b : Bytes) × (h.marshal w.artifacts ≡ ok b) × (w.files tracker_file ≡ some b)

module _ (h : Host) where
  pub At-save :
      {q : String} {o : Option Bytes} → under tracker_file q ≡ false → Keeps (At q o) (save h)
  unfolding save
  At-save a = search (keeps_rules, at_rules, Keeps-gets, At-set_source) depth 9

  pub Tracks-save : {P : InstalledArtifacts → Type 0} → IsKept P → Keeps (Tracks P) (save h)
  unfolding save
  Tracks-save k = search (keeps_rules, tracks_rules, Keeps-gets, Tracks-set_source k) depth 9

  files-write_file_with_dir :
      (p : String) (b : Bytes) → Triple Any (write_file_with_dir h p b) (At p (some b))
  unfolding write_file_with_dir os_write_file
  files-write_file_with_dir p b =
      Triple-bind {R = Any} _ _ (record { at = λ w _ o. tt })
        λ _. record {
          at = λ w _ o. ground (arith, str_eq_refl p, Option-cases (h.act w.trace (write_file p)));
        }

  encoded_then_written :
      (a : InstalledArtifacts) (b : Bytes)
      → h.marshal a ≡ ok b
      → Triple (Tracks (λ x. x ≡ a)) (write_file_with_dir h tracker_file b) (Saved h)
  encoded_then_written a b e = record {
    at = λ w t o.
        let t' = (Tracks-write_file_with_dir h tracker_file b).at w t in
        (b, ap h.marshal t'.tracked ∙ e, (files-write_file_with_dir tracker_file b).at w tt o);
  }

  encoded :
      (a : InstalledArtifacts)
      → Triple
          (Tracks (λ x. x ≡ a))
          (lift (h.marshal a) >>= λ b. write_file_with_dir h tracker_file b)
          (Saved h)
  encoded a = Triple-bind_value _ _ (record { at = λ w p. p }) (λ w b e. encoded_then_written a b e)

  current_encoded :
      Triple Any
        (gets (λ w. w.artifacts) >>= λ a.
          lift (h.marshal a) >>= λ b. write_file_with_dir h tracker_file b)
        (Saved h)
  unfolding ◌>>=◌
  current_encoded = record {
    at = λ w _ o. (encoded w.artifacts).at w (record { tracked = refl }) o;
  }

  Triple-Any : {A : Type 0} (m : Exec A) → Triple Any m Any
  Triple-Any m = record { at = λ w p o. tt }

  pub save-Saved : Triple Any (save h) (Saved h)
  unfolding save
  save-Saved =
      Triple-bind _ _ (Triple-Any _) λ a.
        Triple-bind _ _ (Triple-Any _) (λ s. Triple-bind _ _ (Triple-Any _) λ _. current_encoded)
