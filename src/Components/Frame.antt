-- ===== src/Components/Frame.antt =====
-- What the installation of one component leaves alone: the files elsewhere, and what was tracked.
use eks_hybrid.Base.{String, ◌≡◌, ◌∙◌, ap, refl, true, false, Option, Result, ok, err}
use eks_hybrid.Tracker.{InstalledArtifacts, add}
use eks_hybrid.Machine.{Bytes, Host, World, Exec, continue, under}
use eks_hybrid.Machine.Triple.{Keeps, keeps_rules}
use eks_hybrid.Machine.Frame.{At, Tracks, at_rules, tracks_rules}
use eks_hybrid.Artifact.Install.{valid_rel_path}
use eks_hybrid.Artifact.Frame.{
  At-install_file, At-install_tar_gz, Tracks-install_file, Tracks-install_tar_gz,
}
use eks_hybrid.Components.Download.{Binary, track, download_file_to, download_file_with_retries}
use eks_hybrid.Components.Kubelet
use eks_hybrid.Components.Kubelet.{unit_path}
use eks_hybrid.Components.Cni
use eks_hybrid.Components.Cni.{bin_path, tgz_path}
use eks_hybrid.Components.Binaries.{
  kubectl_binary, authenticator_binary, image_credential_provider_binary, install_kubectl,
  install_authenticator, install_image_credential_provider,
}

-- `P` holds on when a component is tracked or the source of containerd is set.
pub record IsKept (P : InstalledArtifacts → Type 0) : Type 0 where
  pub by_add : (name : String) (a b : InstalledArtifacts) → add name a ≡ ok b → P a → P b
  pub by_source : (s : String) (a : InstalledArtifacts) → P a → P (record a { containerd = s })

abbrev assign : InstalledArtifacts → Exec Unit
assign a v = (ok tt, record v { artifacts = a })

files-track : (r : Result InstalledArtifacts) (w : World) → (continue r assign w).1.files ≡ w.files
files-track (ok a) w = refl
files-track (err e) w = refl

Tracks-assign :
    {P : InstalledArtifacts → Type 0} (r : Result InstalledArtifacts) (w : World)
    → ((a : InstalledArtifacts) → r ≡ ok a → P a)
    → Tracks P w
    → Tracks P (continue r assign w).1
Tracks-assign (ok a) w k t = record { tracked = k a refl }
Tracks-assign (err e) w k t = t

module _ {q : String} {o : Option Bytes} where
  pub At-track : (name : String) → Keeps (At q o) (track name)
  unfolding track
  At-track name = record { at = λ w e. ap (λ f. f q) (files-track (add name w.artifacts) w) ∙ e }

pub Tracks-track :
    {P : InstalledArtifacts → Type 0} → IsKept P → (name : String) → Keeps (Tracks P) (track name)
unfolding track
Tracks-track k name = record {
  at = λ w t.
      Tracks-assign (add name w.artifacts) w (λ a e. k.by_add name w.artifacts a e t.tracked) t;
}

module _ (h : Host) {q : String} {o : Option Bytes} where
  At-download :
      (b : Binary) → under b.path q ≡ false → Keeps (At q o) (download_file_with_retries h b)
  unfolding download_file_with_retries download_file_to
  At-download b a = search (keeps_rules, at_rules, At-install_file) depth 9

  pub At-install_kubectl : under kubectl_binary.path q ≡ false → Keeps (At q o) (install_kubectl h)
  unfolding install_kubectl
  At-install_kubectl a = search (keeps_rules, At-download, At-track) depth 9

  pub At-install_authenticator :
      under authenticator_binary.path q ≡ false → Keeps (At q o) (install_authenticator h)
  unfolding install_authenticator
  At-install_authenticator a = search (keeps_rules, At-download, At-track) depth 9

  pub At-install_image_credential_provider :
      under image_credential_provider_binary.path q ≡ false
      → Keeps (At q o) (install_image_credential_provider h)
  unfolding install_image_credential_provider
  At-install_image_credential_provider a = search (keeps_rules, At-download, At-track) depth 9

  pub At-cni_install :
      under tgz_path q ≡ false
      → ((name : String) → valid_rel_path name ≡ true → under (h.join bin_path name) q ≡ false)
      → Keeps (At q o) (Cni.install h)
  unfolding Cni.install Cni.install_from_source Cni.download_file_to
  At-cni_install a apart =
      search (keeps_rules, at_rules, At-install_file, At-install_tar_gz, At-track) depth 9

  pub At-install_systemd_unit :
      (f : Bytes) → under unit_path q ≡ false → Keeps (At q o) (Kubelet.install_systemd_unit h f)
  unfolding Kubelet.install_systemd_unit
  At-install_systemd_unit f a = search (keeps_rules, At-install_file) depth 9

module _ (h : Host) {P : InstalledArtifacts → Type 0} (k : IsKept P) where
  pub Tracks-download : (b : Binary) → Keeps (Tracks P) (download_file_with_retries h b)
  unfolding download_file_with_retries download_file_to
  Tracks-download b = search (keeps_rules, tracks_rules, Tracks-install_file) depth 9

  pub Tracks-kubelet_install : (f : Bytes) → Keeps (Tracks P) (Kubelet.install h f)
  unfolding Kubelet.install Kubelet.install_systemd_unit
  Tracks-kubelet_install f =
      search (keeps_rules, Tracks-download, Tracks-install_file, Tracks-track k) depth 9

  pub Tracks-install_kubectl : Keeps (Tracks P) (install_kubectl h)
  unfolding install_kubectl
  Tracks-install_kubectl = search (keeps_rules, Tracks-download, Tracks-track k) depth 9

  pub Tracks-install_authenticator : Keeps (Tracks P) (install_authenticator h)
  unfolding install_authenticator
  Tracks-install_authenticator = search (keeps_rules, Tracks-download, Tracks-track k) depth 9

  pub Tracks-install_image_credential_provider :
      Keeps (Tracks P) (install_image_credential_provider h)
  unfolding install_image_credential_provider
  Tracks-install_image_credential_provider =
      search (keeps_rules, Tracks-download, Tracks-track k) depth 9

  pub Tracks-cni_install : Keeps (Tracks P) (Cni.install h)
  unfolding Cni.install Cni.install_from_source Cni.download_file_to
  Tracks-cni_install =
      search (keeps_rules, tracks_rules, Tracks-install_file, Tracks-install_tar_gz, Tracks-track k)
        depth 9
