-- ===== src/Components/Eks.antt =====
-- What holds after the installation of each of the five EKS artifacts has succeeded.
use eks_hybrid.Base.{String, ◌≡◌, refl, true, false, Option, some, arith}
use eks_hybrid.Tracker.{InstalledArtifacts, add}
use eks_hybrid.Machine.{Bytes, Host, Exec, ◌>>=◌, wrapping, under}
use eks_hybrid.Machine.Triple.{
  Keeps, Triple, Triple-bind, Triple-wrapping, Triple-reporting, Triple-adds, Keeps-×,
  Keeps-wrapping,
}
use eks_hybrid.Machine.Frame.{At, Tracks}
use eks_hybrid.Artifact.Frame.{At-install_file}
use eks_hybrid.Artifact.Verified.{Any, files-install_file}
use eks_hybrid.Components.Download.{track}
use eks_hybrid.Components.Verified.{Holds, download_file_with_retries-Holds}
use eks_hybrid.Components.Frame.{IsKept, At-track}
use eks_hybrid.Components.Kubelet
use eks_hybrid.Components.Kubelet.{kubelet_binary, unit_path}
use eks_hybrid.Components.Cni
use eks_hybrid.Components.Binaries.{
  kubectl_binary, authenticator_binary, image_credential_provider_binary, install_kubectl,
  install_authenticator, install_image_credential_provider,
}

pub Keeps-Holds :
    (h : Host) (name p : String) {m : Exec Unit}
    → ((o : Option Bytes) → Keeps (At p o) m)
    → Keeps (Holds h name p) m
Keeps-Holds h name p k = record {
  at = λ w (src, t, f, i, v). (src, t, f, (k (some src.contents)).at w i, v);
}

abbrev pub HasKubelet : InstalledArtifacts → Type 0
HasKubelet a = a.kubelet ≡ true

abbrev pub HasKubectl : InstalledArtifacts → Type 0
HasKubectl a = a.kubectl ≡ true

abbrev pub HasCniPlugins : InstalledArtifacts → Type 0
HasCniPlugins a = a.cni_plugins ≡ true

abbrev pub HasImageCredentialProvider : InstalledArtifacts → Type 0
HasImageCredentialProvider a = a.image_credential_provider ≡ true

abbrev pub HasIamAuthenticator : InstalledArtifacts → Type 0
HasIamAuthenticator a = a.iam_authenticator ≡ true

pub kubelet-IsKept : IsKept HasKubelet
unfolding add
kubelet-IsKept = record { by_add = λ name a b e p. ground arith; by_source = λ s a p. p }

pub kubectl-IsKept : IsKept HasKubectl
unfolding add
kubectl-IsKept = record { by_add = λ name a b e p. ground arith; by_source = λ s a p. p }

pub cni_plugins-IsKept : IsKept HasCniPlugins
unfolding add
cni_plugins-IsKept = record { by_add = λ name a b e p. ground arith; by_source = λ s a p. p }

pub image_credential_provider-IsKept : IsKept HasImageCredentialProvider
unfolding add
image_credential_provider-IsKept = record {
  by_add = λ name a b e p. ground arith;
  by_source = λ s a p. p;
}

pub iam_authenticator-IsKept : IsKept HasIamAuthenticator
unfolding add
iam_authenticator-IsKept = record { by_add = λ name a b e p. ground arith; by_source = λ s a p. p }

-- a step that leaves a verified file, followed by its entry in the tracker
Holds-track :
    (h : Host) (n p s name : String) {P : InstalledArtifacts → Type 0} {m : Exec Unit}
    → Triple Any m (Holds h n p)
    → Triple Any (track name) (Tracks P)
    → Triple Any (m >>= λ _. wrapping s (track name)) (λ w. Holds h n p w × Tracks P w)
Holds-track h n p s name d t = Triple-bind _ _ d λ _.
    Triple-adds (Triple-wrapping s _ t) (λ w _. tt)
      (Keeps-wrapping s _ (Keeps-Holds h n p (λ o. At-track name)))

track-kubelet : Triple Any (track "kubelet") (Tracks HasKubelet)
unfolding track add
track-kubelet = record { at = λ w _ o. record { tracked = refl } }

track-kubectl : Triple Any (track "kubectl") (Tracks HasKubectl)
unfolding track add
track-kubectl = record { at = λ w _ o. record { tracked = refl } }

track-cni_plugins : Triple Any (track "cniPlugins") (Tracks HasCniPlugins)
unfolding track add
track-cni_plugins = record { at = λ w _ o. record { tracked = refl } }

track-image_credential_provider :
    Triple Any (track "imageCredentialProvider") (Tracks HasImageCredentialProvider)
unfolding track add
track-image_credential_provider = record { at = λ w _ o. record { tracked = refl } }

track-iam_authenticator : Triple Any (track "iamAuthenticator") (Tracks HasIamAuthenticator)
unfolding track add
track-iam_authenticator = record { at = λ w _ o. record { tracked = refl } }

module _ (h : Host) where
  pub kubectl_installed :
      Triple Any
        (install_kubectl h)
        (λ w. Holds h "kubectl" "/usr/local/bin/kubectl" w × Tracks HasKubectl w)
  unfolding install_kubectl
  kubectl_installed =
      Holds-track h _ _ _ _
        (Triple-wrapping _ _
          (Triple-wrapping _ _ (download_file_with_retries-Holds h kubectl_binary)))
        track-kubectl

  pub authenticator_installed : Triple Any (install_authenticator h) (λ w.
      Holds h "aws-iam-authenticator" "/usr/local/bin/aws-iam-authenticator" w
      × Tracks HasIamAuthenticator w)
  unfolding install_authenticator
  authenticator_installed =
      Holds-track h _ _ _ _
        (Triple-wrapping _ _
          (Triple-wrapping _ _ (download_file_with_retries-Holds h authenticator_binary)))
        track-iam_authenticator

  pub image_credential_provider_installed : Triple Any (install_image_credential_provider h) (λ w.
      Holds h "ecr-credential-provider" "/etc/eks/image-credential-provider/ecr-credential-provider"
        w
      × Tracks HasImageCredentialProvider w)
  unfolding install_image_credential_provider
  image_credential_provider_installed =
      Holds-track h _ _ _ _
        (Triple-wrapping _ _ (
          Triple-wrapping _ _
            (download_file_with_retries-Holds h image_credential_provider_binary)))
        track-image_credential_provider

  pub cni_installed : Triple Any (Cni.install h) (Tracks HasCniPlugins)
  unfolding Cni.install
  cni_installed =
      Triple-bind _ _ (record { at = λ w p o. tt }) (λ _. Triple-wrapping _ _ track-cni_plugins)

  apart_unit : under unit_path "/usr/bin/kubelet" ≡ false
  unfolding under
  apart_unit = refl

  -- the steps of the installation up to the entry in the tracker
  unit_written :
      (f : Bytes)
      → Triple
          (Holds h "kubelet" "/usr/bin/kubelet")
          (wrapping "installing systemd unit" (Kubelet.install_systemd_unit h f))
          (λ w. Holds h "kubelet" "/usr/bin/kubelet" w × At unit_path (some f) w)
  unfolding Kubelet.install_systemd_unit
  unit_written f = Triple-wrapping _ _ (
      Triple-reporting _ _ (
        Triple-adds (files-install_file h unit_path f) (λ w _. tt)
          (Keeps-Holds h _ _ (λ o. At-install_file h unit_path f apart_unit))))

  pub kubelet_installed :
      (f : Bytes)
      → Triple Any (Kubelet.install h f) (λ w.
        (Holds h "kubelet" "/usr/bin/kubelet" w × At unit_path (some f) w) × Tracks HasKubelet w)
  unfolding Kubelet.install
  kubelet_installed f =
      Triple-bind _ _ (Triple-wrapping _ _ (download_file_with_retries-Holds h kubelet_binary)) λ _.
        Triple-bind _ _ (unit_written f) λ _.
          Triple-adds (Triple-wrapping _ _ track-kubelet) (λ w _. tt)
            (Keeps-wrapping _ _
              (Keeps-× (Keeps-Holds h _ _ (λ o. At-track "kubelet")) (At-track "kubelet")))
