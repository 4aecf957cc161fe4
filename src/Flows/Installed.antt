-- ===== src/Flows/Installed.antt =====
-- What a successful installation leaves on the machine.
use eks_hybrid.Base.{String, ◌≡◌, refl, Bool, true, false, Option, some, if◌then◌else◌, IsOk}
use eks_hybrid.Tracker.{InstalledArtifacts}
use eks_hybrid.Machine.{Bytes, Host, World, Exec, under}
use eks_hybrid.Machine.Triple.{Keeps, Triple, Triple-bind, Triple-adds, Keeps-×}
use eks_hybrid.Machine.Frame.{At, Tracks}
use eks_hybrid.Artifact.Install.{valid_rel_path}
use eks_hybrid.Artifact.Verified.{Any}
use eks_hybrid.Components.Verified.{Holds}
use eks_hybrid.Components.Cni
use eks_hybrid.Components.Cni.{bin_path}
use eks_hybrid.Components.Kubelet.{unit_path}
use eks_hybrid.Components.Binaries.{
  install_kubectl, install_authenticator, install_image_credential_provider,
}
use eks_hybrid.Components.Frame.{
  IsKept, At-install_kubectl, At-install_authenticator, At-install_image_credential_provider,
  At-cni_install, Tracks-install_kubectl, Tracks-install_authenticator,
  Tracks-install_image_credential_provider, Tracks-cni_install,
}
use eks_hybrid.Components.Eks.{
  Keeps-Holds, HasKubelet, HasKubectl, HasCniPlugins, HasImageCredentialProvider,
  HasIamAuthenticator, kubelet-IsKept, kubectl-IsKept, cni_plugins-IsKept,
  image_credential_provider-IsKept, iam_authenticator-IsKept, kubelet_installed, kubectl_installed,
  authenticator_installed, image_credential_provider_installed, cni_installed,
}
use eks_hybrid.Flows.Store.{save}
use eks_hybrid.Flows.Saved.{Saved, At-save, Tracks-save, save-Saved}
use eks_hybrid.Flows.Install.{Installer, install_eks_artifacts, install_rest, install_all, run}

-- filepath.Join of the directory of the CNI plugins with a name that is accepted stays in /opt/cni.
abbrev pub JoinsInside : Host → Type 0
JoinsInside h =
    (name q : String)
    → valid_rel_path name ≡ true
    → under "/opt/cni" q ≡ false
    → under (h.join bin_path name) q ≡ false

module _ (h : Host) (f : Bytes) where
  abbrev WithKubelet : World → Type 0
  WithKubelet w =
      (Holds h "kubelet" "/usr/bin/kubelet" w × At unit_path (some f) w) × Tracks HasKubelet w

  abbrev WithKubectl : World → Type 0
  WithKubectl w =
      WithKubelet w × (Holds h "kubectl" "/usr/local/bin/kubectl" w × Tracks HasKubectl w)

  abbrev WithCni : World → Type 0
  WithCni w = WithKubectl w × Tracks HasCniPlugins w

  abbrev WithImageCredentialProvider : World → Type 0
  WithImageCredentialProvider w =
      WithCni w
      × (Holds h "ecr-credential-provider"
            "/etc/eks/image-credential-provider/ecr-credential-provider" w
          × Tracks HasImageCredentialProvider w)

  -- Each of the four programs is verified, the unit file is in place and all five artifacts are
  -- tracked.
  abbrev pub Installed : World → Type 0
  Installed w =
      WithImageCredentialProvider w
      × (Holds h "aws-iam-authenticator" "/usr/local/bin/aws-iam-authenticator" w
          × Tracks HasIamAuthenticator w)

  module _ {m : Exec Unit}
      (tracks : (P : InstalledArtifacts → Type 0) → IsKept P → Keeps (Tracks P) m) where
    Keeps-kubelet :
        ((o : Option Bytes) → Keeps (At "/usr/bin/kubelet" o) m)
        → ((o : Option Bytes) → Keeps (At unit_path o) m)
        → Keeps WithKubelet m
    Keeps-kubelet a b =
        Keeps-× (Keeps-× (Keeps-Holds h _ _ a) (b (some f))) (tracks _ kubelet-IsKept)

    Keeps-kubectl :
        Keeps WithKubelet m
        → ((o : Option Bytes) → Keeps (At "/usr/local/bin/kubectl" o) m)
        → Keeps WithKubectl m
    Keeps-kubectl k a = Keeps-× k (Keeps-× (Keeps-Holds h _ _ a) (tracks _ kubectl-IsKept))

    Keeps-cni : Keeps WithKubectl m → Keeps WithCni m
    Keeps-cni k = Keeps-× k (tracks _ cni_plugins-IsKept)

    Keeps-image_credential_provider :
        Keeps WithCni m
        → ((o : Option Bytes)
            → Keeps (At "/etc/eks/image-credential-provider/ecr-credential-provider" o) m)
        → Keeps WithImageCredentialProvider m
    Keeps-image_credential_provider k a =
        Keeps-× k (Keeps-× (Keeps-Holds h _ _ a) (tracks _ image_credential_provider-IsKept))

    Keeps-Installed :
        Keeps WithImageCredentialProvider m
        → ((o : Option Bytes) → Keeps (At "/usr/local/bin/aws-iam-authenticator" o) m)
        → Keeps Installed m
    Keeps-Installed k a =
        Keeps-× k (Keeps-× (Keeps-Holds h _ _ a) (tracks _ iam_authenticator-IsKept))

  kubectl_step : Triple WithKubelet (install_kubectl h) WithKubectl
  unfolding under
  kubectl_step =
      Triple-adds (kubectl_installed h) (λ w _. tt)
        (Keeps-kubelet (λ P. Tracks-install_kubectl h) (λ o. At-install_kubectl h refl)
          (λ o. At-install_kubectl h refl))

  authenticator_step : Triple WithImageCredentialProvider (install_authenticator h) Installed
  unfolding under
  authenticator_step =
      Triple-adds (authenticator_installed h) (λ w _. tt)
        (Keeps-image_credential_provider t
          (Keeps-cni t (
            Keeps-kubectl t
              (Keeps-kubelet t (λ o. At-install_authenticator h refl)
                (λ o. At-install_authenticator h refl))
              (λ o. At-install_authenticator h refl)))
          (λ o. At-install_authenticator h refl))
    where
      t : (P : InstalledArtifacts → Type 0) → IsKept P → Keeps (Tracks P) (install_authenticator h)
      t P = Tracks-install_authenticator h

  image_credential_provider_step :
      Triple WithCni (install_image_credential_provider h) WithImageCredentialProvider
  unfolding under
  image_credential_provider_step =
      Triple-adds (image_credential_provider_installed h) (λ w _. tt)
        (Keeps-cni t (
          Keeps-kubectl t
            (Keeps-kubelet t (λ o. At-install_image_credential_provider h refl)
              (λ o. At-install_image_credential_provider h refl))
            (λ o. At-install_image_credential_provider h refl)))
    where
      t :
          (P : InstalledArtifacts → Type 0)
          → IsKept P
          → Keeps (Tracks P) (install_image_credential_provider h)
      t P = Tracks-install_image_credential_provider h

  saves : Keeps Installed (save h)
  unfolding under
  saves =
      Keeps-Installed t
        (Keeps-image_credential_provider t
          (Keeps-cni t (
            Keeps-kubectl t (Keeps-kubelet t (λ o. At-save h refl) (λ o. At-save h refl))
              (λ o. At-save h refl)))
          (λ o. At-save h refl))
        (λ o. At-save h refl)
    where
      t : (P : InstalledArtifacts → Type 0) → IsKept P → Keeps (Tracks P) (save h)
      t P = Tracks-save h

  module _ (joins : JoinsInside h) where
    cni_step : Triple WithKubectl (Cni.install h) WithCni
    unfolding under
    cni_step =
        Triple-adds (cni_installed h) (λ w _. tt)
          (Keeps-kubectl t (Keeps-kubelet t (λ o. at refl refl) (λ o. at refl refl))
            (λ o. at refl refl))
      where
        t : (P : InstalledArtifacts → Type 0) → IsKept P → Keeps (Tracks P) (Cni.install h)
        t P = Tracks-cni_install h

        at :
            {q : String} {o : Option Bytes}
            → under Cni.tgz_path q ≡ false
            → under "/opt/cni" q ≡ false
            → Keeps (At q o) (Cni.install h)
        at a b = At-cni_install h a (λ name v. joins name _ v b)

module _ (h : Host) (i : Installer) (joins : JoinsInside h) where
  eks_artifacts-Installed : Triple Any (install_eks_artifacts h i) (Installed h i.unit_file)
  unfolding install_eks_artifacts
  eks_artifacts-Installed = Triple-bind _ _ (kubelet_installed h i.unit_file) λ _.
      Triple-bind _ _ (kubectl_step h i.unit_file) λ _.
        Triple-bind _ _ (cni_step h i.unit_file joins) λ _.
          Triple-bind _ _ (image_credential_provider_step h i.unit_file)
            λ _. authenticator_step h i.unit_file

  abbrev Done : World → Type 0
  Done w = Installed h i.unit_file w × Saved h w

  rest_installed : Triple Any (install_rest h i) Done
  unfolding install_rest
  rest_installed =
      Triple-bind {R = Any} _ _ (record { at = λ w p o. tt })
        λ _.
          Triple-bind _ _ eks_artifacts-Installed
            λ _. Triple-adds (save-Saved h) (λ w _. tt) (saves h i.unit_file)

  all_installed : Triple Any (install_all h i) Done
  unfolding install_all
  all_installed =
      Triple-bind {R = Any} _ _ (record { at = λ w p o. tt })
        λ _. Triple-bind {R = Any} _ _ (record { at = λ w p o. tt }) λ _. rest_installed

  run-Installed_triple : Triple Any (run h i) Done
  unfolding run
  run-Installed_triple =
      Triple-bind {R = Any} _ _ (record { at = λ w p o. tt }) (λ _. either i.private_mode)
    where
      either : (b : Bool) → Triple Any (if b then install_rest h i else install_all h i) Done
      either true = rest_installed
      either false = all_installed

  -- When joined archive names stay in /opt/cni and the installer's run succeeds, on any machine and
  -- from any state, then: each of kubelet, kubectl, aws-iam-authenticator and ecr-credential-provider
  -- holds what a download of it delivers at some point, with the digest published with it; kubelet's
  -- unit file holds the unit; these four and the CNI plugins are tracked; and the tracker's file holds
  -- the tracker, encoded.
  pub run-Installed :
      (w : World)
      → IsOk (run h i w).0
      → Installed h i.unit_file (run h i w).1 × Saved h (run h i w).1
  run-Installed w o = run-Installed_triple.at w tt o
