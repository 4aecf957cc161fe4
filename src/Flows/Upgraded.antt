-- ===== src/Flows/Upgraded.antt =====
-- What a successful upgrade of the EKS artifacts leaves on the machine.
use eks_hybrid.Base.{String, ◌≡◌, refl, true, false, Option, some, List, ok, IsOk}
use eks_hybrid.Machine.{Bytes, Call, Source, Host, World, Exec, under}
use eks_hybrid.Machine.Triple.{
  Triple, Keeps, Triple-bind, Triple-bind_value, Triple-wrapping, Triple-adds, Triple-Keeps,
  Keeps-×, keeps_rules,
}
use eks_hybrid.Machine.Frame.{At, at_rules}
use eks_hybrid.Artifact.Install.{valid_rel_path}
use eks_hybrid.Artifact.Frame.{At-install_file, At-install_tar_gz, At-upgrade}
use eks_hybrid.Artifact.Verified.{Any}
use eks_hybrid.Artifact.Upgraded.{HasDigest, upgrade-HasDigest}
use eks_hybrid.Components.Download.{Binary, upgrade_binary}
use eks_hybrid.Components.Verified.{Keeps-Any, fetched}
use eks_hybrid.Components.Kubelet
use eks_hybrid.Components.Kubelet.{kubelet_binary}
use eks_hybrid.Components.Cni
use eks_hybrid.Components.Cni.{tgz_path}
use eks_hybrid.Components.Binaries.{
  kubectl_binary, authenticator_binary, image_credential_provider_binary, upgrade_kubectl,
  upgrade_authenticator, upgrade_image_credential_provider,
}
use eks_hybrid.Flows.Installed.{JoinsInside}
use eks_hybrid.Flows.Upgrade.{Upgrader, upgrade_eks_artifacts}

module _ (h : Host) where
  -- The file has the digest published with what a download of the artifact delivers after some calls.
  abbrev pub Current : Binary → World → Type 0
  Current b w =
      (src : Source) × (t : List Call) × (h.fetch_source t b.name ≡ ok src
        × HasDigest h b.path src.expected w)

  Keeps-Current :
      (b : Binary) {m : Exec Unit}
      → ((o : Option Bytes) → Keeps (At b.path o) m)
      → Keeps (Current b) m
  Keeps-Current b k = record {
    at = λ w (src, t, (f, (c, (i, d)))). (src, t, (f, (c, ((k (some c)).at w i, d))));
  }

  upgrade_binary-Current : (b : Binary) → Triple Any (upgrade_binary h b) (Current b)
  unfolding upgrade_binary
  upgrade_binary-Current b = Triple-bind_value _ _ (Keeps-Any h _) λ w src e. record {
    at = λ v _ o.
        (src, w.trace, (fetched h _ b.name w src e, upgrade-HasDigest h b.label b.path src v o));
  }

  At-upgrade_binary :
      {q : String} {o : Option Bytes} (b : Binary)
      → under b.path q ≡ false
      → Keeps (At q o) (upgrade_binary h b)
  unfolding upgrade_binary
  At-upgrade_binary b a = search (keeps_rules, at_rules, At-upgrade) depth 9

  At-cni_upgrade :
      {q : String} {o : Option Bytes}
      → under tgz_path q ≡ false
      → ((name : String) → valid_rel_path name ≡ true → under (h.join Cni.bin_path name) q ≡ false)
      → Keeps (At q o) (Cni.upgrade h)
  unfolding Cni.upgrade Cni.install_from_source Cni.download_file_to
  At-cni_upgrade a apart =
      search (keeps_rules, at_rules, At-install_file, At-install_tar_gz) depth 9

  abbrev TwoCurrent : World → Type 0
  TwoCurrent w = Current kubelet_binary w × Current kubectl_binary w

  abbrev ThreeCurrent : World → Type 0
  ThreeCurrent w = TwoCurrent w × Current image_credential_provider_binary w

  abbrev pub AllCurrent : World → Type 0
  AllCurrent w = ThreeCurrent w × Current authenticator_binary w

  kubectl_step : Triple (Current kubelet_binary) (upgrade_kubectl h) TwoCurrent
  unfolding upgrade_kubectl under
  kubectl_step =
      Triple-adds (upgrade_binary-Current kubectl_binary) (λ w _. tt)
        (Keeps-Current kubelet_binary (λ o. At-upgrade_binary kubectl_binary refl))

  image_credential_provider_step :
      Triple TwoCurrent (upgrade_image_credential_provider h) ThreeCurrent
  unfolding upgrade_image_credential_provider under
  image_credential_provider_step =
      let b = image_credential_provider_binary in
      Triple-adds (upgrade_binary-Current b) (λ w _. tt)
        (Keeps-× (Keeps-Current kubelet_binary (λ o. At-upgrade_binary b refl))
          (Keeps-Current kubectl_binary (λ o. At-upgrade_binary b refl)))

  authenticator_step : Triple ThreeCurrent (upgrade_authenticator h) AllCurrent
  unfolding upgrade_authenticator under
  authenticator_step =
      let b = authenticator_binary in
      Triple-adds (upgrade_binary-Current b) (λ w _. tt)
        (Keeps-×
          (Keeps-× (Keeps-Current kubelet_binary (λ o. At-upgrade_binary b refl))
            (Keeps-Current kubectl_binary (λ o. At-upgrade_binary b refl)))
          (Keeps-Current image_credential_provider_binary (λ o. At-upgrade_binary b refl)))

  cni_keeps : JoinsInside h → Keeps AllCurrent (Cni.upgrade h)
  unfolding under
  cni_keeps joins =
      Keeps-×
        (Keeps-×
          (Keeps-× (Keeps-Current kubelet_binary (λ o. at refl refl))
            (Keeps-Current kubectl_binary (λ o. at refl refl)))
          (Keeps-Current image_credential_provider_binary (λ o. at refl refl)))
        (Keeps-Current authenticator_binary (λ o. at refl refl))
    where
      at :
          {q : String} {o : Option Bytes}
          → under tgz_path q ≡ false
          → under "/opt/cni" q ≡ false
          → Keeps (At q o) (Cni.upgrade h)
      at a b = At-cni_upgrade a (λ name v. joins name _ v b)

  upgrade_triple :
      JoinsInside h → (u : Upgrader) → Triple Any (upgrade_eks_artifacts h u) AllCurrent
  unfolding upgrade_eks_artifacts Kubelet.upgrade
  upgrade_triple joins u =
      Triple-bind _ _ (Triple-wrapping _ _ (upgrade_binary-Current kubelet_binary)) λ _.
        Triple-bind _ _ kubectl_step λ _.
          Triple-bind _ _ image_credential_provider_step
            λ _. Triple-bind _ _ authenticator_step λ _. Triple-Keeps (cni_keeps joins)

  -- When joined archive names stay in /opt/cni and the upgrade of the EKS artifacts succeeds, each of
  -- kubelet, kubectl, ecr-credential-provider and aws-iam-authenticator has the digest that was
  -- published with a download of it at some point.
  pub upgrade_eks_artifacts-AllCurrent :
      JoinsInside h
      → (u : Upgrader) (w : World) → IsOk (upgrade_eks_artifacts h u w).0
      → AllCurrent (upgrade_eks_artifacts h u w).1
  upgrade_eks_artifacts-AllCurrent joins u w o = (upgrade_triple joins u).at w tt o
