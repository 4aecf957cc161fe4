-- ===== src/Flows/Removed.antt =====
-- What a successful uninstallation has removed.
use eks_hybrid.Base.{
  String, str_eq, ◌≡◌, refl, inl, inr, Bool, true, false, not, ◌++◌, map, none, List, [], ◌∷◌,
  not_exist, Result, ok, err, IsOk,
}
use mathlib.Core.List.{Memᴰ}
use mathlib.Core.List.Memᴰ.{head, tail, append_left, append_cases}
use eks_hybrid.Tracker.{InstalledArtifacts, source_none}
use eks_hybrid.Machine.{Host, World, Exec, ◌>>=◌, when, under, os_remove_all}
use eks_hybrid.Machine.Triple.{
  Triple, Keeps, Triple-Keeps, Triple-bind, Keeps-bind, Keeps-when, keeps_rules,
}
use eks_hybrid.Machine.Frame.{At}
use eks_hybrid.Machine.Absent.{Absent-os_remove_all, os_remove_all-Absent, absent_rules}
use eks_hybrid.Artifact.Verified.{Any}
use eks_hybrid.Components.Gather.{run_all}
use eks_hybrid.Components.Gathered.{run_all-first, run_all-later}
use eks_hybrid.Components.Binaries.{
  image_credential_provider_dir, uninstall_kubectl, uninstall_authenticator,
  uninstall_image_credential_provider,
}
use eks_hybrid.Components.Kubelet
use eks_hybrid.Components.Kubelet.{paths_to_remove, resolved_errors, resolved_paths}
use eks_hybrid.Components.Cni
use eks_hybrid.Components.IamRolesAnywhere
use eks_hybrid.Components.Iptables
use eks_hybrid.Flows.Absent.{
  Absent-paths, Absent-ssm_daemon, Absent-containerd_daemon, Absent-signing_helper, Absent-binaries,
  Absent-clean_up,
}
use eks_hybrid.Flows.Store.{tracker_dir, clear}
use eks_hybrid.Flows.Uninstall.{
  Uninstaller, uninstall_kubelet_daemon, uninstall_ssm_daemon, uninstall_containerd_daemon,
  stop_signing_helper, uninstall_daemons, uninstall_binaries, clean_up, run,
}

when-true :
    {P Q : World → Type 0} (b : Bool) (m : Exec Unit)
    → b ≡ true
    → Triple P m Q
    → Triple P (when b m) Q
when-true true m e t = t
when-true false m e t = cc

Any-state : {A : Type 0} (m : Exec A) → Keeps Any m
Any-state m = record { at = λ w p. tt }

module _ (h : Host) (u : Uninstaller) (q : String) where
  abbrev Gone : World → Type 0
  Gone = At q none

  path_removed :
      (p : String) (ps : List String)
      → Memᴰ p ps
      → under p q ≡ true
      → Triple Any (run_all (map (os_remove_all h) ps)) Gone
  path_removed p [] m c = elim m [ ]
  path_removed p (x ∷ ps) (head e) c =
      run_all-first _ _ (os_remove_all-Absent h x (rw' e c)) (Absent-paths h q ps)
    where
      rw' : p ≡ x → under p q ≡ true → under x q ≡ true
      rw' e c = rw (← e) c
  path_removed p (x ∷ ps) (tail m) c = run_all-later _ _ (Any-state _) (path_removed p ps m c)

  kubelet_removed :
      (p : String)
      → Memᴰ p paths_to_remove
      → under p q ≡ true
      → Triple Any (Kubelet.uninstall h) Gone
  unfolding Kubelet.uninstall
  kubelet_removed p m c = Triple-bind {R = Any} _ _ (Triple-Keeps (Any-state _)) after_link
    where
      after_link :
          (r : Result String)
          → Triple Any
              (run_all
                (resolved_errors r ++ map (os_remove_all h) (paths_to_remove ++ resolved_paths r)))
              Gone
      after_link (ok l) =
          path_removed p (paths_to_remove ++ resolved_paths (ok l)) (append_left _ m) c
      after_link (err not_exist) = path_removed p (paths_to_remove ++ []) (append_left _ m) c
      after_link (err e) =
          run_all-later _ _ (Any-state _)
            (path_removed p (paths_to_remove ++ []) (append_left _ m) c)

  Absent-other_daemons : Keeps Gone (
      when u.artifacts.ssm (uninstall_ssm_daemon h u) >>= λ _.
      when u.artifacts.iam_roles_anywhere (stop_signing_helper h u) >>= λ _.
      when (not (str_eq u.artifacts.containerd source_none)) (uninstall_containerd_daemon h u))
  Absent-other_daemons = Keeps-bind _ _ (Keeps-when _ _ (Absent-ssm_daemon h q u)) λ _.
      Keeps-bind _ _ (Keeps-when _ _ (Absent-signing_helper h q u))
        λ _. Keeps-when _ _ (Absent-containerd_daemon h q u)

  Absent-from_clean_up : Keeps Gone (clean_up h u >>= λ _. clear h)
  unfolding clear
  Absent-from_clean_up =
      Keeps-bind _ _ (Absent-clean_up h q u) λ _. Absent-os_remove_all h tracker_dir

  -- what is gone after the daemons stays so
  daemons_first : Triple Any (uninstall_daemons h u) Gone → Triple Any (run h u) Gone
  unfolding run
  daemons_first t = Triple-bind _ _ t λ _.
      Triple-bind _ _ (Triple-Keeps (Absent-binaries h q u)) λ _. Triple-Keeps Absent-from_clean_up

  binaries_then : Triple Any (uninstall_binaries h u) Gone → Triple Any (run h u) Gone
  unfolding run
  binaries_then t =
      Triple-bind {R = Any} _ _ (Triple-Keeps (Any-state _))
        λ _. Triple-bind _ _ t λ _. Triple-Keeps Absent-from_clean_up

  pub run-kubelet :
      (p : String)
      → u.artifacts.kubelet ≡ true
      → Memᴰ p paths_to_remove
      → under p q ≡ true
      → Triple Any (run h u) Gone
  unfolding uninstall_daemons uninstall_kubelet_daemon
  run-kubelet p e m c = daemons_first (
      Triple-bind _ _
        (when-true _ _ e
          (Triple-bind {R = Any} _ _ (Triple-Keeps (Any-state _)) λ _. kubelet_removed p m c))
        λ _. Triple-Keeps Absent-other_daemons)

  skip :
      {Q : World → Type 0} (m : Exec Unit) {n : Exec Unit}
      → Triple Any n Q
      → Triple Any (m >>= λ _. n) Q
  skip m t = Triple-bind {R = Any} _ _ (Triple-Keeps (Any-state _)) (λ _. t)

  remove_then :
      (p : String) (b : Bool) {n : Exec Unit}
      → b ≡ true
      → under p q ≡ true
      → Keeps Gone n
      → Triple Any (when b (os_remove_all h p) >>= λ _. n) Gone
  remove_then p b e c k =
      Triple-bind _ _ (when-true b _ e (os_remove_all-Absent h p c)) (λ _. Triple-Keeps k)

  pub run-kubectl :
      u.artifacts.kubectl ≡ true
      → under "/usr/local/bin/kubectl" q ≡ true
      → Triple Any (run h u) Gone
  unfolding uninstall_binaries uninstall_kubectl uninstall_authenticator
      uninstall_image_credential_provider Cni.uninstall IamRolesAnywhere.uninstall
      Iptables.uninstall
  run-kubectl e c =
      binaries_then (remove_then _ _ e c (search (keeps_rules, absent_rules) depth 12))

  pub run-cni :
      u.artifacts.cni_plugins ≡ true → under Cni.root_dir q ≡ true → Triple Any (run h u) Gone
  unfolding uninstall_binaries uninstall_kubectl uninstall_authenticator
      uninstall_image_credential_provider Cni.uninstall IamRolesAnywhere.uninstall
      Iptables.uninstall
  run-cni e c =
      binaries_then (skip _ (remove_then _ _ e c (search (keeps_rules, absent_rules) depth 12)))

  pub run-authenticator :
      u.artifacts.iam_authenticator ≡ true
      → under "/usr/local/bin/aws-iam-authenticator" q ≡ true
      → Triple Any (run h u) Gone
  unfolding uninstall_binaries uninstall_kubectl uninstall_authenticator
      uninstall_image_credential_provider Cni.uninstall IamRolesAnywhere.uninstall
      Iptables.uninstall
  run-authenticator e c =
      binaries_then
        (skip _ (skip _ (remove_then _ _ e c (search (keeps_rules, absent_rules) depth 12))))

  pub run-image_credential_provider :
      u.artifacts.image_credential_provider ≡ true
      → under image_credential_provider_dir q ≡ true
      → Triple Any (run h u) Gone
  unfolding uninstall_binaries uninstall_image_credential_provider Iptables.uninstall
  run-image_credential_provider e c = binaries_then (
      skip _ (
        skip _
          (skip _ (skip _ (remove_then _ _ e c (search (keeps_rules, absent_rules) depth 12))))))

  pub run-eks_directory : under "/etc/eks" q ≡ true → Triple Any (run h u) Gone
  unfolding run clean_up clear
  run-eks_directory c = skip _ (
      skip _ (
        Triple-bind _ _
          (Triple-bind {R = Any} _ _ (Triple-Keeps (Any-state _)) λ _. os_remove_all-Absent h _ c)
          λ _. Triple-Keeps (Absent-os_remove_all h tracker_dir)))

  pub run-tracker : under tracker_dir q ≡ true → Triple Any (run h u) Gone
  unfolding run clear
  run-tracker c = skip _ (skip _ (skip _ (os_remove_all-Absent h _ c)))

-- the paths that an uninstallation answers for, by what was tracked
abbrev pub paths_if : Bool → List String → List String
paths_if true ps = ps
paths_if false ps = []

abbrev pub owned_paths : InstalledArtifacts → List String
owned_paths a =
    tracker_dir
    ∷ "/etc/eks"
    ∷ (paths_if a.kubelet paths_to_remove
        ++ (paths_if a.kubectl ("/usr/local/bin/kubectl" ∷ [])
            ++ (paths_if a.cni_plugins (Cni.root_dir ∷ [])
                ++ (paths_if a.iam_authenticator ("/usr/local/bin/aws-iam-authenticator" ∷ [])
                    ++ paths_if a.image_credential_provider (image_credential_provider_dir ∷ [])))))

paths_if-Memᴰ :
    {p : String} (b : Bool) (ps : List String) → Memᴰ p (paths_if b ps) → b ≡ true × Memᴰ p ps
paths_if-Memᴰ true ps m = (refl, m)
paths_if-Memᴰ false ps m = elim m [ ]

only : {p x : String} → Memᴰ p (x ∷ []) → p ≡ x
only (head e) = e
only (tail m) = elim m [ ]

covers : (q : String) {p x : String} → p ≡ x → under p q ≡ true → under x q ≡ true
covers q e c = rw (← e) c

run-Removed_triple :
    (h : Host) (u : Uninstaller) (p q : String)
    → Memᴰ p (owned_paths u.artifacts)
    → under p q ≡ true
    → Triple Any (run h u) (At q none)
run-Removed_triple h u p q (head e) c = run-tracker h u q (covers q e c)
run-Removed_triple h u p q (tail (head e)) c = run-eks_directory h u q (covers q e c)
run-Removed_triple h u p q (tail (tail m)) c =
    let a = u.artifacts in
    elim (append_cases (paths_if a.kubelet paths_to_remove) m) [
      | inl i ↦ let (e, j) = paths_if-Memᴰ a.kubelet _ i in run-kubelet h u q p e j c
      | inr i ↦ elim (append_cases (paths_if a.kubectl _) i) [
        | inl j ↦
            let (e, k) = paths_if-Memᴰ a.kubectl _ j in run-kubectl h u q e (covers q (only k) c)
        | inr j ↦ elim (append_cases (paths_if a.cni_plugins _) j) [
          | inl k ↦
              let (e, l) = paths_if-Memᴰ a.cni_plugins _ k in run-cni h u q e (covers q (only l) c)
          | inr k ↦ elim (append_cases (paths_if a.iam_authenticator _) k) [
            | inl l ↦
                let (e, n) = paths_if-Memᴰ a.iam_authenticator _ l in
                run-authenticator h u q e (covers q (only n) c)
            | inr l ↦
                let (e, n) = paths_if-Memᴰ a.image_credential_provider _ l in
                run-image_credential_provider h u q e (covers q (only n) c)
          ]
        ]
      ]
    ]

-- When an uninstallation succeeds, no file is left at or below the tracker's directory and /etc/eks,
-- nor at or below the paths of kubelet, kubectl, the CNI plugins, the authenticator and the image
-- credential provider, each where it was tracked.
pub run-Removed :
    (h : Host) (u : Uninstaller) (p q : String)
    → Memᴰ p (owned_paths u.artifacts)
    → under p q ≡ true
    → (w : World) → IsOk (run h u w).0
    → (run h u w).1.files q ≡ none
run-Removed h u p q m c w o = (run-Removed_triple h u p q m c).at w tt o
