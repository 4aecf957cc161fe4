-- ===== src/Node/Skew.antt =====
-- internal/node/hybrid/versionskew_validator.go. The parser of semantic versions is a parameter.
use eks_hybrid.Base.{
  ℕ, ◌+◌, ◌-◌, ◌^◌, ◌≤◌, ◌<◌, ltb, ◌==◌, String, ◌<>◌, count_char, cut_prefix, if◌then◌else◌, ◌≡◌,
  ◌↔◌, Bool, ◌&&◌, Option, none, some, Result, ok, err, arith,
}
use eks_hybrid.Rules.Runner.{Failure, plain, remediable}

pub record Semver : Type 0 where
  pub major : ℕ
  pub minor : ℕ
  pub patch : ℕ

abbrev pub remediation : String
remediation =
    "Ensure the hybrid node's Kubernetes version follows the version skew policy of the EKS cluster. Update the node's Kubernetes components using 'nodeadm upgrade' or reinstall with a compatible version. https://kubernetes.io/releases/version-skew-policy/#kubelet"

abbrev pub refused : String → Option Failure
refused m = some (remediable (plain m) remediation)

-- strings.TrimPrefix
abbrev pub or_whole : Option String → String → String
or_whole none s = s
or_whole (some rest) s = rest

unfoldable pub complete : String → String
complete v = if count_char b'.' v == 1 then v <> ".0" else v

module _ (parse : String → Result Semver) where
  unfoldable pub parse_k8s_version : String → Result Semver
  parse_k8s_version version = parse (complete (or_whole (cut_prefix version "v") version))

  -- int(a - k) > 3, where the difference of two uint64 is read as a signed number
  abbrev pub is_too_old : ℕ → Bool
  is_too_old d = ltb 3 d && ltb d (2 ^ 63)

  abbrev pub check_minors : Semver → Semver → Option Failure
  check_minors a k =
      if ltb a.minor k.minor
      then refused "kubelet version is newer than kube-apiserver version"
      else if is_too_old (a.minor - k.minor)
      then refused "kubelet version is too old for kube-apiserver version"
      else none

  abbrev pub check_kubelet : Semver → Result Semver → Option Failure
  check_kubelet a (ok k) = check_minors a k
  check_kubelet a (err e) = refused "failed to parse kubelet version"

  abbrev pub check_server : Result Semver → String → Option Failure
  check_server (ok a) kubelet = check_kubelet a (parse_k8s_version kubelet)
  check_server (err e) kubelet = refused "failed to parse kube-apiserver version"

  abbrev pub check_versions : String → Result String → Option Failure
  check_versions server (ok kubelet) = check_server (parse_k8s_version server) kubelet
  check_versions server (err e) = refused "failed to get kubelet version"

  -- validateSkew, from the version of the cluster and what the kubelet answers
  unfoldable pub validate_skew : String → Result String → Option Failure
  validate_skew server kubelet = check_versions server kubelet

  -- ValidateKubeletVersionSkew: nothing is checked where the cluster is not known
  abbrev pub validate_kubelet_version_skew : Option String → Result String → Option Failure
  validate_kubelet_version_skew none kubelet = none
  validate_kubelet_version_skew (some server) kubelet = validate_skew server kubelet

  -- Where the minor versions are below 2 ^ 63, a kubelet passes just if its minor version is that of
  -- the API server or one of the three before it.
  pub validate_skew-none :
      (server kubelet : String) (a k : Semver)
      → parse_k8s_version server ≡ ok a
      → parse_k8s_version kubelet ≡ ok k
      → a.minor < 2 ^ 63
      → (validate_skew server (ok kubelet) ≡ none) ↔ ((k.minor ≤ a.minor) × (a.minor ≤ k.minor + 3))
  unfolding validate_skew
  validate_skew-none server kubelet a k e f b =
      rw (e, f) ((λ n. ground arith), λ (l, u). ground arith)
