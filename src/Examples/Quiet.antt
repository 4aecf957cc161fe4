-- ===== src/Examples/Quiet.antt =====
-- A machine on which every call succeeds.

use eks_hybrid.Base.{
  ℕ, String, ◌<>◌, str_eq, str_eq_iff, ◌≡◌, refl, sym, ap, subst, ◌∙◌, ◌⊎◌, Bool, true, false, ◌||◌,
  inl, inr, Bool-cases, Option, none, some, [], ◌∷◌, zero, suc, if◌then◌else◌, errorf, arith,
  Result, ok, err,
}
use text.Mathlib.TextEquality.{starts_with_iff}
use text.Mathlib.TextLemmas.{append-nil, append_assoc}
use text.Mathlib.TextPositions.{starts_with_of_prefix}
use eks_hybrid.Tracker.{InstalledArtifacts, no_artifacts, source_none}
use eks_hybrid.Machine.{Bytes, tar_file, Source as Download, Host, World, under}
use eks_hybrid.Components.Cni.{bin_path}
use eks_hybrid.PackageManager.{DistroPackageManager, of_manager}
use eks_hybrid.Flows.Install.{Installer}
use eks_hybrid.Release.Defs.{RegionData}
use eks_hybrid.Flows.Installed.{JoinsInside}

abbrev pub payload : Download
payload = record { contents = 1 ∷ 2 ∷ []; expected = 1 ∷ 2 ∷ [] }

-- a codec for trackers: a number for the source of containerd, and one for each flag
abbrev flag : Bool → ℕ
flag true = 1
flag false = 0

abbrev unflag : ℕ → Bool
unflag zero = false
unflag (suc n) = true

abbrev source_code : String → Result ℕ
source_code s =
    if str_eq s "none"
    then ok 0
    else if str_eq s "distro"
    then ok 1
    else if str_eq s "docker"
    then ok 2
    else err (errorf "invalid containerd source")

abbrev source_name : ℕ → String
source_name zero = "none"
source_name (suc zero) = "distro"
source_name (suc (suc n)) = "docker"

abbrev encode_with : InstalledArtifacts → Result ℕ → Result Bytes
encode_with a (err e) = err e
encode_with a (ok c) = ok (
    c
    ∷ flag a.cni_plugins
    ∷ flag a.iam_authenticator
    ∷ flag a.iam_roles_anywhere
    ∷ flag a.image_credential_provider
    ∷ flag a.kubectl
    ∷ flag a.kubelet
    ∷ flag a.ssm
    ∷ flag a.iptables
    ∷ [])

abbrev encode : InstalledArtifacts → Result Bytes
encode a = encode_with a (source_code a.containerd)

abbrev decode : Bytes → Result (Option InstalledArtifacts)
decode (c ∷ f1 ∷ f2 ∷ f3 ∷ f4 ∷ f5 ∷ f6 ∷ f7 ∷ f8 ∷ []) = ok (
    some (record {
      containerd = source_name c;
      cni_plugins = unflag f1;
      iam_authenticator = unflag f2;
      iam_roles_anywhere = unflag f3;
      image_credential_provider = unflag f4;
      kubectl = unflag f5;
      kubelet = unflag f6;
      ssm = unflag f7;
      iptables = unflag f8;
    }))
decode _ = err (errorf "invalid yaml")

unflag-flag : (b : Bool) → unflag (flag b) ≡ b
unflag-flag true = refl
unflag-flag false = refl

source_name-source_code : (s : String) (c : ℕ) → source_code s ≡ ok c → source_name c ≡ s
source_name-source_code s c e =
    ground (arith, str_eq_iff s "none", str_eq_iff s "distro", str_eq_iff s "docker")

decode-encode_with :
    (a : InstalledArtifacts) (r : Result ℕ) (b : Bytes)
    → ((c : ℕ) → r ≡ ok c → source_name c ≡ a.containerd)
    → encode_with a r ≡ ok b
    → decode b ≡ ok (some a)
decode-encode_with a (err x) b n e = cc
decode-encode_with a (ok c) b n e =
    subst (λ x. decode x ≡ ok (some a)) (ok_injective e)
      (rw
        (
          n c refl,
          unflag-flag a.cni_plugins,
          unflag-flag a.iam_authenticator,
          unflag-flag a.iam_roles_anywhere,
          unflag-flag a.image_credential_provider,
          unflag-flag a.kubectl,
          unflag-flag a.kubelet,
          unflag-flag a.ssm,
          unflag-flag a.iptables,
        )
        refl)
  where
    ok_injective : {x y : Bytes} → ok x ≡ ok y → x ≡ y
    ok_injective h = cc

abbrev pub quiet_host : Host
quiet_host = record {
  act = λ t c. none;
  test = λ t c. true;
  fetch_source = λ t n. ok payload;
  text = λ t c. "\"active\"";
  left = λ t p. false;
  torn = λ t p. none;
  waits = λ t. 0;
  sha256 = λ b. b;
  untar = λ b. ok (tar_file "bridge" (3 ∷ []) ∷ []);
  dir = λ p. p;
  join = λ d n. d <> ("/" <> n);
  eval_symlinks = λ t p. ok "";
  semver_lt = λ a b. false;
  signature_error = λ a b. none;
  home = none;
  registration = λ b. ok ("mi-0", "us-west-2");
  marshal = encode;
  unmarshal = decode;
}

abbrev pub empty_world : World
empty_world = record { trace = []; files = λ p. none; artifacts = no_artifacts }

or_true : (a b : Bool) → b ≡ true → (a || b) ≡ true
or_true true b e = refl
or_true false b e = e

or_cases : (a b : Bool) → (a || b) ≡ true → (a ≡ true) ⊎ (b ≡ true)
or_cases true b e = inl refl
or_cases false b e = inr e

below_cni : (q r : String) → ("/opt/cni/bin/" <> r) ≡ q → under "/opt/cni" q ≡ true
unfolding under
below_cni q r e =
    or_true (str_eq q "/opt/cni") _
      (starts_with_of_prefix "/opt/cni/" q ("bin/" <> r, append_prefix r ∙ e))
  where
    append_prefix : (t : String) → ("/opt/cni/" <> ("bin/" <> t)) ≡ ("/opt/cni/bin/" <> t)
    append_prefix t = sym (append_assoc "/opt/cni/" "bin/" t)

joined_path : (q p : String) → under p q ≡ true → (r : String) × ((p <> r) ≡ q)
unfolding under
joined_path q p t = elim (or_cases (str_eq q p) _ t) [
  | inl e ↦ ("", append-nil p ∙ sym ((str_eq_iff q p).0 e))
  | inr e ↦
      let (r, f) = (starts_with_iff q (p <> "/")).0 e in ("/" <> r, sym (append_assoc p "/" r) ∙ f)
]

pub joins : JoinsInside quiet_host
joins name q v a = elim (Bool-cases (under (quiet_host.join bin_path name) q)) [
  | inl t ↦
      let (r, e) = joined_path q _ t in
      let below = below_cni q (name <> r) (prefix name r ∙ e) in cc
  | inr f ↦ f
]
  where
    prefix : (n r : String) → ("/opt/cni/bin/" <> (n <> r)) ≡ (("/opt/cni/bin" <> ("/" <> n)) <> r)
    prefix n r =
        sym (append_assoc "/opt/cni/bin/" n r)
        ∙ ap (λ x. x <> r) (append_assoc "/opt/cni/bin" "/" n)

abbrev pub distro : DistroPackageManager
distro = of_manager source_none "apt"

abbrev pub installer : Installer
installer = record {
  eks_version = "1.31";
  containerd_source = "none";
  package_manager = distro;
  credential_provider = "iam-ra";
  ssm_region = "us-west-2";
  private_mode = false;
  json = record { parse = λ b. ok none; render = λ f. ok [] };
  unit_file = 7 ∷ [];
  arch = "amd64";
  code_name = "jammy";
}

pub codec :
    (a : InstalledArtifacts) (b : Bytes)
    → quiet_host.marshal a ≡ ok b
    → quiet_host.unmarshal b ≡ ok (some a)
codec a b e =
    decode-encode_with a (source_code a.containerd) b (source_name-source_code a.containerd) e

abbrev pub tracked_world : World
tracked_world = record empty_world {
  artifacts = record no_artifacts { kubelet = true; kubectl = true; cni_plugins = true };
}

abbrev pub used_world : World
used_world = record tracked_world { files = λ p. some (1 ∷ []) }

abbrev pub west : RegionData
west = record {
  ecr_account_id = "1";
  partition = "aws";
  dns_suffix = "amazonaws.com";
  cred_providers = [];
}
