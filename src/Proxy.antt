-- ===== src/Proxy.antt =====
-- internal/network/proxy_validator.go and proxy.go. The environment and the files are parameters.
use eks_hybrid.Base.{
  String, ◌<>◌, str_eq, str_eq_iff, str_eq-false, has_infix, if◌then◌else◌, ◌≡◌, ◌↔◌, ◌⊎◌, inl, inr,
  refl, Bool, true, false, not, ◌&&◌, ◌||◌, Bool-cases, Option, none, some, Result, ok, err, arith,
}
use mathlib.Core.Logic.Iff
use eks_hybrid.Rules.Runner.{Failure, plain, remediable, first_error}
use eks_hybrid.Config.Defs.{NodeConfig, is_ssm}

pub record ProxyHost : Type 0 where
  -- os.Getenv
  pub getenv : String → String
  -- httpproxy.FromEnvironment() has a proxy
  pub library_proxy : Bool
  pub os_name : String
  -- file.Exists and os.ReadFile as a text
  pub exists : String → Bool
  pub read_file : String → Result String

abbrev pub refuse_with : Bool → String → String → Option Failure
refuse_with true m r = some (remediable (plain m) r)
refuse_with false m r = none

-- checks on the content of a file, if it can be read
abbrev pub with_content : String → Result String → (String → Option Failure) → Option Failure
with_content m (err e) check = some (plain m)
with_content m (ok content) check = check content

module _ (h : ProxyHost) where
  abbrev pub is_set : String → Bool
  is_set name = not (str_eq (h.getenv name) "")

  unfoldable pub is_proxy_enabled : Bool
  is_proxy_enabled =
      h.library_proxy
      || (is_set "HTTP_PROXY"
          || (is_set "HTTPS_PROXY" || (is_set "http_proxy" || is_set "https_proxy")))

  abbrev pub differ : String → String → Bool
  differ upper lower =
      is_set upper && (is_set lower && not (str_eq (h.getenv upper) (h.getenv lower)))

  abbrev pub check_pair : String → String → Option Failure
  check_pair upper lower =
      refuse_with (differ upper lower)
        (upper <> " and " <> lower <> " environment variables have different values")
        ("Ensure " <> upper <> " and " <> lower <> " have the same value in your environment")

  -- validateProxyVariableConsistency
  unfoldable pub validate_consistency : Option Failure
  validate_consistency =
      first_error (check_pair "HTTP_PROXY" "http_proxy")
        (first_error (check_pair "HTTPS_PROXY" "https_proxy") (check_pair "NO_PROXY" "no_proxy"))

  -- getEffectiveProxyValue
  unfoldable pub effective : String → String → String
  effective upper lower = if is_set upper then h.getenv upper else h.getenv lower

  abbrev pub http_proxy : String
  http_proxy = effective "HTTP_PROXY" "http_proxy"

  abbrev pub https_proxy : String
  https_proxy = effective "HTTPS_PROXY" "https_proxy"

  abbrev pub no_proxy_set : Bool
  no_proxy_set = str_eq http_proxy "" && str_eq https_proxy ""

  abbrev pub unless : Bool → Option Failure → Option Failure
  unless true o = none
  unless false o = o

  -- the checks on a file that has to be there
  abbrev pub with_file : String → String → String → (String → Option Failure) → Option Failure
  with_file what path advice check =
      if h.exists path
      then with_content ("failed to read " <> what) (h.read_file path) check
      else some (remediable (plain (what <> " not found: " <> path)) advice)

  abbrev pub holds_text : String → String → String → String → Option Failure
  holds_text content text what advice =
      refuse_with (not (has_infix content text)) (what <> " does not contain correct " <> text)
        advice

  -- the same, where the value is not empty
  abbrev pub holds_value : String → String → String → String → String → Option Failure
  holds_value value content text what advice =
      unless (str_eq value "") (holds_text content text what advice)

  -- validateSystemdServiceProxyConfig
  unfoldable pub validate_service : String → String → Option Failure
  validate_service service path = unless no_proxy_set (
      with_file (service <> " proxy configuration file") path
        ("Create the " <> service <> " proxy configuration file at " <> path)
        (λ content.
          first_error
            (holds_text content ("HTTP_PROXY=" <> http_proxy)
              (service <> " proxy configuration file")
              ("Update the " <> service <> " proxy configuration file"))
            (holds_text content ("HTTPS_PROXY=" <> https_proxy)
              (service <> " proxy configuration file")
              ("Update the " <> service <> " proxy configuration file"))))

  unfoldable pub validate_apt : Option Failure
  validate_apt =
      with_file "apt proxy configuration file" "/etc/apt/apt.conf.d/proxy.conf"
        "Create the apt proxy configuration file at /etc/apt/apt.conf.d/proxy.conf"
        (λ content.
          first_error
            (holds_value http_proxy content ("Acquire::http::Proxy \"" <> http_proxy <> "\"")
              "apt proxy configuration file" "Update the apt proxy configuration file")
            (holds_value https_proxy content ("Acquire::https::Proxy \"" <> https_proxy <> "\"")
              "apt proxy configuration file" "Update the apt proxy configuration file"))

  -- validateYumProxyConfig and validateDnfProxyConfig
  abbrev pub validate_main : String → String → Option Failure
  validate_main what path =
      with_file what path ("Create the " <> what <> " at " <> path) (λ content.
        holds_value http_proxy content ("proxy=" <> http_proxy) what ("Update the " <> what))

  unfoldable pub validate_yum : Option Failure
  validate_yum = validate_main "yum configuration file" "/etc/yum.conf"

  unfoldable pub validate_dnf : Option Failure
  validate_dnf = validate_main "dnf configuration file" "/etc/dnf/dnf.conf"

  abbrev pub unsupported : Option Failure
  unsupported = some (plain ("unsupported operating system: " <> h.os_name))

  unfoldable pub validate_package_manager : Option Failure
  validate_package_manager = unless no_proxy_set (
      if str_eq h.os_name "ubuntu"
      then validate_apt
      else if str_eq h.os_name "rhel"
      then validate_yum
      else if str_eq h.os_name "amzn"
      then validate_dnf
      else unsupported)

  unfoldable pub validate_ssm : Option Failure
  validate_ssm =
      if str_eq h.os_name "ubuntu"
      then validate_service "SSM"
          "/etc/systemd/system/snap.amazon-ssm-agent.amazon-ssm-agent.service.d/http-proxy.conf"
      else if str_eq h.os_name "rhel" || str_eq h.os_name "amzn"
      then validate_service "SSM" "/etc/systemd/system/amazon-ssm-agent.service.d/http-proxy.conf"
      else unsupported

  abbrev pub validate_os : NodeConfig → Option Failure
  validate_os c = first_error validate_package_manager (
      first_error
        (validate_service "kubelet" "/etc/systemd/system/kubelet.service.d/http-proxy.conf")
        (first_error
          (validate_service "containerd"
            "/usr/lib/systemd/system/containerd.service.d/http-proxy.conf")
          (unless (not (is_ssm c)) validate_ssm)))

  -- (ProxyValidator).Validate
  unfoldable pub validate_proxy : NodeConfig → Option Failure
  validate_proxy c =
      unless (not is_proxy_enabled)
        (first_error validate_consistency (unless (str_eq h.os_name "") (validate_os c)))

  abbrev pub Agree : String → String → Type 0
  Agree upper lower =
      (h.getenv upper ≡ "") ⊎ ((h.getenv lower ≡ "") ⊎ (h.getenv upper ≡ h.getenv lower))

  check_pair-none : (upper lower : String) → (check_pair upper lower ≡ none) ↔ Agree upper lower
  check_pair-none upper lower = elim (Bool-cases (str_eq (h.getenv upper) "")) [
    | inl a ↦ ((λ e. inl ((str_eq_iff _ "").0 a)), λ x. rw a refl)
    | inr a ↦ elim (Bool-cases (str_eq (h.getenv lower) "")) [
      | inl b ↦ ((λ e. inr (inl ((str_eq_iff _ "").0 b))), λ x. rw (a, b) refl)
      | inr b ↦ elim (Bool-cases (str_eq (h.getenv upper) (h.getenv lower))) [
        | inl c ↦ ((λ e. inr (inr ((str_eq_iff _ _).0 c))), λ x. rw (a, b, c) refl)
        | inr c ↦ (
          (λ e. ground (arith)),
          λ x. absurd (elim x [
            | inl y ↦ (str_eq-false _ _).0 a y
            | inr (inl y) ↦ (str_eq-false _ _).0 b y
            | inr (inr y) ↦ (str_eq-false _ _).0 c y
          ]),
        )
      ]
    ]
  ]

  first_error-none : (a b : Option Failure) → (first_error a b ≡ none) ↔ ((a ≡ none) × (b ≡ none))
  first_error-none none b = ((λ e. (refl, e)), λ (x, y). y)
  first_error-none (some f) b = ((λ e. cc), λ (x, y). x)

  -- The variables are consistent just if, of each of the three pairs, one is empty or both are equal.
  pub validate_consistency-none : (validate_consistency ≡ none) ↔ (
      Agree "HTTP_PROXY" "http_proxy"
      × (Agree "HTTPS_PROXY" "https_proxy" × Agree "NO_PROXY" "no_proxy"))
  unfolding validate_consistency
  validate_consistency-none = Iff.trans (first_error-none _ _) (
      Iff.and (check_pair-none "HTTP_PROXY" "http_proxy") (
        Iff.trans (first_error-none _ _) (
          Iff.and (check_pair-none "HTTPS_PROXY" "https_proxy")
            (check_pair-none "NO_PROXY" "no_proxy"))))
