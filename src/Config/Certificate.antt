-- ===== src/Config/Certificate.antt =====
-- internal/certificate/certificate_validator.go and internal/kubernetes/cert.go. The file, its
-- decoding, the clock and the verification against a pool of authorities are parameters.
use eks_hybrid.Base.{
  ℕ, ◌≤◌, ltb, String, ◌<>◌, ◌≡◌, ◌↔◌, refl, Bool, true, false, ◌&&◌, ◌||◌, if◌then◌else◌, Option,
  none, some, Option-cases, Bool-cases, List, [], ◌∷◌, Err, not_exist, Result, ok, err, arith,
}
use eks_hybrid.Machine.{Bytes, or_empty}
use eks_hybrid.Rules.Runner.{Failure, plain, remediable}

pub record X509 : Type 0 where
  pub not_before : ℕ
  pub not_after : ℕ
  pub raw : Bytes

pub record CertHost : Type 0 where
  pub stat : String → Option Err
  pub read_file : String → Result Bytes
  -- pem.Decode, and x509.ParseCertificate of the block's bytes
  pub pem_decode : Bytes → Option Bytes
  pub parse_certificate : Bytes → Result X509
  pub now : ℕ
  -- AppendCertsFromPEM on an empty pool, and Verify against that pool at a time
  pub appends : Bytes → Bool
  pub verify : Bytes → ℕ → X509 → Option Err

pub data CertKind : Type 0 where
  cert_not_found cert_file cert_read cert_invalid_format cert_clock_skew cert_expired : CertKind
  cert_parse_ca cert_invalid_ca : CertKind

pub record CertError : Type 0 where
  pub kind : CertKind
  pub message : String
  pub cause : Option Err

abbrev pub cert_error : CertKind → String → Option Err → Option CertError
cert_error k m c = some (record { kind = k; message = m; cause = c })

abbrev pub is_not_exist : Err → Bool
is_not_exist not_exist = true
is_not_exist _ = false

abbrev pub is_date_validation_error : CertError → Bool
is_date_validation_error e = elim e.kind [
  | cert_clock_skew ↦ true
  | cert_expired ↦ true
  | _ ↦ false
]

abbrev pub is_no_cert_error : CertError → Bool
is_no_cert_error e = elim e.kind [ cert_not_found ↦ true | _ ↦ false ]

abbrev authentication_advice : String
authentication_advice =
    "Kubelet certificate will be created when the kubelet is able to authenticate with the API server. Check previous authentication remediation advice."

module _ (h : CertHost) where
  abbrev pub check_verified : Option Err → Option CertError
  check_verified none = none
  check_verified (some e) =
      cert_error cert_invalid_ca "certificate is not valid for the current cluster" (some e)

  -- if len(ca) > 0
  abbrev pub check_ca : List ℕ → X509 → Option CertError
  check_ca [] c = none
  check_ca (b ∷ bs) c =
      if h.appends (b ∷ bs)
      then check_verified (h.verify (b ∷ bs) h.now c)
      else cert_error cert_parse_ca "parsing cluster CA certificate" none

  abbrev pub check_dates : Bytes → X509 → Option CertError
  check_dates ca c =
      if ltb h.now c.not_before
      then cert_error cert_clock_skew "server certificate is not yet valid" none
      else if ltb c.not_after h.now
      then cert_error cert_expired "server certificate has expired" none
      else check_ca ca c

  abbrev pub check_parsed : Bytes → Result X509 → Option CertError
  check_parsed ca (ok c) = check_dates ca c
  check_parsed ca (err e) = cert_error cert_invalid_format "parsing certificate" (some e)

  abbrev pub check_block : Bytes → Option Bytes → Option CertError
  check_block ca none = cert_error cert_invalid_format "parsing certificate" none
  check_block ca (some block) = check_parsed ca (h.parse_certificate block)

  abbrev pub check_data : Bytes → Result Bytes → Option CertError
  check_data ca (ok b) = check_block ca (h.pem_decode b)
  check_data ca (err e) = cert_error cert_read "reading certificate" (some e)

  abbrev pub check_stat : String → Bytes → Option Err → Option CertError
  check_stat path ca none = check_data ca (h.read_file path)
  check_stat path ca (some e) =
      if is_not_exist e
      then cert_error cert_not_found "no certificate found" (some e)
      else cert_error cert_file "checking certificate" (some e)

  -- Validate
  unfoldable pub validate_certificate : String → Bytes → Option CertError
  validate_certificate path ca = check_stat path ca (h.stat path)

  -- what the pool says, where there are authorities
  abbrev pub IsTrusted : Bytes → X509 → Type 0
  IsTrusted [] c = Unit
  IsTrusted (b ∷ bs) c = (h.appends (b ∷ bs) ≡ true) × (h.verify (b ∷ bs) h.now c ≡ none)

  abbrev pub IsValidNow : Bytes → X509 → Type 0
  IsValidNow ca c = (c.not_before ≤ h.now) × (h.now ≤ c.not_after) × IsTrusted ca c

  -- The file holds a certificate which is valid now and which the authorities trust.
  abbrev pub HoldsCertificate : String → Bytes → Type 0
  HoldsCertificate path ca =
      (b : Bytes) × (block : Bytes) × (c : X509) × (h.read_file path ≡ ok b)
      × (h.pem_decode b ≡ some block)
      × (h.parse_certificate block ≡ ok c)
      × IsValidNow ca c

  check_ca-none : (ca : Bytes) (c : X509) → (check_ca ca c ≡ none) ↔ IsTrusted ca c
  check_ca-none [] c = ((λ e. tt), λ t. refl)
  check_ca-none (b ∷ bs) c =
      ((λ e. ground (arith, Option-cases (h.verify (b ∷ bs) h.now c))), λ (a, v). ground (arith))

  check_dates-none : (ca : Bytes) (c : X509) → (check_dates ca c ≡ none) ↔ IsValidNow ca c
  check_dates-none ca c = (
    (λ e. ground (arith, (check_ca-none ca c).0)),
    λ (a, b, t). ground (arith, (check_ca-none ca c).1 t),
  )

  parsed :
      (ca : Bytes) (r : Result X509)
      → check_parsed ca r ≡ none
      → (c : X509) × (r ≡ ok c) × IsValidNow ca c
  parsed ca (ok c) e = (c, refl, (check_dates-none ca c).0 e)
  parsed ca (err x) e = cc

  decoded :
      (ca : Bytes) (o : Option Bytes)
      → check_block ca o ≡ none
      → (block : Bytes) × (o ≡ some block) × (check_parsed ca (h.parse_certificate block) ≡ none)
  decoded ca none e = cc
  decoded ca (some block) e = (block, refl, e)

  was_read :
      (ca : Bytes) (r : Result Bytes)
      → check_data ca r ≡ none
      → (b : Bytes) × (r ≡ ok b) × (check_block ca (h.pem_decode b) ≡ none)
  was_read ca (ok b) e = (b, refl, e)
  was_read ca (err x) e = cc

  there :
      (path : String) (ca : Bytes) (o : Option Err)
      → check_stat path ca o ≡ none
      → (o ≡ none) × (check_data ca (h.read_file path) ≡ none)
  there path ca none e = (refl, e)
  there path ca (some x) e = ground (arith, Bool-cases (is_not_exist x))

  -- The validation passes just where the file is there and holds a certificate that is valid at
  -- the present time and, if authorities are given, verified by them.
  pub validate_certificate-none :
      (path : String) (ca : Bytes)
      → (validate_certificate path ca ≡ none) ↔ ((h.stat path ≡ none) × HoldsCertificate path ca)
  unfolding validate_certificate
  validate_certificate-none path ca = (
    (λ e.
        let (s, e1) = there path ca (h.stat path) e in
        let (b, r, e2) = was_read ca (h.read_file path) e1 in
        let (block, d, e3) = decoded ca (h.pem_decode b) e2 in
        let (c, p, bounds) = parsed ca (h.parse_certificate block) e3 in
        (s, (b, block, c, r, d, p, bounds))),
    λ (s, (b, block, c, r, d, p, bounds)). rw (s, r, d, p) ((check_dates-none ca c).1 bounds),
  )

  abbrev pub kubelet_remedy : String → CertKind → String
  kubelet_remedy path cert_not_found = authentication_advice
  kubelet_remedy path cert_file = authentication_advice
  kubelet_remedy path cert_read = authentication_advice
  kubelet_remedy path cert_invalid_format =
      "Delete the kubelet server certificate file " <> path <> " and restart kubelet"
  kubelet_remedy path cert_clock_skew = "Verify the system time is correct and restart the kubelet."
  kubelet_remedy path cert_expired =
      "Delete the kubelet server certificate file " <> path
      <> " and restart kubelet. Validate `serverTLSBootstrap` is true in the kubelet config /etc/kubernetes/kubelet/config.json to automatically rotate the certificate"
  kubelet_remedy path cert_parse_ca = "Ensure the cluster CA certificate is valid"
  kubelet_remedy path cert_invalid_ca =
      "Please remove the kubelet server certificate file " <> path
      <> " or use \"--skip kubelet-cert-validation\" if this is expected"

  -- AddKubeletRemediation
  abbrev pub add_kubelet_remediation : String → CertError → Failure
  add_kubelet_remediation path e =
      remediable (plain ("validating kubelet certificate: " <> e.message))
        (kubelet_remedy path e.kind)

  abbrev pub kubelet_failure : Bool → String → Option CertError → Option Failure
  kubelet_failure ignore path none = none
  kubelet_failure ignore path (some e) =
      if ignore && (is_date_validation_error e || is_no_cert_error e)
      then none
      else some (add_kubelet_remediation path e)

  -- (KubeletCertificateValidator).Run, with the flag that ignores errors on dates and absence
  unfoldable pub run_kubelet_certificate : Bool → String → Option Bytes → Option Failure
  run_kubelet_certificate ignore path ca =
      kubelet_failure ignore path (validate_certificate path (or_empty ca))
