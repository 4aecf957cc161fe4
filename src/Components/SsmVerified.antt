-- ===== src/Components/SsmVerified.antt =====
-- The signature of the SSM agent's installer, and the agent's configuration
use eks_hybrid.Base.{
  ℕ, suc, String, str_eq, str_eq_iff, str_eq_refl, ◌≡◌, refl, if◌then◌else◌, Option, none, some,
  List, arith, Err, ok, wrap_err, of_error, IsOk,
}
use eks_hybrid.Machine.{Call, Source, Host, World, lift, wrapping, attempts}
use eks_hybrid.Machine.Triple.{Triple, Triple-bind_value, Triple-wrapping, Triple-attempts}
use eks_hybrid.Artifact.Verified.{Any, files-install_file}
use eks_hybrid.Components.Verified.{Keeps-Any, fetched}
use eks_hybrid.Components.Ssm.{
  installer_path, Json, number, object, Fields, end, field, get_field, set_field, ssm_section,
  with_credential_retry, download_file_to,
}

module _ (h : Host) where
  -- The file is an installer that a download delivers after some calls, and a signature that a
  -- download delivers after some calls verifies it.
  abbrev pub Signed : World → Type 0
  Signed w =
      (installer : Source) × (signature : Source) × (t : List Call) × (u : List Call)
      × (h.fetch_source t "ssm-setup-cli" ≡ ok installer
          × h.fetch_source u "ssm-setup-cli.sig" ≡ ok signature
          × h.signature_error installer.contents signature.contents ≡ none
          × w.files installer_path ≡ some installer.contents)

  validated :
      (s : String) (o : Option Err) {u : Unit {0}} → wrap_err s (of_error o) ≡ ok u → o ≡ none
  validated s none e = refl
  validated s (some x) e = cc

  validate_step :
      (s : String) (o : Option Err) (w : World) {u : Unit {0}}
      → (wrapping s (lift (of_error o)) w).0 ≡ ok u
      → o ≡ none
  unfolding wrapping
  validate_step s o w e = validated s o e

  download_file_to-Signed : Triple Any (download_file_to h) Signed
  unfolding download_file_to
  download_file_to-Signed = Triple-bind_value _ _ (Keeps-Any h _) λ w installer p.
      Triple-bind_value _ _ (Keeps-Any h _) λ v signature q.
        Triple-bind_value _ _ (Keeps-Any h _) λ x _ r.
          let t = Triple-wrapping _ _ (files-install_file h installer_path installer.contents) in
          record {
            at = λ y a o. (
              installer,
              signature,
              w.trace,
              v.trace,
              (
                fetched h _ _ w installer p,
                fetched h _ _ v signature q,
                validate_step _ _ x r,
                t.at y a o,
              ),
            );
          }

  attempts-Signed : Triple Any (attempts 3 (ok tt) (download_file_to h)) Signed
  attempts-Signed = rw three (Triple-attempts _ (Keeps-Any h _) download_file_to-Signed 2 (ok tt))
    where
      three : ◌≡◌ {A = ℕ} 3 (suc 2)
      three = refl

  -- When one of the three attempts to download the installer succeeds, the file is an installer that
  -- a download delivers at some point, and a signature that a download delivers at some point verifies
  -- it.
  pub attempts-download_file_to-Signed :
      (w : World)
      → IsOk (attempts 3 (ok tt) (download_file_to h) w).0
      → Signed (attempts 3 (ok tt) (download_file_to h) w).1
  attempts-download_file_to-Signed w o = attempts-Signed.at w tt o

-- What is set is read back, and the other fields are as they were.
get_field-set_field_other :
    (k j : String) (v : Json) (fs : Fields)
    → get_field j (set_field k v fs) ≡ (if str_eq k j then some v else get_field j fs)
unfolding get_field set_field
get_field-set_field_other k j v end = refl
get_field-set_field_other k j v (field i u fs) =
    ground
      (arith, str_eq_iff i k, str_eq_iff i j, str_eq_iff k j, get_field-set_field_other k j v fs)

abbrev retry_key : String
retry_key = "CredentialRetryMaxSleepSeconds"

get_field-set_field :
    (k : String) (v : Json) (fs : Fields) → get_field k (set_field k v fs) ≡ some v
get_field-set_field k v fs = rw (get_field-set_field_other k k v fs, str_eq_refl k) refl

-- In the section "Ssm" of the configuration that is left, CredentialRetryMaxSleepSeconds is 60 and each
-- other field reads as before; the section is an object, and each other field of the configuration
-- reads as before.
pub get_field-with_credential_retry :
    (config : Fields) (j k : String)
    → (get_field j (ssm_section (get_field "Ssm" (with_credential_retry config))) ≡ (
        if str_eq retry_key j
        then some (number 60)
        else get_field j (ssm_section (get_field "Ssm" config))))
      × (get_field k (with_credential_retry config) ≡ (
          if str_eq "Ssm" k
          then some (object (ssm_section (get_field "Ssm" (with_credential_retry config))))
          else get_field k config))
unfolding with_credential_retry
get_field-with_credential_retry config j k =
    rw
      (get_field-set_field "Ssm"
        (object (set_field retry_key (number 60) (ssm_section (get_field "Ssm" config)))) config)
      (get_field-set_field_other retry_key j _ _, get_field-set_field_other "Ssm" k _ config)
