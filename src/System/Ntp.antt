-- ===== src/System/Ntp.antt =====
-- internal/system/ntp.go. The programs on the path and their outputs are parameters. TrimSpace drops
-- outer white space only, which neither the search in a line nor its fields see.
use eks_hybrid.Base.{
  String, codes, has_infix, split_at, if◌then◌else◌, Bool, true, false, not, ◌&&◌, ◌||◌, Option,
  none, some, List, [], ◌∷◌, Err, errorf, wrap, Result, ok, err,
}
use eks_hybrid.Machine.{Bytes}
use eks_hybrid.Artifact.Checksum.{bytes_eq}
use eks_hybrid.Rules.Swap.{fields_from}
use eks_hybrid.Rules.Runner.{Failure, plain, remediable}

abbrev pub is_local_reference : Bytes → Bool
is_local_reference id =
    bytes_eq id (codes "(00000000)")
    || (bytes_eq id (codes "(0.0.0.0)") || bytes_eq id (codes "(127.0.0.1)"))

-- len(parts) >= 5 and the fifth is no local reference
abbrev pub names_source : List Bytes → Bool
names_source (a ∷ b ∷ c ∷ d ∷ id ∷ rest) = not (is_local_reference id)
names_source _ = false

unfoldable pub has_reference : List String → Bool
has_reference [] = false
has_reference (line ∷ lines) =
    has_infix line "Reference ID" && names_source (fields_from [] (codes line))
    || has_reference lines

unfoldable pub is_leap_normal : List String → Bool
is_leap_normal [] = false
is_leap_normal (line ∷ lines) =
    has_infix line "Leap status" && has_infix line "Normal" || is_leap_normal lines

unfoldable pub is_clock_synchronized : List String → Bool
is_clock_synchronized [] = false
is_clock_synchronized (line ∷ lines) =
    has_infix line "System clock synchronized: yes" || is_clock_synchronized lines

-- whether the command failed, and the error
unfoldable pub check_chronyc : Result String → Bool × Option Err
check_chronyc (err e) = (true, some (wrap "getting system clock settings from chronyc" e))
check_chronyc (ok output) =
    if not (has_reference (split_at 10 output)) || not (is_leap_normal (split_at 10 output))
    then (false, some (errorf "chronyd not synchronized"))
    else (false, none)

unfoldable pub check_timedatectl : Result String → Bool × Option Err
check_timedatectl (err e) = (true, some (wrap "getting system clock settings from timedatectl" e))
check_timedatectl (ok output) =
    if not (is_clock_synchronized (split_at 10 output))
    then (false, some (errorf "System clock not synchronized"))
    else (false, none)

pub data NtpError : Type 0 where
  chronyc_error timedatectl_error command_error : Err → NtpError

pub record NtpHost : Type 0 where
  pub command_exists : String → Bool
  -- `chronyc tracking` and `timedatectl status`
  pub tracking : Result String
  pub clock_status : Result String

abbrev pub judged : (Err → NtpError) → Bool × Option Err → Option NtpError
judged unsynchronized (failed, none) = none
judged unsynchronized (true, some e) = some (command_error e)
judged unsynchronized (false, some e) = some (unsynchronized e)

abbrev pub chronyc_unsynchronized : Err → NtpError
chronyc_unsynchronized e = chronyc_error (wrap "validating NTP synchronization via chronyc" e)

abbrev pub timedatectl_unsynchronized : Err → NtpError
timedatectl_unsynchronized e =
    timedatectl_error (wrap "validating NTP synchronization via timedatectl" e)

abbrev pub or_next : Option NtpError → Option NtpError → Option NtpError
or_next (some e) next = some e
or_next none next = next

-- (*NTPValidator).Validate
unfoldable pub validate_ntp : NtpHost → Option NtpError
validate_ntp h =
    or_next
      (if h.command_exists "chronyc"
        then judged chronyc_unsynchronized (check_chronyc h.tracking)
        else none)
      (if h.command_exists "timedatectl"
        then judged timedatectl_unsynchronized (check_timedatectl h.clock_status)
        else none)

-- addNTPRemediation
abbrev pub add_ntp_remediation : NtpError → Failure
add_ntp_remediation (chronyc_error e) =
    remediable (plain "validating NTP synchronization via chronyc")
      "Ensure the hybrid node is synchronized with NTP through chronyd services. Verify NTP server configuration in /etc/chrony.conf. If using airgapped networks, ensure chrony is configured with local NTP sources and adjusted manually."
add_ntp_remediation (timedatectl_error e) =
    remediable (plain "validating NTP synchronization via timedatectl")
      "Ensure the hybrid node is synchronized with NTP by running `timedatectl set-ntp true`."
add_ntp_remediation (command_error e) = plain "validating NTP synchronization"

abbrev pub ntp_failure : Option NtpError → Option Failure
ntp_failure none = none
ntp_failure (some e) = some (add_ntp_remediation e)

-- (*NTPValidator).Run
unfoldable pub run_ntp : NtpHost → Option Failure
run_ntp h = ntp_failure (validate_ntp h)
