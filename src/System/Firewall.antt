-- ===== src/System/Firewall.antt =====
-- internal/firewall: firewalld and ufw behind one interface. A regular expression such as
-- `.*running*` matches any text in which "runnin" stands. The expression for the rules of ufw is a
-- parameter.
use eks_hybrid.Base.{
  ℕ, ◌==◌, String, ◌<>◌, str_eq, has_infix, if◌then◌else◌, Bool, true, false, ◌&&◌, ◌||◌, Option,
  none, some, List, [], ◌∷◌, Err, errorf, Result, ok, err,
}
use eks_hybrid.Machine.{Host, Call, command, Exec, pure, ◌>>=◌, ◌>>◌, reporting, act}

-- firewall.Manager, with the state that a manager keeps between its calls
pub record Firewall (S : Type 0) : Type 0 where
  pub is_enabled : Exec Bool
  pub allow_tcp_port : String → Exec Unit
  pub allow_tcp_port_range : String → String → Exec Unit
  pub flush_rules : Exec Unit
  pub is_port_open : S → String → String → Exec (Bool × S)

pub record Rule : Type 0 where
  pub port : String
  pub protocol : String
  pub action : String

pub record FirewallHost : Type 0 where
  -- the exit code of an *exec.ExitError
  pub exit_code : Err → Option ℕ
  -- the rules in the output of `ufw status`
  pub rules_in : String → List Rule

module _ (h : Host) (f : FirewallHost) where
  -- CombinedOutput of a command
  unfoldable pub output_of : Call → Exec String
  output_of c = do act h c; (λ w. (ok (h.text w.trace c), w))

  abbrev pub is_idle : Option ℕ → Bool
  is_idle none = false
  is_idle (some n) = (n == 251) || (n == 252)

  abbrev pub state_of : Result String → Result Bool
  state_of (ok out) = ok (has_infix out "runnin")
  state_of (err e) = if is_idle (f.exit_code e) then ok false else err e

  abbrev pub open_of : Result String → Result (Bool × Unit {0})
  open_of (ok out) =
      if has_infix out "ye" then ok (true, tt) else err (errorf "unsupported firewall port status")
  open_of (err e) = ok (false, tt)

  module _ (bin : String) where
    abbrev pub run_bin : List String → Exec String
    run_bin args = output_of (command bin args)

    unfoldable pub firewalld_is_enabled : Exec Bool
    firewalld_is_enabled w =
        if str_eq bin ""
        then (ok false, w)
        else (let (r, w') = run_bin ("--state" ∷ []) w in (state_of r, w'))

    unfoldable pub firewalld_is_port_open : Unit {0} → String → String → Exec (Bool × Unit {0})
    firewalld_is_port_open s port protocol w =
        let (r, w') = run_bin (("--query-port=" <> port <> "/" <> protocol) ∷ []) w in
        (open_of r, w')

    unfoldable pub firewalld_flush : Exec Unit
    firewalld_flush = do
      reporting "failed to reload firewall" (run_bin ("--reload" ∷ []))
      reporting "failed to persist firewall rules" (run_bin ("--runtime-to-permanent" ∷ []))
      pure tt

    unfoldable pub firewalld_allow : String → Exec Unit
    firewalld_allow port = do
      reporting ("failed to allow port " <> port <> " in firewall")
          (run_bin ("--permanent" ∷ ("--add-port=" <> port <> "/tcp") ∷ []))
      pure tt

    unfoldable pub firewalld_allow_range : String → String → Exec Unit
    firewalld_allow_range start stop = do
      reporting "failed to allow ports in firewall"
          (run_bin ("--permanent" ∷ ("--add-port=" <> start <> "-" <> stop <> "/tcp") ∷ []))
      pure tt

    unfoldable pub firewalld : Firewall Unit
    firewalld = record {
      is_enabled = firewalld_is_enabled;
      allow_tcp_port = firewalld_allow;
      allow_tcp_port_range = firewalld_allow_range;
      flush_rules = firewalld_flush;
      is_port_open = firewalld_is_port_open;
    }

    unfoldable pub ufw_is_enabled : Exec Bool
    ufw_is_enabled w =
        if str_eq bin ""
        then (ok false, w)
        else (do
          out ← reporting "failed to get status of uncomplicated firewall" (run_bin ("status" ∷ []))
          pure (has_infix out "Status: activ"))
            w

    unfoldable pub is_allowed : String → String → List Rule → Bool
    is_allowed port protocol [] = false
    is_allowed port protocol (r ∷ rs) =
        (str_eq r.port port && (str_eq r.protocol protocol && str_eq r.action "ALLOW"))
        || is_allowed port protocol rs

    unfoldable pub refresh : Exec (List Rule)
    refresh = do out ← run_bin ("status" ∷ []); pure (f.rules_in out)

    -- the rules are read again only while none are known
    abbrev pub rules_or_read : List Rule → Exec (List Rule)
    rules_or_read [] = refresh
    rules_or_read (r ∷ rs) = pure (r ∷ rs)

    unfoldable pub ufw_is_port_open : List Rule → String → String → Exec (Bool × List Rule)
    ufw_is_port_open known port protocol = do
      rules ← rules_or_read known
      pure (is_allowed port protocol rules, rules)

    unfoldable pub ufw_allow : String → Exec Unit
    ufw_allow port = do
      reporting ("failed to allow port " <> port <> " in firewall")
          (run_bin ("allow" ∷ (port <> "/tcp") ∷ []))
      pure tt

    unfoldable pub ufw_allow_range : String → String → Exec Unit
    ufw_allow_range start stop = do
      reporting "failed to allow ports in firewall"
          (run_bin ("allow" ∷ (start <> ":" <> stop <> "/tcp") ∷ []))
      pure tt

    unfoldable pub ufw : Firewall (List Rule)
    ufw = record {
      is_enabled = ufw_is_enabled;
      allow_tcp_port = ufw_allow;
      allow_tcp_port_range = ufw_allow_range;
      flush_rules = pure tt;
      is_port_open = ufw_is_port_open;
    }
