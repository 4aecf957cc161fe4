-- ===== src/Daemons/Manager.antt =====
-- internal/daemon/systemd.go, over the D-Bus connection, which is a parameter. StopDaemon and
-- GetDaemonStatus are those of the uninstall flow.
use eks_hybrid.Base.{
  String, ◌<>◌, str_eq, Bool, true, false, List, [], ◌∷◌, errorf, Result, ok, err, if◌then◌else◌,
}
use eks_hybrid.Machine.{Host, Exec, lift, ◌>>=◌}
use eks_hybrid.Flows.Uninstall.{DaemonStatus, get_daemon_status, stop_daemon}

-- dbus.Conn: what is called of it. The two calls on unit files answer with the types of the changes.
pub record Bus : Type 0 where
  pub reload : Exec Unit
  pub start_unit : String → String → Exec Unit
  -- with the mode
  pub restart_unit : String → String → Exec Unit
  pub enable_unit_files : List String → Exec (List String)
  pub disable_unit_files : List String → Exec (List String)
  pub close : Exec Unit

-- daemon.DaemonManager
pub record DaemonManager : Type 0 where
  pub start_daemon : String → Exec Unit
  pub stop_daemon : String → Exec Unit
  pub restart_daemon : String → Exec Unit
  pub get_daemon_status : String → Exec DaemonStatus
  pub enable_daemon : String → Exec Unit
  pub disable_daemon : String → Exec Unit
  pub daemon_reload : Exec Unit
  pub close : Exec Unit

abbrev pub service_unit_name : String → String
service_unit_name name = name <> ".service"

abbrev pub check_enabled : List String → Result (Unit {0})
check_enabled [] = ok tt
check_enabled (t ∷ ts) =
    if str_eq t "symlink" then ok tt else err (errorf ("unexpected unit file change type: " <> t))

abbrev pub check_disabled : List String → Result (Unit {0})
check_disabled (t ∷ []) =
    if str_eq t "unlink" then ok tt else err (errorf ("unexpected unit file change type: " <> t))
check_disabled _ = err (errorf "unexpected number of unit file changes")

-- OperationOptions, of which only the mode and whether a result is asked for matter
pub record OperationOptions : Type 0 where
  pub has_result : Bool
  pub mode : String

-- ApplyAll: the options `o` applied to `base`
abbrev pub apply_all : OperationOptions → OperationOptions → OperationOptions
apply_all o base = record {
  has_result = if o.has_result then true else base.has_result;
  mode = if str_eq o.mode "" then base.mode else o.mode;
}

module _ (h : Host) (b : Bus) where
  unfoldable pub enable_daemon : String → Exec Unit
  enable_daemon name = do
    changes ← b.enable_unit_files (service_unit_name name ∷ [])
    lift (check_enabled changes)

  unfoldable pub disable_daemon : String → Exec Unit
  disable_daemon name = do
    changes ← b.disable_unit_files (service_unit_name name ∷ [])
    lift (check_disabled changes)

  abbrev pub start_daemon : String → Exec Unit
  start_daemon name = b.start_unit (service_unit_name name) "replace"

  -- RestartDaemon with one set of options
  abbrev pub restart_daemon : OperationOptions → String → Exec Unit
  restart_daemon o name =
      b.restart_unit (service_unit_name name)
        (apply_all o (record { has_result = false; mode = "replace" })).mode

  -- NewDaemonManager, once the connection is there
  unfoldable pub systemd : DaemonManager
  systemd = record {
    start_daemon = start_daemon;
    stop_daemon = stop_daemon h;
    restart_daemon = restart_daemon (record { has_result = false; mode = "" });
    get_daemon_status = get_daemon_status h;
    enable_daemon = enable_daemon;
    disable_daemon = disable_daemon;
    daemon_reload = b.reload;
    close = b.close;
  }
