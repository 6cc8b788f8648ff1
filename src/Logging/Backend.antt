-- ===== src/Logging/Backend.antt =====
-- `LogBackend` and its three backends of src/logBackend.cpp, built for a POSIX system. The text of
-- a line is its level and message: the time stamp is left out. Whether a file can be opened and
-- which of the facilities <syslog.h> defines are parameters.
pub mod Filter
use smerp.Base.{ℕ, Bool, true, false, ◌&&◌, List, [], ◌∷◌, ◌++◌, leb, if◌then◌else◌, codes}
use smerp.Logging.Level.{
  Level, loglevel_data, loglevel_trace, loglevel_debug, loglevel_info, loglevel_notice,
  loglevel_warning, loglevel_error, loglevel_severe, loglevel_critical, loglevel_alert,
  loglevel_fatal, loglevel_undefined, rank,
}
use smerp.Logging.Facility.{
  Facility, facility_kern, facility_user, facility_mail, facility_daemon, facility_auth,
  facility_syslog, facility_lpr, facility_news, facility_uucp, facility_cron, facility_authpriv,
  facility_ftp, facility_ntp, facility_security, facility_console, facility_audit, facility_local0,
  facility_local1, facility_local2, facility_local3, facility_local4, facility_local5,
  facility_local6, facility_local7, facility_undefined,
}

-- The priorities and facilities of <syslog.h>.
pub data Priority : Type 0 where
  log_emerg log_alert log_crit log_err log_warning log_notice log_info log_debug : Priority

pub data SyslogNumber : Type 0 where
  log_kern log_user log_mail log_daemon log_auth log_syslog : SyslogNumber
  log_lpr log_news log_uucp log_cron log_authpriv log_ftp : SyslogNumber
  log_ntp log_security log_console log_audit log_local0 log_local1 : SyslogNumber
  log_local2 log_local3 log_local4 log_local5 log_local6 log_local7 : SyslogNumber
  raw : ℕ → SyslogNumber

-- Which of the facilities that not every system has are defined.
pub record Defined : Type 0 where
  pub has_authpriv : Bool
  pub has_ftp : Bool
  pub has_ntp : Bool
  pub has_security : Bool
  pub has_console : Bool
  pub has_audit : Bool

pub record ConsoleLogBackend : Type 0 where
  pub log_level : Level

pub record LogfileBackend : Type 0 where
  pub log_level : Level
  pub filename : List ℕ
  pub is_open : Bool

-- `opened` is what the last `openlog` was given.
pub record SyslogBackend : Type 0 where
  pub log_level : Level
  pub ident : List ℕ
  pub facility : SyslogNumber
  pub opened : List ℕ × SyslogNumber

pub record LogBackend : Type 0 where
  pub console : ConsoleLogBackend
  pub logfile : LogfileBackend
  pub syslog : SyslogBackend

-- What is written, and where.
pub data Entry : Type 0 where
  on_stderr : Level → List ℕ → Entry
  in_file : List ℕ → Level → List ℕ → Entry
  to_syslog : List ℕ × SyslogNumber → Priority → List ℕ → Entry

-- `level >= logLevel_`
abbrev pub passes : Level → Level → Bool
passes level log_level = leb (rank log_level) (rank level)

unfoldable pub new_console : ConsoleLogBackend
new_console = record { log_level = loglevel_error }

unfoldable pub new_logfile : LogfileBackend
new_logfile = record { log_level = loglevel_undefined; filename = []; is_open = false }

-- The facility is the number of the enumerator, as the constructor passes it.
unfoldable pub new_syslog : SyslogBackend
new_syslog = record {
  log_level = loglevel_undefined;
  ident = codes "<undefined>";
  facility = raw 3;
  opened = (codes "<undefined>", raw 3);
}

unfoldable pub console_log : ConsoleLogBackend → Level → List ℕ → List Entry
console_log b level msg = if passes level b.log_level then on_stderr level msg ∷ [] else []

unfoldable pub logfile_reopen : (List ℕ → Bool) → LogfileBackend → LogfileBackend
logfile_reopen can_open b = record b { is_open = can_open b.filename }

unfoldable pub logfile_set_filename : (List ℕ → Bool) → LogfileBackend → List ℕ → LogfileBackend
logfile_set_filename can_open b filename =
    logfile_reopen can_open (record b { filename = filename })

unfoldable pub logfile_log : LogfileBackend → Level → List ℕ → List Entry
logfile_log b level msg =
    if passes level b.log_level && b.is_open then in_file b.filename level msg ∷ [] else []

unfoldable pub level_to_syslog_level : Level → Priority
level_to_syslog_level loglevel_data = log_debug
level_to_syslog_level loglevel_trace = log_debug
level_to_syslog_level loglevel_debug = log_debug
level_to_syslog_level loglevel_info = log_info
level_to_syslog_level loglevel_notice = log_notice
level_to_syslog_level loglevel_warning = log_warning
level_to_syslog_level loglevel_error = log_err
level_to_syslog_level loglevel_severe = log_crit
level_to_syslog_level loglevel_critical = log_crit
level_to_syslog_level loglevel_alert = log_alert
level_to_syslog_level loglevel_fatal = log_emerg
level_to_syslog_level loglevel_undefined = log_err

unfoldable pub facility_to_syslog_facility : Defined → Facility → SyslogNumber
facility_to_syslog_facility d facility_kern = log_kern
facility_to_syslog_facility d facility_user = log_user
facility_to_syslog_facility d facility_mail = log_mail
facility_to_syslog_facility d facility_daemon = log_daemon
facility_to_syslog_facility d facility_auth = log_auth
facility_to_syslog_facility d facility_syslog = log_syslog
facility_to_syslog_facility d facility_lpr = log_lpr
facility_to_syslog_facility d facility_news = log_news
facility_to_syslog_facility d facility_uucp = log_uucp
facility_to_syslog_facility d facility_cron = log_cron
facility_to_syslog_facility d facility_authpriv = if d.has_authpriv then log_authpriv else log_auth
facility_to_syslog_facility d facility_ftp = if d.has_ftp then log_ftp else log_daemon
facility_to_syslog_facility d facility_ntp = if d.has_ntp then log_ntp else log_daemon
facility_to_syslog_facility d facility_security = if d.has_security then log_security else log_auth
facility_to_syslog_facility d facility_console = if d.has_console then log_console else log_daemon
facility_to_syslog_facility d facility_audit = if d.has_audit then log_audit else log_auth
facility_to_syslog_facility d facility_local0 = log_local0
facility_to_syslog_facility d facility_local1 = log_local1
facility_to_syslog_facility d facility_local2 = log_local2
facility_to_syslog_facility d facility_local3 = log_local3
facility_to_syslog_facility d facility_local4 = log_local4
facility_to_syslog_facility d facility_local5 = log_local5
facility_to_syslog_facility d facility_local6 = log_local6
facility_to_syslog_facility d facility_local7 = log_local7
facility_to_syslog_facility d facility_undefined = log_daemon

unfoldable pub syslog_reopen : SyslogBackend → SyslogBackend
syslog_reopen b = record b { opened = (b.ident, b.facility) }

unfoldable pub syslog_set_facility : Defined → SyslogBackend → Facility → SyslogBackend
syslog_set_facility d b facility =
    syslog_reopen (record b { facility = facility_to_syslog_facility d facility })

unfoldable pub syslog_set_ident : SyslogBackend → List ℕ → SyslogBackend
syslog_set_ident b ident = syslog_reopen (record b { ident = ident })

unfoldable pub syslog_log : SyslogBackend → Level → List ℕ → List Entry
syslog_log b level msg =
    if passes level b.log_level
    then to_syslog b.opened (level_to_syslog_level level) msg ∷ []
    else []

unfoldable pub new_log_backend : LogBackend
new_log_backend = record { console = new_console; logfile = new_logfile; syslog = new_syslog }

-- The setters of `LogBackendImpl`, as its clients call them.
pub data Setting : Type 0 where
  set_console_level : Level → Setting
  set_logfile_level : Level → Setting
  set_logfile_name : List ℕ → Setting
  set_syslog_level : Level → Setting
  set_syslog_facility : Facility → Setting
  set_syslog_ident : List ℕ → Setting

unfoldable pub configure : (List ℕ → Bool) → Defined → LogBackend → Setting → LogBackend
configure can_open d b (set_console_level l) = record b { console = record { log_level = l } }
configure can_open d b (set_logfile_level l) = record b {
  logfile = record b.logfile { log_level = l };
}
configure can_open d b (set_logfile_name n) = record b {
  logfile = logfile_set_filename can_open b.logfile n;
}
configure can_open d b (set_syslog_level l) = record b {
  syslog = record b.syslog { log_level = l };
}
configure can_open d b (set_syslog_facility f) = record b {
  syslog = syslog_set_facility d b.syslog f;
}
configure can_open d b (set_syslog_ident i) = record b { syslog = syslog_set_ident b.syslog i }

unfoldable pub log : LogBackend → Level → List ℕ → List Entry
log b level msg =
    console_log b.console level msg
    ++ (logfile_log b.logfile level msg ++ syslog_log b.syslog level msg)
