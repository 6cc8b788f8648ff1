-- ===== src/Logging/Backend/Filter.antt =====
-- Which messages each backend writes.
use smerp.Base.{
  ℕ, ◌-◌, ◌≢◌, ◌≤◌, ◌≡◌, refl, Bool, true, false, List, [], ◌∷◌, leb, if◌then◌else◌, arith,
}
use smerp.Logging.Level.{
  Level, rank, loglevel_data, loglevel_trace, loglevel_debug, loglevel_info, loglevel_notice,
  loglevel_warning, loglevel_error, loglevel_severe, loglevel_critical, loglevel_alert,
  loglevel_fatal, loglevel_undefined,
}
use smerp.Logging.Backend.{
  LogBackend, Entry, on_stderr, in_file, to_syslog, Priority, log_emerg, log_alert, log_crit,
  log_err, log_warning, log_notice, log_info, log_debug, level_to_syslog_level,
}

pub data Place : Type 0 where
  console_place file_place syslog_place : Place

abbrev is_at : Place → Entry → Bool
is_at console_place (on_stderr l m) = true
is_at file_place (in_file f l m) = true
is_at syslog_place (to_syslog o p m) = true
is_at _ _ = false

abbrev pub reaches : Place → List Entry → Bool
reaches p [] = false
reaches p (e ∷ es) = if is_at p e then true else reaches p es

-- The level from which on a place is written to, and whether it can be.
abbrev pub threshold : LogBackend → Place → Level
threshold b console_place = b.console.log_level
threshold b file_place = b.logfile.log_level
threshold b syslog_place = b.syslog.log_level

abbrev pub is_ready : LogBackend → Place → Bool
is_ready b console_place = true
is_ready b file_place = b.logfile.is_open
is_ready b syslog_place = true

-- The numbers of syslog(3), 0 for the most severe.
abbrev severity : Priority → ℕ
severity log_emerg = 0
severity log_alert = 1
severity log_crit = 2
severity log_err = 3
severity log_warning = 4
severity log_notice = 5
severity log_info = 6
severity log_debug = 7

-- The severity that a level has, up to the fatal one.
abbrev severity_of : ℕ → ℕ
severity_of n = if leb n 2 then 7 else if leb n 6 then 9 - n else if leb n 8 then 2 else 10 - n

severity-rank :
    (l : Level) → l ≢ loglevel_undefined → severity (level_to_syslog_level l) ≡ severity_of (rank l)
unfolding level_to_syslog_level rank
severity-rank loglevel_data d = refl
severity-rank loglevel_trace d = refl
severity-rank loglevel_debug d = refl
severity-rank loglevel_info d = refl
severity-rank loglevel_notice d = refl
severity-rank loglevel_warning d = refl
severity-rank loglevel_error d = refl
severity-rank loglevel_severe d = refl
severity-rank loglevel_critical d = refl
severity-rank loglevel_alert d = refl
severity-rank loglevel_fatal d = refl
severity-rank loglevel_undefined d = absurd (d refl)

below_undefined : (l : Level) → l ≢ loglevel_undefined → rank l ≤ 10
unfolding rank
below_undefined loglevel_data d = omega arith
below_undefined loglevel_trace d = omega arith
below_undefined loglevel_debug d = omega arith
below_undefined loglevel_info d = omega arith
below_undefined loglevel_notice d = omega arith
below_undefined loglevel_warning d = omega arith
below_undefined loglevel_error d = omega arith
below_undefined loglevel_severe d = omega arith
below_undefined loglevel_critical d = omega arith
below_undefined loglevel_alert d = omega arith
below_undefined loglevel_fatal d = omega arith
below_undefined loglevel_undefined d = absurd (d refl)

-- The order of the levels is that of the syslog severities: a message of a higher level is not
-- less severe, if neither level is the undefined one.
level_to_syslog_level_monotone :
    (l l' : Level)
    → l ≢ loglevel_undefined
    → l' ≢ loglevel_undefined
    → rank l ≤ rank l'
    → severity (level_to_syslog_level l') ≤ severity (level_to_syslog_level l)
level_to_syslog_level_monotone l l' d d' h =
    ground
      (arith, severity-rank l d, severity-rank l' d', below_undefined l d, below_undefined l' d')
