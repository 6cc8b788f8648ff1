-- ===== src/Main.antt =====
-- `_SMERP_posixMain` of src/posixMain.cpp: what the program does, one action after another, and its
-- exit code. What the system answers is a parameter. Texts that are printed and logged are left out.
-- An exception is that of `file_lock`, or of the handler, the server and its thread.
pub mod Cases
pub mod Startup
pub mod Privileges
mod Tests
use smerp.Base.{ℕ, Bool, true, false, List, [], ◌∷◌, Option, none, some, ◌⊎◌, if◌then◌else◌, codes}
use smerp.Logging.Level.{Level}
use smerp.Logging.Facility.{Facility}
use smerp.Config.CommandLine.{
  Command, default, print_help, print_version, check_config, test_config, print_config, unknown,
  CmdLineConfig, VariablesMap, new_config,
}
use smerp.Config.CommandLine
use smerp.Config.Application.{
  LogConfig, ApplicationConfiguration, application, application_check, is_empty,
}
use smerp.Config.File.{Library, CfgFileConfig, TcpEndpoint, SslEndpoint, choose_file, shared}
use smerp.Config.File.Parse

pub data Action : Type 0 where
  prints_usage prints_version prints_config : Action
  prints_check : Bool → Action
  sets_console_level : Level → Action
  daemonizes : Action
  sets_syslog : Level → Facility → List ℕ → Action
  sets_gid sets_uid : ℕ → Action
  writes_pid_file : List ℕ → Action
  sets_logfile : Level → List ℕ → Action
  blocks_signals restores_signals blocks_stop_signals waits_for_signal : Action
  starts_server : List TcpEndpoint → List SslEndpoint → ℕ → ℕ → Action
  stops_server joins_thread : Action
  removes_pid_file : List ℕ → Action

-- The actions, and the exit code.
abbrev pub Run : Type 0
Run = List Action × ℕ

abbrev pub act : Action → Run → Run
act a (actions, code) = (a ∷ actions, code)

-- `ErrorCodes`
abbrev pub ok : Run
ok = ([], 0)

abbrev pub failure : Run
failure = ([], 1)

-- The answers of the system. `lock` is what `try_lock` returns, `none` for an exception of the
-- constructor of the lock; `options` is what boost makes of the arguments; `indeterminate` is the
-- field that the constructor of the command line leaves.
pub record System : Type 1 where
  pub library : Library
  pub locale_set : Bool
  pub text_domain_bound : Bool
  pub text_domain_set : Bool
  pub options : VariablesMap ⊎ List ℕ
  pub indeterminate : Bool
  pub fresh_log : LogConfig
  pub fresh_file : CfgFileConfig
  pub lock : List ℕ → Option Bool
  pub daemon_fails : Bool
  pub getgrnam : List ℕ → Option ℕ
  pub getpwnam : List ℕ → Option ℕ
  pub setgid_fails : ℕ → Bool
  pub setuid_fails : ℕ → Bool
  pub pid_file_good : List ℕ → Bool
  pub server_starts : Bool

abbrev main_config : List ℕ
main_config = codes "/etc/smerp.conf"

abbrev user_config : List ℕ
user_config = codes "~/smerp.conf"

abbrev local_config : List ℕ
local_config = codes "./smerp.conf"

module _ (sys : System) where
  open sys use {library}

  -- From the blocking of the signals to the end; the configuration's list of endpoints, threads and
  -- the like are those of its file.
  unfoldable pub serve : ApplicationConfiguration → CfgFileConfig → Run
  serve config file = act blocks_signals (
      if sys.server_starts
      then act (starts_server file.address file.ssl_address file.threads file.max_connections) (
          act restores_signals (
            act blocks_stop_signals (
              act waits_for_signal (
                act stops_server (
                  act joins_thread
                    (if config.foreground then ok else act (removes_pid_file file.pid_file) ok))))))
      else failure)

  -- The group and the user are looked up first, and then the group is set before the user.
  unfoldable pub drop_privileges : ApplicationConfiguration → CfgFileConfig → Run
  drop_privileges config file = elim (sys.getgrnam config.group) [
    | none ↦ failure
    | some gid ↦ elim (sys.getpwnam config.user) [
      | none ↦ failure
      | some uid ↦
          if sys.setgid_fails gid
          then failure
          else act (sets_gid gid) (
              if sys.setuid_fails uid
              then failure
              else act (sets_uid uid) (
                  if sys.pid_file_good file.pid_file
                  then act (writes_pid_file file.pid_file) (
                      act (sets_logfile config.logging.log_file_log_level config.logging.log_file)
                        (serve config file))
                  else failure))
    ]
  ]

  -- The application's identity for syslog is not copied from the file, and is empty.
  unfoldable pub detach : ApplicationConfiguration → CfgFileConfig → Run
  detach config file =
      if sys.daemon_fails
      then failure
      else act daemonizes (
          act (sets_syslog config.logging.syslog_log_level config.logging.syslog_facility [])
            (drop_privileges config file))

  -- Behind the commands. The daemon goes on where it cannot lock the file of process id.
  unfoldable pub start : ApplicationConfiguration → CfgFileConfig → Run
  start config file =
      if config.foreground
      then serve config file
      else if library.exists file.pid_file
      then elim (sys.lock file.pid_file) [
        | none ↦ failure
        | some true ↦ failure
        | some false ↦ detach config file
      ]
      else detach config file

  unfoldable pub run_command : Command → ApplicationConfiguration → CfgFileConfig → Run
  run_command check_config config file =
      act prints_version (act (prints_check (application_check config)) ok)
  run_command print_config config file = act prints_version (act prints_config ok)
  run_command test_config config file = ok
  run_command default config file = start config file
  run_command print_help config file = start config file
  run_command print_version config file = start config file
  run_command unknown config file = start config file

  -- With the configuration's file.
  unfoldable pub configure : CmdLineConfig → List ℕ → Run
  configure cmd path =
      let (parsed, file) = Parse.parse library path sys.fresh_file in
      let config = application sys.fresh_log cmd (shared file) in
      if parsed
      then act (sets_console_level config.logging.stderr_log_level)
          (run_command cmd.command config file)
      else failure

  abbrev pub config_file : CmdLineConfig → Option (List ℕ)
  config_file cmd =
      if is_empty cmd.cfg_file
      then choose_file library (some main_config) (some user_config) (some local_config)
      else some cmd.cfg_file

  unfoldable pub choose : CmdLineConfig → Run
  choose cmd = elim (config_file cmd) [ none ↦ failure | some path ↦ configure cmd path ]

  unfoldable pub run_simple : Command → CmdLineConfig → Run
  run_simple print_version cmd = act prints_version ok
  run_simple print_help cmd = act prints_version (act prints_usage ok)
  run_simple check_config cmd = choose cmd
  run_simple print_config cmd = choose cmd
  run_simple test_config cmd = choose cmd
  run_simple default cmd = choose cmd
  run_simple unknown cmd = choose cmd

  unfoldable pub with_arguments : Run
  with_arguments =
      let (parsed, cmd) =
        CommandLine.parse library.to_upper library.trim sys.options
          (new_config sys.indeterminate) in
      if parsed then run_simple cmd.command cmd else act prints_usage failure

  unfoldable pub posix_main : Run
  posix_main =
      if sys.locale_set
      then (if sys.text_domain_bound
          then (if sys.text_domain_set then with_arguments else failure)
          else failure)
      else with_arguments
