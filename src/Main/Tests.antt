-- ===== src/Main/Tests.antt =====
-- The start of the program as a daemon, and in the foreground.
use smerp.Base.{[], ◌≡◌, refl, true, false, none, some, inl, codes}
use smerp.Logging.Level
use smerp.Logging.Level.{Level, loglevel_info}
use smerp.Config.CommandLine
use smerp.Config.CommandLine.{VariablesMap, new_config}
use smerp.Config.Application.{ApplicationConfiguration, application}
use smerp.Config.File
use smerp.Config.File.{CfgFileConfig, shared}
use smerp.Config.File.Parse
use smerp.Config.File.Tests.{library, library_port, fresh_log, fresh, fresh-IsListed}
use smerp.Main
use smerp.Main.{System, Run, start, posix_main}
use smerp.Main.Privileges.{served_as, Orderly, start-Orderly}
use smerp.Main.Startup.{MaybeStarted, command_given, posix_main-MaybeStarted}

abbrev no_options : VariablesMap
no_options = record {
  version = false;
  help = false;
  print_conf = false;
  check_conf = false;
  test_conf = false;
  foreground = false;
  use_config_logging = false;
  debug = none;
  config_file = none;
  user = some (codes "smerp");
  group = some (codes "daemon");
}

-- A system on which everything succeeds. The file of the process id is there, and is locked.
abbrev system : System
system = record {
  library = library;
  locale_set = true;
  text_domain_bound = true;
  text_domain_set = true;
  options = inl no_options;
  indeterminate = false;
  fresh_log = fresh_log;
  fresh_file = fresh;
  lock = λ path. some false;
  daemon_fails = false;
  getgrnam = λ name. some 1;
  getpwnam = λ name. some 33;
  setgid_fails = λ gid. false;
  setuid_fails = λ uid. false;
  pid_file_good = λ path. true;
  server_starts = true;
}

posix_main-MaybeStarted_example : MaybeStarted system (command_given system) (posix_main system)
posix_main-MaybeStarted_example =
    posix_main-MaybeStarted system (λ p base. refl) library_port fresh-IsListed

runs_as_daemon : served_as none none (posix_main system).0 ≡ some (some 1, some 33)
unfolding posix_main Main.with_arguments Main.run_simple Main.choose Main.configure Main.run_command
    start Main.detach Main.drop_privileges Main.serve CommandLine.parse CommandLine.take_commands
    CommandLine.take_command CommandLine.take_debug File.choose_file Parse.parse application
    File.resolve_path File.resolve_elements Parse.parse_tree Parse.listen Parse.listen_entry
    Parse.add_entry Parse.add_ssl File.port_of File.get_bool_value Parse.settings Parse.log_stderr
    Parse.log_file Parse.log_syslog Level.str2log_level Level.level_of
runs_as_daemon = refl

abbrev daemon : ApplicationConfiguration
daemon = record {
  foreground = false;
  user = codes "smerp";
  group = codes "daemon";
  logging = fresh_log;
}

start-Orderly_example : Orderly system daemon fresh none none false [] (start system daemon fresh)
start-Orderly_example = start-Orderly system daemon fresh
