-- ===== src/Config/Tests.antt =====
-- The theorems on the configuration at concrete inputs.
use smerp.Base.{map, ◌≡◌, refl, true, false, ◌&&◌, List, [], ◌∷◌, none, some, inl, leb, codes}
use smerp.Logging.Level.{loglevel_info, loglevel_undefined}
use smerp.Logging.Facility.{facility_daemon}
use smerp.Logging.Names.{upper}
use smerp.Config.CommandLine.{VariablesMap, new_config, parse}
use smerp.Config.CommandLine.Commands.{commands, debug_ok, parse-accepts}
use smerp.Config.Application.{SslEndpoint, LogConfig, CfgFileConfig}

abbrev two_commands : VariablesMap
two_commands = record {
  version = true;
  help = false;
  print_conf = true;
  check_conf = false;
  test_conf = false;
  foreground = true;
  use_config_logging = false;
  debug = some (codes "info");
  config_file = none;
  user = none;
  group = none;
}

two_commands_refused : (parse (map upper) (λ s. s) (inl two_commands) (new_config false)).0 ≡ false
unfolding parse smerp.Config.CommandLine.take_commands smerp.Config.CommandLine.take_command
two_commands_refused = refl

parse-accepts_example :
    (parse (map upper) (λ s. s) (inl two_commands) (new_config false)).0
    ≡ (leb (commands two_commands) 1 && debug_ok (map upper) (λ s. s) two_commands.debug)
parse-accepts_example = parse-accepts (map upper) (λ s. s) two_commands false

abbrev endpoints : List SslEndpoint
endpoints =
    record {
      name = codes "localhost:7661";
      certificate = codes "cert";
      key = codes "key";
      verify_client_cert = true;
      ca_directory = [];
      ca_chain = [];
    }
    ∷ []

abbrev log_config : LogConfig
log_config = record {
  log_to_stderr = false;
  stderr_log_level = loglevel_undefined;
  log_to_file = true;
  log_file = [];
  log_file_log_level = loglevel_info;
  log_to_syslog = false;
  syslog_facility = facility_daemon;
  syslog_log_level = loglevel_undefined;
}

abbrev cfg_file : CfgFileConfig
cfg_file = record { user = []; group = []; logging = log_config }
