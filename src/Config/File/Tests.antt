-- ===== src/Config/File/Tests.antt =====
-- The theorems on the configuration file at a concrete file.
use smerp.Base.{
  ℕ, ◌<◌, ◌≡◌, refl, ap, Bool, true, false, List, [], ◌∷◌, Option, none, some, inr, if◌then◌else◌,
  codes, same, map, arith,
}
use smerp.Logging.Level
use smerp.Logging.Level.{loglevel_undefined}
use smerp.Logging.Facility.{facility_daemon}
use smerp.Config.CommandLine.{new_config}
use smerp.Config.Application.{LogConfig, server_check, application, application_check}
use smerp.Config.File.{
  Library, CfgFileConfig, short_mod, or_else, shared, resolve_path, resolve_elements, port_of,
  get_bool_value,
}
use smerp.Config.File.Parse.{
  parse, checked_endpoint, parse_tree, listen, listen_entry, add_entry, add_ssl, settings,
  log_stderr, log_file, log_syslog,
}
use smerp.Config.File.Endpoints.{IsListed}
use smerp.Config.File.Checked.{IsUsable, parse-IsUsable, parse-passes}

-- A file with one entry, for a socket with TLS on port 80, and a log file without a name.
abbrev settings_of : List ℕ → Option (List ℕ)
settings_of label =
    if same label (codes "address")
    then some (codes "*")
    else if same label (codes "port")
    then some (codes "80")
    else none

abbrev pub library : Library
library = record {
  Tree = Unit;
  read_info = λ file. inr tt;
  get_child = λ t label. some ((codes "SSLsocket", tt) ∷ []);
  bad_path = λ label. label;
  get = λ t label. settings_of label;
  get_number = λ bound t label. none;
  has_child = λ t label. same label (codes "logging.logFile");
  lexical_port = λ s. if same s (codes "80") then some 80 else none;
  decimal = λ n. codes "80";
  to_upper = λ s. s;
  trim = λ s. s;
  exists = λ file. true;
  current_path = codes "/etc";
  absolute = λ path base. b'/' ∷ path;
  branch_path = λ path. codes "/etc";
  elements = λ path. path ∷ [];
  slash = λ path it. it;
  parent_path = λ path. path;
  file_name = λ path. path;
  is_symlink = λ path. false;
}

pub library_port : (s : List ℕ) (port : ℕ) → library.lexical_port s ≡ some port → port < short_mod
library_port s port e = below (same s (codes "80")) e
  where
    below : (b : Bool) → (if b then some 80 else none) ≡ some port → port < short_mod
    below true r = omega (arith, ap (λ o. or_else o 0) r)
    below false r = omega (arith, ap (λ o. or_else o 0) r)

abbrev pub fresh_log : LogConfig
fresh_log = record {
  log_to_stderr = false;
  stderr_log_level = loglevel_undefined;
  log_to_file = false;
  log_file = [];
  log_file_log_level = loglevel_undefined;
  log_to_syslog = false;
  syslog_facility = facility_daemon;
  syslog_log_level = loglevel_undefined;
}

abbrev pub fresh : CfgFileConfig
fresh = record {
  file = [];
  user = [];
  group = [];
  pid_file = [];
  service_name = [];
  service_display_name = [];
  service_description = [];
  threads = 0;
  max_connections = 0;
  address = [];
  ssl_address = [];
  idle_timeout = 0;
  request_timeout = 0;
  answer_timeout = 0;
  process_timeout = 0;
  db_host = [];
  db_port = 0;
  db_name = [];
  db_user = [];
  db_password = [];
  logging = fresh_log;
  syslog_ident = [];
  err_msg = [];
}

pub fresh-IsListed : IsListed fresh
fresh-IsListed = record { plain = tt; ssl = tt }

abbrev parsed : CfgFileConfig
parsed = (parse library (codes "smerp.conf") fresh).1

parsed_ok : parse library (codes "smerp.conf") fresh ≡ (true, parsed)
unfolding parse resolve_path resolve_elements parse_tree listen listen_entry add_entry add_ssl
    port_of get_bool_value settings log_stderr log_file log_syslog Level.str2log_level
    Level.level_of
parsed_ok = refl

parse-IsUsable_example : IsUsable parsed
parse-IsUsable_example =
    parse-IsUsable library (λ p base. refl) library_port (codes "smerp.conf") fresh parsed
      fresh-IsListed parsed_ok

parse-passes_example :
    ((server_check (map (checked_endpoint library) parsed.ssl_address)).0 ≡ true)
    × (application_check (application fresh_log (new_config false) (shared parsed)) ≡ true)
parse-passes_example =
    parse-passes library (λ p base. refl) library_port (codes "smerp.conf") fresh parsed fresh_log
      (new_config false) fresh-IsListed parsed_ok
