-- ===== src/Config/Application.antt =====
-- The configuration of the application and of its sections, of src/appConfig.hpp and
-- src/appConfig.cpp, without their parsing and printing.
pub mod Checks
use smerp.Base.{ℕ, Bool, true, false, ◌&&◌, List, [], ◌∷◌, ◌++◌, if◌then◌else◌, codes}
use smerp.Logging.Level.{Level}
use smerp.Logging.Facility.{Facility}
use smerp.Config.CommandLine.{CmdLineConfig}

-- The parts of `ServerSSLendpoint` that are checked; `name` is what `toString` returns.
pub record SslEndpoint : Type 0 where
  pub name : List ℕ
  pub certificate : List ℕ
  pub key : List ℕ
  pub verify_client_cert : Bool
  pub ca_directory : List ℕ
  pub ca_chain : List ℕ

-- `std::string::empty`
abbrev pub is_empty : List ℕ → Bool
is_empty [] = true
is_empty (_ ∷ _) = false

-- What `check` prints, line by line, and what it returns.
abbrev pub Report : Type 0
Report = Bool × List (List ℕ)

-- `os << msg; correct = false;` if the test holds.
abbrev pub complain : Bool → List ℕ → Report → Report
complain wrong msg (correct, os) = if wrong then (false, os ++ (msg ∷ [])) else (correct, os)

unfoldable pub check_endpoint : SslEndpoint → Report → Report
check_endpoint e r =
    complain (e.verify_client_cert && (is_empty e.ca_directory && is_empty e.ca_chain))
      (codes
          "Client SSL certificate verification requested but no CA directory or CA chain file specified for "
        ++ e.name)
      (complain (is_empty e.key) (codes "No SSL key specified for " ++ e.name)
        (complain (is_empty e.certificate) (codes "No SSL certificate specified for " ++ e.name) r))

unfoldable pub check_endpoints : List SslEndpoint → Report → Report
check_endpoints [] r = r
check_endpoints (e ∷ es) r = check_endpoints es (check_endpoint e r)

-- `ServerConfiguration::check`
unfoldable pub server_check : List SslEndpoint → Report
server_check ssl_address = check_endpoints ssl_address (true, [])

-- `LoggerConfiguration::check`
unfoldable pub logger_check : Bool → List ℕ → Report
logger_check log_to_file log_file =
    if log_to_file && is_empty log_file
    then (false, codes "Log to file requested but no log file specified" ∷ [])
    else (true, [])

-- What the configuration file and the application share, but for the fields that are only copied.
pub record LogConfig : Type 0 where
  pub log_to_stderr : Bool
  pub stderr_log_level : Level
  pub log_to_file : Bool
  pub log_file : List ℕ
  pub log_file_log_level : Level
  pub log_to_syslog : Bool
  pub syslog_facility : Facility
  pub syslog_log_level : Level

pub record CfgFileConfig : Type 0 where
  pub user : List ℕ
  pub group : List ℕ
  pub logging : LogConfig

pub record ApplicationConfiguration : Type 0 where
  pub foreground : Bool
  pub user : List ℕ
  pub group : List ℕ
  pub logging : LogConfig

-- `ApplicationConfiguration::ApplicationConfiguration`; what it does not set keeps the contents of
-- `fresh`.
unfoldable pub application : LogConfig → CmdLineConfig → CfgFileConfig → ApplicationConfiguration
application fresh cmd_line cfg_file = record {
  foreground = cmd_line.foreground;
  user = if is_empty cmd_line.user then cfg_file.user else cmd_line.user;
  group = if is_empty cmd_line.group then cfg_file.group else cmd_line.group;
  logging =
      if cmd_line.foreground
      then record fresh {
        log_to_stderr = true;
        stderr_log_level = cmd_line.debug_level;
        log_to_file = false;
        log_to_syslog = false;
      }
      else cfg_file.logging;
}

-- `ApplicationConfiguration::check`
unfoldable pub application_check : ApplicationConfiguration → Bool
application_check a =
    if a.logging.log_to_file then (if is_empty a.logging.log_file then false else true) else true
