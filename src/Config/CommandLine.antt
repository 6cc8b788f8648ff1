-- ===== src/Config/CommandLine.antt =====
-- `CmdLineConfig` of src/commandLine.hpp and src/commandLine.cpp. What boost::program_options made
-- of the arguments is an argument, and so are its `trim` and `to_upper`.
pub mod Commands
use smerp.Base.{
  ℕ, Bool, true, false, List, [], ◌∷◌, ◌++◌, Option, none, some, if◌then◌else◌, codes, ◌⊎◌, inl,
  inr,
}
use smerp.Logging.Level.{
  Level, loglevel_data, loglevel_trace, loglevel_debug, loglevel_info, loglevel_notice,
  loglevel_warning, loglevel_error, loglevel_severe, loglevel_critical, loglevel_alert,
  loglevel_fatal, loglevel_undefined, str2log_level,
}

pub data Command : Type 0 where
  default print_help print_version check_config test_config print_config unknown : Command

pub record CmdLineConfig : Type 0 where
  pub command : Command
  pub foreground : Bool
  pub user : List ℕ
  pub group : List ℕ
  pub debug_level : Level
  pub cfg_file : List ℕ
  pub use_config_log : Bool
  pub err_msg : List ℕ

-- `variables_map`: which options were given, and the values of those that have one.
pub record VariablesMap : Type 0 where
  pub version : Bool
  pub help : Bool
  pub print_conf : Bool
  pub check_conf : Bool
  pub test_conf : Bool
  pub foreground : Bool
  pub use_config_logging : Bool
  pub debug : Option (List ℕ)
  pub config_file : Option (List ℕ)
  pub user : Option (List ℕ)
  pub group : Option (List ℕ)

-- The constructor leaves `useConfigLog` indeterminate: it is an argument.
abbrev pub new_config : Bool → CmdLineConfig
new_config indeterminate = record {
  command = default;
  foreground = false;
  user = [];
  group = [];
  debug_level = loglevel_info;
  cfg_file = [];
  use_config_log = indeterminate;
  err_msg = [];
}

abbrev pub is_default : Command → Bool
is_default default = true
is_default _ = false

-- One of the commands: it is taken if none was before, and the call returns false otherwise.
unfoldable pub take_command : Bool → Command → List ℕ → Bool × CmdLineConfig → Bool × CmdLineConfig
take_command given cmd msg (false, c) = (false, c)
take_command false cmd msg (true, c) = (true, c)
take_command true cmd msg (true, c) =
    if is_default c.command
    then (true, record c { command = cmd })
    else (false, record c { err_msg = msg })

unfoldable pub take_commands : VariablesMap → CmdLineConfig → Bool × CmdLineConfig
take_commands m c =
    take_command m.test_conf test_config
      (codes "-t (--test-config) can not be specified together with -v|-h|-p|-t")
      (take_command m.check_conf check_config
        (codes "-t (--check-config) can not be specified together with -v|-h|-p|-T")
        (take_command m.print_conf print_config
          (codes "-p (--print-config) can not be specified together with -v|-h|-t|-T")
          (take_command m.help print_help
            (codes "-h (--help) can not be specified together with -v|-p|-t|-T")
            (take_command m.version print_version
              (codes "-v (--version) can not be specified together with -h|-p|-t|-T") (true, c)))))

abbrev pub given_or : Option (List ℕ) → List ℕ → List ℕ
given_or none s = s
given_or (some t) s = t

abbrev pub with_options : VariablesMap → CmdLineConfig → CmdLineConfig
with_options m c = record c {
  foreground = if m.foreground then true else c.foreground;
  use_config_log = if m.use_config_logging then true else c.use_config_log;
}

abbrev pub with_values : VariablesMap → CmdLineConfig → CmdLineConfig
with_values m c = record c {
  cfg_file = given_or m.config_file c.cfg_file;
  user = given_or m.user c.user;
  group = given_or m.group c.group;
}

abbrev pub is_undefined : Level → Bool
is_undefined loglevel_undefined = true
is_undefined _ = false

-- `trim` and `to_upper` are those of boost.
unfoldable pub take_debug :
    (List ℕ → List ℕ) → (List ℕ → List ℕ) → VariablesMap → CmdLineConfig → Bool × CmdLineConfig
take_debug to_upper trim m c = elim m.debug [
  | none ↦ (true, with_values m c)
  | some str ↦
      let d = record c { debug_level = str2log_level to_upper trim (to_upper (trim str)) } in
      if is_undefined d.debug_level
      then (false, record d { err_msg = codes "invalid debug level \"" ++ (str ++ codes "\"") })
      else (true, with_values m d)
]

-- What boost made of the arguments, or the text of its exception.
unfoldable pub parse :
    (List ℕ → List ℕ)
    → (List ℕ → List ℕ)
    → (VariablesMap ⊎ List ℕ)
    → CmdLineConfig
    → Bool × CmdLineConfig
parse to_upper trim (inr what) c = (false, record c { err_msg = codes "BLA BLA:" ++ what })
parse to_upper trim (inl m) c =
    let (accepted, d) = take_commands m c in
    if accepted then take_debug to_upper trim m (with_options m d) else (false, d)
