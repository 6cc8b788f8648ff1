-- ===== src/Config/File.antt =====
-- What `CfgFileConfig::parse` of src/configFile.cpp works on, with `getBoolValue`, `chooseFile` and
-- `resolvePath` of src/resolvePath.cpp, built for a POSIX system. The property tree, the file system and boost's functions on
-- texts are parameters. `parse` changes the configuration as it goes, also where it returns false.
pub mod Parse
pub mod Endpoints
pub mod Checked
pub mod Tests
use smerp.Base.{
  ℕ, Bool, true, false, List, [], ◌∷◌, ◌++◌, Option, none, some, ◌⊎◌, inl, inr, ◌==◌, if◌then◌else◌,
  codes, same,
}
use smerp.Logging.Level.{Level, loglevel_undefined, str2log_level}
use smerp.Logging.Facility.{Facility, facility_undefined, str2syslog_facility}
use smerp.Config.CommandLine.{is_undefined}
use smerp.Config.Application
use smerp.Config.Application.{is_empty}

-- `get` is `get<std::string>`, with `none` for a path that is not there; `get_number` is `get` for
-- numbers below the bound, with `none` if the text is no such number as well; `get_child` is `none`
-- where it throws, with `bad_path` for the exception's text; `read_info` is the exception's text or
-- the tree; `lexical_port` is `lexical_cast<unsigned short>`.
pub record Library : Type 1 where
  pub Tree : Type 0
  pub read_info : List ℕ → List ℕ ⊎ Tree
  pub get_child : Tree → List ℕ → Option (List (List ℕ × Tree))
  pub bad_path : List ℕ → List ℕ
  pub get : Tree → List ℕ → Option (List ℕ)
  pub get_number : ℕ → Tree → List ℕ → Option ℕ
  pub has_child : Tree → List ℕ → Bool
  pub lexical_port : List ℕ → Option ℕ
  pub decimal : ℕ → List ℕ
  pub to_upper : List ℕ → List ℕ
  pub trim : List ℕ → List ℕ
  pub exists : List ℕ → Bool
  pub current_path : List ℕ
  pub absolute : List ℕ → List ℕ → List ℕ
  pub branch_path : List ℕ → List ℕ
  pub elements : List ℕ → List (List ℕ)
  pub slash : List ℕ → List ℕ → List ℕ
  pub parent_path : List ℕ → List ℕ
  pub file_name : List ℕ → List ℕ
  pub is_symlink : List ℕ → Bool

-- `ServerTCPendpoint` and `ServerSSLendpoint`
pub record TcpEndpoint : Type 0 where
  pub host : List ℕ
  pub port : ℕ
  pub max_connections : ℕ

pub record SslEndpoint : Type 0 where
  pub tcp : TcpEndpoint
  pub certificate : List ℕ
  pub key : List ℕ
  pub verify : Bool
  pub ca_directory : List ℕ
  pub ca_chain : List ℕ

pub record CfgFileConfig : Type 0 where
  pub file : List ℕ
  pub user : List ℕ
  pub group : List ℕ
  pub pid_file : List ℕ
  pub service_name : List ℕ
  pub service_display_name : List ℕ
  pub service_description : List ℕ
  pub threads : ℕ
  pub max_connections : ℕ
  pub address : List TcpEndpoint
  pub ssl_address : List SslEndpoint
  pub idle_timeout : ℕ
  pub request_timeout : ℕ
  pub answer_timeout : ℕ
  pub process_timeout : ℕ
  pub db_host : List ℕ
  pub db_port : ℕ
  pub db_name : List ℕ
  pub db_user : List ℕ
  pub db_password : List ℕ
  pub logging : Application.LogConfig
  pub syslog_ident : List ℕ
  pub err_msg : List ℕ

-- What `parse` has come to: the value it will return, and the configuration.
abbrev pub Parsed : Type 0
Parsed = Bool × CfgFileConfig

abbrev pub refuse : CfgFileConfig → List ℕ → Parsed
refuse c msg = (false, record c { err_msg = msg })

abbrev pub and_then : Parsed → (CfgFileConfig → Parsed) → Parsed
and_then (true, c) f = f c
and_then (false, c) f = (false, c)

abbrev pub or_else {ℓ} : {A : Type ℓ} → Option A → A → A
or_else none a = a
or_else (some b) a = b

abbrev pub no_facility : Facility → Bool
no_facility facility_undefined = true
no_facility _ = false

abbrev default_port : ℕ
default_port = 7660

abbrev ssl_default_port : ℕ
ssl_default_port = 7960

abbrev pub short_mod : ℕ
short_mod = 65536

abbrev pub unsigned_mod : ℕ
unsigned_mod = 4294967296

module _ (lib : Library) where
  open lib use {Tree}

  abbrev pub get_or : Tree → List ℕ → List ℕ → List ℕ
  get_or pt label default = or_else (lib.get pt label) default

  -- `getBoolValue`; `none` for `indeterminate`.
  unfoldable pub get_bool_value : Tree → List ℕ → Option Bool × List ℕ
  get_bool_value pt label =
      let val = get_or pt label [] in
      let s = lib.trim (lib.to_upper val) in
      if same s (codes "NO")
      then (some false, val)
      else if same s (codes "FALSE")
      then (some false, val)
      else if same s (codes "0")
      then (some false, val)
      else if same s (codes "OFF")
      then (some false, val)
      else if same s (codes "YES")
      then (some true, val)
      else if same s (codes "TRUE")
      then (some true, val)
      else if same s (codes "1")
      then (some true, val)
      else if same s (codes "ON")
      then (some true, val)
      else (none, val)

  -- One of the paths that `chooseFile` tries; `none` for NULL.
  abbrev existing : Option (List ℕ) → Option (List ℕ)
  existing none = none
  existing (some file) = if lib.exists file then some file else none

  abbrev first_of {ℓ} : {A : Type ℓ} → Option A → Option A → Option A
  first_of none b = b
  first_of (some a) b = some a

  unfoldable pub choose_file : Option (List ℕ) → Option (List ℕ) → Option (List ℕ) → Option (List ℕ)
  choose_file global user local =
      first_of (existing global) (first_of (existing user) (existing local))

  unfoldable pub resolve_elements : List ℕ → List (List ℕ) → List ℕ
  resolve_elements result [] = result
  resolve_elements result (it ∷ rest) =
      resolve_elements
        (if same it (codes "..")
          then (if lib.is_symlink result
              then lib.slash result it
              else if same (lib.file_name result) (codes "..")
              then lib.slash result it
              else lib.parent_path result)
          else if same it (codes ".")
          then result
          else lib.slash result it)
        rest

  unfoldable pub resolve_path : List ℕ → List ℕ
  resolve_path path = resolve_elements [] (lib.elements path)

  -- The port of an entry of that kind, or what is wrong with it.
  unfoldable pub port_of : List ℕ → Tree → List ℕ ⊎ ℕ
  port_of kind v =
      let port_str = get_or v (codes "port") [] in
      if is_empty port_str
      then (if same kind (codes "socket") then inr default_port else inr ssl_default_port)
      else elim (lib.lexical_port port_str) [
        | none ↦ inl (codes "Invalid value for port: " ++ port_str)
        | some port ↦ if port == 0 then inl (codes "Port out of range: " ++ port_str) else inr port
      ]

  -- A path of an entry, relative to the configuration file's directory.
  abbrev pub beside : CfgFileConfig → Tree → List ℕ → List ℕ
  beside c pt label = lib.absolute (get_or pt label []) (lib.branch_path c.file)

-- What the application's configuration takes from the file.
abbrev pub shared : CfgFileConfig → Application.CfgFileConfig
shared c = record { user = c.user; group = c.group; logging = c.logging }
