-- ===== src/Config/File/Parse.antt =====
-- `CfgFileConfig::parse` of src/configFile.cpp, entry by entry and section by section.
use smerp.Base.{
  ℕ, Bool, true, false, List, [], ◌∷◌, ◌++◌, none, some, inl, inr, if◌then◌else◌, codes, same,
}
use smerp.Logging.Level.{Level, str2log_level}
use smerp.Logging.Facility.{Facility, str2syslog_facility}
use smerp.Config.CommandLine.{is_undefined}
use smerp.Config.Application
use smerp.Config.Application.{is_empty}
use smerp.Config.File.{
  Library, TcpEndpoint, SslEndpoint, CfgFileConfig, Parsed, refuse, and_then, or_else, no_facility,
  short_mod, unsigned_mod, get_or, get_bool_value, port_of, beside, resolve_path,
}

module _ (lib : Library) where
  open lib use {Tree}

  abbrev pub ssl_endpoint : CfgFileConfig → Tree → TcpEndpoint → Bool → SslEndpoint
  ssl_endpoint c v tcp verify = record {
    tcp = tcp;
    certificate = beside lib c v (codes "certificate");
    key = beside lib c v (codes "key");
    verify = verify;
    ca_directory = beside lib c v (codes "CAdirectory");
    ca_chain = beside lib c v (codes "CAchainFile");
  }

  unfoldable pub add_ssl : CfgFileConfig → Tree → TcpEndpoint → Parsed
  add_ssl c v tcp =
      let (flag, text) = get_bool_value lib v (codes "verify") in
      elim flag [
        | some verify ↦
            (true, record c { ssl_address = c.ssl_address ++ (ssl_endpoint c v tcp verify ∷ []) })
        | none ↦ (
          true,
          record c {
            ssl_address = c.ssl_address ++ (ssl_endpoint c v tcp true ∷ []);
            err_msg =
                codes "Unknown value \""
                ++ (text ++ codes "\" for SSL verify client. WARNING: enabling verification");
          },
        )
      ]

  -- An entry with its port, and with its host.
  unfoldable pub add_entry : CfgFileConfig → List ℕ → Tree → List ℕ → ℕ → Parsed
  add_entry c kind v host port =
      let tcp : TcpEndpoint = record {
        host = host;
        port = port;
        max_connections = or_else (lib.get_number unsigned_mod v (codes "maxConnections")) 0;
      } in
      if same kind (codes "socket")
      then (true, record c { address = c.address ++ (tcp ∷ []) })
      else if same kind (codes "SSLsocket")
      then add_ssl c v tcp
      else refuse c (codes "Invalid listen type: " ++ kind)

  unfoldable pub listen_entry : CfgFileConfig → List ℕ → Tree → Parsed
  listen_entry c kind v =
      let host = get_or lib v (codes "address") [] in
      if is_empty host
      then refuse c (codes "Interface must be defined")
      else elim (port_of lib kind v) [
        | inl msg ↦ refuse c msg
        | inr port ↦
            add_entry c kind v (if same host (codes "*") then codes "0.0.0.0" else host) port
      ]

  unfoldable pub listen : List (List ℕ × Tree) → CfgFileConfig → Parsed
  listen [] c = (true, c)
  listen ((kind, v) ∷ rest) c = and_then (listen_entry c kind v) (listen rest)

  -- The settings that are only copied.
  unfoldable pub settings : Tree → CfgFileConfig → CfgFileConfig
  settings pt c = record c {
    threads = or_else (lib.get_number short_mod pt (codes "server.threads")) 4;
    max_connections = or_else (lib.get_number short_mod pt (codes "server.maxConnections")) 256;
    user = get_or lib pt (codes "server.daemon.user") [];
    group = get_or lib pt (codes "server.daemon.group") [];
    pid_file = get_or lib pt (codes "server.daemon.pidFile") [];
    service_name = get_or lib pt (codes "server.service.name") (codes "smerp");
    service_display_name =
        get_or lib pt (codes "server.service.displayName") (codes "Smerp Daemon");
    service_description =
        get_or lib pt (codes "server.service.description") (codes "a daemon for smerping");
    idle_timeout = or_else (lib.get_number unsigned_mod pt (codes "server.timeout.idle")) 900;
    request_timeout = or_else (lib.get_number unsigned_mod pt (codes "server.timeout.request")) 30;
    answer_timeout = or_else (lib.get_number unsigned_mod pt (codes "server.timeout.answer")) 30;
    process_timeout = or_else (lib.get_number unsigned_mod pt (codes "server.timeout.process")) 30;
    db_host = get_or lib pt (codes "database.host") [];
    db_port = or_else (lib.get_number short_mod pt (codes "database.port")) 0;
    db_name = get_or lib pt (codes "database.name") [];
    db_user = get_or lib pt (codes "database.user") [];
    db_password = get_or lib pt (codes "database.password") [];
  }

  -- A level or a facility as it is written in the file.
  abbrev pub level_at : List ℕ → Level
  level_at str = str2log_level lib.to_upper lib.trim (lib.to_upper (lib.trim str))

  abbrev pub facility_at : List ℕ → Facility
  facility_at str = str2syslog_facility lib.to_upper lib.trim (lib.to_upper (lib.trim str))

  abbrev with_logging : CfgFileConfig → Application.LogConfig → CfgFileConfig
  with_logging c l = record c { logging = l }

  abbrev unknown_level : List ℕ → List ℕ → List ℕ
  unknown_level str place = codes "unknown log level \"" ++ (str ++ (codes " for " ++ place))

  unfoldable pub log_stderr : Tree → CfgFileConfig → Parsed
  log_stderr pt c =
      let str = get_or lib pt (codes "logging.stderr.level") (codes "NOTICE") in
      let d =
        with_logging c
          (record c.logging { log_to_stderr = true; stderr_log_level = level_at str }) in
      if lib.has_child pt (codes "logging.stderr")
      then (if is_undefined (level_at str)
          then refuse d (unknown_level str (codes "stderr"))
          else (true, d))
      else (true, with_logging c (record c.logging { log_to_stderr = false }))

  unfoldable pub log_file : Tree → CfgFileConfig → Parsed
  log_file pt c =
      let str = get_or lib pt (codes "logging.logFile.level") (codes "ERROR") in
      let d = with_logging c (record c.logging {
        log_to_file = true;
        log_file = beside lib c pt (codes "logging.logFile.filename");
        log_file_log_level = level_at str;
      }) in
      if lib.has_child pt (codes "logging.logFile")
      then (if is_undefined (level_at str)
          then refuse d (unknown_level str (codes "logfile"))
          else (true, d))
      else (true, with_logging c (record c.logging { log_to_file = false }))

  unfoldable pub log_syslog : Tree → CfgFileConfig → Parsed
  log_syslog pt c =
      let facility = get_or lib pt (codes "logging.syslog.facility") (codes "LOCAL4") in
      let str = get_or lib pt (codes "logging.syslog.level") (codes "NOTICE") in
      let d =
        with_logging c
          (record c.logging { log_to_syslog = true; syslog_facility = facility_at facility }) in
      let e = with_logging d (record d.logging { syslog_log_level = level_at str }) in
      if lib.has_child pt (codes "logging.syslog")
      then (if no_facility (facility_at facility)
          then refuse d (codes "unknown syslog facility \"" ++ (facility ++ codes "\""))
          else if is_undefined (level_at str)
          then refuse e (unknown_level str (codes "syslog"))
          else (
            true,
            record e {
              syslog_ident = get_or lib pt (codes "logging.syslog.ident") (codes "smerpd");
            },
          ))
      else (true, with_logging c (record c.logging { log_to_syslog = false }))

  -- The contents of the file.
  unfoldable pub parse_tree : Tree → CfgFileConfig → Parsed
  parse_tree pt c = elim (lib.get_child pt (codes "server.listen")) [
    | none ↦ refuse c (lib.bad_path (codes "server.listen"))
    | some entries ↦
        and_then
          (and_then (and_then (listen entries c) (λ d. log_stderr pt (settings pt d)))
            (log_file pt))
          (log_syslog pt)
  ]

  unfoldable pub parse : List ℕ → CfgFileConfig → Parsed
  parse filename c =
      let d = record c { file = resolve_path lib (lib.absolute filename lib.current_path) } in
      if lib.exists d.file
      then elim (lib.read_info filename) [ inl msg ↦ refuse d msg | inr pt ↦ parse_tree pt d ]
      else refuse d (codes "Configuration file " ++ (d.file ++ codes " does not exist."))

  -- What `ServerConfiguration::check` sees of an endpoint; `toString` is its name.
  abbrev pub checked_endpoint : SslEndpoint → Application.SslEndpoint
  checked_endpoint e = record {
    name = e.tcp.host ++ (codes ":" ++ lib.decimal e.tcp.port);
    certificate = e.certificate;
    key = e.key;
    verify_client_cert = e.verify;
    ca_directory = e.ca_directory;
    ca_chain = e.ca_chain;
  }
