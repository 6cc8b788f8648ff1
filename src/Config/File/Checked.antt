-- ===== src/Config/File/Checked.antt =====
-- A configuration that `parse` accepts, and what the checks of src/appConfig.cpp can find in it.
use smerp.Base.{
  ℕ, ◌<◌, ◌≡◌, refl, sym, ◌∙◌, subst, Bool, true, false, ◌&&◌, ◌||◌, not, List, [], ◌∷◌, some, ◌⊎◌,
  inl, inr, arith, codes, map, Bool-cases, Option-cases,
}
use smerp.Config.CommandLine.{CmdLineConfig, is_undefined}
use smerp.Config.Application
use smerp.Config.Application.{is_empty, server_check, application, application_check}
use smerp.Config.Application.Checks.{are_complete, server_check_complete, application_check-refuses}
use smerp.Config.File.{
  Library, SslEndpoint, CfgFileConfig, refuse, shared, short_mod, no_facility, resolve_path, get_or,
}
use smerp.Config.File.Parse.{
  checked_endpoint, settings, log_stderr, log_file, log_syslog, parse_tree, parse, level_at,
  facility_at,
}
use smerp.Config.File.Endpoints.{
  AllOf, IsReachable, IsWhole, IsListed, IfAccepted, and_then-accepted, listen-accepted,
}

abbrev LogsToStderr : CfgFileConfig → Type 0
LogsToStderr c =
    (c.logging.log_to_stderr ≡ false) ⊎ (is_undefined c.logging.stderr_log_level ≡ false)

abbrev LogsToFile : CfgFileConfig → Type 0
LogsToFile c =
    (c.logging.log_to_file ≡ false)
    ⊎ ((is_undefined c.logging.log_file_log_level ≡ false) × (is_empty c.logging.log_file ≡ false))

abbrev LogsToSyslog : CfgFileConfig → Type 0
LogsToSyslog c =
    (c.logging.log_to_syslog ≡ false)
    ⊎ ((is_undefined c.logging.syslog_log_level ≡ false)
        × (no_facility c.logging.syslog_facility ≡ false))

abbrev pub IsUsable : CfgFileConfig → Type 0
IsUsable c = (IsListed c × LogsToStderr c) × LogsToFile c × LogsToSyslog c

module _ (lib : Library)
    (absolute_some : (p base : List ℕ) → is_empty (lib.absolute p base) ≡ false)
    (port_fits : (s : List ℕ) (port : ℕ) → lib.lexical_port s ≡ some port → port < short_mod) where
  open lib use {Tree}

  relisted :
      (c d : CfgFileConfig)
      → d.address ≡ c.address
      → d.ssl_address ≡ c.ssl_address
      → IsListed c
      → IsListed d
  relisted c d plain ssl l = record {
    plain = subst (AllOf IsReachable) (sym plain) l.plain;
    ssl = subst (AllOf IsWhole) (sym ssl) l.ssl;
  }

  log_stderr-accepted :
      (pt : Tree) (c : CfgFileConfig)
      → IsListed c
      → IfAccepted (λ d. IsListed d × LogsToStderr d) (log_stderr lib pt c)
  unfolding log_stderr
  log_stderr-accepted pt c l = elim (Bool-cases (lib.has_child pt (codes "logging.stderr"))) [
    | inl there ↦
        rw there
          (elim (Bool-cases (
            is_undefined
              (level_at lib (get_or lib pt (codes "logging.stderr.level") (codes "NOTICE"))))) [
                | inl unknown ↦ rw unknown tt
                | inr known ↦ rw known (relisted c _ refl refl l, inr known)
              ])
    | inr missing ↦ rw missing (relisted c _ refl refl l, inl refl)
  ]

  log_file-accepted :
      (pt : Tree) (c : CfgFileConfig)
      → IsListed c × LogsToStderr c
      → IfAccepted (λ d. (IsListed d × LogsToStderr d) × LogsToFile d) (log_file lib pt c)
  unfolding log_file
  log_file-accepted pt c (l, s) = elim (Bool-cases (lib.has_child pt (codes "logging.logFile"))) [
    | inl there ↦
        rw there
          (elim (Bool-cases (
            is_undefined
              (level_at lib (get_or lib pt (codes "logging.logFile.level") (codes "ERROR"))))) [
                | inl unknown ↦ rw unknown tt
                | inr known ↦
                    rw known ((relisted c _ refl refl l, s), inr (known, absolute_some _ _))
              ])
    | inr missing ↦ rw missing ((relisted c _ refl refl l, s), inl refl)
  ]

  log_syslog-accepted :
      (pt : Tree) (c : CfgFileConfig)
      → (IsListed c × LogsToStderr c) × LogsToFile c
      → IfAccepted IsUsable (log_syslog lib pt c)
  unfolding log_syslog
  log_syslog-accepted pt c ((l, s), f) =
      elim (Bool-cases (lib.has_child pt (codes "logging.syslog"))) [
        | inl there ↦
            rw there
              (elim (Bool-cases (
                no_facility (
                  facility_at lib
                    (get_or lib pt (codes "logging.syslog.facility") (codes "LOCAL4"))))) [
                      | inl unknown ↦ rw unknown tt
                      | inr facility ↦
                          rw facility
                            (elim (Bool-cases (
                              is_undefined (
                                level_at lib (
                                  get_or lib pt (codes "logging.syslog.level")
                                    (codes "NOTICE"))))) [
                                      | inl unknown ↦ rw unknown tt
                                      | inr known ↦
                                          rw known (
                                            (relisted c _ refl refl l, s),
                                            f,
                                            inr (known, facility),
                                          )
                                    ])
                    ])
        | inr missing ↦ rw missing ((relisted c _ refl refl l, s), f, inl refl)
      ]

  parse_tree-accepted :
      (pt : Tree) (c : CfgFileConfig) → IsListed c → IfAccepted IsUsable (parse_tree lib pt c)
  unfolding parse_tree settings
  parse_tree-accepted pt c l = elim (Option-cases (lib.get_child pt (codes "server.listen"))) [
    | inl missing ↦ rw (missing, parse_tree) tt
    | inr (entries, there) ↦
        rw (there, parse_tree)
          (and_then-accepted (λ d. (IsListed d × LogsToStderr d) × LogsToFile d) IsUsable _ _
            (and_then-accepted (λ d. IsListed d × LogsToStderr d) _ _ _
              (and_then-accepted IsListed _ _ _
                (listen-accepted lib absolute_some port_fits entries c l)
                (λ d k. log_stderr-accepted pt (settings lib pt d) (relisted d _ refl refl k)))
              (log_file-accepted pt))
            (log_syslog-accepted pt))
  ]

  parse-accepted :
      (filename : List ℕ) (c : CfgFileConfig)
      → IsListed c
      → IfAccepted IsUsable (parse lib filename c)
  unfolding parse
  parse-accepted filename c l =
      let path = resolve_path lib (lib.absolute filename lib.current_path) in
      elim (Bool-cases (lib.exists path)) [
        | inl there ↦
            rw (there, parse)
              (read (lib.read_info filename) (record c { file = path }) (relisted c _ refl refl l))
        | inr missing ↦ rw (missing, parse) tt
      ]
    where
      read :
          (r : List ℕ ⊎ Tree) (d : CfgFileConfig)
          → IsListed d
          → IfAccepted IsUsable (elim r [ inl msg ↦ refuse d msg | inr pt ↦ parse_tree lib pt d ])
      read (inl msg) d k = tt
      read (inr pt) d k = parse_tree-accepted pt d k

  -- If `parse` returns true, every endpoint of the configuration has a host and a port between 1 and
  -- 65535, those with TLS have paths for the certificate, the key and the CA directory, and every log
  -- that is asked for has a level and its file or facility; if that held of the endpoints
  -- that were there before.
  pub parse-IsUsable :
      (filename : List ℕ) (c d : CfgFileConfig)
      → IsListed c
      → parse lib filename c ≡ (true, d)
      → IsUsable d
  parse-IsUsable filename c d l e = subst (IfAccepted IsUsable) e (parse-accepted filename c l)

  are_complete-whole :
      (es : List SslEndpoint)
      → AllOf IsWhole es
      → are_complete (map (checked_endpoint lib) es) ≡ true
  are_complete-whole [] w = refl
  are_complete-whole (e ∷ es) (w, rest) =
      rw (w.certificate, w.key, w.ca_directory, are_complete-whole es rest)
        (always e.verify (is_empty e.ca_chain))
    where
      always : (verify chain : Bool) → ((not verify || true) && true) ≡ true
      always true chain = refl
      always false chain = refl

  named_or_off :
      (front to_file unnamed : Bool)
      → (to_file ≡ false) ⊎ (unnamed ≡ false)
      → (front || (not to_file || not unnamed)) ≡ true
  named_or_off front to_file unnamed h = ground (arith, h)

  -- The checks of the server's section and of the application never find anything in a
  -- configuration that `parse` accepted.
  pub parse-passes :
      (filename : List ℕ) (c d : CfgFileConfig) (fresh : Application.LogConfig)
      (cmd : CmdLineConfig)
      → IsListed c
      → parse lib filename c ≡ (true, d)
      → ((server_check (map (checked_endpoint lib) d.ssl_address)).0 ≡ true)
        × (application_check (application fresh cmd (shared d)) ≡ true)
  parse-passes filename c d fresh cmd l e =
      let ((listed, to_stderr), to_file, to_syslog) = parse-IsUsable filename c d l e in
      (
        server_check_complete (map (checked_endpoint lib) d.ssl_address)
            ∙ are_complete-whole d.ssl_address listed.ssl,
        application_check-refuses fresh cmd (shared d)
            ∙ named_or_off cmd.foreground d.logging.log_to_file (is_empty d.logging.log_file)
                (elim to_file [ inl off ↦ inl off | inr (known, named) ↦ inr named ]),
      )
