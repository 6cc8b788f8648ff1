-- ===== src/Config/Application/Checks.antt =====
-- What the checks of the configuration find.
use smerp.Base.{
  ◌≡◌, refl, ap, ◌∙◌, inl, inr, Bool, true, false, ◌&&◌, ◌||◌, not, List, [], ◌∷◌, arith,
  Bool-cases,
}
use smerp.Config.CommandLine.{CmdLineConfig}
use smerp.Config.Application.{
  SslEndpoint, is_empty, Report, check_endpoint, check_endpoints, server_check, LogConfig,
  CfgFileConfig, application, application_check,
}

-- An endpoint has a certificate and a key, and a CA if it verifies clients.
abbrev pub is_complete : SslEndpoint → Bool
is_complete e =
    not (is_empty e.certificate)
    && (not (is_empty e.key)
        && (not e.verify_client_cert
            || (not (is_empty e.ca_directory) || not (is_empty e.ca_chain))))

abbrev pub are_complete : List SslEndpoint → Bool
are_complete [] = true
are_complete (e ∷ es) = is_complete e && are_complete es

check_endpoint-result :
    (e : SslEndpoint) (r : Report) → (check_endpoint e r).0 ≡ (r.0 && is_complete e)
unfolding check_endpoint
check_endpoint-result e r = ground arith

check_endpoints-result :
    (es : List SslEndpoint) (r : Report) → (check_endpoints es r).0 ≡ (r.0 && are_complete es)
unfolding check_endpoints
check_endpoints-result [] r = ground arith
check_endpoints-result (e ∷ es) r =
    check_endpoints-result es (check_endpoint e r)
    ∙ ap (λ b. b && are_complete es) (check_endpoint-result e r)
    ∙ assoc r.0 (is_complete e) (are_complete es)
  where
    assoc : (a b c : Bool) → ((a && b) && c) ≡ (a && (b && c))
    assoc true b c = refl
    assoc false b c = refl

-- The check of the server's section returns true exactly if every TLS endpoint has a certificate and
-- a key and, if it verifies clients, a CA directory or chain file.
pub server_check_complete : (es : List SslEndpoint) → (server_check es).0 ≡ are_complete es
unfolding server_check
server_check_complete es = check_endpoints-result es (true, [])

-- The application's check refuses a configuration exactly if the server runs in the background and
-- its file asks for a log file and names none.
pub application_check-refuses :
    (fresh : LogConfig) (cmd : CmdLineConfig) (file : CfgFileConfig)
    → application_check (application fresh cmd file)
      ≡ (cmd.foreground || (not file.logging.log_to_file || not (is_empty file.logging.log_file)))
unfolding application_check application
application_check-refuses fresh cmd file = elim (Bool-cases cmd.foreground) [
  | inl front ↦ rw front refl
  | inr back ↦ rw back (ground arith)
]
