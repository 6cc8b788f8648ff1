-- ===== src/Config/File/Endpoints.antt =====
-- The endpoints of a configuration that `parse` accepts.
use smerp.Base.{
  ℕ, ◌<◌, ◌≡◌, refl, sym, subst, Bool, true, false, List, [], ◌∷◌, ◌++◌, some, ◌⊎◌, inl, inr, arith,
  ◌==◌, if◌then◌else◌, codes, same, Bool-cases, Option-cases,
}
use smerp.Config.Application.{is_empty}
use smerp.Config.File.{
  Library, TcpEndpoint, SslEndpoint, CfgFileConfig, Parsed, refuse, and_then, short_mod,
  get_bool_value, port_of, get_or,
}
use smerp.Config.File.Parse.{add_ssl, add_entry, listen_entry, listen, ssl_endpoint}

abbrev pub AllOf {ℓ ℓ'} : {A : Type ℓ} → (A → Type ℓ') → List A → Type ℓ'
AllOf P [] = Unit
AllOf P (x ∷ xs) = P x × AllOf P xs

AllOf-append {ℓ ℓ'} :
    {A : Type ℓ} (P : A → Type ℓ') (xs : List A) (x : A)
    → AllOf P xs
    → P x
    → AllOf P (xs ++ (x ∷ []))
AllOf-append P [] x all here = (here, tt)
AllOf-append P (y ∷ ys) x (first, rest) here = (first, AllOf-append P ys x rest here)

pub record IsReachable (e : TcpEndpoint) : Type 0 where
  pub has_host : is_empty e.host ≡ false
  pub has_port : 0 < e.port
  pub port_fits : e.port < short_mod

pub record IsWhole (e : SslEndpoint) : Type 0 where
  pub tcp : IsReachable e.tcp
  pub certificate : is_empty e.certificate ≡ false
  pub key : is_empty e.key ≡ false
  pub ca_directory : is_empty e.ca_directory ≡ false

pub record IsListed (c : CfgFileConfig) : Type 0 where
  pub plain : AllOf IsReachable c.address
  pub ssl : AllOf IsWhole c.ssl_address

-- What holds of the configuration, if it is accepted.
abbrev pub IfAccepted : (CfgFileConfig → Type 0) → Parsed → Type 0
IfAccepted P (true, c) = P c
IfAccepted P (false, c) = Unit {0}

pub and_then-accepted :
    (P Q : CfgFileConfig → Type 0) (r : Parsed) (f : CfgFileConfig → Parsed)
    → IfAccepted P r
    → ((c : CfgFileConfig) → P c → IfAccepted Q (f c))
    → IfAccepted Q (and_then r f)
and_then-accepted P Q (true, c) f p next = next c p
and_then-accepted P Q (false, c) f p next = tt

module _ (lib : Library)
    (absolute_some : (p base : List ℕ) → is_empty (lib.absolute p base) ≡ false)
    (port_fits : (s : List ℕ) (port : ℕ) → lib.lexical_port s ≡ some port → port < short_mod) where
  open lib use {Tree}

  abbrev IsPort : List ℕ ⊎ ℕ → Type 0
  IsPort (inl msg) = Unit {0}
  IsPort (inr port) = (0 < port) × (port < short_mod)

  port_of-IsPort : (kind : List ℕ) (v : Tree) → IsPort (port_of lib kind v)
  unfolding port_of
  port_of-IsPort kind v = elim (Bool-cases (is_empty (get_or lib v (codes "port") []))) [
    | inl no_port ↦ rw no_port (elim (Bool-cases (same kind (codes "socket"))) [
      | inl plain ↦ rw plain (omega arith, omega arith)
      | inr other ↦ rw other (omega arith, omega arith)
    ])
    | inr given ↦
        rw given (elim (Option-cases (lib.lexical_port (get_or lib v (codes "port") []))) [
          | inl invalid ↦ rw invalid tt
          | inr (port, read) ↦ rw read (elim (Bool-cases (port == 0)) [
            | inl null ↦ rw null tt
            | inr some_port ↦ rw some_port (ground (arith, some_port), port_fits _ port read)
          ])
        ])
  ]

  IsListed-ssl :
      (c d : CfgFileConfig) (v : Tree) (tcp : TcpEndpoint) (verify : Bool)
      → IsListed c
      → IsReachable tcp
      → d.address ≡ c.address
      → d.ssl_address ≡ c.ssl_address ++ (ssl_endpoint lib c v tcp verify ∷ [])
      → IsListed d
  IsListed-ssl c d v tcp verify l r plain ssl = record {
    plain = subst (AllOf IsReachable) (sym plain) l.plain;
    ssl = subst (AllOf IsWhole) (sym ssl) (
        AllOf-append IsWhole c.ssl_address _ l.ssl (record {
          tcp = r;
          certificate = absolute_some _ _;
          key = absolute_some _ _;
          ca_directory = absolute_some _ _;
        }));
  }

  add_ssl-accepted :
      (c : CfgFileConfig) (v : Tree) (tcp : TcpEndpoint)
      → IsListed c
      → IsReachable tcp
      → IfAccepted IsListed (add_ssl lib c v tcp)
  unfolding add_ssl
  add_ssl-accepted c v tcp l r = elim (Option-cases (get_bool_value lib v (codes "verify")).0) [
    | inl unknown ↦ rw (unknown, add_ssl) (IsListed-ssl c _ v tcp true l r refl refl)
    | inr (verify, known) ↦ rw (known, add_ssl) (IsListed-ssl c _ v tcp verify l r refl refl)
  ]

  add_entry-accepted :
      (c : CfgFileConfig) (kind : List ℕ) (v : Tree) (host : List ℕ) (port : ℕ)
      → IsListed c
      → is_empty host ≡ false
      → IsPort (inr port)
      → IfAccepted IsListed (add_entry lib c kind v host port)
  unfolding add_entry
  add_entry-accepted c kind v host port l has_host (some_port, fits) =
      elim (Bool-cases (same kind (codes "socket"))) [
        | inl plain ↦ rw plain (record {
          plain =
              AllOf-append IsReachable c.address _ l.plain
                (record { has_host = has_host; has_port = some_port; port_fits = fits });
          ssl = l.ssl;
        })
        | inr other ↦ rw other (elim (Bool-cases (same kind (codes "SSLsocket"))) [
          | inl ssl ↦ rw ssl (
              add_ssl-accepted c v _ l
                (record { has_host = has_host; has_port = some_port; port_fits = fits }))
          | inr neither ↦ rw neither tt
        ])
      ]

  listen_entry-accepted :
      (c : CfgFileConfig) (kind : List ℕ) (v : Tree)
      → IsListed c
      → IfAccepted IsListed (listen_entry lib c kind v)
  unfolding listen_entry
  listen_entry-accepted c kind v l =
      elim (Bool-cases (is_empty (get_or lib v (codes "address") []))) [
        | inl no_host ↦ rw no_host tt
        | inr has_host ↦ rw has_host (
            at_port (port_of lib kind v)
              (if same (get_or lib v (codes "address") []) (codes "*")
                then codes "0.0.0.0"
                else get_or lib v (codes "address") [])
              (port_of-IsPort kind v) (any_host _ has_host))
      ]
    where
      at_port :
          (r : List ℕ ⊎ ℕ) (host : List ℕ)
          → IsPort r
          → is_empty host ≡ false
          → IfAccepted IsListed
              (elim r [ inl msg ↦ refuse c msg | inr port ↦ add_entry lib c kind v host port ])
      at_port (inl msg) host p has_host = tt
      at_port (inr port) host p has_host = add_entry-accepted c kind v host port l has_host p

      any_host :
          (host : List ℕ)
          → is_empty host ≡ false
          → is_empty (if same host (codes "*") then codes "0.0.0.0" else host) ≡ false
      any_host host e = elim (Bool-cases (same host (codes "*"))) [
        | inl all ↦ rw all refl
        | inr one ↦ rw one e
      ]

  pub listen-accepted :
      (entries : List (List ℕ × Tree)) (c : CfgFileConfig)
      → IsListed c
      → IfAccepted IsListed (listen lib entries c)
  unfolding listen
  listen-accepted [] c l = l
  listen-accepted ((kind, v) ∷ rest) c l =
      and_then-accepted IsListed IsListed _ _ (listen_entry-accepted c kind v l)
        (λ d. listen-accepted rest d)
