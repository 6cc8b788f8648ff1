-- ===== src/Client.antt =====
-- `SMERPClient` of clients/qt/SMERPClient.cpp: the state machine of a connection of the Qt client.
-- What it asks of its socket and what it signals is a list of actions; what Qt answers is a
-- parameter. The branch `default:`, which no state reaches, is left out, and so is the translation of
-- messages.
pub mod Quiet
pub mod Socket
mod Tests
use smerp.Base.{
  ℕ, zero, suc, ◌+◌, ◌-◌, Bool, true, false, List, [], ◌∷◌, ◌++◌, Option, none, some, ◌==◌,
  if◌then◌else◌, codes,
}

pub data State : Type 0 where
  disconnected about_to_connect connected about_to_disconnect : State

-- `QAbstractSocket::SocketError`, as far as it is told apart.
pub data SocketError : Type 0 where
  remote_host_closed other_error : SocketError

pub data Action : Type 0 where
  connects connects_encrypted : List ℕ → ℕ → Action
  closes flushes ignores_ssl_errors : Action
  writes emits_error emits_line : List ℕ → Action
  adds_ca sets_certificate sets_key : List ℕ → Action

pub record Client : Type 0 where
  pub state : State
  pub host : List ℕ
  pub port : ℕ
  pub secure : Bool
  pub has_errors : Bool
  pub initialized_ssl : Bool

-- The slots and the calls of the window.
pub data Event : Type 0 where
  connects_to_server disconnects_from_server : Event
  gets_error : SocketError → List ℕ → Event
  is_connected is_disconnected : Event
  gets_data : Option (List ℕ) → Event
  gets_ssl_errors : List (List ℕ) → Event
  gets_peer_error : List ℕ → Event
  is_encrypted : Event
  sends_line : List ℕ → Event

-- A file with a certificate.
pub record Certificate : Type 0 where
  pub exists : Bool
  pub opens : Bool
  pub is_null : Bool
  pub is_valid : Bool

abbrev pub Reaction : Type 0
Reaction = List Action × Client

abbrev pub says : List ℕ → Client → Reaction
says msg c = (emits_error msg ∷ [], c)

abbrev pub emits_if : Bool → List ℕ → List Action
emits_if b msg = if b then emits_error msg ∷ [] else []

-- `if( buf[len-1] == '\n' ) buf[len-1] = '\0';` for the bytes that were read.
unfoldable pub end_line : List ℕ → List ℕ
end_line [] = []
end_line (c ∷ []) = if c == b'\n' then 0 ∷ [] else c ∷ []
end_line (c ∷ d ∷ cs) = c ∷ end_line (d ∷ cs)

abbrev pub emits_all : List (List ℕ) → List Action
emits_all [] = ignores_ssl_errors ∷ []
emits_all (e ∷ es) = emits_error e ∷ emits_all es

-- Whether the build has SSL, and the certificates.
module _ (with_ssl : Bool) (certificate : List ℕ → Certificate) where
  -- Each message is a signal, behind which the call goes on.
  unfoldable pub get_certificate : List ℕ → List Action
  get_certificate file =
      let f = certificate file in
      emits_if (if f.exists then false else true)
        (codes "certificate " ++ (file ++ codes " doesn't exist"))
      ++ (emits_if (if f.opens then false else true) (codes "can't open certificate " ++ file)
          ++ (emits_if f.is_null (codes "empty certificate in file " ++ file)
              ++ emits_if (if f.is_valid then false else true)
                  (codes "certificate in " ++ (file ++ codes " is invalid"))))

  unfoldable pub initialize_ssl : Client → Reaction
  initialize_ssl c = if c.initialized_ssl then ([], c) else (
    get_certificate (codes "./CA.cert.pem")
        ++ (adds_ca (codes "./CA.cert.pem")
            ∷ (get_certificate (codes "./CAclient.cert.pem")
                ++ (adds_ca (codes "./CAclient.cert.pem")
                    ∷ (get_certificate (codes "./client.crt")
                        ++ (sets_certificate (codes "./client.crt")
                            ∷ sets_key (codes "./client.key")
                            ∷ []))))),
    record c { initialized_ssl = true },
  )

  unfoldable pub open_socket : Client → Reaction
  open_socket c =
      if c.secure
      then (if with_ssl
          then (let (actions, d) = initialize_ssl c in
              (actions ++ (connects_encrypted d.host d.port ∷ []), d))
          else (connects c.host c.port ∷ [], c))
      else (connects c.host c.port ∷ [], c)

  unfoldable pub connect_at : State → Client → Reaction
  connect_at disconnected c =
      let (actions, d) = open_socket c in (actions, record d { state = about_to_connect })
  connect_at about_to_connect c = says (codes "Already connecting.. wait till you connect again") c
  connect_at connected c = says (codes "Disconnect first before connecting again!") c
  connect_at about_to_disconnect c =
      says (codes "Currently disconnected.. wait till you connect again") c

  unfoldable pub disconnect_at : State → Client → Reaction
  disconnect_at disconnected c =
      says (codes "Got disconnected Qt signal when already in disconnected state!") c
  disconnect_at about_to_connect c =
      says (codes "Got disconnected Qt signal when about to build up a connection?!") c
  disconnect_at about_to_disconnect c = ([], record c { state = disconnected })
  disconnect_at connected c =
      (writes (codes "quit\n") ∷ [], record c { state = about_to_disconnect })

  -- With the text of the error at the socket.
  unfoldable pub closed_or_error : SocketError → List ℕ → Client → Reaction
  closed_or_error remote_host_closed text c = (
    closes ∷ emits_error (codes "Connection closed by server.") ∷ [],
    record c { state = disconnected },
  )
  closed_or_error other_error text c = says text c

  unfoldable pub error_at : State → SocketError → List ℕ → Client → Reaction
  error_at disconnected e text c = closed_or_error e text c
  error_at about_to_disconnect e text c = closed_or_error e text c
  error_at about_to_connect e text c =
      (closes ∷ emits_error text ∷ [], record c { state = disconnected })
  error_at connected e text c = closed_or_error e text c

  unfoldable pub connected_at : State → Client → Reaction
  connected_at disconnected c =
      says (codes "Got a connect Qt signal when not starting a new connection!") c
  connected_at about_to_connect c = ([], record c { state = connected })
  connected_at connected c =
      says (codes "Got connected Qt signal when already in connected state!") c
  connected_at about_to_disconnect c =
      says (codes "Got connected Qt signal when already disconnecting!") c

  unfoldable pub disconnected_at : State → Client → Reaction
  disconnected_at about_to_disconnect c = (closes ∷ [], record c { state = disconnected })
  disconnected_at _ c =
      says (codes "Got a disconnected Qt signal when already in disconnected state!") c

  -- `none` where `canReadLine` is false, otherwise what `readLine` reads.
  unfoldable pub read_line : Option (List ℕ) → Client → Reaction
  read_line none c = ([], c)
  read_line (some text) c = (emits_line (end_line text) ∷ [], c)

  abbrev pub state_number : State → List ℕ
  state_number disconnected = codes "0"
  state_number about_to_connect = codes "1"
  state_number connected = codes "2"
  state_number about_to_disconnect = codes "3"

  abbrev pub no_data : State → Client → Reaction
  no_data st c =
      says (codes "Invalid state, got data while in state " ++ (state_number st ++ codes "?")) c

  unfoldable pub data_at : State → Option (List ℕ) → Client → Reaction
  data_at disconnected line c = no_data disconnected c
  data_at about_to_connect line c = no_data about_to_connect c
  data_at about_to_disconnect line c = read_line line c
  data_at connected line c = read_line line c

  unfoldable pub handle : Event → Client → Reaction
  handle connects_to_server c = connect_at c.state c
  handle disconnects_from_server c = disconnect_at c.state (record c { has_errors = false })
  handle (gets_error e text) c = error_at c.state e text c
  handle is_connected c = connected_at c.state c
  handle is_disconnected c = disconnected_at c.state c
  handle (gets_data line) c = data_at c.state line c
  handle (gets_ssl_errors errors) c = (emits_all errors, record c { has_errors = true })
  handle (gets_peer_error e) c = says e (record c { has_errors = true })
  handle is_encrypted c =
      says
        (if c.has_errors
          then codes "Channel is encrypted, but there were errors on the way."
          else codes "Channel is encrypted now.")
        c
  handle (sends_line line) c = (writes (line ++ codes "\n") ∷ flushes ∷ [], c)

  -- Events one after another.
  unfoldable pub run : Client → List Event → Reaction
  run c [] = ([], c)
  run c (e ∷ es) =
      let (actions, d) = handle e c in let (more, last) = run d es in (actions ++ more, last)
