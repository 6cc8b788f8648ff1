-- ===== src/Client/Socket.antt =====
-- The socket of clients/qt/SMERPClient.cpp is opened only where it is closed.
use smerp.Base.{
  ◌≡◌, refl, sym, ap, ◌∙◌, Bool, true, false, not, ◌&&◌, List, [], ◌∷◌, Option, none, some, ℕ,
  arith,
}
use smerp.Client.{
  State, disconnected, about_to_connect, connected, about_to_disconnect, SocketError,
  remote_host_closed, other_error, Action, emits_error, Client, Event, connects_to_server,
  disconnects_from_server, gets_error, is_connected, is_disconnected, gets_data, gets_ssl_errors,
  gets_peer_error, is_encrypted, sends_line, Certificate, Reaction, says, connect_at, disconnect_at,
  closed_or_error, error_at, connected_at, disconnected_at, read_line, data_at, handle, run,
}
use smerp.Client.Quiet.{
  socket, and_then, socket-append, IsQuiet, emits_all-IsQuiet, open_socket-Opens,
}

abbrev pub is_up : State → Bool
is_up disconnected = false
is_up _ = true

-- The window asks to disconnect where it has done so and the server has not answered.
abbrev asks_again : Event → State → Bool
asks_again disconnects_from_server about_to_disconnect = true
asks_again _ _ = false

-- A reaction in a state, which takes the socket to where it is in the state behind it.
abbrev Moves : State → Reaction → Type 0
Moves st r = socket (is_up st) r.0 ≡ some (is_up r.1.state)

quiet-Moves :
    (xs : List Action) (c : Client) (st : State) → IsQuiet xs → c.state ≡ st → Moves st (xs, c)
quiet-Moves xs c st q e = q (is_up st) ∙ ap (λ s. some (is_up s)) (sym e)

says-Moves : (msg : List ℕ) (c : Client) (st : State) → c.state ≡ st → Moves st (says msg c)
says-Moves msg c st e = quiet-Moves (emits_error msg ∷ []) c st (λ b. refl) e

closed_or_error-Moves :
    (ssl : Bool) (certificate : List ℕ → Certificate) (e : SocketError) (text : List ℕ) (c : Client)
    (st : State)
    → c.state ≡ st
    → Moves st (closed_or_error ssl certificate e text c)
unfolding closed_or_error
closed_or_error-Moves ssl certificate remote_host_closed text c st s = refl
closed_or_error-Moves ssl certificate other_error text c st s = says-Moves text c st s

module _ (ssl : Bool) (certificate : List ℕ → Certificate) where
  connect_at-Moves :
      (st : State) (c : Client) → c.state ≡ st → Moves st (connect_at ssl certificate st c)
  unfolding connect_at
  connect_at-Moves disconnected c e = open_socket-Opens ssl certificate c
  connect_at-Moves about_to_connect c e = says-Moves [] c about_to_connect e
  connect_at-Moves connected c e = says-Moves [] c connected e
  connect_at-Moves about_to_disconnect c e = says-Moves [] c about_to_disconnect e

  disconnect_at-Moves :
      (st : State) (c : Client)
      → c.state ≡ st
      → asks_again disconnects_from_server st ≡ false
      → Moves st (disconnect_at ssl certificate st c)
  unfolding disconnect_at
  disconnect_at-Moves disconnected c e h = says-Moves [] c disconnected e
  disconnect_at-Moves about_to_connect c e h = says-Moves [] c about_to_connect e
  disconnect_at-Moves connected c e h = refl
  disconnect_at-Moves about_to_disconnect c e h = absurd (ground (arith, h))

  error_at-Moves :
      (st : State) (error : SocketError) (text : List ℕ) (c : Client)
      → c.state ≡ st
      → Moves st (error_at ssl certificate st error text c)
  unfolding error_at
  error_at-Moves disconnected error text c e =
      closed_or_error-Moves ssl certificate error text c disconnected e
  error_at-Moves about_to_connect error text c e = refl
  error_at-Moves connected error text c e =
      closed_or_error-Moves ssl certificate error text c connected e
  error_at-Moves about_to_disconnect error text c e =
      closed_or_error-Moves ssl certificate error text c about_to_disconnect e

  connected_at-Moves :
      (st : State) (c : Client) → c.state ≡ st → Moves st (connected_at ssl certificate st c)
  unfolding connected_at
  connected_at-Moves disconnected c e = says-Moves [] c disconnected e
  connected_at-Moves about_to_connect c e = refl
  connected_at-Moves connected c e = says-Moves [] c connected e
  connected_at-Moves about_to_disconnect c e = says-Moves [] c about_to_disconnect e

  disconnected_at-Moves :
      (st : State) (c : Client) → c.state ≡ st → Moves st (disconnected_at ssl certificate st c)
  unfolding disconnected_at
  disconnected_at-Moves disconnected c e = says-Moves [] c disconnected e
  disconnected_at-Moves about_to_connect c e = says-Moves [] c about_to_connect e
  disconnected_at-Moves connected c e = says-Moves [] c connected e
  disconnected_at-Moves about_to_disconnect c e = refl

  read_line-Moves :
      (line : Option (List ℕ)) (c : Client) (st : State)
      → c.state ≡ st
      → Moves st (read_line ssl certificate line c)
  unfolding read_line
  read_line-Moves none c st e = quiet-Moves [] c st (λ b. refl) e
  read_line-Moves (some text) c st e = quiet-Moves [] c st (λ b. refl) e

  data_at-Moves :
      (st : State) (line : Option (List ℕ)) (c : Client)
      → c.state ≡ st
      → Moves st (data_at ssl certificate st line c)
  unfolding data_at
  data_at-Moves disconnected line c e = says-Moves [] c disconnected e
  data_at-Moves about_to_connect line c e = says-Moves [] c about_to_connect e
  data_at-Moves connected line c e = read_line-Moves line c connected e
  data_at-Moves about_to_disconnect line c e = read_line-Moves line c about_to_disconnect e

  handle-Moves :
      (e : Event) (c : Client)
      → asks_again e c.state ≡ false
      → Moves c.state (handle ssl certificate e c)
  unfolding handle
  handle-Moves connects_to_server c h = connect_at-Moves c.state c refl
  handle-Moves disconnects_from_server c h =
      disconnect_at-Moves c.state (record c { has_errors = false }) refl h
  handle-Moves (gets_error error text) c h = error_at-Moves c.state error text c refl
  handle-Moves is_connected c h = connected_at-Moves c.state c refl
  handle-Moves is_disconnected c h = disconnected_at-Moves c.state c refl
  handle-Moves (gets_data line) c h = data_at-Moves c.state line c refl
  handle-Moves (gets_ssl_errors errors) c h = emits_all-IsQuiet errors (is_up c.state)
  handle-Moves (gets_peer_error text) c h = refl
  handle-Moves is_encrypted c h = refl
  handle-Moves (sends_line line) c h = refl

  -- Whether the window never asks to disconnect a second time before the server has answered.
  abbrev pub is_patient : Client → List Event → Bool
  is_patient c [] = true
  is_patient c (e ∷ es) = not (asks_again e c.state) && is_patient (handle ssl certificate e c).1 es

  patient-parts : (b c : Bool) → (not b && c) ≡ true → (b ≡ false) × (c ≡ true)
  patient-parts b c h = ground (arith, h)

  -- Whatever the socket signals and the window asks for, and in whatever order: if the window does
  -- not ask to disconnect again before the server has answered, the socket is opened only where it
  -- is closed, and it is open exactly in the states other than the disconnected one.
  pub run-socket :
      (c : Client) (events : List Event)
      → is_patient c events ≡ true
      → socket (is_up c.state) (run ssl certificate c events).0
        ≡ some (is_up (run ssl certificate c events).1.state)
  unfolding run
  run-socket c [] h = refl
  run-socket c (e ∷ es) h =
      let r = handle ssl certificate e c in
      let (patient, rest) = patient-parts (asks_again e c.state) (is_patient r.1 es) h in
      socket-append (is_up c.state) r.0 (run ssl certificate r.1 es).0
      ∙ ap (λ o. and_then o (λ b. socket b (run ssl certificate r.1 es).0))
          (handle-Moves e c patient)
      ∙ run-socket r.1 es rest
