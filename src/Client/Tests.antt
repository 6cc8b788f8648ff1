-- ===== src/Client/Tests.antt =====
-- A session of the Qt client.
use smerp.Base.{ℕ, ◌≡◌, refl, true, false, List, [], ◌∷◌, none, some, codes}
use smerp.Client
use smerp.Client.{
  disconnected, remote_host_closed, Client, Event, connects_to_server, disconnects_from_server,
  gets_error, is_connected, is_disconnected, gets_data, sends_line, Certificate, run,
}
use smerp.Client.Quiet.{socket}
use smerp.Client.Socket.{is_up, is_patient, run-socket}

abbrev certificates : List ℕ → Certificate
certificates file = record { exists = true; opens = true; is_null = false; is_valid = true }

abbrev fresh : Client
fresh = record {
  state = disconnected;
  host = codes "localhost";
  port = 7660;
  secure = true;
  has_errors = false;
  initialized_ssl = false;
}

abbrev session : List Event
session =
    connects_to_server
    ∷ is_connected
    ∷ sends_line (codes "caps")
    ∷ gets_data (some (codes "OK\n"))
    ∷ disconnects_from_server
    ∷ gets_error remote_host_closed (codes "closed")
    ∷ connects_to_server
    ∷ []

session-is_patient : is_patient true certificates fresh session ≡ true
unfolding Client.handle Client.connect_at Client.connected_at Client.data_at Client.read_line
    Client.disconnect_at Client.error_at Client.closed_or_error Client.open_socket
    Client.initialize_ssl Client.get_certificate
session-is_patient = refl

run-socket_example :
    socket false (run true certificates fresh session).0
    ≡ some (is_up (run true certificates fresh session).1.state)
run-socket_example = run-socket true certificates fresh session session-is_patient

-- With a second request to disconnect the socket that is open is opened again.
opened_twice :
    socket false
      (run true certificates fresh (
        connects_to_server ∷ is_connected ∷ disconnects_from_server ∷ disconnects_from_server
        ∷ connects_to_server ∷ [])).0
    ≡ none
unfolding run Client.handle Client.connect_at Client.connected_at Client.disconnect_at
    Client.open_socket Client.initialize_ssl Client.get_certificate
opened_twice = refl
