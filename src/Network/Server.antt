-- ===== src/Network/Server.antt =====
-- The connection lists of src/connection.hpp and src/connection.cpp, the acceptors of
-- src/acceptor.cpp and the server of src/server.cpp that owns them. A connection is a number, and
-- each handler is one step. Built with TLS; without it there are no acceptors of that kind.
pub mod Counting
pub mod Handlers
pub mod Limits
pub mod Shutdown
use smerp.Base.{
  ℕ, zero, suc, ◌+◌, ◌%◌, ◌^◌, Bool, true, false, ◌||◌, List, [], ◌∷◌, ◌++◌, Option, none, some,
  map, ltb, leb, ◌==◌, if◌then◌else◌, length, get_elem?, set,
}

-- `SocketConnectionList` and the acceptor that has it. `handshakes` are the TLS connections whose
-- handshake was started, `new_connection` waits for the next peer while it is armed, and `is_open` is
-- that of the acceptor's socket.
pub record Acceptor : Type 0 where
  pub max_conn : ℕ
  pub conn_list : List ℕ
  pub handshakes : List ℕ
  pub new_connection : ℕ
  pub armed : Bool
  pub is_open : Bool

pub data Kind : Type 0 where
  tcp ssl : Kind

-- `refused` and `signalled` are the connections that were sent the refusal and that `signal` was
-- called of; `next_id` names the next connection that is made.
pub record Server : Type 0 where
  pub tcp_acceptors : List Acceptor
  pub ssl_acceptors : List Acceptor
  pub max_conn : ℕ
  pub refused : List ℕ
  pub signalled : List ℕ
  pub next_id : ℕ

abbrev pub acceptors : Kind → Server → List Acceptor
acceptors tcp s = s.tcp_acceptors
acceptors ssl s = s.ssl_acceptors

abbrev pub update : Kind → ℕ → Acceptor → Server → Server
update tcp i a s = record s { tcp_acceptors = set s.tcp_acceptors i a }
update ssl i a s = record s { ssl_acceptors = set s.ssl_acceptors i a }

-- `conns += (*it)->size()` for an `unsigned`.
unfoldable pub count : List Acceptor → ℕ → ℕ
count [] conns = conns
count (a ∷ rest) conns = count rest ((conns + length a.conn_list) % 2 ^ 32)

-- `GlobalConnectionList::isFull`
unfoldable pub is_global_full : Server → Bool
is_global_full s =
    let conns = count s.ssl_acceptors (count s.tcp_acceptors 0) in
    if ltb 0 s.max_conn then leb s.max_conn conns else false

-- `SocketConnectionList::isFull`
unfoldable pub is_full : Server → Acceptor → Bool
is_full s a =
    if ltb 0 a.max_conn
    then leb a.max_conn (length a.conn_list) || is_global_full s
    else is_global_full s

abbrev pub push : Acceptor → ℕ → Acceptor
push a conn = record a { conn_list = a.conn_list ++ (conn ∷ []) }

-- `std::list::remove`
abbrev pub without : ℕ → List ℕ → List ℕ
without conn [] = []
without conn (c ∷ cs) = if c == conn then without conn cs else c ∷ without conn cs

abbrev pub remove : Acceptor → ℕ → Acceptor
remove a conn = record a { conn_list = without conn a.conn_list }

abbrev pub pop : Acceptor → Option ℕ × Acceptor
pop a = elim a.conn_list [ [] ↦ (none, a) | c ∷ cs ↦ (some c, record a { conn_list = cs }) ]

-- The common part of `connection::start` and `SSLconnection::handleHandshake`.
unfoldable pub admit : Kind → ℕ → Acceptor → ℕ → Server → Server
admit k i a conn s =
    if is_full s a
    then record s { refused = s.refused ++ (conn ∷ []) }
    else update k i (push a conn) s

-- `start()` of a connection of either kind.
unfoldable pub start : Kind → ℕ → Acceptor → ℕ → Server → Server
start tcp i a conn s = admit tcp i a conn s
start ssl i a conn s = update ssl i (record a { handshakes = a.handshakes ++ (conn ∷ []) }) s

-- `SSLconnection::handleHandshake`, with whether the handshake failed.
unfoldable pub handle_handshake : ℕ → ℕ → Bool → Server → Server
handle_handshake i conn failed s = elim (get_elem? s.ssl_acceptors i) [
  | none ↦ s
  | some a ↦
      let done = record a { handshakes = without conn a.handshakes } in
      let s' = update ssl i done s in if failed then s' else admit ssl i done conn s'
]

-- A new connection is made, and the acceptor waits again. If its socket is closed, `local_endpoint`
-- throws before.
unfoldable pub rearm : Kind → ℕ → Server → Server
rearm k i s = elim (get_elem? (acceptors k s) i) [
  | none ↦ s
  | some a ↦
      if a.is_open
      then record (update k i (record a { new_connection = s.next_id; armed = true }) s) {
        next_id = s.next_id + 1;
      }
      else s
]

-- `handleAccept`, with whether it was called with an error.
unfoldable pub handle_accept : Kind → ℕ → Bool → Server → Server
handle_accept k i failed s = elim (get_elem? (acceptors k s) i) [
  | none ↦ s
  | some a ↦
      let fired = record a { armed = false } in
      let s' = update k i fired s in
      if failed then s' else rearm k i (start k i fired a.new_connection s')
]

-- `connection::unregister`
unfoldable pub unregister : Kind → ℕ → ℕ → Server → Server
unregister k i conn s = elim (get_elem? (acceptors k s) i) [
  | none ↦ s
  | some a ↦ update k i (remove a conn) s
]

-- `while (( conn = connList_.pop()) != NULL ) conn->signal();`
unfoldable pub signal_all : ℕ → Acceptor → List ℕ → Acceptor × List ℕ
signal_all zero a signalled = (a, signalled)
signal_all (suc fuel) a signalled = elim (pop a).0 [
  | none ↦ ((pop a).1, signalled)
  | some conn ↦ signal_all fuel (pop a).1 (signalled ++ (conn ∷ []))
]

-- `handleStop`; the accept that was waiting completes with an error later.
unfoldable pub handle_stop : Kind → ℕ → Server → Server
handle_stop k i s = elim (get_elem? (acceptors k s) i) [
  | none ↦ s
  | some a ↦
      let closed = record a { is_open = false } in
      let (a', signalled) = signal_all (length a.conn_list + 1) closed s.signalled in
      record (update k i a' s) { signalled = signalled }
]

abbrev pub indices : ℕ → List Acceptor → List ℕ
indices i [] = []
indices i (a ∷ rest) = i ∷ indices (suc i) rest

-- `server::stop`: the acceptors whose `handleStop` is posted.
unfoldable pub stop : Server → List (Kind × ℕ)
stop s =
    map (λ i. (tcp, i)) (indices 0 s.tcp_acceptors)
    ++ map (λ i. (ssl, i)) (indices 0 s.ssl_acceptors)

-- The posted handlers, run in this order.
unfoldable pub run_posted : List (Kind × ℕ) → Server → Server
run_posted [] s = s
run_posted ((k, i) ∷ ps) s = run_posted ps (handle_stop k i s)
