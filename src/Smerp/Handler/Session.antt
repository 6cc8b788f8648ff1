-- ===== src/Smerp/Handler/Session.antt =====
-- `smerpConnection` under `connectionBase`: whole connections.
use smerp.Base.{ℕ, suc, arith, ◌≡◌, refl, false, List, Option, none, some, length}
use smerp.Network.ConnectionBase.{
  ErrorCode, ConnectionBase, Outcome, running, aborted, set_timeout, start_operation,
  next_operation, signal_error, handle_write, handle_timeout, handle_signal,
}
use smerp.Network.ConnectionBase.Steps.{Runs}
use smerp.Network.ConnectionBase.Safety.{Runs-Safe}
use smerp.Smerp.Handler.{smerp_connection, smerp_handler, read_buf_size}
use smerp.Smerp.Handler
use smerp.Smerp.Handler.Safety.{smerp-HandlerLaws, Inv-laws}

-- No event, in any order, makes the connection of a `smerpConnection` abort, if its array has
-- 8192 bytes.
pub smerp_never_aborts :
    (bytes beyond : List ℕ)
    → length bytes ≡ read_buf_size
    → ¬ Runs smerp_handler (smerp_connection bytes beyond) aborted
unfolding smerp_connection
smerp_never_aborts bytes beyond e r =
    Runs-Safe smerp_handler smerp-HandlerLaws (smerp_connection bytes beyond)
      (Inv-laws _ (record { allocated = e; fits = refl })) r

-- The connection is over: no timer, a closed socket, and out of the list of connections.
pub record IsClosed (b : ConnectionBase smerp_handler) : Type 0 where
  pub no_timer : b.timer ≡ none
  pub shut : b.socket_open ≡ false
  pub unlisted : b.listed ≡ false

abbrev pub Closes : Outcome smerp_handler → Type 0
Closes (running b) = IsClosed b
Closes aborted = ⊥

-- Where one write more than before is under way, no other read, and the socket is as before; and the
-- connection closes when a write completes.
pub record SendsAndCloses (before b : ConnectionBase smerp_handler) (e : Option ErrorCode)
    : Type 0 where
  pub one_write : b.writing ≡ suc before.writing
  pub no_read : b.reading ≡ before.reading
  pub still_open : b.socket_open ≡ before.socket_open
  pub closes : Closes (handle_write smerp_handler b e)

abbrev pub ThenCloses :
    ConnectionBase smerp_handler → Outcome smerp_handler → Option ErrorCode → Type 0
ThenCloses before (running b) e = SendsAndCloses before b e
ThenCloses before aborted e = ⊥

-- A connection that is signalled or times out, in whatever state, starts exactly one write and no
-- read, its socket still as it was, and when a write completes then, in success or in failure, it
-- closes.
pub interrupted-Closes :
    (b : ConnectionBase smerp_handler) (e : Option ErrorCode)
    → ThenCloses b (handle_signal smerp_handler b) e
      × ThenCloses b (handle_timeout smerp_handler b none) e
unfolding handle_signal handle_timeout handle_write next_operation start_operation set_timeout
    Handler.signal_occured Handler.timeout_occured Handler.next_operation signal_error
    Handler.error_occured
interrupted-Closes b none = (
  record {
    one_write = omega arith;
    no_read = refl;
    still_open = refl;
    closes = record { no_timer = refl; shut = refl; unlisted = refl };
  },
  record {
    one_write = omega arith;
    no_read = refl;
    still_open = refl;
    closes = record { no_timer = refl; shut = refl; unlisted = refl };
  },
)
interrupted-Closes b (some e) = (
  record {
    one_write = omega arith;
    no_read = refl;
    still_open = refl;
    closes = record { no_timer = refl; shut = refl; unlisted = refl };
  },
  record {
    one_write = omega arith;
    no_read = refl;
    still_open = refl;
    closes = record { no_timer = refl; shut = refl; unlisted = refl };
  },
)
