-- ===== src/Network/ConnectionBase/Steps.antt =====
-- What may happen to a connection: which completion handlers boost::asio can call, and when.
use smerp.Base.{ℕ, ◌≤◌, ◌<◌, ◌≡◌, List, Option, none, some, length}
use smerp.Network.Handler.{ConnectionHandler}
use smerp.Network.ConnectionBase.{
  ErrorCode, operation_aborted, ConnectionBase, Outcome, running, next_operation, handle_read,
  handle_write, handle_timeout, handle_signal, new_connection,
}

module _ (h : ConnectionHandler) where
  -- A read brings at most as many bytes as it has room for, and a read or a write completes only
  -- if it was started. The timer may report at any time that it has run out, as it does when it is
  -- cancelled too late, or that it was cancelled; a signal may come at any time.
  pub data Step (b : ConnectionBase h) : Outcome h → Type 0 where
    read_done :
        (offset size : ℕ) (bytes : List ℕ) {o : Outcome h}
        → b.reading ≡ some (offset, size)
        → length bytes ≤ size
        → o ≡ handle_read h b none bytes
        → Step b o
    read_failed :
        (at : ℕ × ℕ) (e : ErrorCode) (bytes : List ℕ) {o : Outcome h}
        → b.reading ≡ some at
        → o ≡ handle_read h b (some e) bytes
        → Step b o
    write_done :
        (e : Option ErrorCode) {o : Outcome h} → 0 < b.writing → o ≡ handle_write h b e → Step b o
    timed_out : {o : Outcome h} → o ≡ handle_timeout h b none → Step b o
    timer_cancelled : {o : Outcome h} → o ≡ handle_timeout h b (some operation_aborted) → Step b o
    signalled : {o : Outcome h} → o ≡ handle_signal h b → Step b o

  -- The first operation of a connection in its list, and any events after it.
  pub data Runs (s : h.State) : Outcome h → Type 0 where
    started : {o : Outcome h} → o ≡ next_operation h (new_connection h s) → Runs s o
    goes_on : {b : ConnectionBase h} {o : Outcome h} → Runs s (running b) → Step b o → Runs s o
