-- ===== src/Network/ConnectionBase.antt =====
-- `connectionBase` of src/connectionBase.hpp: the state machine that drives a handler. The
-- asynchronous operations of boost::asio are fields that hold what was started and has not been
-- completed; the calls of the completion handlers are the events of `ConnectionBase.Steps`.
pub mod Steps
pub mod Safety
use smerp.Base.{
  ℕ, zero, suc, ◌+◌, ◌-◌, ◌<◌, Bool, true, false, List, [], Option, none, some, ltb, if◌then◌else◌,
}
use smerp.Network.Handler.{
  NetworkOperation, read, write, close, NetworkSignal, end_of_file, operation_cancelled,
  broken_pipe, unknown_error, ConnectionHandler,
}

-- The error codes that `signalError` tells apart.
pub data ErrorCode : Type 0 where
  eof operation_aborted broken_pipe_error other_error : ErrorCode

module _ (h : ConnectionHandler) where
  -- `timer` is the time that the timer was last set to run, and `writing` the number of writes
  -- that were started and have not been completed. `listed` is that the connection is in its
  -- list of connections.
  pub record ConnectionBase : Type 0 where
    pub handler : h.State
    pub read_buffer : Option ℕ
    pub timer : Option ℕ
    pub reading : Option (ℕ × ℕ)
    pub writing : ℕ
    pub socket_open : Bool
    pub listed : Bool

  -- `aborted` is the call of `abort()`, or an assertion that fails.
  pub data Outcome : Type 0 where
    running : ConnectionBase → Outcome
    aborted : Outcome

  unfoldable pub set_timeout : ConnectionBase → ℕ → ConnectionBase
  set_timeout b zero = record b { timer = none }
  set_timeout b (suc t) = record b { timer = some (suc t) }

  -- `if ( netOp.timeout() > 0 ) setTimeout( netOp.timeout())`
  abbrev pub arm_timeout : ConnectionBase → ℕ → ConnectionBase
  arm_timeout b zero = b
  arm_timeout b (suc t) = set_timeout b (suc t)

  unfoldable pub start_operation : NetworkOperation → ConnectionBase → Outcome
  unfolding set_timeout
  start_operation (read none size timeout) b = aborted
  start_operation (read (some offset) zero timeout) b = aborted
  start_operation (read (some offset) (suc n) timeout) b =
      running (record (arm_timeout b timeout) {
        read_buffer = some offset;
        reading = some (offset, suc n);
      })
  start_operation (write none size timeout) b = aborted
  start_operation (write (some bytes) zero timeout) b = aborted
  start_operation (write (some bytes) (suc n) timeout) b =
      running (record (arm_timeout b timeout) { writing = b.writing + 1 })
  start_operation close b =
      running (record (set_timeout b 0) { socket_open = false; listed = false })

  unfoldable pub next_operation : ConnectionBase → Outcome
  next_operation b =
      let (op, s) = h.next_operation b.handler in start_operation op (record b { handler = s })

  abbrev pub network_signal : ErrorCode → NetworkSignal
  network_signal eof = end_of_file
  network_signal operation_aborted = operation_cancelled
  network_signal broken_pipe_error = broken_pipe
  network_signal other_error = unknown_error

  unfoldable pub signal_error : ConnectionBase → ErrorCode → ConnectionBase
  signal_error b e = record b { handler = h.error_occured b.handler (network_signal e) }

  -- The bytes went to `read_buffer`, which a read has set.
  read_input : ConnectionBase → Option ℕ → List ℕ → ConnectionBase
  read_input b none bytes = b
  read_input b (some offset) bytes = record b { handler = h.network_input b.handler offset bytes }

  completed_read : ConnectionBase → Option ErrorCode → List ℕ → ConnectionBase
  unfolding read_input signal_error
  completed_read b none bytes = read_input b b.read_buffer bytes
  completed_read b (some e) bytes = signal_error b e

  unfoldable pub handle_read : ConnectionBase → Option ErrorCode → List ℕ → Outcome
  unfolding completed_read set_timeout
  handle_read b e bytes =
      next_operation (completed_read (record (set_timeout b 0) { reading = none }) e bytes)

  unfoldable pub handle_write : ConnectionBase → Option ErrorCode → Outcome
  unfolding signal_error set_timeout
  handle_write b e =
      let done = record (set_timeout b 0) { writing = b.writing - 1 } in
      next_operation (elim e [ none ↦ done | some code ↦ signal_error done code ])

  -- The timer has run out, or the wait for it was cancelled.
  unfoldable pub handle_timeout : ConnectionBase → Option ErrorCode → Outcome
  handle_timeout b none =
      next_operation (record b { timer = none; handler = h.timeout_occured b.handler })
  handle_timeout b (some operation_aborted) = running b
  handle_timeout b (some _) = aborted

  unfoldable pub handle_signal : ConnectionBase → Outcome
  handle_signal b = next_operation (record b { handler = h.signal_occured b.handler })

  -- A connection that was just made for a handler, and that was put in its list.
  unfoldable pub new_connection : h.State → ConnectionBase
  new_connection s = record {
    handler = s;
    read_buffer = none;
    timer = none;
    reading = none;
    writing = 0;
    socket_open = true;
    listed = true;
  }
