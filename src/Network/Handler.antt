-- ===== src/Network/Handler.antt =====
-- `NetworkOperation` and `connectionHandler` of include/connectionHandler.hpp. A pointer into
-- the handler's read buffer is an offset into it; one to data that is sent is the bytes behind
-- it; `none` is NULL.
use smerp.Base.{ℕ, ◌≤◌, ◌<◌, ◌≡◌, List, Option, none, some, length}

pub data NetworkOperation : Type 0 where
  read : Option ℕ → ℕ → ℕ → NetworkOperation
  write : Option (List ℕ) → ℕ → ℕ → NetworkOperation
  close : NetworkOperation

-- The constructors `ReadData`, `SendData`, `SendString` and `CloseConnection`.
abbrev pub read_data : ℕ → ℕ → ℕ → NetworkOperation
read_data offset size timeout = read (some offset) size timeout

abbrev pub send_data : List ℕ → ℕ → ℕ → NetworkOperation
send_data bytes size timeout = write (some bytes) size timeout

abbrev pub send_string : List ℕ → ℕ → NetworkOperation
send_string s timeout = write (some s) (length s) timeout

abbrev pub close_connection : NetworkOperation
close_connection = close

pub data NetworkSignal : Type 0 where
  end_of_file operation_cancelled broken_pipe unknown_error : NetworkSignal

-- The virtual functions. `network_input` stands for the transfer of the bytes to the buffer of
-- the read operation, at its offset, and the call that tells the handler of them.
pub record ConnectionHandler : Type 1 where
  pub State : Type 0
  pub network_input : State → ℕ → List ℕ → State
  pub next_operation : State → NetworkOperation × State
  pub timeout_occured : State → State
  pub signal_occured : State → State
  pub error_occured : State → NetworkSignal → State

-- An operation that the network can start: its buffer is there and is not empty.
abbrev pub IsStartable : NetworkOperation → Type 0
IsStartable (read none size timeout) = ⊥
IsStartable (read (some offset) size timeout) = 0 < size
IsStartable (write none size timeout) = ⊥
IsStartable (write (some bytes) size timeout) = (0 < size) × (size ≤ length bytes)
IsStartable close = Unit {0}

abbrev pub IsRead : NetworkOperation → Type 0
IsRead (read buffer size timeout) = Unit {0}
IsRead _ = ⊥

-- What the network layer asks of a handler: an invariant that every call keeps, and under which
-- every operation can be started. `Reading s offset size` is that `s` waits for such a read;
-- `Ending s`, that `s` was told of a timeout, a signal or an error, and will not read again.
pub record HandlerLaws (h : ConnectionHandler) : Type 1 where
  pub Inv : h.State → Type 0
  pub Reading : h.State → ℕ → ℕ → Type 0
  pub Ending : h.State → Type 0
  pub next-IsStartable : (s : h.State) → Inv s → IsStartable (h.next_operation s).0
  pub next-Inv : (s : h.State) → Inv s → Inv (h.next_operation s).1
  pub next-Reading :
      (s : h.State) (offset size timeout : ℕ)
      → Inv s
      → (h.next_operation s).0 ≡ read (some offset) size timeout
      → Reading (h.next_operation s).1 offset size
  pub next-Ending :
      (s : h.State) → Ending s → (¬ IsRead (h.next_operation s).0) × Ending (h.next_operation s).1
  pub next_keeps-Reading :
      (s : h.State) (offset size : ℕ)
      → Ending s
      → Reading s offset size
      → Reading (h.next_operation s).1 offset size
  pub input-Inv :
      (s : h.State) (offset size : ℕ) (bytes : List ℕ)
      → Inv s
      → Reading s offset size
      → length bytes ≤ size
      → Inv (h.network_input s offset bytes)
  pub input-Ending :
      (s : h.State) (offset : ℕ) (bytes : List ℕ)
      → Ending s
      → Ending (h.network_input s offset bytes)
  pub timeout-Inv : (s : h.State) → Inv s → Inv (h.timeout_occured s)
  pub signal-Inv : (s : h.State) → Inv s → Inv (h.signal_occured s)
  pub error-Inv : (s : h.State) (e : NetworkSignal) → Inv s → Inv (h.error_occured s e)
  pub timeout-Ending : (s : h.State) → Ending (h.timeout_occured s)
  pub signal-Ending : (s : h.State) → Ending (h.signal_occured s)
  pub error-Ending : (s : h.State) (e : NetworkSignal) → Ending (h.error_occured s e)
  pub timeout-Reading :
      (s : h.State) (offset size : ℕ)
      → Reading s offset size
      → Reading (h.timeout_occured s) offset size
  pub signal-Reading :
      (s : h.State) (offset size : ℕ)
      → Reading s offset size
      → Reading (h.signal_occured s) offset size
  pub error-Reading :
      (s : h.State) (e : NetworkSignal) (offset size : ℕ)
      → Reading s offset size
      → Reading (h.error_occured s e) offset size
