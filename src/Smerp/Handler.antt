-- ===== src/Smerp/Handler.antt =====
-- `smerpConnection` of src/smerpHandler.hpp and src/smerpHandler.cpp: the state machine that
-- sends back each line. `data_start` is an offset into `read_buf`; before the first read, when
-- it is NULL, it is never used, and is 0 here. `beyond` holds the bytes that follow the array in
-- memory, which `strncmp` may come to compare.
pub mod Lines
pub mod Served
pub mod Safety
pub mod Session
pub mod Moves
pub mod Echo
use smerp.Base.{
  ℕ, zero, suc, ◌+◌, ◌-◌, ◌≤◌, ◌<◌, ◌≡◌, Bool, true, false, ◌&&◌, List, [], ◌∷◌, ◌++◌, Option, none,
  some, leb, ◌==◌, if◌then◌else◌, length, take, drop, codes,
}
use smerp.Network.Handler.{
  NetworkOperation, read_data, send_string, close_connection, NetworkSignal, ConnectionHandler,
}

pub data State : Type 0 where
  new hello_sent read_input output_msg timeout signalled terminate finished : State

abbrev pub read_buf_size : ℕ
read_buf_size = 8192

pub record SmerpConnection : Type 0 where
  pub state : State
  pub read_buf : List ℕ
  pub beyond : List ℕ
  pub data_start : ℕ
  pub data_size : ℕ
  pub out_msg : List ℕ
  pub idle_timeout : ℕ

-- The constructors leave the bytes of the array as they are.
unfoldable pub smerp_connection : List ℕ → List ℕ → SmerpConnection
smerp_connection bytes beyond = record {
  state = new;
  read_buf = bytes;
  beyond = beyond;
  data_start = 0;
  data_size = 0;
  out_msg = [];
  idle_timeout = 30;
}

-- `!strncmp( word, s, length word )` for a word with no zero in it.
abbrev pub starts_with : List ℕ → List ℕ → Bool
starts_with [] s = true
starts_with (w ∷ ws) [] = false
starts_with (w ∷ ws) (c ∷ s) = w == c && starts_with ws s

-- The number of bytes up to the first newline, which counts.
abbrev pub line_end : List ℕ → Option ℕ
line_end [] = none
line_end (c ∷ cs) =
    if c == b'\n' then some 1 else elim (line_end cs) [ none ↦ none | some n ↦ some (suc n) ]

abbrev pub is_quit : SmerpConnection → Bool
is_quit c = starts_with (codes "quit") (drop c.data_start c.read_buf ++ c.beyond)

-- The bytes that were read and not yet sent back.
abbrev pub pending : SmerpConnection → List ℕ
pending c = take c.data_size (drop c.data_start c.read_buf)

-- `case OUTPUT_MSG`, with `read_input` for what lies before it.
unfoldable pub send_line : SmerpConnection → ℕ → NetworkOperation × SmerpConnection
send_line c n =
    let line = take n (drop c.data_start c.read_buf) in
    (
      send_string line 0,
      record c {
        out_msg = line;
        data_size = c.data_size - n;
        data_start = c.data_start + n;
        state = output_msg;
      },
    )

unfoldable pub read_more : SmerpConnection → NetworkOperation × SmerpConnection
read_more c =
    if leb read_buf_size c.data_size
    then (send_string (codes "Line too long. Bye.\n") 0, record c { state = terminate })
    else (
      read_data c.data_size (read_buf_size - c.data_size) c.idle_timeout,
      record c {
        read_buf = take c.data_size (drop c.data_start c.read_buf) ++ drop c.data_size c.read_buf;
        state = read_input;
      },
    )

unfoldable pub output_lines : SmerpConnection → NetworkOperation × SmerpConnection
output_lines c =
    if is_quit c
    then (send_string (codes "Thanks for using SMERP.\n") 0, record c { state = terminate })
    else elim (line_end (pending c)) [ some n ↦ send_line c n | none ↦ read_more c ]

pub next_in : State → SmerpConnection → NetworkOperation × SmerpConnection
next_in new c = (send_string (codes "Welcome to SMERP.\n") 0, record c { state = hello_sent })
next_in hello_sent c = (read_data 0 read_buf_size c.idle_timeout, record c { state = read_input })
next_in read_input c = output_lines (record c { data_start = 0 })
next_in output_msg c = output_lines c
next_in timeout c = (send_string (codes "Timeout. :P\n") 0, record c { state = terminate })
next_in signalled c =
    (send_string (codes "Server is shutting down. :P\n") 0, record c { state = terminate })
next_in terminate c = (close_connection, record c { state = finished })
next_in finished c = (close_connection, c)

unfoldable pub next_operation : SmerpConnection → NetworkOperation × SmerpConnection
unfolding next_in
next_operation c = next_in c.state c

-- The transfer writes the bytes at the offset of the read, and `networkInput` counts them.
unfoldable pub network_input : SmerpConnection → ℕ → List ℕ → SmerpConnection
network_input c offset bytes = record c {
  read_buf = take offset c.read_buf ++ (bytes ++ drop (offset + length bytes) c.read_buf);
  data_size = c.data_size + length bytes;
}

unfoldable pub timeout_occured : SmerpConnection → SmerpConnection
timeout_occured c = record c { state = timeout }

unfoldable pub signal_occured : SmerpConnection → SmerpConnection
signal_occured c = record c { state = signalled }

-- Every signal is logged, each in its words, and ends the connection.
unfoldable pub error_occured : SmerpConnection → NetworkSignal → SmerpConnection
error_occured c signal = record c { state = terminate }

abbrev pub smerp_handler : ConnectionHandler
smerp_handler = record {
  State = SmerpConnection;
  network_input = network_input;
  next_operation = next_operation;
  timeout_occured = timeout_occured;
  signal_occured = signal_occured;
  error_occured = error_occured;
}
