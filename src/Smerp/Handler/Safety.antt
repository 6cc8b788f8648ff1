-- ===== src/Smerp/Handler/Safety.antt =====
-- `smerpConnection` keeps inside its read buffer, and only asks for operations that can start.
use smerp.Base.{
  ℕ, ◌+◌, ◌≤◌, ◌≡◌, refl, List, ◌++◌, none, some, arith, length, take, drop, length-take,
  length-drop, length-append,
}
use smerp.Network.Handler.{NetworkOperation, IsStartable, IsRead, HandlerLaws, read, write, close}
use smerp.Smerp.Handler.{
  State, new, hello_sent, read_input, output_msg, finished, SmerpConnection, read_buf_size, next_in,
  next_operation, network_input, timeout_occured, signal_occured, error_occured, smerp_handler,
}
use smerp.Smerp.Handler.Served.{Fits, Inv, IsEnding, WaitsForRead, Reading, next_in-Served}

-- However far the connection is, the unread bytes are no more than the array holds.
Fits-weaken : (st : State) (start size : ℕ) → Fits st start size → size ≤ read_buf_size
Fits-weaken output_msg start size h = omega arith
Fits-weaken new start size h = omega arith
Fits-weaken hello_sent start size h = omega arith
Fits-weaken _ start size h = h

Waits-Fits :
    (st : State) (start size : ℕ) → WaitsForRead st → size ≤ read_buf_size → Fits st start size
Waits-Fits new start size w h = absurd w
Waits-Fits hello_sent start size w h = absurd w
Waits-Fits output_msg start size w h = absurd w
Waits-Fits _ start size w h = h

pub network_input-Inv :
    (c : SmerpConnection) (offset size : ℕ) (bytes : List ℕ)
    → Inv c
    → Reading c offset size
    → length bytes ≤ size
    → Inv (network_input c offset bytes)
unfolding network_input
network_input-Inv c offset size bytes v r l = record {
  allocated = omega (
    arith,
    v.allocated,
    r.behind,
    r.free,
    length-append (take offset c.read_buf) (bytes ++ drop (offset + length bytes) c.read_buf),
    length-append bytes (drop (offset + length bytes) c.read_buf),
    length-take offset c.read_buf,
    length-drop (offset + length bytes) c.read_buf,
  );
  fits =
      Waits-Fits c.state c.data_start (c.data_size + length bytes) r.waits (omega (arith, r.free));
}

Ending-step :
    (st : State) (c : SmerpConnection)
    → c.state ≡ st
    → IsEnding st
    → (¬ IsRead (next_in st c).0)
      × IsEnding (next_in st c).1.state
      × (WaitsForRead (next_in st c).1.state)
      × ((next_in st c).1.data_size ≡ c.data_size)
unfolding next_in
Ending-step new c e h = absurd h
Ending-step hello_sent c e h = absurd h
Ending-step read_input c e h = absurd h
Ending-step output_msg c e h = absurd h
Ending-step finished c e h = (λ r. r, rw e tt, rw e tt, refl)
Ending-step _ c e h = (λ r. r, tt, tt, refl)

interrupted-Inv :
    (c d : SmerpConnection)
    → d.read_buf ≡ c.read_buf
    → d.data_size ≡ c.data_size
    → IsEnding d.state
    → Inv c
    → Inv d
interrupted-Inv c d b s e v = record {
  allocated = rw b v.allocated;
  fits = ending d.state e (Fits-weaken c.state c.data_start c.data_size v.fits);
}
  where
    ending :
        (st : State) → IsEnding st → c.data_size ≤ read_buf_size → Fits st d.data_start d.data_size
    ending new h k = absurd h
    ending hello_sent h k = absurd h
    ending read_input h k = absurd h
    ending output_msg h k = absurd h
    ending _ h k = omega arith

Reading-keeps :
    (c d : SmerpConnection) (offset size : ℕ)
    → d.data_size ≡ c.data_size
    → WaitsForRead d.state
    → Reading c offset size
    → Reading d offset size
Reading-keeps c d offset size e w r = record {
  behind = omega (arith, r.behind);
  free = omega (arith, r.free);
  waits = w;
}

-- `smerpConnection` meets what the network layer asks of a handler: every read stays inside the
-- array of 8192 bytes, nothing empty is ever sent, and an interrupted connection reads no more.
pub smerp-HandlerLaws : HandlerLaws smerp_handler
unfolding next_operation timeout_occured signal_occured error_occured network_input
smerp-HandlerLaws = record {
  Inv = Inv;
  Reading = Reading;
  Ending = λ c. IsEnding c.state;
  next-IsStartable = λ c v. (next_in-Served c.state c refl v).startable;
  next-Inv = λ c v. (next_in-Served c.state c refl v).inv;
  next-Reading =
      λ c offset size wait v e. (next_in-Served c.state c refl v).reading offset size wait e;
  next-Ending = λ c h. let s = Ending-step c.state c refl h in (s.0, s.1);
  next_keeps-Reading = λ c offset size h r.
      let s = Ending-step c.state c refl h in Reading-keeps c _ offset size s.3 s.2 r;
  input-Inv = network_input-Inv;
  input-Ending = λ c offset bytes h. h;
  timeout-Inv = λ c v. interrupted-Inv c _ refl refl tt v;
  signal-Inv = λ c v. interrupted-Inv c _ refl refl tt v;
  error-Inv = λ c e v. interrupted-Inv c _ refl refl tt v;
  timeout-Ending = λ c. tt;
  signal-Ending = λ c. tt;
  error-Ending = λ c e. tt;
  timeout-Reading = λ c offset size r. Reading-keeps c _ offset size refl tt r;
  signal-Reading = λ c offset size r. Reading-keeps c _ offset size refl tt r;
  error-Reading = λ c e offset size r. Reading-keeps c _ offset size refl tt r;
}

pub Inv-laws : (c : SmerpConnection) → Inv c → smerp-HandlerLaws.Inv c
unfolding smerp-HandlerLaws
Inv-laws c v = v

-- A read goes into exactly the part of the array behind the unread bytes.
abbrev ReadsBehind : NetworkOperation → SmerpConnection → Type 0
ReadsBehind (read (some offset) size wait) c = Reading c offset size
ReadsBehind (read none size wait) c = Unit {0}
ReadsBehind (write bytes size wait) c = Unit {0}
ReadsBehind close c = Unit {0}

Reading-ReadsBehind :
    (op : NetworkOperation) (c : SmerpConnection)
    → ((offset size wait : ℕ) → op ≡ read (some offset) size wait → Reading c offset size)
    → ReadsBehind op c
Reading-ReadsBehind (read (some offset) size wait) c f = f offset size wait refl
Reading-ReadsBehind (read none size wait) c f = tt
Reading-ReadsBehind (write bytes size wait) c f = tt
Reading-ReadsBehind close c f = tt

-- From every state within the array the next operation can be started, leaves a state within the
-- array, and reads, if it reads, into exactly the part of the array behind the unread bytes.
pub next_operation-stays :
    (c : SmerpConnection)
    → Inv c
    → IsStartable (next_operation c).0
      × Inv (next_operation c).1
      × ReadsBehind (next_operation c).0 (next_operation c).1
unfolding next_operation
next_operation-stays c v =
    let s = next_in-Served c.state c refl v in
    (s.startable, s.inv, Reading-ReadsBehind _ _ s.reading)
