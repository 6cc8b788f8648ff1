-- ===== src/Smerp/Handler/Served.antt =====
-- One operation of a `smerpConnection`: it can be started and stays within the array.
use smerp.Base.{
  ℕ, ◌+◌, ◌≤◌, ◌<◌, ◌≡◌, subst, ◌∙◌, inl, inr, List, [], ◌∷◌, ◌++◌, some, Option-cases, Bool-cases,
  arith, leb, length, take, drop, length-take, length-drop, length-append,
}
use smerp.Network.Handler.{NetworkOperation, IsStartable, read}
use smerp.Smerp.Handler.{
  State, new, hello_sent, read_input, output_msg, timeout, signalled, terminate, finished,
  SmerpConnection, read_buf_size, line_end, is_quit, pending, send_line, read_more, output_lines,
  next_in,
}

abbrev pub Fits : State → ℕ → ℕ → Type 0
Fits new start size = size ≡ 0
Fits hello_sent start size = size ≡ 0
Fits output_msg start size = start + size ≤ read_buf_size
Fits _ start size = size ≤ read_buf_size

-- The array keeps its length and the unread bytes lie inside it.
pub record Inv (c : SmerpConnection) : Type 0 where
  pub allocated : length c.read_buf ≡ read_buf_size
  pub fits : Fits c.state c.data_start c.data_size

abbrev pub IsEnding : State → Type 0
IsEnding timeout = Unit {0}
IsEnding signalled = Unit {0}
IsEnding terminate = Unit {0}
IsEnding finished = Unit {0}
IsEnding _ = ⊥

abbrev pub WaitsForRead : State → Type 0
WaitsForRead new = ⊥
WaitsForRead hello_sent = ⊥
WaitsForRead output_msg = ⊥
WaitsForRead _ = Unit {0}

-- The read fills what is free behind the unread bytes.
pub record Reading (c : SmerpConnection) (offset size : ℕ) : Type 0 where
  pub behind : offset ≡ c.data_size
  pub free : c.data_size + size ≡ read_buf_size
  pub waits : WaitsForRead c.state

pub line_end-bounds : (xs : List ℕ) (n : ℕ) → line_end xs ≡ some n → (0 < n) × (n ≤ length xs)
line_end-bounds [] n h = absurd (cc h)
line_end-bounds (c ∷ xs) n h = elim (Option-cases (line_end xs)) [
  | inl e ↦ ground arith
  | inr (m, e) ↦ ground (arith, line_end-bounds xs m e)
]

-- The buffer after unread bytes were moved to its start.
pub length-moved :
    (buf : List ℕ) (start size : ℕ)
    → start + size ≤ length buf
    → length (take size (drop start buf) ++ drop size buf) ≡ length buf
length-moved buf start size h = omega (
  arith,
  length-append (take size (drop start buf)) (drop size buf),
  length-take size (drop start buf),
  length-drop start buf,
  length-drop size buf,
)

-- `case OUTPUT_MSG` on every branch.
pub record Served (r : NetworkOperation × SmerpConnection) : Type 0 where
  pub startable : IsStartable r.0
  pub inv : Inv r.1
  pub reading :
      (offset size wait : ℕ) → r.0 ≡ read (some offset) size wait → Reading r.1 offset size

module _ (c : SmerpConnection) (a : length c.read_buf ≡ read_buf_size)
    (f : c.data_start + c.data_size ≤ read_buf_size) where
  pub send_line-Served : (n : ℕ) → line_end (pending c) ≡ some n → Served (send_line c n)
  unfolding send_line
  send_line-Served n e =
      let bounds = line_end-bounds (pending c) n e in
      let size = length-take c.data_size (drop c.data_start c.read_buf) in
      let line = length-take n (drop c.data_start c.read_buf) in
      let behind = length-drop c.data_start c.read_buf in
      record {
        startable = (omega arith, omega arith);
        inv = record { allocated = a; fits = omega arith };
        reading = λ offset size wait h. absurd (cc h);
      }

  pub read_more-Served : Served (read_more c)
  unfolding read_more
  read_more-Served = elim (Bool-cases (leb read_buf_size c.data_size)) [
    | inl full ↦ rw full (record {
      startable = (omega arith, omega arith);
      inv = record { allocated = a; fits = omega arith };
      reading = λ offset size wait h. absurd (cc h);
    })
    | inr free ↦ rw free (record {
      startable = ground arith;
      inv = record {
        allocated = length-moved c.read_buf c.data_start c.data_size (omega arith) ∙ a;
        fits = omega arith;
      };
      reading = λ offset size wait h. ground arith;
    })
  ]

  pub output_lines-Served : Served (output_lines c)
  unfolding output_lines
  output_lines-Served = elim (Bool-cases (is_quit c)) [
    | inl quit ↦ rw quit (record {
      startable = (omega arith, omega arith);
      inv = record { allocated = a; fits = omega arith };
      reading = λ offset size wait h. absurd (cc h);
    })
    | inr other ↦ rw other (elim (Option-cases (line_end (pending c))) [
      | inl e ↦ rw e read_more-Served
      | inr (n, e) ↦ rw e (send_line-Served n e)
    ])
  ]

pub next_in-Served :
    (st : State) (c : SmerpConnection) → c.state ≡ st → Inv c → Served (next_in st c)
unfolding next_in
next_in-Served new c e v = record {
  startable = (omega arith, omega arith);
  inv = record {
    allocated = v.allocated;
    fits = subst (λ st. Fits st c.data_start c.data_size) e v.fits;
  };
  reading = λ offset size wait h. absurd (cc h);
}
next_in-Served hello_sent c e v =
    let none_yet = subst (λ st. Fits st c.data_start c.data_size) e v.fits in
    record {
      startable = omega arith;
      inv = record { allocated = v.allocated; fits = omega arith };
      reading = λ offset size wait h. ground arith;
    }
next_in-Served read_input c e v =
    let fits = subst (λ st. Fits st c.data_start c.data_size) e v.fits in
    output_lines-Served (record c { data_start = 0 }) v.allocated (omega arith)
next_in-Served output_msg c e v =
    output_lines-Served c v.allocated (subst (λ st. Fits st c.data_start c.data_size) e v.fits)
next_in-Served finished c e v = record {
  startable = tt;
  inv = v;
  reading = λ offset size wait h. absurd (cc h);
}
next_in-Served terminate c e v = record {
  startable = tt;
  inv = record {
    allocated = v.allocated;
    fits = subst (λ st. Fits st c.data_start c.data_size) e v.fits;
  };
  reading = λ offset size wait h. absurd (cc h);
}
next_in-Served timeout c e v = record {
  startable = (omega arith, omega arith);
  inv = record {
    allocated = v.allocated;
    fits = subst (λ st. Fits st c.data_start c.data_size) e v.fits;
  };
  reading = λ offset size wait h. absurd (cc h);
}
next_in-Served signalled c e v = record {
  startable = (omega arith, omega arith);
  inv = record {
    allocated = v.allocated;
    fits = subst (λ st. Fits st c.data_start c.data_size) e v.fits;
  };
  reading = λ offset size wait h. absurd (cc h);
}
