-- ===== src/Smerp/Handler/Moves.antt =====
-- What each operation of a `smerpConnection` sends, and what stays unread.
use smerp.Base.{
  ℕ, ◌+◌, ◌-◌, ◌≤◌, ◌≡◌, refl, sym, ap, ◌∙◌, subst, Bool, true, false, inl, inr, List, [], ◌∷◌,
  ◌++◌, none, some, arith, leb, ◌==◌, length, take, drop, Bool-cases, Option-cases, append_assoc,
  length-take, length-drop, length-append, take-take, drop-drop, drop-take, take-append,
  drop-append,
}
use smerp.Network.Handler.{NetworkOperation, read_data, send_string}
use smerp.Smerp.Handler.{
  State, read_input, output_msg, terminate, SmerpConnection, read_buf_size, line_end, is_quit,
  pending, send_line, read_more, output_lines, next_operation, network_input, smerp_connection,
}
use smerp.Smerp.Handler.Lines.{NoNewline, line_end-Line}

pub send_line-pending :
    (c : SmerpConnection) (n : ℕ) → n ≤ c.data_size → pending (send_line c n).1 ≡ drop n (pending c)
unfolding send_line
send_line-pending c n h = sym (
    drop-take n c.data_size (drop c.data_start c.read_buf)
    ∙ ap (take (c.data_size - n)) (drop-drop n c.data_start c.read_buf))

pub send_line-sends :
    (c : SmerpConnection) (n : ℕ)
    → ((send_line c n).0 ≡ send_string (take n (drop c.data_start c.read_buf)) 0)
      × ((send_line c n).1.state ≡ output_msg)
unfolding send_line
send_line-sends c n = (refl, refl)

-- `case READ_INPUT` starts at the head of the array again.
abbrev pub start_of : State → ℕ → ℕ
start_of read_input start = 0
start_of _ start = start

-- The bytes that were received and not sent back.
abbrev pub unread : SmerpConnection → List ℕ
unread c = take c.data_size (drop (start_of c.state c.data_start) c.read_buf)

-- The history of a connection that has been serving lines since it was opened: whether it waits
-- for a read, the bytes that came in, and the bytes that were sent back, the greeting aside.
pub data Serves : Bool → SmerpConnection → List ℕ → List ℕ → Type 0 where
  opened :
      (bytes beyond : List ℕ) {c : SmerpConnection}
      → length bytes ≡ read_buf_size
      → c ≡ (next_operation (next_operation (smerp_connection bytes beyond)).1).1
      → Serves true c [] []
  arrived :
      {c : SmerpConnection} {received sent : List ℕ} (bytes : List ℕ) {d : SmerpConnection}
      → Serves true c received sent
      → c.data_size + length bytes ≤ read_buf_size
      → d ≡ network_input c c.data_size bytes
      → Serves false d (received ++ bytes) sent
  replied :
      {c d : SmerpConnection} {received sent : List ℕ} (line : List ℕ)
      → Serves false c received sent
      → next_operation c ≡ (send_string line 0, d)
      → d.state ≡ output_msg
      → Serves false d received (sent ++ line)
  asked :
      {c d : SmerpConnection} {received sent : List ℕ} (op : NetworkOperation)
      → Serves false c received sent
      → next_operation c ≡ (op, d)
      → d.state ≡ read_input
      → Serves true d received sent

-- Nothing, or something that a newline ends.
pub data EndsLine : List ℕ → Type 0 where
  empty : EndsLine []
  ended : (xs : List ℕ) {ys : List ℕ} → ys ≡ xs ++ b'\n' ∷ [] → EndsLine ys

-- Every byte is sent back once and in order, up to the last newline.
pub record Echoed (waits : Bool) (c : SmerpConnection) (received sent : List ℕ) : Type 0 where
  pub conserved : received ≡ sent ++ unread c
  pub whole : EndsLine sent
  pub partial : waits ≡ true → NoNewline (unread c)

-- One call of `case OUTPUT_MSG`, seen as a transition on the pending bytes.
pub data Move (xs : List ℕ) : NetworkOperation → State → List ℕ → Type 0 where
  line :
      {op : NetworkOperation} {st : State} {ys : List ℕ} (text : List ℕ)
      → xs ≡ text ++ b'\n' ∷ ys
      → op ≡ send_string (text ++ b'\n' ∷ []) 0
      → st ≡ output_msg
      → Move xs op st ys
  ask :
      {op : NetworkOperation} {st : State} {ys : List ℕ} (wait : ℕ)
      → NoNewline xs
      → ys ≡ xs
      → op ≡ read_data (length xs) (read_buf_size - length xs) wait
      → st ≡ read_input
      → Move xs op st ys
  bye : {op : NetworkOperation} {st : State} {ys : List ℕ} → st ≡ terminate → Move xs op st ys

pub no_line : (xs : List ℕ) → line_end xs ≡ none → NoNewline xs
no_line [] h = tt
no_line (c ∷ xs) h = elim (Bool-cases (c == b'\n')) [
  | inl e ↦ absurd (ground arith)
  | inr e ↦ elim (Option-cases (line_end xs)) [
    | inl f ↦ (e, no_line xs f)
    | inr (m, f) ↦ absurd (ground arith)
  ]
]

module _ (c : SmerpConnection) (f : c.data_start + c.data_size ≤ length c.read_buf) where
  pub length-pending : length (pending c) ≡ c.data_size
  length-pending = omega (
    arith,
    length-take c.data_size (drop c.data_start c.read_buf),
    length-drop c.data_start c.read_buf,
  )

  pub send_line-Move :
      (n : ℕ)
      → line_end (pending c) ≡ some n
      → Move (pending c) (send_line c n).0 (send_line c n).1.state (pending (send_line c n).1)
  send_line-Move n e =
      let l = line_end-Line (pending c) n e in
      let whole : pending c ≡ (l.text ++ b'\n' ∷ []) ++ l.rest = rw append_assoc l.splits in
      let end : n ≡ length (l.text ++ b'\n' ∷ []) =
        omega (arith, l.counted, length-append l.text (b'\n' ∷ [])) in
      let fits : n ≤ c.data_size = omega (
        arith,
        length-pending,
        ap length l.splits,
        l.counted,
        length-append l.text (b'\n' ∷ l.rest),
      ) in
      line l.text
        (l.splits
          ∙ ap (λ r. l.text ++ b'\n' ∷ r)
              (sym (send_line-pending c n fits ∙ ap (drop n) whole ∙ drop-append n _ l.rest end)))
        ((send_line-sends c n).0
          ∙ ap (λ t. send_string t 0)
              (sym (take-take n c.data_size (drop c.data_start c.read_buf) fits)
                ∙ ap (take n) whole
                ∙ take-append n _ l.rest end))
        (send_line-sends c n).1

  pub read_more-Move :
      line_end (pending c) ≡ none
      → Move (pending c) (read_more c).0 (read_more c).1.state (unread (read_more c).1)
  unfolding read_more
  read_more-Move e = elim (Bool-cases (leb read_buf_size c.data_size)) [
    | inl full ↦ rw full (bye refl)
    | inr free ↦ rw free (
        ask c.idle_timeout (no_line (pending c) e)
          (take-append c.data_size (pending c) (drop c.data_size c.read_buf) (sym length-pending))
          (ap (λ n. read_data n (read_buf_size - n) c.idle_timeout) (sym length-pending)) refl)
  ]

  pub output_lines-Move :
      Move (pending c) (output_lines c).0 (output_lines c).1.state (unread (output_lines c).1)
  unfolding output_lines
  output_lines-Move = elim (Bool-cases (is_quit c)) [
    | inl quit ↦ rw quit (bye refl)
    | inr other ↦ rw other (elim (Option-cases (line_end (pending c))) [
      | inl e ↦ rw e (read_more-Move e)
      | inr (n, e) ↦ rw e (
          subst (λ xs. Move (pending c) (send_line c n).0 (send_line c n).1.state xs) (sent n)
            (send_line-Move n e))
    ])
  ]
    where
      sent : (n : ℕ) → pending (send_line c n).1 ≡ unread (send_line c n).1
      sent n = unfold send_line in refl
