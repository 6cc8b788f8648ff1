-- ===== src/Smerp/Handler/Echo.antt =====
-- What `smerpConnection` sends back.
use smerp.Base.{
  ℕ, ◌+◌, ◌-◌, ◌≤◌, ◌≡◌, refl, sym, ap, ◌∙◌, subst, Bool, true, false, List, [], ◌∷◌, ◌++◌, arith,
  length, take, drop, append_assoc, length-take, length-append, take-append,
}
use smerp.Network.Handler.{NetworkOperation, send_string}
use smerp.Smerp.Handler.{
  State, new, hello_sent, read_input, output_msg, timeout, signalled, terminate, finished,
  SmerpConnection, read_buf_size, pending, output_lines, next_in, next_operation, network_input,
  smerp_connection,
}
use smerp.Smerp.Handler.Lines.{NoNewline}
use smerp.Smerp.Handler.Served.{Inv, Fits, WaitsForRead}
use smerp.Smerp.Handler.Safety.{network_input-Inv, next_operation-stays}
use smerp.Smerp.Handler.Moves.{
  opened, arrived, replied, asked, empty, ended, line, ask, bye, start_of, unread, Serves, Echoed,
  Move, output_lines-Move,
}

-- The two states in which a connection has input to look at.
abbrev IsServing : State → Type 0
IsServing read_input = Unit {0}
IsServing output_msg = Unit {0}
IsServing _ = ⊥

unread-pending :
    (c : SmerpConnection) (st : State)
    → c.state ≡ st
    → unread c ≡ pending (record c { data_start = start_of st c.data_start })
unread-pending c st e = ap (λ x. take c.data_size (drop (start_of x c.data_start) c.read_buf)) e

next_operation-Move :
    (c : SmerpConnection)
    → Inv c
    → IsServing c.state
    → Move (unread c) (next_operation c).0 (next_operation c).1.state (unread (next_operation c).1)
unfolding next_operation
next_operation-Move c v s = go c.state refl s
  where
    go :
        (st : State)
        → c.state ≡ st
        → IsServing st
        → Move (unread c) (next_in st c).0 (next_in st c).1.state (unread (next_in st c).1)
    go read_input e s =
        let room = subst (λ st. Fits st c.data_start c.data_size) e v.fits in
        let done = output_lines (record c { data_start = 0 }) in
        subst (λ xs. Move xs done.0 done.1.state (unread done.1))
          (sym (unread-pending c read_input e))
          (output_lines-Move (record c { data_start = 0 }) (omega (arith, v.allocated)))
    go output_msg e s =
        let room = subst (λ st. Fits st c.data_start c.data_size) e v.fits in
        let done = output_lines c in
        subst (λ xs. Move xs done.0 done.1.state (unread done.1))
          (sym (unread-pending c output_msg e)) (output_lines-Move c (omega (arith, v.allocated)))
    go new e s = absurd s
    go hello_sent e s = absurd s
    go timeout e s = absurd s
    go signalled e s = absurd s
    go terminate e s = absurd s
    go finished e s = absurd s

-- Together with where the connection is and what the array holds.
record Session (waits : Bool) (c : SmerpConnection) (received sent : List ℕ) : Type 0 where
  echoed : Echoed waits c received sent
  inv : Inv c
  serving : IsServing c.state
  reads : waits ≡ true → c.state ≡ read_input

opened-Session :
    (bytes beyond : List ℕ)
    → length bytes ≡ read_buf_size
    → Session true (next_operation (next_operation (smerp_connection bytes beyond)).1).1 [] []
unfolding next_operation next_in smerp_connection
opened-Session bytes beyond e = record {
  echoed = record { conserved = refl; whole = empty; partial = λ _. tt };
  inv = record { allocated = e; fits = omega arith };
  serving = tt;
  reads = λ _. refl;
}

network_input-unread :
    (c : SmerpConnection) (bytes : List ℕ)
    → c.state ≡ read_input
    → c.data_size + length bytes ≤ length c.read_buf
    → unread (network_input c c.data_size bytes) ≡ unread c ++ bytes
unfolding network_input
network_input-unread c bytes e h =
    ap (λ st. take (c.data_size + length bytes) (drop (start_of st c.data_start) filled)) e
    ∙ ap (take (c.data_size + length bytes)) (sym (append_assoc old bytes rest))
    ∙ take-append (c.data_size + length bytes) (old ++ bytes) rest
        (omega (arith, length-append old bytes, length-take c.data_size c.read_buf))
    ∙ sym (ap (λ st. take c.data_size (drop (start_of st c.data_start) c.read_buf) ++ bytes) e)
  where
    old : List ℕ
    old = take c.data_size c.read_buf

    rest : List ℕ
    rest = drop (c.data_size + length bytes) c.read_buf

    filled : List ℕ
    filled = old ++ (bytes ++ rest)

arrived-Session :
    (c : SmerpConnection) (received sent bytes : List ℕ)
    → Session true c received sent
    → c.data_size + length bytes ≤ read_buf_size
    → Session false (network_input c c.data_size bytes) (received ++ bytes) sent
arrived-Session c received sent bytes s h =
    let at = s.reads refl in
    let waits : WaitsForRead c.state = subst WaitsForRead (sym at) tt in
    let room = subst (λ st. Fits st c.data_start c.data_size) at s.inv.fits in
    record {
      echoed = record {
        conserved =
            ap (λ x. x ++ bytes) s.echoed.conserved
            ∙ append_assoc sent (unread c) bytes
            ∙ ap (λ x. sent ++ x)
                (sym (network_input-unread c bytes at (omega (arith, s.inv.allocated))));
        whole = s.echoed.whole;
        partial = λ e. absurd (cc e);
      };
      inv =
          network_input-Inv c c.data_size (read_buf_size - c.data_size) bytes s.inv
            (record { behind = refl; free = omega arith; waits = waits }) (omega arith);
      serving = unfold network_input in s.serving;
      reads = λ e. absurd (cc e);
    }

replied-Session :
    (c d : SmerpConnection) (op : NetworkOperation) (received sent l : List ℕ)
    → Session false c received sent
    → Move (unread c) op d.state (unread d)
    → Inv d
    → op ≡ send_string l 0
    → d.state ≡ output_msg
    → Session false d received (sent ++ l)
replied-Session c d op received sent l s (line text splits o st) v e q =
    let same : text ++ b'\n' ∷ [] ≡ l = cc (sym o ∙ e) in
    record {
      echoed = record {
        conserved =
            s.echoed.conserved
            ∙ ap (λ x. sent ++ x) splits
            ∙ ap (λ x. sent ++ x) (sym (append_assoc text (b'\n' ∷ []) (unread d)))
            ∙ sym (append_assoc sent (text ++ b'\n' ∷ []) (unread d))
            ∙ ap (λ x. (sent ++ x) ++ unread d) same;
        whole =
            ended (sent ++ text)
              (ap (λ x. sent ++ x) (sym same) ∙ sym (append_assoc sent text (b'\n' ∷ [])));
        partial = λ e. absurd (cc e);
      };
      inv = v;
      serving = subst IsServing (sym q) tt;
      reads = λ e. absurd (cc e);
    }
replied-Session c d op received sent l s (ask wait n k o st) v e q = absurd (cc (sym st ∙ q))
replied-Session c d op received sent l s (bye st) v e q = absurd (cc (sym st ∙ q))

asked-Session :
    (c d : SmerpConnection) (op : NetworkOperation) (received sent : List ℕ)
    → Session false c received sent
    → Move (unread c) op d.state (unread d)
    → Inv d
    → d.state ≡ read_input
    → Session true d received sent
asked-Session c d op received sent s (line text splits o st) v q = absurd (cc (sym st ∙ q))
asked-Session c d op received sent s (ask wait n k o st) v q = record {
  echoed = record {
    conserved = s.echoed.conserved ∙ ap (λ x. sent ++ x) (sym k);
    whole = s.echoed.whole;
    partial = λ _. subst NoNewline (sym k) n;
  };
  inv = v;
  serving = subst IsServing (sym q) tt;
  reads = λ _. q;
}
asked-Session c d op received sent s (bye st) v q = absurd (cc (sym st ∙ q))

Serves-Session :
    {waits : Bool} {c : SmerpConnection} {received sent : List ℕ}
    → Serves waits c received sent
    → Session waits c received sent
Serves-Session (opened bytes beyond l e) = rw e (opened-Session bytes beyond l)
Serves-Session (arrived {c} {received} {sent} bytes s h e) =
    rw e (arrived-Session c received sent bytes (Serves-Session s) h)
Serves-Session (replied {c} {d} {received} {sent} l s e q) =
    let now = Serves-Session s in
    let op = ap (λ r. r.0) e in
    let same = ap (λ r. r.1) e in
    replied-Session c d (next_operation c).0 received sent l now
      (subst (λ x. Move (unread c) (next_operation c).0 x.state (unread x)) same
        (next_operation-Move c now.inv now.serving))
      (subst Inv same (next_operation-stays c now.inv).1) op q
Serves-Session (asked {c} {d} {received} {sent} op s e q) =
    let now = Serves-Session s in
    let same = ap (λ r. r.1) e in
    asked-Session c d (next_operation c).0 received sent now
      (subst (λ x. Move (unread c) (next_operation c).0 x.state (unread x)) same
        (next_operation-Move c now.inv now.serving))
      (subst Inv same (next_operation-stays c now.inv).1) q

-- As long as a connection serves lines, what it received is what it sent back, followed by what
-- it still holds, whatever the sizes in which the input arrived; what it sent back ends with a
-- newline or is empty; and when it waits for more input it holds no complete line.
pub Serves-Echoed :
    {waits : Bool} {c : SmerpConnection} {received sent : List ℕ}
    → Serves waits c received sent
    → Echoed waits c received sent
Serves-Echoed s = (Serves-Session s).echoed
