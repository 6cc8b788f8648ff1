-- ===== src/Network/ConnectionBase/Safety.antt =====
-- A handler that keeps the laws never makes its connection abort.
use smerp.Base.{
  ℕ, zero, suc, ◌≤◌, ◌≡◌, refl, subst, inl, inr, ◌⊎◌, List, Option, none, some, arith, length,
}
use smerp.Network.Handler.{
  NetworkOperation, read, write, close, IsStartable, IsRead, ConnectionHandler, HandlerLaws,
}
use smerp.Network.ConnectionBase.{
  ConnectionBase, Outcome, running, aborted, set_timeout, start_operation, next_operation,
  signal_error, network_signal, read_input, completed_read, handle_read, handle_write,
  handle_timeout, handle_signal, new_connection,
}
use smerp.Network.ConnectionBase.Steps.{
  Step, read_done, read_failed, write_done, timed_out, timer_cancelled, signalled, Runs, started,
  goes_on,
}

module _ (h : ConnectionHandler) (l : HandlerLaws h) where
  open l use {
    Inv, Reading, Ending, next-IsStartable, next-Inv, next-Reading, next-Ending, next_keeps-Reading,
    input-Inv, input-Ending, timeout-Inv, signal-Inv, error-Inv, timeout-Ending, signal-Ending,
    error-Ending, timeout-Reading, signal-Reading, error-Reading,
  }

  -- The read that was started is the one that the handler waits for.
  abbrev Waiting : h.State → Option ℕ → Option (ℕ × ℕ) → Type 0
  Waiting s buffer none = Unit {0}
  Waiting s buffer (some (offset, size)) = Reading s offset size × (buffer ≡ some offset)

  -- Until the handler is interrupted there is at most one read or write on the way.
  pub record IsSafe (b : ConnectionBase h) : Type 0 where
    pub inv : Inv b.handler
    pub waiting : Waiting b.handler b.read_buffer b.reading
    pub single : Ending b.handler ⊎ (((b.reading ≡ none) × (b.writing ≤ 1)) ⊎ (b.writing ≡ 0))

  abbrev pub Safe : Outcome h → Type 0
  Safe (running b) = IsSafe b
  Safe aborted = ⊥

  -- When the handler may be asked for its next operation.
  record Ready (b : ConnectionBase h) : Type 0 where
    inv : Inv b.handler
    waiting : Waiting b.handler b.read_buffer b.reading
    free : Ending b.handler ⊎ ((b.reading ≡ none) × (b.writing ≡ 0))

  start_operation-Safe :
      (op : NetworkOperation) (b : ConnectionBase h)
      → IsStartable op
      → Inv b.handler
      → Waiting b.handler b.read_buffer b.reading
      → ((¬ IsRead op) × Ending b.handler) ⊎ ((b.reading ≡ none) × (b.writing ≡ 0))
      → ((offset size timeout : ℕ)
          → op ≡ read (some offset) size timeout
          → Reading b.handler offset size)
      → Safe (start_operation h op b)
  unfolding start_operation
  start_operation-Safe (read none size timeout) b st v w f r = absurd st
  start_operation-Safe (read (some offset) zero timeout) b st v w f r = absurd (omega arith)
  start_operation-Safe (read (some offset) (suc n) zero) b st v w f r = record {
    inv = v;
    waiting = (r offset (suc n) 0 refl, refl);
    single = elim f [ inl (no_read, _) ↦ absurd (no_read tt) | inr (_, z) ↦ inr (inr z) ];
  }
  start_operation-Safe (read (some offset) (suc n) (suc t)) b st v w f r = record {
    inv = v;
    waiting = (r offset (suc n) (suc t) refl, refl);
    single = elim f [ inl (no_read, _) ↦ absurd (no_read tt) | inr (_, z) ↦ inr (inr z) ];
  }
  start_operation-Safe (write none size timeout) b st v w f r = absurd st
  start_operation-Safe (write (some bytes) zero timeout) b st v w f r = absurd (omega arith)
  start_operation-Safe (write (some bytes) (suc n) zero) b st v w f r = record {
    inv = v;
    waiting = w;
    single = elim f [ inl (_, e) ↦ inl e | inr (e, z) ↦ inr (inl (e, omega arith)) ];
  }
  start_operation-Safe (write (some bytes) (suc n) (suc t)) b st v w f r = record {
    inv = v;
    waiting = w;
    single = elim f [ inl (_, e) ↦ inl e | inr (e, z) ↦ inr (inl (e, omega arith)) ];
  }
  start_operation-Safe close b st v w f r = record {
    inv = v;
    waiting = w;
    single = elim f [ inl (_, e) ↦ inl e | inr (_, z) ↦ inr (inr z) ];
  }

  Waiting-next :
      (s : h.State) (buffer : Option ℕ) (reading : Option (ℕ × ℕ))
      → Ending s ⊎ (reading ≡ none)
      → Waiting s buffer reading
      → Waiting (h.next_operation s).1 buffer reading
  Waiting-next s buffer none f w = tt
  Waiting-next s buffer (some (offset, size)) f w = elim f [
    | inl e ↦ (next_keeps-Reading s offset size e w.0, w.1)
    | inr n ↦ absurd (cc n)
  ]

  next_operation-Safe : (b : ConnectionBase h) → Ready b → Safe (next_operation h b)
  unfolding next_operation
  next_operation-Safe b r =
      start_operation-Safe (h.next_operation b.handler).0
        (record b { handler = (h.next_operation b.handler).1 }) (next-IsStartable b.handler r.inv)
        (next-Inv b.handler r.inv)
        (Waiting-next b.handler b.read_buffer b.reading
          (elim r.free [ inl e ↦ inl e | inr (n, _) ↦ inr n ]) r.waiting)
        (elim r.free [ inl e ↦ inl (next-Ending b.handler e) | inr p ↦ inr p ])
        (λ offset size timeout e. next-Reading b.handler offset size timeout r.inv e)

  Waiting-keeps :
      (s u : h.State) (buffer : Option ℕ) (reading : Option (ℕ × ℕ))
      → ((offset size : ℕ) → Reading s offset size → Reading u offset size)
      → Waiting s buffer reading
      → Waiting u buffer reading
  Waiting-keeps s u buffer none k w = tt
  Waiting-keeps s u buffer (some (offset, size)) k w = (k offset size w.0, w.1)

  -- What a completed read finds out about the two that were not interrupted.
  Idle-read :
      (b : ConnectionBase h) (at : ℕ × ℕ)
      → b.reading ≡ some at
      → IsSafe b
      → Ending b.handler ⊎ (b.writing ≡ 0)
  Idle-read b at q v = elim v.single [
    | inl e ↦ inl e
    | inr (inl (n, _)) ↦ absurd (cc (n, q))
    | inr (inr z) ↦ inr z
  ]

  read_done-Ready :
      (b : ConnectionBase h) (offset size : ℕ) (bytes : List ℕ) (buffer : Option ℕ)
      → b.read_buffer ≡ buffer
      → buffer ≡ some offset
      → Inv b.handler
      → Reading b.handler offset size
      → length bytes ≤ size
      → b.reading ≡ none
      → Ending b.handler ⊎ (b.writing ≡ 0)
      → Ready (read_input h b buffer bytes)
  unfolding read_input
  read_done-Ready b offset size bytes none q e v r k n f = absurd (cc e)
  read_done-Ready b offset size bytes (some at) q e v r k n f =
      let same : at ≡ offset = ground arith in
      record {
        inv = rw same (input-Inv b.handler offset size bytes v r k);
        waiting = rw n tt;
        free = elim f [ inl d ↦ inl (input-Ending b.handler at bytes d) | inr z ↦ inr (n, z) ];
      }

  pub Step-Safe : {b : ConnectionBase h} {o : Outcome h} → IsSafe b → Step h b o → Safe o
  unfolding handle_read handle_write set_timeout signal_error completed_read handle_timeout
      handle_signal
  Step-Safe {b} v (read_done offset size bytes e k p) =
      let w = subst (Waiting b.handler b.read_buffer) e v.waiting in
      rw p (
        next_operation-Safe _ (
          read_done-Ready (record (set_timeout h b 0) { reading = none }) offset size bytes
            b.read_buffer refl w.1 v.inv w.0 k refl (Idle-read b (offset, size) e v)))
  Step-Safe {b} v (read_failed at e bytes q p) = rw p (
      next_operation-Safe _ (record {
        inv = error-Inv b.handler (network_signal h e) v.inv;
        waiting = tt;
        free = inl (error-Ending b.handler (network_signal h e));
      }))
  Step-Safe {b} v (write_done none k p) = rw p (
      next_operation-Safe _ (record {
        inv = v.inv;
        waiting = v.waiting;
        free = elim v.single [
          | inl e ↦ inl e
          | inr (inl (n, one)) ↦ inr (n, omega arith)
          | inr (inr z) ↦ absurd (omega arith)
        ];
      }))
  Step-Safe {b} v (write_done (some e) k p) = rw p (
      next_operation-Safe _ (record {
        inv = error-Inv b.handler (network_signal h e) v.inv;
        waiting =
            Waiting-keeps b.handler _ b.read_buffer b.reading
              (error-Reading b.handler (network_signal h e)) v.waiting;
        free = inl (error-Ending b.handler (network_signal h e));
      }))
  Step-Safe {b} v (timed_out p) = rw p (
      next_operation-Safe _ (record {
        inv = timeout-Inv b.handler v.inv;
        waiting =
            Waiting-keeps b.handler _ b.read_buffer b.reading (timeout-Reading b.handler) v.waiting;
        free = inl (timeout-Ending b.handler);
      }))
  Step-Safe {b} v (timer_cancelled p) = rw p v
  Step-Safe {b} v (signalled p) = rw p (
      next_operation-Safe _ (record {
        inv = signal-Inv b.handler v.inv;
        waiting =
            Waiting-keeps b.handler _ b.read_buffer b.reading (signal-Reading b.handler) v.waiting;
        free = inl (signal-Ending b.handler);
      }))

  -- Whatever completes, fails, times out or is signalled, and in whatever order: the connection of
  -- a handler that keeps the laws never aborts, and until the handler is interrupted no more than
  -- one read or write is on the way.
  pub Runs-Safe : (s : h.State) {o : Outcome h} → Inv s → Runs h s o → Safe o
  unfolding new_connection
  Runs-Safe s v (started p) = rw p (
      next_operation-Safe (new_connection h s)
        (record { inv = v; waiting = tt; free = inr (refl, refl) }))
  Runs-Safe s v (goes_on r st) = Step-Safe (Runs-Safe s v r) st
