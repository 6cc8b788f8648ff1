-- ===== src/Network/Server/Limits.antt =====
-- The maximum numbers of connections, of each socket and of all of them, are kept.
use smerp.Base.{ℕ, ◌+◌, refl, sym, subst, Bool, false, [], arith, length}
use smerp.Network.Server.{
  Kind, ssl, Server, update, without, remove, handle_handshake, handle_accept, unregister,
  handle_stop,
}
use smerp.Network.Server.Counting.{length-without, signal_all-lem}
use smerp.Network.Server.Handlers.{
  IsLimited, shrink-IsLimited, chosen, admit-IsLimited, updated, at, start-IsLimited,
  rearm-IsLimited,
}

handle_accept-IsLimited :
    (k : Kind) (i : ℕ) (failed : Bool) (s : Server)
    → IsLimited s
    → IsLimited (handle_accept k i failed s)
unfolding handle_accept
handle_accept-IsLimited k i failed s l = at k i s _ l (λ a e.
    let fired = record a { armed = false } in
    let l' = shrink-IsLimited k i a fired s l e (omega arith) refl in
    chosen failed _ _ (λ _. l')
      (λ _.
        rearm-IsLimited k i _
          (start-IsLimited k i fired a.new_connection _ l' (updated k i a fired s e))))

handle_handshake-IsLimited :
    (i conn : ℕ) (failed : Bool) (s : Server)
    → IsLimited s
    → IsLimited (handle_handshake i conn failed s)
unfolding handle_handshake
handle_handshake-IsLimited i conn failed s l = at ssl i s _ l (λ a e.
    let done = record a { handshakes = without conn a.handshakes } in
    let l' = shrink-IsLimited ssl i a done s l e (omega arith) refl in
    chosen failed _ _ (λ _. l')
      (λ _. admit-IsLimited ssl i done conn _ l' (updated ssl i a done s e)))

unregister-IsLimited :
    (k : Kind) (i conn : ℕ) (s : Server) → IsLimited s → IsLimited (unregister k i conn s)
unfolding unregister
unregister-IsLimited k i conn s l =
    at k i s _ l
      (λ a e. shrink-IsLimited k i a (remove a conn) s l e (length-without conn a.conn_list) refl)

handle_stop-IsLimited :
    (k : Kind) (i : ℕ) (s : Server) → IsLimited s → IsLimited (handle_stop k i s)
unfolding handle_stop
handle_stop-IsLimited k i s l = at k i s _ l (λ a e.
    let all =
      signal_all-lem (length a.conn_list + 1) (record a { is_open = false }) a.conn_list s.signalled
        (omega arith) in
    let l' =
      shrink-IsLimited k i a (record a { conn_list = []; is_open = false }) s l e (omega arith)
        refl in
    subst (λ x. IsLimited (record (update k i x.0 s) { signalled = x.1 })) (sym all)
      (record {
        tcp_within = l'.tcp_within;
        ssl_within = l'.ssl_within;
        all_within = l'.all_within;
        is_unsigned = l'.is_unsigned;
      }))

-- What may happen to the server: any handler of any acceptor, in any order.
pub data Step (s : Server) : Server → Type 0 where
  accepted : (k : Kind) (i : ℕ) (failed : Bool) → Step s (handle_accept k i failed s)
  handshake_done : (i conn : ℕ) (failed : Bool) → Step s (handle_handshake i conn failed s)
  unregistered : (k : Kind) (i conn : ℕ) → Step s (unregister k i conn s)
  stopped : (k : Kind) (i : ℕ) → Step s (handle_stop k i s)

pub data Runs (s : Server) : Server → Type 0 where
  no_step : Runs s s
  steps : {t u : Server} → Runs s t → Step t u → Runs s u

Step-IsLimited : (s t : Server) → Step s t → IsLimited s → IsLimited t
Step-IsLimited s _ (accepted k i failed) l = handle_accept-IsLimited k i failed s l
Step-IsLimited s _ (handshake_done i conn failed) l = handle_handshake-IsLimited i conn failed s l
Step-IsLimited s _ (unregistered k i conn) l = unregister-IsLimited k i conn s l
Step-IsLimited s _ (stopped k i) l = handle_stop-IsLimited k i s l

-- Whatever handlers run, in whatever order, no socket has more connections than its maximum and
-- the server has no more than its own, if that is so at the start; a maximum of 0 is none, and
-- the server's is an `unsigned` of 32 bits.
pub Runs-IsLimited : (s t : Server) → Runs s t → IsLimited s → IsLimited t
Runs-IsLimited s _ no_step l = l
Runs-IsLimited s _ (steps r x) l = Step-IsLimited _ _ x (Runs-IsLimited s _ r l)
