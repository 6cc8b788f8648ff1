-- ===== src/Network/Server/Shutdown.antt =====
-- `server::stop`: every connection is signalled, and no list keeps one.
use smerp.Base.{
  false, ℕ, suc, ◌+◌, ◌≡◌, refl, sym, ap, ◌∙◌, List, [], ◌∷◌, ◌++◌, none, some, map, arith, length,
  get_elem?, set, append-nil, append_assoc, length-append,
}
use smerp.Network.Server.{
  Acceptor, Kind, tcp, ssl, Server, update, signal_all, handle_stop, indices, stop, run_posted,
}
use smerp.Network.Server.Counting.{signal_all-lem}

-- A closed acceptor, without connections.
abbrev pub emptied : Acceptor → Acceptor
emptied a = record a { conn_list = []; is_open = false }

-- The connections of some acceptors, one list behind the other.
abbrev pub listed : List Acceptor → List ℕ
listed [] = []
listed (a ∷ rest) = a.conn_list ++ listed rest

abbrev put : Kind → List Acceptor → Server → Server
put tcp xs s = record s { tcp_acceptors = xs }
put ssl xs s = record s { ssl_acceptors = xs }

get-front :
    (front : List Acceptor) (a : Acceptor) (rest : List Acceptor)
    → get_elem? (front ++ a ∷ rest) (length front) ≡ some a
get-front [] a rest = refl
get-front (x ∷ front) a rest = get-front front a rest

set-front :
    (front : List Acceptor) (a b : Acceptor) (rest : List Acceptor)
    → set (front ++ a ∷ rest) (length front) b ≡ front ++ b ∷ rest
set-front [] a b rest = refl
set-front (x ∷ front) a b rest = ap (λ xs. x ∷ xs) (set-front front a b rest)

-- `handleStop` of the acceptor behind `front`.
stop_one :
    (k : Kind) (front : List Acceptor) (a : Acceptor) (rest : List Acceptor) (s : Server)
    → handle_stop k (length front) (put k (front ++ a ∷ rest) s)
      ≡ record (put k (front ++ emptied a ∷ rest) s) { signalled = s.signalled ++ a.conn_list }
unfolding handle_stop
stop_one tcp front a rest s =
    ap
      (λ x. elim x [
        | none ↦ put tcp (front ++ a ∷ rest) s
        | some b ↦
            record (update tcp (length front)
              (signal_all (length b.conn_list + 1) (record b { is_open = false }) s.signalled).0
              (put tcp (front ++ a ∷ rest) s)) {
                signalled =
                    (signal_all (length b.conn_list + 1) (record b { is_open = false })
                      s.signalled).1;
              }
      ])
      (get-front front a rest)
    ∙ ap (λ x. record (put tcp (set (front ++ a ∷ rest) (length front) x.0) s) { signalled = x.1 })
        (signal_all-lem (length a.conn_list + 1) (record a { is_open = false }) a.conn_list
          s.signalled (omega arith))
    ∙ ap (λ xs. record (put tcp xs s) { signalled = s.signalled ++ a.conn_list })
        (set-front front a (emptied a) rest)
stop_one ssl front a rest s =
    ap
      (λ x. elim x [
        | none ↦ put ssl (front ++ a ∷ rest) s
        | some b ↦
            record (update ssl (length front)
              (signal_all (length b.conn_list + 1) (record b { is_open = false }) s.signalled).0
              (put ssl (front ++ a ∷ rest) s)) {
                signalled =
                    (signal_all (length b.conn_list + 1) (record b { is_open = false })
                      s.signalled).1;
              }
      ])
      (get-front front a rest)
    ∙ ap (λ x. record (put ssl (set (front ++ a ∷ rest) (length front) x.0) s) { signalled = x.1 })
        (signal_all-lem (length a.conn_list + 1) (record a { is_open = false }) a.conn_list
          s.signalled (omega arith))
    ∙ ap (λ xs. record (put ssl xs s) { signalled = s.signalled ++ a.conn_list })
        (set-front front a (emptied a) rest)

run_posted-append :
    (ps qs : List (Kind × ℕ)) (s : Server)
    → run_posted (ps ++ qs) s ≡ run_posted qs (run_posted ps s)
unfolding run_posted
run_posted-append [] qs s = refl
run_posted-append ((k, i) ∷ ps) qs s = run_posted-append ps qs (handle_stop k i s)

put_signalled :
    (k : Kind) (xs : List Acceptor) (sig : List ℕ) (s : Server)
    → record (put k xs s) { signalled = sig } ≡ put k xs (record s { signalled = sig })
put_signalled tcp xs sig s = refl
put_signalled ssl xs sig s = refl

-- All acceptors of one kind are stopped in their order.
stop_kind :
    (k : Kind) (front xs : List Acceptor) (s : Server)
    → run_posted (map (λ i. (k, i)) (indices (length front) xs)) (put k (front ++ xs) s)
      ≡ put k (front ++ map emptied xs) (record s { signalled = s.signalled ++ listed xs })
unfolding run_posted
stop_kind k front [] s =
    ap (λ x. put k (front ++ []) (record s { signalled = x })) (sym (append-nil s.signalled))
stop_kind k front (a ∷ rest) s =
    let s' : Server = record s { signalled = s.signalled ++ a.conn_list } in
    ap (run_posted (map (λ i. (k, i)) (indices (suc (length front)) rest))) (
      stop_one k front a rest s
      ∙ put_signalled k _ _ s
      ∙ ap (λ xs. put k xs s') (sym (append_assoc front (emptied a ∷ []) rest)))
    ∙ ap
        (λ n.
          run_posted (map (λ i. (k, i)) (indices n rest))
            (put k ((front ++ emptied a ∷ []) ++ rest) s'))
        (omega (arith, length-append front (emptied a ∷ [])))
    ∙ stop_kind k (front ++ emptied a ∷ []) rest s'
    ∙ (λ i.
        put k (append_assoc front (emptied a ∷ []) (map emptied rest) i)
          (record s { signalled = append_assoc s.signalled a.conn_list (listed rest) i }))

-- When the handlers that `stop` posts have run in their order, every acceptor is closed and every list empty, and exactly
-- the connections that were listed are signalled, socket by socket and in the order of arrival,
-- those without TLS first; nothing else has changed.
pub stop-signals :
    (s : Server)
    → run_posted (stop s) s ≡ record s {
      tcp_acceptors = map emptied s.tcp_acceptors;
      ssl_acceptors = map emptied s.ssl_acceptors;
      signalled = s.signalled ++ (listed s.tcp_acceptors ++ listed s.ssl_acceptors);
    }
unfolding stop
stop-signals s =
    run_posted-append (map (λ i. (tcp, i)) (indices 0 s.tcp_acceptors))
      (map (λ i. (ssl, i)) (indices 0 s.ssl_acceptors)) s
    ∙ ap (run_posted (map (λ i. (ssl, i)) (indices 0 s.ssl_acceptors)))
        (stop_kind tcp [] s.tcp_acceptors s)
    ∙ stop_kind ssl [] s.ssl_acceptors (record s {
      tcp_acceptors = map emptied s.tcp_acceptors;
      signalled = s.signalled ++ listed s.tcp_acceptors;
    })
    ∙ ap
        (λ x. record s {
          tcp_acceptors = map emptied s.tcp_acceptors;
          ssl_acceptors = map emptied s.ssl_acceptors;
          signalled = x;
        })
        (append_assoc s.signalled (listed s.tcp_acceptors) (listed s.ssl_acceptors))
