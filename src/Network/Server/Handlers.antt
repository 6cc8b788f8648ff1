-- ===== src/Network/Server/Handlers.antt =====
-- What starting, admitting and removing a connection do to the limits of a server.
use smerp.Base.{
  ℕ, zero, suc, ◌+◌, ◌^◌, ◌≤◌, ◌<◌, ◌≡◌, refl, sym, ap, ◌∙◌, subst, Bool, true, false, ◌||◌, List,
  [], ◌∷◌, ◌++◌, none, some, ◌⊎◌, inl, inr, arith, if◌then◌else◌, length, get_elem?, set,
  Bool-cases, Option-cases, ltb, leb, length-append,
}
use smerp.Network.Server.{
  Acceptor, Kind, tcp, ssl, Server, acceptors, update, count, is_global_full, is_full, push, admit,
  start, rearm,
}
use smerp.Network.Server.Counting.{
  total, connections, count-total, get_elem?-set, connections-update,
}

-- A maximum of 0 is none.
abbrev pub IsBelow : ℕ → ℕ → Type 0
IsBelow n limit = (limit ≡ 0) ⊎ (n ≤ limit)

abbrev pub AreWithin : List Acceptor → Type 0
AreWithin [] = Unit {0}
AreWithin (a ∷ rest) = IsBelow (length a.conn_list) a.max_conn × AreWithin rest

pub record IsLimited (s : Server) : Type 0 where
  pub tcp_within : AreWithin s.tcp_acceptors
  pub ssl_within : AreWithin s.ssl_acceptors
  pub all_within : IsBelow (connections s) s.max_conn
  pub is_unsigned : s.max_conn < 2 ^ 32

pub AreWithin-set :
    (xs : List Acceptor) (i : ℕ) (b : Acceptor)
    → AreWithin xs
    → IsBelow (length b.conn_list) b.max_conn
    → AreWithin (set xs i b)
AreWithin-set [] i b w h = tt
AreWithin-set (x ∷ xs) zero b (_, w) h = (h, w)
AreWithin-set (x ∷ xs) (suc i) b (v, w) h = (v, AreWithin-set xs i b w h)

pub AreWithin-get :
    (xs : List Acceptor) (i : ℕ) (a : Acceptor)
    → AreWithin xs
    → get_elem? xs i ≡ some a
    → IsBelow (length a.conn_list) a.max_conn
AreWithin-get [] i a w e = absurd (ground (arith, e))
AreWithin-get (x ∷ xs) zero a (v, w) e = ground (arith, e, v)
AreWithin-get (x ∷ xs) (suc i) a (v, w) e = AreWithin-get xs i a w e

pub IsLimited-get :
    (k : Kind) (i : ℕ) (a : Acceptor) (s : Server)
    → IsLimited s
    → get_elem? (acceptors k s) i ≡ some a
    → IsBelow (length a.conn_list) a.max_conn
IsLimited-get tcp i a s l e = AreWithin-get s.tcp_acceptors i a l.tcp_within e
IsLimited-get ssl i a s l e = AreWithin-get s.ssl_acceptors i a l.ssl_within e

-- What must hold of an acceptor's new state, and of the new number of connections.
pub update-IsLimited :
    (k : Kind) (i : ℕ) (b : Acceptor) (s : Server)
    → IsLimited s
    → IsBelow (length b.conn_list) b.max_conn
    → IsBelow (connections (update k i b s)) s.max_conn
    → IsLimited (update k i b s)
update-IsLimited tcp i b s l h n = record {
  tcp_within = AreWithin-set s.tcp_acceptors i b l.tcp_within h;
  ssl_within = l.ssl_within;
  all_within = n;
  is_unsigned = l.is_unsigned;
}
update-IsLimited ssl i b s l h n = record {
  tcp_within = l.tcp_within;
  ssl_within = AreWithin-set s.ssl_acceptors i b l.ssl_within h;
  all_within = n;
  is_unsigned = l.is_unsigned;
}

-- An update that adds no connection.
pub shrink-IsLimited :
    (k : Kind) (i : ℕ) (a b : Acceptor) (s : Server)
    → IsLimited s
    → get_elem? (acceptors k s) i ≡ some a
    → length b.conn_list ≤ length a.conn_list
    → b.max_conn ≡ a.max_conn
    → IsLimited (update k i b s)
shrink-IsLimited k i a b s l e h m =
    update-IsLimited k i b s l
      (elim (IsLimited-get k i a s l e) [
        | inl z ↦ inl (m ∙ z)
        | inr w ↦ inr (omega (arith, w, h, m))
      ])
      (elim l.all_within [
        | inl z ↦ inl z
        | inr w ↦ inr (omega (arith, w, h, connections-update k i a b s e))
      ])

pub global_free :
    (s : Server) → IsLimited s → is_global_full s ≡ false → IsBelow (connections s + 1) s.max_conn
unfolding is_global_full
global_free s l e = elim (Bool-cases (ltb 0 s.max_conn)) [
  | inr unlimited ↦ inl (ground arith)
  | inl limited ↦ elim l.all_within [
    | inl z ↦ absurd (ground arith)
    | inr w ↦
        let counted : count s.ssl_acceptors (count s.tcp_acceptors 0) ≡ connections s =
          ap (count s.ssl_acceptors)
            (count-total s.tcp_acceptors 0 (omega (arith, w, l.is_unsigned)))
          ∙ count-total s.ssl_acceptors (0 + total s.tcp_acceptors)
              (omega (arith, w, l.is_unsigned))
          ∙ omega arith in
        let free : leb s.max_conn (connections s) ≡ false =
          sym (ap (leb s.max_conn) counted)
          ∙ sym (
              ap
                (λ b.
                  if b
                  then leb s.max_conn (count s.ssl_acceptors (count s.tcp_acceptors 0))
                  else false)
                limited)
          ∙ e in
        inr (ground (arith, free))
  ]
]

-- A list that is not full has room for one more, and so has the server.
pub not_full :
    (s : Server) (a : Acceptor)
    → IsLimited s
    → is_full s a ≡ false
    → IsBelow (length a.conn_list + 1) a.max_conn × IsBelow (connections s + 1) s.max_conn
unfolding is_full
not_full s a l e = elim (Bool-cases (ltb 0 a.max_conn)) [
  | inr unlimited ↦
      let free : is_global_full s ≡ false =
        sym (
          ap
            (λ b.
              if b
              then leb a.max_conn (length a.conn_list) || is_global_full s
              else is_global_full s)
            unlimited)
        ∙ e in
      (inl (ground arith), global_free s l free)
  | inl limited ↦
      let free : leb a.max_conn (length a.conn_list) || is_global_full s ≡ false =
        sym (
          ap
            (λ b.
              if b
              then leb a.max_conn (length a.conn_list) || is_global_full s
              else is_global_full s)
            limited)
        ∙ e in
      (inr (ground (arith, free)), global_free s l (ground (arith, free)))
]

pub chosen :
    (b : Bool) (s t : Server)
    → (b ≡ true → IsLimited s)
    → (b ≡ false → IsLimited t)
    → IsLimited (if b then s else t)
chosen true s t f g = f refl
chosen false s t f g = g refl

-- The lists of connections are all that counts.
pub relabel :
    (s : Server) (refused signalled : List ℕ) (next_id : ℕ)
    → IsLimited s
    → IsLimited (record s { refused = refused; signalled = signalled; next_id = next_id })
relabel s refused signalled next_id l = record {
  tcp_within = l.tcp_within;
  ssl_within = l.ssl_within;
  all_within = l.all_within;
  is_unsigned = l.is_unsigned;
}

pub admit-IsLimited :
    (k : Kind) (i : ℕ) (a : Acceptor) (conn : ℕ) (s : Server)
    → IsLimited s
    → get_elem? (acceptors k s) i ≡ some a
    → IsLimited (admit k i a conn s)
unfolding admit
admit-IsLimited k i a conn s l e =
    chosen (is_full s a) _ _ (λ full. relabel s _ s.signalled s.next_id l)
      (λ free.
        let (one, all) = not_full s a l free in
        let grown = length-append a.conn_list (conn ∷ []) in
        update-IsLimited k i (push a conn) s l
          (elim one [ inl z ↦ inl z | inr w ↦ inr (omega (arith, w, grown)) ])
          (elim all [
            | inl z ↦ inl z
            | inr w ↦ inr (omega (arith, w, grown, connections-update k i a (push a conn) s e))
          ]))

pub updated :
    (k : Kind) (i : ℕ) (a b : Acceptor) (s : Server)
    → get_elem? (acceptors k s) i ≡ some a
    → get_elem? (acceptors k (update k i b s)) i ≡ some b
updated tcp i a b s e = get_elem?-set s.tcp_acceptors i a b e
updated ssl i a b s e = get_elem?-set s.ssl_acceptors i a b e

-- A handler of an acceptor that exists.
pub at :
    (k : Kind) (i : ℕ) (s : Server) (f : Acceptor → Server)
    → IsLimited s
    → ((a : Acceptor) → get_elem? (acceptors k s) i ≡ some a → IsLimited (f a))
    → IsLimited (elim (get_elem? (acceptors k s) i) [ none ↦ s | some a ↦ f a ])
at k i s f l h = elim (Option-cases (get_elem? (acceptors k s) i)) [
  | inl away ↦ subst (λ x. IsLimited (elim x [ none ↦ s | some a ↦ f a ])) (sym away) l
  | inr (a, here) ↦
      subst (λ x. IsLimited (elim x [ none ↦ s | some a ↦ f a ])) (sym here) (h a here)
]

pub start-IsLimited :
    (k : Kind) (i : ℕ) (a : Acceptor) (conn : ℕ) (s : Server)
    → IsLimited s
    → get_elem? (acceptors k s) i ≡ some a
    → IsLimited (start k i a conn s)
unfolding start
start-IsLimited tcp i a conn s l e = admit-IsLimited tcp i a conn s l e
start-IsLimited ssl i a conn s l e =
    shrink-IsLimited ssl i a (record a { handshakes = a.handshakes ++ (conn ∷ []) }) s l e
      (omega arith) refl

pub rearm-IsLimited : (k : Kind) (i : ℕ) (s : Server) → IsLimited s → IsLimited (rearm k i s)
unfolding rearm
rearm-IsLimited k i s l = at k i s _ l (λ a e.
    let l' =
      shrink-IsLimited k i a (record a { new_connection = s.next_id; armed = true }) s l e
        (omega arith) refl in
    chosen a.is_open _ _
      (λ _. record {
        tcp_within = l'.tcp_within;
        ssl_within = l'.ssl_within;
        all_within = l'.all_within;
        is_unsigned = l'.is_unsigned;
      })
      (λ _. l))
