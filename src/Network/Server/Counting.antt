-- ===== src/Network/Server/Counting.antt =====
-- The connections of all lists, and what an update of one acceptor makes of their number.
use smerp.Base.{
  ℕ, zero, suc, ◌+◌, ◌^◌, ◌≤◌, ◌<◌, ◌≡◌, refl, sym, ap, ◌∙◌, List, [], ◌∷◌, ◌++◌, some, arith,
  length, get_elem?, set, append-nil, append_assoc,
}
use native.Mathlib.Nat.{mod-eq_of_lt}
use smerp.Network.Server.{
  Acceptor, Kind, tcp, ssl, Server, acceptors, update, count, without, signal_all,
}

abbrev pub total : List Acceptor → ℕ
total [] = 0
total (a ∷ rest) = length a.conn_list + total rest

abbrev pub connections : Server → ℕ
connections s = total s.tcp_acceptors + total s.ssl_acceptors

pub count-total : (xs : List Acceptor) (n : ℕ) → n + total xs < 2 ^ 32 → count xs n ≡ n + total xs
unfolding count
count-total [] n h = omega arith
count-total (a ∷ rest) n h =
    ap (count rest) (mod-eq_of_lt (omega (arith, h)))
    ∙ count-total rest (n + length a.conn_list) (omega (arith, h))
    ∙ omega arith

pub get_elem?-set :
    (xs : List Acceptor) (i : ℕ) (a b : Acceptor)
    → get_elem? xs i ≡ some a
    → get_elem? (set xs i b) i ≡ some b
get_elem?-set [] i a b e = absurd (ground (arith, e))
get_elem?-set (x ∷ xs) zero a b e = refl
get_elem?-set (x ∷ xs) (suc i) a b e = get_elem?-set xs i a b e

pub total-set :
    (xs : List Acceptor) (i : ℕ) (a b : Acceptor)
    → get_elem? xs i ≡ some a
    → total (set xs i b) + length a.conn_list ≡ total xs + length b.conn_list
total-set [] i a b e = absurd (ground (arith, e))
total-set (x ∷ xs) zero a b e = ground (arith, e)
total-set (x ∷ xs) (suc i) a b e = omega (arith, total-set xs i a b e)

pub connections-update :
    (k : Kind) (i : ℕ) (a b : Acceptor) (s : Server)
    → get_elem? (acceptors k s) i ≡ some a
    → connections (update k i b s) + length a.conn_list ≡ connections s + length b.conn_list
connections-update tcp i a b s e = omega (arith, total-set s.tcp_acceptors i a b e)
connections-update ssl i a b s e = omega (arith, total-set s.ssl_acceptors i a b e)

pub length-without : (conn : ℕ) (cs : List ℕ) → length (without conn cs) ≤ length cs
length-without conn [] = omega arith
length-without conn (c ∷ cs) = ground (arith, length-without conn cs)

-- All of a list is signalled, in its order, and it is empty then.
pub signal_all-lem :
    (fuel : ℕ) (a : Acceptor) (cs signalled : List ℕ)
    → length cs < fuel
    → signal_all fuel (record a { conn_list = cs }) signalled
      ≡ (record a { conn_list = [] }, signalled ++ cs)
unfolding signal_all
signal_all-lem zero a cs signalled h = absurd (omega arith)
signal_all-lem (suc fuel) a [] signalled h =
    ap (λ x. (record a { conn_list = [] }, x)) (sym (append-nil signalled))
signal_all-lem (suc fuel) a (c ∷ cs) signalled h =
    signal_all-lem fuel a cs (signalled ++ (c ∷ [])) (omega arith)
    ∙ ap (λ x. (record a { conn_list = [] }, x)) (append_assoc signalled (c ∷ []) cs)
