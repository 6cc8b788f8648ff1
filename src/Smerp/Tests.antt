-- ===== src/Smerp/Tests.antt =====
-- The theorems on `smerpConnection` at concrete inputs, and a run of it.
use smerp.Base.{ℕ, zero, suc, ◌≡◌, refl, ap, false, List, [], none, arith, length, replicate, codes}
use smerp.Network.Handler.{IsStartable}
use smerp.Network.ConnectionBase.{ConnectionBase, Outcome, running, aborted, new_connection, eof}
use smerp.Network.ConnectionBase.Steps.{Runs, started}
use smerp.Network.ConnectionBase.Safety.{Runs-Safe, Safe}
use smerp.Smerp.Handler.{
  SmerpConnection, smerp_connection, smerp_handler, read_buf_size, next_operation, network_input,
}
use smerp.Smerp.Handler.Served.{Inv}
use smerp.Smerp.Handler.Safety.{Inv-laws, smerp-HandlerLaws, next_operation-stays}
use smerp.Smerp.Handler.Session.{smerp_never_aborts, interrupted-Closes, ThenCloses}
use smerp.Smerp.Handler.Moves.{opened, arrived, Echoed}
use smerp.Smerp.Handler.Echo.{Serves-Echoed}
use smerp.Network.ConnectionBase

length-replicate : (n x : ℕ) → length (replicate n x) ≡ n
length-replicate zero x = refl
length-replicate (suc n) x = ap suc (length-replicate n x)

abbrev zeros : List ℕ
zeros = replicate read_buf_size 0

zeros_all : length zeros ≡ read_buf_size
zeros_all = length-replicate read_buf_size 0

fresh : SmerpConnection
fresh = smerp_connection zeros []

fresh-Inv : Inv fresh
unfolding fresh smerp_connection
fresh-Inv = record { allocated = zeros_all; fits = refl }

next_operation-stays_example : IsStartable (next_operation fresh).0
next_operation-stays_example = (next_operation-stays fresh fresh-Inv).0

smerp_never_aborts_example : ¬ Runs smerp_handler (smerp_connection zeros []) aborted
smerp_never_aborts_example = smerp_never_aborts zeros [] zeros_all

interrupted-Closes_example :
    ThenCloses
      (new_connection smerp_handler fresh)
      (ConnectionBase.handle_signal smerp_handler (new_connection smerp_handler fresh))
      none
interrupted-Closes_example = (interrupted-Closes (new_connection smerp_handler fresh) none).0

Runs-Safe_example :
    Safe smerp_handler smerp-HandlerLaws
      (ConnectionBase.next_operation smerp_handler (new_connection smerp_handler fresh))
Runs-Safe_example =
    Runs-Safe smerp_handler smerp-HandlerLaws fresh (Inv-laws fresh fresh-Inv) (started refl)

waiting : SmerpConnection
waiting = (next_operation (next_operation (smerp_connection zeros [])).1).1

waiting_size : waiting.data_size ≡ 0
unfolding waiting next_operation smerp_connection
waiting_size = refl

Serves-Echoed_example :
    Echoed false
      (network_input waiting waiting.data_size (codes "hello\nwor"))
      (codes "hello\nwor")
      []
unfolding waiting
Serves-Echoed_example = Serves-Echoed (
    arrived (codes "hello\nwor") (opened zeros [] zeros_all refl) (omega (arith, waiting_size))
      refl)
