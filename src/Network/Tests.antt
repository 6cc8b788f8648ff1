-- ===== src/Network/Tests.antt =====
-- The theorems on the server at concrete inputs, and a run of it.
use smerp.Base.{◌≡◌, refl, false, true, [], ◌∷◌, inl, inr, map, arith, ◌++◌}
use smerp.Network.Server.{
  Acceptor, Server, tcp, ssl, handle_accept, handle_handshake, unregister, stop, run_posted,
}
use smerp.Network.Server.Handlers.{IsLimited}
use smerp.Network.Server.Limits.{Runs, Runs-IsLimited, no_step, steps, accepted, handshake_done}
use smerp.Network.Server.Shutdown.{emptied, listed, stop-signals}

abbrev server : Server
server = record {
  tcp_acceptors =
      record {
        max_conn = 1;
        conn_list = [];
        handshakes = [];
        new_connection = 0;
        armed = true;
        is_open = true;
      }
      ∷ [];
  ssl_acceptors =
      record {
        max_conn = 0;
        conn_list = [];
        handshakes = [];
        new_connection = 1;
        armed = true;
        is_open = true;
      }
      ∷ [];
  max_conn = 2;
  refused = [];
  signalled = [];
  next_id = 2;
}

abbrev busy : Server
busy =
    handle_handshake 0 1 false
      (handle_accept ssl 0 false (handle_accept tcp 0 false (handle_accept tcp 0 false server)))

-- The second peer is refused, and the third is admitted after its handshake.
busy_refused : busy.refused ≡ 2 ∷ []
unfolding handle_accept handle_handshake smerp.Network.Server.rearm smerp.Network.Server.start
    smerp.Network.Server.admit smerp.Network.Server.is_full smerp.Network.Server.is_global_full
    smerp.Network.Server.count
busy_refused = refl

server_run : Runs server busy
server_run =
    steps
      (steps (steps (steps no_step (accepted tcp 0 false)) (accepted tcp 0 false))
        (accepted ssl 0 false))
      (handshake_done 0 1 false)

Runs-IsLimited_example : IsLimited busy
Runs-IsLimited_example = Runs-IsLimited server busy server_run (record {
  tcp_within = (inr (omega arith), tt);
  ssl_within = (inl refl, tt);
  all_within = inr (omega arith);
  is_unsigned = omega arith;
})

stop-signals_example : run_posted (stop busy) busy ≡ record busy {
  tcp_acceptors = map emptied busy.tcp_acceptors;
  ssl_acceptors = map emptied busy.ssl_acceptors;
  signalled = busy.signalled ++ (listed busy.tcp_acceptors ++ listed busy.ssl_acceptors);
}
stop-signals_example = stop-signals busy
