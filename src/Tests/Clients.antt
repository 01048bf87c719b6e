-- ===== src/Tests/Clients.antt =====
-- The clients of a daemon of three nodes, over the host file of `ooops.Tests.Hosts`.
use ooops.Prelude.{
  ℕ, ◌≡◌, refl, true, false, none, some, List, [], ◌∷◌, ◌++◌, Text, pos, negsuc, codes, length,
  str_eq, if◌then◌else◌, arith,
}
use ooops.Dict.{Dict, read_host_list}
use ooops.Dict.Hosts.{last_rank}
use ooops.Daemon.Drain.{Holds}
use ooops.Daemon.Server.{
  Server, Event, connected, closed, data_of, new_client, readable, alarm, accept_client, drain,
  handle, serve, shut_down,
}
use ooops.Daemon.Server.Descriptors.{Inv, AllPossible}
use ooops.Daemon.Server.Setup.{Answers, Own, initial, setup_listener, set_up, close_own, run_main}
use ooops.Daemon.Server.Closed.{times, run_main-closed}
use ooops.Daemon.Server.Ranks.{greeting}
use ooops.Client.{client_run}
use ooops.Client.Session.{session, serve-client_run}
use ooops.Daemon.{Counters, Data, drain_client, take_data}
use ooops.Tests.Daemons.{three_nodes}
use ooops.Tests.Hosts.{memory, names}

abbrev no_clients : Server
no_clients = record { daemon = three_nodes; fds = []; watched = λ x. false; opened = λ x. false }

no_clients-Inv : Inv no_clients
no_clients-Inv = record { distinct = tt; watched = λ x. refl; opened = λ x. refl }

abbrev host : Text
host = codes "c402"

abbrev stranger : Text
stranger = codes "login1"

ranked : last_rank host names 0 none ≡ some 1
unfolding str_eq
ranked = refl

unranked : last_rank stranger names 0 none ≡ none
unfolding str_eq
unranked = refl

-- A client connects, sends its counters and leaves; then the alarm.
abbrev events : List Event
events =
    new_client (connected 9 (some (greeting host)) true)
    ∷ readable 9 (data_of (record { rank = pos 1; counter = λ x. 4 }))
    ∷ readable 9 closed
    ∷ alarm
    ∷ []

events-AllPossible : AllPossible length memory no_clients events
unfolding handle accept_client drain drain_client take_data
events-AllPossible = ((refl, omega arith), ((refl, omega arith), (refl, (tt, tt))))

abbrev answers : Answers
answers = record {
  socket_fd = some 3;
  bound = true;
  listening = true;
  new_signal_fd = some 4;
  new_epoll_fd = some 5;
  listener_added = true;
  signal_added = true;
}

-- `epoll_create` fails: the socket and the signals are closed.
closed_early :
    run_main length memory (record answers { new_epoll_fd = none }) events no_clients
    ≡ some (
      shut_down no_clients,
      record {
        fd = some 3;
        signal_fd = some 4;
        epoll_fd = none;
        open_calls = 4 ∷ 3 ∷ [];
        close_calls = 4 ∷ 3 ∷ [];
      },
    )
unfolding run_main set_up setup_listener close_own
closed_early = refl

run_main-closed_example :
    (t : Server) × (u : Server) × (o : Own) × (serve length memory no_clients events ≡ some t)
    × Inv t
    × (u ≡ shut_down (if (set_up answers initial).0 then t else no_clients))
    × (run_main length memory answers events no_clients ≡ some (u, o))
    × ((x : ℕ) → (u.opened x ≡ false) × (u.watched x ≡ false))
    × ((x : ℕ) → times x o.close_calls ≡ times x o.open_calls)
run_main-closed_example =
    run_main-closed length memory answers no_clients events no_clients-Inv events-AllPossible

-- A client on c402.cluster, two rounds.
abbrev rounds : List Counters
rounds = (λ x. 4) ∷ []

abbrev its_run : Text × List Data
its_run = client_run (host ++ b'.' ∷ codes "cluster") (pos 1) (rounds ++ (λ x. 6) ∷ [])

serve-client_run_example :
    (table : Dict) × (t : Server) × (u : Server) × (v : Server) × (read_host_list length names
        memory
      ≡ some table)
    × (accept_client length table no_clients (connected 9 (some its_run.0) true)
        ≡ some (t, some (pos 1)))
    × (serve length table no_clients (session 9 its_run) ≡ some u)
    × (u.fds ≡ [] ++ 9 ∷ [])
    × Holds u.daemon.p_ooops_data_list 1 (λ x. 6)
    × (accept_client length table no_clients (connected 9 (some (greeting stranger)) true)
        ≡ some (v, some (negsuc 0)))
serve-client_run_example =
    serve-client_run length names memory no_clients 9 1 host (codes "cluster") stranger rounds
      (λ x. 6) (ground arith) refl (ground arith) (ground arith) (ground arith) (omega arith) ranked
      (omega arith) (ground arith) (ground arith) (omega arith) unranked
