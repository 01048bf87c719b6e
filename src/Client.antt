-- ===== src/Client.antt =====
-- src/client.c: the program of each node that sends its counters to the daemon. What it finds in the
-- shared counters at each round is data; its loop has no end, so a run is the rounds so far.
pub mod Session
use ooops.Prelude.{ℤ, List, [], ◌∷◌, map, Text, ◌==◌, if◌then◌else◌}
use ooops.Daemon.{Counters, Data}
use ooops.Daemon.Server.Ranks.{greeting}

-- `Get_BaseName`
unfoldable pub get_base_name : Text → Text
get_base_name [] = []
get_base_name (c ∷ cs) = let rest = get_base_name cs in if c == b'.' then [] else c ∷ rest

-- `data`, of one round
abbrev pub message : ℤ → Counters → Data
message rank counters = record { rank = rank; counter = counters }

-- `main`: the first message, and those of the rounds with the rank that the daemon has sent.
unfoldable pub client_run : Text → ℤ → List Counters → Text × List Data
unfolding get_base_name
client_run host rank rounds = (greeting (get_base_name host), map (message rank) rounds)
