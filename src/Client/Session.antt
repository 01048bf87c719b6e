-- ===== src/Client/Session.antt =====
-- A client and the daemon: from the name of the host to the counters in the list of the daemon.
use ooops.Prelude.{
  ℕ, ◌<◌, ◌≡◌, ◌≢◌, refl, ap, ◌∙◌, true, false, none, some, List, [], ◌∷◌, ◌++◌, map, Text, pos,
  negsuc, ◌==◌, length, arith,
}
use ooops.Config.Tokens.{IsWord}
use ooops.Dict.{Dict, read_host_list}
use ooops.Dict.Hosts.{AllShort, last_rank, read_host_list_finds}
use ooops.Daemon.{Counters, Data}
use ooops.Daemon.Drain.{Holds}
use ooops.Daemon.Server.{
  Server, Event, new_client, readable, connected, data_of, accept_client, handle, serve,
}
use ooops.Daemon.Server.Ranks.{
  NoNul, greeting, sent, added, drain-data, accept_client-greeting, last_rank-lt,
}
use ooops.Client.{get_base_name, message, client_run}

-- A name without points.
abbrev pub NoPoint : Text → Type 0
NoPoint [] = Unit {0}
NoPoint (c ∷ cs) = (c ≢ b'.') × NoPoint cs

get_base_name-domain :
    (name domain : Text) → NoPoint name → get_base_name (name ++ b'.' ∷ domain) ≡ name
unfolding get_base_name
get_base_name-domain [] domain p = refl
get_base_name-domain (c ∷ cs) domain p =
    let plain : (c == b'.') ≡ false = ground arith in
    rw plain (ap (◌∷◌ c) (get_base_name-domain cs domain p.1))

-- The events of a client with descriptor fd.
abbrev pub session : ℕ → Text × List Data → List Event
session fd (first, messages) =
    new_client (connected fd (some first) true) ∷ map (λ m. readable fd (data_of m)) messages

-- The rounds of a client of rank k, the last one with given counters.
serve-rounds :
    (hash : Text → ℕ) (table : Dict) (s : Server) (fd k : ℕ) (rounds : List Counters)
    (last : Counters)
    → 0 < k
    → k < s.daemon.gsize
    → (t : Server) × (serve hash table s
          (map (λ m. readable fd (data_of m)) (map (message (pos k)) (rounds ++ last ∷ [])))
        ≡ some t)
      × Holds t.daemon.p_ooops_data_list k last
      × (t.fds ≡ s.fds)
unfolding serve
serve-rounds hash table s fd k [] last h lt =
    let (t, run, holds, nodes, fds) = drain-data s fd k last h lt in
    (t, rw (serve, handle, run) refl, holds, fds)
serve-rounds hash table s fd k (c ∷ rounds) last h lt =
    let (t, run, holds, nodes, fds) = drain-data s fd k c h lt in
    let (u, rest, held, kept) =
      serve-rounds hash table t fd k rounds last h (omega (arith, lt, nodes)) in
    (u, rw (serve, handle, run) rest, held, kept ∙ fds)

-- The host file has short names, one for each node of the job, and the client runs on a host whose
-- full name is a name of the file and a domain behind the first point. The place of the name in the
-- file, the last one where it stands there twice, is not 0. Then the daemon accepts the client and
-- sends it this place; and after any number of rounds, one at least, the client is in the list of
-- the clients, and the block of its node is what the last round has sent. A client that greets the
-- daemon with a name that the file does not have is sent -1.
pub serve-client_run :
    (hash : Text → ℕ) (names : List Text) (memory : Dict) (s : Server) (fd k : ℕ)
    (name domain stranger : Text) (rounds : List Counters) (last : Counters)
    → AllShort names
    → length names ≡ s.daemon.gsize
    → IsWord name
    → NoNul name
    → NoPoint name
    → length name < 122
    → last_rank name names 0 none ≡ some k
    → 0 < k
    → IsWord stranger
    → NoNul stranger
    → length stranger < 122
    → last_rank stranger names 0 none ≡ none
    → let run = client_run (name ++ b'.' ∷ domain) (pos k) (rounds ++ last ∷ []) in
      (table : Dict) × (t : Server) × (u : Server) × (v : Server) × (read_host_list hash names
          memory
        ≡ some table)
      × (accept_client hash table s (connected fd (some run.0) true) ≡ some (t, some (pos k)))
      × (serve hash table s (session fd run) ≡ some u)
      × (u.fds ≡ s.fds ++ fd ∷ [])
      × Holds u.daemon.p_ooops_data_list k last
      × (accept_client hash table s (connected fd (some (greeting stranger)) true)
          ≡ some (v, some (negsuc 0)))
unfolding client_run serve added
serve-client_run hash names memory s fd k name domain stranger rounds last short all word nul point
      fit at pos_k is_word no_nul fits unknown =
    let lt = last_rank-lt name names 0 k none (λ q. absurd (cc)) at in
    let (table, read, finds) = read_host_list_finds hash names memory short (omega arith) in
    let (u, run, holds, fds) =
      serve-rounds hash table (added s fd) fd k rounds last pos_k (omega arith) in
    let taken : accept_client hash table s
          (connected fd (some (greeting (get_base_name (name ++ b'.' ∷ domain)))) true)
        ≡ some (added s fd, some (pos k)) =
      ap (λ n. accept_client hash table s (connected fd (some (greeting n)) true))
        (get_base_name-domain name domain point)
      ∙ accept_client-greeting hash table s fd name word nul fit
      ∙ ap (λ o. some (added s fd, some (sent o))) (finds name ∙ at) in
    let other : accept_client hash table s (connected fd (some (greeting stranger)) true)
        ≡ some (added s fd, some (negsuc 0)) =
      accept_client-greeting hash table s fd stranger is_word no_nul fits
      ∙ ap (λ o. some (added s fd, some (sent o))) (finds stranger ∙ unknown) in
    (
      table,
      added s fd,
      u,
      added s fd,
      read,
      taken,
      rw (serve, handle, taken) run,
      fds,
      holds,
      other,
    )
