-- ===== src/Daemon/Server.antt =====
-- src/server.c: the connections of the daemon (`accept_client`, `drain_client`, the main loop). What
-- the kernel holds is part of the state: the descriptors that are open, and those that epoll
-- watches, of the clients. Messages are what a read yields.
pub mod Descriptors
pub mod Ranks
pub mod Setup
pub mod Closed
use ooops.Prelude.{
  ℕ, zero, suc, ◌+◌, ◌≡◌, Bool, true, false, Option, none, some, List, [], ◌∷◌, ◌++◌, ℤ, pos,
  negsuc, Text, codes, ltb, ◌==◌, if◌then◌else◌, strn_eq, length, drop, update,
}
use ooops.Dict.{Dict, search}
use ooops.Config.{c_string, words}
use ooops.Daemon.{Daemon, Data, Counters, drain_client, periodic}

pub record Server : Type 0 where
  pub daemon : Daemon
  pub fds : List ℕ
  pub watched : ℕ → Bool
  pub opened : ℕ → Bool

-- `accept`: refused, or a descriptor with what its first read yields, `none` being -1. The Boolean
-- tells whether epoll takes it.
pub data Accepted : Type 0 where
  refused : Accepted
  connected : (fd : ℕ) (message : Option Text) (added : Bool) → Accepted

-- A read of a client: its end, a whole `OOOPSDATA` with the right tag, or anything else.
pub data Received : Type 0 where
  closed : Received
  data_of : Data → Received
  other : Received

-- What `epoll_wait` reports.
pub data Event : Type 0 where
  new_client : Accepted → Event
  readable : (fd : ℕ) → Received → Event
  alarm : Event
  signal_unread : Event

abbrev pub tag_node_name : Text
tag_node_name = codes "From: "

abbrev pub first_word : List Text → Text
first_word [] = []
first_word (w ∷ _) = w

-- `sscanf(szBuff + 6, "%s", szNodeName)`, which was empty
unfoldable pub node_name : Text → Text
unfolding words
node_name sz_buff = first_word (words [] (drop 6 sz_buff))

-- `utarray_erase` at the first place of the descriptor
unfoldable pub erase : ℕ → List ℕ → List ℕ
erase fd [] = []
erase fd (x ∷ xs) = let rest = erase fd xs in if x == fd then xs else x ∷ rest

-- The whole of `drain_client`.
unfoldable pub drain : Server → ℕ → Received → Option Server
unfolding erase drain_client
drain s fd closed = some (record s {
  fds = erase fd s.fds;
  watched = update s.watched fd false;
  opened = update s.opened fd false;
})
drain s fd (data_of m) = elim (drain_client s.daemon m) [
  | none ↦ none
  | some d ↦ some (record s { daemon = d })
]
drain s fd other = some s

module _ (hash : Text → ℕ) (table : Dict) where
  -- `rank`: -1 for a node that is not found and for any other message
  unfoldable pub rank_of : Text → ℤ
  unfolding node_name search strn_eq
  rank_of sz_buff =
      if strn_eq tag_node_name sz_buff 6
      then (elim (search hash table (node_name sz_buff)) [ some k ↦ pos k | none ↦ negsuc 0 ])
      else negsuc 0

  -- With the answer that is written to the client. The NUL is stored at the number of bytes read:
  -- outside of the buffer after a failed read, and after 128 bytes; then `none`.
  unfoldable pub accept_client : Server → Accepted → Option (Server × Option ℤ)
  unfolding rank_of c_string
  accept_client s refused = some (s, none)
  accept_client s (connected fd none added) = none
  accept_client s (connected fd (some message) added) =
      if ltb (length message) 128
      then some (
        (if added
            then record s {
              fds = s.fds ++ fd ∷ [];
              watched = update s.watched fd true;
              opened = update s.opened fd true;
            }
            else s),
        some (rank_of (c_string message)),
      )
      else none

  -- One turn of the main loop.
  unfoldable pub handle : Server → Event → Option Server
  unfolding accept_client drain periodic
  handle s (new_client a) = elim (accept_client s a) [ none ↦ none | some (t, answer) ↦ some t ]
  handle s (readable fd r) = drain s fd r
  handle s alarm = some (record s { daemon = periodic s.daemon })
  handle s signal_unread = some s

  unfoldable pub serve : Server → List Event → Option Server
  unfolding handle
  serve s [] = some s
  serve s (e ∷ es) = elim (handle s e) [ none ↦ none | some t ↦ serve t es ]

-- `done`: each client is taken from epoll and closed.
unfoldable pub close_all : List ℕ → (ℕ → Bool) → ℕ → Bool
close_all [] f = f
close_all (fd ∷ fds) f = close_all fds (update f fd false)

unfoldable pub shut_down : Server → Server
unfolding close_all
shut_down s = record s {
  fds = [];
  watched = close_all s.fds s.watched;
  opened = close_all s.fds s.opened;
}
