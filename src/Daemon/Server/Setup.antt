-- ===== src/Daemon/Server/Setup.antt =====
-- src/server.c, `setup_listener`, and `main` from there to its end: the descriptors of the daemon
-- itself, beside those of its clients. What the system calls return is an argument.
use ooops.Prelude.{
  ℕ, Bool, true, false, ◌&&◌, Option, none, some, List, [], ◌∷◌, if◌then◌else◌, Text,
}
use ooops.Dict.{Dict}
use ooops.Daemon.Server.{Server, Event, serve, shut_down}

-- What `socket`, `bind`, `listen`, `signalfd`, `epoll_create` and the two calls of `add_epoll`
-- return; -1 is `none` or `false`.
pub record Answers : Type 0 where
  pub socket_fd : Option ℕ
  pub bound : Bool
  pub listening : Bool
  pub new_signal_fd : Option ℕ
  pub new_epoll_fd : Option ℕ
  pub listener_added : Bool
  pub signal_added : Bool

-- `cfg.fd`, `cfg.signal_fd` and `cfg.epoll_fd`, with the calls that opened and closed a descriptor.
pub record Own : Type 0 where
  pub fd : Option ℕ
  pub signal_fd : Option ℕ
  pub epoll_fd : Option ℕ
  pub open_calls : List ℕ
  pub close_calls : List ℕ

abbrev pub initial : Own
initial = record { fd = none; signal_fd = none; epoll_fd = none; open_calls = []; close_calls = [] }

-- `if(fd != -1) close(fd)`
abbrev pub close_some : Option ℕ → Own → Own
close_some none o = o
close_some (some x) o = record o { close_calls = x ∷ o.close_calls }

-- Whether the socket listens.
unfoldable pub setup_listener : Answers → Own → Bool × Own
setup_listener a o = elim a.socket_fd [
  | none ↦ (false, o)
  | some x ↦
      let o₁ = record o { open_calls = x ∷ o.open_calls } in
      if a.bound && a.listening
      then (true, record o₁ { fd = some x })
      else (false, close_some (some x) o₁)
]

abbrev pub setup_signal_fd : Answers → Own → Bool × Own
setup_signal_fd a o = elim a.new_signal_fd [
  | none ↦ (false, o)
  | some x ↦ (true, record o { signal_fd = some x; open_calls = x ∷ o.open_calls })
]

abbrev pub setup_epoll : Answers → Own → Bool × Own
setup_epoll a o = elim a.new_epoll_fd [
  | none ↦ (false, o)
  | some x ↦ (true, record o { epoll_fd = some x; open_calls = x ∷ o.open_calls })
]

-- `goto done` where a step fails.
abbrev pub and_next : Bool × Own → (Own → Bool × Own) → Bool × Own
and_next (true, o) f = f o
and_next (false, o) f = (false, o)

-- Whether the main loop is reached.
unfoldable pub set_up : Answers → Own → Bool × Own
unfolding setup_listener
set_up a o = and_next (setup_listener a o) (λ o₁.
    and_next (setup_signal_fd a o₁)
      (λ o₂. and_next (setup_epoll a o₂) (λ o₃. (a.listener_added && a.signal_added, o₃))))

-- The end of `done`.
unfoldable pub close_own : Own → Own
close_own o = close_some o.signal_fd (close_some o.epoll_fd (close_some o.fd o))

module _ (hash : Text → ℕ) (table : Dict) where
  -- `main` from `setup_listener` on: the main loop, where it is reached, and `done`.
  abbrev pub loop_and_done : Bool × Own → List Event → Server → Option (Server × Own)
  loop_and_done (true, o) es s = elim (serve hash table s es) [
    | none ↦ none
    | some t ↦ some (shut_down t, close_own o)
  ]
  loop_and_done (false, o) es s = some (shut_down s, close_own o)

  unfoldable pub run_main : Answers → List Event → Server → Option (Server × Own)
  run_main a es s = loop_and_done (set_up a initial) es s
