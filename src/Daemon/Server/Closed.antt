-- ===== src/Daemon/Server/Closed.antt =====
-- No descriptor of the daemon stays open, whatever fails at its start.
use ooops.Prelude.{
  ℕ, ◌+◌, ◌≡◌, refl, Bool, true, false, Option, none, some, List, [], ◌∷◌, ◌==◌, if◌then◌else◌,
  Text, inl, inr, Bool-cases, arith,
}
use ooops.Dict.{Dict}
use ooops.Daemon.Server.{Server, Event, serve, shut_down}
use ooops.Daemon.Server.Descriptors.{Inv, AllPossible, serve-Inv, shut_down_closed}
use ooops.Daemon.Server.Setup.{
  Answers, Own, initial, setup_listener, set_up, close_own, loop_and_done, run_main,
}

-- How often a descriptor is in the list.
abbrev pub times : ℕ → List ℕ → ℕ
times x [] = 0
times x (y ∷ ys) = (if x == y then 1 else 0) + times x ys

abbrev Even : Own → ℕ → Type 0
Even o x = times x o.close_calls ≡ times x o.open_calls

close_own_same :
    (s : Option ℕ) (b l : Bool) (g e : Option ℕ) (p q : Bool) (x : ℕ)
    → Even
        (close_own
          (set_up
            (record {
              socket_fd = s;
              bound = b;
              listening = l;
              new_signal_fd = g;
              new_epoll_fd = e;
              listener_added = p;
              signal_added = q;
            })
            initial).1)
        x
unfolding set_up setup_listener close_own
close_own_same none b l g e p q x = refl
close_own_same (some f) false l g e p q x = refl
close_own_same (some f) true false g e p q x = refl
close_own_same (some f) true true none e p q x = refl
close_own_same (some f) true true (some g) none p q x = omega arith
close_own_same (some f) true true (some g) (some e) p q x = omega arith

module _ (hash : Text → ℕ) (table : Dict) where
  loop_and_done-closed :
      (r : Bool × Own) (s t : Server) (es : List Event)
      → serve hash table s es ≡ some t
      → loop_and_done hash table r es s ≡ some (shut_down (if r.0 then t else s), close_own r.1)
  loop_and_done-closed (true, o) s t es e = rw (loop_and_done, e) refl
  loop_and_done-closed (false, o) s t es e = refl

  -- Whatever the system calls return at the start: take any run of events in which each new
  -- descriptor is not open before, the first message of a client is read and shorter than 128
  -- bytes, a readable client is watched, and the rank of a message is less than the number of
  -- nodes and not negative. From a state in which the list of the clients holds each descriptor
  -- once, and those that are open and watched, it is handled to its end and keeps this. The daemon
  -- handles the run where the setup succeeds, and none of it otherwise; and at its end no client
  -- is open or watched, and each descriptor of its own, of the listening socket, the signals and
  -- epoll, has been closed as often as opened.
  pub run_main-closed :
      (a : Answers) (s : Server) (es : List Event)
      → Inv s
      → AllPossible hash table s es
      → (t : Server) × (u : Server) × (o : Own) × (serve hash table s es ≡ some t)
        × Inv t
        × (u ≡ shut_down (if (set_up a initial).0 then t else s))
        × (run_main hash table a es s ≡ some (u, o))
        × ((x : ℕ) → (u.opened x ≡ false) × (u.watched x ≡ false))
        × ((x : ℕ) → times x o.close_calls ≡ times x o.open_calls)
  unfolding run_main
  run_main-closed a s es inv p =
      let (t, run, kept) = serve-Inv hash table s es inv p in
      let reached = (set_up a initial).0 in
      (
        t,
        shut_down (if reached then t else s),
        close_own (set_up a initial).1,
        run,
        kept,
        refl,
        loop_and_done-closed (set_up a initial) s t es run,
        λ x. elim (Bool-cases reached) [
          | inl e ↦ rw e (shut_down_closed t x kept)
          | inr e ↦ rw e (shut_down_closed s x inv)
        ],
        λ x.
            close_own_same a.socket_fd a.bound a.listening a.new_signal_fd a.new_epoll_fd
              a.listener_added a.signal_added x,
      )
