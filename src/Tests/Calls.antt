-- ===== src/Tests/Calls.antt =====
-- Two threads of `ooops.Threads` in the middle of their calls.
use ooops.Prelude.{ℕ, ◌%◌, ◌^◌, ◌≡◌, ◌≢◌, refl, true, arith, ◌<◌, update}
use ooops.Throttle.{max_rec}
use ooops.Threads.{
  Shared, Pc, Move, System, Reach, init, lock, load, bump, unlock, pick, start, later,
}
use ooops.Threads.Numbers.{holds, calls_counted, slots_distinct}
use ooops.Threads.Progress.{Released, Reach-Released}

-- A state of two threads, with a run that leads to it.
record Scene : Type 0 where
  state : System
  reached : Reach 2 state

abbrev act :
    (a : Scene) (i : ℕ) {m : Shared} {p : Pc}
    → i < 2
    → Move i a.state.mem (a.state.pc i) m p
    → Scene
act a i {m} {p} lt mv = record {
  state = record { mem = m; pc = update a.state.pc i p };
  reached = later a.reached (pick i lt mv);
}

abbrev opening : Scene
opening = record { state = init; reached = start }

abbrev first_locked : Scene
first_locked = act opening 0 (omega arith) (lock refl)

-- Thread 0 has counted call 0 and released the mutex.
abbrev first_counted : Scene
first_counted =
    act (act (act first_locked 0 (omega arith) load) 0 (omega arith) bump) 0 (omega arith) unlock

-- Thread 1 has counted call 1 and still holds the mutex.
abbrev both_counted : Scene
both_counted =
    act (act (act first_counted 1 (omega arith) (lock refl)) 1 (omega arith) load) 1 (omega arith)
      bump

calls_counted_example :
    (both_counted.state.mem.count ≡ both_counted.state.mem.issued % 2 ^ 32)
    × (both_counted.state.mem.delayed ≡ both_counted.state.mem.naps % 2 ^ 32)
    × ((i j : ℕ)
        → holds (both_counted.state.pc i) ≡ true
        → holds (both_counted.state.pc j) ≡ true
        → i ≡ j)
calls_counted_example = calls_counted 2 both_counted.state both_counted.reached

slots_distinct_example : 0 % max_rec ≢ 1 % max_rec
slots_distinct_example =
    slots_distinct 2 both_counted.state both_counted.reached 0 1 0 1 0 1 (omega arith) refl refl
      refl refl (omega arith) (omega arith)

Reach-Released_example : Released 2 both_counted.state 1 3
Reach-Released_example = Reach-Released 2 both_counted.state both_counted.reached 1 refl
