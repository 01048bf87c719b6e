-- ===== src/Tests/Shells.antt =====
-- Messages of a shell, and the lines of a map.
use ooops.Prelude.{
  ℕ, List, [], ◌+◌, ◌≡◌, refl, true, ℤ, pos, Text, codes, strn_eq, some, arith, ◌++◌, ◌∷◌,
}
use ooops.Hook.Maps.{has_infix, get_position_of_next_line}
use ooops.Hook.Maps.NextLine.{NextLine, get_position_of_next_line-NextLine}
use ooops.Intercept.Shell.{
  Write, my_write, run_writes, real_run, run_writes-real_run, job_started, job_done,
}

-- The world is the number of bytes written so far.
abbrev real_write : Text → ℕ → ℕ → ℤ × ℕ
real_write buf count w = (pos count, w + count)

abbrev done : Text
done = codes "[1]  + Done  ooopsd"

suppressed : my_write real_write true done 19 7 1 ≡ (pos 19, 7, 2)
unfolding my_write has_infix strn_eq
suppressed = refl

abbrev writes : List Write
writes =
    record { buf = codes "[1] 4711"; count = 8 }
    ∷ record { buf = codes "[1]"; count = 3 }
    ∷ record { buf = done; count = 19 }
    ∷ []

-- The first and the last are hidden.
run_writes-real_run_example :
    run_writes real_write true writes 7 0
    ≡ real_run real_write
        ((job_started (codes "[1] 4711"), record { buf = codes "[1] 4711"; count = 8 })
          ∷ (job_done (codes "[1]"), record { buf = codes "[1]"; count = 3 })
          ∷ (job_done done, record { buf = done; count = 19 })
          ∷ [])
        7
run_writes-real_run_example = run_writes-real_run real_write true writes 7

hidden_twice : run_writes real_write true writes 7 0 ≡ (pos 8 ∷ pos 3 ∷ pos 19 ∷ [], 10)
unfolding my_write has_infix strn_eq
hidden_twice = refl

abbrev buffer : Text
buffer = codes "ab" ++ (10 ∷ codes "cd")

next_line_runs : get_position_of_next_line 4 buffer 1 5 ≡ some 3
unfolding get_position_of_next_line
next_line_runs = refl

get_position_of_next_line-NextLine_example :
    NextLine buffer 1 5 (get_position_of_next_line 4 buffer 1 5)
get_position_of_next_line-NextLine_example =
    get_position_of_next_line-NextLine 4 buffer 1 5 (omega arith)
