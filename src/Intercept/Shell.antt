-- ===== src/Intercept/Shell.antt =====
-- src/ooops.c, `my_write`: in csh and tcsh the messages about the daemon, which the library starts
-- in the background, are not printed.
use ooops.Prelude.{
  ℕ, suc, List, [], ◌∷◌, map, ◌+◌, ◌≡◌, refl, inl, inr, Bool, true, false, ℤ, pos, Text, codes,
  ◌==◌, if◌then◌else◌, strn_eq, Bool-cases, arith,
}
use ooops.Hook.Maps.{has_infix}

abbrev pub job_started : Text → Bool
job_started buf = strn_eq buf (codes "[1]") 3

unfoldable pub job_done : Text → Bool
unfolding has_infix
job_done buf =
    if strn_eq buf (codes "[1]  + Done") 11 then has_infix buf (codes "ooopsd") else false

-- The arguments of a write that matter.
pub record Write : Type 0 where
  pub buf : Text
  pub count : ℕ

-- Which writes of a process are hidden.
abbrev pub marks : Bool → List Write → List (Bool × Write)
marks false xs = map (λ x. (false, x)) xs
marks true [] = []
marks true (x ∷ xs) = (job_started x.buf, x) ∷ map (λ y. (job_done y.buf, y)) xs

module _ {W : Type 0} (real_write : Text → ℕ → W → ℤ × W) where
  -- The last argument is `nWriteCount`; the first tells whether `iShell_Type` is `SHELL_TCSH`.
  unfoldable pub my_write : Bool → Text → ℕ → W → ℕ → ℤ × W × ℕ
  unfolding job_done
  my_write is_tcsh buf count w n_write =
      let (ret, w') = real_write buf count w in
      if is_tcsh
      then (if (if n_write + 1 == 1 then job_started buf else job_done buf)
          then (pos count, w, n_write + 1)
          else (ret, w', n_write + 1))
      else (ret, w', n_write)

  -- One write after another, with what each returns.
  abbrev pub run_writes : Bool → List Write → W → ℕ → List ℤ × W
  run_writes is_tcsh [] w n_write = ([], w)
  run_writes is_tcsh (x ∷ xs) w n_write =
      let (ret, w', n_write') = my_write is_tcsh x.buf x.count w n_write in
      let (rets, w'') = run_writes is_tcsh xs w' n_write' in (ret ∷ rets, w'')

  -- The writes that are not hidden go to the real function, and a hidden one returns its count.
  abbrev pub real_run : List (Bool × Write) → W → List ℤ × W
  real_run [] w = ([], w)
  real_run ((hidden, x) ∷ xs) w =
      let (ret, w') = if hidden then (pos x.count, w) else real_write x.buf x.count w in
      let (rets, w'') = real_run xs w' in (ret ∷ rets, w'')

  run_writes_plain :
      (xs : List Write) (w : W) (n : ℕ)
      → run_writes false xs w n ≡ real_run (map (λ x. (false, x)) xs) w
  unfolding my_write
  run_writes_plain [] w n = refl
  run_writes_plain (x ∷ xs) w n = rw (run_writes_plain xs (real_write x.buf x.count w).1 n) refl

  my_write_later :
      (x : Write) (w : W) (n : ℕ)
      → my_write true x.buf x.count w (suc n) ≡ (
          let (ret, w') = if job_done x.buf then (pos x.count, w) else real_write x.buf x.count w in
          (ret, w', suc (suc n)))
  unfolding my_write
  my_write_later x w n =
      let again : (suc n + 1 == 1) ≡ false = ground arith in
      let next : suc n + 1 ≡ suc (suc n) = omega arith in
      elim (Bool-cases (job_done x.buf)) [
        | inl s ↦ rw (my_write, again, next, s) refl
        | inr s ↦ rw (my_write, again, next, s) refl
      ]

  run_writes_later :
      (xs : List Write) (w : W) (n : ℕ)
      → run_writes true xs w (suc n) ≡ real_run (map (λ x. (job_done x.buf, x)) xs) w
  run_writes_later [] w n = refl
  run_writes_later (x ∷ xs) w n = elim (Bool-cases (job_done x.buf)) [
    | inl s ↦ rw (my_write_later x w n, s, run_writes_later xs w (suc n)) refl
    | inr s ↦
        rw (my_write_later x w n, s, run_writes_later xs (real_write x.buf x.count w).1 (suc n))
          refl
  ]

  -- All the writes of a process, from the first one on. In tcsh the first one is hidden exactly if
  -- it begins with "[1]", and each later one exactly if it reports the end of a job and names
  -- ooopsd; in any other shell none is. The writes that are not hidden reach the real function, in
  -- their order and with their bytes, and return what it returns; a hidden one writes nothing and
  -- returns its count.
  pub run_writes-real_run :
      (is_tcsh : Bool) (xs : List Write) (w : W)
      → run_writes is_tcsh xs w 0 ≡ real_run (marks is_tcsh xs) w
  unfolding my_write
  run_writes-real_run false xs w = run_writes_plain xs w 0
  run_writes-real_run true [] w = refl
  run_writes-real_run true (x ∷ xs) w = elim (Bool-cases (job_started x.buf)) [
    | inl s ↦ rw (s, run_writes_later xs w 0) refl
    | inr s ↦ rw (s, run_writes_later xs (real_write x.buf x.count w).1 0) refl
  ]
