-- ===== src/Intercept/Disabled.antt =====
-- The intercepted calls of a process after `set_io_param 0`.
use ooops.Prelude.{
  ℕ, ◌≡◌, ◌≢◌, refl, sym, ◌∙◌, none, some, Option, List, [], ◌∷◌, Text, ℤ, codes, if◌then◌else◌,
  Option-cases, inl, inr, arith,
}
use ooops.Floats.{Floats}
use ooops.FileServer.{check_fs_server}
use ooops.State.{Page, State}
use ooops.Config.{File}
use ooops.Config.Defaults.{read_defaults}
use ooops.SetParam.{run_command, set_io_param}
use ooops.SetParam.Settings.{is_set, parse_off}
use ooops.Throttle.{Timespec, Now}
use ooops.Intercept.{Outcome, pre_lxstat, get_time, my_stat, my_open, has_creat}
use ooops.Intercept.Gates.{post_lxstat_off, update_open_count_off}

-- A call of the program that is intercepted, with the real function behind the wrapper and the
-- times before and after it.
pub data Call (W : Type 0) : Type 0 where
  stat_call : (Text → W → ℤ × W) → ℕ → Now → Text → Call W
  open_call : (Text → ℕ → Option ℕ → W → ℤ × W) → Now → Now → Text → ℕ → ℕ → Call W

module _ (fl : Floats) where
  -- No nap, and nothing counted.
  abbrev IsQuiet : Option Timespec → State fl → State fl → Type 0
  IsQuiet nap s s' =
      (nap ≡ none) × (s'.opens ≡ s.opens) × (s'.stats ≡ s.stats) × (s'.t_updated ≡ s.t_updated)

  pre_lxstat_same :
      (tsc : ℕ) (s : State fl)
      → ((pre_lxstat fl tsc s).opens ≡ s.opens)
        × ((pre_lxstat fl tsc s).stats ≡ s.stats)
        × ((pre_lxstat fl tsc s).t_updated ≡ s.t_updated)
  unfolding pre_lxstat
  pre_lxstat_same tsc s = ground arith

  get_time-IsQuiet :
      (page : Page fl) (now : Now) (s : State fl) → IsQuiet none s (get_time fl 0 page now s).1
  unfolding get_time
  get_time-IsQuiet page now s = ground arith

  -- An open of a path that no file system is tracked for does not even look at the page.
  get_time_off :
      (page : Page fl) (now : Now) (s : State fl)
      → page.disabled ≡ 1
      → s.t_updated ≢ page.t_updated
      → let (nap, s') = get_time fl 1 page now s in IsQuiet nap s s'
  unfolding get_time
  get_time_off page now s off new = ground (arith, update_open_count_off fl page now s off new)

  module _ {W : Type 0} where
    abbrev pub run_call : Page fl → Call W → W → State fl → Outcome fl W
    run_call page (stat_call real before now name) w s = my_stat fl real before page now name w s
    run_call page (open_call real before now name oflags mode) w s =
        my_open fl real before page now name oflags mode w s

    -- The result and the nap of each call.
    abbrev pub run_calls :
        Page fl → List (Call W) → W → State fl → List (ℤ × Option Timespec) × W × State fl
    run_calls page [] w s = ([], w, s)
    run_calls page (c ∷ cs) w s =
        let o = run_call page c w s in
        let (rs, w', s') = run_calls page cs o.world o.state in ((o.ret, o.nap) ∷ rs, w', s')

    abbrev pub real_call : Call W → W → ℤ × W
    real_call (stat_call real before now name) w = real name w
    real_call (open_call real before now name oflags mode) w =
        real name oflags (if has_creat oflags then some mode else none) w

    -- The real functions alone, without a nap.
    abbrev pub real_calls : List (Call W) → W → List (ℤ × Option Timespec) × W
    real_calls [] w = ([], w)
    real_calls (c ∷ cs) w =
        let (ret, w') = real_call c w in let (rs, w'') = real_calls cs w' in ((ret, none) ∷ rs, w'')

    run_call_off :
        (page : Page fl) (c : Call W) (w : W) (s : State fl)
        → page.disabled ≡ 1
        → s.t_updated ≢ page.t_updated
        → let o = run_call page c w s in
          ((o.ret, o.world) ≡ real_call c w) × IsQuiet o.nap s o.state
    unfolding my_stat my_open
    run_call_off page (stat_call real before now name) w s off new =
        let s₀ : State fl = record s { place = check_fs_server name s.place } in
        let same = pre_lxstat_same before s₀ in
        let s₁ = pre_lxstat fl before s₀ in
        let post = post_lxstat_off fl page now s₁ off (λ e. new (sym same.2 ∙ e)) in
        rw (my_stat, post) (refl, (refl, same.0, same.1, same.2))
    run_call_off page (open_call real before now name oflags mode) w s off new =
        let s₀ : State fl = record s { place = check_fs_server name s.place } in
        let same = get_time-IsQuiet page before s₀ in
        let s₁ = (get_time fl 0 page before s₀).1 in
        let after = get_time_off page now s₁ off (λ e. new (sym same.3 ∙ e)) in
        (refl, (after.0, after.1 ∙ same.1, after.2 ∙ same.2, after.3 ∙ same.3))

    run_calls_off :
        (page : Page fl) (cs : List (Call W)) (w : W) (s : State fl)
        → page.disabled ≡ 1
        → s.t_updated ≢ page.t_updated
        → let (rs, w', s') = run_calls page cs w s in
          ((rs, w') ≡ real_calls cs w) × (s'.opens ≡ s.opens) × (s'.stats ≡ s.stats)
    run_calls_off page [] w s off new = (refl, refl, refl)
    run_calls_off page (c ∷ cs) w s off new =
        let o = run_call page c w s in
        let here = run_call_off page c w s off new in
        let rest = run_calls_off page cs o.world o.state off (λ e. new (sym here.1.3 ∙ e)) in
        (cc, rest.1 ∙ here.1.1, rest.2 ∙ here.1.2)

    -- Once `set_io_param 0` has run, with a time stamp that is new to the process, whatever calls of
    -- stat and open the process makes while the page stays as it is: each returns what the real
    -- function does, none takes a nap, and the records of the calls do not change. Some of the
    -- calls may be on paths that belong to no file system.
    pub run_calls-set_io_param :
        (freq : fl.Single) (file : File) (tsc : ℕ) (page p : Page fl) (cs : List (Call W)) (w : W)
        (s : State fl)
        → set_io_param fl freq file (codes "0" ∷ []) tsc page ≡ some p
        → s.t_updated ≢ tsc
        → let (rs, w', s') = run_calls p cs w s in
          ((rs, w') ≡ real_calls cs w) × (s'.opens ≡ s.opens) × (s'.stats ≡ s.stats)
    unfolding set_io_param run_command
    run_calls-set_io_param freq file tsc page p cs w s e new =
        elim (Option-cases (read_defaults fl freq file)) [
          | inl q ↦ absurd (ground arith)
          | inr (ds, q) ↦
              let parsed = (parse_off fl (is_set fl file) ds).0 in
              let made : p ≡ record page { disabled = 1; t_updated = tsc } =
                ground (arith, parsed) in
              run_calls_off p cs w s (ground arith) (λ t. new (ground arith))
        ]
