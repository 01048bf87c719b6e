-- ===== src/Intercept/Wrappers.antt =====
-- The wrappers seen from outside: the program gets what the real function returns, and only the
-- record of the file system that the path belongs to changes.
use ooops.Prelude.{
  ℕ, ◌≡◌, ◌≢◌, refl, sym, ◌⊎◌, Bool-cases, str_eq_iff, ◌∙◌, ap, true, Option, none, some, Text, ℤ,
  if◌then◌else◌, ◌&&◌, get_or, str_eq, inl, inr, arith,
}
use ooops.Floats.{Floats}
use ooops.FileServer.{check_fs_server}
use ooops.State.{Page, State}
use ooops.Throttle.{Now, no_lane}
use ooops.Intercept.{Script, pre_lxstat, get_time, my_stat, my_open, my_open_libc, has_creat}
use ooops.Intercept.Gates.{
  stats-post_lxstat, opens-post_lxstat, stats-update_open_count, opens-update_open_count,
}

module _ (fl : Floats) where
  abbrev pub server_of : Text → State fl → Option ℕ
  server_of name s = (check_fs_server name s.place).idx_fs_server

  pre_lxstat_frame :
      (tsc : ℕ) (s : State fl)
      → ((pre_lxstat fl tsc s).stats ≡ s.stats)
        × ((pre_lxstat fl tsc s).opens ≡ s.opens)
        × ((pre_lxstat fl tsc s).place ≡ s.place)
  unfolding pre_lxstat
  pre_lxstat_frame tsc s = ground arith

  get_time_before :
      (page : Page fl) (now : Now) (s : State fl)
      → ((get_time fl 0 page now s).1.stats ≡ s.stats)
        × ((get_time fl 0 page now s).1.opens ≡ s.opens)
        × ((get_time fl 0 page now s).1.place ≡ s.place)
  unfolding get_time
  get_time_before page now s = ground arith

  stats-get_time :
      (page : Page fl) (now : Now) (s : State fl) → (get_time fl 1 page now s).1.stats ≡ s.stats
  unfolding get_time
  stats-get_time page now s = ground (arith, stats-update_open_count fl page now s)

  opens-get_time :
      (page : Page fl) (now : Now) (s : State fl) (j : ℕ)
      → s.place.idx_fs_server ≢ some j
      → get_or (get_time fl 1 page now s).1.opens j (no_lane fl) ≡ get_or s.opens j (no_lane fl)
  unfolding get_time
  opens-get_time page now s j ne = ground (arith, opens-update_open_count fl page now s j ne)

  module _ {W : Type 0} (page : Page fl) (now : Now) (w : W) (s : State fl) where
    -- A stat wrapper returns the result of the real function on the same path, run once, whatever
    -- the pacing does; it leaves every open record, and the stat record of every file system but
    -- the one of the path.
    pub my_stat_frame :
        (real : Text → W → ℤ × W) (before : ℕ) (name : Text)
        → let o = my_stat fl real before page now name w s in
          ((o.ret, o.world) ≡ real name w)
          × (o.state.opens ≡ s.opens)
          × ((j : ℕ)
              → server_of name s ≢ some j
              → get_or o.state.stats j (no_lane fl) ≡ get_or s.stats j (no_lane fl))
    unfolding my_stat
    my_stat_frame real before name = (
      refl,
      opens-post_lxstat fl page now s₁ ∙ (pre_lxstat_frame before s₀).1,
      λ j ne.
          stats-post_lxstat fl page now s₁ j
            (λ q. ne (sym (ap (λ p. p.idx_fs_server) (pre_lxstat_frame before s₀).2) ∙ q))
          ∙ ap (λ ls. get_or ls j (no_lane fl)) (pre_lxstat_frame before s₀).0,
    )
      where
        s₀ : State fl
        s₀ = record s { place = check_fs_server name s.place }

        s₁ : State fl
        s₁ = pre_lxstat fl before s₀

    -- An open wrapper returns the result of the real function on the same path and flags, with the
    -- mode exactly if the flags have `O_CREAT`; it leaves every stat record, and the open record of
    -- every file system but the one of the path.
    pub my_open_frame :
        (real : Text → ℕ → Option ℕ → W → ℤ × W) (before : Now) (name : Text) (oflags mode : ℕ)
        → let o = my_open fl real before page now name oflags mode w s in
          ((o.ret, o.world) ≡ real name oflags (if has_creat oflags then some mode else none) w)
          × (o.state.stats ≡ s.stats)
          × ((j : ℕ)
              → server_of name s ≢ some j
              → get_or o.state.opens j (no_lane fl) ≡ get_or s.opens j (no_lane fl))
    unfolding my_open
    my_open_frame real before name oflags mode = (
      refl,
      stats-get_time page now s₁ ∙ (get_time_before page before s₀).0,
      λ j ne.
          opens-get_time page now s₁ j
            (λ q. ne (sym (ap (λ p. p.idx_fs_server) (get_time_before page before s₀).2) ∙ q))
          ∙ ap (λ ls. get_or ls j (no_lane fl)) (get_time_before page before s₀).1,
    )
      where
        s₀ : State fl
        s₀ = record s { place = check_fs_server name s.place }

        s₁ : State fl
        s₁ = (get_time fl 0 page before s₀).1

    -- The shell that runs a batch script reads the script's copy in the script's place, unpaced;
    -- every other open of its is paced as any process's.
    my_open_libc_script :
        (sc : Script) (real : Text → ℕ → Option ℕ → W → ℤ × W) (before : Now) (name : Text)
        (oflags mode : ℕ)
        → let o = my_open_libc fl sc real before page now name oflags mode w s in
          ((sc.is_in_init_bash ≡ true)
            × (name ≡ sc.name_org)
            × ((o.ret, o.world)
                ≡ real sc.name_new oflags (if has_creat oflags then some mode else none) w)
            × (o.nap ≡ none)
            × (o.state ≡ s))
          ⊎ (¬ ((sc.is_in_init_bash ≡ true) × (name ≡ sc.name_org))
              × (o ≡ my_open fl real before page now name oflags mode w s))
    unfolding my_open_libc
    my_open_libc_script sc real before name oflags mode =
        elim (Bool-cases (sc.is_in_init_bash && str_eq name sc.name_org)) [
          | inl e ↦
              inl (ground arith, (str_eq_iff name sc.name_org).0 (ground arith), rw e, rw e, rw e)
          | inr e ↦ inr ((λ h. ground (arith, h.0, (str_eq_iff name sc.name_org).1 h.1)), rw e)
        ]
