-- ===== src/Intercept/Gates.antt =====
-- What the guards of an intercepted call let through.
use ooops.Prelude.{
  ℕ, ◌≡◌, ◌≢◌, ap, sym, ◌∙◌, false, none, some, inl, inr, get_or, get_or-set_ne, Option-cases,
  arith,
}
use ooops.Floats.{Floats}
use ooops.State.{Page, State}
use ooops.Params.{refresh}
use ooops.Params.Refresh.{opens-refresh, stats-refresh, idx-refresh, refresh_disabled}
use ooops.Throttle.{Now, no_lane}
use ooops.Intercept.{paced_stat, paced_open, post_lxstat, update_open_count}

module _ (fl : Floats) where
  stats-paced_stat :
      (i : ℕ) (now : Now) (s : State fl) (j : ℕ)
      → i ≢ j
      → get_or (paced_stat fl i now s).1.stats j (no_lane fl) ≡ get_or s.stats j (no_lane fl)
  unfolding paced_stat
  stats-paced_stat i now s j ne = get_or-set_ne s.stats i j _ _ ne

  opens-paced_open :
      (i : ℕ) (now : Now) (s : State fl) (j : ℕ)
      → i ≢ j
      → get_or (paced_open fl i now s).1.opens j (no_lane fl) ≡ get_or s.opens j (no_lane fl)
  unfolding paced_open
  opens-paced_open i now s j ne = get_or-set_ne s.opens i j _ _ ne

  -- A call changes the lane of its own file system only.
  pub stats-post_lxstat :
      (page : Page fl) (now : Now) (s : State fl) (j : ℕ)
      → s.place.idx_fs_server ≢ some j
      → get_or (post_lxstat fl page now s).1.stats j (no_lane fl) ≡ get_or s.stats j (no_lane fl)
  unfolding post_lxstat
  stats-post_lxstat page now s j ne = elim (Option-cases (refresh fl page s).place.idx_fs_server) [
    | inl e ↦ ground (arith, stats-refresh fl page s)
    | inr (i, e) ↦
        let apart : i ≢ j = λ q. ne (sym (idx-refresh fl page s) ∙ e ∙ ap some q) in
        ground (arith, stats-refresh fl page s, stats-paced_stat i now (refresh fl page s) j apart)
  ]

  pub opens-post_lxstat :
      (page : Page fl) (now : Now) (s : State fl) → (post_lxstat fl page now s).1.opens ≡ s.opens
  unfolding post_lxstat paced_stat
  opens-post_lxstat page now s = ground (arith, opens-refresh fl page s)

  pub stats-update_open_count :
      (page : Page fl) (now : Now) (s : State fl)
      → (update_open_count fl page now s).1.stats ≡ s.stats
  unfolding update_open_count paced_open
  stats-update_open_count page now s = ground (arith, stats-refresh fl page s)

  pub opens-update_open_count :
      (page : Page fl) (now : Now) (s : State fl) (j : ℕ)
      → s.place.idx_fs_server ≢ some j
      → get_or (update_open_count fl page now s).1.opens j (no_lane fl)
        ≡ get_or s.opens j (no_lane fl)
  unfolding update_open_count paced_open
  opens-update_open_count page now s j ne =
      elim (Option-cases (refresh fl page s).place.idx_fs_server) [
        | inl e ↦ ground (arith, opens-refresh fl page s)
        | inr (i, e) ↦
            let apart : i ≢ j = λ q. ne (sym (idx-refresh fl page s) ∙ e ∙ ap some q) in
            ground
              (arith, opens-refresh fl page s, opens-paced_open i now (refresh fl page s) j apart)
      ]

  -- A page that is off and has a new time stamp stops a call at its guards.
  pub post_lxstat_off :
      (page : Page fl) (now : Now) (s : State fl)
      → page.disabled ≡ 1
      → s.t_updated ≢ page.t_updated
      → post_lxstat fl page now s ≡ (none, record s { active = false })
  unfolding post_lxstat
  post_lxstat_off page now s off new = rw (post_lxstat, refresh_disabled fl page s off new)

  pub update_open_count_off :
      (page : Page fl) (now : Now) (s : State fl)
      → page.disabled ≡ 1
      → s.t_updated ≢ page.t_updated
      → update_open_count fl page now s ≡ (none, record s { active = false })
  unfolding update_open_count
  update_open_count_off page now s off new =
      rw (update_open_count, refresh_disabled fl page s off new)
