-- ===== src/Params/Refresh.antt =====
-- What a refresh from the shared page leaves alone, and a page that turns the pacing off.
use ooops.Prelude.{◌≡◌, ◌≢◌, false, arith}
use ooops.Floats.{Floats}
use ooops.State.{Page, State}
use ooops.Params.{refresh, update_parameters}

module _ (fl : Floats) where
  pub opens-refresh : (page : Page fl) (s : State fl) → (refresh fl page s).opens ≡ s.opens
  unfolding refresh update_parameters
  opens-refresh page s = ground arith

  pub stats-refresh : (page : Page fl) (s : State fl) → (refresh fl page s).stats ≡ s.stats
  unfolding refresh update_parameters
  stats-refresh page s = ground arith

  pub idx-refresh :
      (page : Page fl) (s : State fl)
      → (refresh fl page s).place.idx_fs_server ≡ s.place.idx_fs_server
  unfolding refresh update_parameters
  idx-refresh page s = ground arith

  pub refresh_disabled :
      (page : Page fl) (s : State fl)
      → page.disabled ≡ 1
      → s.t_updated ≢ page.t_updated
      → refresh fl page s ≡ record s { active = false }
  unfolding refresh update_parameters
  refresh_disabled page s off new = ground arith
