-- ===== src/SetParam/Effect.antt =====
-- What the processes of a job take over after a run of the tool.
use ooops.Prelude.{
  ℕ, ◌<◌, ◌≡◌, ◌≢◌, refl, ◌∙◌, true, false, some, List, [], ◌∷◌, Text, codes, ◌==◌, if◌then◌else◌,
  length, get_or, set, length-set, Bool-cases, inl, inr, arith,
}
use ooops.Floats.{Floats}
use ooops.State.{Limits, Page, State}
use ooops.Config.{File, max_fs_server}
use ooops.Config.Defaults.{Default, read_defaults}
use ooops.Params.{refresh}
use ooops.SetParam.{
  no_setting, no_settings, limits_from, publish_settings, run_command, set_io_param, fs_idx,
}
use ooops.SetParam.Settings.{
  no_tag, get_or-publish, length-publish, FullSize, is_set, setting, refresh_limits, refresh_off,
  one_group, parse_off, setting_at,
}

module _ (fl : Floats) where
  -- What `set_io_param idx t_open max_open t_stat max_stat` changes, `idx` being an index, is what
  -- every process has after its next refresh, where the time stamp is a new one: the pacing is on,
  -- the limits of the server are the given ones, and those of every other server with a tag are
  -- the ones of the shared page. After `set_io_param 0` a refresh turns the pacing off; after
  -- `set_io_param 1` it turns it on with the limits of the page.
  pub refresh-set_io_param :
      (freq : fl.Single) (file : File) (ds : List (Default fl)) (i a b c d : Text) (k j tsc : ℕ)
      (page : Page fl) (s : State fl) (l : Limits fl)
      → read_defaults fl freq file ≡ some ds
      → fs_idx i ≡ some k
      → k < max_fs_server
      → j < max_fs_server
      → (get_or page.tags j no_tag).len ≢ 0
      → s.t_updated ≢ tsc
      → FullSize fl page s
      → ((p : Page fl) × (set_io_param fl freq file (i ∷ a ∷ b ∷ c ∷ d ∷ []) tsc page ≡ some p)
          × ((refresh fl p s).active ≡ true)
          × (get_or (refresh fl p s).limits j l ≡ (
              if j == k
              then limits_from fl freq (setting fl a b c d).value
              else get_or page.limits j l)))
        × ((p : Page fl) × (set_io_param fl freq file (codes "0" ∷ []) tsc page ≡ some p)
            × ((refresh fl p s).active ≡ false))
        × ((p : Page fl) × (set_io_param fl freq file (codes "1" ∷ []) tsc page ≡ some p)
            × ((refresh fl p s).active ≡ true)
            × (get_or (refresh fl p s).limits j l ≡ get_or page.limits j l))
  unfolding set_io_param run_command
  refresh-set_io_param freq file ds i a b c d k j tsc page s l read idx hk hj tag new full = (
    (
      changed,
      rw (set_io_param, read, one_group fl (is_set fl file) ds i a b c d k idx) refl,
      after_change.0,
      after_change.1 ∙ published,
    ),
    (
      off,
      rw (set_io_param, read, (parse_off fl (is_set fl file) ds).0) refl,
      refresh_off fl off s new refl,
    ),
    (
      on,
      rw (set_io_param, read, (parse_off fl (is_set fl file) ds).1) refl,
      after_on.0,
      after_on.1,
    ),
  )
    where
      changed : Page fl
      changed = record page {
        disabled = 0;
        t_updated = tsc;
        limits = publish_settings fl freq (set (no_settings fl) k (setting fl a b c d)) page.limits;
      }

      off : Page fl
      off = record page { disabled = 1; t_updated = tsc }

      on : Page fl
      on = record page { disabled = 0; t_updated = tsc }

      resized :
          (p : Page fl)
          → length p.tags ≡ max_fs_server
          → length p.limits ≡ max_fs_server
          → FullSize fl p s
      resized p h m = record { tags = h; shared = m; own = full.own }

      after_on :
          ((refresh fl on s).active ≡ true)
          × (get_or (refresh fl on s).limits j l ≡ get_or page.limits j l)
      after_on = refresh_limits fl on s j l (resized on full.tags full.shared) new refl hj tag

      after_change :
          ((refresh fl changed s).active ≡ true)
          × (get_or (refresh fl changed s).limits j l ≡ get_or changed.limits j l)
      after_change =
          refresh_limits fl changed s j l
            (resized changed full.tags (length-publish fl freq _ page.limits ∙ full.shared)) new
            refl hj tag

      chosen :
          get_or (set (no_settings fl) k (setting fl a b c d)) j (no_setting fl)
            ≡ (if j == k then setting fl a b c d else no_setting fl)
          → (if (get_or (set (no_settings fl) k (setting fl a b c d)) j (no_setting fl)).update_flag
              then limits_from fl freq
                  (get_or (set (no_settings fl) k (setting fl a b c d)) j (no_setting fl)).value
              else get_or page.limits j l)
            ≡ (if j == k
                then limits_from fl freq (setting fl a b c d).value
                else get_or page.limits j l)
      chosen e = elim (Bool-cases (j == k)) [ inl t ↦ rw (e, t) refl | inr t ↦ rw (e, t) refl ]

      published : get_or changed.limits j l ≡ (
          if j == k then limits_from fl freq (setting fl a b c d).value else get_or page.limits j l)
      published =
          get_or-publish fl freq (set (no_settings fl) k (setting fl a b c d)) page.limits j l
            (omega (arith, length-set (no_settings fl) k (setting fl a b c d)))
            (omega (arith, full.shared))
          ∙ chosen (setting_at fl k j (setting fl a b c d) hk hj)
