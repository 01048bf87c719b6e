-- ===== src/SetParam/Settings.antt =====
-- What a list of settings changes in the page, and what a refresh takes from it.
use ooops.Prelude.{
  ℕ, zero, suc, ◌<◌, ◌≡◌, ◌≢◌, refl, sym, ◌∙◌, ap, Bool, true, false, none, some, List, [], ◌∷◌,
  Text, codes, ◌==◌, if◌then◌else◌, length, get_or, set, replicate, get_or-set_self, get_or-set_ne,
  Bool-cases, ==_iff, inl, inr, subst, str_eq, arith,
}
use ooops.Floats.{Floats}
use ooops.FileServer.{Tag}
use ooops.State.{Limits, Page, State}
use ooops.Config.{File, max_fs_server, number}
use ooops.Config.Defaults.{Default}
use ooops.Params.{fetch, refresh, update_parameters}
use ooops.SetParam.{
  Setting, Command, no_setting, no_settings, set_groups, parse_args, limits_from, publish_settings,
  fs_idx,
}

abbrev pub no_tag : Tag
no_tag = record { name = []; len = 0 }

pub get_or-fetch :
    {A : Type 0} (ts : List Tag) (from to : List A) (k : ℕ) (d : A)
    → k < length ts
    → k < length from
    → k < length to
    → (get_or ts k no_tag).len ≢ 0
    → get_or (fetch ts from to) k d ≡ get_or from k d
unfolding fetch
get_or-fetch [] from to k d h i j e = absurd (omega arith)
get_or-fetch (t ∷ ts) [] to k d h i j e = absurd (omega arith)
get_or-fetch (t ∷ ts) (x ∷ xs) [] k d h i j e = absurd (omega arith)
get_or-fetch (t ∷ ts) (x ∷ xs) (y ∷ ys) zero d h i j e = ground arith
get_or-fetch (t ∷ ts) (x ∷ xs) (y ∷ ys) (suc k) d h i j e =
    get_or-fetch ts xs ys k d (omega arith) (omega arith) (omega arith) e

pub get_or-replicate : {A : Type 0} (n k : ℕ) (d : A) → get_or (replicate n d) k d ≡ d
get_or-replicate zero k d = refl
get_or-replicate (suc n) zero d = refl
get_or-replicate (suc n) (suc k) d = get_or-replicate n k d

module _ (fl : Floats) where
  pub get_or-publish :
      (freq : fl.Single) (ss : List (Setting fl)) (ls : List (Limits fl)) (k : ℕ) (d : Limits fl)
      → k < length ss
      → k < length ls
      → get_or (publish_settings fl freq ss ls) k d ≡ (
          if (get_or ss k (no_setting fl)).update_flag
          then limits_from fl freq (get_or ss k (no_setting fl)).value
          else get_or ls k d)
  unfolding publish_settings
  get_or-publish freq [] ls k d h i = absurd (omega arith)
  get_or-publish freq (s ∷ ss) [] k d h i = absurd (omega arith)
  get_or-publish freq (s ∷ ss) (l ∷ ls) zero d h i = refl
  get_or-publish freq (s ∷ ss) (l ∷ ls) (suc k) d h i =
      get_or-publish freq ss ls k d (omega arith) (omega arith)

  pub length-publish :
      (freq : fl.Single) (ss : List (Setting fl)) (ls : List (Limits fl))
      → length (publish_settings fl freq ss ls) ≡ length ls
  unfolding publish_settings
  length-publish freq [] ls = refl
  length-publish freq (s ∷ ss) [] = refl
  length-publish freq (s ∷ ss) (l ∷ ls) = ap suc (length-publish freq ss ls)

  -- The page and the process have an entry for each of the eight file systems.
  pub record FullSize (page : Page fl) (s : State fl) : Type 0 where
    pub tags : length page.tags ≡ max_fs_server
    pub shared : length page.limits ≡ max_fs_server
    pub own : length s.limits ≡ max_fs_server

  -- Whether `IO_LIMIT_CONFIG` is set.
  abbrev pub is_set : File → Bool
  is_set file = elim file [ none ↦ false | some _ ↦ true ]

  -- One setting, for server k.
  abbrev pub setting : Text → Text → Text → Text → Setting fl
  setting a b c d = record {
    update_flag = true;
    value = record {
      t_threshold_open = number fl a;
      max_open_freq = number fl b;
      t_threshold_lxstat = number fl c;
      max_lxstat_freq = number fl d;
    };
  }

  pub refresh_limits :
      (page : Page fl) (s : State fl) (j : ℕ) (l : Limits fl)
      → FullSize page s
      → s.t_updated ≢ page.t_updated
      → page.disabled ≡ 0
      → j < max_fs_server
      → (get_or page.tags j no_tag).len ≢ 0
      → ((refresh fl page s).active ≡ true)
        × (get_or (refresh fl page s).limits j l ≡ get_or page.limits j l)
  unfolding refresh update_parameters
  refresh_limits page s j l full new on lt tag =
      let differs : (s.t_updated == page.t_updated) ≡ false = ground arith in
      let enabled : (page.disabled == 1) ≡ false = ground arith in
      rw (refresh, differs, update_parameters, enabled)
        (
          refl,
          get_or-fetch page.tags page.limits s.limits j l (omega (arith, full.tags))
              (omega (arith, full.shared)) (omega (arith, full.own)) tag,
        )

  pub refresh_off :
      (page : Page fl) (s : State fl)
      → s.t_updated ≢ page.t_updated
      → page.disabled ≡ 1
      → (refresh fl page s).active ≡ false
  unfolding refresh update_parameters
  refresh_off page s new off = ground arith

  pub one_group :
      (has : Bool) (ds : List (Default fl)) (i a b c d : Text) (k : ℕ)
      → fs_idx i ≡ some k
      → parse_args fl has ds (i ∷ a ∷ b ∷ c ∷ d ∷ [])
        ≡ some (Command.change (set (no_settings fl) k (setting a b c d)))
  unfolding parse_args set_groups
  one_group has ds i a b c d k e = rw (parse_args, set_groups, e) refl

  pub parse_off :
      (has : Bool) (ds : List (Default fl))
      → (parse_args fl has ds (codes "0" ∷ []) ≡ some Command.disable)
        × (parse_args fl has ds (codes "1" ∷ []) ≡ some Command.enable)
  unfolding parse_args str_eq
  parse_off has ds = (refl, refl)

  -- The setting of server k is the new one, that of any other server is none.
  pub setting_at :
      (k j : ℕ) (new : Setting fl)
      → k < max_fs_server
      → j < max_fs_server
      → get_or (set (no_settings fl) k new) j (no_setting fl)
        ≡ (if j == k then new else no_setting fl)
  setting_at k j new hk hj = elim (Bool-cases (j == k)) [
    | inl e ↦
        let same = (==_iff j k).0 e in
        rw e (
          subst (λ x. get_or (set (no_settings fl) k new) x (no_setting fl) ≡ new) (sym same)
            (get_or-set_self (no_settings fl) k new (no_setting fl) hk))
    | inr e ↦
        let differ : k ≢ j = λ q. absurd (let t = (==_iff j k).1 (sym q) in cc) in
        rw e (
          get_or-set_ne (no_settings fl) k j new (no_setting fl) differ
          ∙ get_or-replicate max_fs_server j (no_setting fl))
  ]
