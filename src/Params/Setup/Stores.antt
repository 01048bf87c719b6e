-- ===== src/Params/Setup/Stores.antt =====
-- The stores of `Publish_Parameters`, one after the other, make the page that it publishes.
use ooops.Prelude.{ℕ, zero, suc, ◌≡◌, refl, ap, List, take, [], ◌∷◌}
use ooops.Floats.{Floats}
use ooops.FileServer.{Tag}
use ooops.State.{Page, State}
use ooops.Params.{clear_tags, publish_tags, copy, publish_parameters}
use ooops.Params.Setup.{
  clear_len, store_tag, store_entry, Stage, at_stamp, at_disabled, clearing, copying, at_freq,
  at_ready, blank_page, Store, stamp, enable, clear, cleared, copy_one, copied, put_freq,
}

clear_len-clear_tags :
    (i : ℕ) (us : List Tag) → clear_len i (clear_tags i us) ≡ clear_tags (suc i) us
unfolding clear_tags
clear_len-clear_tags zero [] = refl
clear_len-clear_tags zero (u ∷ us) = refl
clear_len-clear_tags (suc i) [] = refl
clear_len-clear_tags (suc i) (u ∷ us) = ap (◌∷◌ (record u { len = 0 })) (clear_len-clear_tags i us)

store_tag-publish_tags :
    (i : ℕ) (ts us : List Tag) → store_tag i ts (publish_tags i ts us) ≡ publish_tags (suc i) ts us
unfolding publish_tags
store_tag-publish_tags zero [] us = refl
store_tag-publish_tags zero (t ∷ ts) [] = refl
store_tag-publish_tags zero (t ∷ ts) (u ∷ us) = refl
store_tag-publish_tags (suc i) [] us = refl
store_tag-publish_tags (suc i) (t ∷ ts) [] = refl
store_tag-publish_tags (suc i) (t ∷ ts) (u ∷ us) =
    ap (◌∷◌ (record t { name = take t.len t.name })) (store_tag-publish_tags i ts us)

store_entry-copy :
    {A : Type 0} (i : ℕ) (xs ys : List A) → store_entry i xs (copy i xs ys) ≡ copy (suc i) xs ys
unfolding copy
store_entry-copy zero [] ys = refl
store_entry-copy zero (x ∷ xs) [] = refl
store_entry-copy zero (x ∷ xs) (y ∷ ys) = refl
store_entry-copy (suc i) [] ys = refl
store_entry-copy (suc i) (x ∷ xs) [] = refl
store_entry-copy (suc i) (x ∷ xs) (y ∷ ys) = ap (◌∷◌ x) (store_entry-copy i xs ys)

module _ (fl : Floats) (tsc : ℕ) (s : State fl) where
  n : ℕ
  n = s.place.n_fs_server

  abbrev stamped : Page fl
  stamped = record (blank_page fl) { t_updated = tsc }

  abbrev clearing_at : ℕ → Page fl
  clearing_at i = record stamped { tags = clear_tags i stamped.tags }

  abbrev copying_at : ℕ → Page fl
  copying_at i = record stamped {
    tags = publish_tags i s.place.tags (clear_tags s.place.n_fs_server stamped.tags);
    limits = copy i s.limits stamped.limits;
  }

  -- The page at each stage.
  abbrev pub page_at : Stage → Page fl
  page_at at_stamp = blank_page fl
  page_at at_disabled = stamped
  page_at (clearing i) = clearing_at i
  page_at (copying i) = copying_at i
  page_at at_freq = copying_at s.place.n_fs_server
  page_at at_ready = record (copying_at s.place.n_fs_server) { freq = s.freq }

  pub page_at_ready : (st : Stage) → (page_at st).ready ≡ 0
  page_at_ready at_stamp = refl
  page_at_ready at_disabled = refl
  page_at_ready (clearing i) = refl
  page_at_ready (copying i) = refl
  page_at_ready at_freq = refl
  page_at_ready at_ready = refl

  pub Store-page_at :
      {st next : Stage} {page : Page fl}
      → Store fl tsc s (page_at st) st page next
      → page ≡ page_at next
  unfolding clear_tags publish_tags copy
  Store-page_at stamp = refl
  Store-page_at enable = refl
  Store-page_at (clear {i} lt) =
      λ j. record stamped { tags = clear_len-clear_tags i stamped.tags j }
  Store-page_at (cleared {i} e) = ap clearing_at e
  Store-page_at (copy_one {i} lt) = λ j. record stamped {
    tags = store_tag-publish_tags i s.place.tags (clear_tags s.place.n_fs_server stamped.tags) j;
    limits = store_entry-copy i s.limits stamped.limits j;
  }
  Store-page_at (copied {i} e) = ap copying_at e
  Store-page_at put_freq = refl

  -- With `*p_Param_Mem_Ready = 1` behind them.
  pub publish-page_at :
      (publish_parameters fl tsc s (blank_page fl)).0 ≡ record (page_at at_ready) { ready = 1 }
  unfolding publish_parameters
  publish-page_at = refl
