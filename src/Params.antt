-- ===== src/Params.antt =====
-- The shared parameters: `Publish_Parameters` and `Update_Parameters` of src/ooops.c, and the
-- updates that src/set_io_param.c makes to the page of a running job.
pub mod Share
pub mod Refresh
pub mod Setup
use ooops.Prelude.{
  ℕ, zero, suc, ◌+◌, Bool, true, false, List, [], ◌∷◌, Text, ◌==◌, if◌then◌else◌, take,
}
use ooops.Floats.{Floats}
use ooops.FileServer.{Tag, Place}
use ooops.State.{Limits, Page, State}

-- `p_FS_Tag_Len[i] = 0` for i below n.
unfoldable pub clear_tags : ℕ → List Tag → List Tag
clear_tags zero ts = ts
clear_tags (suc n) [] = []
clear_tags (suc n) (t ∷ ts) = record t { len = 0 } ∷ clear_tags n ts

-- `strncpy` of `FS_Tag_Len[i]` bytes, and the NUL behind them, for i below n.
unfoldable pub publish_tags : ℕ → List Tag → List Tag → List Tag
publish_tags zero mine shared = shared
publish_tags (suc n) [] shared = shared
publish_tags (suc n) (t ∷ ts) [] = []
publish_tags (suc n) (t ∷ ts) (u ∷ us) =
    record t { name = take t.len t.name } ∷ publish_tags n ts us

module _ {ℓ} {A : Type ℓ} where
  -- the copy of the first n entries of an array
  unfoldable pub copy : ℕ → List A → List A → List A
  copy zero from to = to
  copy (suc n) [] to = to
  copy (suc n) (x ∷ xs) [] = []
  copy (suc n) (x ∷ xs) (y ∷ ys) = x ∷ copy n xs ys

  -- `Update_Parameters` skips the entries with an empty tag.
  unfoldable pub fetch : List Tag → List A → List A → List A
  fetch [] from to = to
  fetch (t ∷ ts) [] to = to
  fetch (t ∷ ts) (x ∷ xs) [] = []
  fetch (t ∷ ts) (x ∷ xs) (y ∷ ys) = (if t.len == 0 then y else x) ∷ fetch ts xs ys

-- `n_fs_server` is incremented for each entry that is not skipped.
unfoldable pub count_tags : List Tag → ℕ
count_tags [] = 0
count_tags (t ∷ ts) = (if t.len == 0 then 0 else 1) + count_tags ts

module _ (fl : Floats) where
  unfoldable pub publish_parameters : ℕ → State fl → Page fl → Page fl × State fl
  publish_parameters tsc s page = (
    record {
      t_updated = tsc;
      disabled = 0;
      ready = 1;
      freq = s.freq;
      tags = publish_tags n s.place.tags (clear_tags n page.tags);
      limits = copy n s.limits page.limits;
    },
    record s { active = true },
  )
    where
      n : ℕ
      n = s.place.n_fs_server

  unfoldable pub update_parameters : Page fl → State fl → State fl
  update_parameters page s = if page.disabled == 1 then record s { active = false } else record s {
    active = true;
    t_updated = page.t_updated;
    freq = page.freq;
    place = record place {
      n_fs_server = count_tags page.tags;
      tags = fetch page.tags page.tags place.tags;
    };
    limits = fetch page.tags page.limits s.limits;
  }
    where
      open s use {place}

  -- `if(t_Updated_Param != *p_t_Updated_Param) Update_Parameters();`
  unfoldable pub refresh : Page fl → State fl → State fl
  refresh page s = if s.t_updated == page.t_updated then s else update_parameters page s
