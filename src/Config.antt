-- ===== src/Config.antt =====
-- The configuration file (`IO_LIMIT_CONFIG`): `Read_Config` of src/ooops.c. A read of memory that
-- was never written is `none`.
pub mod Defaults
pub mod Nearest
pub mod Tokens
pub mod Sections
use ooops.Prelude.{
  ℕ, zero, suc, ◌+◌, ◌-◌, ◌*◌, ◌/◌, Bool, true, false, not, ◌&&◌, ◌||◌, Option, none, some, List,
  [], ◌∷◌, ◌++◌, map, Text, codes, ltb, leb, ◌==◌, if◌then◌else◌, strn_eq, length, take, drop,
  replicate, set, pos,
}
use ooops.Floats.{Floats}
use ooops.FileServer.{Tag}
use ooops.State.{Limits, State}

abbrev pub max_fs_server : ℕ
max_fs_server = 8

abbrev pub max_len_fs_name : ℕ
max_len_fs_name = 16

abbrev pub n_item_per_rec : ℕ
n_item_per_rec = 10

-- `MAX_NUM_CONFIG*2`, the length of `PosList`
abbrev pub max_num_tag : ℕ
max_num_tag = 8

-- "<fre" or "</fr", as the four bytes of an `int`
abbrev pub is_tag : Text → Bool
is_tag xs = strn_eq xs (codes "<fre") 4 || strn_eq xs (codes "</fr") 4

-- `PosList`: the places of the tags among the first `num_read` bytes.
unfoldable pub find_tags : ℕ → ℕ → Text → List ℕ
find_tags zero i xs = []
find_tags (suc n) i xs =
    let rest = find_tags n (suc i) (drop 1 xs) in if is_tag xs then i ∷ rest else rest

-- `p_Use`: the place behind the next line feed; the loop does not look for the end of the buffer.
unfoldable pub after_newline : ℕ → Text → Option ℕ
after_newline i [] = none
after_newline i (x ∷ xs) =
    let rest = after_newline (suc i) xs in if x == 0xA then some (suc i) else rest

-- A string up to its NUL.
unfoldable pub c_string : Text → Text
c_string [] = []
c_string (x ∷ xs) = let rest = c_string xs in if x == 0 then [] else x ∷ rest

abbrev pub is_space : ℕ → Bool
is_space c = c == 0x20 || (leb 9 c && leb c 13)

-- `sscanf` with one `%s` after another: the words between white space. The first argument is the
-- word begun.
unfoldable pub words : Text → Text → List Text
words [] [] = []
words (w ∷ ws) [] = (w ∷ ws) ∷ []
words [] (c ∷ cs) = if is_space c then words [] cs else words (c ∷ []) cs
words (w ∷ ws) (c ∷ cs) =
    let next = words [] cs in
    let more = words (w ∷ ws ++ c ∷ []) cs in if is_space c then (w ∷ ws) ∷ next else more

-- The items at 1, 3, 5, 7 and 9 of a record of ten.
pub record Item : Type 0 where
  pub fs_tag : Text
  pub t_open : Text
  pub open_freq : Text
  pub t_lxstat : Text
  pub lxstat_freq : Text

-- `n_fs_server = nParam / N_ITEM_PER_REC`: an unfinished record is left out.
unfoldable pub records : List Text → List Item
records (_ ∷ n ∷ _ ∷ a ∷ _ ∷ b ∷ _ ∷ c ∷ _ ∷ d ∷ rest) =
    record { fs_tag = n; t_open = a; open_freq = b; t_lxstat = c; lxstat_freq = d } ∷ records rest
records _ = []

-- `FS_Tag_Len[i]`
abbrev pub tag_of : Text → Tag
tag_of name = record {
  name = name;
  len = if leb max_len_fs_name (length name) then max_len_fs_name - 1 else length name;
}

-- The file: none where the variable is not set; then none where it cannot be opened; then the
-- buffer with the number of bytes read.
abbrev pub File : Type 0
File = Option (Option (Text × ℕ))

-- `char szItems[80][64]`: every item has room for its NUL.
unfoldable pub all_fit : List Text → Bool
all_fit [] = true
all_fit (w ∷ ws) = ltb (length w) 64 && all_fit ws

module _ {ℓ} {A : Type ℓ} where
  -- `xs[i] = v` for the first entries
  unfoldable pub overlay : List A → List A → List A
  overlay [] ys = ys
  overlay (x ∷ xs) [] = []
  overlay (x ∷ xs) (y ∷ ys) = x ∷ overlay xs ys

module _ (fl : Floats) where
  -- `df_Min` and `Config_Use`, none being -1
  pub record Choice : Type 0 where
    pub df_min : fl.Single
    pub config_use : Option ℕ

  -- `(f > f_Sys) ? (f - f_Sys) : (f_Sys - f)`
  abbrev pub distance : fl.Single → fl.Single → fl.Single
  distance f_sys f = if fl.gt_single f f_sys then fl.sub_single f f_sys else fl.sub_single f_sys f

  -- One tag that opens a section: what is read at it is none where no number stands there.
  unfoldable pub closer : fl.Single → ℕ → Option fl.Single → Choice → Choice
  closer f_sys i none c = c
  closer f_sys i (some f) c =
      if fl.gt_single c.df_min (distance f_sys f)
      then record { df_min = distance f_sys f; config_use = some i }
      else c

  -- `for(i=0; i<nConfig; i+=2)`, over what is read behind every tag
  unfoldable pub choose : fl.Single → ℕ → List (Option fl.Single) → Choice → Choice
  unfolding closer
  choose f_sys i [] c = c
  choose f_sys i (f ∷ []) c = closer f_sys i f c
  choose f_sys i (f ∷ _ ∷ fs) c = choose f_sys (i + 2) fs (closer f_sys i f c)

  unfoldable pub freq_list : Text → List ℕ → List (Option fl.Single)
  freq_list buf [] = []
  freq_list buf (p ∷ ps) = fl.scan_single (drop (p + 6) buf) ∷ freq_list buf ps

  abbrev pub first_choice : Choice
  first_choice = record { df_min = fl.single (pos 10); config_use = none }

  -- `PosList[i]` and `PosList[i+1]`
  unfoldable pub pair_at : ℕ → List ℕ → Option (ℕ × ℕ)
  pair_at i [] = none
  pair_at zero (p ∷ []) = none
  pair_at zero (p ∷ q ∷ ps) = some (p, q)
  pair_at (suc i) (p ∷ ps) = pair_at i ps

  -- From behind the line of the opening tag, up to the byte before the closing tag, which is made
  -- a NUL once that place is known.
  unfoldable pub region : Text → ℕ × ℕ → Option Text
  unfolding after_newline c_string
  region buf (p, q) = elim (after_newline (p + 6) (drop (p + 6) buf)) [
    | none ↦ none
    | some u ↦ some (c_string (drop u (set buf (q - 1) 0)))
  ]

  -- From the buffer to the items: at most `limit` of them, 80 or 40, of less than 64 bytes.
  unfoldable pub read_items : ℕ → fl.Single → Text → ℕ → Option (List Text)
  unfolding find_tags freq_list choose pair_at region words all_fit
  read_items limit f_sys buf num_read =
      let pos_list = find_tags num_read 0 buf in
      if ltb max_num_tag (length pos_list)
      then none
      else (elim (choose f_sys 0 (freq_list buf pos_list) first_choice).config_use [
        | none ↦ none
        | some i ↦ elim (pair_at i pos_list) [
          | none ↦ none
          | some pq ↦ elim (region buf pq) [
            | none ↦ none
            | some xs ↦
                let items = take limit (words [] xs) in if all_fit items then some items else none
          ]
        ]
      ])

  abbrev pub micro : fl.Double
  micro = fl.decimal 1 6

  -- `t * 0.000001 * freq`, stored in a `float`
  abbrev pub to_ticks : fl.Single → fl.Single → fl.Single
  to_ticks freq t = fl.narrow (fl.mul (fl.mul (fl.widen t) micro) (fl.widen freq))

  -- `(float)atof(s)`
  abbrev pub number : Text → fl.Single
  number s = fl.narrow (fl.atof s)

  abbrev pub limits_of : fl.Single → Item → Limits fl
  limits_of freq r = record {
    threshold_open = fl.to_uint64 (to_ticks freq (number r.t_open));
    threshold_lxstat = fl.to_uint64 (to_ticks freq (number r.t_lxstat));
    max_open_freq = number r.open_freq;
    max_lxstat_freq = number r.lxstat_freq;
  }

  -- `Max_open_Freq[i] = 60000.0; Max_lxstat_Freq[i] = 60000.0`
  abbrev pub unlimited : Limits fl → Limits fl
  unlimited l = record l {
    max_open_freq = fl.single (pos 60000);
    max_lxstat_freq = fl.single (pos 60000);
  }

  -- `freq * 0.000000001`
  abbrev pub giga : fl.Single → fl.Single
  giga freq = fl.narrow (fl.mul (fl.widen freq) (fl.decimal 1 9))

  abbrev pub no_servers : State fl → State fl
  no_servers s = record s {
    limits = map unlimited s.limits;
    place = record s.place { n_fs_server = 0 };
  }

  -- The loop over the records.
  abbrev pub set_servers : List Item → State fl → State fl
  set_servers rs s = record s {
    limits = overlay (map (limits_of s.freq) rs) s.limits;
    place = record s.place {
      n_fs_server = length rs;
      tags = overlay (map (λ r. tag_of r.fs_tag) rs) s.place.tags;
    };
  }

  -- `Read_Config`; `get_freq` is what `Get_Freq` returns.
  unfoldable pub read_config : fl.Single → File → State fl → Option (State fl)
  unfolding read_items records overlay
  read_config get_freq none s = some (no_servers s)
  read_config get_freq (some none) s = some (record (no_servers s) { freq = get_freq })
  read_config get_freq (some (some (buf, num_read))) s =
      elim (read_items 80 (giga get_freq) buf num_read) [
        | none ↦ none
        | some items ↦
            some (set_servers (records items) (record (no_servers s) { freq = get_freq }))
      ]
