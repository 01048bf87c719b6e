-- ===== src/Config/Sections/Nearest.antt =====
-- `Read_Config` on a whole file.
use ooops.Prelude.{
  ℕ, zero, suc, ◌*◌, ◌≡◌, ◌≢◌, ◌≤◌, ◌<◌, refl, sym, ap, ◌∙◌, subst, inl, inr, true, false, Option,
  some, List, [], ◌∷◌, length, take, take_all, length-take, min, map, Text, ◌/◌, ltb, drop,
  get_elem?, arith,
}
use ooops.Floats.{Floats}
use ooops.State.{State}
use ooops.Config.{
  Choice, freq_list, choose, first_choice, distance, words, max_num_tag, all_fit, records,
  read_items, read_config, giga, set_servers, no_servers,
}
use ooops.Config.Defaults.{read_defaults, default_of, count_servers}
use ooops.Config.Nearest.{Ordered, NoneNearer, choose_nearest}
use ooops.Config.Sections.{
  Section, text_of, positions, next_at, records_of, load_file, max_len_config, WellFormed,
  AllWellFormed, NoSectionNearer,
}
use ooops.Config.Sections.Places.{tags-text_of}
use ooops.Config.Sections.Regions.{At, region-section, freq_list-section, nearer-section}

all_fit-take : (n : ℕ) (ws : List Text) → all_fit ws ≡ true → all_fit (take n ws) ≡ true
unfolding all_fit
all_fit-take zero ws h = refl
all_fit-take (suc n) [] h = refl
all_fit-take (suc n) (w ∷ ws) h = ground (arith, all_fit-take n ws)

-- Every ten items make up a record.
length-records : (ws : List Text) → length (records ws) ≡ length ws / 10
unfolding records
length-records [] = refl
length-records (_ ∷ []) = refl
length-records (_ ∷ _ ∷ []) = refl
length-records (_ ∷ _ ∷ _ ∷ []) = refl
length-records (_ ∷ _ ∷ _ ∷ _ ∷ []) = refl
length-records (_ ∷ _ ∷ _ ∷ _ ∷ _ ∷ []) = refl
length-records (_ ∷ _ ∷ _ ∷ _ ∷ _ ∷ _ ∷ []) = refl
length-records (_ ∷ _ ∷ _ ∷ _ ∷ _ ∷ _ ∷ _ ∷ []) = refl
length-records (_ ∷ _ ∷ _ ∷ _ ∷ _ ∷ _ ∷ _ ∷ _ ∷ []) = refl
length-records (_ ∷ _ ∷ _ ∷ _ ∷ _ ∷ _ ∷ _ ∷ _ ∷ _ ∷ []) = refl
length-records (_ ∷ _ ∷ _ ∷ _ ∷ _ ∷ _ ∷ _ ∷ _ ∷ _ ∷ _ ∷ rest) = omega (arith, length-records rest)

-- All the items of a section, and the first forty.
take_80 : (ws : List Text) → length ws ≤ 80 → records (take 80 ws) ≡ records ws
take_80 ws few = ap records (take_all 80 ws few)

take_40 : (ws : List Text) → length (take 40 ws) / 10 ≡ min 4 (length (records ws))
take_40 ws = omega (arith, length-take 40 ws, length-records ws)

load_file_all :
    (text : Text) → length text < max_len_config → load_file text ≡ some (some (text, length text))
unfolding load_file
load_file_all text h =
    ap (λ t. some (some (t, length t))) (take_all max_len_config text (omega arith))

module _ (fl : Floats) where
  pick_section :
      (ss : List (Section fl)) (k : ℕ) (s : Section fl)
      → AllWellFormed fl ss
      → get_elem? ss k ≡ some s
      → WellFormed fl s
  pick_section [] k s h e = absurd (cc)
  pick_section (x ∷ ss) zero s h e = subst (WellFormed fl) {x = x} {y = s} (cc) h.0
  pick_section (x ∷ ss) (suc k) s h e = pick_section ss k s h.1 e

  length-positions : (i : ℕ) (ss : List (Section fl)) → length (positions fl i ss) ≡ 2 * length ss
  length-positions i [] = refl
  length-positions i (s ∷ ss) = omega (arith, length-positions (next_at fl i s) ss)

  module _ (f_sys : fl.Single) (ss : List (Section fl)) (h : AllWellFormed fl ss) where
    abbrev chosen : Choice fl
    chosen = choose fl f_sys 0 (freq_list fl (text_of fl ss) (positions fl 0 ss)) (first_choice fl)

    whole : At (text_of fl ss) 0 (text_of fl ss)
    whole m n e = ap (λ k. drop k (text_of fl ss)) (omega (arith, e))

    read_items-chosen :
        (limit k : ℕ) (s : Section fl)
        → length ss ≤ 4
        → get_elem? ss k ≡ some s
        → chosen.config_use ≡ some (2 * k)
        → read_items fl limit f_sys (text_of fl ss) (length (text_of fl ss))
          ≡ some (take limit (words [] s.body))
    unfolding read_items
    read_items-chosen limit k s few at use_k =
        let (pq, pair, inside) = region-section fl (text_of fl ss) k 0 ss s h whole at in
        let w = pick_section ss k s h at in
        rw
          (
            read_items,
            tags-text_of fl 0 ss h,
            not_many,
            use_k,
            tags-text_of fl 0 ss h,
            pair,
            inside,
            all_fit-take limit (words [] s.body) w.fit,
          )
          refl
      where
        not_many : ltb max_num_tag (length (positions fl 0 ss)) ≡ false
        not_many = ground (arith, few, length-positions 0 ss)

    chosen-section :
        Ordered fl
        → chosen ≢ first_choice fl
        → (k : ℕ) × (s : Section fl) × (get_elem? ss k ≡ some s)
          × (chosen.config_use ≡ some (2 * k))
          × NoSectionNearer fl f_sys (distance fl f_sys s.value) ss
    chosen-section o differs =
        let (none_nearer, found) =
          choose_nearest fl o f_sys (freq_list fl (text_of fl ss) (positions fl 0 ss)) in
        elim found [
          | inl same ↦ absurd (differs same)
          | inr (k, f, use_k, at, far) ↦
              let (s, here, value) = freq_list-section fl (text_of fl ss) k 0 ss f h whole at in
              (
                k,
                s,
                here,
                use_k ∙ ap some (omega arith),
                subst (λ d. NoSectionNearer fl f_sys d ss)
                    (far ∙ ap (distance fl f_sys) (sym value))
                    (nearer-section fl (text_of fl ss) f_sys chosen.df_min 0 ss h whole
                      none_nearer),
              )
        ]

  -- The first section is nearer than the start of the search.
  differs_from_start :
      (f_sys : fl.Single) (x : Section fl) (xs : List (Section fl)) (h : AllWellFormed fl (x ∷ xs))
      → Ordered fl
      → fl.gt_single (first_choice fl).df_min (distance fl f_sys x.value) ≡ true
      → chosen f_sys (x ∷ xs) h ≢ first_choice fl
  differs_from_start f_sys x xs h o within same = absurd (let far = none_nearer.0 in cc)
    where
      read : List (Option fl.Single)
      read = freq_list fl (text_of fl (x ∷ xs)) (positions fl 0 (x ∷ xs))

      none_nearer : NoSectionNearer fl f_sys (first_choice fl).df_min (x ∷ xs)
      none_nearer =
          nearer-section fl (text_of fl (x ∷ xs)) f_sys (first_choice fl).df_min 0 (x ∷ xs) h
            (whole f_sys (x ∷ xs) h)
            (subst (λ c. NoneNearer fl f_sys c.df_min read) same (choose_nearest fl o f_sys read).0)

  -- A configuration file of one to four sections, in less than 8192 bytes, where the comparison of
  -- `float` is a strict order and the frequency of the first section is within 10 GHz of the
  -- processor. A section is "<freq ", the frequency and the rest of that line, with no `<`, then
  -- any text with no '<' and no NUL, of at most 80 words, separated by any white space and each
  -- shorter than 64 bytes, then a line feed, the line "</freq>", and any text with no '<'. One
  -- section, than which none is nearer to the frequency of the processor, is what the three
  -- programs read. `Read_Config` sets the servers of its records, of ten words each, set_io_param
  -- takes its defaults from the same records, and the daemon counts them, but up to four only.
  pub read_config-nearest :
      (get_freq : fl.Single) (x : Section fl) (xs : List (Section fl)) (s : State fl)
      → Ordered fl
      → AllWellFormed fl (x ∷ xs)
      → length (x ∷ xs) ≤ 4
      → length (text_of fl (x ∷ xs)) < max_len_config
      → fl.gt_single (first_choice fl).df_min (distance fl (giga fl get_freq) x.value) ≡ true
      → let text = text_of fl (x ∷ xs) in
        let file = load_file text in
        (k : ℕ) × (t : Section fl) × (get_elem? (x ∷ xs) k ≡ some t)
        × NoSectionNearer fl (giga fl get_freq) (distance fl (giga fl get_freq) t.value) (x ∷ xs)
        × (read_config fl get_freq file s
            ≡ some
                (set_servers fl (records_of fl t) (record (no_servers fl s) { freq = get_freq })))
        × (read_defaults fl get_freq file ≡ some (map (default_of fl) (records_of fl t)))
        × (count_servers fl get_freq file ≡ some (min 4 (length (records_of fl t))))
  unfolding read_config read_defaults count_servers
  read_config-nearest get_freq x xs s o h few shorter within =
      let f_sys = giga fl get_freq in
      let (k, t, here, use_k, nearest) =
        chosen-section f_sys (x ∷ xs) h o (differs_from_start f_sys x xs h o within) in
      let w = pick_section (x ∷ xs) k t h here in
      let loaded = load_file_all (text_of fl (x ∷ xs)) shorter in
      (
        k,
        t,
        here,
        nearest,
        ap (λ f. read_config fl get_freq f s) loaded
            ∙ rw (read_config, read_items-chosen f_sys (x ∷ xs) h 80 k t few here use_k)
                (ap (λ rs. some (set_servers fl rs (record (no_servers fl s) { freq = get_freq })))
                  (take_80 (words [] t.body) w.few)),
        ap (λ f. read_defaults fl get_freq f) loaded
            ∙ rw (read_defaults, read_items-chosen f_sys (x ∷ xs) h 80 k t few here use_k)
                (ap (λ rs. some (map (default_of fl) rs)) (take_80 (words [] t.body) w.few)),
        ap (λ f. count_servers fl get_freq f) loaded
            ∙ rw (count_servers, read_items-chosen f_sys (x ∷ xs) h 40 k t few here use_k)
                (ap some (take_40 (words [] t.body))),
      )
