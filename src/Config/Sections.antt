-- ===== src/Config/Sections.antt =====
-- A whole configuration file: sections of a frequency and its records.
pub mod Places
pub mod Regions
pub mod Nearest
use ooops.Prelude.{
  ℕ, ◌≤◌, take, ◌+◌, ◌≡◌, ◌≢◌, true, false, none, some, List, [], ◌∷◌, ◌++◌, Text, codes, length,
}
use ooops.Floats.{Floats}
use ooops.Config.{Item, File, all_fit, distance, words, records}

abbrev pub Without : ℕ → Text → Type 0
Without c [] = Unit {0}
Without c (x ∷ xs) = (x ≢ c) × Without c xs

-- What stands between the line of the opening tag and the line feed before the closing tag, where
-- the region is made to end; and what stands behind the line of the closing tag.
pub record Section (fl : Floats) : Type 0 where
  pub freq : Text
  pub value : fl.Single
  pub body : Text
  pub gap : Text

abbrev pub max_len_config : ℕ
max_len_config = 8192

-- `open` and `read(fd, szBuff, MAX_LEN_CONFIG)`
unfoldable pub load_file : Text → File
load_file contents = let buf = take max_len_config contents in some (some (buf, length buf))

module _ (fl : Floats) where
  -- The first word of every two is passed over, whatever it is.
  abbrev pub records_of : Section fl → List Item
  records_of s = records (words [] s.body)

  abbrev pub opening : Text
  opening = codes "<freq "

  abbrev pub closing : Text
  closing = codes "</freq>\n"

  abbrev pub text_of : List (Section fl) → Text
  text_of [] = []
  text_of (s ∷ ss) =
      opening ++ (s.freq ++ 0xA ∷ (s.body ++ 0xA ∷ (closing ++ (s.gap ++ text_of ss))))

  -- A section whose frequency is read as its value, whatever follows the line.
  pub record WellFormed (s : Section fl) : Type 0 where
    pub reads : (rest : Text) → fl.scan_single (s.freq ++ 0xA ∷ rest) ≡ some s.value
    pub line : Without 0xA s.freq
    pub no_tag : Without b'<' s.freq
    pub no_tag_inside : Without b'<' s.body
    pub no_nul : Without 0 s.body
    pub no_tag_behind : Without b'<' s.gap
    pub fit : all_fit (words [] s.body) ≡ true
    pub few : length (words [] s.body) ≤ 80

  abbrev pub AllWellFormed : List (Section fl) → Type 0
  AllWellFormed [] = Unit {0}
  AllWellFormed (s ∷ ss) = WellFormed s × AllWellFormed ss

  -- The place of the closing tag of a section that begins at i, and the places of all tags.
  abbrev pub closing_at : ℕ → Section fl → ℕ
  closing_at i s = i + 6 + length s.freq + 1 + length s.body + 1

  -- The place behind a section and its gap.
  abbrev pub next_at : ℕ → Section fl → ℕ
  next_at i s = closing_at i s + 8 + length s.gap

  abbrev pub positions : ℕ → List (Section fl) → List ℕ
  positions i [] = []
  positions i (s ∷ ss) = i ∷ closing_at i s ∷ positions (next_at i s) ss

  -- No section is nearer to the processor than m.
  abbrev pub NoSectionNearer : fl.Single → fl.Single → List (Section fl) → Type 0
  NoSectionNearer f_sys m [] = Unit {0}
  NoSectionNearer f_sys m (s ∷ ss) =
      (fl.gt_single m (distance fl f_sys s.value) ≡ false) × NoSectionNearer f_sys m ss
