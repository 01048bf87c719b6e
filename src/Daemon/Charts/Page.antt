-- ===== src/Daemon/Charts/Page.antt =====
-- The bytes of a page: the rows of a table have a comma between them, and none behind the last one.
use ooops.Prelude.{
  ℕ, zero, suc, ◌+◌, ◌-◌, ◌≤◌, ◌≡◌, refl, sym, ap, ◌∙◌, true, none, some, List, [], ◌∷◌, ◌++◌, Text,
  length, take, drop, leb, take_all, append_nil, length-append, arith,
}
use ooops.Floats.{Floats}
use ooops.Daemon.Reports.{Row, Log}
use ooops.Daemon.Logs.Lines.{append_assoc}
use ooops.Daemon.Charts.{
  Stream, fprintf, fprintf_all, back_two, head_lines, middle_lines, tail_lines, count_title,
  rate_title, end_of_table, comma_newline, count_cells, rate_cells, print_rows, print_table,
  write_page,
}

-- A file whose next write is behind its last byte.
abbrev pub at_end : Text → Stream
at_end xs = record { bytes = xs; place = length xs }

drop_all : (n : ℕ) (xs : Text) → length xs ≤ n → drop n xs ≡ []
drop_all zero [] h = refl
drop_all zero (x ∷ xs) h = absurd (omega arith)
drop_all (suc n) [] h = refl
drop_all (suc n) (x ∷ xs) h = drop_all n xs (omega arith)

pub take-append : (xs ys : Text) → take (length xs) (xs ++ ys) ≡ xs
take-append [] ys = refl
take-append (x ∷ xs) ys = ap (◌∷◌ x) (take-append xs ys)

fprintf-at_end : (s xs : Text) → fprintf s (at_end xs) ≡ at_end (xs ++ s)
unfolding fprintf
fprintf-at_end s xs =
    rw
      (
        take_all (length xs) xs (omega arith),
        drop_all (length xs + length s) xs (omega arith),
        append_nil (xs ++ s),
        length-append xs s,
      )
      refl

-- The texts one behind the other.
abbrev pub concat : List Text → Text
concat [] = []
concat (s ∷ ss) = s ++ concat ss

fprintf_all-at_end :
    (ss : List Text) (xs : Text) → fprintf_all ss (at_end xs) ≡ at_end (xs ++ concat ss)
unfolding fprintf_all
fprintf_all-at_end [] xs = ap at_end (sym (append_nil xs))
fprintf_all-at_end (s ∷ ss) xs =
    ap (fprintf_all ss) (fprintf-at_end s xs)
    ∙ fprintf_all-at_end ss (xs ++ s)
    ∙ ap at_end (sym (append_assoc xs s (concat ss)))

-- What is written over the last two bytes stands in their place.
fprintf-back_two :
    (s xs : Text) (a b : ℕ)
    → 2 ≤ length s
    → fprintf s (back_two (at_end (xs ++ a ∷ b ∷ []))) ≡ at_end (xs ++ s)
unfolding fprintf back_two
fprintf-back_two s xs a b h =
    let n = length-append xs (a ∷ b ∷ []) in
    let two : leb 2 (length (xs ++ a ∷ b ∷ [])) ≡ true = ground (arith, n) in
    let place : length (xs ++ a ∷ b ∷ []) - 2 ≡ length xs = omega (arith, n) in
    rw
      (
        two,
        place,
        take-append xs (a ∷ b ∷ []),
        drop_all (length xs + length s) (xs ++ a ∷ b ∷ []) (omega (arith, n)),
        append_nil (xs ++ s),
        length-append xs s,
      )
      refl

-- A text and others, with a comma and a line feed between them.
abbrev pub separated : Text → List Text → Text
separated t [] = t
separated t (r ∷ rs) = t ++ comma_newline ++ separated r rs

module _ (fl : Floats) (print_double : fl.Double → Text) where
  -- The cells of the lines that are rows.
  abbrev pub cells_of : (Row fl → Text) → Log fl → List Text
  cells_of cells [] = []
  cells_of cells (none ∷ log) = cells_of cells log
  cells_of cells (some r ∷ log) = cells r ∷ cells_of cells log

  abbrev pub table : Text → (Row fl → Text) → Log fl → Text
  table title cells log = separated title (cells_of cells log) ++ end_of_table

  -- The page, as one text.
  abbrev pub page_of : Text → Text → Log fl → Text
  page_of href name log =
      concat (head_lines href)
      ++ table count_title (count_cells fl print_double) log
      ++ concat (middle_lines name)
      ++ table rate_title (rate_cells fl print_double) log
      ++ concat (tail_lines name)

  print_rows-at_end :
      (cells : Row fl → Text) (log : Log fl) (xs t : Text)
      → print_rows fl print_double cells log (at_end (xs ++ (t ++ comma_newline)))
        ≡ at_end (xs ++ (separated t (cells_of cells log) ++ comma_newline))
  unfolding print_rows
  print_rows-at_end cells [] xs t = refl
  print_rows-at_end cells (none ∷ log) xs t = print_rows-at_end cells log xs t
  print_rows-at_end cells (some r ∷ log) xs t =
      let line = t ++ comma_newline in
      let rest = separated (cells r) (cells_of cells log) in
      ap (print_rows fl print_double cells log)
        (fprintf-at_end (cells r ++ comma_newline) (xs ++ line))
      ∙ print_rows-at_end cells log (xs ++ line) (cells r)
      ∙ ap at_end (
          sym (append_assoc xs line (rest ++ comma_newline))
          ∙ ap (λ y. xs ++ y) (append_assoc line rest comma_newline))

  print_table-at_end :
      (title : Text) (cells : Row fl → Text) (log : Log fl) (xs : Text)
      → print_table fl print_double title cells log (at_end xs)
        ≡ at_end (xs ++ table title cells log)
  unfolding print_table
  print_table-at_end title cells log xs =
      let rows = separated title (cells_of cells log) in
      ap (λ f. fprintf end_of_table (back_two (print_rows fl print_double cells log f)))
        (fprintf-at_end (title ++ comma_newline) xs)
      ∙ ap (λ f. fprintf end_of_table (back_two f)) (print_rows-at_end cells log xs title)
      ∙ ap (λ y. fprintf end_of_table (back_two (at_end y))) (append_assoc xs rows comma_newline)
      ∙ fprintf-back_two end_of_table (xs ++ rows) b',' b'\n' (omega arith)
      ∙ ap at_end (sym (append_assoc xs rows end_of_table))

  -- What is written for a log is the page, in which each table is closed behind its last row.
  pub write_page-page_of :
      (href name : Text) (log : Log fl)
      → write_page fl print_double href name log ≡ at_end (page_of href name log)
  unfolding write_page
  write_page-page_of href name log =
      let counts = print_table fl print_double count_title (count_cells fl print_double) log in
      let rates = print_table fl print_double rate_title (rate_cells fl print_double) log in
      ap (λ f. fprintf_all (tail_lines name) (rates (fprintf_all (middle_lines name) (counts f))))
        (fprintf_all-at_end (head_lines href) [])
      ∙ ap (λ f. fprintf_all (tail_lines name) (rates (fprintf_all (middle_lines name) f)))
          (print_table-at_end count_title (count_cells fl print_double) log _)
      ∙ ap (λ f. fprintf_all (tail_lines name) (rates f)) (fprintf_all-at_end (middle_lines name) _)
      ∙ ap (fprintf_all (tail_lines name))
          (print_table-at_end rate_title (rate_cells fl print_double) log _)
      ∙ fprintf_all-at_end (tail_lines name) _
