-- ===== src/Startup/Wrap.antt =====
-- The script of a job, from the command line of its shell to the new script.
use ooops.Prelude.{
  ℕ, zero, suc, ◌+◌, ◌-◌, ◌≤◌, ◌<◌, ◌≡◌, ◌≢◌, refl, ap, ◌∙◌, true, false, Option, none, some, [],
  ◌∷◌, ◌++◌, Text, codes, ltb, ◌==◌, strn_eq, length, take, take_all, drop, get_or, length-append,
  arith,
}
use ooops.Startup.{
  Program, c_str, after_slash, exe_name, shell_of, script_name_len, wrap_script, job_prefix,
  first_argument, get_exe_name_and_cmdline,
}
use ooops.Startup.Script.{Shell, Files, prologue, epilogue, max_buff_size, append_job_end_handler}

abbrev pub Lacks : ℕ → Text → Type 0
Lacks c [] = Unit {0}
Lacks c (x ∷ xs) = (x ≢ c) × Lacks c xs

Lacks-append : (c : ℕ) (xs ys : Text) → Lacks c xs → Lacks c ys → Lacks c (xs ++ ys)
Lacks-append c [] ys h k = k
Lacks-append c (x ∷ xs) ys h k = (h.0, Lacks-append c xs ys h.1 k)

c_str-append : (xs ys : Text) → Lacks 0 xs → c_str (xs ++ 0 ∷ ys) ≡ some xs
unfolding c_str
c_str-append [] ys h = refl
c_str-append (x ∷ xs) ys h = rw (c_str-append xs ys h.1) (ground arith)

after_slash-Lacks : (xs : Text) → Lacks b'/' xs → after_slash xs ≡ none
unfolding after_slash
after_slash-Lacks [] h = refl
after_slash-Lacks (x ∷ xs) h = rw (after_slash-Lacks xs h.1) (ground arith)

after_slash-append : (xs ys : Text) → Lacks b'/' ys → after_slash (xs ++ b'/' ∷ ys) ≡ some ys
unfolding after_slash
after_slash-append [] ys h = rw (after_slash-Lacks ys h) refl
after_slash-append (x ∷ xs) ys h = rw (after_slash-append xs ys h) refl

take-append :
    (n : ℕ) (xs ys : Text) → length xs ≤ n → take n (xs ++ ys) ≡ xs ++ take (n - length xs) ys
take-append n [] ys h = ap (λ k. take k ys) (omega arith)
take-append zero (x ∷ xs) ys h = absurd (omega arith)
take-append (suc n) (x ∷ xs) ys h =
    ap (◌∷◌ x) (take-append n xs ys (omega arith) ∙ ap (λ k. xs ++ take k ys) (omega arith))

take_pos : (n : ℕ) (x : ℕ) (xs : Text) → 0 < n → take n (x ∷ xs) ≡ x ∷ take (n - 1) xs
take_pos zero x xs h = absurd (omega arith)
take_pos (suc n) x xs h = ap (λ k. x ∷ take k xs) (omega arith)

drop-append : (xs : Text) (x : ℕ) (ys : Text) → drop (length xs + 1) (xs ++ x ∷ ys) ≡ ys
drop-append [] x ys = refl
drop-append (y ∷ xs) x ys =
    ap (λ k. drop k (y ∷ xs ++ x ∷ ys)) {y = suc (length xs + 1)} (omega arith)
    ∙ drop-append xs x ys

-- The file can be read and copied.
pub record Readable (text : Text) (files : Files) : Type 0 where
  pub script : files.script ≡ some text
  pub can_create : files.can_create ≡ true
  pub written : files.nbytes_written ≡ length text
  pub least : 10 ≤ length text
  pub most : length text < max_buff_size

append_job_end_handler-Readable :
    (shell : Shell) (text : Text) (files : Files)
    → Readable text files
    → append_job_end_handler shell files ≡ some (prologue shell ++ text ++ epilogue shell)
unfolding append_job_end_handler
append_job_end_handler-Readable shell text files r =
    rw
      (
        append_job_end_handler,
        r.script,
        take_all max_buff_size text (omega (arith, r.most)),
        small,
        large,
        r.can_create,
        full,
      )
      refl
  where
    small : ltb (length text) 10 ≡ false
    small = ground (arith, r.least)

    large : (length text == max_buff_size) ≡ false
    large = ground (arith, r.most)

    full : (files.nbytes_written == length text) ≡ true
    full = ground (arith, r.written)

wrap_script-Readable :
    (shell : Shell) (text : Text) (files : Files) (dir base : Text)
    → Readable text files
    → Lacks b'/' base
    → 14 ≤ length dir
    → length (dir ++ b'/' ∷ base) < script_name_len
    → wrap_script shell true files (dir ++ b'/' ∷ base)
      ≡ some (
          some (record {
            name_new = codes "/dev/shm/ooops/" ++ base;
            text = prologue shell ++ text ++ epilogue shell;
          }))
unfolding wrap_script
wrap_script-Readable shell text files dir base r lacks long short =
    rw
      (
        wrap_script,
        fits,
        after_slash-append dir base lacks,
        fits_new,
        append_job_end_handler-Readable shell text files r,
      )
      refl
  where
    fits : ltb (length (dir ++ b'/' ∷ base)) script_name_len ≡ true
    fits = ground (arith, short)

    fits_new : ltb (length (codes "/dev/shm/ooops/" ++ base)) script_name_len ≡ true
    fits_new = ground (arith, short, length-append dir (b'/' ∷ base))

-- The first 511 bytes of a command line whose first two strings fit into them.
module _ (path script rest : Text) (fit : length path + length script + 2 ≤ 511) where
  abbrev left : Text
  left = take (511 - length path - length script - 2) rest

  line_kept : take 511 (path ++ 0 ∷ (script ++ 0 ∷ rest)) ≡ path ++ 0 ∷ (script ++ 0 ∷ left)
  line_kept =
      take-append 511 path (0 ∷ (script ++ 0 ∷ rest)) (omega arith) ∙ ap (λ t. path ++ t) second
    where
      last : take (511 - length path - suc (length script)) (0 ∷ rest) ≡ 0 ∷ left
      last =
          take_pos (511 - length path - suc (length script)) 0 rest (omega arith)
          ∙ ap (λ k. 0 ∷ take k rest) (omega arith)

      second : take (511 - length path) (0 ∷ (script ++ 0 ∷ rest)) ≡ 0 ∷ (script ++ 0 ∷ left)
      second =
          take-append (511 - length path) (0 ∷ script) (0 ∷ rest) (omega arith)
          ∙ ap (λ t. 0 ∷ (script ++ t)) last

exe_name-absolute :
    (dir exe : Text)
    → get_or (dir ++ b'/' ∷ exe) 0 0 ≡ b'/'
    → Lacks b'/' exe
    → exe_name (dir ++ b'/' ∷ exe) ≡ exe
unfolding exe_name
exe_name-absolute dir exe abs lacks = rw (exe_name, slash, after_slash-append dir exe lacks) refl
  where
    slash : (get_or (dir ++ b'/' ∷ exe) 0 0 == b'/') ≡ true
    slash = ground (arith, abs)

first_argument-job :
    (shell : Shell) (files : Files) (mid base rest : Text)
    → Lacks 0 mid
    → Lacks 0 base
    → first_argument shell true files ((job_prefix ++ mid ++ b'/' ∷ base) ++ 0 ∷ rest)
      ≡ wrap_script shell true files (job_prefix ++ mid ++ b'/' ∷ base)
unfolding first_argument strn_eq
first_argument-job shell files mid base rest hm hb =
    rw (c_str-append (job_prefix ++ mid ++ b'/' ∷ base) rest zeros) refl
  where
    zeros : Lacks 0 (job_prefix ++ mid ++ b'/' ∷ base)
    zeros = ground (arith, Lacks-append 0 mid (b'/' ∷ base) hm ((λ e. absurd (omega arith)), hb))

-- The start of a shell of a known type, of an absolute path, on a script of the batch system: where
-- the command line up to the end of the script's name fits into 511 bytes, that name into its
-- array, the directory can be made and the script, of 10 bytes to less than a megabyte, can be
-- read and copied, the new script is the prologue of that shell, the whole script unchanged, and
-- the epilogue, under the script's own name in /dev/shm/ooops.
pub get_exe_name_and_cmdline-job :
    (dir exe mid base rest text : Text) (shell : Shell) (files : Files)
    → get_or (dir ++ b'/' ∷ exe) 0 0 ≡ b'/'
    → Lacks b'/' exe
    → Lacks 0 (dir ++ b'/' ∷ exe)
    → shell_of exe ≡ some shell
    → Lacks 0 mid
    → Lacks 0 base
    → Lacks b'/' base
    → let script = job_prefix ++ mid ++ b'/' ∷ base in
      length (dir ++ b'/' ∷ exe) + length script + 2 ≤ 511
      → length script < script_name_len
      → Readable text files
      → get_exe_name_and_cmdline (some ((dir ++ b'/' ∷ exe) ++ 0 ∷ (script ++ 0 ∷ rest))) true files
        ≡ some (record {
          name = exe;
          shell_type = some shell;
          wrapped = some (record {
            name_new = codes "/dev/shm/ooops/" ++ base;
            text = prologue shell ++ text ++ epilogue shell;
          });
        })
unfolding get_exe_name_and_cmdline
get_exe_name_and_cmdline-job dir exe mid base rest text shell files abs le lz sh mz bz bs fit few
      r =
    rw
      (
        get_exe_name_and_cmdline,
        kept,
        c_str-append path behind lz,
        named,
        sh,
        kept,
        drop-append path 0 behind,
        first_argument-job shell files mid base tail mz bz,
        wrap_script-Readable shell text files (job_prefix ++ mid) base r bs (omega arith) few,
      )
      (ap program named)
  where
    program : Text → Option Program
    program name = some (record {
      name = name;
      shell_type = some shell;
      wrapped = some (record {
        name_new = codes "/dev/shm/ooops/" ++ base;
        text = prologue shell ++ text ++ epilogue shell;
      });
    })

    path : Text
    path = dir ++ b'/' ∷ exe

    script : Text
    script = job_prefix ++ mid ++ b'/' ∷ base

    tail : Text
    tail = left path script rest fit

    behind : Text
    behind = script ++ 0 ∷ tail

    kept : take 511 (path ++ 0 ∷ (script ++ 0 ∷ rest)) ≡ path ++ 0 ∷ behind
    kept = line_kept path script rest fit

    named : exe_name path ≡ exe
    named = exe_name-absolute dir exe abs le
