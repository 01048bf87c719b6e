-- ===== src/Startup.antt =====
-- src/ooops.c, the start of a process: which program it is (`Get_Exe_Name_and_CmdLine`), and what
-- `init` replaces in it.
pub mod Script
pub mod Wrap
use ooops.Prelude.{
  ℕ, zero, suc, ◌+◌, ◌-◌, Bool, true, false, not, ◌&&◌, ◌||◌, Option, none, some, List, [], ◌∷◌,
  ◌++◌, Text, codes, ltb, leb, ◌==◌, if◌then◌else◌, str_eq, strn_eq, length, take, drop, get_or,
}
use ooops.Startup.Script.{Shell, bash, tcsh, zsh, Files, append_job_end_handler}

-- The string at the front of a buffer; `none` where no NUL stands in what was read.
unfoldable pub c_str : Text → Option Text
c_str [] = none
c_str (x ∷ xs) =
    let rest = c_str xs in
    if x == 0 then some [] else (elim rest [ none ↦ none | some s ↦ some (x ∷ s) ])

-- Behind the last slash, where there is one.
unfoldable pub after_slash : Text → Option Text
after_slash [] = none
after_slash (x ∷ xs) = elim (after_slash xs) [
  | some s ↦ some s
  | none ↦ if x == b'/' then some xs else none
]

-- `szName`: the file name of an absolute path; any other text whole.
unfoldable pub exe_name : Text → Text
unfolding after_slash
exe_name line =
    if get_or line 0 0 == b'/' then (elim (after_slash line) [ none ↦ line | some s ↦ s ]) else line

-- `iShell_Type`, none being -1
unfoldable pub shell_of : Text → Option Shell
shell_of name =
    if str_eq name (codes "bash")
    then some Shell.bash
    else if str_eq name (codes "csh")
    then some Shell.tcsh
    else if str_eq name (codes "tcsh")
    then some Shell.tcsh
    else if str_eq name (codes "zsh")
    then some Shell.zsh
    else none

-- `szBatchScriptName_Org[128]` and `szBatchScriptName_New[128]`
abbrev pub script_name_len : ℕ
script_name_len = 128

-- The new script: its name and its text.
pub record Wrapped : Type 0 where
  pub name_new : Text
  pub text : Text

-- Of a script of the batch system. The Boolean tells whether `mkdir` succeeds. A name that does not
-- fit is written behind its array: `none`, as is the end of the process.
unfoldable pub wrap_script : Shell → Bool → Files → Text → Option (Option Wrapped)
unfolding after_slash append_job_end_handler
wrap_script shell mkdir files name_org =
    if ltb (length name_org) script_name_len
    then (elim (after_slash name_org) [
      | none ↦ some none
      | some base ↦
          let name_new = codes "/dev/shm/ooops/" ++ base in
          if mkdir && ltb (length name_new) script_name_len
          then (elim (append_job_end_handler shell files) [
            | none ↦ none
            | some text ↦ some (some (record { name_new = name_new; text = text }))
          ])
          else none
    ])
    else none

abbrev pub job_prefix : Text
job_prefix = codes "/tmp/slurmd/job"

-- What becomes known of the program. `argument` is the text behind its name.
pub record Program : Type 0 where
  pub name : Text
  pub shell_type : Option Shell
  pub wrapped : Option Wrapped

unfoldable pub first_argument : Shell → Bool → Files → Text → Option (Option Wrapped)
unfolding c_str wrap_script strn_eq
first_argument shell mkdir files argument =
    if strn_eq argument job_prefix 15
    then (elim (c_str argument) [
      | none ↦ none
      | some name_org ↦ wrap_script shell mkdir files name_org
    ])
    else some none

-- `cmdline` is the text of /proc/<pid>/cmdline, where it can be opened.
unfoldable pub get_exe_name_and_cmdline : Option Text → Bool → Files → Option Program
unfolding c_str exe_name shell_of first_argument
get_exe_name_and_cmdline none mkdir files = none
get_exe_name_and_cmdline (some cmdline) mkdir files =
    let sz_line = take 511 cmdline in
    elim (c_str sz_line) [
      | none ↦ none
      | some line ↦
          let name = exe_name line in
          elim (shell_of name) [
            | none ↦ some (record { name = name; shell_type = none; wrapped = none })
            | some shell ↦
                elim (first_argument shell mkdir files (drop (length line + 1) sz_line)) [
                  | none ↦ none
                  | some w ↦ some (record { name = name; shell_type = some shell; wrapped = w })
                ]
          ]
    ]

-- `szHostName`: its first point becomes a NUL.
unfoldable pub cut_domain : Text → Text
cut_domain [] = []
cut_domain (c ∷ cs) = let rest = cut_domain cs in if c == b'.' then 0 ∷ cs else c ∷ rest

abbrev pub is_compute_node : Text → Bool
is_compute_node host = get_or host 0 0 == b'c' && get_or host 4 0 == b'-'

abbrev pub is_excluded : Text → Bool
is_excluded name =
    str_eq name (codes "hostname") || str_eq name (codes "ooopsd") || str_eq name (codes "ssh")

-- The calls of `register_a_hook`: module and function, in order.
unfoldable pub registrations : Option Shell → List (Text × Text)
registrations shell_type =
    (codes "ld", codes "open")
    ∷ (codes "libc", codes "open")
    ∷ (codes "libpthread", codes "open")
    ∷ (codes "ld", codes "open64")
    ∷ (codes "libc", codes "open64")
    ∷ (codes "libpthread", codes "open64")
    ∷ (codes "ld", codes "__xstat64")
    ∷ (codes "libc", codes "__xstat64")
    ∷ (codes "ld", codes "__lxstat64")
    ∷ (codes "libc", codes "__lxstat64")
    ∷ (codes "libc", codes "chdir")
    ∷ (codes "libc", codes "fchdir")
    ∷ (codes "ld", codes "getcwd")
    ∷ (codes "libc", codes "getcwd")
    ∷ (elim shell_type [
      | some tcsh ↦ (codes "libc", codes "__write") ∷ []
      | some bash ↦ []
      | some zsh ↦ []
      | none ↦ []
    ])

-- How `init` ends, the setup of the shared memory and `Update_CWD` apart: the process is left as it
-- is, or it is ended, or its functions are replaced.
pub data Init : Type 0 where
  left_alone : Init
  quits : Init
  hooked : (program : Program) (updated_dir : Text) (hooks : List (Text × Text)) → Init

-- `cwd` is what `getcwd` yields.
unfoldable pub init : Text → Option Text → Bool → Files → Option Text → Init
unfolding cut_domain get_exe_name_and_cmdline
init hostname cmdline mkdir files cwd =
    if is_compute_node (cut_domain hostname)
    then (elim (get_exe_name_and_cmdline cmdline mkdir files) [
      | none ↦ quits
      | some p ↦
          if is_excluded p.name
          then left_alone
          else (elim cwd [ none ↦ quits | some dir ↦ hooked p dir (registrations p.shell_type) ])
    ])
    else left_alone
