-- ===== src/FileServer.antt =====
-- src/ooops.c: which tracked file system a path belongs to (`Check_FS_Server`, `Update_CWD`), and
-- the wrappers that keep the cached working directory (`my_chdir`, `my_fchdir`, `my_getcwd_*`).
-- An index of -1 is `none`. `exit(1)` is the `none` of an optional result.
pub mod Scan
pub mod Cwd
use ooops.Prelude.{
  ℕ, suc, ◌+◌, max, Bool, true, false, not, ◌&&◌, Option, none, some, List, [], ◌∷◌, Text, ℤ, ltb,
  leb, ◌==◌, if◌then◌else◌, strn_eq, length, get_or, take,
}

-- `szFSTag[i]` and `FS_Tag_Len[i]`.
pub record Tag : Type 0 where
  pub name : Text
  pub len : ℕ

-- The globals `szFSTag`, `FS_Tag_Len`, `n_fs_server`, and the thread's `Idx_fs_Server`,
-- `Idx_fs_Server_CWD` and `szUpdatedDir`.
pub record Place : Type 0 where
  pub tags : List Tag
  pub n_fs_server : ℕ
  pub idx_fs_server : Option ℕ
  pub idx_fs_server_cwd : Option ℕ
  pub updated_dir : Text

-- `for(i=0; i<n_fs_server; i++) if( strncmp(szName, szFSTag[i], FS_Tag_Len[i]) == 0 ) ...`
unfoldable pub scan : Text → List Tag → ℕ → Option ℕ
scan name [] i = none
scan name (t ∷ ts) i = if strn_eq name t.name t.len then some i else scan name ts (suc i)

abbrev pub tracked : Place → List Tag
tracked p = take p.n_fs_server p.tags

abbrev pub slash : ℕ
slash = b'/'

abbrev pub is_absolute : Text → Bool
is_absolute name = get_or name 0 0 == slash

unfoldable pub check_fs_server : Text → Place → Place
check_fs_server name p = record p {
  idx_fs_server = elim (scan name (tracked p) 0) [
    | some i ↦ some i
    | none ↦ if is_absolute name then none else p.idx_fs_server_cwd
  ];
}

abbrev pub max_path : ℕ
max_path = 1024

-- What a `getcwd` wrapper returns: NULL with `ERANGE`, what the real function returned, or the
-- cached path, in the caller's buffer or in a new block of so many bytes.
pub data Getcwd : Type 0 where
  erange : Getcwd
  passed : Option Text → Getcwd
  in_block : ℕ → Text → Getcwd
  in_buf : Text → Getcwd

-- The system: its state, the real `getcwd` (by whether `buf` is NULL, and `size`) and `chdir`.
module _ {K : Type 0} (real_getcwd : K → Bool → ℕ → Option Text) where
  unfoldable pub update_cwd : K → Place → Option Place
  update_cwd k p = elim (real_getcwd k false max_path) [
    | none ↦ none
    | some dir ↦ some (record p { idx_fs_server_cwd = scan dir (tracked p) 0; updated_dir = dir })
  ]

  -- `my_chdir` and `my_fchdir` differ in the argument of the real call only.
  unfoldable pub my_chdir {κ} :
      {A : Type κ} → (K → A → ℤ × K) → K → A → Place → Option (ℤ × K × Place)
  unfolding update_cwd
  my_chdir real_chdir k path p =
      let (ret, k') = real_chdir k path in
      elim (update_cwd k' p) [ none ↦ none | some p' ↦ some (ret, k', p') ]

  -- `my_getcwd_ld` and `my_getcwd_libc`. `alloc` tells whether `malloc` succeeds.
  unfoldable pub my_getcwd : Bool → K → Bool → ℕ → Place → Option (Getcwd × Place)
  my_getcwd alloc k buf_null size p =
      if leb size (length p.updated_dir) && ltb 0 size
      then some (erange, p)
      else if not (is_absolute p.updated_dir)
      then some (fresh (real_getcwd k buf_null size))
      else if buf_null
      then if alloc then some (in_block (max size max_path + 1) p.updated_dir, p) else none
      else some (in_buf p.updated_dir, p)
    where
      fresh : Option Text → Getcwd × Place
      fresh none = (passed none, p)
      fresh (some dir) = (passed (some dir), record p { updated_dir = dir })
