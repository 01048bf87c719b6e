-- ===== src/FileServer/Cwd.antt =====
-- The cached working directory: `my_chdir` keeps it in step with the system, and the `getcwd`
-- wrappers answer from it as the real function would.
use ooops.Prelude.{
  ℕ, ◌+◌, ◌<◌, ◌≡◌, refl, subst, ◌⊎◌, inl, inr, Bool, true, false, Option, none, some, Text, ℤ, ltb,
  leb, if◌then◌else◌, Option-cases, length, max, arith,
}
use ooops.FileServer.{
  Place, scan, tracked, is_absolute, max_path, Getcwd, erange, passed, in_block, in_buf, update_cwd,
  my_chdir, my_getcwd,
}
use ooops.FileServer.Scan.{Classified, scan-Classified}

module _ {K : Type 0} (real_getcwd : K → Bool → ℕ → Option Text) where
  -- The cache holds what the system answers, and the index is the classification of that path.
  pub record InSync (k : K) (p : Place) : Type 0 where
    pub dir : real_getcwd k false max_path ≡ some p.updated_dir
    pub idx : Classified p.updated_dir (tracked p) 0 p.idx_fs_server_cwd

  -- Whatever `chdir` does and returns, success or failure, the wrapper returns its result and
  -- leaves the cache in step with the new state of the system; the process exits exactly if the
  -- system cannot name its working directory in `MAX_PATH` bytes.
  pub my_chdir-InSync :
      {A : Type 0} (real_chdir : K → A → ℤ × K) (k : K) (path : A) (p : Place)
      → let (ret, k') = real_chdir k path in
        ((p' : Place) × (my_chdir real_getcwd real_chdir k path p ≡ some (ret, k', p'))
          × InSync k' p'
          × (p'.idx_fs_server ≡ p.idx_fs_server))
        ⊎ ((my_chdir real_getcwd real_chdir k path p ≡ none)
            × (real_getcwd k' false max_path ≡ none))
  unfolding my_chdir
  my_chdir-InSync real_chdir k path p =
      elim (Option-cases (real_getcwd (real_chdir k path).1 false max_path)) [
        | inl e ↦ inr (rw (e, my_chdir, update_cwd), e)
        | inr (dir, e) ↦ inl (
          record p { idx_fs_server_cwd = scan dir (tracked p) 0; updated_dir = dir },
          rw (e, my_chdir, update_cwd),
          record { dir = e; idx = scan-Classified dir (tracked p) 0 },
          refl,
        )
      ]

  -- The documented `getcwd` at a nonzero size.
  abbrev pub Documented : (K → Text) → Type 0
  Documented cwd =
      (k : K) (buf_null : Bool) (size : ℕ)
      → 0 < size
      → real_getcwd k buf_null size ≡ (if ltb (length (cwd k)) size then some (cwd k) else none)

  InSync-cwd :
      (cwd : K → Text) (k : K) (p : Place) → Documented cwd → InSync k p → cwd k ≡ p.updated_dir
  InSync-cwd cwd k p doc sync = ground (arith, doc k false max_path (omega arith), sync.dir)

  -- The answer of a wrapper as the real function would give it: the path, or NULL.
  abbrev pub answer : Getcwd → Option Text
  answer erange = none
  answer (passed r) = r
  answer (in_block n dir) = some dir
  answer (in_buf dir) = some dir

  -- While the cache is in step with the system, and `getcwd` behaves as documented, the wrapper
  -- gives for every nonzero size the answer of the real call, NULL for a path that does not fit
  -- included, and leaves the cache alone. (It may exit for want of memory, `alloc` false.)
  pub my_getcwd-eq-getcwd :
      (cwd : K → Text) (k : K) (buf_null : Bool) (size : ℕ) (p : Place)
      → Documented cwd
      → InSync k p
      → 0 < size
      → is_absolute (cwd k) ≡ true
      → (g : Getcwd) × (my_getcwd real_getcwd true k buf_null size p ≡ some (g, p))
        × (answer g ≡ real_getcwd k buf_null size)
  unfolding my_getcwd
  my_getcwd-eq-getcwd cwd k buf_null size p doc sync pos abs = (
    if leb size (length p.updated_dir)
        then erange
        else if buf_null
        then in_block (max size max_path + 1) p.updated_dir
        else in_buf p.updated_dir,
    ground (arith, subst (λ d. is_absolute d ≡ true) (InSync-cwd cwd k p doc sync) abs),
    rw (doc k buf_null size pos, InSync-cwd cwd k p doc sync) (ground arith),
  )

  -- The block that the wrapper allocates for a NULL buffer holds the path and its NUL.
  my_getcwd_room :
      (alloc : Bool) (k : K) (buf_null : Bool) (size n : ℕ) (p p' : Place) (dir : Text)
      → length p.updated_dir < max_path
      → my_getcwd real_getcwd alloc k buf_null size p ≡ some (in_block n dir, p')
      → (length dir < n) × (dir ≡ p.updated_dir) × (p' ≡ p)
  unfolding my_getcwd
  my_getcwd_room alloc k buf_null size n p p' dir small e = ground arith
