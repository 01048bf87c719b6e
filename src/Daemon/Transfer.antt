-- ===== src/Daemon/Transfer.antt =====
-- src/server.c: `read_all` and `write_all`, which repeat a system call until all bytes are moved.
-- What the calls return, one after the other, is a list; a result of `none` waits for more of it.
use ooops.Prelude.{
  ℕ, zero, suc, ◌+◌, ◌-◌, ◌<◌, ◌≡◌, refl, ◌∙◌, ap, Option, none, some, List, [], ◌∷◌, ◌++◌, arith,
}

-- What `read` or `write` returns: bytes moved, 0, or -1 with `EINTR`, `ENOSPC` or another error.
pub data Ret : Type 0 where
  moved : ℕ → Ret
  ended : Ret
  interrupted : Ret
  no_space : Ret
  failed : Ret

-- The result of `write_all`: a number of bytes, or `OUT_OF_SPACE`.
pub data Written : Type 0 where
  written : ℕ → Written
  out_of_space : Written

unfoldable pub read_all : List Ret → ℕ → ℕ → Option ℕ
read_all rets zero n_bytes = some n_bytes
read_all [] (suc c) n_bytes = none
read_all (Ret.moved n ∷ rets) (suc c) n_bytes = read_all rets (suc c - n) (n_bytes + n)
read_all (Ret.ended ∷ rets) (suc c) n_bytes = some n_bytes
read_all (Ret.interrupted ∷ rets) (suc c) n_bytes = read_all rets (suc c) n_bytes
read_all (Ret.no_space ∷ rets) (suc c) n_bytes = some n_bytes
read_all (Ret.failed ∷ rets) (suc c) n_bytes = some n_bytes

unfoldable pub write_all : List Ret → ℕ → ℕ → Option Written
write_all rets zero n_bytes = some (Written.written n_bytes)
write_all [] (suc c) n_bytes = none
write_all (Ret.moved n ∷ rets) (suc c) n_bytes = write_all rets (suc c - n) (n_bytes + n)
write_all (Ret.ended ∷ rets) (suc c) n_bytes = some (Written.written n_bytes)
write_all (Ret.interrupted ∷ rets) (suc c) n_bytes = write_all rets (suc c) n_bytes
write_all (Ret.no_space ∷ rets) (suc c) n_bytes = some Written.out_of_space
write_all (Ret.failed ∷ rets) (suc c) n_bytes = some (Written.written n_bytes)

-- Calls that move bytes or are interrupted.
abbrev pub IsSteady : List Ret → Type 0
IsSteady [] = Unit {0}
IsSteady (Ret.moved n ∷ rets) = IsSteady rets
IsSteady (Ret.ended ∷ rets) = ⊥
IsSteady (Ret.interrupted ∷ rets) = IsSteady rets
IsSteady (Ret.no_space ∷ rets) = ⊥
IsSteady (Ret.failed ∷ rets) = ⊥

abbrev pub bytes : List Ret → ℕ
bytes [] = 0
bytes (Ret.moved n ∷ rets) = n + bytes rets
bytes (Ret.ended ∷ rets) = bytes rets
bytes (Ret.interrupted ∷ rets) = bytes rets
bytes (Ret.no_space ∷ rets) = bytes rets
bytes (Ret.failed ∷ rets) = bytes rets

-- The calls before the last one that is made: moved bytes and interruptions, fewer bytes than were
-- asked for.
skip_read :
    (pre rest : List Ret) (count n : ℕ)
    → IsSteady pre
    → bytes pre < count
    → read_all (pre ++ rest) count n ≡ read_all rest (count - bytes pre) (n + bytes pre)
unfolding read_all
skip_read [] rest count n s h =
    let e : count - 0 ≡ count = omega arith in let f : n + 0 ≡ n = omega arith in rw (e, f) refl
skip_read (r ∷ pre) rest zero n s h = absurd (omega arith)
skip_read (Ret.moved k ∷ pre) rest (suc c) n s h =
    let e : suc c - k - bytes pre ≡ suc c - (k + bytes pre) = omega arith in
    let f : n + k + bytes pre ≡ n + (k + bytes pre) = omega arith in
    skip_read pre rest (suc c - k) (n + k) s (omega arith) ∙ rw (e, f) refl
skip_read (Ret.ended ∷ pre) rest (suc c) n s h = absurd s
skip_read (Ret.interrupted ∷ pre) rest (suc c) n s h = skip_read pre rest (suc c) n s h
skip_read (Ret.no_space ∷ pre) rest (suc c) n s h = absurd s
skip_read (Ret.failed ∷ pre) rest (suc c) n s h = absurd s

skip_write :
    (pre rest : List Ret) (count n : ℕ)
    → IsSteady pre
    → bytes pre < count
    → write_all (pre ++ rest) count n ≡ write_all rest (count - bytes pre) (n + bytes pre)
unfolding write_all
skip_write [] rest count n s h =
    let e : count - 0 ≡ count = omega arith in let f : n + 0 ≡ n = omega arith in rw (e, f) refl
skip_write (r ∷ pre) rest zero n s h = absurd (omega arith)
skip_write (Ret.moved k ∷ pre) rest (suc c) n s h =
    let e : suc c - k - bytes pre ≡ suc c - (k + bytes pre) = omega arith in
    let f : n + k + bytes pre ≡ n + (k + bytes pre) = omega arith in
    skip_write pre rest (suc c - k) (n + k) s (omega arith) ∙ rw (e, f) refl
skip_write (Ret.ended ∷ pre) rest (suc c) n s h = absurd s
skip_write (Ret.interrupted ∷ pre) rest (suc c) n s h = skip_write pre rest (suc c) n s h
skip_write (Ret.no_space ∷ pre) rest (suc c) n s h = absurd s
skip_write (Ret.failed ∷ pre) rest (suc c) n s h = absurd s

last_read :
    (b k : ℕ) (rest : List Ret)
    → 0 < k
    → read_all (Ret.moved k ∷ rest) (b + k - b) (0 + b) ≡ some (b + k)
unfolding read_all
last_read b zero rest h = absurd (omega arith)
last_read b (suc k) rest h =
    let e : b + suc k - b ≡ suc k = omega arith in
    let f : suc k - suc k ≡ 0 = omega arith in
    let g : 0 + b + suc k ≡ b + suc k = omega arith in rw (e, read_all, f, g) refl

last_write :
    (b k : ℕ) (rest : List Ret)
    → 0 < k
    → write_all (Ret.moved k ∷ rest) (b + k - b) (0 + b) ≡ some (Written.written (b + k))
unfolding write_all
last_write b zero rest h = absurd (omega arith)
last_write b (suc k) rest h =
    let e : b + suc k - b ≡ suc k = omega arith in
    let f : suc k - suc k ≡ 0 = omega arith in
    let g : 0 + b + suc k ≡ b + suc k = omega arith in rw (e, write_all, f, g) refl

stop :
    (c n : ℕ) (rest : List Ret)
    → 0 < c
    → (read_all (Ret.ended ∷ rest) c n ≡ some n)
      × (read_all (Ret.failed ∷ rest) c n ≡ some n)
      × (read_all (Ret.no_space ∷ rest) c n ≡ some n)
      × (write_all (Ret.ended ∷ rest) c n ≡ some (Written.written n))
      × (write_all (Ret.failed ∷ rest) c n ≡ some (Written.written n))
      × (write_all (Ret.no_space ∷ rest) c n ≡ some Written.out_of_space)
unfolding read_all write_all
stop zero n rest h = absurd (omega arith)
stop (suc c) n rest h = (refl, refl, refl, refl, refl, refl)

-- Calls that move some of the bytes, or are interrupted, and a call that moves the last of them:
-- `read_all` and `write_all` return the number of bytes asked for, and make no further call.
pub transfer_all_completes :
    (pre rest : List Ret) (k : ℕ)
    → IsSteady pre
    → 0 < k
    → (read_all (pre ++ (Ret.moved k ∷ rest)) (bytes pre + k) 0 ≡ some (bytes pre + k))
      × (write_all (pre ++ (Ret.moved k ∷ rest)) (bytes pre + k) 0
          ≡ some (Written.written (bytes pre + k)))
transfer_all_completes pre rest k s h = (
  skip_read pre (Ret.moved k ∷ rest) (bytes pre + k) 0 s (omega arith)
      ∙ last_read (bytes pre) k rest h,
  skip_write pre (Ret.moved k ∷ rest) (bytes pre + k) 0 s (omega arith)
      ∙ last_write (bytes pre) k rest h,
)

-- Calls that move some of the bytes, or are interrupted, and then 0 or an error: `read_all` returns
-- the number of bytes moved before, and so does `write_all`, but for a full disk, at which it
-- returns `OUT_OF_SPACE`.
pub transfer_all_stops :
    (pre rest : List Ret) (count : ℕ)
    → IsSteady pre
    → bytes pre < count
    → (read_all (pre ++ (Ret.ended ∷ rest)) count 0 ≡ some (bytes pre))
      × (read_all (pre ++ (Ret.failed ∷ rest)) count 0 ≡ some (bytes pre))
      × (read_all (pre ++ (Ret.no_space ∷ rest)) count 0 ≡ some (bytes pre))
      × (write_all (pre ++ (Ret.ended ∷ rest)) count 0 ≡ some (Written.written (bytes pre)))
      × (write_all (pre ++ (Ret.failed ∷ rest)) count 0 ≡ some (Written.written (bytes pre)))
      × (write_all (pre ++ (Ret.no_space ∷ rest)) count 0 ≡ some Written.out_of_space)
transfer_all_stops pre rest count s h = (
  read_by (Ret.ended ∷ rest) ∙ (stop (count - bytes pre) (bytes pre) rest (omega arith)).0,
  read_by (Ret.failed ∷ rest) ∙ (stop (count - bytes pre) (bytes pre) rest (omega arith)).1,
  read_by (Ret.no_space ∷ rest) ∙ (stop (count - bytes pre) (bytes pre) rest (omega arith)).2,
  write_by (Ret.ended ∷ rest) ∙ (stop (count - bytes pre) (bytes pre) rest (omega arith)).3,
  write_by (Ret.failed ∷ rest) ∙ (stop (count - bytes pre) (bytes pre) rest (omega arith)).4,
  write_by (Ret.no_space ∷ rest) ∙ (stop (count - bytes pre) (bytes pre) rest (omega arith)).5,
)
  where
    read_by :
        (rets : List Ret)
        → read_all (pre ++ rets) count 0 ≡ read_all rets (count - bytes pre) (bytes pre)
    read_by rets =
        skip_read pre rets count 0 s h ∙ ap (read_all rets (count - bytes pre)) (omega arith)

    write_by :
        (rets : List Ret)
        → write_all (pre ++ rets) count 0 ≡ write_all rets (count - bytes pre) (bytes pre)
    write_by rets =
        skip_write pre rets count 0 s h ∙ ap (write_all rets (count - bytes pre)) (omega arith)
