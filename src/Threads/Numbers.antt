-- ===== src/Threads/Numbers.antt =====
-- What every reachable state has: one owner of the mutex, counters that lose no update, and a number
-- of its own for each call in progress.
use native.Mathlib.Decide.{ℕ_discrete}
use ooops.Prelude.{
  ℕ, ◌+◌, ◌%◌, ◌^◌, ◌≤◌, ◌<◌, ◌≡◌, ◌≢◌, refl, Bool, true, false, Option, none, some, update, arith,
}
use ooops.Throttle.{max_rec}
use ooops.Threads.{
  Shared, Pc, Move, System, Step, Reach, init, idle, locked, loaded, stored, counted, stamped,
  napping, nap_loaded, nap_stored, woken, lock, lock_nap, pick, start, later,
}

-- Between a lock and the unlock that follows.
abbrev pub holds : Pc → Bool
holds idle = false
holds locked = true
holds (loaded n) = true
holds (stored n m) = true
holds (counted n m) = false
holds (stamped n m) = false
holds (napping n m) = true
holds (nap_loaded n m k) = true
holds (nap_stored n m) = true
holds (woken n m) = false

-- The true number of a call that has been counted.
abbrev pub number : Pc → Option ℕ
number idle = none
number locked = none
number (loaded n) = none
number (stored n m) = some m
number (counted n m) = some m
number (stamped n m) = some m
number (napping n m) = some m
number (nap_loaded n m k) = some m
number (nap_stored n m) = some m
number (woken n m) = some m

-- What a thread has read is still so, and its local number is the low half of the true one.
abbrev pub IsFresh : Shared → Pc → Type 0
IsFresh s idle = Unit
IsFresh s locked = Unit
IsFresh s (loaded n) = n ≡ s.count
IsFresh s (stored n m) = n ≡ m % 2 ^ 32
IsFresh s (counted n m) = n ≡ m % 2 ^ 32
IsFresh s (stamped n m) = n ≡ m % 2 ^ 32
IsFresh s (napping n m) = n ≡ m % 2 ^ 32
IsFresh s (nap_loaded n m k) = (n ≡ m % 2 ^ 32) × (k ≡ s.delayed)
IsFresh s (nap_stored n m) = n ≡ m % 2 ^ 32
IsFresh s (woken n m) = n ≡ m % 2 ^ 32

pub record Inv (s : Shared) (pc : ℕ → Pc) : Type 0 where
  pub owned : (i : ℕ) → holds (pc i) ≡ true → s.owner ≡ some i
  pub held : (i : ℕ) → s.owner ≡ some i → holds (pc i) ≡ true
  pub issued : s.count ≡ s.issued % 2 ^ 32
  pub naps : s.delayed ≡ s.naps % 2 ^ 32
  pub fresh : (i : ℕ) → IsFresh s (pc i)
  pub below : (i m : ℕ) → number (pc i) ≡ some m → m < s.issued
  pub distinct : (i j m : ℕ) → number (pc i) ≡ some m → number (pc j) ≡ some m → i ≡ j

Inv-init : Inv init.mem init.pc
Inv-init = record {
  owned = λ i h. cc;
  held = λ i h. cc;
  issued = omega arith;
  naps = omega arith;
  fresh = λ i. tt;
  below = λ i m h. absurd (cc);
  distinct = λ i j m h g. cc;
}

-- The premise of a move, for the catch-all clauses below, which cannot name it.
abbrev Guard : {i : ℕ} {s t : Shared} {p p' : Pc} → Move i s p t p' → Type 0
Guard {s} (lock o) = s.owner ≡ none
Guard {s} (lock_nap o) = s.owner ≡ none
Guard mv = Unit

guard : {i : ℕ} {s t : Shared} {p p' : Pc} (mv : Move i s p t p') → Guard mv
guard (lock o) = o
guard (lock_nap o) = o
guard mv = tt

module _ {s : Shared} {pc : ℕ → Pc} (inv : Inv s pc) (i : ℕ) where
  open inv use {owned, held, fresh, below, distinct}

  Move-counts :
      {t : Shared} {p p' : Pc}
      → Move i s p t p'
      → IsFresh s p
      → (t.count ≡ t.issued % 2 ^ 32) × (t.delayed ≡ t.naps % 2 ^ 32)
  Move-counts (lock o) f = (inv.issued, inv.naps)
  Move-counts mv f = ground (arith, inv.issued, inv.naps)

  Move-owned :
      {t : Shared} {p p' : Pc}
      → Move i s p t p'
      → pc i ≡ p
      → (j : ℕ) → holds (update pc i p' j) ≡ true
      → t.owner ≡ some j
  Move-owned (lock o) e j h = ground (arith, owned j, owned i)
  Move-owned mv e j h = ground (arith, guard mv, owned j, owned i)

  Move-held :
      {t : Shared} {p p' : Pc}
      → Move i s p t p'
      → pc i ≡ p
      → (j : ℕ) → t.owner ≡ some j
      → holds (update pc i p' j) ≡ true
  Move-held (lock o) e j h = ground (arith, held j, owned i)
  Move-held mv e j h = ground (arith, guard mv, held j, owned i)

  Move-IsFresh :
      {t : Shared} {p p' : Pc} → Move i s p t p' → pc i ≡ p → (j : ℕ) → IsFresh t (update pc i p' j)
  Move-IsFresh (lock o) e j = ground (arith, fresh j)
  Move-IsFresh mv e j = ground (arith, guard mv, inv.issued, fresh j, owned j, owned i)

  Move-below :
      {t : Shared} {p p' : Pc}
      → Move i s p t p'
      → pc i ≡ p
      → (j m : ℕ) → number (update pc i p' j) ≡ some m
      → m < t.issued
  Move-below (lock o) e j m h = ground (arith, below j m)
  Move-below mv e j m h = ground (arith, guard mv, below j m, below i m)

  Move-distinct :
      {t : Shared} {p p' : Pc}
      → Move i s p t p'
      → pc i ≡ p
      → (a b m : ℕ) → number (update pc i p' a) ≡ some m
      → number (update pc i p' b) ≡ some m
      → a ≡ b
  Move-distinct (lock o) e a b m h g = ground (arith, distinct a b m)
  Move-distinct mv e a b m h g = ground (arith, guard mv, distinct a b m, below a m, below b m)

  pub Move-Inv : {t : Shared} {p' : Pc} → Move i s (pc i) t p' → Inv t (update pc i p')
  Move-Inv mv = record {
    owned = Move-owned mv refl;
    held = Move-held mv refl;
    issued = (Move-counts mv (fresh i)).0;
    naps = (Move-counts mv (fresh i)).1;
    fresh = Move-IsFresh mv refl;
    below = Move-below mv refl;
    distinct = Move-distinct mv refl;
  }

pub Step-Inv : {threads : ℕ} {s t : System} → Step threads s t → Inv s.mem s.pc → Inv t.mem t.pc
Step-Inv (pick i lt mv) inv = Move-Inv inv i mv

pub Reach-Inv : {threads : ℕ} {s : System} → Reach threads s → Inv s.mem s.pc
Reach-Inv start = Inv-init
Reach-Inv (later r st) = Step-Inv st (Reach-Inv r)

-- The local variable `nCall_New` of a thread whose call has been counted.
abbrev pub local_number : Pc → Option ℕ
local_number idle = none
local_number locked = none
local_number (loaded n) = none
local_number (stored n m) = some n
local_number (counted n m) = some n
local_number (stamped n m) = some n
local_number (napping n m) = some n
local_number (nap_loaded n m k) = some n
local_number (nap_stored n m) = some n
local_number (woken n m) = some n

local_number-IsFresh :
    (s : Shared) (p : Pc)
    → IsFresh s p
    → (n m : ℕ) → local_number p ≡ some n
    → number p ≡ some m
    → n ≡ m % 2 ^ 32
local_number-IsFresh s idle f n m h g = absurd (cc)
local_number-IsFresh s p f n m h g = ground arith

-- In every reachable state no call and no nap is lost from the counters: the shared counter is the
-- number of calls counted so far, modulo 2^32, and the counter of delayed calls the number of
-- naps; and no two threads are between a lock and its unlock.
pub calls_counted :
    (threads : ℕ) (s : System)
    → Reach threads s
    → (s.mem.count ≡ s.mem.issued % 2 ^ 32)
      × (s.mem.delayed ≡ s.mem.naps % 2 ^ 32)
      × ((i j : ℕ) → holds (s.pc i) ≡ true → holds (s.pc j) ≡ true → i ≡ j)
calls_counted threads s r =
    (inv.issued, inv.naps, λ i j h g. grind (arith, inv.owned i h, inv.owned j g))
  where
    inv : Inv s.mem s.pc
    inv = Reach-Inv r

-- In every reachable state, of two different threads whose calls have been counted and are both
-- among the last 512 calls, the numbers that they hold select different places of the ring, so
-- that neither writes over the stamp of the other.
pub slots_distinct :
    (threads : ℕ) (s : System)
    → Reach threads s
    → (i j a b n k : ℕ) → i ≢ j
    → number (s.pc i) ≡ some a
    → number (s.pc j) ≡ some b
    → local_number (s.pc i) ≡ some n
    → local_number (s.pc j) ≡ some k
    → s.mem.issued ≤ a + max_rec
    → s.mem.issued ≤ b + max_rec
    → n % max_rec ≢ k % max_rec
slots_distinct threads s r i j a b n k ne ha hb hn hk la lb = elim (ℕ_discrete a b) [
  | yes e ↦ absurd (ne (inv.distinct i j a ha (cc)))
  | no d ↦ omega (
    arith,
    inv.below i a ha,
    inv.below j b hb,
    local_number-IsFresh s.mem (s.pc i) (inv.fresh i) n a hn ha,
    local_number-IsFresh s.mem (s.pc j) (inv.fresh j) k b hk hb,
  )
]
  where
    inv : Inv s.mem s.pc
    inv = Reach-Inv r
