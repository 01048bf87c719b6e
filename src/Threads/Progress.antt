-- ===== src/Threads/Progress.antt =====
-- The owner of the mutex gives it back by steps of its own.
use native.Mathlib.Decide.{dec_lt}
use ooops.Prelude.{
  ℕ, ◌+◌, ◌≤◌, ◌<◌, ◌≡◌, ◌≢◌, refl, sym, ◌∙◌, subst, true, none, some, update, update_self,
  update_ne, arith,
}
use ooops.Threads.{
  Shared, Pc, Move, System, Step, Reach, idle, locked, loaded, stored, counted, stamped, napping,
  nap_loaded, nap_stored, woken, load, bump, unlock, load_nap, bump_nap, unlock_nap, pick, start,
  later,
}
use ooops.Threads.Numbers.{holds, Reach-Inv}

-- k steps.
pub data Run (threads : ℕ) : System → ℕ → System → Type 0 where
  stay : {s : System} → Run threads s 0 s
  next : {k : ℕ} {s t u : System} → Step threads s t → Run threads t k u → Run threads s (k + 1) u

-- The threads that do not exist never move.
Step-idle :
    {threads : ℕ} {s t : System}
    → Step threads s t
    → (i : ℕ) → threads ≤ i
    → s.pc i ≡ idle
    → t.pc i ≡ idle
Step-idle (pick j lt mv) i le e = ground arith

Reach-idle : {threads : ℕ} {s : System} → Reach threads s → (i : ℕ) → threads ≤ i → s.pc i ≡ idle
Reach-idle start i le = refl
Reach-idle (later r st) i le = Step-idle st i le (Reach-idle r i le)

-- What a run of thread i alone leaves behind: a free mutex and the other threads as they were.
pub record Released (threads : ℕ) (s : System) (i most : ℕ) : Type 0 where
  pub steps : ℕ
  pub after : System
  pub few : steps ≤ most
  pub run : Run threads s steps after
  pub free : after.mem.owner ≡ none
  pub others : (j : ℕ) → j ≢ i → after.pc j ≡ s.pc j

module _ {threads : ℕ} (i : ℕ) (lt : i < threads) where
  release-next :
      {s : System} {q p : Pc} {m : Shared} {most : ℕ}
      → s.pc i ≡ q
      → Move i s.mem q m p
      → Released threads (record { mem = m; pc = update s.pc i p }) i most
      → Released threads s i (most + 1)
  release-next {s} {q} {p} {m} e mv rel = record {
    steps = rel.steps + 1;
    after = rel.after;
    few = omega (arith, rel.few);
    run =
        next (pick i lt (subst (λ x. Move i s.mem x m p) {x = q} {y = s.pc i} (sym e) mv)) rel.run;
    free = rel.free;
    others = λ j ne. rel.others j ne ∙ update_ne s.pc i j p ne;
  }

  release-stay : (s : System) → s.mem.owner ≡ none → Released threads s i 0
  release-stay s e = record {
    steps = 0;
    after = s;
    few = omega arith;
    run = stay;
    free = e;
    others = λ j ne. refl;
  }

  release-stored : (s : System) (n m : ℕ) → s.pc i ≡ stored n m → Released threads s i 1
  release-stored s n m e = release-next e unlock (release-stay _ refl)

  release-loaded : (s : System) (n : ℕ) → s.pc i ≡ loaded n → Released threads s i 2
  release-loaded s n e = release-next e bump (release-stored _ _ _ (update_self s.pc i _))

  release-locked : (s : System) → s.pc i ≡ locked → Released threads s i 3
  release-locked s e = release-next e load (release-loaded _ _ (update_self s.pc i _))

  release-nap_stored : (s : System) (n m : ℕ) → s.pc i ≡ nap_stored n m → Released threads s i 1
  release-nap_stored s n m e = release-next e unlock_nap (release-stay _ refl)

  release-nap_loaded : (s : System) (n m k : ℕ) → s.pc i ≡ nap_loaded n m k → Released threads s i 2
  release-nap_loaded s n m k e =
      release-next e bump_nap (release-nap_stored _ _ _ (update_self s.pc i _))

  release-napping : (s : System) (n m : ℕ) → s.pc i ≡ napping n m → Released threads s i 3
  release-napping s n m e =
      release-next e load_nap (release-nap_loaded _ _ _ _ (update_self s.pc i _))

  release_more : {s : System} {a b : ℕ} → a ≤ b → Released threads s i a → Released threads s i b
  release_more le rel = record {
    steps = rel.steps;
    after = rel.after;
    few = omega (arith, rel.few);
    run = rel.run;
    free = rel.free;
    others = rel.others;
  }

  release_mutex : (s : System) (q : Pc) → s.pc i ≡ q → holds q ≡ true → Released threads s i 3
  release_mutex s locked e h = release-locked s e
  release_mutex s (loaded n) e h = release_more (omega arith) (release-loaded s n e)
  release_mutex s (stored n m) e h = release_more (omega arith) (release-stored s n m e)
  release_mutex s (napping n m) e h = release-napping s n m e
  release_mutex s (nap_loaded n m k) e h = release_more (omega arith) (release-nap_loaded s n m k e)
  release_mutex s (nap_stored n m) e h = release_more (omega arith) (release-nap_stored s n m e)
  release_mutex s idle e h = absurd (cc)
  release_mutex s (counted n m) e h = absurd (cc)
  release_mutex s (stamped n m) e h = absurd (cc)
  release_mutex s (woken n m) e h = absurd (cc)

owner_exists :
    {threads : ℕ} {s : System} (i : ℕ) → Reach threads s → holds (s.pc i) ≡ true → i < threads
owner_exists {threads} {s} i r h = elim (dec_lt i threads) [
  | yes lt ↦ lt
  | no ge ↦ absurd (idle_free (Reach-idle r i (omega arith)))
]
  where
    idle_free : ¬ (s.pc i ≡ idle)
    idle_free e = cc

-- From every reachable state in which a thread owns the mutex, a run of at most three steps frees
-- the mutex and leaves every other thread where it stood.
pub Reach-Released :
    (threads : ℕ) (s : System)
    → Reach threads s
    → (i : ℕ) → s.mem.owner ≡ some i
    → Released threads s i 3
Reach-Released threads s r i o = release_mutex i (owner_exists i r h) s (s.pc i) refl h
  where
    h : holds (s.pc i) ≡ true
    h = (Reach-Inv r).held i o
