-- ===== src/Params/Setup/Agree.antt =====
-- The processes that run have one set of parameters, whoever made the page.
use ooops.Prelude.{
  ℕ, zero, suc, replicate, [], ◌≤◌, ◌≡◌, ◌≢◌, refl, sym, subst, true, Text, inl, inr, take, arith,
}
use ooops.Floats.{Floats}
use ooops.FileServer.{scan, tracked}
use ooops.State.{State}
use ooops.Params.Share.{FilledTo, EmptyFrom, Sized, update-publish}
use ooops.Params.Setup.{stopped, running, blank_page, World, Reach}
use ooops.Params.Setup.Phases.{IsTaken}
use ooops.Params.Setup.Kept.{Reach-running, Reach-not_stopped}

module _ (fl : Floats) where
  -- Both are active, with the same limits for the same number of file systems and the same
  -- frequency, and assign each path to the same file system.
  pub record Same (n : ℕ) (s r : State fl) : Type 0 where
    pub active : r.active ≡ true
    pub servers : r.place.n_fs_server ≡ n
    pub limits : take n r.limits ≡ take n s.limits
    pub freq : r.freq ≡ s.freq
    pub paths : (name : Text) → scan name (tracked r.place) 0 ≡ scan name (tracked s.place) 0

  -- At most 8 file systems, with a tag each, and arrays of 8 entries or more.
  pub record Configured (s : State fl) : Type 0 where
    pub few : s.place.n_fs_server ≤ 8
    pub filled : FilledTo s.place.n_fs_server s.place.tags
    pub arrays : Sized fl 8 s

  Sized_less : (n : ℕ) (s : State fl) → n ≤ 8 → Sized fl 8 s → Sized fl n s
  Sized_less n s h z = record { tags = omega (arith, z.tags); limits = omega (arith, z.limits) }

  replicate_empty : (n m : ℕ) → EmptyFrom n (replicate m (record { name = []; len = 0 }))
  replicate_empty n zero = tt
  replicate_empty zero (suc m) = (refl, replicate_empty zero m)
  replicate_empty (suc n) (suc m) = replicate_empty n m

  module _ (tsc : ℕ → ℕ) (config before : ℕ → State fl) (good : (i : ℕ) → Configured (config i))
      (arrays : (i : ℕ) → Sized fl 8 (before i)) where
    IsTaken-Same :
        (k : ℕ) (s : State fl)
        → IsTaken fl tsc config before k s
        → Same (config k).place.n_fs_server (config k) s
    IsTaken-Same k s (inl e) =
        subst (Same (config k).place.n_fs_server (config k)) (sym e) (record {
          active = refl;
          servers = refl;
          limits = refl;
          freq = refl;
          paths = λ name. refl;
        })
    IsTaken-Same k s (inr (i, e)) =
        let c = good k in
        let (active, servers, limits, freq, updated, paths) =
          update-publish fl (tsc k) (config k) (before i) (blank_page fl) c.filled
            (replicate_empty (config k).place.n_fs_server 8) c.few c.few
            (Sized_less _ (config k) c.few c.arrays) (Sized_less _ (before i) c.few (arrays i)) in
        subst (Same (config k).place.n_fs_server (config k)) (sym e) (record {
          active = active;
          servers = servers;
          limits = limits;
          freq = freq;
          paths = paths;
        })

    -- Processes of a user start in any order and at any speed. None ends because the page cannot be
    -- opened; and there is one process that has made the page, if any process runs, such that each
    -- one that runs is active, has the limits and the frequency of that process's configuration, and
    -- assigns each path to the file system to which that configuration assigns it.
    pub Reach-Same :
        (w : World fl)
        → Reach fl tsc config before w
        → ((i : ℕ) → w.pc i ≢ stopped)
          × ((i : ℕ)
              → w.pc i ≡ running
              → (k : ℕ) × ((j : ℕ)
                  → w.pc j ≡ running
                  → Same (config k).place.n_fs_server (config k) (w.state j)))
    Reach-Same w r = (
      λ i. Reach-not_stopped fl tsc config before i r,
      λ i e.
          let (k, (g, z, page, all, taken)) = Reach-running fl tsc config before i r e in
          (k, λ j f. IsTaken-Same k (w.state j) (taken j f)),
    )
