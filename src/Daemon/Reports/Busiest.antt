-- ===== src/Daemon/Reports/Busiest.antt =====
-- The file system that is chosen has the highest count of all.
use ooops.Prelude.{
  ℕ, zero, suc, ◌+◌, ◌≡◌, ◌≤◌, ◌<◌, refl, sym, ap, ◌∙◌, subst, ◌⊎◌, inl, inr, ◌&&◌, Option, none,
  some, List, [], ◌∷◌, map, ltb, leb, if◌then◌else◌, get_or, get_elem?, max, Bool-cases, arith,
}
use ooops.Floats.{Floats}
use ooops.Daemon.Reports.{Log, last_counts, peak, Top, raise_count, zero_rate, scan_logs, high_io}

module _ (fl : Floats) where
  -- Each log has a row, and its last one has these counts.
  abbrev pub AllCounted : List (Log fl) → List (ℕ × ℕ) → Type 0
  AllCounted [] [] = Unit {0}
  AllCounted [] (c ∷ cs) = ⊥
  AllCounted (l ∷ ls) [] = ⊥
  AllCounted (l ∷ ls) (c ∷ cs) = (last_counts fl l none ≡ some c) × AllCounted ls cs

  abbrev pub highest : ℕ × ℕ → ℕ
  highest (a, b) = max a b

  -- A log with a row does not use the counts before it.
  last_counts_any :
      (l : Log fl) (last : Option (ℕ × ℕ)) (c : ℕ × ℕ)
      → last_counts fl l none ≡ some c
      → last_counts fl l last ≡ some c
  unfolding last_counts
  last_counts_any [] last c h = absurd (cc)
  last_counts_any (none ∷ ls) last c h = last_counts_any ls last c h
  last_counts_any (some r ∷ ls) last c h = h

  abbrev step : ℕ → ℕ × ℕ → Top fl → Top fl
  step i (a, b) t = raise_count fl i b (raise_count fl i a t)

  -- What the tops of the logs from i on come to.
  abbrev tops : ℕ → List (ℕ × ℕ) → Top fl → Top fl
  tops i [] t = t
  tops i (c ∷ cs) t = tops (suc i) cs (step i c t)

  scan_logs-tops :
      (i : ℕ) (logs : List (Log fl)) (cs : List (ℕ × ℕ)) (last : Option (ℕ × ℕ)) (t : Top fl)
      → AllCounted logs cs
      → scan_logs fl i (map some logs) last t
        ≡ some (tops i cs t, map (λ l. peak fl l (zero_rate fl)) logs)
  unfolding scan_logs
  scan_logs-tops i [] [] last t h = refl
  scan_logs-tops i [] (c ∷ cs) last t h = absurd h
  scan_logs-tops i (l ∷ ls) [] last t h = absurd h
  scan_logs-tops i (l ∷ ls) (c ∷ cs) last t h =
      rw
        (
          scan_logs,
          last_counts_any l last c h.0,
          scan_logs-tops (suc i) ls cs (some c) (step i c t) h.1,
        )
        refl

  tops_above : (i : ℕ) (cs : List (ℕ × ℕ)) (t : Top fl) → t.n_count_max ≤ (tops i cs t).n_count_max
  tops_above i [] t = omega arith
  tops_above i (c ∷ cs) t = ground (arith, tops_above (suc i) cs (step i c t))

  step_bound : (i : ℕ) (c : ℕ × ℕ) (t : Top fl) → highest c ≤ (step i c t).n_count_max
  step_bound i (a, b) t = ground arith

  -- A step keeps the top, or makes this file system the top.
  step_cases :
      (i : ℕ) (c : ℕ × ℕ) (t : Top fl)
      → (step i c t ≡ t)
        ⊎ (((step i c t).idx_fs_high_io ≡ i) × (highest c ≡ (step i c t).n_count_max))
  step_cases i (a, b) t = elim (Bool-cases (ltb t.n_count_max a)) [
    | inl up ↦ elim (Bool-cases (ltb a b)) [
      | inl more ↦ inr (rw (up, more) (refl, ground arith))
      | inr less ↦ inr (rw (up, less) (refl, ground arith))
    ]
    | inr down ↦ elim (Bool-cases (ltb t.n_count_max b)) [
      | inl more ↦ inr (rw (down, more) (refl, ground arith))
      | inr less ↦ inl (rw (down, less) refl)
    ]
  ]

  tops_bound :
      (i j : ℕ) (cs : List (ℕ × ℕ)) (t : Top fl) (c : ℕ × ℕ)
      → get_elem? cs j ≡ some c
      → highest c ≤ (tops i cs t).n_count_max
  tops_bound i j [] t c h = absurd (cc)
  tops_bound i zero (x ∷ cs) t c h =
      subst (λ y. highest y ≤ (tops i (x ∷ cs) t).n_count_max) {x = x} {y = c} (cc)
        (omega (arith, step_bound i x t, tops_above (suc i) cs (step i x t)))
  tops_bound i (suc j) (x ∷ cs) t c h = tops_bound (suc i) j cs (step i x t) c h

  tops_attained :
      (i : ℕ) (cs : List (ℕ × ℕ)) (t : Top fl)
      → (tops i cs t ≡ t)
        ⊎ ((k : ℕ) × (c : ℕ × ℕ) × ((tops i cs t).idx_fs_high_io ≡ i + k)
            × (get_elem? cs k ≡ some c)
            × (highest c ≡ (tops i cs t).n_count_max))
  tops_attained i [] t = inl refl
  tops_attained i (c ∷ cs) t = elim (tops_attained (suc i) cs (step i c t)) [
    | inl same ↦ elim (step_cases i c t) [
      | inl kept ↦ inl (same ∙ kept)
      | inr (here, high) ↦ inr (
        0,
        c,
        ap (λ u. u.idx_fs_high_io) same ∙ here ∙ omega arith,
        refl,
        high ∙ ap (λ u. u.n_count_max) (sym same),
      )
    ]
    | inr (k, d, at, found, high) ↦ inr (suc k, d, omega (arith, at), found, high)
  ]

  get_or-peak :
      (k : ℕ) (logs : List (Log fl)) (l : Log fl)
      → get_elem? logs k ≡ some l
      → get_or (map (λ m. peak fl m (zero_rate fl)) logs) k (zero_rate fl)
        ≡ peak fl l (zero_rate fl)
  get_or-peak k [] l h = absurd (cc)
  get_or-peak zero (m ∷ logs) l h = let e : m ≡ l = cc in ap (λ x. peak fl x (zero_rate fl)) e
  get_or-peak (suc k) (m ∷ logs) l h = get_or-peak k logs l h

  log_at :
      (k : ℕ) (logs : List (Log fl)) (cs : List (ℕ × ℕ)) (c : ℕ × ℕ)
      → AllCounted logs cs
      → get_elem? cs k ≡ some c
      → (l : Log fl) × (get_elem? logs k ≡ some l) × (last_counts fl l none ≡ some c)
  log_at k [] [] c h e = absurd (cc)
  log_at k [] (d ∷ cs) c h e = absurd h
  log_at k (l ∷ ls) [] c h e = absurd h
  log_at zero (l ∷ ls) (d ∷ cs) c h e = let q : d ≡ c = cc in (l, refl, h.0 ∙ ap some q)
  log_at (suc k) (l ∷ ls) (d ∷ cs) c h e = log_at k ls cs c h.1 e

  -- Where every log can be opened and has a row, and a file system has calls: there is a file system
  -- k whose last counts, the higher of opens and stats, are at least those of every other; and
  -- reports are made, for this one and its count, exactly if that count reaches the threshold and
  -- the highest rate in its own log reaches the threshold of rates.
  pub high_io-busiest :
      (n_call_threshold : ℕ) (per_second : fl.Double) (logs : List (Log fl)) (cs : List (ℕ × ℕ))
      (j : ℕ) (d : ℕ × ℕ)
      → AllCounted logs cs
      → get_elem? cs j ≡ some d
      → 0 < highest d
      → (k : ℕ) × (c : ℕ × ℕ) × (l : Log fl) × (get_elem? logs k ≡ some l)
        × (last_counts fl l none ≡ some c)
        × ((i : ℕ) (e : ℕ × ℕ) → get_elem? cs i ≡ some e → highest e ≤ highest c)
        × (high_io fl n_call_threshold per_second (map some logs)
            ≡ some (
                if leb n_call_threshold (highest c) && fl.ge (peak fl l (zero_rate fl)) per_second
                then some (k, highest c)
                else none))
  unfolding high_io
  high_io-busiest n_call_threshold per_second logs cs j d h at busy =
      elim (tops_attained 0 cs start) [
        | inl same ↦
            absurd (omega (arith, tops_bound 0 j cs start d at, ap (λ u. u.n_count_max) same, busy))
        | inr (k, c, idx, found, high) ↦
            let (l, log, last) = log_at k logs cs c h found in
            let index : (tops 0 cs start).idx_fs_high_io ≡ k = omega (arith, idx) in
            let rate = ap (λ n. get_or rates n (zero_rate fl)) index ∙ get_or-peak k logs l log in
            (
              k,
              c,
              l,
              log,
              last,
              λ i e q. omega (arith, tops_bound 0 i cs start e q, high),
              rw (high_io, scan_logs-tops 0 logs cs none start h)
                  (ap some (
                    ap (λ r. decide index_of count_of r) rate
                    ∙ ap (λ n. decide n count_of (peak fl l (zero_rate fl))) index
                    ∙ ap (λ m. decide k m (peak fl l (zero_rate fl))) (sym high))),
            )
      ]
    where
      start : Top fl
      start = record { n_count_max = 0; idx_fs_high_io = 0 }

      rates : List fl.Double
      rates = map (λ m. peak fl m (zero_rate fl)) logs

      index_of : ℕ
      index_of = (tops 0 cs start).idx_fs_high_io

      count_of : ℕ
      count_of = (tops 0 cs start).n_count_max

      decide : ℕ → ℕ → fl.Double → Option (ℕ × ℕ)
      decide n m r = if leb n_call_threshold m && fl.ge r per_second then some (n, m) else none
