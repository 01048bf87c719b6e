-- ===== src/Daemon/Server/Descriptors.antt =====
-- No descriptor of a client is lost, and none is closed twice.
use ooops.Prelude.{
  ℕ, zero, suc, ◌≡◌, ◌≢◌, ◌<◌, refl, subst, ℤ, pos, negsuc, length, ltb, leb, Bool, true, false,
  ◌||◌, Option, none, some, List, [], ◌∷◌, ◌++◌, ◌==◌, if◌then◌else◌, Text, update, Bool-cases, inl,
  inr, ◌+◌, ◌-◌, ◌%◌, arith,
}
use ooops.Dict.{Dict}
use ooops.Daemon.{Daemon, Counters, copy_block, submit, drain_client, take_data}
use ooops.Dict.Chains.{Fresh, Distinct}
use ooops.Daemon.Server.{
  Server, refused, connected, closed, data_of, other, Event, new_client, readable, alarm,
  signal_unread, erase, accept_client, drain, handle, serve, close_all, shut_down,
}

abbrev pub member : List ℕ → ℕ → Bool
member [] x = false
member (y ∷ ys) x = x == y || member ys x

-- The list holds each client once, and those that are open and watched.
pub record Inv (s : Server) : Type 0 where
  pub distinct : Distinct s.fds
  pub watched : (x : ℕ) → s.watched x ≡ member s.fds x
  pub opened : (x : ℕ) → s.opened x ≡ member s.fds x

-- A message of a node of the job: of a rank that is not negative, and less than the number of nodes.
abbrev pub Sound : ℕ → ℤ → Type 0
Sound gsize (pos zero) = Unit {0}
Sound gsize (pos (suc k)) = suc k < gsize
Sound gsize (negsuc k) = ⊥

-- What the kernel reports: a new descriptor is one that is not open, and a client that is readable
-- is watched. The first message of a client is read, and is shorter than the buffer.
abbrev pub Possible : Server → Event → Type 0
Possible s (new_client refused) = Unit {0}
Possible s (new_client (connected fd none added)) = ⊥
Possible s (new_client (connected fd (some message) added)) =
    (s.opened fd ≡ false) × (length message < 128)
Possible s (readable fd closed) = s.watched fd ≡ true
Possible s (readable fd (data_of m)) = (s.watched fd ≡ true) × Sound s.daemon.gsize m.rank
Possible s (readable fd other) = s.watched fd ≡ true
Possible s alarm = Unit {0}
Possible s signal_unread = Unit {0}

member-snoc : (xs : List ℕ) (fd x : ℕ) → member (xs ++ fd ∷ []) x ≡ (x == fd || member xs x)
member-snoc [] fd x = refl
member-snoc (y ∷ ys) fd x = ground (arith, member-snoc ys fd x)

Fresh-snoc : (i : ℕ) (xs : List ℕ) (fd : ℕ) → i ≢ fd → Fresh i xs → Fresh i (xs ++ fd ∷ [])
Fresh-snoc i [] fd ne h = (ne, tt)
Fresh-snoc i (x ∷ xs) fd ne h = (h.0, Fresh-snoc i xs fd ne h.1)

Distinct-snoc :
    (xs : List ℕ) (fd : ℕ) → member xs fd ≡ false → Distinct xs → Distinct (xs ++ fd ∷ [])
Distinct-snoc [] fd m h = (tt, tt)
Distinct-snoc (x ∷ xs) fd m h =
    (Fresh-snoc x xs fd (ground arith) h.0, Distinct-snoc xs fd (ground arith) h.1)

Fresh-member : (i : ℕ) (xs : List ℕ) → Fresh i xs → member xs i ≡ false
Fresh-member i [] h = refl
Fresh-member i (x ∷ xs) h = ground (arith, Fresh-member i xs h.1)

Fresh-erase : (i fd : ℕ) (xs : List ℕ) → Fresh i xs → Fresh i (erase fd xs)
unfolding erase
Fresh-erase i fd [] h = h
Fresh-erase i fd (x ∷ xs) h = ground (arith, Fresh-erase i fd xs h.1)

Distinct-erase : (fd : ℕ) (xs : List ℕ) → Distinct xs → Distinct (erase fd xs)
unfolding erase
Distinct-erase fd [] h = h
Distinct-erase fd (x ∷ xs) h = ground (arith, Distinct-erase fd xs h.1, Fresh-erase x fd xs h.0)

member-erase :
    (fd : ℕ) (xs : List ℕ) (x : ℕ)
    → Distinct xs
    → member (erase fd xs) x ≡ (if x == fd then false else member xs x)
unfolding erase
member-erase fd [] x h = ground arith
member-erase fd (y ∷ ys) x h = ground (arith, member-erase fd ys x h.1, Fresh-member y ys h.0)

drain_client-total :
    (d : Daemon) (rank : ℤ) (counter : Counters)
    → Sound d.gsize rank
    → (d' : Daemon) × (drain_client d (record { rank = rank; counter = counter }) ≡ some d')
unfolding drain_client take_data
drain_client-total d (pos zero) counter h = (d, refl)
drain_client-total d (pos (suc k)) counter h = elim (Bool-cases (d.gsize == 1)) [
  | inl one ↦ absurd (let same : d.gsize ≡ 1 = ground arith in omega (arith, h, same))
  | inr more ↦ elim (Bool-cases ((d.n_data_count + 1) % (d.gsize - 1) == 0)) [
    | inl round ↦ (submit stored, rw (drain_client, take_data, within, more, round) refl)
    | inr partial ↦ (stored, rw (drain_client, take_data, within, more, partial) refl)
  ]
]
  where
    within : leb d.gsize (suc k) ≡ false
    within = ground arith

    stored : Daemon
    stored = record d {
      p_ooops_data_list = copy_block d.p_ooops_data_list (suc k) counter;
      n_data_count = d.n_data_count + 1;
    }
drain_client-total d (negsuc k) counter h = absurd h

short : (message : Text) → length message < 128 → ltb (length message) 128 ≡ true
short message h = ground arith

module _ (hash : Text → ℕ) (table : Dict) where
  handle-Inv :
      (s : Server) (e : Event)
      → Inv s
      → Possible s e
      → (t : Server) × (handle hash table s e ≡ some t) × Inv t
  unfolding handle accept_client drain
  handle-Inv s (new_client refused) inv p = (s, refl, inv)
  handle-Inv s (new_client (connected fd none added)) inv p = absurd p
  handle-Inv s (new_client (connected fd (some message) true)) inv p = (
    record s {
      fds = s.fds ++ fd ∷ [];
      watched = update s.watched fd true;
      opened = update s.opened fd true;
    },
    rw (handle, accept_client, short message p.1) refl,
    record {
      distinct = Distinct-snoc s.fds fd (ground (arith, inv.opened fd)) inv.distinct;
      watched = λ x. ground (arith, inv.watched x, member-snoc s.fds fd x);
      opened = λ x. ground (arith, inv.opened x, member-snoc s.fds fd x);
    },
  )
  handle-Inv s (new_client (connected fd (some message) false)) inv p =
      (s, rw (handle, accept_client, short message p.1) refl, inv)
  handle-Inv s (readable fd closed) inv p = (
    _,
    refl,
    record {
      distinct = Distinct-erase fd s.fds inv.distinct;
      watched = λ x. ground (arith, inv.watched x, member-erase fd s.fds x inv.distinct);
      opened = λ x. ground (arith, inv.opened x, member-erase fd s.fds x inv.distinct);
    },
  )
  handle-Inv s (readable fd (data_of m)) inv p =
      let (d, e) = drain_client-total s.daemon m.rank m.counter p.1 in
      (
        record s { daemon = d },
        rw (handle, drain, e) refl,
        record { distinct = inv.distinct; watched = inv.watched; opened = inv.opened },
      )
  handle-Inv s (readable fd other) inv p = (s, refl, inv)
  handle-Inv s alarm inv p =
      (_, refl, record { distinct = inv.distinct; watched = inv.watched; opened = inv.opened })
  handle-Inv s signal_unread inv p = (s, refl, inv)

  -- Every event of the run is possible where it happens; what would come after an event that is not
  -- handled is not restricted.
  abbrev pub AllPossible : Server → List Event → Type 0
  AllPossible s [] = Unit {0}
  AllPossible s (e ∷ es) =
      Possible s e × (elim (handle hash table s e) [ none ↦ Unit {0} | some t ↦ AllPossible t es ])

  pub serve-Inv :
      (s : Server) (es : List Event)
      → Inv s
      → AllPossible s es
      → (t : Server) × (serve hash table s es ≡ some t) × Inv t
  unfolding serve
  serve-Inv s [] inv p = (s, refl, inv)
  serve-Inv s (e ∷ es) inv p =
      let (t, run, kept) = handle-Inv s e inv p.0 in
      let (u, rest, last) = serve-Inv t es kept (subst after run p.1) in
      (u, rw (serve, run) rest, last)
    where
      after : Option Server → Type 0
      after o = elim o [ none ↦ Unit {0} | some t ↦ AllPossible t es ]

close_all-member :
    (fds : List ℕ) (f : ℕ → Bool) (x : ℕ)
    → (f x ≡ true → member fds x ≡ true)
    → close_all fds f x ≡ false
unfolding close_all
close_all-member [] f x h = elim (Bool-cases (f x)) [
  | inl t ↦ absurd (let u = h t in cc)
  | inr e ↦ e
]
close_all-member (fd ∷ fds) f x h =
    close_all-member fds (update f fd false) x (λ t. ground (arith, h))

pub shut_down_closed :
    (s : Server) (x : ℕ)
    → Inv s
    → ((shut_down s).opened x ≡ false) × ((shut_down s).watched x ≡ false)
unfolding shut_down
shut_down_closed s x inv = (
  close_all-member s.fds s.opened x (λ e. ground (arith, inv.opened x)),
  close_all-member s.fds s.watched x (λ e. ground (arith, inv.watched x)),
)
