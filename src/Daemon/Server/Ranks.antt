-- ===== src/Daemon/Server/Ranks.antt =====
-- A client says the name of its node, gets the rank of that name in the host file, and with this
-- rank its counters come to stand in the block of its node.
use ooops.Prelude.{
  ℕ, ◌+◌, ◌<◌, ◌≡◌, ◌≢◌, refl, sym, ap, ◌∙◌, true, Option, none, some, List, [], ◌∷◌, ◌++◌,
  if◌then◌else◌, Text, ℤ, pos, negsuc, ltb, strn_eq, str_eq, length, update, append_nil,
  append_cons, arith,
}
use ooops.Config.{c_string, words}
use ooops.Config.Tokens.{IsWord, NoSpace}
use ooops.Dict.{Dict, search}
use ooops.Dict.Hosts.{last_rank}
use ooops.Daemon.{Counters}
use ooops.Daemon.Drain.{Holds, drain_client_stores}
use ooops.Daemon.Server.{
  Server, connected, data_of, tag_node_name, first_word, node_name, rank_of, accept_client, drain,
}

-- A name without NUL.
abbrev pub NoNul : Text → Type 0
NoNul [] = Unit {0}
NoNul (c ∷ cs) = (c ≢ 0) × NoNul cs

c_string-NoNul : (xs : Text) → NoNul xs → c_string xs ≡ xs
unfolding c_string
c_string-NoNul [] h = refl
c_string-NoNul (x ∷ xs) h = rw (c_string-NoNul xs h.1) (ground arith)

words_last : (w : ℕ) (ws cs : Text) → NoSpace cs → words (w ∷ ws) cs ≡ (w ∷ ws ++ cs) ∷ []
unfolding words
words_last w ws [] h = ap (λ t. (w ∷ t) ∷ []) (sym (append_nil ws))
words_last w ws (c ∷ cs) h =
    rw h.0 (words_last w (ws ++ c ∷ []) cs h.1 ∙ ap (λ t. (w ∷ t) ∷ []) (append_cons ws c cs))

words_one : (name : Text) → IsWord name → words [] name ≡ name ∷ []
unfolding words
words_one [] h = absurd h
words_one (c ∷ cs) h = rw h.0 (words_last c [] cs h.1)

node_name-tag : (name : Text) → IsWord name → node_name (tag_node_name ++ name) ≡ name
unfolding node_name
node_name-tag name word = ap first_word (words_one name word)

-- The rank that is sent for a name.
abbrev pub sent : Option ℕ → ℤ
sent none = negsuc 0
sent (some k) = pos k

abbrev pub greeting : Text → Text
greeting name = tag_node_name ++ name

rank_of-greeting :
    (hash : Text → ℕ) (table : Dict) (name : Text)
    → IsWord name
    → rank_of hash table (greeting name) ≡ sent (search hash table name)
unfolding rank_of strn_eq
rank_of-greeting hash table name word =
    ap (λ t. elim (search hash table t) [ some k ↦ pos k | none ↦ negsuc 0 ])
      (node_name-tag name word)
    ∙ by_search (search hash table name)
  where
    by_search : (o : Option ℕ) → (elim o [ some k ↦ pos k | none ↦ negsuc 0 ]) ≡ sent o
    by_search none = refl
    by_search (some k) = refl

c_string-greeting : (name : Text) → NoNul name → c_string (greeting name) ≡ greeting name
c_string-greeting name h = c_string-NoNul (greeting name) (ground arith)

unfoldable pub added : Server → ℕ → Server
added s fd = record s {
  fds = s.fds ++ fd ∷ [];
  watched = update s.watched fd true;
  opened = update s.opened fd true;
}

pub accept_client-greeting :
    (hash : Text → ℕ) (table : Dict) (s : Server) (fd : ℕ) (name : Text)
    → IsWord name
    → NoNul name
    → length name < 122
    → accept_client hash table s (connected fd (some (greeting name)) true)
      ≡ some (added s fd, some (sent (search hash table name)))
unfolding accept_client added
accept_client-greeting hash table s fd name word nul short =
    rw (accept_client, fits)
      (ap (λ r. some (added s fd, some r))
        (ap (rank_of hash table) (c_string-greeting name nul)
          ∙ rank_of-greeting hash table name word))
  where
    fits : ltb (length (greeting name)) 128 ≡ true
    fits = ground (arith, short)

pub drain-data :
    (s : Server) (fd k : ℕ) (counter : Counters)
    → 0 < k
    → k < s.daemon.gsize
    → (t : Server) × (drain s fd (data_of (record { rank = pos k; counter = counter })) ≡ some t)
      × Holds t.daemon.p_ooops_data_list k counter
      × (t.daemon.gsize ≡ s.daemon.gsize)
      × (t.fds ≡ s.fds)
unfolding drain
drain-data s fd k counter h lt =
    let (d, e, counted, nodes, holds, others, round) =
      drain_client_stores s.daemon k counter h lt in
    (record s { daemon = d }, rw (drain, e) refl, holds, nodes, refl)

pub last_rank-lt :
    (key : Text) (names : List Text) (i k : ℕ) (found : Option ℕ)
    → (found ≡ some k → k < i + length names)
    → last_rank key names i found ≡ some k
    → k < i + length names
last_rank-lt key [] i k found h e = h e
last_rank-lt key (x ∷ xs) i k found h e = omega (
  arith,
  last_rank-lt key xs (i + 1) k (if str_eq x key then some i else found) (λ q. ground (arith, h)) e,
)
