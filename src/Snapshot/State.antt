-- ===== src/Snapshot/State.antt =====
-- chain/bsc2/snapshot.go: the snapshot and the operations that read it.
pub mod Order
use btp2_bsc.Base.{
  ℕ, ◌+◌, ◌/◌, ◌%◌, List, [], ◌∷◌, Option, none, some, Bool, false, length, leb, ltb, ◌==◌, ◌||◌,
  if◌then◌else◌, Result, ok, panics, lookup, insert, add64, sub64, mul64, get_elem?,
}
use btp2_bsc.Chain.{VoteData}

-- A set of addresses, the Go type `map[common.Address]struct{}`: a list without repetitions.
unfoldable pub contains : ℕ → List ℕ → Bool
contains a [] = false
contains a (x ∷ xs) = x == a || contains a xs

unfoldable pub set_add : ℕ → List ℕ → List ℕ
unfolding contains
set_add a xs = if contains a xs then xs else a ∷ xs

unfoldable pub set_of : List ℕ → List ℕ → List ℕ
unfolding set_add
set_of acc [] = acc
set_of acc (v ∷ vs) = set_of (set_add v acc) vs

pub record Snapshot : Type 0 where
  pub number : ℕ
  pub hash : ℕ
  pub parent_hash : ℕ
  pub sealer : ℕ
  pub validators : List ℕ
  pub candidates : List ℕ
  pub recents : List (ℕ × ℕ)
  pub attestation : Option VoteData
  pub curr_turn_length : ℕ
  pub next_turn_length : ℕ

-- `snap.Recents[number-uint64(len(recents)-1-i)] = v` for each i; `left` counts what follows.
unfoldable pub fill_recents : ℕ → List ℕ → List (ℕ × ℕ) → List (ℕ × ℕ)
fill_recents number [] acc = acc
fill_recents number (v ∷ vs) acc = fill_recents number vs (insert (sub64 number (length vs)) v acc)

-- A nil attestation is dereferenced.
unfoldable pub new_snapshot :
    ℕ → ℕ → List ℕ → List ℕ → List ℕ → Option VoteData → ℕ → ℕ → ℕ → ℕ → Result Snapshot
new_snapshot number hash validators candidates recents none sealer parent_hash curr next = panics
new_snapshot number hash validators candidates recents (some d) sealer parent_hash curr next =
    ok (record {
      number = number;
      hash = hash;
      parent_hash = parent_hash;
      sealer = sealer;
      validators = set_of [] validators;
      candidates = set_of [] candidates;
      recents = fill_recents number recents [];
      attestation = some d;
      curr_turn_length = curr;
      next_turn_length = next;
    })

-- The uint64 product and difference wrap, as at the turn length 0.
unfoldable pub miner_history_check_len : Snapshot → ℕ
miner_history_check_len s = sub64 (mul64 (length s.validators / 2 + 1) s.curr_turn_length) 1

-- The blocks up to this one, included, are not counted.
unfoldable pub left_history_bound : Snapshot → ℕ
left_history_bound s =
    if ltb (miner_history_check_len s) s.number
    then sub64 s.number (miner_history_check_len s)
    else 0

-- `counts[recent] += 1` is on a uint8; a missing key reads as 0.
abbrev pub count_of : ℕ → List (ℕ × ℕ) → ℕ
count_of v counts = elim (lookup v counts) [ none ↦ 0 | some n ↦ n ]

unfoldable pub count_loop : ℕ → List (ℕ × ℕ) → List (ℕ × ℕ) → List (ℕ × ℕ)
count_loop bound [] counts = counts
count_loop bound ((seen, recent) ∷ rest) counts = count_loop bound rest (
    if leb seen bound || recent == 0
    then counts
    else insert recent ((count_of recent counts + 1) % 256) counts)

unfoldable pub count_recents : Snapshot → List (ℕ × ℕ)
count_recents s = count_loop (left_history_bound s) s.recents []

unfoldable pub sign_recently_by_counts : Snapshot → ℕ → List (ℕ × ℕ) → Bool
sign_recently_by_counts s validator counts = elim (lookup validator counts) [
  | none ↦ false
  | some seen_times ↦ leb s.curr_turn_length seen_times
]

unfoldable pub sign_recently : Snapshot → ℕ → Bool
sign_recently s validator = sign_recently_by_counts s validator (count_recents s)

-- `sort.Sort` is library code that sorts by `Less`; here it is insertion. Addresses compare as the
-- numbers that their bytes spell.
unfoldable pub insert_sorted : ℕ → List ℕ → List ℕ
insert_sorted a [] = a ∷ []
insert_sorted a (x ∷ xs) = if ltb a x then a ∷ x ∷ xs else x ∷ insert_sorted a xs

unfoldable pub sorted_validators : List ℕ → List ℕ
sorted_validators [] = []
sorted_validators (v ∷ vs) = insert_sorted v (sorted_validators vs)

-- An empty set makes the remainder divide by zero.
unfoldable pub inturn : Snapshot → ℕ → Result Bool
inturn s validator =
    if length s.validators == 0
    then panics
    else elim (get_elem? (sorted_validators s.validators)
        (add64 s.number 1 % length s.validators)) [ none ↦ panics | some v ↦ ok (v == validator) ]
