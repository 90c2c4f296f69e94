-- ===== src/Snapshot/Store/Examples.antt =====
-- The store's tests, and its theorems where a block is derived from a trusted one in the database.
use btp2_bsc.Base.{
  ℕ, zero, suc, ◌-◌, ◌≡◌, refl, sym, ◌∙◌, ◌⊎◌, inl, inr, List, [], ◌∷◌, ◌++◌, Option, none, some,
  true, false, ◌==◌, if◌then◌else◌, Result, ok, err, ◌>>=◌, arith, lookup, insert, delete,
  lookup-insert, not_found, add64, sub64, mul64, Option-cases, ok-injective,
}
use btp2_bsc.Chain.{Header, Ethereum, VoteData, index, slice_range, from_bytes_acc}
use btp2_bsc.Snapshot.Extra.{
  parse_turn_length, vote_attestation, attestation_bytes, decoded, ecrecover,
}
use btp2_bsc.Snapshot.State.{Snapshot, contains, miner_history_check_len}
use btp2_bsc.Snapshot.Step.{
  merge_attestation, extend_attestation, has_value, forget_oldest, update_attestation, check_recent,
  switch_recents, switch_validators, load_candidates, advance, accept, apply,
}
use btp2_bsc.Snapshot.Store.{
  Backend, Snapshots, store, load_snapshot, has_snapshot, add_to, add_snapshot, fetch_heads,
  apply_heads, ensure, get_snapshot,
}
use btp2_bsc.Snapshot.Store.Derived.{Derived, trusted, IsChain}
use btp2_bsc.Snapshot.Store.Sound.{IsHonest, IsSound}
use btp2_bsc.Snapshot.Store.Answers.{get_snapshot-IsSound}

abbrev zeros : ℕ → List ℕ
zeros zero = []
zeros (suc n) = 0 ∷ zeros n

abbrev vote : VoteData
vote = record { source_number = 1; source_hash = 1; target_number = 2; target_hash = 2 }

-- Before Bohr; the seal's first byte is the signer.
abbrev ethereum : Ethereum
ethereum = record {
  is_bohr = λ number time. false;
  seal_hash = λ head id. [];
  recover = λ hash sig. slice_range 0 1 sig >>= λ b. ok (0 ∷ (zeros 31 ++ b));
  keccak = λ bytes. bytes;
  decode_attestation = λ bytes. ok vote;
}

abbrev pub base : Snapshot
base = record {
  number = 400;
  hash = 400;
  parent_hash = 399;
  sealer = 8;
  validators = 7 ∷ 8 ∷ 9 ∷ [];
  candidates = 7 ∷ 8 ∷ 9 ∷ [];
  recents = (400, 8) ∷ [];
  attestation = some vote;
  curr_turn_length = 1;
  next_turn_length = 1;
}

abbrev head_of : ℕ → ℕ → Header
head_of number signer = record {
  number = number;
  hash = number;
  parent_hash = number - 1;
  time = number;
  coinbase = signer;
  extra = zeros 32 ++ (signer ∷ zeros 64);
  size = 600;
}

abbrev header_at : ℕ → Result Header
header_at id =
    if id == 402
    then ok (head_of 402 9)
    else if id == 403
    then ok (head_of 403 7)
    else err not_found

-- The cache is the list of what was added.
abbrev find : List Snapshot → ℕ → Option Snapshot
find [] id = none
find (s ∷ rest) id = let found = find rest id in if s.hash == id then some s else found

abbrev read : List (ℕ × Snapshot) → ℕ → Result Snapshot
read d id = elim (lookup id d) [ none ↦ err not_found | some s ↦ ok s ]

abbrev pub backend : Backend (List Snapshot) (List (ℕ × Snapshot)) Snapshot
backend = record {
  cache_get = find;
  cache_add = λ cache s. s ∷ cache;
  bucket = λ d. ok tt;
  bucket_get = read;
  bucket_set = λ d id s. ok (insert id s d);
  bucket_has = λ d id. elim (lookup id d) [ none ↦ ok false | some s ↦ ok true ];
  marshal = λ s. ok s;
  unmarshal = λ s. ok s;
  header_by_hash = λ id. if id == 401 then ok (head_of 401 7) else header_at id;
  eth = ethereum;
  chain_id = 56;
  checkpoint = 402;
}

abbrev pub start : Snapshots (List Snapshot) (List (ℕ × Snapshot))
start = record { cache = []; database = some ((400, base) ∷ []) }

abbrev snap_401 : Snapshot
snap_401 = record base {
  number = 401;
  hash = 401;
  parent_hash = 400;
  sealer = 7;
  recents = (400, 8) ∷ (401, 7) ∷ [];
}

abbrev snap_402 : Snapshot
snap_402 = record base {
  number = 402;
  hash = 402;
  parent_hash = 401;
  sealer = 9;
  recents = (401, 7) ∷ (402, 9) ∷ [];
}

-- The two blocks above the trusted one are fetched and applied; the second is a checkpoint.
get_402 : get_snapshot backend 5 start 402 ≡ (
  record { cache = snap_402 ∷ snap_401 ∷ []; database = some ((400, base) ∷ (402, snap_402) ∷ []) },
  ok snap_402,
)
unfolding get_snapshot ensure fetch_heads apply_heads add_snapshot add_to store load_snapshot
    has_snapshot lookup insert apply accept advance ecrecover slice_range index from_bytes_acc
    contains check_recent has_value forget_oldest switch_validators switch_recents load_candidates
    update_attestation vote_attestation attestation_bytes decoded merge_attestation
    extend_attestation miner_history_check_len add64 sub64 mul64 delete
get_402 = refl

-- A block that the node does not know.
get_missing : (get_snapshot backend 5 start 500).1 ≡ err not_found
unfolding get_snapshot ensure fetch_heads has_snapshot lookup
get_missing = refl

backend-IsChain : IsChain backend base
unfolding parse_turn_length
backend-IsChain = record {
  turns = λ id head n f e. ground (arith, e);
  base_turns = (omega arith, omega arith);
  base_number = λ head e. cc;
}

read_inv :
    (d : List (ℕ × Snapshot)) (id : ℕ) (s : Snapshot) → read d id ≡ ok s → lookup id d ≡ some s
read_inv d id s e = elim (Option-cases (lookup id d)) [
  | inl p ↦ absurd (ground (arith, p, e))
  | inr (t, p) ↦ ground (arith, p, e)
]

insert_inv :
    (d : List (ℕ × Snapshot)) (k j : ℕ) (s t : Snapshot)
    → read (insert k s d) j ≡ ok t
    → ((k ≡ j) × (s ≡ t)) ⊎ (read d j ≡ ok t)
insert_inv d k j s t e = ground (arith, read_inv (insert k s d) j t e, lookup-insert k j s d)

backend-IsHonest : IsHonest backend base
backend-IsHonest = record {
  added = λ c s t id e. ground (arith, e);
  written = λ d d' k j s t e f. insert_inv d k j s t (rw (ok-injective e) f);
  decoded = λ s t v e f. ok-injective e ∙ sym (ok-injective (sym f));
  named = λ id head e. ground (arith, e);
}

find_nil : (id : ℕ) (s : Snapshot) → find [] id ≡ some s → ⊥
find_nil id s e = cc

start-IsSound : IsSound backend base start
unfolding lookup
start-IsSound = record {
  cached = λ id s e. absurd (find_nil id s e);
  kept = λ d id v s p g u. trusted (ground (arith, p, g)) (ground (arith, p, g, u));
}

get_snapshot-IsSound_example :
    IsSound backend base (get_snapshot backend 5 start 402).0
    × ((s : Snapshot) → (get_snapshot backend 5 start 402).1 ≡ ok s → Derived backend base 402 s)
get_snapshot-IsSound_example =
    get_snapshot-IsSound backend base backend-IsChain backend-IsHonest 5 start 402 start-IsSound
