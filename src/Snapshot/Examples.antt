-- ===== src/Snapshot/Examples.antt =====
-- Tests of the snapshot, and its theorems at a chain of three validators whose header 401 makes the
-- candidates the validators.
use mathlib.Core.Quot
use mathlib.Core.List.{Permᴰ}
use btp2_bsc.Snapshot.State.Order.{set_from, inturn_one}
use btp2_bsc.Base.{
  Has, ◌==◌, ℕ, zero, suc, ◌-◌, ◌≤◌, ◌<◌, ◌≡◌, ◌≢◌, ◌↔◌, refl, ◌⊎◌, List, [], ◌∷◌, ◌++◌, some, true,
  false, leb, if◌then◌else◌, arith, ok, ◌>>=◌, lookup, insert, delete, add64, sub64, mul64,
}
use btp2_bsc.Chain.{Header, VoteData, Ethereum, index, slice_range, from_bytes_acc}
use btp2_bsc.Snapshot.Extra.{
  parse_turn_length, parse_validators, vote_attestation, attestation_bytes, decoded, ecrecover,
}
use btp2_bsc.Snapshot.State.{
  Snapshot, contains, set_of, miner_history_check_len, left_history_bound, count_loop,
  count_recents, sign_recently_by_counts, sign_recently, inturn, sorted_validators, insert_sorted,
}
use btp2_bsc.Snapshot.Step.{
  extend_attestation, merge_attestation, has_value, forget_oldest, update_attestation, check_recent,
  switch_recents, switch_validators, load_candidates, advance, accept, apply,
}
use btp2_bsc.Snapshot.Step.Chained.{apply_chains}
use btp2_bsc.Snapshot.Step.Rotation.{is_switch, is_epoch, apply_rotates, apply_attests}
use btp2_bsc.Snapshot.Step.Recents.{signatures, sign_recently_iff}
use btp2_bsc.Snapshot.Step.Bounded.{Bounded}

abbrev pub zeros : ℕ → List ℕ
zeros zero = []
zeros (suc n) = 0 ∷ zeros n

abbrev pub vote : VoteData
vote = record { source_number = 399; source_hash = 399; target_number = 400; target_hash = 400 }

-- A key is recovered from the seal's first byte, and hashing is the identity.
abbrev pub chain : ℕ → Ethereum
chain bohr = record {
  is_bohr = λ number time. leb bohr number;
  seal_hash = λ head id. [];
  recover = λ hash sig. slice_range 0 1 sig >>= λ b. ok (0 ∷ (zeros 31 ++ b));
  keccak = λ bytes. bytes;
  decode_attestation = λ bytes. ok vote;
}

abbrev pub seal : List ℕ
seal = 7 ∷ zeros 64

abbrev pub header : ℕ → List ℕ → Header
header number extra = record {
  number = number;
  hash = number;
  parent_hash = number - 1;
  time = number;
  coinbase = 7;
  extra = extra;
  size = 600;
}

abbrev base : Snapshot
base = record {
  number = 400;
  hash = 400;
  parent_hash = 399;
  sealer = 8;
  validators = 7 ∷ 8 ∷ 9 ∷ [];
  candidates = 7 ∷ 8 ∷ [];
  recents = (399, 9) ∷ (400, 8) ∷ [];
  attestation = some vote;
  curr_turn_length = 1;
  next_turn_length = 1;
}

abbrev head_401 : Header
head_401 = header 401 (zeros 32 ++ (1 ∷ seal))

abbrev after : Snapshot
after = record {
  number = 401;
  hash = 401;
  parent_hash = 400;
  sealer = 7;
  validators = 7 ∷ 8 ∷ [];
  candidates = 7 ∷ 8 ∷ [];
  recents = (400, 8) ∷ (401, 7) ∷ [];
  attestation = some vote;
  curr_turn_length = 1;
  next_turn_length = 1;
}

apply_401 : apply (chain 1000) base (some head_401) 56 ≡ ok after
unfolding apply accept advance ecrecover slice_range index from_bytes_acc contains check_recent
    has_value forget_oldest switch_validators switch_recents load_candidates update_attestation
    vote_attestation attestation_bytes decoded merge_attestation extend_attestation
    miner_history_check_len add64 sub64 mul64 insert delete
apply_401 = refl

apply_chains_example :
    (401 ≡ add64 400 1)
    × (400 ≡ base.hash)
    × (after.number ≡ 401)
    × (after.hash ≡ 401)
    × (after.parent_hash ≡ base.hash)
    × (ecrecover (chain 1000) head_401 56 ≡ ok after.sealer)
    × (contains after.sealer base.validators ≡ true)
apply_chains_example = apply_chains (chain 1000) base after head_401 56 apply_401

apply_rotates_example :
    (after.validators
      ≡ (if is_switch (chain 1000) base head_401 then base.candidates else base.validators))
    × (after.curr_turn_length ≡ (
        if is_switch (chain 1000) base head_401
        then base.next_turn_length
        else base.curr_turn_length))
    × (((is_epoch (chain 1000) head_401 ≡ false)
          × (after.candidates ≡ base.candidates)
          × (after.next_turn_length ≡ base.next_turn_length))
        ⊎ ((is_epoch (chain 1000) head_401 ≡ true)
            × (vals : List ℕ) × (parse_validators (chain 1000) head_401 ≡ ok vals)
            × (after.candidates ≡ set_of [] vals)
            × (parse_turn_length (chain 1000) head_401 ≡ ok after.next_turn_length)))
apply_rotates_example = apply_rotates (chain 1000) base after head_401 56 apply_401

apply_attests_example :
    ((after.attestation ≡ base.attestation)
      × ((d : VoteData)
          → vote_attestation (chain 1000) head_401 ≡ ok (some d)
          → (d.target_hash ≢ base.hash) ⊎ (add64 d.target_number 1 ≢ head_401.number)))
    ⊎ ((d : VoteData) × (a : VoteData) × (vote_attestation (chain 1000) head_401 ≡ ok (some d))
        × (after.attestation ≡ some a)
        × (a.target_hash ≡ base.hash)
        × (a.target_number ≡ d.target_number)
        × (add64 a.target_number 1 ≡ head_401.number)
        × (add64 d.source_number 1 ≡ d.target_number → a ≡ d)
        × (add64 d.source_number 1 ≢ d.target_number
            → (b : VoteData) → base.attestation ≡ some b
            → (a.source_number ≡ b.source_number) × (a.source_hash ≡ b.source_hash)))
apply_attests_example = apply_attests (chain 1000) base after head_401 56 apply_401

base-Bounded : Bounded base.recents base.number
unfolding lookup
base-Bounded k v e = ground arith

few_signatures : signatures (left_history_bound base) 8 base.recents < 256
unfolding signatures left_history_bound miner_history_check_len sub64 mul64
few_signatures = omega arith

sign_recently_iff_example :
    (sign_recently base 8 ≡ true)
    ↔ (base.curr_turn_length ≤ signatures (left_history_bound base) 8 base.recents)
sign_recently_iff_example = sign_recently_iff base 8 (λ e. omega arith) (omega arith) few_signatures

-- Validator 8 signed the block above the bound, and 9 the one at it.
eight_signed : sign_recently base 8 ≡ true
unfolding sign_recently sign_recently_by_counts count_recents count_loop left_history_bound
    miner_history_check_len sub64 mul64 lookup insert
eight_signed = refl

nine_may_sign : sign_recently base 9 ≡ false
unfolding sign_recently sign_recently_by_counts count_recents count_loop left_history_bound
    miner_history_check_len sub64 mul64 lookup insert
nine_may_sign = refl

inturn_one_example :
    (v : ℕ) × Has v (7 ∷ 8 ∷ 9 ∷ [])
    × ((validators : List ℕ) (w : ℕ)
        → set_from (7 ∷ 8 ∷ 9 ∷ []) ≡ set_from validators
        → inturn (record base { validators = validators }) w ≡ ok (v == w))
inturn_one_example = inturn_one base (λ e. cc)

-- The same three validators in another order.
same_three : set_from (7 ∷ 8 ∷ 9 ∷ []) ≡ set_from (8 ∷ 7 ∷ 9 ∷ [])
same_three = Quot.sound (Permᴰ.swap refl refl)

nine_in_turn : inturn (record base { validators = 8 ∷ 7 ∷ 9 ∷ [] }) 9 ≡ ok true
unfolding inturn sorted_validators insert_sorted add64
nine_in_turn = refl
