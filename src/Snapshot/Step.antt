-- ===== src/Snapshot/Step.antt =====
-- chain/bsc2/snapshot.go: `updateAttestation` and `apply`. Values are immutable here, so the deep
-- copy that `apply` works on is the snapshot itself.
pub mod Chained
pub mod Rotation
pub mod Recents
pub mod Bounded
use btp2_bsc.Base.{
  ℕ, zero, suc, ◌+◌, ◌-◌, ◌*◌, ◌/◌, ◌%◌, List, [], ◌∷◌, Option, none, some, Bool, true, false,
  length, leb, ltb, ◌==◌, ◌&&◌, not, ◌||◌, if◌then◌else◌, Result, ok, err, panics, ◌>>=◌, insert,
  delete, add64, sub64, out_of_range, inconsistent_block, unauthorized_validator,
  recently_signed_bohr, recently_signed, ◌≡◌, arith,
}
use btp2_bsc.Chain.{Header, Ethereum, VoteData}
use btp2_bsc.Snapshot.Extra.{
  epoch, is_bohr_at, vote_attestation, ecrecover, parse_validators, parse_turn_length,
}
use btp2_bsc.Snapshot.State.{Snapshot, contains, set_of, miner_history_check_len, sign_recently}

-- Sources that are not just before their targets move only the target of an attestation in place.
unfoldable pub extend_attestation : Option VoteData → VoteData → VoteData
extend_attestation none d = d
extend_attestation (some old) d =
    if not (add64 d.source_number 1 == d.target_number)
    then record old { target_number = d.target_number; target_hash = d.target_hash }
    else d

-- The header's attestation counts only if its target is the parent block.
unfoldable pub merge_attestation : Option VoteData → VoteData → Header → Option VoteData
merge_attestation old d head =
    if not (d.target_hash == head.parent_hash) || not (add64 d.target_number 1 == head.number)
    then old
    else some (extend_attestation old d)

-- The sets after the deletions of a shrinking set of validators:
-- `delete(snap.Recents, number-uint64(newLimit)-uint64(i))` for i below `rounds`.
unfoldable pub shrink_recents : ℕ → ℕ → List (ℕ × ℕ) → List (ℕ × ℕ)
shrink_recents zero start recents = recents
shrink_recents (suc rounds) start recents =
    shrink_recents rounds (sub64 start 1) (delete start recents)

unfoldable pub has_value : ℕ → List (ℕ × ℕ) → Bool
has_value v [] = false
has_value v ((k, w) ∷ rest) = w == v || has_value v rest

-- `if limit := ...; number >= limit { delete(snap.Recents, number-limit) }`
unfoldable pub forget_oldest : Snapshot → ℕ → Snapshot
forget_oldest s number =
    let limit = add64 (miner_history_check_len s) 1 in
    if leb limit number then record s { recents = delete (sub64 number limit) s.recents } else s

module _ (eth : Ethereum) where
  -- An undecodable attestation reads as none.
  unfoldable pub update_attestation : Snapshot → Header → Result Snapshot
  update_attestation s head = elim (vote_attestation eth head) [
    | ok none ↦ ok s
    | ok (some d) ↦ ok (record s { attestation = merge_attestation s.attestation d head })
    | err e ↦ ok s
    | panics ↦ panics
  ]

  -- The two guards on a signer that has signed lately.
  unfoldable pub check_recent : Snapshot → Header → ℕ → Result (Unit {0})
  check_recent snap head validator =
      if is_bohr_at eth head
      then (if sign_recently snap validator then err recently_signed_bohr else ok tt)
      else (if has_value validator snap.recents then err recently_signed else ok tt)

  -- The recent signers that stay when the candidates become the validators.
  unfoldable pub switch_recents : Snapshot → Header → List (ℕ × ℕ)
  switch_recents snap head =
      let old_limit = length snap.validators / 2 + 1 in
      let new_limit = length snap.candidates / 2 + 1 in
      if is_bohr_at eth head
      then []
      else if ltb new_limit old_limit
      then shrink_recents (old_limit - new_limit) (sub64 head.number new_limit) snap.recents
      else snap.recents

  unfoldable pub switch_validators : Snapshot → Header → Snapshot
  switch_validators snap head =
      if ltb 0 head.number && (head.number % epoch == miner_history_check_len snap)
      then record snap {
        recents = switch_recents snap head;
        validators = snap.candidates;
        curr_turn_length = snap.next_turn_length;
      }
      else snap

  unfoldable pub fresh_candidates : Snapshot → Header → Result Snapshot
  fresh_candidates snap head = do
    vals ← parse_validators eth head
    turn ← parse_turn_length eth head
    ok (record snap { candidates = set_of [] vals; next_turn_length = turn })

  unfoldable pub load_candidates : Snapshot → Header → Result Snapshot
  load_candidates snap head =
      if ltb 0 head.number && (head.number % epoch == 0)
      then fresh_candidates snap head
      else ok snap

  -- What follows the guards: the signer is recorded, the sets change, the attestation is taken over.
  unfoldable pub advance : Snapshot → Header → ℕ → Result Snapshot
  advance snap head validator =
      load_candidates
        (switch_validators (record snap { recents = insert head.number validator snap.recents })
          head)
        head
      >>= λ loaded. update_attestation loaded head >>= λ voted. ok (record voted {
        number = add64 voted.number 1;
        hash = head.hash;
        parent_hash = head.parent_hash;
        sealer = validator;
      })

  unfoldable pub accept : Snapshot → Header → ℕ → Result Snapshot
  accept s head chain_id =
      let snap = forget_oldest s head.number in
      ecrecover eth head chain_id >>= λ validator.
      if not (contains validator snap.validators)
      then err unauthorized_validator
      else check_recent snap head validator >>= λ _. advance snap head validator

  -- A nil header leaves the snapshot.
  unfoldable pub apply : Snapshot → Option Header → ℕ → Result Snapshot
  apply s none chain_id = ok s
  apply s (some head) chain_id =
      if not (add64 s.number 1 == head.number)
      then err out_of_range
      else if not (s.hash == head.parent_hash)
      then err inconsistent_block
      else accept s head chain_id
