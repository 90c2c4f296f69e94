-- ===== src/Snapshot/Boot/Examples.antt =====
-- Tests of the extra field's readers and of the first snapshot, at the epoch block 400 with one
-- validator and the turn length 4.
use btp2_bsc.Base.{
  ◌⊎◌, ◌<◌, ◌≤◌, ◌+◌, ◌/◌, length, none, lookup, arith, ℕ, ◌≡◌, ◌≢◌, refl, List, [], ◌∷◌, ◌++◌,
  some, Result, ok, panics, insert, sub64,
}
use btp2_bsc.Chain.{Header, VoteData, index, slice_range, from_bytes_acc}
use btp2_bsc.Snapshot.Extra.{
  parse_turn_length, validator_bytes, parse_validators, read_addresses, vote_attestation,
  attestation_bytes, decoded,
}
use btp2_bsc.Snapshot.Extra.Layout.{Entry, layout, layout_since_bohr}
use btp2_bsc.Snapshot.Extra.Safety.{readers_safe}
use btp2_bsc.Snapshot.State.{Snapshot, contains, set_add, set_of, fill_recents, new_snapshot}
use btp2_bsc.Snapshot.Boot.{boot_snapshot, boot_at, boot_later, collect_recents, attestation_data}
use btp2_bsc.Snapshot.Boot.Made.{boot_makes}
use btp2_bsc.Snapshot.Examples.{zeros, vote, chain, seal, header}

abbrev pub entry : Entry
entry = record { address = zeros 19 ++ (7 ∷ []); bls_key = zeros 48 }

abbrev pub since_bohr : Header
since_bohr = header 400 (layout (zeros 32) (entry ∷ []) (4 ∷ 5 ∷ []) seal)

layout_since_bohr_example :
    (parse_validators (chain 0) since_bohr ≡ ok (7 ∷ []))
    × (parse_turn_length (chain 0) since_bohr ≡ ok 4)
    × (vote_attestation (chain 0) since_bohr ≡ decoded (chain 0) (5 ∷ []))
unfolding from_bytes_acc
layout_since_bohr_example =
    layout_since_bohr (chain 0) since_bohr (zeros 32) (entry ∷ []) (4 ∷ 5 ∷ []) seal refl refl refl
      ((refl, refl), tt) refl refl (λ e. cc) 4 (5 ∷ []) refl

readers_safe_example :
    (parse_validators (chain 0) since_bohr ≢ panics)
    × (parse_turn_length (chain 0) since_bohr ≢ panics)
    × (vote_attestation (chain 0) since_bohr ≢ panics)
readers_safe_example = readers_safe (chain 0) since_bohr (λ bytes e. cc)

abbrev pub node : ℕ → Result Header
node n = ok (header n (layout (zeros 32) (entry ∷ []) (4 ∷ 5 ∷ []) seal))

abbrev pub booted : Snapshot
booted = record {
  number = 400;
  hash = 400;
  parent_hash = 399;
  sealer = 7;
  validators = 7 ∷ [];
  candidates = 7 ∷ [];
  recents = (400, 7) ∷ [];
  attestation = some vote;
  curr_turn_length = 4;
  next_turn_length = 4;
}

boot_400 : boot_snapshot node (chain 0) 200 since_bohr ≡ ok booted
unfolding boot_snapshot boot_at boot_later collect_recents attestation_data new_snapshot set_of
    set_add contains fill_recents parse_validators parse_turn_length validator_bytes read_addresses
    vote_attestation attestation_bytes decoded slice_range index from_bytes_acc sub64 insert
boot_400 = refl

-- At height 0 the attestation is a nil pointer.
boot_0 :
    boot_snapshot node (chain 0) 200 (header 0 (layout (zeros 32) (entry ∷ []) (4 ∷ 5 ∷ []) seal))
    ≡ panics
unfolding boot_snapshot boot_at boot_later new_snapshot set_of set_add contains fill_recents
    parse_validators parse_turn_length validator_bytes read_addresses vote_attestation
    attestation_bytes decoded slice_range index from_bytes_acc
boot_0 = refl

boot_makes_example :
    (since_bohr.number ≢ 0)
    × (booted.number ≡ 400)
    × (booted.hash ≡ 400)
    × (booted.parent_hash ≡ 399)
    × (booted.sealer ≡ 7)
    × ((v : VoteData) × (vote_attestation (chain 0) since_bohr ≡ ok (some v))
        × (booted.attestation ≡ some v))
    × ((old : Header) × (old_vals : List ℕ) × (cur_vals : List ℕ) × (node
            (sub64 since_bohr.number 200)
          ≡ ok old)
        × (parse_validators (chain 0) old ≡ ok old_vals)
        × (booted.validators ≡ set_of [] old_vals)
        × (parse_turn_length (chain 0) old ≡ ok booted.curr_turn_length)
        × (parse_validators (chain 0) since_bohr ≡ ok cur_vals)
        × (booted.candidates ≡ set_of [] cur_vals)
        × (parse_turn_length (chain 0) since_bohr ≡ ok booted.next_turn_length)
        × ((400 < length old_vals / 2)
            ⊎ ((k : ℕ)
                → ((400 ≤ k + length old_vals / 2)
                    × (k ≤ 400)
                    × ((h : Header) × (node k ≡ ok h)
                        × (lookup k booted.recents ≡ some h.coinbase)))
                  ⊎ (((k + length old_vals / 2 < 400) ⊎ (400 < k))
                      × (lookup k booted.recents ≡ none)))))
boot_makes_example = boot_makes node (chain 0) 200 since_bohr booted (omega arith) boot_400
