-- ===== src/Sender/Start/Examples.antt =====
-- The sender's start at epoch block 400 with one validator, and three blocks after it.
use btp2_bsc.Base.{
  ℕ, ◌≡◌, refl, sym, ◌∙◌, inl, List, [], ◌∷◌, ◌++◌, Option, none, some, false, ◌==◌, if◌then◌else◌,
  not_found, Result, ok, err, arith, Has, insert, delete, add64, sub64, mul64, ok-injective,
}
use btp2_bsc.Chain.{Header, index, slice_range, from_bytes_acc}
use btp2_bsc.Snapshot.Extra.{
  parse_turn_length, validator_bytes, parse_validators, read_addresses, vote_attestation,
  attestation_bytes, decoded, ecrecover,
}
use btp2_bsc.Snapshot.Extra.Layout.{Entry, layout}
use btp2_bsc.Snapshot.State.{
  Snapshot, contains, set_add, set_of, fill_recents, new_snapshot, miner_history_check_len,
}
use btp2_bsc.Snapshot.Step.{
  merge_attestation, extend_attestation, has_value, forget_oldest, update_attestation, check_recent,
  switch_recents, switch_validators, load_candidates, advance, accept, apply,
}
use btp2_bsc.Snapshot.Boot.{boot_snapshot, boot_at, boot_later, collect_recents, attestation_data}
use btp2_bsc.Snapshot.Port.{apply_and_add}
use btp2_bsc.Snapshot.Store.{
  Backend, Snapshots, store, load_snapshot, has_snapshot, add_to, add_snapshot, fetch_heads,
  apply_heads, ensure, get_snapshot,
}
use btp2_bsc.Snapshot.Store.Derived.{Derived, IsChain}
use btp2_bsc.Snapshot.Store.Sound.{IsHonest}
use btp2_bsc.Snapshot.Store.Filled.{port}
use btp2_bsc.Calculator.{split_at, newest, calculate_loop, calculate, feed}
use btp2_bsc.Sender.{
  Event, new_head, enter, epoch_header, prepare, finish_head, on_head, on_event, watch,
}
use btp2_bsc.Sender.Examples.{zeros, votes_for, ethereum, block}
use btp2_bsc.Sender.Start.{start_derives}

abbrev entry : Entry
entry = record { address = zeros 19 ++ (7 ∷ []); bls_key = zeros 48 }

abbrev epoch_block : ℕ → Result Header
epoch_block number =
    ok (record (block number 7) { extra = layout (zeros 32) (entry ∷ []) (0 ∷ []) (7 ∷ zeros 64) })

abbrev find : List Snapshot → ℕ → Option Snapshot
find [] id = none
find (s ∷ rest) id = let found = find rest id in if s.hash == id then some s else found

-- There is no database.
abbrev backend : Backend (List Snapshot) (Unit {0}) Snapshot
backend = record {
  cache_get = find;
  cache_add = λ cache s. s ∷ cache;
  bucket = λ d. ok tt;
  bucket_get = λ d id. err not_found;
  bucket_set = λ d id s. ok tt;
  bucket_has = λ d id. ok false;
  marshal = λ s. ok s;
  unmarshal = λ s. ok s;
  header_by_hash = λ id.
      if id == 401
      then ok (block 401 7)
      else if id == 402
      then ok (block 402 7)
      else if id == 403
      then ok (block 403 7)
      else err not_found;
  eth = ethereum;
  chain_id = 56;
  checkpoint = 1000;
}

abbrev cold : Snapshots (List Snapshot) (Unit {0})
cold = record { cache = []; database = none }

abbrev booted : Snapshot
booted = record {
  number = 400;
  hash = 400;
  parent_hash = 399;
  sealer = 7;
  validators = 7 ∷ [];
  candidates = 7 ∷ [];
  recents = (400, 7) ∷ [];
  attestation = some (votes_for 400);
  curr_turn_length = 1;
  next_turn_length = 1;
}

abbrev warm : Snapshots (List Snapshot) (Unit {0})
warm = record { cache = booted ∷ []; database = none }

prepared : prepare (port backend 5) cold (ok (block 405 7)) epoch_block 200 ≡ ok (booted, warm)
unfolding prepare epoch_header boot_snapshot boot_at boot_later collect_recents attestation_data
    new_snapshot set_of set_add contains fill_recents parse_validators parse_turn_length
    validator_bytes read_addresses vote_attestation attestation_bytes decoded slice_range index
    from_bytes_acc sub64 insert add_snapshot add_to store
prepared = refl

abbrev blocks : List Event
blocks = new_head (block 401 7) ∷ new_head (block 402 7) ∷ new_head (block 403 7) ∷ []

watched : (watch (port backend 5) 9 (some (enter booted warm)) blocks).1 ≡ 401 ∷ []
unfolding watch on_event on_head finish_head enter apply_and_add add_snapshot add_to store
    get_snapshot ensure fetch_heads apply_heads load_snapshot has_snapshot feed calculate
    calculate_loop split_at newest apply accept advance ecrecover slice_range index from_bytes_acc
    contains check_recent has_value forget_oldest switch_validators switch_recents load_candidates
    update_attestation vote_attestation attestation_bytes decoded merge_attestation
    extend_attestation miner_history_check_len add64 sub64 mul64 insert delete
watched = refl

backend-IsChain : IsChain backend booted
unfolding parse_turn_length
backend-IsChain = record {
  turns = λ id head n f e. ground (arith, e);
  base_turns = (omega arith, omega arith);
  base_number = λ head e. cc;
}

backend-IsHonest : IsHonest backend booted
backend-IsHonest = record {
  added = λ c s t id e. ground (arith, e);
  written = λ d d' k j s t e f. cc;
  decoded = λ s t v e f. ok-injective e ∙ sym (ok-injective (sym f));
  named = λ id head e. ground (arith, e);
}

notified : Has 401 (watch (port backend 5) 9 (some (enter booted warm)) blocks).1
notified = rw watched (inl refl)

start_derives_example : (s : Snapshot) × Derived backend booted 401 s
start_derives_example =
    start_derives backend 5 cold warm (ok (block 405 7)) epoch_block 200 booted backend-IsChain
      backend-IsHonest 9 blocks (λ id. refl) refl prepared (refl, (refl, (refl, tt))) 401 notified
