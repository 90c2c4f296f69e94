-- ===== src/Receiver/Watch/Examples.antt =====
-- The loop of the receiver over six blocks, of which two bring messages; the accumulator's catching up
-- and the purge at small inputs.
use btp2_bsc.Base.{
  ℕ, zero, suc, ◌+◌, ◌-◌, ◌<◌, ◌≡◌, ◌≢◌, refl, List, [], ◌∷◌, ◌++◌, none, some, false, ◌==◌,
  if◌then◌else◌, not_found, Result, ok, err, ◌>>=◌, arith, insert, delete, add64, sub64, mul64,
  decode_failure,
}
use btp2_bsc.Chain.{Header, Ethereum, VoteData, index, slice_range, from_bytes_acc}
use btp2_bsc.Snapshot.Extra.{vote_attestation, attestation_bytes, decoded, ecrecover}
use btp2_bsc.Snapshot.State.{Snapshot, contains, miner_history_check_len}
use btp2_bsc.Snapshot.Step.{
  merge_attestation, extend_attestation, has_value, forget_oldest, update_attestation, check_recent,
  switch_recents, switch_validators, load_candidates, advance, accept, apply,
}
use btp2_bsc.Snapshot.Port.{Port, apply_and_add}
use btp2_bsc.Calculator.{split_at, newest, calculate_loop, calculate, feed}
use btp2_bsc.Client.{Message}
use btp2_bsc.Receiver.{Bstatus, Peer, update_status, last_sequence, query_messages}
use btp2_bsc.Receiver.Relay.{sync_rounds}
use btp2_bsc.Receiver.Watch.{
  Watcher, Event, new_head, clone, finish_query, move_status, finish_feed, on_head, on_event, watch,
}
use btp2_bsc.Receiver.Watch.Notices.{Ascends, watch-Ascends}
use btp2_bsc.Receiver.Watch.Cached.{Span, ends, goes, query_keeps_lowest}
use btp2_bsc.Receiver.Sync.{Buffer, sync_acc}
use btp2_bsc.Receiver.Sync.Purged.{purged, tested, wait_ends}

abbrev zeros : ℕ → List ℕ
zeros zero = []
zeros (suc n) = 0 ∷ zeros n

abbrev votes_for : ℕ → VoteData
votes_for target = record {
  source_number = target - 1;
  source_hash = target - 1;
  target_number = target;
  target_hash = target;
}

abbrev decode_vote : List ℕ → Result VoteData
decode_vote [] = err decode_failure
decode_vote (b ∷ bytes) = ok (votes_for (400 + b))

abbrev ethereum : Ethereum
ethereum = record {
  is_bohr = λ number time. false;
  seal_hash = λ head id. [];
  recover = λ hash sig. slice_range 0 1 sig >>= λ b. ok (0 ∷ (zeros 31 ++ b));
  keccak = λ bytes. bytes;
  decode_attestation = decode_vote;
}

abbrev base : Snapshot
base = record {
  number = 400;
  hash = 400;
  parent_hash = 399;
  sealer = 8;
  validators = 7 ∷ 8 ∷ 9 ∷ [];
  candidates = 7 ∷ 8 ∷ 9 ∷ [];
  recents = (400, 8) ∷ [];
  attestation = some (votes_for 399);
  curr_turn_length = 1;
  next_turn_length = 1;
}

abbrev block : ℕ → ℕ → Header
block number signer = record {
  number = number;
  hash = number;
  parent_hash = number - 1;
  time = number;
  coinbase = signer;
  extra = zeros 32 ++ ((number - 401) ∷ signer ∷ zeros 64);
  size = 600;
}

abbrev find : List Snapshot → ℕ → Result Snapshot
find [] id = err not_found
find (s ∷ rest) id = let found = find rest id in if s.hash == id then ok s else found

abbrev port : Port (List Snapshot)
port = record { add = λ st s. (s ∷ st, ok tt); get = find; eth = ethereum; chain_id = 56 }

abbrev message : ℕ → ℕ → Message
message seq number = record {
  seq = seq;
  block_number = number;
  block_hash = number;
  tx_index = seq;
}

abbrev messages : ℕ → Result (List Message)
messages hash =
    if hash == 401
    then ok (message 1 401 ∷ [])
    else if hash == 402
    then ok (message 2 402 ∷ message 3 402 ∷ [])
    else ok []

abbrev comes : ℕ → ℕ → Event
comes number signer = new_head (block number signer) messages

abbrev at_400 : Watcher (List Snapshot)
at_400 = record {
  local = record { number = 400; hash = 400; sequence = 0; cache = 0 };
  peer_hash = 400;
  store = base ∷ [];
  heads = [];
  msgs = [];
  snap = base;
  calc = record { checkpoint = 400; feeds = [] };
  fed = 0;
}

abbrev six : List Event
six = comes 401 7 ∷ comes 402 9 ∷ comes 403 8 ∷ comes 404 7 ∷ comes 405 9 ∷ comes 406 8 ∷ []

abbrev status_at : ℕ → ℕ → Bstatus
status_at number sequence = record { number = number; hash = 0; sequence = sequence; cache = 0 }

-- The heads 405 and 406 settle 401 and 402.
watch-six : (watch port 9 (some at_400) six).1 ≡ status_at 401 1 ∷ status_at 402 3 ∷ []
unfolding watch on_event on_head finish_feed move_status finish_query clone update_status
    query_messages last_sequence apply_and_add feed calculate calculate_loop split_at newest apply
    accept advance ecrecover slice_range index from_bytes_acc contains check_recent has_value
    forget_oldest switch_validators switch_recents load_candidates update_attestation
    vote_attestation attestation_bytes decoded merge_attestation extend_attestation
    miner_history_check_len add64 sub64 mul64 insert delete
watch-six = refl

watch-Ascends_example : Ascends 400 (watch port 9 (some at_400) six).1
watch-Ascends_example = watch-Ascends port 9 at_400 six

abbrev snap_at : ℕ → Snapshot
snap_at number = record base { number = number; hash = number; parent_hash = number - 1 }

abbrev settled : List Snapshot
settled = snap_at 402 ∷ snap_at 401 ∷ []

blocks_401_402 :
    Span
      (find settled)
      messages
      400
      402
      ((message 2 402 ∷ message 3 402 ∷ []) ∷ (message 1 401 ∷ []) ∷ [])
blocks_401_402 =
    goes (snap_at 402) (λ e. omega (arith, e)) refl refl
      (goes (snap_at 401) (λ e. omega (arith, e)) refl refl ends)

lowest_has_number : last_sequence 0 (message 1 401 ∷ []) ≢ 0
unfolding last_sequence
lowest_has_number = λ e. cc

-- The messages 2 and 3 of the higher block are cached, and 1 is the number.
query_keeps_lowest_example :
    (query_messages (find settled) messages 5 402 400 0 []).1
    ≡ ok (last_sequence 0 (message 1 401 ∷ []))
query_keeps_lowest_example =
    query_keeps_lowest (find settled) messages 5 402 400 []
      ((message 2 402 ∷ message 3 402 ∷ []) ∷ []) (message 1 401 ∷ []) blocks_401_402 (omega arith)
      lowest_has_number

sync_three :
    sync_acc (λ h. ok (block h 7)) (λ n. ok (block n 7)) (ok tt) 401 403
    ≡ (401 ∷ 402 ∷ 403 ∷ [], ok tt)
unfolding sync_acc sync_rounds
sync_three = refl

abbrev Numbers : Type 0
Numbers = List (ℕ × ℕ)

abbrev without : Numbers → ℕ → Numbers
without c k = delete k c

abbrev buffer : Buffer Numbers Numbers
buffer = record {
  heads = (400, 1) ∷ (401, 2) ∷ (402, 3) ∷ [];
  msgs = (1, 1) ∷ (2, 2) ∷ [];
  number = 400;
  sequence = 1;
  waiting = some 2000;
}

abbrev peer : Peer
peer = record {
  number = 401;
  hash = 401;
  sequence = 1;
  blocks = record { root = 401; nodes = (401, []) ∷ [] };
}

wait_ends_example :
    ((purged without without buffer peer).waiting ≡ none)
    × (401 + 1024 < 2000
        → (tested without without (purged without without buffer peer) 2000).waiting ≡ some 2000)
wait_ends_example =
    wait_ends without without buffer peer 2000 (omega arith) (omega arith) (omega arith)
