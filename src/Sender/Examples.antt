-- ===== src/Sender/Examples.antt =====
-- Tests of the sender, and its theorems where the third block above the finality makes the first final.
use btp2_bsc.Base.{
  ℕ, zero, suc, ◌+◌, ◌-◌, ◌≡◌, refl, ◌⊎◌, List, [], ◌∷◌, ◌++◌, none, some, true, false, ◌==◌,
  if◌then◌else◌, Error, external, not_found, invalid_state, Result, ok, err, ◌>>=◌, arith, insert,
  delete, add64, sub64, mul64, decode_failure,
}
use btp2_bsc.Chain.{Header, Ethereum, VoteData, index, slice_range, from_bytes_acc}
use btp2_bsc.Errors.{recoverable, restarts}
use btp2_bsc.Snapshot.Extra.{vote_attestation, attestation_bytes, decoded, ecrecover}
use btp2_bsc.Snapshot.State.{Snapshot, contains, miner_history_check_len}
use btp2_bsc.Snapshot.Step.{
  merge_attestation, extend_attestation, has_value, forget_oldest, update_attestation, check_recent,
  switch_recents, switch_validators, load_candidates, advance, accept, apply,
}
use btp2_bsc.Snapshot.Port.{Port, IsPort, apply_and_add}
use btp2_bsc.Calculator.{split_at, newest, calculate_loop, calculate, feed}
use btp2_bsc.Transactor.{Created, created_message}
use btp2_bsc.Transactor.Run.{Transactor, busy, enqueue, send, Reach, here, new_transactor}
use btp2_bsc.Sender.{
  Sender, Event, new_head, failure, tx_size_limit, enter, finish_head, on_head, on_event, watch,
  relay,
}
use btp2_bsc.Sender.Finality.{Follows, enter-Follows}
use btp2_bsc.Sender.Heads.{Worked, on_head_finalizes}
use btp2_bsc.Sender.Relaying.{relay_reaches}

abbrev pub zeros : ℕ → List ℕ
zeros zero = []
zeros (suc n) = 0 ∷ zeros n

abbrev pub votes_for : ℕ → VoteData
votes_for target = record {
  source_number = target - 1;
  source_hash = target - 1;
  target_number = target;
  target_hash = target;
}

abbrev decode_vote : List ℕ → Result VoteData
decode_vote [] = err decode_failure
decode_vote (b ∷ bytes) = ok (votes_for (400 + b))

abbrev pub ethereum : Ethereum
ethereum = record {
  is_bohr = λ number time. false;
  seal_hash = λ head id. [];
  recover = λ hash sig. slice_range 0 1 sig >>= λ b. ok (0 ∷ (zeros 31 ++ b));
  keccak = λ bytes. bytes;
  decode_attestation = decode_vote;
}

abbrev base : Snapshot
base = record {
  number = 400;
  hash = 400;
  parent_hash = 399;
  sealer = 8;
  validators = 7 ∷ 8 ∷ 9 ∷ [];
  candidates = 7 ∷ 8 ∷ 9 ∷ [];
  recents = (400, 8) ∷ [];
  attestation = some (votes_for 399);
  curr_turn_length = 1;
  next_turn_length = 1;
}

abbrev pub block : ℕ → ℕ → Header
block number signer = record {
  number = number;
  hash = number;
  parent_hash = number - 1;
  time = number;
  coinbase = signer;
  extra = zeros 32 ++ ((number - 401) ∷ signer ∷ zeros 64);
  size = 600;
}

abbrev find : List Snapshot → ℕ → Result Snapshot
find [] id = err not_found
find (s ∷ rest) id = let found = find rest id in if s.hash == id then ok s else found

abbrev port : Port (List Snapshot)
port = record { add = λ st s. (s ∷ st, ok tt); get = find; eth = ethereum; chain_id = 56 }

abbrev blocks : List Event
blocks = new_head (block 401 7) ∷ new_head (block 402 9) ∷ new_head (block 403 8) ∷ []

-- Block 401 becomes final with block 403.
watch_403 : (watch port 9 (some (enter base (base ∷ []))) blocks).1 ≡ 401 ∷ []
unfolding watch on_event on_head finish_head enter apply_and_add feed calculate calculate_loop
    split_at newest apply accept advance ecrecover slice_range index from_bytes_acc contains
    check_recent has_value forget_oldest switch_validators switch_recents load_candidates
    update_attestation vote_attestation attestation_bytes decoded merge_attestation
    extend_attestation miner_history_check_len add64 sub64 mul64 insert delete
watch_403 = refl

-- A header of another branch makes the loop start over at the finality.
watch-again :
    (watch port 9
      (some (enter base (base ∷ [])))
      (new_head (record (block 401 7) { parent_hash = 7 }) ∷ blocks)).1
    ≡ 401 ∷ []
unfolding watch on_event on_head finish_head enter apply_and_add feed calculate calculate_loop
    split_at newest apply accept advance ecrecover slice_range index from_bytes_acc contains
    check_recent has_value forget_oldest switch_validators switch_recents load_candidates
    update_attestation vote_attestation attestation_bytes decoded merge_attestation
    extend_attestation restarts recoverable miner_history_check_len add64 sub64 mul64 insert delete
watch-again = refl

-- Any other error ends it.
watch-over :
    watch port 9 (some (enter base (base ∷ []))) (failure (external 1) ∷ blocks) ≡ (none, [])
unfolding watch on_event restarts recoverable
watch-over = refl

tx_size_limit_is : tx_size_limit ≡ 382692
unfolding tx_size_limit
tx_size_limit_is = refl

abbrev IsSound : List Snapshot → Type 0
IsSound st = Unit {0}

abbrev Of : ℕ → Snapshot → Type 0
Of id s = s.hash ≡ id

abbrev Known : Header → Type 0
Known h = Unit {0}

find_hash : (st : List Snapshot) (id : ℕ) (s : Snapshot) → find st id ≡ ok s → s.hash ≡ id
find_hash [] id s e = cc
find_hash (t ∷ st) id s e = ground (arith, e, find_hash st id s)

port-IsPort : IsPort port IsSound Of Known
port-IsPort = record {
  answers = λ st id s t e. find_hash st id s e;
  keeps = λ st s t o. tt;
  grows = λ s next h o k e. refl;
  named = λ id s o. o;
}

start-Follows : Follows port port-IsPort (enter base (base ∷ []))
start-Follows = enter-Follows port port-IsPort base (base ∷ []) tt refl

abbrev snap_402 : Snapshot
snap_402 = record base {
  number = 402;
  hash = 402;
  parent_hash = 401;
  sealer = 9;
  recents = (401, 7) ∷ (402, 9) ∷ [];
  attestation = some (votes_for 401);
}

abbrev snap_401 : Snapshot
snap_401 = record base {
  number = 401;
  hash = 401;
  parent_hash = 400;
  sealer = 7;
  recents = (400, 8) ∷ (401, 7) ∷ [];
  attestation = some (votes_for 400);
}

abbrev snap_403 : Snapshot
snap_403 = record base {
  number = 403;
  hash = 403;
  parent_hash = 402;
  sealer = 8;
  recents = (402, 9) ∷ (403, 8) ∷ [];
  attestation = some (votes_for 402);
}

abbrev at_402 : Sender (List Snapshot)
at_402 = record {
  finality = base;
  store = snap_402 ∷ snap_401 ∷ base ∷ [];
  snap = snap_402;
  calc = record { checkpoint = 400; feeds = 401 ∷ 402 ∷ [] };
}

abbrev at_403 : Sender (List Snapshot)
at_403 = record {
  finality = snap_401;
  store = snap_403 ∷ snap_402 ∷ snap_401 ∷ base ∷ [];
  snap = snap_403;
  calc = record { checkpoint = 401; feeds = 402 ∷ 403 ∷ [] };
}

on_head_403 : on_head port 9 at_402 (block 403 8) ≡ (at_403, ok (some 401))
unfolding on_head finish_head apply_and_add feed calculate calculate_loop split_at newest apply
    accept advance ecrecover slice_range index from_bytes_acc contains check_recent has_value
    forget_oldest switch_validators switch_recents load_candidates update_attestation
    vote_attestation attestation_bytes decoded merge_attestation extend_attestation
    miner_history_check_len add64 sub64 mul64 insert delete
on_head_403 = refl

at_402-Follows : Follows port port-IsPort at_402
at_402-Follows = record { sound = tt; tip = refl; last = refl }

on_head_finalizes_example : Worked port port-IsPort at_402 at_403 403 (some 401)
on_head_finalizes_example =
    on_head_finalizes port port-IsPort 9 at_402 at_403 (block 403 8) (some 401) at_402-Follows tt
      on_head_403

-- Relaying.
abbrev message : Created
message = record { id = 5; gas_limit = 100 }

abbrev fresh : Transactor
fresh = record { transition = []; running = []; waitings = []; replies = [] }

abbrev code : Error → ℕ
code e = 1

fresh_reached : Reach 0 code (find []) (new_transactor 0 code) fresh
unfolding new_transactor
fresh_reached = here

relay_5 : relay 0 code (ok tt) fresh message ≡ (enqueue fresh (created_message message), ok 5)
unfolding relay busy send
relay_5 = refl

abbrev five : Result ℕ
five = ok 5

relay_reaches_example :
    Reach 0 code (find []) (new_transactor 0 code) (enqueue fresh (created_message message))
    × (((five ≡ ok message.id)
          × (busy fresh ≡ false)
          × (enqueue fresh (created_message message) ≡ enqueue fresh (created_message message)))
        ⊎ ((enqueue fresh (created_message message) ≡ fresh)
            × (e : Error) × (five ≡ err e)
            × (busy fresh ≡ true → e ≡ invalid_state)))
relay_reaches_example =
    relay_reaches 0 code (find []) (ok tt) fresh (enqueue fresh (created_message message)) message
      five fresh_reached (λ e. cc) relay_5
