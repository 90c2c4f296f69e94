-- ===== src/Receiver/Examples.antt =====
-- The receiver at a chain of three new blocks, of which the first becomes final, and at a cache of
-- three messages.
use btp2_bsc.Base.{
  ℕ, ◌+◌, ◌-◌, ◌*◌, ◌≤◌, ◌≡◌, ◌≢◌, refl, inl, List, [], ◌∷◌, Option, none, some, leb, ◌==◌,
  if◌then◌else◌, arith, not_found, Result, ok, err, add64, lookup, insert, delete,
}
use btp2_bsc.Chain.{Header, VoteData}
use btp2_bsc.Snapshot.State.{Snapshot}
use btp2_bsc.Tree.{children_of, add, prune, prune_loop, prune_round, keep_leaves}
use btp2_bsc.Calculator.{feed, calculate, calculate_loop, split_at, newest}
use btp2_bsc.Client.{Message}
use btp2_bsc.Receiver.{
  Peer, BlockUpdate, first_found, select_fork, has_messages, finish_round, build_round, build_loop,
  start_building, pack, build_block_update,
}
use btp2_bsc.Receiver.Update.{Chained, build_block_update_links}
use btp2_bsc.Receiver.Relay.{
  headers_len, same_height, collect_messages, MessageProof, size_of_proof, prove_messages, as_proof,
  build_message_proof, count_up, insertion_order,
}
use btp2_bsc.Receiver.Proof.{Sound, build_message_proof-Sound}

abbrev pub vote : ℕ → VoteData
vote n = record {
  source_number = n - 2;
  source_hash = 8 + n;
  target_number = n - 1;
  target_hash = 9 + n;
}

abbrev pub block : ℕ → Snapshot
block n = record {
  number = n;
  hash = 10 + n;
  parent_hash = 9 + n;
  sealer = 0;
  validators = [];
  candidates = [];
  recents = [];
  attestation = some (vote n);
  curr_turn_length = 1;
  next_turn_length = 1;
}

abbrev pub get : ℕ → Result Snapshot
get hash = if leb 10 hash then ok (block (hash - 10)) else err not_found

abbrev pub no_messages : ℕ → Result (List Message)
no_messages hash = ok []

abbrev pub head : ℕ → Header
head n = record {
  number = n;
  hash = 10 + n;
  parent_hash = 9 + n;
  time = n;
  coinbase = 0;
  extra = [];
  size = 100;
}

abbrev peer : Peer
peer = record {
  number = 2;
  hash = 12;
  sequence = 0;
  blocks = record { root = 12; nodes = (12, []) ∷ [] };
}

abbrev built : BlockUpdate
built = record {
  headers = head 3 ∷ head 4 ∷ head 5 ∷ [];
  start = 3;
  height = 3;
  status = record {
    offset = 0;
    block_tree = record { root = 13; nodes = (13, 14 ∷ []) ∷ (14, 15 ∷ []) ∷ (15, []) ∷ [] };
  };
}

build_five :
    build_block_update get no_messages (λ n. some (head n)) 9 9 5 0 peer 2000 ≡ ok (built ∷ [])
unfolding build_block_update build_loop build_round finish_round start_building pack select_fork
    first_found has_messages children_of add prune prune_loop prune_round keep_leaves feed calculate
    calculate_loop split_at newest add64 lookup insert delete
build_five = refl

build_block_update_links_example :
    (q : ℕ) × Chained (start_building get no_messages 9 peer 2000).parent built.headers q
    × (built.headers ≢ [])
    × (headers_len built.headers * 5 ≤ 2000)
build_block_update_links_example =
    build_block_update_links get no_messages (λ n. some (head n)) 9 9 5 0 peer 2000 (built ∷ [])
      built build_five (inl refl)

abbrev message : ℕ → ℕ → Message
message seq number = record {
  seq = seq;
  block_number = number;
  block_hash = number;
  tx_index = seq;
}

abbrev cached : ℕ → Option Message
cached k = if k == 5 then some (message 5 20) else if k == 6 then some (message 6 20) else none

cached_keyed : (k : ℕ) (m : Message) → cached k ≡ some m → m.seq ≡ k
cached_keyed k m e = ground (arith, e)

abbrev key_of : ℕ → Result (List ℕ)
key_of index = ok (index ∷ [])

abbrev trie : ℕ → Result (List ℕ → Result (List (List ℕ)))
trie hash = ok (λ key. ok ((1 ∷ 2 ∷ []) ∷ key ∷ []))

abbrev proved : MessageProof
proved = record {
  hash = 20;
  proofs =
      record { key = 5 ∷ []; proof = (1 ∷ 2 ∷ []) ∷ (5 ∷ []) ∷ [] }
      ∷ record { key = 6 ∷ []; proof = (1 ∷ 2 ∷ []) ∷ (6 ∷ []) ∷ [] }
      ∷ [];
  sequence = 5;
}

prove_two : build_message_proof cached key_of trie 9 30 4 6 ≡ ok (some proved)
unfolding build_message_proof collect_messages same_height prove_messages as_proof size_of_proof
    add64
prove_two = refl

build_message_proof-Sound_example : Sound cached key_of trie 30 4 6 proved
build_message_proof-Sound_example =
    build_message_proof-Sound cached key_of trie 9 30 4 6 proved cached_keyed (omega arith)
      prove_two

-- Message 6 at the height of message 5, but in the block 21 of another fork.
abbrev forked : ℕ → Option Message
forked k =
    if k == 5
    then some (message 5 20)
    else if k == 6
    then some (record (message 6 20) { block_hash = 21 })
    else none

-- Both are proved in the trie of the block 20.
prove_forked : build_message_proof forked key_of trie 9 30 4 6 ≡ ok (some proved)
unfolding build_message_proof collect_messages same_height prove_messages as_proof size_of_proof
    add64
prove_forked = refl

three_receipts : insertion_order 3 ≡ 1 ∷ 2 ∷ 0 ∷ []
unfolding insertion_order count_up
three_receipts = refl
