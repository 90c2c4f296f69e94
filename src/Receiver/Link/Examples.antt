-- ===== src/Receiver/Link/Examples.antt =====
-- A block update and a message proof on a link status, and a block proof, at small inputs.
use btp2_bsc.Base.{
  add64, ℕ, ◌+◌, ◌-◌, ◌≡◌, refl, List, [], ◌∷◌, some, Result, ok, panics, arith, lookup, insert,
}
use btp2_bsc.Chain.{Header}
use btp2_bsc.Tree.{BlockTree, Item, Pair, new_block_tree, add}
use btp2_bsc.Tree.Grow.{IsTree, new_block_tree-IsTree, add-IsTree}
use btp2_bsc.Tree.Rank.{tree_size}
use btp2_bsc.Receiver.{Peer, BlockUpdate}
use btp2_bsc.Receiver.Relay.{MessageProof, type_to_uint, prefix_parts, sync_rounds}
use btp2_bsc.Receiver.Sync.{sync_acc}
use btp2_bsc.Receiver.Link.{
  BmcLinkStatus, BlockProof, update_item, proof_item, message_item, item_type, update_by_all,
  build_relay_message, peer_of, build_block_proof,
}
use btp2_bsc.Receiver.Link.Status.{update-peer_of}

abbrev two : BlockTree
two = record { root = 1; nodes = (1, 2 ∷ []) ∷ (2, []) ∷ [] }

abbrev stale : List Item → Result (Pair × List Item)
stale items = panics

add-two : add (new_block_tree 1) 1 2 ≡ ok two
unfolding add new_block_tree lookup insert
add-two = refl

abbrev two_tree : IsTree two
two_tree = add-IsTree (new_block_tree 1) two 1 2 add-two (new_block_tree-IsTree 1)

abbrev new_blocks : BlockUpdate
new_blocks = record {
  headers = [];
  start = 7;
  height = 9;
  status = record { offset = 0; block_tree = two };
}

abbrev messages : MessageProof
messages = record { hash = 9; proofs = record { key = 1 ∷ []; proof = [] } ∷ []; sequence = 5 }

abbrev before : BmcLinkStatus
before = record { rx_seq = 4; height = 6; extra = (0, []) }

update-peer_of_example :
    (s' : BmcLinkStatus) × (peer : Peer) × (update_by_all
        (tree_size two two_tree)
        (update_item new_blocks ∷ message_item messages ∷ [])
        before
      ≡ some s')
    × (peer_of stale (tree_size two two_tree) s' ≡ ok peer)
    × (peer.number ≡ 9)
    × (peer.sequence ≡ 4 + 1)
    × (peer.hash ≡ 1)
    × ((k : ℕ) → lookup k peer.blocks.nodes ≡ lookup k two.nodes)
update-peer_of_example =
    update-peer_of stale (tree_size two two_tree) new_blocks messages before two_tree (omega arith)

abbrev block : ℕ → Header
block number = record {
  number = number;
  hash = 100 + number;
  parent_hash = 99 + number;
  time = number;
  coinbase = 0;
  extra = [];
  size = 600;
}

abbrev peer : Peer
peer = record { number = 8; hash = 108; sequence = 4; blocks = two }

abbrev proof : BlockProof
proof = record { header = block 7; acc_height = 9; witness = 8 ∷ 9 ∷ [] }

-- The accumulator takes in the blocks 7 and 8 first.
proof_of_7 :
    build_block_proof
      (λ h. ok (block (h - 100)))
      (λ n. ok (block n))
      (ok tt)
      (λ h at. ok (h ∷ at ∷ []))
      7
      peer
      7
    ≡ (107 ∷ 108 ∷ [], ok proof)
unfolding build_block_proof sync_acc sync_rounds add64
proof_of_7 = refl

abbrev only_type : List (ℕ × List ℕ) → Result (List ℕ)
only_type [] = ok []
only_type (part ∷ parts) = ok (part.0 ∷ [])

relay_a_proof :
    build_relay_message
      (λ part. ok (1 ∷ []))
      only_type
      (proof_item proof ∷ update_item new_blocks ∷ [])
    ≡ ok (2 ∷ [])
unfolding build_relay_message prefix_parts item_type type_to_uint
relay_a_proof = refl
