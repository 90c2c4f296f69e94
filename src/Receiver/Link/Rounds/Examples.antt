-- ===== src/Receiver/Link/Rounds/Examples.antt =====
-- A round at a peer with a fork of one block, 13 below 12: two more blocks are built on, and 13
-- becomes final.
use btp2_bsc.Base.{
  ℕ, ◌≤◌, ◌≡◌, refl, inl, List, [], ◌∷◌, some, arith, Result, ok, panics, add64, lookup, insert,
  delete,
}
use btp2_bsc.Tree.{
  Item, Pair, count, id_of, encode_status, encode, encode_loop, decode_status, decode, decode_loop,
  read_root, read_pair, read_children, new_block_tree, children_of, add, prune, prune_loop,
  prune_round, keep_leaves,
}
use btp2_bsc.Tree.Grow.{new_block_tree-IsTree, add-IsTree}
use btp2_bsc.Calculator.{feed, calculate, calculate_loop, split_at, newest}
use btp2_bsc.Receiver.{
  Peer, BlockUpdate, first_found, select_fork, has_messages, finish_round, build_round, build_loop,
  start_building, pack, new_status, build_block_update,
}
use btp2_bsc.Receiver.Examples.{get, no_messages, head}
use btp2_bsc.Receiver.Rooted.{IsHashed, Rooted, build_block_update_roots}
use btp2_bsc.Receiver.Relay.{MessageProof, receive_sequence}
use btp2_bsc.Receiver.Link.{
  BmcLinkStatus, update_item, message_item, update_link_status, update_by_all, peer_of,
}
use btp2_bsc.Receiver.Link.Rounds.{
  Relayed, begun, round, IsRooted, Next, relayed-IsRooted, round_goes_on,
}

abbrev stale : List Item → Result (Pair × List Item)
stale items = panics

abbrev pub forked : Peer
forked = record {
  number = 2;
  hash = 12;
  sequence = 4;
  blocks = record { root = 12; nodes = (12, 13 ∷ []) ∷ (13, []) ∷ [] };
}

abbrev built_on : BlockUpdate
built_on = record {
  headers = head 4 ∷ head 5 ∷ [];
  start = 3;
  height = 3;
  status = record {
    offset = 0;
    block_tree = record { root = 13; nodes = (13, 14 ∷ []) ∷ (14, 15 ∷ []) ∷ (15, []) ∷ [] };
  };
}

build_two :
    build_block_update get no_messages (λ n. some (head n)) 9 9 5 0 forked 2000 ≡ ok (built_on ∷ [])
unfolding build_block_update build_loop build_round finish_round start_building pack select_fork
    first_found has_messages children_of add prune prune_loop prune_round keep_leaves feed calculate
    calculate_loop split_at newest add64 lookup insert delete
build_two = refl

get_hashes : IsHashed get no_messages
get_hashes h s e = ground (arith, e)

grow-forked : add (new_block_tree 12) 12 13 ≡ ok forked.blocks
unfolding add new_block_tree lookup insert
grow-forked = refl

pub forked-IsRooted : IsRooted get no_messages stale forked
forked-IsRooted = (
  add-IsTree (new_block_tree 12) forked.blocks 12 13 grow-forked (new_block_tree-IsTree 12),
  refl,
)

build_block_update_roots_example :
    Rooted get no_messages forked (select_fork get no_messages 9 12 forked.blocks) built_on
build_block_update_roots_example =
    build_block_update_roots get no_messages (λ n. some (head n)) 9 9 5 0 forked 2000
      (built_on ∷ []) built_on get_hashes forked-IsRooted.0 forked-IsRooted.1 build_two (inl refl)

abbrev one_message : MessageProof
one_message = record { hash = 9; proofs = record { key = 1 ∷ []; proof = [] } ∷ []; sequence = 5 }

abbrev link_before : BmcLinkStatus
link_before = record { rx_seq = 4; height = 2; extra = (0, []) }

abbrev link_after : BmcLinkStatus
link_after = record {
  rx_seq = 5;
  height = 3;
  extra = (0, count 1 ∷ id_of 13 ∷ count 1 ∷ id_of 14 ∷ count 0 ∷ id_of 15 ∷ []);
}

take_in :
    update_by_all 9 (update_item built_on ∷ message_item one_message ∷ []) link_before
    ≡ some link_after
unfolding update_by_all update_link_status encode_status encode encode_loop receive_sequence lookup
take_in = refl

abbrev next_peer : Peer
next_peer = record {
  number = 3;
  hash = 13;
  sequence = 5;
  blocks = record { root = 13; nodes = (13, 14 ∷ []) ∷ (14, 15 ∷ []) ∷ (15, []) ∷ [] };
}

read_next : peer_of stale 9 link_after ≡ ok next_peer
unfolding peer_of new_status decode_status decode decode_loop read_root read_pair read_children
    insert
read_next = refl

abbrev one_round : Relayed get no_messages stale forked next_peer
one_round =
    round (built_on ∷ []) built_on link_before link_after (λ n. some (head n)) 9 9 5 0 2000 9
      one_message begun build_two (inl refl) take_in read_next

relayed-IsRooted_example : IsRooted get no_messages stale next_peer
relayed-IsRooted_example =
    relayed-IsRooted get no_messages stale forked next_peer get_hashes forked-IsRooted one_round

round_goes_on_example :
    (need : ℕ) × ((fuel' : ℕ)
      → need ≤ fuel'
      → (s' : BmcLinkStatus) × (peer' : Peer) × (update_by_all fuel'
            (update_item built_on ∷ message_item one_message ∷ [])
            link_before
          ≡ some s')
        × (peer_of stale fuel' s' ≡ ok peer')
        × Next get no_messages stale forked forked
            (select_fork get no_messages 9 12 forked.blocks)
            built_on
            one_message
            link_before
            peer')
round_goes_on_example =
    round_goes_on get no_messages stale forked forked (λ n. some (head n)) 9 9 5 0 2000
      (built_on ∷ []) built_on one_message link_before get_hashes forked-IsRooted begun build_two
      (inl refl)
