-- ===== src/Receiver.antt =====
-- chain/bsc2/receiver.go: the status, the messages of finalized blocks, and what a relay message is
-- built from. The snapshots, the caches, the node and the tries are arguments.
pub mod Relay
pub mod Update
pub mod Kept
pub mod Mainline
pub mod Ends
pub mod Rooted
pub mod Watch
pub mod Sync
pub mod Link
pub mod Start
pub mod Proof
pub mod InsertionOrder
pub mod Examples
use btp2_bsc.Base.{
  ℕ, zero, suc, ◌+◌, ◌-◌, ◌*◌, ◌%◌, List, [], ◌∷◌, ◌++◌, Option, none, some, Bool, true, false, leb,
  ltb, ◌==◌, ◌&&◌, ◌||◌, not, if◌then◌else◌, length, Error, no_cached_header, Result, ok, err,
  panics, ◌>>=◌, add64,
}
use btp2_bsc.Chain.{Header}
use btp2_bsc.Snapshot.State.{Snapshot}
use btp2_bsc.Tree.{BlockTree, VerifierStatus, children_of, add, prune}
use btp2_bsc.Calculator.{Calculator, feed, newest}
use btp2_bsc.Client.{Message}

-- `bstatus`; the block tree of the local one is nil, and not read.
pub record Bstatus : Type 0 where
  pub number : ℕ
  pub hash : ℕ
  pub sequence : ℕ
  pub cache : ℕ

-- A peer's status after its verifier status is decoded.
pub record Peer : Type 0 where
  pub number : ℕ
  pub hash : ℕ
  pub sequence : ℕ
  pub blocks : BlockTree

-- `newStatus`; a blob that does not decode panics.
unfoldable pub new_status : ℕ → ℕ → Result VerifierStatus → Result Peer
new_status height rx_seq panics = panics
new_status height rx_seq (err e) = panics
new_status height rx_seq (ok vs) = ok (record {
  number = height;
  hash = vs.block_tree.root;
  sequence = rx_seq;
  blocks = vs.block_tree;
})

unfoldable pub update_status : Bstatus → ℕ → ℕ → ℕ → Bstatus
update_status local number hash sequence = record local {
  number = number;
  hash = hash;
  sequence = if sequence == 0 then local.sequence else sequence;
}

-- `bstatus.update`, with its result `dirty`.
unfoldable pub update : Bstatus → ℕ → ℕ → ℕ → Bstatus × Bool
update o number hash sequence =
    let moved = not (number == 0) && not (o.number == number) in
    let received = not (sequence == 0) && not (o.sequence == sequence) in
    (
      record o {
        number = if moved then number else o.number;
        hash = if moved then hash else o.hash;
        sequence = if received then sequence else o.sequence;
      },
      moved || received,
    )

pub record BlockUpdate : Type 0 where
  pub headers : List Header
  pub start : ℕ
  pub height : ℕ
  pub status : VerifierStatus

-- The last sequence number of a block that is not 0, or the one before.
unfoldable pub last_sequence : ℕ → List Message → ℕ
last_sequence sequence [] = sequence
last_sequence sequence (m ∷ ms) = last_sequence (if m.seq == 0 then sequence else m.seq) ms

module _ (get : ℕ → Result Snapshot) (messages : ℕ → Result (List Message)) where
  -- `queryAndCacheMessages`: the messages put into the cache, newest first, and the sequence number
  -- with an error if there was one. The first `get` only serves a log line, and its nil snapshot is
  -- dereferenced there. Out of fuel is a panic.
  unfoldable pub query_messages : ℕ → ℕ → ℕ → ℕ → List Message → List Message × Result ℕ
  query_messages zero child ancestor sequence cached =
      (cached, (if child == ancestor then ok sequence else panics))
  query_messages (suc fuel) child ancestor sequence cached =
      if child == ancestor then (cached, ok sequence) else elim (get child) [
        | err e ↦ (cached, panics)
        | panics ↦ (cached, panics)
        | ok snap ↦ elim (messages child) [
          | err e ↦ (cached, err e)
          | panics ↦ (cached, panics)
          | ok ms ↦
              query_messages fuel snap.parent_hash ancestor (last_sequence sequence ms)
                (ms ++ cached)
        ]
      ]

  -- The first child whose snapshot is found; the zero hash stands for none.
  unfoldable pub first_found : List ℕ → ℕ
  first_found [] = 0
  first_found (child ∷ children) = elim (get child) [
    | ok snap ↦ snap.hash
    | err e ↦ first_found children
    | panics ↦ first_found children
  ]

  -- `selectFork`; out of fuel it stops.
  unfoldable pub select_fork : ℕ → ℕ → BlockTree → List ℕ
  unfolding first_found
  select_fork zero from blocks = []
  select_fork (suc fuel) from blocks =
      let hash = first_found (children_of blocks from) in
      let rest = select_fork fuel hash blocks in if hash == 0 then [] else hash ∷ rest

  -- Whether a block of the list has a message.
  unfoldable pub has_messages : List ℕ → Result Bool
  has_messages [] = ok false
  has_messages (finality ∷ finalities) =
      messages finality >>= λ ms. if length ms == 0 then has_messages finalities else ok true

  -- The variables of the loop in `BuildBlockUpdate`; the limit is not negative.
  pub record Building : Type 0 where
    pub limit : ℕ
    pub heads : List Header
    pub parent : ℕ
    pub blocks : BlockTree
    pub calc : Calculator
    pub finalities : ℕ
    pub number : ℕ
    pub exists : Bool

  abbrev size_of : Header → ℕ
  size_of head = head.size * 5

  -- The finalized blocks of a round: the tree is pruned at the last.
  unfoldable pub finish_round : ℕ → Building → List ℕ → Result Building
  finish_round fuel b finals = elim (newest finals) [
    | none ↦ ok b
    | some last ↦ elim (prune fuel b.blocks last) [
      | none ↦ panics
      | some pruned ↦ has_messages finals >>= λ found. ok (record b {
        finalities = add64 b.finalities (length finals);
        blocks = pruned;
        exists = found;
      })
    ]
  ]

  -- A round with a header that is linked and fits: it is appended, added to the tree and fed. What
  -- fails here ends in `log.Panicf`.
  unfoldable pub build_round : ℕ → Building → Header → Result Building
  build_round fuel b head = elim (add b.blocks head.parent_hash head.hash) [
    | err e ↦ panics
    | panics ↦ panics
    | ok grown ↦
        let fed = feed get fuel b.calc head.hash in
        elim fed.1 [
          | err e ↦ panics
          | panics ↦ panics
          | ok finals ↦
              finish_round fuel
                (record b {
                  limit = b.limit - size_of head;
                  heads = b.heads ++ head ∷ [];
                  blocks = grown;
                  calc = fed.0;
                })
                finals
              >>= λ b'. ok (record b' { number = add64 b.number 1; parent = head.hash })
        ]
  ]

  -- The loop, up to the height `cache`; out of fuel is `panics`.
  unfoldable pub build_loop : (ℕ → Option Header) → ℕ → ℕ → ℕ → Building → Result Building
  unfolding build_round
  build_loop heads fuel cache zero b = panics
  build_loop heads fuel cache (suc rounds) b =
      if leb b.number cache && not b.exists
      then elim (heads b.number) [
        | none ↦ ok b
        | some head ↦
            if not (b.parent == head.parent_hash)
            then panics
            else if ltb b.limit (size_of head)
            then ok b
            else build_round fuel b head >>= λ b'. build_loop heads fuel cache rounds b'
      ]
      else ok b

  unfoldable pub start_building : ℕ → Peer → ℕ → Building
  unfolding select_fork
  start_building fuel peer limit =
      let canonical = select_fork fuel peer.hash peer.blocks in
      record {
        limit = limit;
        heads = [];
        parent = elim (newest canonical) [ none ↦ peer.hash | some last ↦ last ];
        blocks = peer.blocks;
        calc = record { checkpoint = peer.hash; feeds = canonical };
        finalities = 0;
        number = add64 (add64 peer.number (length canonical)) 1;
        exists = false;
      }

  unfoldable pub pack : Peer → ℕ → Building → List BlockUpdate
  pack peer offset b =
      if length b.heads == 0
      then []
      else record {
        headers = b.heads;
        start = add64 peer.number 1;
        height = add64 peer.number b.finalities;
        status = record { offset = offset; block_tree = b.blocks };
      }
        ∷ []

  -- `BuildBlockUpdate` for a peer: no update without a header. `offset` is the accumulator's.
  unfoldable pub build_block_update :
      (ℕ → Option Header) → ℕ → ℕ → ℕ → ℕ → Peer → ℕ → Result (List BlockUpdate)
  unfolding start_building build_loop pack
  build_block_update heads fuel rounds cache offset peer limit = elim (get peer.hash) [
    | err e ↦ err no_cached_header
    | panics ↦ panics
    | ok snap ↦ build_loop heads fuel cache rounds (start_building fuel peer limit) >>= λ b.
        ok (pack peer offset b)
  ]
