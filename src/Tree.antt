-- ===== src/Tree.antt =====
-- chain/bsc2/status.go: the tree of not yet finalized blocks that a verifier keeps, its RLP form,
-- and the verifier status. A hash is the number that its 32 bytes spell. An RLP list is the list
-- of its items; the byte level of RLP is code of go-ethereum.
use btp2_bsc.Base.{
  ℕ, zero, suc, ◌+◌, ◌≡◌, List, [], ◌∷◌, ◌++◌, Option, none, some, Bool, true, false, length,
  lookup, insert, delete, keys, ◌==◌, if◌then◌else◌, Result, ok, err, panics, ◌>>=◌, Error,
  duplicated_hash, no_parent_hash, no_leaf_count, no_root_id, decode_failure,
}
pub mod Grow
pub mod Codec
pub mod Rank
pub mod Pruning
pub mod Kept
pub mod Line
pub mod Examples

pub record BlockTree : Type 0 where
  pub root : ℕ
  pub nodes : List (ℕ × List ℕ)

unfoldable pub new_block_tree : ℕ → BlockTree
new_block_tree id = record { root = id; nodes = (id, []) ∷ [] }

-- A missing key reads as the nil slice.
abbrev pub slice_of : Option (List ℕ) → List ℕ
slice_of none = []
slice_of (some hs) = hs

unfoldable pub children_of : BlockTree → ℕ → List ℕ
children_of t parent = slice_of (lookup parent t.nodes)

unfoldable pub has : BlockTree → ℕ → Bool
has t id = elim (lookup id t.nodes) [ none ↦ false | some _ ↦ true ]

unfoldable pub add : BlockTree → ℕ → ℕ → Result BlockTree
add t parent hash = elim (lookup hash t.nodes) [
  | some _ ↦ err duplicated_hash
  | none ↦ elim (lookup parent t.nodes) [
    | none ↦ err no_parent_hash
    | some descendants ↦
        ok (record t { nodes = insert hash [] (insert parent (descendants ++ hash ∷ []) t.nodes) })
  ]
]

-- The leaves of one removal, without `until`.
unfoldable pub keep_leaves : ℕ → List ℕ → List ℕ
keep_leaves until [] = []
keep_leaves until (leaf ∷ leaves) =
    let rest = keep_leaves until leaves in if leaf == until then rest else leaf ∷ rest

-- The loop over `removals`: the nodes without them, and `buf`.
unfoldable pub prune_round : ℕ → List ℕ → List (ℕ × List ℕ) → List ℕ → List (ℕ × List ℕ) × List ℕ
prune_round until [] nodes buf = (nodes, buf)
prune_round until (removal ∷ removals) nodes buf =
    prune_round until removals (delete removal nodes)
      (buf ++ keep_leaves until (slice_of (lookup removal nodes)))

-- The loop over the rounds; `none` means that the fuel ran out.
unfoldable pub prune_loop : ℕ → ℕ → List ℕ → List (ℕ × List ℕ) → Option (List (ℕ × List ℕ))
prune_loop fuel until [] nodes = some nodes
prune_loop zero until (r ∷ rs) nodes = none
prune_loop (suc fuel) until (r ∷ rs) nodes =
    let (nodes', buf) = prune_round until (r ∷ rs) nodes [] in prune_loop fuel until buf nodes'

unfoldable pub prune : ℕ → BlockTree → ℕ → Option BlockTree
prune fuel t until = elim (prune_loop fuel until (t.root ∷ []) t.nodes) [
  | none ↦ none
  | some nodes ↦ some (record { root = until; nodes = nodes })
]

-- An item of the RLP list: a count or a hash.
pub data Item : Type 0 where
  count : ℕ → Item
  id_of : ℕ → Item

-- The loop of `EncodeRLP` over its queue; `none` means that the fuel ran out.
unfoldable pub encode_loop : ℕ → List (ℕ × List ℕ) → List ℕ → Option (List Item)
encode_loop fuel nodes [] = some []
encode_loop zero nodes (node ∷ children) = none
encode_loop (suc fuel) nodes (node ∷ children) =
    let tmp = slice_of (lookup node nodes) in
    elim (encode_loop fuel nodes (children ++ tmp)) [
      | none ↦ none
      | some ret ↦ some (count (length tmp) ∷ id_of node ∷ ret)
    ]

unfoldable pub encode : ℕ → BlockTree → Option (List Item)
encode fuel t = encode_loop fuel t.nodes (t.root ∷ [])

pub record Pair : Type 0 where
  pub id : ℕ
  pub sz : ℕ

abbrev pub ids : List Pair → List ℕ
ids [] = []
ids (c ∷ cs) = c.id ∷ ids cs

-- What the iterator of go-ethereum hands out once the list is at its end is not code of this
-- repository: it is the parameter `past_end`.
module _ (past_end : List Item → Result (Pair × List Item)) where
  -- `it.Next()`, `rlp.DecodeBytes(it.Value(), &c.sz)`, and the same for `&c.id`.
  unfoldable pub read_pair : List Item → Result (Pair × List Item)
  read_pair [] = past_end []
  read_pair (count n ∷ []) = past_end (count n ∷ [])
  read_pair (count n ∷ id_of h ∷ rest) = ok (record { id = h; sz = n }, rest)
  read_pair (count n ∷ count m ∷ rest) = err decode_failure
  read_pair (id_of h ∷ rest) = err decode_failure

  -- The inner loop of `DecodeRLP`: the children of one item, and the items left.
  unfoldable pub read_children : ℕ → List Item → Result (List Pair × List Item)
  read_children zero rest = ok ([], rest)
  read_children (suc n) input = do
    (c, rest) ← read_pair input
    (cs, rest') ← read_children n rest
    ok (c ∷ cs, rest')

  -- The outer loop. Out of fuel is `panics`.
  unfoldable pub decode_loop :
      ℕ → List Pair → List Item → List (ℕ × List ℕ) → Result (List (ℕ × List ℕ))
  decode_loop fuel [] input nodes = ok nodes
  decode_loop zero (item ∷ items) input nodes = panics
  decode_loop (suc fuel) (item ∷ items) input nodes = read_children item.sz input >>= λ r.
      decode_loop fuel (items ++ r.0) r.1 (insert item.id (ids r.0) nodes)

  -- The two reads of the root have errors of their own where the list ends.
  unfoldable pub read_root : List Item → Result (Pair × List Item)
  read_root [] = err no_leaf_count
  read_root (count n ∷ []) = err no_root_id
  read_root (count n ∷ i ∷ rest) = read_pair (count n ∷ i ∷ rest)
  read_root (id_of h ∷ rest) = err decode_failure

  unfoldable pub decode : ℕ → List Item → Result BlockTree
  decode fuel input = read_root input >>= λ r.
      decode_loop fuel (r.0 ∷ []) r.1 [] >>= λ nodes. ok (record { root = r.0.id; nodes = nodes })

pub record VerifierStatus : Type 0 where
  pub offset : ℕ
  pub block_tree : BlockTree

-- `VerifierStatus.EncodeRLP` and `DecodeRLP`: the offset, then the tree.
unfoldable pub encode_status : ℕ → VerifierStatus → Option (ℕ × List Item)
encode_status fuel vs = elim (encode fuel vs.block_tree) [
  | none ↦ none
  | some items ↦ some (vs.offset, items)
]

unfoldable pub decode_status :
    (List Item → Result (Pair × List Item)) → ℕ → ℕ × List Item → Result VerifierStatus
decode_status past_end fuel blob =
    decode past_end fuel blob.1 >>= λ t. ok (record { offset = blob.0; block_tree = t })
