-- ===== src/Tree/Examples.antt =====
-- Tests of the block tree, and its theorems at a small tree: 1 has the children 2 and 3, and 2 has 4.
use btp2_bsc.Base.{
  ℕ, suc, ◌≡◌, ◌≢◌, refl, List, [], ◌∷◌, some, none, lookup, insert, delete, Result, ok, panics,
  arith,
}
use btp2_bsc.Tree.{
  BlockTree, Item, Pair, count, id_of, new_block_tree, add, prune, prune_loop, prune_round,
  keep_leaves, encode, encode_loop, decode, decode_loop, read_root, read_pair, read_children,
}
use btp2_bsc.Tree.Grow.{IsTree, new_block_tree-IsTree, add-IsTree, Under}
use btp2_bsc.Tree.Rank.{tree_size, encode-decode}
use btp2_bsc.Tree.Kept.{prune_subtree}

abbrev two : BlockTree
two = record { root = 1; nodes = (1, 2 ∷ []) ∷ (2, []) ∷ [] }

abbrev three : BlockTree
three = record { root = 1; nodes = (1, 2 ∷ 3 ∷ []) ∷ (2, []) ∷ (3, []) ∷ [] }

abbrev sample : BlockTree
sample = record { root = 1; nodes = (1, 2 ∷ 3 ∷ []) ∷ (2, 4 ∷ []) ∷ (3, []) ∷ (4, []) ∷ [] }

abbrev stale : List Item → Result (Pair × List Item)
stale items = panics

add-two : add (new_block_tree 1) 1 2 ≡ ok two
unfolding add new_block_tree lookup insert
add-two = refl

add-three : add two 1 3 ≡ ok three
unfolding add lookup insert
add-three = refl

add_four : add three 2 4 ≡ ok sample
unfolding add lookup insert
add_four = refl

abbrev three_tree : IsTree three
three_tree =
    add-IsTree two three 1 3 add-three
      (add-IsTree (new_block_tree 1) two 1 2 add-two (new_block_tree-IsTree 1))

abbrev sample_tree : IsTree sample
sample_tree = add-IsTree three sample 2 4 add_four three_tree

encode-sample :
    encode 4 sample
    ≡ some (count 2 ∷ id_of 1 ∷ count 1 ∷ id_of 2 ∷ count 0 ∷ id_of 3 ∷ count 0 ∷ id_of 4 ∷ [])
unfolding encode encode_loop lookup
encode-sample = refl

-- A list that ends within the pair of a child is read past its end.
decode_short : decode stale 9 (count 1 ∷ id_of 1 ∷ count 0 ∷ []) ≡ panics
unfolding decode decode_loop read_root read_pair read_children
decode_short = refl

encode-decode_example :
    (out : List Item) × (t' : BlockTree) × (encode (tree_size sample sample_tree) sample ≡ some out)
    × (decode stale (tree_size sample sample_tree) out ≡ ok t')
    × (t'.root ≡ 1)
    × ((k : ℕ) → lookup k t'.nodes ≡ lookup k sample.nodes)
encode-decode_example =
    encode-decode stale sample sample_tree (tree_size sample sample_tree) (omega arith)

prune-sample : prune 3 sample 2 ≡ some (record { root = 2; nodes = (2, 4 ∷ []) ∷ (4, []) ∷ [] })
unfolding prune prune_loop prune_round keep_leaves lookup delete
prune-sample = refl

-- At the root itself nothing is left, so the root is no longer a key.
prune_at_root : prune 3 sample 1 ≡ some (record { root = 1; nodes = [] })
unfolding prune prune_loop prune_round keep_leaves lookup delete
prune_at_root = refl

known_two : lookup 2 sample.nodes ≢ none
unfolding lookup
known_two e = cc

prune_subtree_example :
    (t' : BlockTree) × (prune (suc (sample_tree.rank 1)) sample 2 ≡ some t')
    × IsTree t'
    × (t'.root ≡ 2)
    × ((k : ℕ)
        → (Under sample.nodes 2 k → lookup k t'.nodes ≡ lookup k sample.nodes)
          × (¬ Under sample.nodes 2 k → lookup k t'.nodes ≡ none))
prune_subtree_example =
    prune_subtree sample sample_tree 2 (suc (sample_tree.rank 1)) (λ e. omega arith) known_two
      (omega arith)
