-- ===== src/Tree/Rank.antt =====
-- `BlockTree.EncodeRLP` (chain/bsc2/status.go) ends on every well-formed tree: the fuel that it
-- needs is the number of blocks that hang below the root.
use btp2_bsc.Base.{
  length, ℕ, zero, suc, ◌+◌, ◌≤◌, ◌<◌, ◌≡◌, refl, sym, ap, ◌∙◌, List, [], ◌∷◌, ◌++◌, none, some,
  lookup, Result, ok, arith, Has, Has-append_cases, inl, inr, ◌≢◌, Option-cases,
}
use btp2_bsc.Tree.{
  BlockTree, slice_of, children_of, Item, count, id_of, Pair, encode_loop, encode, decode,
}
use btp2_bsc.Tree.Grow.{IsTree, Under, top_itself, child}
use btp2_bsc.Tree.Codec.{decode-encode}

total : (ℕ → ℕ) → List ℕ → ℕ
total f [] = 0
total f (x ∷ xs) = f x + total f xs

total-append : (f : ℕ → ℕ) (xs ys : List ℕ) → total f (xs ++ ys) ≡ total f xs + total f ys
unfolding total
total-append f [] ys = omega arith
total-append f (x ∷ xs) ys = omega (arith, total-append f xs ys)

total_congr :
    (f g : ℕ → ℕ) (xs : List ℕ) → ((x : ℕ) → Has x xs → f x ≡ g x) → total f xs ≡ total g xs
unfolding total
total_congr f g [] h = refl
total_congr f g (x ∷ xs) h = omega (arith, h x (inl refl), total_congr f g xs (λ y m. h y (inr m)))

module _ (nodes : List (ℕ × List ℕ)) where
  -- The number of blocks at or below a block, to a depth.
  unfoldable pub size : ℕ → ℕ → ℕ
  unfolding total
  size zero k = 0
  size (suc depth) k = suc (total (size depth) (slice_of (lookup k nodes)))

  module _ (rank : ℕ → ℕ)
      (falls : (k c : ℕ) → Has c (slice_of (lookup k nodes)) → rank c < rank k) where
    size_stable : (depth k : ℕ) → rank k < depth → size (suc depth) k ≡ size depth k
    unfolding size
    size_stable zero k h = absurd (omega arith)
    size_stable (suc depth) k h = ap suc (
        total_congr (size (suc depth)) (size depth) (slice_of (lookup k nodes))
          (λ c m. size_stable depth c (omega (arith, falls k c m))))

    encode_loop_ends :
        (fuel depth : ℕ) (queue : List ℕ)
        → ((q : ℕ) → Has q queue → rank q < depth)
        → total (size depth) queue ≤ fuel
        → (out : List Item) × (encode_loop fuel nodes queue ≡ some out)
    unfolding encode_loop total size
    encode_loop_ends zero depth [] all h = ([], refl)
    encode_loop_ends (suc fuel) depth [] all h = ([], refl)
    encode_loop_ends fuel zero (node ∷ queue) all h = absurd (omega (arith, all node (inl refl)))
    encode_loop_ends zero (suc depth) (node ∷ queue) all h = absurd (omega arith)
    encode_loop_ends (suc fuel) (suc depth) (node ∷ queue) all h =
        let tmp = slice_of (lookup node nodes) in
        let below = λ (c : ℕ) (m : Has c tmp). falls node c m in
        let same =
          total_congr (size (suc depth)) (size depth) tmp
            (λ c m. size_stable depth c (omega (arith, falls node c m, all node (inl refl)))) in
        let (ret, e) =
          encode_loop_ends fuel (suc depth) (queue ++ tmp)
            (λ q m. elim (Has-append_cases q queue tmp m) [
              | inl l ↦ all q (inr l)
              | inr r ↦ omega (arith, falls node q r, all node (inl refl))
            ])
            (omega (arith, total-append (size (suc depth)) queue tmp, same)) in
        (count (length tmp) ∷ id_of node ∷ ret, rw (e, encode_loop))

-- The blocks that hang below the root.
unfoldable pub tree_size : (t : BlockTree) → IsTree t → ℕ
tree_size t tree = size t.nodes (suc (tree.rank t.root)) t.root

-- What hangs below the root is a key.
pub Under-key :
    (t : BlockTree) → IsTree t → (k : ℕ) → Under t.nodes t.root k → lookup k t.nodes ≢ none
Under-key t tree k top_itself = tree.rooted
Under-key t tree k (child {k = j} u h) = tree.keyed j k h

-- What `EncodeRLP` gives of a well-formed tree decodes to the same tree.
pub decode_same :
    (past_end : List Item → Result (Pair × List Item)) (t : BlockTree) (tree : IsTree t) (fuel : ℕ)
    (out : List Item)
    → encode fuel t ≡ some out
    → (t' : BlockTree) × (decode past_end fuel out ≡ ok t')
      × (t'.root ≡ t.root)
      × ((k : ℕ) → lookup k t'.nodes ≡ lookup k t.nodes)
unfolding children_of
decode_same past_end t tree fuel out e =
    let (t', d, r, there, back) = decode-encode past_end fuel t out e in
    (t', d, r, λ k. same t' there back k)
  where
    same :
        (t' : BlockTree)
        → ((k : ℕ) → Under t.nodes t.root k → lookup k t'.nodes ≡ some (children_of t k))
        → ((k : ℕ) (hs : List ℕ) → lookup k t'.nodes ≡ some hs → Under t.nodes t.root k)
        → (k : ℕ) → lookup k t'.nodes ≡ lookup k t.nodes
    same t' there back k = elim (Option-cases (lookup k t.nodes)) [
      | inr (hs, e) ↦ there k (tree.reached k (λ n. cc)) ∙ rw e refl
      | inl e ↦ elim (Option-cases (lookup k t'.nodes)) [
        | inl e' ↦ e' ∙ sym e
        | inr (hs, e') ↦ absurd (Under-key t tree k (back k hs e') e)
      ]
    ]

-- On a well-formed tree, with fuel for its size, `EncodeRLP` ends, and `DecodeRLP` gives back the
-- same tree: the root, the keys and the children of every block, whatever the iterator does past
-- its end.
pub encode-decode :
    (past_end : List Item → Result (Pair × List Item)) (t : BlockTree) (tree : IsTree t) (fuel : ℕ)
    → tree_size t tree ≤ fuel
    → (out : List Item) × (t' : BlockTree) × (encode fuel t ≡ some out)
      × (decode past_end fuel out ≡ ok t')
      × (t'.root ≡ t.root)
      × ((k : ℕ) → lookup k t'.nodes ≡ lookup k t.nodes)
unfolding tree_size encode total
encode-decode past_end t tree fuel h =
    let (out, e) =
      encode_loop_ends t.nodes tree.rank tree.falls fuel (suc (tree.rank t.root)) (t.root ∷ [])
        (λ q m. elim m [ inl r ↦ rw r (omega arith) | inr f ↦ absurd f ]) (omega arith) in
    let (t', d, r, same) = decode_same past_end t tree fuel out e in (out, t', e, d, r, same)
