-- ===== src/Tree/Codec.antt =====
-- `BlockTree.EncodeRLP` and `DecodeRLP` (chain/bsc2/status.go): the round trip.
use btp2_bsc.Base.{
  ℕ, zero, suc, ◌≡◌, refl, sym, ap, ◌∙◌, ◌⊎◌, inl, inr, List, [], ◌∷◌, ◌++◌, some, length, lookup,
  insert, lookup-insert, Result, ok, ◌>>=◌, arith, Has, Option-cases, subst, Has-append_left,
  Has-append_right, Has-append_cases,
}
use mathlib.Core.List.{append_assoc}
use btp2_bsc.Tree.Grow.{Under, top_itself, child}
use btp2_bsc.Tree.{
  BlockTree, slice_of, children_of, Item, count, id_of, encode_loop, encode, Pair, ids, read_pair,
  read_children, decode_loop, read_root, decode,
}

-- The pair that the encoder writes for one node.
abbrev pair_of : List (ℕ × List ℕ) → ℕ → Pair
pair_of nodes h = record { id = h; sz = length (slice_of (lookup h nodes)) }

abbrev pairs : List (ℕ × List ℕ) → List ℕ → List Pair
pairs nodes [] = []
pairs nodes (h ∷ hs) = pair_of nodes h ∷ pairs nodes hs

abbrev items_of : List Pair → List Item
items_of [] = []
items_of (p ∷ ps) = count p.sz ∷ id_of p.id ∷ items_of ps

pairs-append :
    (nodes : List (ℕ × List ℕ)) (xs ys : List ℕ)
    → pairs nodes (xs ++ ys) ≡ pairs nodes xs ++ pairs nodes ys
pairs-append nodes [] ys = refl
pairs-append nodes (x ∷ xs) ys = ap (◌∷◌ (pair_of nodes x)) (pairs-append nodes xs ys)

items_of-append : (ps qs : List Pair) → items_of (ps ++ qs) ≡ items_of ps ++ items_of qs
items_of-append [] qs = refl
items_of-append (p ∷ ps) qs = rw (items_of-append ps qs)

ids-pairs : (nodes : List (ℕ × List ℕ)) (hs : List ℕ) → ids (pairs nodes hs) ≡ hs
ids-pairs nodes [] = refl
ids-pairs nodes (h ∷ hs) = ap (◌∷◌ h) (ids-pairs nodes hs)

module _ (past_end : List Item → Result (Pair × List Item)) where
  read_children-pairs :
      (nodes : List (ℕ × List ℕ)) (hs : List ℕ) (rest : List Item)
      → read_children past_end (length hs) (items_of (pairs nodes hs) ++ rest)
        ≡ ok (pairs nodes hs, rest)
  unfolding read_children read_pair
  read_children-pairs nodes [] rest = refl
  read_children-pairs nodes (h ∷ hs) rest = rw (read_children-pairs nodes hs rest)

encode_loop-step :
    (fuel : ℕ) (nodes : List (ℕ × List ℕ)) (node : ℕ) (queue : List ℕ) (out : List Item)
    → encode_loop (suc fuel) nodes (node ∷ queue) ≡ some out
    → (ret : List Item) × (encode_loop fuel nodes (queue ++ slice_of (lookup node nodes))
        ≡ some ret)
      × (out ≡ count (length (slice_of (lookup node nodes))) ∷ id_of node ∷ ret)
unfolding encode_loop
encode_loop-step fuel nodes node queue out h =
    elim (Option-cases (encode_loop fuel nodes (queue ++ slice_of (lookup node nodes)))) [
      | inl e ↦ ground arith
      | inr (ret, e) ↦ (ret, e, ground arith)
    ]

-- The nodes in the order in which the encoder takes them off its queue.
visited : ℕ → List (ℕ × List ℕ) → List ℕ → List ℕ
visited fuel nodes [] = []
visited zero nodes (node ∷ queue) = []
visited (suc fuel) nodes (node ∷ queue) =
    node ∷ visited fuel nodes (queue ++ slice_of (lookup node nodes))

-- The map that the decoder builds for them.
stored : ℕ → List (ℕ × List ℕ) → List ℕ → List (ℕ × List ℕ) → List (ℕ × List ℕ)
stored fuel nodes [] acc = acc
stored zero nodes (node ∷ queue) acc = acc
stored (suc fuel) nodes (node ∷ queue) acc =
    let tmp = slice_of (lookup node nodes) in stored fuel nodes (queue ++ tmp) (insert node tmp acc)

module _ (past_end : List Item → Result (Pair × List Item)) (nodes : List (ℕ × List ℕ)) where
  decode_loop-step :
      (fuel node : ℕ) (queue : List ℕ) (rest : List Item) (acc : List (ℕ × List ℕ))
      → decode_loop past_end
          (suc fuel)
          (pairs nodes (node ∷ queue))
          (items_of (pairs nodes (slice_of (lookup node nodes))) ++ rest)
          acc
        ≡ decode_loop past_end fuel
            (pairs nodes (queue ++ slice_of (lookup node nodes)))
            rest
            (insert node (slice_of (lookup node nodes)) acc)
  unfolding decode_loop
  decode_loop-step fuel node queue rest acc =
      let tmp = slice_of (lookup node nodes) in
      rw (read_children-pairs past_end nodes tmp rest, ◌>>=◌)
        (rw (ids-pairs nodes tmp, pairs-append nodes queue tmp))

  -- The decoder, with the queue's pairs read, follows the encoder.
  decode_loop-encode_loop :
      (fuel : ℕ) (queue : List ℕ) (out : List Item)
      → encode_loop fuel nodes queue ≡ some out
      → (rest : List Item) × (out ≡ items_of (pairs nodes queue) ++ rest)
        × ((acc : List (ℕ × List ℕ))
            → decode_loop past_end fuel (pairs nodes queue) rest acc
              ≡ ok (stored fuel nodes queue acc))
  unfolding encode_loop decode_loop stored
  decode_loop-encode_loop zero [] out h = ([], cc, λ acc. refl)
  decode_loop-encode_loop (suc fuel) [] out h = ([], cc, λ acc. refl)
  decode_loop-encode_loop zero (node ∷ queue) out h = cc
  decode_loop-encode_loop (suc fuel) (node ∷ queue) out h =
      let tmp = slice_of (lookup node nodes) in
      let (ret, e, o) = encode_loop-step fuel nodes node queue out h in
      let (rest, r, follows) = decode_loop-encode_loop fuel (queue ++ tmp) ret e in
      (
        items_of (pairs nodes tmp) ++ rest,
        rw (o, r, pairs-append nodes queue tmp, items_of-append (pairs nodes queue))
            (rw append_assoc),
        λ acc. decode_loop-step fuel node queue rest acc ∙ follows (insert node tmp acc),
      )

module _ (nodes : List (ℕ × List ℕ)) where
  has-lookup-stored :
      (fuel : ℕ) (queue : List ℕ) (acc : List (ℕ × List ℕ)) (k : ℕ)
      → (Has k (visited fuel nodes queue) ⊎ (lookup k acc ≡ some (slice_of (lookup k nodes))))
      → lookup k (stored fuel nodes queue acc) ≡ some (slice_of (lookup k nodes))
  unfolding stored visited
  has-lookup-stored zero [] acc k (inr h) = h
  has-lookup-stored zero [] acc k (inl h) = absurd h
  has-lookup-stored (suc fuel) [] acc k (inr h) = h
  has-lookup-stored (suc fuel) [] acc k (inl h) = absurd h
  has-lookup-stored zero (node ∷ queue) acc k (inr h) = h
  has-lookup-stored zero (node ∷ queue) acc k (inl h) = absurd h
  has-lookup-stored (suc fuel) (node ∷ queue) acc k h =
      let tmp = slice_of (lookup node nodes) in
      has-lookup-stored fuel (queue ++ tmp) (insert node tmp acc) k
        (ground (arith, lookup-insert node k tmp acc, h))

  lookup-stored-cases :
      (fuel : ℕ) (queue : List ℕ) (acc : List (ℕ × List ℕ)) (k : ℕ)
      → Has k (visited fuel nodes queue) ⊎ (lookup k (stored fuel nodes queue acc) ≡ lookup k acc)
  unfolding stored visited
  lookup-stored-cases zero [] acc k = inr refl
  lookup-stored-cases (suc fuel) [] acc k = inr refl
  lookup-stored-cases zero (node ∷ queue) acc k = inr refl
  lookup-stored-cases (suc fuel) (node ∷ queue) acc k =
      let tmp = slice_of (lookup node nodes) in
      ground (
        arith,
        lookup-stored-cases fuel (queue ++ tmp) (insert node tmp acc) k,
        lookup-insert node k tmp acc,
      )

  -- All that waits in the queue of a run that ends is visited.
  visited_of_queue :
      (fuel : ℕ) (queue : List ℕ) (out : List Item) (k : ℕ)
      → encode_loop fuel nodes queue ≡ some out
      → Has k queue
      → Has k (visited fuel nodes queue)
  unfolding visited encode_loop
  visited_of_queue zero [] out k e h = absurd h
  visited_of_queue (suc fuel) [] out k e h = absurd h
  visited_of_queue zero (node ∷ queue) out k e h = cc
  visited_of_queue (suc fuel) (node ∷ queue) out k e (inl h) = inl h
  visited_of_queue (suc fuel) (node ∷ queue) out k e (inr h) =
      let (ret, e', o) = encode_loop-step fuel nodes node queue out e in
      inr (visited_of_queue fuel _ ret k e' (Has-append_left k queue _ h))

  -- The visited nodes are closed under children.
  visited_closed :
      (fuel : ℕ) (queue : List ℕ) (out : List Item) (k c : ℕ)
      → encode_loop fuel nodes queue ≡ some out
      → Has k (visited fuel nodes queue)
      → Has c (slice_of (lookup k nodes))
      → Has c (visited fuel nodes queue)
  unfolding visited encode_loop
  visited_closed zero [] out k c e h m = absurd h
  visited_closed (suc fuel) [] out k c e h m = absurd h
  visited_closed zero (node ∷ queue) out k c e h m = cc
  visited_closed (suc fuel) (node ∷ queue) out k c e (inl h) m =
      let (ret, e', o) = encode_loop-step fuel nodes node queue out e in
      inr (
        visited_of_queue fuel _ ret c e'
          (Has-append_right c queue _ (subst (λ j. Has c (slice_of (lookup j nodes))) h m)))
  visited_closed (suc fuel) (node ∷ queue) out k c e (inr h) m =
      let (ret, e', o) = encode_loop-step fuel nodes node queue out e in
      inr (visited_closed fuel _ ret k c e' h m)

lookup_nil : (k : ℕ) (hs : List ℕ) → ¬ (lookup k [] ≡ some hs)
unfolding lookup
lookup_nil k hs h = cc

module _ (nodes : List (ℕ × List ℕ)) (top : ℕ) where
  Under-of_visited :
      (fuel : ℕ) (queue : List ℕ) (k : ℕ)
      → ((q : ℕ) → Has q queue → Under nodes top q)
      → Has k (visited fuel nodes queue)
      → Under nodes top k
  unfolding visited
  Under-of_visited zero [] k all h = absurd h
  Under-of_visited (suc fuel) [] k all h = absurd h
  Under-of_visited zero (node ∷ queue) k all h = absurd h
  Under-of_visited (suc fuel) (node ∷ queue) k all (inl h) = all k (inl h)
  Under-of_visited (suc fuel) (node ∷ queue) k all (inr h) =
      Under-of_visited fuel (queue ++ slice_of (lookup node nodes)) k
        (λ q m. elim (Has-append_cases q queue _ m) [
          | inl l ↦ all q (inr l)
          | inr r ↦ child (all node (inl refl)) r
        ])
        h

  visited_of_under :
      (fuel : ℕ) (out : List Item) {k : ℕ}
      → encode_loop fuel nodes (top ∷ []) ≡ some out
      → Under nodes top k
      → Has k (visited fuel nodes (top ∷ []))
  visited_of_under fuel out e top_itself =
      visited_of_queue nodes fuel (top ∷ []) out top e (inl refl)
  visited_of_under fuel out e (child {k} {c} u m) =
      visited_closed nodes fuel (top ∷ []) out k c e (visited_of_under fuel out e u) m

module _ (past_end : List Item → Result (Pair × List Item)) where
  -- Whatever `EncodeRLP` writes, `DecodeRLP` reads back: it ends without an error, the root is
  -- the same, the decoded map has the children of every block under the root, and no other key.
  pub decode-encode :
      (fuel : ℕ) (t : BlockTree) (out : List Item)
      → encode fuel t ≡ some out
      → (t' : BlockTree) × (decode past_end fuel out ≡ ok t')
        × (t'.root ≡ t.root)
        × ((k : ℕ) → Under t.nodes t.root k → lookup k t'.nodes ≡ some (children_of t k))
        × ((k : ℕ) (hs : List ℕ) → lookup k t'.nodes ≡ some hs → Under t.nodes t.root k)
  unfolding encode decode read_root read_pair children_of
  decode-encode fuel t out e =
      let (rest, o, follows) = decode_loop-encode_loop past_end t.nodes fuel (t.root ∷ []) out e in
      (
        record { root = t.root; nodes = stored fuel t.nodes (t.root ∷ []) [] },
        rw (o, follows []),
        refl,
        λ k u.
            has-lookup-stored t.nodes fuel (t.root ∷ []) [] k
              (inl (visited_of_under t.nodes t.root fuel out e u)),
        λ k hs h. elim (lookup-stored-cases t.nodes fuel (t.root ∷ []) [] k) [
          | inl v ↦
              Under-of_visited t.nodes t.root fuel (t.root ∷ []) k
                (λ q m. elim m [ inl r ↦ rw r top_itself | inr f ↦ absurd f ]) v
          | inr no_key ↦ absurd (lookup_nil k hs (sym no_key ∙ h))
        ],
      )
