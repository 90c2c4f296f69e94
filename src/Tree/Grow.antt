-- ===== src/Tree/Grow.antt =====
-- `NewBlockTree` and `BlockTree.Add` (chain/bsc2/status.go): what a well-formed tree is, and that
-- the two make such trees.
use btp2_bsc.Base.{
  false, ℕ, suc, ap, ◌≤◌, ◌<◌, ◌≡◌, ◌≢◌, refl, sym, ◌∙◌, ◌⊎◌, inl, inr, List, [], ◌∷◌, ◌++◌, none,
  some, lookup, insert, lookup-insert, ◌==◌, if◌then◌else◌, ok, err, arith, Has, duplicated_hash,
  no_parent_hash, Bool-cases, Option-cases, ==_iff, ==_refl, ==_ne, Has-append_cases,
  Has-append_left, Has-append_right, subst,
}
use btp2_bsc.Tree.{BlockTree, slice_of, add, new_block_tree}

-- `k` hangs below `top` in the tree.
pub data Under (nodes : List (ℕ × List ℕ)) (top : ℕ) : ℕ → Type 0 where
  top_itself : Under nodes top top
  child : {k c : ℕ} → Under nodes top k → Has c (slice_of (lookup k nodes)) → Under nodes top c

-- The map is a tree below the root: every child is a key, has one parent and a smaller rank, the
-- root is nobody's child, and every key hangs below the root.
pub record IsTree (t : BlockTree) : Type 0 where
  pub rank : ℕ → ℕ
  pub falls : (k c : ℕ) → Has c (slice_of (lookup k t.nodes)) → rank c < rank k
  pub keyed : (k c : ℕ) → Has c (slice_of (lookup k t.nodes)) → lookup c t.nodes ≢ none
  pub rooted : lookup t.root t.nodes ≢ none
  pub one_parent :
      (j k c : ℕ)
      → Has c (slice_of (lookup j t.nodes))
      → Has c (slice_of (lookup k t.nodes))
      → j ≡ k
  pub root_free : (k : ℕ) → ¬ Has t.root (slice_of (lookup k t.nodes))
  pub reached : (k : ℕ) → lookup k t.nodes ≢ none → Under t.nodes t.root k

-- A lookup in the one-entry map.
single : (id k : ℕ) → (c : ℕ) → ¬ Has c (slice_of (lookup k ((id, []) ∷ [])))
unfolding lookup
single id k c h = ground arith

single_reach :
    (id k : ℕ) → lookup {Value = List ℕ} k ((id, []) ∷ []) ≢ none → Under ((id, []) ∷ []) id k
unfolding lookup
single_reach id k h = elim (Bool-cases (id == k)) [
  | inl e ↦ subst (Under _ id) ((==_iff id k).0 e) top_itself
  | inr e ↦ absurd (h (rw e))
]

-- `NewBlockTree` makes a well-formed tree.
pub new_block_tree-IsTree : (id : ℕ) → IsTree (new_block_tree id)
unfolding new_block_tree
new_block_tree-IsTree id = record {
  rank = λ k. 0;
  falls = λ k c h. absurd (single id k c h);
  keyed = λ k c h. absurd (single id k c h);
  rooted = unfold lookup in ground arith;
  one_parent = λ j k c h h'. absurd (single id j c h);
  root_free = λ k h. single id k id h;
  reached = λ k h. single_reach id k h;
}

-- The children after a successful `Add`.
abbrev pub Grown : BlockTree → ℕ → ℕ → BlockTree → Type 0
Grown t parent hash t' =
    (t'.root ≡ t.root)
    × (lookup hash t.nodes ≡ none)
    × (lookup parent t.nodes ≢ none)
    × ((k : ℕ)
        → lookup k t'.nodes ≡ (
            if hash == k
            then some []
            else if parent == k
            then some (slice_of (lookup parent t.nodes) ++ hash ∷ [])
            else lookup k t.nodes))

-- What `Add` does on success: the hash was unknown and the parent known; the hash is appended to
-- the parent's children, has no children itself, and every other entry stays.
pub add-Grown :
    (t t' : BlockTree) (parent hash : ℕ) → add t parent hash ≡ ok t' → Grown t parent hash t'
unfolding add
add-Grown t t' parent hash e = elim (Option-cases (lookup hash t.nodes)) [
  | inr (hs, p) ↦ ground arith
  | inl p ↦ elim (Option-cases (lookup parent t.nodes)) [
    | inl q ↦ ground arith
    | inr (hs, q) ↦ (
      ground arith,
      p,
      λ n. ground arith,
      λ k. ground (
        arith,
        lookup-insert hash k [] (insert parent (hs ++ hash ∷ []) t.nodes),
        lookup-insert parent k (hs ++ hash ∷ []) t.nodes,
      ),
    )
  ]
]

-- `Add` fails on a known hash, else on an unknown parent, and else succeeds.
pub add_errors :
    (t : BlockTree) (parent hash : ℕ)
    → ((lookup hash t.nodes ≢ none) × (add t parent hash ≡ err duplicated_hash))
      ⊎ ((lookup hash t.nodes ≡ none)
          × (lookup parent t.nodes ≡ none)
          × (add t parent hash ≡ err no_parent_hash))
      ⊎ ((lookup hash t.nodes ≡ none)
          × (lookup parent t.nodes ≢ none)
          × ((t' : BlockTree) × (add t parent hash ≡ ok t')))
unfolding add
add_errors t parent hash = elim (Option-cases (lookup hash t.nodes)) [
  | inr (hs, e) ↦ inl (λ z. cc, ground arith)
  | inl e ↦ elim (Option-cases (lookup parent t.nodes)) [
    | inl f ↦ inr (inl (e, f, ground arith))
    | inr (ps, f) ↦ inr (
        inr (
          e,
          λ z. cc,
          (
            record t { nodes = insert hash [] (insert parent (ps ++ hash ∷ []) t.nodes) },
            ground arith,
          ),
        ))
  ]
]

module _ (t t' : BlockTree) (parent hash : ℕ) (g : Grown t parent hash t') (tree : IsTree t) where
  open tree use {rank, falls, keyed, rooted, one_parent, root_free, reached}

  ne_hash : (k : ℕ) → lookup k t.nodes ≢ none → hash ≢ k
  ne_hash k h e = h (subst (λ j. lookup j t.nodes ≡ none) e g.1)

  -- The children in the new map: those of before, and the new hash under its parent.
  children_before :
      (k c : ℕ)
      → Has c (slice_of (lookup k t'.nodes))
      → (hash ≢ k) × (Has c (slice_of (lookup k t.nodes)) ⊎ (c ≡ hash) × (k ≡ parent))
  children_before k c h = elim (Bool-cases (hash == k)) [
    | inl e ↦ absurd (rw (g.3 k, e) at h)
    | inr e ↦ elim (Bool-cases (parent == k)) [
      | inr e' ↦ (ground arith, inl (rw (g.3 k, e, e') at h))
      | inl e' ↦ (
        ground arith,
        elim (Has-append_cases c (slice_of (lookup parent t.nodes)) (hash ∷ [])
            (rw (g.3 k, e, e') at h)) [
              | inl old ↦
                  inl
                    (subst (λ j. Has c (slice_of (lookup j t.nodes))) ((==_iff parent k).0 e') old)
              | inr (inl new) ↦ inr (new, sym ((==_iff parent k).0 e'))
              | inr (inr no_more) ↦ absurd no_more
            ],
      )
    ]
  ]

  pub children_after :
      (k c : ℕ) → Has c (slice_of (lookup k t.nodes)) → Has c (slice_of (lookup k t'.nodes))
  children_after k c h = elim (Bool-cases (hash == k)) [
    | inl e ↦ absurd (rw (sym ((==_iff hash k).0 e), g.1) at h)
    | inr e ↦ elim (Bool-cases (parent == k)) [
      | inr e' ↦ rw (g.3 k, e, e') h
      | inl e' ↦
          rw (g.3 k, e, e')
            (Has-append_left c _ (hash ∷ [])
              (subst (λ j. Has c (slice_of (lookup j t.nodes))) (sym ((==_iff parent k).0 e')) h))
    ]
  ]

  keys_after : (k : ℕ) → lookup k t.nodes ≢ none → lookup k t'.nodes ≢ none
  keys_after k h = rw (g.3 k) (λ n. ground arith)

  Under-after : {k : ℕ} → Under t.nodes t.root k → Under t'.nodes t'.root k
  Under-after top_itself = rw g.0 top_itself
  Under-after (child {k} {c} u h) = child (Under-after u) (children_after k c h)

  pub new_child : Has hash (slice_of (lookup parent t'.nodes))
  new_child =
      rw (g.3 parent, ==_ne hash parent (ne_hash parent g.2), ==_refl parent)
        (Has-append_right hash (slice_of (lookup parent t.nodes)) (hash ∷ []) (inl refl))

  rank_after : ℕ → ℕ
  rank_after k = if hash == k then 0 else suc (rank k)

  falls_after : (k c : ℕ) → Has c (slice_of (lookup k t'.nodes)) → rank_after c < rank_after k
  unfolding rank_after
  falls_after k c h =
      let (ne, old_or_new) = children_before k c h in
      elim old_or_new [
        | inl old ↦ ground (arith, falls k c old, ne_hash c (keyed k c old))
        | inr (e, e') ↦ ground arith
      ]

  keyed_after : (k c : ℕ) → Has c (slice_of (lookup k t'.nodes)) → lookup c t'.nodes ≢ none
  keyed_after k c h = elim (children_before k c h).1 [
    | inl old ↦ keys_after c (keyed k c old)
    | inr (e, e') ↦ rw (g.3 c, e, ==_refl hash) (λ n. cc)
  ]

  fresh_child : (k : ℕ) → ¬ Has hash (slice_of (lookup k t.nodes))
  fresh_child k h = keyed k hash h g.1

  one_parent_after :
      (j k c : ℕ)
      → Has c (slice_of (lookup j t'.nodes))
      → Has c (slice_of (lookup k t'.nodes))
      → j ≡ k
  one_parent_after j k c h h' = elim (children_before j c h).1 [
    | inl old ↦ elim (children_before k c h').1 [
      | inl old' ↦ one_parent j k c old old'
      | inr (e, e') ↦ absurd (fresh_child j (rw e at old))
    ]
    | inr (e, e') ↦ elim (children_before k c h').1 [
      | inl old' ↦ absurd (fresh_child k (rw e at old'))
      | inr (f, f') ↦ e' ∙ sym f'
    ]
  ]

  root_free_after : (k : ℕ) → ¬ Has t'.root (slice_of (lookup k t'.nodes))
  root_free_after k h = elim (children_before k t'.root h).1 [
    | inl old ↦ root_free k (rw g.0 at old)
    | inr (e, e') ↦ rooted (rw (← g.0, e) g.1)
  ]

  reached_after : (k : ℕ) → lookup k t'.nodes ≢ none → Under t'.nodes t'.root k
  reached_after k h = elim (Bool-cases (hash == k)) [
    | inl e ↦
        subst (Under t'.nodes t'.root) ((==_iff hash k).0 e)
          (child (Under-after (reached parent g.2)) new_child)
    | inr e ↦ Under-after (reached k (known_before k e h))
  ]
    where
      known_before :
          (k : ℕ) → (hash == k) ≡ false → lookup k t'.nodes ≢ none → lookup k t.nodes ≢ none
      known_before k e h n = ground (arith, g.3 k, g.2, h)

-- `Add` keeps the tree well formed.
pub add-IsTree :
    (t t' : BlockTree) (parent hash : ℕ) → add t parent hash ≡ ok t' → IsTree t → IsTree t'
add-IsTree t t' parent hash e tree =
    let g = add-Grown t t' parent hash e in
    record {
      rank = rank_after t t' parent hash g tree;
      falls = falls_after t t' parent hash g tree;
      keyed = keyed_after t t' parent hash g tree;
      rooted = rw g.0 (keys_after t t' parent hash g tree t.root tree.rooted);
      one_parent = one_parent_after t t' parent hash g tree;
      root_free = root_free_after t t' parent hash g tree;
      reached = reached_after t t' parent hash g tree;
    }

-- The root's rank rises by one at most.
pub add_rank :
    (t t' : BlockTree) (parent hash : ℕ) (e : add t parent hash ≡ ok t') (tree : IsTree t)
    → (add-IsTree t t' parent hash e tree).rank t'.root ≤ suc (tree.rank t.root)
unfolding add-IsTree rank_after
add_rank t t' parent hash e tree =
    let same = ap tree.rank (add-Grown t t' parent hash e).0 in ground (arith, same)

-- Well-formedness only reads the root and the entries.
pub same-IsTree :
    (t t' : BlockTree)
    → t'.root ≡ t.root
    → ((k : ℕ) → lookup k t'.nodes ≡ lookup k t.nodes)
    → IsTree t
    → IsTree t'
same-IsTree t t' r same tree = record {
  rank = tree.rank;
  falls = λ k c m. tree.falls k c (rw (same k) at m);
  keyed = λ k c m. rw (same c) (tree.keyed k c (rw (same k) at m));
  rooted = rw (r, same t.root) tree.rooted;
  one_parent = λ j k c m m'. tree.one_parent j k c (rw (same j) at m) (rw (same k) at m');
  root_free = λ k m. tree.root_free k (rw (r, same k) at m);
  reached = λ k h. over (tree.reached k (rw (same k) at h));
}
  where
    over : {k : ℕ} → Under t.nodes t.root k → Under t'.nodes t'.root k
    over top_itself = rw r top_itself
    over (child {k} {c} u m) = child (over u) (rw (same k) m)
