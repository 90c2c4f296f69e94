-- ===== src/Tree/Line.antt =====
-- A line of blocks down a block tree (chain/bsc2/status.go): what `Add` and `Prune` make of it.
use btp2_bsc.Base.{
  ℕ, ◌<◌, ◌≡◌, ◌≢◌, refl, sym, ap, subst, List, [], ◌∷◌, ◌++◌, none, some, lookup, arith, Has, ok,
}
use btp2_bsc.Tree.{BlockTree, slice_of, add, prune}
use btp2_bsc.Tree.Grow.{
  IsTree, Under, top_itself, child, Grown, children_after, new_child, add-Grown,
}
use btp2_bsc.Tree.Kept.{pruned_to, stays, prune-IsTree}
use btp2_bsc.Calculator.{newest}

-- The last of the blocks, or the one above them.
abbrev pub last_or : ℕ → List ℕ → ℕ
last_or top [] = top
last_or top (f ∷ fs) = last_or f fs

-- Each block is a child of the one before, the first of `top`.
abbrev pub Descends : List (ℕ × List ℕ) → ℕ → List ℕ → Type 0
Descends nodes top [] = Unit {0}
Descends nodes top (f ∷ fs) = Has f (slice_of (lookup top nodes)) × Descends nodes f fs

pub newest-last_or : (top : ℕ) (fs : List ℕ) (v : ℕ) → newest fs ≡ some v → last_or top fs ≡ v
unfolding newest
newest-last_or top [] v e = cc
newest-last_or top (f ∷ []) v e = cc
newest-last_or top (f ∷ g ∷ fs) v e = newest-last_or f (g ∷ fs) v e

pub last_or-append :
    (top : ℕ) (xs ys : List ℕ) → last_or top (xs ++ ys) ≡ last_or (last_or top xs) ys
last_or-append top [] ys = refl
last_or-append top (x ∷ xs) ys = last_or-append x xs ys

module _ (nodes : List (ℕ × List ℕ)) where
  pub Descends-append :
      (top : ℕ) (xs ys : List ℕ)
      → Descends nodes top xs
      → Descends nodes (last_or top xs) ys
      → Descends nodes top (xs ++ ys)
  Descends-append top [] ys d e = e
  Descends-append top (x ∷ xs) ys (m, d) e = (m, Descends-append x xs ys d e)

  pub Descends_split :
      (top : ℕ) (xs ys : List ℕ)
      → Descends nodes top (xs ++ ys)
      → Descends nodes top xs × Descends nodes (last_or top xs) ys
  Descends_split top [] ys d = (tt, d)
  Descends_split top (x ∷ xs) ys (m, d) = let (d1, d2) = Descends_split x xs ys d in ((m, d1), d2)

  Descends-Under :
      (start top : ℕ) (xs : List ℕ)
      → Under nodes start top
      → Descends nodes top xs
      → Under nodes start (last_or top xs)
  Descends-Under start top [] u d = u
  Descends-Under start top (x ∷ xs) u (m, d) = Descends-Under start x xs (child u m) d

module _ (t : BlockTree) (tree : IsTree t) where
  pub last_known :
      (top f : ℕ) (fs : List ℕ)
      → Descends t.nodes top (f ∷ fs)
      → lookup (last_or f fs) t.nodes ≢ none
  last_known top f [] (m, d) = tree.keyed top f m
  last_known top f (g ∷ fs) (m, d) = last_known f g fs d

  pub last_below :
      (top f : ℕ) (fs : List ℕ)
      → Descends t.nodes top (f ∷ fs)
      → tree.rank (last_or f fs) < tree.rank top
  last_below top f [] (m, d) = tree.falls top f m
  last_below top f (g ∷ fs) (m, d) = omega (arith, tree.falls top f m, last_below f g fs d)

  -- The last block of a line from the root is a key.
  pub line_known :
      (fs : List ℕ) → Descends t.nodes t.root fs → lookup (last_or t.root fs) t.nodes ≢ none
  line_known [] d = tree.rooted
  line_known (f ∷ fs) d = last_known t.root f fs d

  -- A line that starts at the root goes on to the block that is added below its last.
  pub add-Descends :
      (t' : BlockTree) (parent hash : ℕ) (fs : List ℕ)
      → add t parent hash ≡ ok t'
      → last_or t.root fs ≡ parent
      → Descends t.nodes t.root fs
      → Descends t'.nodes t'.root (fs ++ hash ∷ [])
  add-Descends t' parent hash fs e at d =
      let g = add-Grown t t' parent hash e in
      subst (λ r. Descends t'.nodes r (fs ++ hash ∷ [])) (sym g.0)
        (Descends-append t'.nodes t.root fs (hash ∷ []) (after g t.root fs d)
          (rw at (new_child t t' parent hash g tree), tt))
    where
      after :
          Grown t parent hash t'
          → (top : ℕ) (fs : List ℕ) → Descends t.nodes top fs
          → Descends t'.nodes top fs
      after g top [] d = tt
      after g top (f ∷ fs) (m, d) = (children_after t t' parent hash g tree top f m, after g f fs d)

  -- Pruned at a block of a line from the root, the tree is well formed, rooted at that block, and
  -- keeps what follows on the line.
  pub prune-Descends :
      (fuel : ℕ) (t' : BlockTree) (f : ℕ) (fs rest : List ℕ)
      → prune fuel t (last_or f fs) ≡ some t'
      → Descends t.nodes t.root ((f ∷ fs) ++ rest)
      → IsTree t' × (t'.root ≡ last_or f fs) × Descends t'.nodes t'.root rest
  prune-Descends fuel t' f fs rest e d =
      let (before, after) = Descends_split t.nodes t.root (f ∷ fs) rest d in
      let until = last_or f fs in
      let known = last_known t.root f fs before in
      let below = last_below t.root f fs before in
      let other : until ≢ t.root = λ q. omega (arith, below, ap tree.rank q) in
      let root = pruned_to t tree until other known fuel t' e in
      (
        prune-IsTree t tree until other known fuel t' e,
        root,
        subst (λ r. Descends t'.nodes r rest) (sym root)
            (kept other known until rest top_itself after),
      )
    where
      kept :
          (last_or f fs ≢ t.root)
          → (lookup (last_or f fs) t.nodes ≢ none)
          → (top : ℕ) (xs : List ℕ) → Under t.nodes (last_or f fs) top
          → Descends t.nodes top xs
          → Descends t'.nodes top xs
      kept other known top [] u d = tt
      kept other known top (x ∷ xs) u (m, d) = (
        rw (stays t tree (last_or f fs) other known fuel t' e u) m,
        kept other known x xs (child u m) d,
      )
