-- ===== src/Tree/Kept.antt =====
-- `BlockTree.Prune` (chain/bsc2/status.go) on a well-formed tree: it ends, keeps exactly the blocks
-- at or under the new root, and the tree stays well formed.
use btp2_bsc.Base.{
  ℕ, ◌≤◌, ◌<◌, ◌≡◌, ◌≢◌, ◌⊎◌, inl, inr, [], ◌∷◌, none, some, lookup, arith, Has, Option-cases,
  subst, refl, sym, ◌∙◌,
}
use native.Mathlib.Decide.{ℕ_discrete}
use btp2_bsc.Tree.{BlockTree, slice_of, prune}
use btp2_bsc.Tree.Grow.{IsTree, Under, top_itself, child}
use btp2_bsc.Tree.Pruning.{Cut, cut_root, cut_child, prune_lem, loop_ends}

module _ (t : BlockTree) (tree : IsTree t) (until : ℕ) where
  -- Everything below the root is cut off or hangs below `until`.
  Cut-or_Under :
      {k : ℕ} → Under t.nodes t.root k → Cut t.nodes t.root until k ⊎ Under t.nodes until k
  Cut-or_Under top_itself = inl cut_root
  Cut-or_Under (child {k} {c} u m) = elim (ℕ_discrete c until) [
    | yes e ↦ inr (rw e top_itself)
    | no n ↦ elim (Cut-or_Under u) [
      | inl cut ↦ inl (cut_child cut m n)
      | inr under ↦ inr (child under m)
    ]
  ]

  Cut-cases :
      {k : ℕ}
      → Cut t.nodes t.root until k
      → (k ≡ t.root)
        ⊎ ((j : ℕ) × Cut t.nodes t.root until j × Has k (slice_of (lookup j t.nodes)) × (k ≢ until))
  Cut-cases cut_root = inl refl
  Cut-cases (cut_child {k} u m n) = inr (k, u, m, n)

  -- Not both.
  not-Cut-Under : {k : ℕ} → until ≢ t.root → Under t.nodes until k → ¬ Cut t.nodes t.root until k
  not-Cut-Under other top_itself c = elim (Cut-cases c) [
    | inl e ↦ other e
    | inr (j, _, _, n) ↦ n refl
  ]
  not-Cut-Under other (child {k} {c = c'} u m) c = elim (Cut-cases c) [
    | inl e ↦ tree.root_free k (rw e at m)
    | inr (j, u', m', n) ↦
        not-Cut-Under other u (subst (Cut t.nodes t.root until) (tree.one_parent j k c' m' m) u')
  ]

  rank_le : {k : ℕ} → Under t.nodes until k → tree.rank k ≤ tree.rank until
  rank_le top_itself = omega arith
  rank_le (child {k} {c} u m) = omega (arith, rank_le u, tree.falls k c m)

  module _ (other : until ≢ t.root) (known : lookup until t.nodes ≢ none) where
    pub prune_ends :
        (fuel : ℕ) → tree.rank t.root < fuel → (t' : BlockTree) × (prune fuel t until ≡ some t')
    unfolding prune
    prune_ends fuel h =
        let (out, e) =
          loop_ends t until tree.rank fuel t.nodes (t.root ∷ []) tree.falls
            (λ q m. elim m [ inl r ↦ rw r h | inr f ↦ absurd f ]) in
        (record { root = until; nodes = out }, rw (e, prune))

    module _ (fuel : ℕ) (t' : BlockTree) (e : prune fuel t until ≡ some t') where
      pub pruned_to : t'.root ≡ until
      pruned_to = (prune_lem t until fuel t' e).0

      pub stays : {k : ℕ} → Under t.nodes until k → lookup k t'.nodes ≡ lookup k t.nodes
      stays {k} u = elim ((prune_lem t until fuel t' e).2 k) [
        | inl cut ↦ absurd (not-Cut-Under other u cut)
        | inr same ↦ same
      ]

      -- What is left was there before and hangs below `until`.
      left-Under :
          (k : ℕ)
          → lookup k t'.nodes ≢ none
          → Under t.nodes until k × (lookup k t'.nodes ≡ lookup k t.nodes)
      left-Under k h = elim ((prune_lem t until fuel t' e).2 k) [
        | inl cut ↦ absurd (h ((prune_lem t until fuel t' e).1 k cut))
        | inr same ↦ elim (Cut-or_Under (tree.reached k (λ n. h (same ∙ n)))) [
          | inl cut ↦ absurd (h ((prune_lem t until fuel t' e).1 k cut))
          | inr u ↦ (u, same)
        ]
      ]

      -- A child that is left, with its parent.
      left_child :
          (k c : ℕ)
          → Has c (slice_of (lookup k t'.nodes))
          → Under t.nodes until k × Has c (slice_of (lookup k t.nodes))
      left_child k c m = let (u, same) = left-Under k (λ n. rw n at m) in (u, rw same at m)

      Under-left : {k : ℕ} → Under t.nodes until k → Under t'.nodes t'.root k
      Under-left top_itself = rw pruned_to top_itself
      Under-left (child {k} {c} u m) = child (Under-left u) (rw (stays u) m)

      known-Under : {k : ℕ} → Under t.nodes until k → lookup k t.nodes ≢ none
      known-Under top_itself = known
      known-Under (child {k} {c} u m) = tree.keyed k c m

      pub prune-IsTree : IsTree t'
      prune-IsTree = record {
        rank = tree.rank;
        falls = λ k c m. tree.falls k c (left_child k c m).1;
        keyed = λ k c m.
            let (u, m') = left_child k c m in λ n. tree.keyed k c m' (sym (stays (child u m')) ∙ n);
        rooted = λ n. known (sym (stays top_itself) ∙ rw pruned_to at n);
        one_parent = λ j k c m m'. tree.one_parent j k c (left_child j c m).1 (left_child k c m').1;
        root_free = λ k m.
            let (u, m') = left_child k t'.root m in
            omega (arith, rank_le u, tree.falls k until (rw pruned_to at m'));
        reached = λ k h. Under-left (left-Under k h).0;
      }

      pub prune_rank : (k : ℕ) → prune-IsTree.rank k ≡ tree.rank k
      unfolding prune-IsTree
      prune_rank k = refl

      prune_keeps :
          (k : ℕ)
          → (Under t.nodes until k → lookup k t'.nodes ≡ lookup k t.nodes)
            × (¬ Under t.nodes until k → lookup k t'.nodes ≡ none)
      prune_keeps k = (
        λ u. stays u,
        λ n. elim (Option-cases (lookup k t'.nodes)) [
          | inl e' ↦ e'
          | inr (hs, e') ↦ absurd (n (left-Under k (λ z. cc)).0)
        ],
      )

-- On a well-formed tree, with fuel above the rank of the root, `Prune` at a known block other than
-- the root returns a well-formed tree that is rooted there: the entries at and under that block are
-- as before, and no other is left.
pub prune_subtree :
    (t : BlockTree) (tree : IsTree t) (until fuel : ℕ)
    → until ≢ t.root
    → lookup until t.nodes ≢ none
    → tree.rank t.root < fuel
    → (t' : BlockTree) × (prune fuel t until ≡ some t')
      × IsTree t'
      × (t'.root ≡ until)
      × ((k : ℕ)
          → (Under t.nodes until k → lookup k t'.nodes ≡ lookup k t.nodes)
            × (¬ Under t.nodes until k → lookup k t'.nodes ≡ none))
prune_subtree t tree until fuel other known h =
    let (t', e) = prune_ends t tree until other known fuel h in
    (
      t',
      e,
      prune-IsTree t tree until other known fuel t' e,
      pruned_to t tree until other known fuel t' e,
      prune_keeps t tree until other known fuel t' e,
    )
