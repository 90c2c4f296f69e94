-- ===== src/Tree/Pruning.antt =====
-- `BlockTree.Prune` (chain/bsc2/status.go): which blocks go, which stay, and that the loop ends.
use btp2_bsc.Base.{
  ℕ, zero, suc, ◌≤◌, ◌<◌, ◌≡◌, ◌≢◌, refl, subst, ◌⊎◌, inl, inr, List, [], ◌∷◌, ◌++◌, none, some,
  lookup, delete, lookup-delete, arith, Has, Has-append_cases, Has-append_left, Has-append_right,
  Option-cases,
}
use mathlib.Core.List.{append_assoc, append-nil}
use btp2_bsc.Tree.{BlockTree, slice_of, keep_leaves, prune_round, prune_loop, prune}

-- The blocks that can be reached from the root without passing `until`.
pub data Cut (nodes : List (ℕ × List ℕ)) (root until : ℕ) : ℕ → Type 0 where
  cut_root : Cut nodes root until root
  cut_child :
      {k c : ℕ}
      → Cut nodes root until k
      → Has c (slice_of (lookup k nodes))
      → c ≢ until
      → Cut nodes root until c

keep_leaves-Has :
    (until c : ℕ) (leaves : List ℕ) → Has c (keep_leaves until leaves) → Has c leaves × (c ≢ until)
unfolding keep_leaves
keep_leaves-Has until c [] h = absurd h
keep_leaves-Has until c (leaf ∷ leaves) h = ground (arith, keep_leaves-Has until c leaves)

Has-keep_leaves :
    (until c : ℕ) (leaves : List ℕ) → Has c leaves → c ≢ until → Has c (keep_leaves until leaves)
unfolding keep_leaves
Has-keep_leaves until c [] h n = h
Has-keep_leaves until c (leaf ∷ leaves) h n = ground (arith, Has-keep_leaves until c leaves)

-- Between two removals: `gone` lists the removed blocks, `pending` those still to remove.
record Pruned (t : BlockTree) (until : ℕ) (cur : List (ℕ × List ℕ)) (gone pending : List ℕ)
    : Type 0 where
  absent : (k : ℕ) → Has k gone → lookup k cur ≡ none
  kept : (k : ℕ) → Has k gone ⊎ (lookup k cur ≡ lookup k t.nodes)
  closed :
      (k c : ℕ)
      → Has k gone
      → Has c (slice_of (lookup k t.nodes))
      → c ≢ until
      → Has c gone ⊎ Has c pending
  started : Has t.root gone ⊎ Has t.root pending
  cut_gone : (k : ℕ) → Has k gone → Cut t.nodes t.root until k
  cut_pending : (k : ℕ) → Has k pending → Cut t.nodes t.root until k

module _ (t : BlockTree) (until : ℕ) where
  module _ (cur : List (ℕ × List ℕ)) (gone : List ℕ) (x : ℕ) (pending : List ℕ)
      (h : Pruned t until cur gone (x ∷ pending)) where
    abbrev leaves : List ℕ
    leaves = keep_leaves until (slice_of (lookup x cur))

    -- A block that was still to remove, or a child of the removed one.
    settle :
        (c : ℕ) → Has c gone ⊎ Has c (x ∷ pending) → Has c (x ∷ gone) ⊎ Has c (pending ++ leaves)
    settle c (inl g) = inl (inr g)
    settle c (inr (inl e)) = inl (inl e)
    settle c (inr (inr p)) = inr (Has-append_left c pending leaves p)

    closed_after :
        (k c : ℕ)
        → Has k (x ∷ gone)
        → Has c (slice_of (lookup k t.nodes))
        → c ≢ until
        → Has c (x ∷ gone) ⊎ Has c (pending ++ leaves)
    closed_after k c (inr g) m n = settle c (h.closed k c g m n)
    closed_after k c (inl e) m n = elim (h.kept x) [
      | inl g ↦ settle c (h.closed x c g (rw e at m) n)
      | inr same ↦ inr (
          Has-append_right c pending leaves
            (Has-keep_leaves until c (slice_of (lookup x cur)) (rw (same, ← e) m) n))
    ]

    Cut-leaf : (k : ℕ) → Has k leaves → Cut t.nodes t.root until k
    Cut-leaf k m =
        let (l, n) = keep_leaves-Has until k (slice_of (lookup x cur)) m in
        elim (h.kept x) [
          | inl g ↦ absurd (rw (h.absent x g) at l)
          | inr same ↦ cut_child (h.cut_pending x (inl refl)) (rw same at l) n
        ]

    -- One removal.
    remove_one : Pruned t until (delete x cur) (x ∷ gone) (pending ++ leaves)
    remove_one = record {
      absent = λ k m. ground (arith, lookup-delete x k cur, h.absent k);
      kept = λ k. ground (arith, lookup-delete x k cur, h.kept k);
      closed = closed_after;
      started = settle t.root h.started;
      cut_gone = λ k m. elim m [ inl e ↦ h.cut_pending k (inl e) | inr g ↦ h.cut_gone k g ];
      cut_pending = λ k m. elim (Has-append_cases k pending leaves m) [
        | inl p ↦ h.cut_pending k (inr p)
        | inr l ↦ Cut-leaf k l
      ];
    }

  round-Pruned :
      (cur : List (ℕ × List ℕ)) (gone removals buf : List ℕ)
      → Pruned t until cur gone (removals ++ buf)
      → (gone' : List ℕ) × Pruned t until
          (prune_round until removals cur buf).0
          gone'
          (prune_round until removals cur buf).1
  unfolding prune_round
  round-Pruned cur gone [] buf h = (gone, h)
  round-Pruned cur gone (x ∷ removals) buf h =
      round-Pruned (delete x cur) (x ∷ gone) removals _
        (rw append_assoc at (remove_one cur gone x (removals ++ buf) h))

  loop-Pruned :
      (fuel : ℕ) (cur : List (ℕ × List ℕ)) (gone removals : List ℕ) (out : List (ℕ × List ℕ))
      → Pruned t until cur gone removals
      → prune_loop fuel until removals cur ≡ some out
      → (gone' : List ℕ) × Pruned t until out gone' []
  unfolding prune_loop
  loop-Pruned zero cur gone [] out h e = (gone, subst (λ c. Pruned t until c gone []) (cc) h)
  loop-Pruned (suc fuel) cur gone [] out h e = (gone, subst (λ c. Pruned t until c gone []) (cc) h)
  loop-Pruned zero cur gone (x ∷ rs) out h e = cc
  loop-Pruned (suc fuel) cur gone (x ∷ rs) out h e =
      let (gone', h') = round-Pruned cur gone (x ∷ rs) [] (rw append-nil h) in
      loop-Pruned fuel _ gone' _ out h' e

  Pruned-start : Pruned t until t.nodes [] (t.root ∷ [])
  Pruned-start = record {
    absent = λ k m. absurd m;
    kept = λ k. inr refl;
    closed = λ k c m _ _. absurd m;
    started = inr (inl refl);
    cut_gone = λ k m. absurd m;
    cut_pending = λ k m. elim m [ inl e ↦ rw e cut_root | inr f ↦ absurd f ];
  }

  gone_of_cut :
      (cur : List (ℕ × List ℕ)) (gone : List ℕ) {k : ℕ}
      → Pruned t until cur gone []
      → Cut t.nodes t.root until k
      → Has k gone
  gone_of_cut cur gone h cut_root = elim h.started [ inl g ↦ g | inr f ↦ absurd f ]
  gone_of_cut cur gone h (cut_child {k} {c} u m n) =
      elim (h.closed k c (gone_of_cut cur gone h u) m n) [ inl g ↦ g | inr f ↦ absurd f ]

  -- When `Prune` returns, the root is `until`; of the entries exactly those of the blocks that can
  -- be reached from the old root without passing `until` are removed, and every other is as before.
  pub prune_lem :
      (fuel : ℕ) (t' : BlockTree)
      → prune fuel t until ≡ some t'
      → (t'.root ≡ until)
        × ((k : ℕ) → Cut t.nodes t.root until k → lookup k t'.nodes ≡ none)
        × ((k : ℕ) → Cut t.nodes t.root until k ⊎ (lookup k t'.nodes ≡ lookup k t.nodes))
  unfolding prune
  prune_lem fuel t' e = elim (Option-cases (prune_loop fuel until (t.root ∷ []) t.nodes)) [
    | inl stuck ↦ ground arith
    | inr (out, ends) ↦
        let (gone, h) = loop-Pruned fuel t.nodes [] (t.root ∷ []) out Pruned-start ends in
        let e' : record { root = until; nodes = out } ≡ t' = ground arith in
        (
          rw (← e') refl,
          λ k c. rw (← e') (h.absent k (gone_of_cut out gone h c)),
          λ k. elim (h.kept k) [ inl g ↦ inl (h.cut_gone k g) | inr same ↦ inr (rw (← e') same) ],
        )
  ]

  -- The rounds fall in rank, so the loop ends.
  module _ (rank : ℕ → ℕ) where
    abbrev pub Falling : List (ℕ × List ℕ) → Type 0
    Falling cur = (k c : ℕ) → Has c (slice_of (lookup k cur)) → rank c < rank k

    round_falls :
        (cur : List (ℕ × List ℕ)) (removals buf : List ℕ) (bound : ℕ)
        → Falling cur
        → ((q : ℕ) → Has q removals → rank q ≤ bound)
        → ((q : ℕ) → Has q buf → rank q < bound)
        → Falling (prune_round until removals cur buf).0
          × ((q : ℕ) → Has q (prune_round until removals cur buf).1 → rank q < bound)
    unfolding prune_round
    round_falls cur [] buf bound f all b = (f, b)
    round_falls cur (x ∷ removals) buf bound f all b =
        round_falls (delete x cur) removals _ bound
          (λ k c m. f k c (ground (arith, lookup-delete x k cur))) (λ q m. all q (inr m))
          (λ q m. elim (Has-append_cases q buf _ m) [
            | inl o ↦ b q o
            | inr l ↦ omega (
              arith,
              f x q (keep_leaves-Has until q (slice_of (lookup x cur)) l).0,
              all x (inl refl),
            )
          ])

    pub loop_ends :
        (fuel : ℕ) (cur : List (ℕ × List ℕ)) (removals : List ℕ)
        → Falling cur
        → ((q : ℕ) → Has q removals → rank q < fuel)
        → (out : List (ℕ × List ℕ)) × (prune_loop fuel until removals cur ≡ some out)
    unfolding prune_loop
    loop_ends zero cur [] f all = (cur, refl)
    loop_ends (suc fuel) cur [] f all = (cur, refl)
    loop_ends zero cur (x ∷ rs) f all = absurd (omega (arith, all x (inl refl)))
    loop_ends (suc fuel) cur (x ∷ rs) f all =
        let (f', b) =
          round_falls cur (x ∷ rs) [] fuel f (λ q m. omega (arith, all q m)) (λ q m. absurd m) in
        loop_ends fuel _ _ f' b
