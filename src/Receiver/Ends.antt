-- ===== src/Receiver/Ends.antt =====
-- `BuildBlockUpdate` on a chain without forks (chain/bsc2/receiver.go): the state of its loop, and
-- the end of a round.
pub mod Loop
pub mod Start
pub mod Fork
use btp2_bsc.Base.{
  ℕ, zero, suc, ◌+◌, ◌-◌, ◌≤◌, ◌<◌, ◌^◌, ◌≡◌, ◌≢◌, refl, sym, ap, subst, ◌∙◌, inl, inr, List, [],
  ◌∷◌, ◌++◌, Option, none, some, Bool, true, false, lookup, leb, ltb, ◌==◌, ◌&&◌, not, length,
  arith, Result, ok, err, panics, Bool-cases, Option-cases, ==_iff, ==_refl, ==_ne, add64,
}
use btp2_bsc.Chain.{Header}
use btp2_bsc.Snapshot.State.{Snapshot}
use btp2_bsc.Tree.{BlockTree, add, prune}
use btp2_bsc.Tree.Grow.{IsTree, add-IsTree, add-Grown, add_rank, add_errors}
use btp2_bsc.Tree.Kept.{prune_ends, prune-IsTree, pruned_to, prune_rank}
use btp2_bsc.Tree.Pruning.{prune_lem}
use btp2_bsc.Tree.Line.{
  last_or, Descends, Descends_split, add-Descends, prune-Descends, last_known, last_below,
  line_known,
}
use btp2_bsc.Calculator.{Calculator, feed, newest}
use btp2_bsc.Client.{Message}
use btp2_bsc.Receiver.{Building, size_of, has_messages, finish_round, build_round, build_loop}
use btp2_bsc.Receiver.Mainline.{
  Mainline, run, run_snoc, run_append, run_last, newest-run, above, feed-run,
}

module _ (get : ℕ → Result Snapshot) (messages : ℕ → Result (List Message)) (chain : ℕ → Snapshot)
    (low high : ℕ) (main : Mainline get chain low high) where
  open main use {distinct}

  -- The messages of every block can be had.
  abbrev pub Answers : Type 0
  Answers = (hash : ℕ) → (ms : List Message) × (messages hash ≡ ok ms)

  has_messages_ends :
      Answers → (fs : List ℕ) → (found : Bool) × (has_messages get messages fs ≡ ok found)
  unfolding has_messages
  has_messages_ends answers [] = (false, refl)
  has_messages_ends answers (f ∷ fs) =
      let (ms, p) = answers f in
      let (found, later) = has_messages_ends answers fs in
      elim (Bool-cases (length ms == 0)) [
        | inl empty ↦ (found, rw (has_messages, p, empty) later)
        | inr yes_some ↦ (true, rw (has_messages, p, yes_some) refl)
      ]

  -- The root is at one height, the calculator's checkpoint at another, and the blocks go up to a
  -- third: the tree has the line of them, and none of the blocks above.
  pub record On (bound r c n : ℕ) (b : Building get messages) : Type 0 where
    pub from_low : low ≤ r
    pub settled : r ≤ c
    pub upto : c ≤ n
    pub in_range : n ≤ high
    pub tree : IsTree b.blocks
    pub ranked : tree.rank b.blocks.root + (high - n) ≤ bound
    pub root : b.blocks.root ≡ (chain r).hash
    pub calc : b.calc ≡ above chain c n
    pub line : Descends b.blocks.nodes b.blocks.root (run chain (suc r) (n - r))
    pub fresh : (m : ℕ) → n < m → m ≤ high → lookup (chain m).hash b.blocks.nodes ≡ none

  module _ (answers : Answers) (fuel bound : ℕ) (enough : bound < fuel) where
    -- The tree is pruned at a block above the root.
    module _ (r d c n : ℕ) (b : Building get messages) (on : On bound r c n b)
        (e : c ≡ suc r + d) where
      -- The line, first down to that block, then below it.
      two_lines :
          Descends b.blocks.nodes b.blocks.root
            (run chain (suc r) (suc d) ++ run chain (suc c) (n - c))
      two_lines =
          let upto = on.upto in
          let at : suc r + suc d ≡ suc c = omega arith in
          subst (Descends b.blocks.nodes b.blocks.root)
            (run_append chain (suc r) (suc d) (n - c) (n - r) (omega arith)
              ∙ ap (λ k. run chain (suc r) (suc d) ++ run chain k (n - c)) at)
            on.line

      first_line : Descends b.blocks.nodes b.blocks.root (run chain (suc r) (suc d))
      first_line =
          (Descends_split b.blocks.nodes b.blocks.root (run chain (suc r) (suc d))
            (run chain (suc c) (n - c)) two_lines).0

      last_final : last_or (chain (suc r)).hash (run chain (suc (suc r)) d) ≡ (chain c).hash
      last_final = run_last chain (suc r) d ∙ ap (λ k. (chain k).hash) (sym e)

      known_final : lookup (chain c).hash b.blocks.nodes ≢ none
      known_final =
          subst (λ k. lookup k b.blocks.nodes ≢ none) last_final
            (last_known b.blocks on.tree b.blocks.root _ _ first_line)

      final_below : on.tree.rank (chain c).hash < on.tree.rank b.blocks.root
      final_below =
          subst (λ k. on.tree.rank k < on.tree.rank b.blocks.root) last_final
            (last_below b.blocks on.tree b.blocks.root _ _ first_line)

      final_other : (chain c).hash ≢ b.blocks.root
      final_other q = omega (arith, final_below, ap on.tree.rank q)

      pruned-On :
          (t' : BlockTree) (finalities : ℕ) (found : Bool)
          → prune fuel b.blocks (chain c).hash ≡ some t'
          → On bound c c n (record b { finalities = finalities; blocks = t'; exists = found })
      pruned-On t' finalities found p =
          let (root, gone, kept) = prune_lem b.blocks (chain c).hash fuel t' p in
          record {
            from_low = omega (arith, on.from_low, on.settled);
            settled = omega arith;
            upto = on.upto;
            in_range = on.in_range;
            tree = prune-IsTree b.blocks on.tree (chain c).hash final_other known_final fuel t' p;
            ranked = omega (
              arith,
              prune_rank b.blocks on.tree (chain c).hash final_other known_final fuel t' p t'.root,
              ap on.tree.rank root,
              final_below,
              on.ranked,
            );
            root = root;
            calc = on.calc;
            line =
                (prune-Descends b.blocks on.tree fuel t' (chain (suc r)).hash
                  (run chain (suc (suc r)) d) (run chain (suc c) (n - c))
                  (ap (prune fuel b.blocks) last_final ∙ p) two_lines).2;
            fresh = λ m h k. elim (kept (chain m).hash) [
              | inl cut ↦ gone (chain m).hash cut
              | inr same ↦ same ∙ on.fresh m h k
            ];
          }

      pruned_round :
          (b' : Building get messages) × (finish_round get messages fuel b
              (run chain (suc r) (suc d))
            ≡ ok b')
          × On bound c c n b'
          × (b'.number ≡ b.number)
      unfolding finish_round
      pruned_round =
          let ranked = on.ranked in
          let (t', p) =
            prune_ends b.blocks on.tree (chain c).hash final_other known_final fuel
              (omega (arith, enough)) in
          let (found, q) = has_messages_ends answers (run chain (suc r) (suc d)) in
          let newest_final : newest (run chain (suc r) (suc d)) ≡ some ((chain c).hash) =
            newest-run chain (suc r) d ∙ ap (λ k. some ((chain k).hash)) (sym e) in
          let finalities = add64 b.finalities (length (run chain (suc r) (suc d))) in
          (
            record b { finalities = finalities; blocks = t'; exists = found },
            rw (finish_round, newest_final, p, q) refl,
            pruned-On t' finalities found p,
            refl,
          )

    pub finish_round-On :
        (r c n : ℕ) (b : Building get messages)
        → On bound r c n b
        → (b' : Building get messages) × (finish_round get messages fuel b
              (run chain (suc r) (c - r))
            ≡ ok b')
          × On bound c c n b'
          × (b'.number ≡ b.number)
    unfolding finish_round newest
    finish_round-On r c n b on = elim (Bool-cases (r == c)) [
      | inl y ↦
          let same : r ≡ c = (==_iff r c).0 y in
          let none_left : 0 ≡ c - r = omega (arith, same) in
          (
            b,
            subst (λ k. finish_round get messages fuel b (run chain (suc r) k) ≡ ok b) none_left
                refl,
            subst (λ k. On bound k c n b) same on,
            refl,
          )
      | inr y ↦
          let further : r < c = ground (arith, on.settled) in
          let (b', e, on', same) = pruned_round r (c - suc r) c n b on (omega arith) in
          let len : suc (c - suc r) ≡ c - r = omega arith in
          (
            b',
            subst (λ k. finish_round get messages fuel b (run chain (suc r) k) ≡ ok b') len e,
            on',
            same,
          )
    ]
