-- ===== src/Receiver/Ends/Loop.antt =====
-- The rounds of `BuildBlockUpdate` on a chain without forks, and the whole (chain/bsc2/receiver.go).
use btp2_bsc.Base.{
  ℕ, zero, suc, ◌+◌, ◌-◌, ◌≤◌, ◌<◌, ◌^◌, ◌≡◌, ◌≢◌, refl, sym, ap, subst, ◌∙◌, inl, inr, List, [],
  ◌∷◌, ◌++◌, Option, none, some, lookup, leb, ltb, ◌&&◌, not, arith, Result, ok, ◌>>=◌, Bool-cases,
  Option-cases, ==_iff, ==_ne, add64, add64_lt,
}
use btp2_bsc.Chain.{Header}
use btp2_bsc.Snapshot.State.{Snapshot}
use btp2_bsc.Tree.{BlockTree, add}
use btp2_bsc.Tree.Grow.{add-IsTree, add-Grown, add_rank, add_errors}
use btp2_bsc.Tree.Line.{last_or, Descends, add-Descends, line_known}
use btp2_bsc.Calculator.{feed}
use btp2_bsc.Client.{Message}
use btp2_bsc.Receiver.{Building, size_of, finish_round, build_round, build_loop}
use btp2_bsc.Receiver.Mainline.{Mainline, run, fed_run, run_last, above, feed-run}
use btp2_bsc.Receiver.Ends.{Answers, On, finish_round-On}

-- A round, from what its parts answer.
build_round_made :
    (get : ℕ → Result Snapshot) (messages : ℕ → Result (List Message)) (fuel : ℕ)
    (b b' : Building get messages) (head : Header) (grown : BlockTree) (finals : List ℕ)
    → add b.blocks head.parent_hash head.hash ≡ ok grown
    → (feed get fuel b.calc head.hash).1 ≡ ok finals
    → finish_round get messages fuel
        (record b {
          limit = b.limit - size_of get messages head;
          heads = b.heads ++ head ∷ [];
          blocks = grown;
          calc = (feed get fuel b.calc head.hash).0;
        })
        finals
      ≡ ok b'
    → build_round get messages fuel b head
      ≡ ok (record b' { number = add64 b.number 1; parent = head.hash })
unfolding build_round
build_round_made get messages fuel b b' head grown finals e f d =
    rw (build_round, e, f)
      (ap
        (λ (r : Result (Building get messages)).
          r >>= λ x. ok (record x { number = add64 b.number 1; parent = head.hash }))
        d)

module _ (get : ℕ → Result Snapshot) (messages : ℕ → Result (List Message)) (chain : ℕ → Snapshot)
    (low high : ℕ) (main : Mainline get chain low high)
    (answers : Answers get messages chain low high main) (fuel bound : ℕ) (enough : bound < fuel)
    (far : high ≤ low + fuel) (small : high + 2 < 2 ^ 64) where
  open main use {distinct, linked}

  -- Between two rounds.
  abbrev pub Ready : ℕ → Building get messages → Type 0
  Ready n b =
      (r : ℕ) × On get messages chain low high main bound r r n b
      × (b.parent ≡ (chain n).hash)
      × (b.number ≡ suc n)

  -- The header of a block of the chain.
  abbrev pub IsHeader : ℕ → Header → Type 0
  IsHeader n head =
      (n ≤ high) × (head.hash ≡ (chain n).hash) × (head.parent_hash ≡ (chain n).parent_hash)

  module _ (r n : ℕ) (b : Building get messages) (head : Header)
      (on : On get messages chain low high main bound r r n b) (k : suc n ≤ high)
      (hash : head.hash ≡ (chain (suc n)).hash) (parent : head.parent_hash ≡ (chain n).hash) where
    last_parent : last_or b.blocks.root (run chain (suc r) (n - r)) ≡ head.parent_hash
    last_parent =
        let upto = on.upto in
        let top : r + (n - r) ≡ n = omega arith in
        ap (λ t. last_or t (run chain (suc r) (n - r))) on.root
        ∙ run_last chain r (n - r)
        ∙ ap (λ m. (chain m).hash) top
        ∙ sym parent

    -- The block is added to the tree and fed.
    with_head-On :
        (grown : BlockTree) (f : ℕ)
        → r ≤ f
        → f ≤ suc n
        → feed get fuel b.calc head.hash ≡ (above chain f (suc n), ok (run chain (suc r) (f - r)))
        → add b.blocks head.parent_hash head.hash ≡ ok grown
        → On get messages chain low high main bound r f (suc n) (record b {
          limit = b.limit - size_of get messages head;
          heads = b.heads ++ head ∷ [];
          blocks = grown;
          calc = (feed get fuel b.calc head.hash).0;
        })
    with_head-On grown f lower upper fed e =
        let g = add-Grown b.blocks grown head.parent_hash head.hash e in
        let upto = on.upto in
        let len : suc (n - r) ≡ suc n - r = omega arith in
        record {
          from_low = on.from_low;
          settled = lower;
          upto = upper;
          in_range = k;
          tree = add-IsTree b.blocks grown head.parent_hash head.hash e on.tree;
          ranked =
              omega
                (arith, add_rank b.blocks grown head.parent_hash head.hash e on.tree, on.ranked);
          root = g.0 ∙ on.root;
          calc = ap (λ x. x.0) fed;
          line =
              subst (Descends grown.nodes grown.root)
                (ap (λ h. run chain (suc r) (n - r) ++ h ∷ []) hash
                  ∙ fed_run chain r n upto
                  ∙ ap (run chain (suc r)) len)
                (add-Descends b.blocks on.tree grown head.parent_hash head.hash
                  (run chain (suc r) (n - r)) e last_parent on.line);
          fresh = λ m h j.
              rw
                (
                  g.3 (chain m).hash,
                  ==_ne head.hash (chain m).hash
                      (λ q. omega (arith, distinct (suc n) m (sym hash ∙ q))),
                  ==_ne head.parent_hash (chain m).hash
                      (λ q. omega (arith, distinct n m (sym parent ∙ q))),
                )
                (on.fresh m (omega arith) j);
        }

    known_parent : lookup head.parent_hash b.blocks.nodes ≢ none
    known_parent =
        subst (λ h. lookup h b.blocks.nodes ≢ none) last_parent
          (line_known b.blocks on.tree (run chain (suc r) (n - r)) on.line)

    new_hash : lookup head.hash b.blocks.nodes ≡ none
    new_hash = ap (λ h. lookup h b.blocks.nodes) hash ∙ on.fresh (suc n) (omega arith) k

    build_round_added :
        (grown : BlockTree)
        → b.number ≡ suc n
        → add b.blocks head.parent_hash head.hash ≡ ok grown
        → (b' : Building get messages) × (build_round get messages fuel b head ≡ ok b')
          × Ready (suc n) b'
    build_round_added grown number e =
        let from_low = on.from_low in
        let (f, lower, upper, fe) =
          feed-run get chain low high main fuel r n from_low on.upto k (omega arith) in
        let fed =
          ap (λ c. feed get fuel c head.hash) on.calc
          ∙ ap (feed get fuel (above chain r n)) hash
          ∙ fe in
        let (b', finished, done, _) =
          finish_round-On get messages chain low high main answers fuel bound enough r f (suc n) _
            (with_head-On grown f lower upper fed e) in
        let next : add64 (suc n) 1 ≡ suc (suc n) = add64_lt (suc n) 1 (omega arith) ∙ omega arith in
        (
          record b' { number = add64 b.number 1; parent = head.hash },
          build_round_made get messages fuel b b' head grown (run chain (suc r) (f - r)) e
              (ap (λ x. x.1) fed) finished,
          (
            f,
            record {
              from_low = done.from_low;
              settled = done.settled;
              upto = done.upto;
              in_range = done.in_range;
              tree = done.tree;
              ranked = done.ranked;
              root = done.root;
              calc = done.calc;
              line = done.line;
              fresh = done.fresh;
            },
            hash,
            ap (λ m. add64 m 1) number ∙ next,
          ),
        )

  build_round_ends :
      (n : ℕ) (b : Building get messages) (head : Header)
      → Ready n b
      → IsHeader (suc n) head
      → (b' : Building get messages) × (build_round get messages fuel b head ≡ ok b')
        × Ready (suc n) b'
  build_round_ends n b head (r, on, _, number) (k, hash, named) =
      let parent = named ∙ linked n in
      elim (add_errors b.blocks head.parent_hash head.hash) [
        | inl (there, _) ↦ absurd (there (new_hash r n b head on k hash parent))
        | inr (inl (_, missing, _)) ↦ absurd (known_parent r n b head on k hash parent missing)
        | inr (inr (_, _, (grown, e))) ↦
            build_round_added r n b head on k hash parent grown number e
      ]

  module _ (heads : ℕ → Option Header)
      (of_chain : (n : ℕ) (h : Header) → heads n ≡ some h → IsHeader n h) where
    -- The loop ends, with a round left for each height up to the last.
    pub build_loop_ends :
        (cache rounds n : ℕ) (b : Building get messages)
        → Ready n b
        → cache + 1 ≤ suc n + rounds
        → (b' : Building get messages) × (build_loop get messages heads fuel cache (suc rounds) b
            ≡ ok b')
    unfolding build_loop
    build_loop_ends cache zero n b ready left =
        elim (Bool-cases (leb b.number cache && not b.exists)) [
          | inr stop ↦ (b, rw (build_loop, stop) refl)
          | inl go ↦ absurd (ground (arith, go, left, ready.3))
        ]
    build_loop_ends cache (suc rounds) n b ready left =
        elim (Bool-cases (leb b.number cache && not b.exists)) [
          | inr stop ↦ (b, rw (build_loop, stop) refl)
          | inl go ↦ elim (Option-cases (heads b.number)) [
            | inl no_head ↦ (b, rw (build_loop, go, no_head) refl)
            | inr (head, there) ↦
                let (r, on, last, number) = ready in
                let header = subst (λ k. IsHeader k head) number (of_chain b.number head there) in
                let next =
                  (==_iff b.parent head.parent_hash).1 (last ∙ sym (linked n) ∙ sym header.2) in
                elim (Bool-cases (ltb b.limit (size_of get messages head))) [
                  | inl full ↦ (b, rw (build_loop, go, there, next, full) refl)
                  | inr fits ↦
                      let (b', built, ready') = build_round_ends n b head ready header in
                      let (b'', done) =
                        build_loop_ends cache rounds (suc n) b' ready' (omega arith) in
                      (b'', rw (build_loop, go, there, next, fits, built) done)
                ]
          ]
        ]
