-- ===== src/Receiver/Kept.antt =====
-- The peer's block tree while `receiver.BuildBlockUpdate` works (chain/bsc2/receiver.go): with the
-- tree of chain/bsc2/status.go and the calculator of chain/bsc2/calculator.go.
use btp2_bsc.Base.{
  ok-injective, ℕ, zero, suc, ◌+◌, ◌-◌, ◌%◌, ◌≡◌, ◌≢◌, refl, sym, ap, subst, ◌∙◌, inl, inr, List,
  [], ◌∷◌, ◌++◌, Option, none, leb, ltb, ◌==◌, ◌&&◌, not, length, length-append, arith, Result, ok,
  err, panics, >>=-eq-ok, Bool-cases, Option-cases, ==_iff, add64, u64_mod,
}
use btp2_bsc.Chain.{Header}
use btp2_bsc.Snapshot.State.{Snapshot}
use btp2_bsc.Tree.{BlockTree, add, prune}
use btp2_bsc.Tree.Grow.{IsTree, add-IsTree, add-Grown}
use btp2_bsc.Tree.Line.{
  last_or, Descends, newest-last_or, last_or-append, add-Descends, prune-Descends,
}
use btp2_bsc.Calculator.{feed, newest}
use btp2_bsc.Calculator.Verdict.{feed_splits}
use btp2_bsc.Client.{Message}
use btp2_bsc.Receiver.{Building, size_of, has_messages, finish_round, build_round, build_loop}

abbrev pub hashes : List Header → List ℕ
hashes [] = []
hashes (h ∷ hs) = h.hash ∷ hashes hs

hashes-append : (xs ys : List Header) → hashes (xs ++ ys) ≡ hashes xs ++ hashes ys
hashes-append [] ys = refl
hashes-append (x ∷ xs) ys = ap (◌∷◌ x.hash) (hashes-append xs ys)

append_assoc : (xs ys zs : List ℕ) → (xs ++ ys) ++ zs ≡ xs ++ (ys ++ zs)
append_assoc [] ys zs = refl
append_assoc (x ∷ xs) ys zs = ap (◌∷◌ x) (append_assoc xs ys zs)

newest-none : (f : ℕ) (fs : List ℕ) → newest (f ∷ fs) ≢ none
unfolding newest
newest-none f [] e = cc
newest-none f (g ∷ fs) e = newest-none g fs e

add64_wraps :
    (a n : ℕ) (fs : List ℕ) → a ≡ n % u64_mod → add64 a (length fs) ≡ (n + length fs) % u64_mod
unfolding add64
add64_wraps a n fs e = omega (arith, e)

module _ (get : ℕ → Result Snapshot) (messages : ℕ → Result (List Message)) where
  -- The tree is well formed, and the blocks of the fork and of the headers, down to `last`, are
  -- those counted as final, of which the root is the last, then a line of blocks below the root:
  -- those of `finals`, which are final and not yet pruned away, and those fed.
  pub record Kept (start : ℕ) (fork finals : List ℕ) (last : ℕ) (b : Building get messages)
      : Type 0 where
    pub tree : IsTree b.blocks
    pub line : Descends b.blocks.nodes b.blocks.root (finals ++ b.calc.feeds)
    pub done : List ℕ
    pub whole : done ++ (finals ++ b.calc.feeds) ≡ fork ++ hashes b.heads
    pub root : b.blocks.root ≡ last_or start done
    pub ends : last_or start (fork ++ hashes b.heads) ≡ last
    pub counted : b.finalities ≡ length done % u64_mod

  module _ (start : ℕ) (fork : List ℕ) where
    finish_round-Kept :
        (fuel last : ℕ) (b b' : Building get messages) (finals : List ℕ)
        → Kept start fork finals last b
        → finish_round get messages fuel b finals ≡ ok b'
        → Kept start fork [] last b'
    unfolding finish_round newest
    finish_round-Kept fuel last b b' [] k e = subst (Kept start fork [] last) (ok-injective e) k
    finish_round-Kept fuel last b b' (f ∷ fs) k e = elim (Option-cases (newest (f ∷ fs))) [
      | inl q ↦ absurd (newest-none f fs q)
      | inr (v, q) ↦ elim (Option-cases (prune fuel b.blocks v)) [
        | inl r ↦ absurd (ground (arith, rw (finish_round, q, r) at e))
        | inr (pruned, r) ↦
            let (found, _, e') =
              >>=-eq-ok (has_messages get messages (f ∷ fs)) _ (rw (finish_round, q, r) at e) in
            let at = newest-last_or 0 (f ∷ fs) v q in
            let (tree', root', line') =
              prune-Descends b.blocks k.tree fuel pruned f fs b.calc.feeds (rw at r) k.line in
            subst (Kept start fork [] last) (ok-injective e') (record {
              tree = tree';
              line = line';
              done = k.done ++ f ∷ fs;
              whole = append_assoc k.done (f ∷ fs) b.calc.feeds ∙ k.whole;
              root = root' ∙ sym (last_or-append start k.done (f ∷ fs));
              ends = k.ends;
              counted =
                  add64_wraps b.finalities (length k.done) (f ∷ fs) k.counted
                  ∙ ap (λ n. n % u64_mod) (sym (length-append k.done (f ∷ fs)));
            })
      ]
    ]

    -- The block of a header is added below the last and fed.
    abbrev with_head : ℕ → Building get messages → Header → BlockTree → Building get messages
    with_head fuel b head grown = record b {
      limit = b.limit - size_of get messages head;
      heads = b.heads ++ head ∷ [];
      blocks = grown;
      calc = (feed get fuel b.calc head.hash).0;
    }

    with_head-Kept :
        (fuel : ℕ) (b : Building get messages) (head : Header) (grown : BlockTree) (finals : List ℕ)
        → b.parent ≡ head.parent_hash
        → Kept start fork [] b.parent b
        → add b.blocks head.parent_hash head.hash ≡ ok grown
        → (feed get fuel b.calc head.hash).1 ≡ ok finals
        → Kept start fork finals head.hash (with_head fuel b head grown)
    with_head-Kept fuel b head grown finals linked k p q =
        let fed = (feed get fuel b.calc head.hash).0 in
        let (split, _, _) =
          feed_splits get fuel b.calc fed head.hash finals (ap (λ r. (fed, r)) q) in
        let at : last_or b.blocks.root b.calc.feeds ≡ head.parent_hash =
          ap (λ r. last_or r b.calc.feeds) k.root
          ∙ sym (last_or-append start k.done b.calc.feeds)
          ∙ ap (last_or start) k.whole
          ∙ k.ends
          ∙ linked in
        let more : fork ++ hashes (b.heads ++ head ∷ [])
            ≡ (fork ++ hashes b.heads) ++ head.hash ∷ [] =
          ap (λ xs. fork ++ xs) (hashes-append b.heads (head ∷ []))
          ∙ sym (append_assoc fork (hashes b.heads) (head.hash ∷ [])) in
        record {
          tree = add-IsTree b.blocks grown head.parent_hash head.hash p k.tree;
          line = subst (Descends grown.nodes grown.root) (sym split) (
              add-Descends b.blocks k.tree grown head.parent_hash head.hash b.calc.feeds p at
                k.line);
          done = k.done;
          whole =
              ap (λ xs. k.done ++ xs) split
              ∙ sym (append_assoc k.done b.calc.feeds (head.hash ∷ []))
              ∙ ap (λ xs. xs ++ head.hash ∷ []) k.whole
              ∙ sym more;
          root = (add-Grown b.blocks grown head.parent_hash head.hash p).0 ∙ k.root;
          ends =
              ap (last_or start) more
              ∙ last_or-append start (fork ++ hashes b.heads) (head.hash ∷ []);
          counted = k.counted;
        }

    -- A round keeps it, with the header as the last block.
    build_round-Kept :
        (fuel : ℕ) (b b' : Building get messages) (head : Header)
        → b.parent ≡ head.parent_hash
        → Kept start fork [] b.parent b
        → build_round get messages fuel b head ≡ ok b'
        → Kept start fork [] b'.parent b'
    unfolding build_round
    build_round-Kept fuel b b' head linked k e =
        by_add (add b.blocks head.parent_hash head.hash) refl
      where
        by_feed :
            (grown : BlockTree) (r : Result (List ℕ))
            → add b.blocks head.parent_hash head.hash ≡ ok grown
            → (feed get fuel b.calc head.hash).1 ≡ r
            → Kept start fork [] b'.parent b'
        by_feed grown panics p q = absurd (ground (arith, e, p, q))
        by_feed grown (err x) p q = absurd (ground (arith, e, p, q))
        by_feed grown (ok finals) p q =
            let (d, f, e') =
              >>=-eq-ok (finish_round get messages fuel (with_head fuel b head grown) finals) _
                (rw (build_round, p, q) at e) in
            let k' =
              finish_round-Kept fuel head.hash _ d finals
                (with_head-Kept fuel b head grown finals linked k p q) f in
            subst (λ x. Kept start fork [] x.parent x) (ok-injective e')
              (record {
                tree = k'.tree;
                line = k'.line;
                done = k'.done;
                whole = k'.whole;
                root = k'.root;
                ends = k'.ends;
                counted = k'.counted;
              })

        by_add :
            (r : Result BlockTree)
            → add b.blocks head.parent_hash head.hash ≡ r
            → Kept start fork [] b'.parent b'
        by_add panics p = absurd (ground (arith, e, p))
        by_add (err x) p = absurd (ground (arith, e, p))
        by_add (ok grown) p = by_feed grown _ p refl

    pub build_loop-Kept :
        (heads : ℕ → Option Header) (fuel cache rounds : ℕ) (b b' : Building get messages)
        → Kept start fork [] b.parent b
        → build_loop get messages heads fuel cache rounds b ≡ ok b'
        → Kept start fork [] b'.parent b'
    unfolding build_loop
    build_loop-Kept heads fuel cache zero b b' k e = cc
    build_loop-Kept heads fuel cache (suc rounds) b b' k e =
        elim (Bool-cases (leb b.number cache && not b.exists)) [
          | inr stop ↦ same (ground (arith, e, stop))
          | inl go ↦ elim (Option-cases (heads b.number)) [
            | inl no_head ↦ same (ground (arith, e, go, no_head))
            | inr (head, there) ↦ elim (Bool-cases (b.parent == head.parent_hash)) [
              | inr bad ↦ absurd (ground (arith, e, go, there, bad))
              | inl linked ↦ elim (Bool-cases (ltb b.limit (size_of get messages head))) [
                | inl full ↦ same (ground (arith, e, go, there, linked, full))
                | inr fits ↦
                    let (c, r, e') =
                      >>=-eq-ok (build_round get messages fuel b head) _
                        (rw (build_loop, go, there, linked, fits) at e) in
                    build_loop-Kept heads fuel cache rounds c b'
                      (build_round-Kept fuel b c head ((==_iff _ _).0 linked) k r) e'
              ]
            ]
          ]
        ]
      where
        same : b ≡ b' → Kept start fork [] b'.parent b'
        same q = subst (λ x. Kept start fork [] x.parent x) q k
