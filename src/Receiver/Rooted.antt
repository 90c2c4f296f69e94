-- ===== src/Receiver/Rooted.antt =====
-- What `receiver.BuildBlockUpdate` leaves of the peer's block tree (chain/bsc2/receiver.go).
use btp2_bsc.Base.{
  ok-injective, ℕ, zero, suc, ◌%◌, ◌≡◌, refl, sym, ap, subst, ◌∙◌, ◌⊎◌, inl, inr, List, [], ◌∷◌,
  ◌++◌, Option, none, some, ◌==◌, length, arith, Result, ok, err, panics, >>=-eq-ok, Bool-cases,
  Has, append_nil_eq, add64, u64_mod,
}
use btp2_bsc.Chain.{Header}
use btp2_bsc.Snapshot.State.{Snapshot}
use btp2_bsc.Tree.{BlockTree, children_of}
use btp2_bsc.Tree.Grow.{IsTree}
use btp2_bsc.Tree.Line.{last_or, Descends}
use btp2_bsc.Calculator.{newest}
use btp2_bsc.Client.{Message}
use btp2_bsc.Receiver.Kept.{hashes, Kept, build_loop-Kept}
use btp2_bsc.Receiver.{
  Peer, Building, BlockUpdate, first_found, select_fork, build_loop, start_building, pack,
  build_block_update,
}

pub newest_or :
    (top : ℕ) (fs : List ℕ) → last_or top fs ≡ (elim (newest fs) [ none ↦ top | some last ↦ last ])
unfolding newest
newest_or top [] = refl
newest_or top (f ∷ []) = refl
newest_or top (f ∷ g ∷ fs) = newest_or top (g ∷ fs)

add64_wrapped : (k f n : ℕ) → f ≡ n % u64_mod → add64 k f ≡ add64 k n
unfolding add64
add64_wrapped k f n e = omega (arith, e)

module _ (get : ℕ → Result Snapshot) (messages : ℕ → Result (List Message)) where
  abbrev pub IsHashed : Type 0
  IsHashed = (h : ℕ) (s : Snapshot) → get h ≡ ok s → s.hash ≡ h

  first_found-Has :
      (hashed : IsHashed) (children : List ℕ)
      → (first_found get messages children ≡ 0) ⊎ Has (first_found get messages children) children
  unfolding first_found
  first_found-Has hashed [] = inl refl
  first_found-Has hashed (child ∷ children) =
      by_get (get child) refl (first_found-Has hashed children)
    where
      pass :
          first_found get messages (child ∷ children) ≡ first_found get messages children
          → (first_found get messages children ≡ 0)
            ⊎ Has (first_found get messages children) children
          → (first_found get messages (child ∷ children) ≡ 0)
            ⊎ Has (first_found get messages (child ∷ children)) (child ∷ children)
      pass same (inl z) = inl (same ∙ z)
      pass same (inr m) = inr (inr (subst (λ c. Has c children) (sym same) m))

      by_get :
          (r : Result Snapshot)
          → get child ≡ r
          → (first_found get messages children ≡ 0)
            ⊎ Has (first_found get messages children) children
          → (first_found get messages (child ∷ children) ≡ 0)
            ⊎ Has (first_found get messages (child ∷ children)) (child ∷ children)
      by_get panics q later = pass (rw (first_found, q)) later
      by_get (err x) q later = pass (rw (first_found, q)) later
      by_get (ok snap) q later = inr (inl (rw (first_found, q) (hashed child snap q)))

  select_fork-Descends :
      (hashed : IsHashed) (fuel from : ℕ) (blocks : BlockTree)
      → Descends blocks.nodes from (select_fork get messages fuel from blocks)
  unfolding select_fork children_of
  select_fork-Descends hashed zero from blocks = tt
  select_fork-Descends hashed (suc fuel) from blocks =
      let hash = first_found get messages (children_of blocks from) in
      elim (Bool-cases (hash == 0)) [
        | inl z ↦ rw (select_fork, z) tt
        | inr nz ↦
            rw (select_fork, nz)
              (
                elim (first_found-Has hashed (children_of blocks from)) [
                  | inl z ↦ absurd (ground (arith, z, nz))
                  | inr m ↦ m
                ],
                select_fork-Descends hashed fuel hash blocks,
              )
      ]

  start-Kept :
      (fuel : ℕ) (peer : Peer) (limit : ℕ)
      → IsHashed
      → IsTree peer.blocks
      → peer.blocks.root ≡ peer.hash
      → Kept get messages peer.hash
          (select_fork get messages fuel peer.hash peer.blocks)
          []
          (start_building get messages fuel peer limit).parent
          (start_building get messages fuel peer limit)
  unfolding start_building
  start-Kept fuel peer limit hashed tree at =
      let fork = select_fork get messages fuel peer.hash peer.blocks in
      record {
        tree = tree;
        line =
            subst (λ r. Descends peer.blocks.nodes r fork) (sym at)
              (select_fork-Descends hashed fuel peer.hash peer.blocks);
        done = [];
        whole = sym (append_nil_eq fork);
        root = at;
        ends = ap (last_or peer.hash) (append_nil_eq fork) ∙ newest_or peer.hash fork;
        counted = omega arith;
      }

  abbrev packed_update : Peer → ℕ → Building get messages → BlockUpdate
  packed_update peer offset b = record {
    headers = b.heads;
    start = add64 peer.number 1;
    height = add64 peer.number b.finalities;
    status = record { offset = offset; block_tree = b.blocks };
  }

  pack_holds :
      (peer : Peer) (offset : ℕ) (b : Building get messages) (u : BlockUpdate)
      → Has u (pack get messages peer offset b)
      → u ≡ packed_update peer offset b
  unfolding pack
  pack_holds peer offset b u h = elim (Bool-cases (length b.heads == 0)) [
    | inl empty ↦ absurd (ground (arith, h, empty))
    | inr full ↦ ground (arith, h, full)
  ]

  abbrev pub Rooted : Peer → List ℕ → BlockUpdate → Type 0
  Rooted peer fork u =
      IsTree u.status.block_tree
      × ((done left : List ℕ) × (done ++ left ≡ fork ++ hashes u.headers)
          × (u.height ≡ add64 peer.number (length done))
          × (u.status.block_tree.root ≡ last_or peer.hash done)
          × Descends u.status.block_tree.nodes u.status.block_tree.root left)

  -- Where the store answers a hash with its snapshot, and the peer's tree is well formed with the
  -- peer's block as the root: an update that is built has a well-formed tree. The blocks of the
  -- peer's fork and of the update's headers are a first part, as many as the update's height is
  -- above the peer's, of which the last is the tree's root, and a line of blocks below that root.
  pub build_block_update_roots :
      (heads : ℕ → Option Header) (fuel rounds cache offset : ℕ) (peer : Peer) (limit : ℕ)
      (us : List BlockUpdate) (u : BlockUpdate)
      → IsHashed
      → IsTree peer.blocks
      → peer.blocks.root ≡ peer.hash
      → build_block_update get messages heads fuel rounds cache offset peer limit ≡ ok us
      → Has u us
      → Rooted peer (select_fork get messages fuel peer.hash peer.blocks) u
  unfolding build_block_update pack start_building
  build_block_update_roots heads fuel rounds cache offset peer limit us u hashed tree at e m =
      by_get (get peer.hash) refl
    where
      packed :
          (b : Building get messages)
          → Kept get messages peer.hash
              (select_fork get messages fuel peer.hash peer.blocks)
              []
              b.parent
              b
          → Has u (pack get messages peer offset b)
          → Rooted peer (select_fork get messages fuel peer.hash peer.blocks) u
      packed b k h =
          subst (Rooted peer (select_fork get messages fuel peer.hash peer.blocks))
            (sym (pack_holds peer offset b u h))
            (
              k.tree,
              (
                k.done,
                b.calc.feeds,
                k.whole,
                add64_wrapped peer.number b.finalities (length k.done) k.counted,
                k.root,
                k.line,
              ),
            )

      by_get :
          (r : Result Snapshot)
          → get peer.hash ≡ r
          → Rooted peer (select_fork get messages fuel peer.hash peer.blocks) u
      by_get panics p = absurd (ground (arith, e, p))
      by_get (err x) p = absurd (ground (arith, e, p))
      by_get (ok snap) p =
          let (b, l, e') =
            >>=-eq-ok
              (build_loop get messages heads fuel cache rounds
                (start_building get messages fuel peer limit))
              _ (rw (build_block_update, p) at e) in
          packed b
            (build_loop-Kept get messages peer.hash
              (select_fork get messages fuel peer.hash peer.blocks) heads fuel cache rounds _ b
              (start-Kept fuel peer limit hashed tree at) l)
            (rw (← ok-injective e') at m)
