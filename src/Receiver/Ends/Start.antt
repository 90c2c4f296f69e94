-- ===== src/Receiver/Ends/Start.antt =====
-- `BuildBlockUpdate` on a chain without forks, for a peer on it (chain/bsc2/receiver.go).
pub mod Examples
use btp2_bsc.Base.{
  ℕ, zero, suc, ◌+◌, ◌-◌, ◌*◌, ◌≤◌, ◌<◌, ◌^◌, ◌≡◌, ◌≢◌, refl, sym, ap, subst, ◌∙◌, inl, inr, List,
  [], ◌∷◌, ◌++◌, Option, none, some, Bool, true, false, lookup, leb, ltb, ◌==◌, ◌&&◌, not, length,
  arith, Result, ok, err, panics, ◌>>=◌, >>=-eq-ok, Bool-cases, ==_iff, ==_ne, add64, add64_lt, Has,
  length-append,
}
use btp2_bsc.Chain.{Header}
use btp2_bsc.Snapshot.State.{Snapshot}
use btp2_bsc.Tree.{BlockTree, slice_of, children_of}
use btp2_bsc.Tree.Grow.{IsTree}
use btp2_bsc.Tree.Line.{last_or, Descends}
use btp2_bsc.Client.{Message}
use btp2_bsc.Receiver.{
  Peer, BlockUpdate, Building, size_of, first_found, select_fork, build_round, build_loop,
  start_building, pack, build_block_update,
}
use btp2_bsc.Receiver.Update.{build_round_lem, build_loop-Extends}
use btp2_bsc.Receiver.Rooted.{newest_or}
use btp2_bsc.Receiver.Mainline.{Mainline, run, run_last, above}
use btp2_bsc.Receiver.Ends.{Answers, On}
use btp2_bsc.Receiver.Ends.Fork.{
  two_adds, first_found_one, first_found_none, build_loop_takes, pack_one, pack_full,
}
use btp2_bsc.Receiver.Ends.Loop.{Ready, IsHeader, build_loop_ends}

module _ (get : ℕ → Result Snapshot) (messages : ℕ → Result (List Message)) (chain : ℕ → Snapshot)
    (low high : ℕ) (main : Mainline get chain low high) (peer : Peer) (tip : ℕ) where
  open main use {known, linked, nonzero}

  -- The peer's tree has the blocks of the chain from the peer's, its root, up to the tip, none above,
  -- and below them no other block that the store knows.
  pub record OnChain : Type 0 where
    pub from_low : low ≤ peer.number
    pub upto : peer.number ≤ tip
    pub in_range : tip ≤ high
    pub hash : peer.hash ≡ (chain peer.number).hash
    pub root : peer.blocks.root ≡ peer.hash
    pub tree : IsTree peer.blocks
    pub below :
        (n : ℕ)
        → peer.number ≤ n
        → n < tip
        → Has (chain (suc n)).hash (children_of peer.blocks (chain n).hash)
    pub only :
        (n c : ℕ) (s : Snapshot)
        → peer.number ≤ n
        → n ≤ tip
        → Has c (children_of peer.blocks (chain n).hash)
        → get c ≡ ok s
        → (n < tip) × (s ≡ chain (suc n))
    pub fresh : (m : ℕ) → tip < m → m ≤ high → lookup (chain m).hash peer.blocks.nodes ≡ none

  module _ (on : OnChain) where
    -- The fork is the line up to the tip.
    select_run :
        (fuel left n : ℕ)
        → peer.number ≤ n
        → n + left ≡ tip
        → left < fuel
        → select_fork get messages fuel (chain n).hash peer.blocks ≡ run chain (suc n) left
    unfolding select_fork
    select_run zero left n h e k = absurd (omega arith)
    select_run (suc fuel) zero n h e k =
        let none_known =
          first_found_none get messages (children_of peer.blocks (chain n).hash)
            (λ c s m p. omega (arith, (on.only n c s h (omega arith) m p).0)) in
        rw (select_fork, none_known) refl
    select_run (suc fuel) (suc left) n h e k =
        let found =
          first_found_one get messages (chain (suc n)).hash (children_of peer.blocks (chain n).hash)
            (λ c s m p. ap (λ (t : Snapshot). t.hash) (on.only n c s h (omega arith) m p).1)
            (
              (chain (suc n)).hash,
              chain (suc n),
              on.below n h (omega arith),
              known (suc n) (omega (arith, on.from_low)) (omega (arith, on.in_range)),
            ) in
        rw (select_fork, found, ==_ne (chain (suc n)).hash 0 (nonzero (suc n)))
          (ap (◌∷◌ ((chain (suc n)).hash))
            (select_run fuel left (suc n) (omega arith) (omega arith) (omega arith)))

    line_run :
        (left n : ℕ)
        → peer.number ≤ n
        → n + left ≡ tip
        → Descends peer.blocks.nodes (chain n).hash (run chain (suc n) left)
    unfolding children_of
    line_run zero n h e = tt
    line_run (suc left) n h e =
        (on.below n h (omega arith), line_run left (suc n) (omega arith) (omega arith))

    length-run : (start len : ℕ) → length (run chain start len) ≡ len
    length-run start zero = refl
    length-run start (suc len) = ap suc (length-run (suc start) len)

    module _ (answers : Answers get messages chain low high main) (fuel : ℕ)
        (enough : on.tree.rank peer.blocks.root + high < fuel) (small : high + 2 < 2 ^ 64) where
      abbrev bound : ℕ
      bound = on.tree.rank peer.blocks.root + (high - tip)

      select_tip :
          select_fork get messages fuel peer.hash peer.blocks
          ≡ run chain (suc peer.number) (tip - peer.number)
      select_tip =
          ap (λ h. select_fork get messages fuel h peer.blocks) on.hash
          ∙ select_run fuel (tip - peer.number) peer.number (omega arith) (omega (arith, on.upto))
              (omega (arith, on.upto, on.in_range, enough))

      start-Ready :
          (limit : ℕ)
          → Ready get messages chain low high main answers fuel bound
              (omega (arith, enough))
              (omega (arith, enough))
              small
              tip
              (start_building get messages fuel peer limit)
      unfolding start_building
      start-Ready limit =
          let top : peer.number + (tip - peer.number) ≡ tip = omega (arith, on.upto) in
          let fork = select_tip in
          (
            peer.number,
            record {
              from_low = on.from_low;
              settled = omega arith;
              upto = on.upto;
              in_range = on.in_range;
              tree = on.tree;
              ranked = omega arith;
              root = on.root ∙ on.hash;
              calc =
                  ap
                    (λ h. record {
                      checkpoint = h;
                      feeds = select_fork get messages fuel peer.hash peer.blocks;
                    })
                    on.hash
                  ∙ ap (λ fs. record { checkpoint = (chain peer.number).hash; feeds = fs }) fork;
              line =
                  subst
                    (λ r.
                      Descends peer.blocks.nodes r
                        (run chain (suc peer.number) (tip - peer.number)))
                    (sym (on.root ∙ on.hash))
                    (line_run (tip - peer.number) peer.number (omega arith) top);
              fresh = on.fresh;
            },
            sym (newest_or peer.hash (select_fork get messages fuel peer.hash peer.blocks))
                ∙ ap (last_or peer.hash) fork
                ∙ ap (λ h. last_or h (run chain (suc peer.number) (tip - peer.number))) on.hash
                ∙ run_last chain peer.number (tip - peer.number)
                ∙ ap (λ k. (chain k).hash) top,
            ap (λ fs. add64 (add64 peer.number (length fs)) 1) fork
                ∙ ap (λ k. add64 (add64 peer.number k) 1)
                    (length-run (suc peer.number) (tip - peer.number))
                ∙ two_adds peer.number (tip - peer.number) tip top
                    (omega (arith, small, on.in_range)),
          )

      -- For a peer on a chain without forks, whose blocks the store knows with their attestations,
      -- whose messages can be had and whose cached headers are its own; with fuel for the tree and
      -- the chain, and a round for each height up to the last cached: `BuildBlockUpdate` ends with at
      -- most one update, and with one where the header above the peer's tree is cached and fits.
      pub build_block_update_ends :
          (heads : ℕ → Option Header) (cache rounds offset limit : ℕ)
          → ((n : ℕ) (h : Header)
              → heads n ≡ some h
              → (n ≤ high) × (h.hash ≡ (chain n).hash) × (h.parent_hash ≡ (chain n).parent_hash))
          → cache ≤ tip + rounds
          → (us : List BlockUpdate) × (build_block_update get messages heads fuel
                (suc rounds)
                cache
                offset
                peer
                limit
              ≡ ok us)
            × (length us ≤ 1)
            × ((head : Header)
                → heads (suc tip) ≡ some head
                → suc tip ≤ cache
                → head.size * 5 ≤ limit
                → length us ≡ 1)
      unfolding build_block_update start_building
      build_block_update_ends heads cache rounds offset limit of_chain left =
          let start = start_building get messages fuel peer limit in
          let ready = start-Ready limit in
          let (b, looped) =
            build_loop_ends get messages chain low high main answers fuel bound
              (omega (arith, enough)) (omega (arith, enough)) small heads of_chain cache rounds tip
              start ready (omega arith) in
          let first : get peer.hash ≡ ok (chain peer.number) =
            ap get on.hash ∙ known peer.number on.from_low (omega (arith, on.upto, on.in_range)) in
          (
            pack get messages peer offset b,
            rw (build_block_update, first, looped) refl,
            pack_one get messages peer offset b,
            λ head cached low_enough fits.
                let (_, _, last, number) = ready in
                pack_full get messages peer offset b (
                  build_loop_takes get messages heads fuel cache rounds start b head looped
                    (ap heads number ∙ cached) (omega (arith, number, low_enough)) refl
                    (last ∙ sym (linked tip) ∙ sym (of_chain (suc tip) head cached).2) fits),
          )
