-- ===== src/Receiver/Ends/Start/Examples.antt =====
-- A chain from block 2 to block 5, and a peer at block 2 whose tree has block 3: the headers of the blocks
-- 4 and 5 make an update.
use btp2_bsc.Base.{
  ok-injective, Bool-cases, ==_iff, sym, ◌∙◌, ◌==◌, ℕ, suc, ◌+◌, ◌*◌, ◌≤◌, ◌<◌, ◌≡◌, refl, sym, ap,
  subst, ◌∙◌, inl, inr, List, [], Option, none, some, lookup, leb, ◌==◌, if◌then◌else◌, length,
  arith, ok, Bool-cases, ==_iff, Has,
}
use btp2_bsc.Chain.{Header}
use btp2_bsc.Snapshot.State.{Snapshot}
use btp2_bsc.Tree.{children_of}
use btp2_bsc.Receiver.{BlockUpdate, build_block_update}
use btp2_bsc.Receiver.Examples.{get, block, head, vote, no_messages}
use btp2_bsc.Receiver.Mainline.{Mainline}
use btp2_bsc.Receiver.Ends.Start.{OnChain, build_block_update_ends}
use btp2_bsc.Receiver.Link.Rounds.Examples.{forked, forked-IsRooted}

block-Mainline : Mainline get block 2 5
block-Mainline = record {
  numbered = λ n. refl;
  known = λ n l h. ground arith;
  linked = λ n. omega arith;
  distinct = λ m n e. omega (arith, e);
  nonzero = λ n e. omega (arith, e);
  voted = λ n l. (vote n, refl, omega arith, omega arith);
}

fork_below :
    (n : ℕ) → 2 ≤ n → n < 3 → Has (block (suc n)).hash (children_of forked.blocks (block n).hash)
unfolding children_of lookup
fork_below n l h =
    let same : 2 ≡ n = omega arith in
    subst (λ k. Has (block (suc k)).hash (children_of forked.blocks (block k).hash)) same (inl refl)

child_of_2 :
    (c : ℕ) (s : Snapshot) → Has c (children_of forked.blocks 12) → get c ≡ ok s → s ≡ block 3
unfolding children_of lookup
child_of_2 c s (inl same) e = ok-injective (sym e ∙ ap get same)
child_of_2 c s (inr no_more) e = absurd no_more

no_child_of_3 : (c : ℕ) → ¬ Has c (children_of forked.blocks 13)
unfolding children_of lookup
no_child_of_3 c m = m

fork_only :
    (n c : ℕ) (s : Snapshot)
    → 2 ≤ n
    → n ≤ 3
    → Has c (children_of forked.blocks (block n).hash)
    → get c ≡ ok s
    → (n < 3) × (s ≡ block (suc n))
fork_only n c s l h m e = elim (Bool-cases (n == 2)) [
  | inl y ↦
      let same : n ≡ 2 = (==_iff n 2).0 y in
      (
        omega (arith, same),
        child_of_2 c s (subst (λ k. Has c (children_of forked.blocks (block k).hash)) same m) e
            ∙ ap (λ k. block (suc k)) (sym same),
      )
  | inr y ↦
      let same : n ≡ 3 = ground arith in
      absurd
        (no_child_of_3 c (subst (λ k. Has c (children_of forked.blocks (block k).hash)) same m))
]

fork_fresh : (m : ℕ) → 3 < m → m ≤ 5 → lookup (block m).hash forked.blocks.nodes ≡ none
unfolding lookup
fork_fresh m l h = ground arith

forked-OnChain : OnChain get no_messages block 2 5 block-Mainline forked 3
forked-OnChain = record {
  from_low = omega arith;
  upto = omega arith;
  in_range = omega arith;
  hash = refl;
  root = refl;
  tree = forked-IsRooted.0;
  below = fork_below;
  only = fork_only;
  fresh = fork_fresh;
}

abbrev cached : ℕ → Option Header
cached n = if leb n 5 then some (head n) else none

cached_of_chain :
    (n : ℕ) (h : Header)
    → cached n ≡ some h
    → (n ≤ 5) × (h.hash ≡ (block n).hash) × (h.parent_hash ≡ (block n).parent_hash)
cached_of_chain n h e = ground (arith, e)

abbrev enough : ℕ
enough = suc (forked-OnChain.tree.rank 12 + 5)

build_block_update_ends_example :
    (us : List BlockUpdate) × (build_block_update get no_messages cached enough
        (suc 2)
        5
        0
        forked
        2000
      ≡ ok us)
    × (length us ≤ 1)
    × ((h : Header) → cached 4 ≡ some h → 4 ≤ 5 → h.size * 5 ≤ 2000 → length us ≡ 1)
build_block_update_ends_example =
    build_block_update_ends get no_messages block 2 5 block-Mainline forked 3 forked-OnChain
      (λ hash. ([], refl)) enough (omega arith) (omega arith) cached 5 2 0 2000 cached_of_chain
      (omega arith)
