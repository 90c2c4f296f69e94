-- ===== src/Snapshot/Store/Filled.antt =====
-- The store as the sender and the receiver use it (chain/bsc2/snapshots.go).
use btp2_bsc.Base.{ℕ, ◌≡◌, sym, subst, ok}
use btp2_bsc.Snapshot.State.{Snapshot}
use btp2_bsc.Snapshot.Step.Chained.{apply_chains}
use btp2_bsc.Snapshot.Port.{Port, IsPort}
use btp2_bsc.Snapshot.Store.{Backend, Snapshots, add_snapshot, get_snapshot}
use btp2_bsc.Snapshot.Store.Derived.{Derived, follows, IsChain, Derived-hash}
use btp2_bsc.Snapshot.Store.Sound.{IsHonest, IsSound, add_snapshot-IsSound}
use btp2_bsc.Snapshot.Store.Answers.{get_snapshot-IsSound}

module _ {Cache Database Blob : Type 0} (b : Backend Cache Database Blob) where
  abbrev pub port : ℕ → Port (Snapshots Cache Database)
  port fuel = record {
    add = add_snapshot b;
    get = λ st id. (get_snapshot b fuel st id).1;
    eth = b.eth;
    chain_id = b.chain_id;
  }

  pub port-IsPort :
      (base : Snapshot) (chain : IsChain b base) (honest : IsHonest b base) (fuel : ℕ)
      → IsPort
          (port fuel)
          (IsSound b base)
          (Derived b base)
          (λ head. b.header_by_hash head.hash ≡ ok head)
  port-IsPort base chain honest fuel = record {
    answers = λ st id s sound e. (get_snapshot-IsSound b base chain honest fuel st id sound).1 s e;
    keeps = λ st s sound d. add_snapshot-IsSound b base chain honest st s sound d;
    grows = λ s next head d known a.
        let (_, link, _, at, _, _, _) = apply_chains b.eth s next head b.chain_id a in
        follows head (subst (λ k. b.header_by_hash k ≡ ok head) (sym at) known) (sym at)
          (subst (λ k. Derived b base k s) (sym link) d) a;
    named = λ id s d. Derived-hash b base d;
  }
