-- ===== src/Snapshot/Store/Sound.antt =====
-- What the store keeps (chain/bsc2/snapshots.go): only derived snapshots.
use btp2_bsc.Base.{
  ℕ, ◌%◌, ◌<◌, ◌≡◌, refl, sym, subst, ◌∙◌, ◌⊎◌, inl, inr, Option, none, some, ◌==◌, Result, ok, err,
  panics, >>=-eq-ok, arith, ok-injective, Bool-cases,
}
use btp2_bsc.Chain.{Header}
use btp2_bsc.Snapshot.State.{Snapshot}
use btp2_bsc.Snapshot.Store.{
  Backend, Snapshots, with_turns, store, load_snapshot, stored, add_to, add_snapshot,
}
use btp2_bsc.Snapshot.Store.Derived.{Derived, IsChain, Derived-turns}

module _ {Cache Database Blob : Type 0} (b : Backend Cache Database Blob) (base : Snapshot) where
  -- What is asked of the libraries: a cache answers what was added under a hash, a bucket what was
  -- set, JSON gives the fields back, and the node answers a header with the hash asked for.
  pub record IsHonest : Type 0 where
    pub added :
        (c : Cache) (s t : Snapshot) (id : ℕ)
        → b.cache_get (b.cache_add c s) id ≡ some t
        → ((s.hash ≡ id) × (s ≡ t)) ⊎ (b.cache_get c id ≡ some t)
    pub written :
        (d d' : Database) (k j : ℕ) (v w : Blob)
        → b.bucket_set d k v ≡ ok d'
        → b.bucket_get d' j ≡ ok w
        → ((k ≡ j) × (v ≡ w)) ⊎ (b.bucket_get d j ≡ ok w)
    pub decoded : (s t : Snapshot) (v : Blob) → b.marshal s ≡ ok v → b.unmarshal v ≡ ok t → s ≡ t
    pub named : (id : ℕ) (head : Header) → b.header_by_hash id ≡ ok head → head.hash ≡ id

  -- Every snapshot in the cache or the database is the derived one of its hash. What is read from a
  -- bucket is checked wherever the bucket opens.
  pub record IsSound (st : Snapshots Cache Database) : Type 0 where
    pub cached : (id : ℕ) (s : Snapshot) → b.cache_get st.cache id ≡ some s → Derived b base id s
    pub kept :
        (d : Database) (id : ℕ) (v : Blob) (s : Snapshot)
        → st.database ≡ some d
        → b.bucket_get d id ≡ ok v
        → b.unmarshal v ≡ ok s
        → Derived b base id s

  with_turns_id :
      (s : Snapshot) → (0 < s.curr_turn_length) × (0 < s.next_turn_length) → with_turns s ≡ s
  with_turns_id s h = ground arith

  module _ (chain : IsChain b base) (honest : IsHonest) where
    load_inv :
        (o : Option Database) (id : ℕ) (s : Snapshot)
        → load_snapshot b o id ≡ ok s
        → (d : Database) × (v : Blob) × (t : Snapshot) × (o ≡ some d)
          × (b.bucket_get d id ≡ ok v)
          × (b.unmarshal v ≡ ok t)
          × (with_turns t ≡ s)
    unfolding load_snapshot
    load_inv none id s e = cc
    load_inv (some d) id s e =
        let (_, _, e1) = >>=-eq-ok (b.bucket d) _ e in
        let (v, g, e2) = >>=-eq-ok (b.bucket_get d id) _ e1 in
        let (t, u, e3) = >>=-eq-ok (b.unmarshal v) _ e2 in (d, v, t, refl, g, u, ok-injective e3)

    pub load-Derived :
        (st : Snapshots Cache Database) (id : ℕ) (s : Snapshot)
        → IsSound st
        → load_snapshot b st.database id ≡ ok s
        → Derived b base id s
    load-Derived st id s sound e =
        let (d, v, t, p, g, u, q) = load_inv st.database id s e in
        let derived = sound.kept d id v t p g u in
        subst (Derived b base id) (sym (with_turns_id t (Derived-turns b base chain derived)) ∙ q)
          derived

    cache-IsSound :
        (st : Snapshots Cache Database) (s : Snapshot)
        → IsSound st
        → Derived b base s.hash s
        → IsSound (record st { cache = b.cache_add st.cache s })
    cache-IsSound st s sound d = record {
      cached = λ id t e. elim (honest.added st.cache s t id e) [
        | inl (h, q) ↦ subst (Derived b base id) q (subst (λ k. Derived b base k s) h d)
        | inr old ↦ sound.cached id t old
      ];
      kept = sound.kept;
    }

    store-IsSound :
        (st : Snapshots Cache Database) (d d' : Database) (s : Snapshot)
        → IsSound st
        → st.database ≡ some d
        → Derived b base s.hash s
        → store b d s ≡ ok d'
        → IsSound (record st { database = some d' })
    unfolding store
    store-IsSound st d d' s sound p derived e =
        let (_, _, e1) = >>=-eq-ok (b.bucket d) _ e in
        let (blob, m, w) = >>=-eq-ok (b.marshal s) _ e1 in
        record {
          cached = sound.cached;
          kept = λ d'' id v t q g u.
              let g' = subst (λ (x : Database). b.bucket_get x id ≡ ok v) (cc q) g in
              elim (honest.written d d' s.hash id blob v w g') [
                | inl (h, same) ↦
                    let u' = subst (λ (x : Blob). b.unmarshal x ≡ ok t) (sym same) u in
                    subst (Derived b base id) (honest.decoded s t blob m u')
                      (subst (λ k. Derived b base k s) h derived)
                | inr old ↦ sound.kept d id v t p old u
              ];
        }

    add_to-IsSound :
        (st : Snapshots Cache Database) (o : Option Database) (s : Snapshot)
        → IsSound st
        → st.database ≡ o
        → Derived b base s.hash s
        → IsSound (add_to b st o s).0
    unfolding add_to
    add_to-IsSound st none s sound p d = sound
    add_to-IsSound st (some db) s sound p d = elim (Bool-cases (b.checkpoint == 0)) [
      | inl z ↦ rw z sound
      | inr z ↦ elim (Bool-cases (s.number % b.checkpoint == 0)) [
        | inr off ↦ rw (z, off) sound
        | inl on ↦ rw (z, on) (by_store (store b db s) refl)
      ]
    ]
      where
        by_store : (r : Result Database) → store b db s ≡ r → IsSound (stored b st r).0
        by_store (ok d') q = store-IsSound st db d' s sound p d q
        by_store (err x) q = sound
        by_store panics q = sound

    pub add_snapshot-IsSound :
        (st : Snapshots Cache Database) (s : Snapshot)
        → IsSound st
        → Derived b base s.hash s
        → IsSound (add_snapshot b st s).0
    unfolding add_snapshot
    add_snapshot-IsSound st s sound d =
        add_to-IsSound (record st { cache = b.cache_add st.cache s }) st.database s
          (cache-IsSound st s sound d) refl d
