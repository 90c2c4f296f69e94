-- ===== src/Snapshot/Store/Answers.antt =====
-- What the store answers (chain/bsc2/snapshots.go): the derived snapshots, whatever was evicted.
use btp2_bsc.Base.{
  ℕ, zero, suc, ◌≡◌, refl, sym, ap, subst, ◌∙◌, ◌⊎◌, inl, inr, List, [], ◌∷◌, Option, none, some,
  Bool, true, false, if◌then◌else◌, Result, ok, err, panics, ◌>>=◌, >>=-eq-ok, arith, ok-injective,
  Option-cases,
}
use btp2_bsc.Chain.{Header}
use btp2_bsc.Snapshot.State.{Snapshot}
use btp2_bsc.Snapshot.Step.{apply}
use btp2_bsc.Snapshot.Step.Chained.{apply_chains}
use btp2_bsc.Snapshot.Store.{
  Backend, Snapshots, load_snapshot, has_snapshot, add_snapshot, fetch_heads, apply_heads, ensure,
  from_cache, get_snapshot,
}
use btp2_bsc.Snapshot.Store.Derived.{Derived, follows, IsChain, Derived-hash}
use btp2_bsc.Snapshot.Store.Sound.{IsHonest, IsSound, load-Derived, add_snapshot-IsSound}

module _ {Cache Database Blob : Type 0} (b : Backend Cache Database Blob) (base : Snapshot)
    (chain : IsChain b base) (honest : IsHonest b base) where
  -- The headers above a block, the lowest first, as the node has them.
  abbrev Above : ℕ → List Header → Type 0
  Above id [] = Unit {0}
  Above id (h ∷ hs) = (h.parent_hash ≡ id) × (b.header_by_hash h.hash ≡ ok h) × Above h.hash hs

  -- A round of `fetch_heads` that succeeds.
  fetch_step :
      (fuel : ℕ) (st : Snapshots Cache Database) (id : ℕ) (above : List Header)
      (r : Snapshot × List Header)
      → fetch_heads b (suc fuel) st id above ≡ ok r
      → ((t : Snapshot) × (b.cache_get st.cache id ≡ some t) × (r.0 ≡ t) × (r.1 ≡ above))
        ⊎ ((t : Snapshot) × (load_snapshot b st.database id ≡ ok t) × (r.0 ≡ t) × (r.1 ≡ above))
        ⊎ ((head : Header) × (b.header_by_hash id ≡ ok head)
            × (fetch_heads b fuel st head.parent_hash (head ∷ above) ≡ ok r))
  unfolding fetch_heads
  fetch_step fuel st id above r e = elim (Option-cases (b.cache_get st.cache id)) [
    | inr (t, p) ↦ inl (t, p, ground (arith, p, e), ground (arith, p, e))
    | inl p ↦
        let (found, _, e1) =
          >>=-eq-ok (has_snapshot b st.database id) _ (rw (fetch_heads, p) at e) in
        by_found found e1
  ]
    where
      by_found :
          (found : Bool)
          → (if found
              then (load_snapshot b st.database id >>= λ snap. ok (snap, above))
              else (b.header_by_hash id >>= λ head.
                  fetch_heads b fuel st head.parent_hash (head ∷ above)))
            ≡ ok r
          → ((t : Snapshot) × (b.cache_get st.cache id ≡ some t) × (r.0 ≡ t) × (r.1 ≡ above))
            ⊎ ((t : Snapshot) × (load_snapshot b st.database id ≡ ok t) × (r.0 ≡ t) × (r.1 ≡ above))
            ⊎ ((head : Header) × (b.header_by_hash id ≡ ok head)
                × (fetch_heads b fuel st head.parent_hash (head ∷ above) ≡ ok r))
      by_found true q =
          let (t, l, q') = >>=-eq-ok (load_snapshot b st.database id) _ q in
          inr (inl (t, l, ground (arith, q'), ground (arith, q')))
      by_found false q = inr (inr (>>=-eq-ok (b.header_by_hash id) _ q))

  abbrev At : Snapshot × List Header → Type 0
  At r = Derived b base r.0.hash r.0 × Above r.0.hash r.1

  At_lem :
      (r : Snapshot × List Header) (id : ℕ) (t : Snapshot) (above : List Header)
      → Derived b base id t
      → Above id above
      → r.0 ≡ t
      → r.1 ≡ above
      → At r
  At_lem r id t above d up p q =
      let h = sym (Derived-hash b base d) in
      rw (p, q) (subst (λ k. Derived b base k t) h d, subst (λ k. Above k above) h up)

  fetch_heads-At :
      (fuel : ℕ) (st : Snapshots Cache Database) (id : ℕ) (above : List Header)
      (r : Snapshot × List Header)
      → IsSound b base st
      → Above id above
      → fetch_heads b fuel st id above ≡ ok r
      → At r
  fetch_heads-At zero st id above r sound up e = absurd (unfold fetch_heads in cc)
  fetch_heads-At (suc fuel) st id above r sound up e = elim (fetch_step fuel st id above r e) [
    | inl (t, c, p, q) ↦ At_lem r id t above (sound.cached id t c) up p q
    | inr (inl (t, l, p, q)) ↦
        At_lem r id t above (load-Derived b base chain honest st id t sound l) up p q
    | inr (inr (head, h, more)) ↦
        let name = honest.named id head h in
        fetch_heads-At fuel st head.parent_hash (head ∷ above) r sound
          (
            refl,
            subst (λ k. b.header_by_hash k ≡ ok head) (sym name) h,
            subst (λ k. Above k above) (sym name) up,
          )
          more
  ]

  apply_heads-IsSound :
      (heads : List Header) (st : Snapshots Cache Database) (s : Snapshot)
      → IsSound b base st
      → Derived b base s.hash s
      → Above s.hash heads
      → IsSound b base (apply_heads b st s heads).0
  unfolding apply_heads
  apply_heads-IsSound [] st s sound d up = sound
  apply_heads-IsSound (head ∷ heads) st s sound d (link, h, up) =
      by_apply (apply b.eth s (some head) b.chain_id) refl (λ next p.
        let at = (apply_chains b.eth s next head b.chain_id p).3 in
        let d' : Derived b base next.hash next =
          follows head (subst (λ k. b.header_by_hash k ≡ ok head) (sym at) h) (sym at)
            (subst (λ k. Derived b base k s) (sym link) d) p in
        let here = add_snapshot-IsSound b base chain honest st next sound d' in
        by_added next (add_snapshot b st next).1 p refl here (
          apply_heads-IsSound heads (add_snapshot b st next).0 next here d'
            (subst (λ k. Above k heads) (sym at) up)))
    where
      by_added :
          (next : Snapshot) (o : Result (Unit {0}))
          → apply b.eth s (some head) b.chain_id ≡ ok next
          → (add_snapshot b st next).1 ≡ o
          → IsSound b base (add_snapshot b st next).0
          → IsSound b base (apply_heads b (add_snapshot b st next).0 next heads).0
          → IsSound b base (apply_heads b st s (head ∷ heads)).0
      by_added next panics p q here there = rw (apply_heads, p, q) here
      by_added next (err x) p q here there = rw (apply_heads, p, q) here
      by_added next (ok _) p q here there = rw (apply_heads, p, q) there

      by_apply :
          (r : Result Snapshot)
          → apply b.eth s (some head) b.chain_id ≡ r
          → ((next : Snapshot)
              → apply b.eth s (some head) b.chain_id ≡ ok next
              → IsSound b base (apply_heads b st s (head ∷ heads)).0)
          → IsSound b base (apply_heads b st s (head ∷ heads)).0
      by_apply panics p k = rw (apply_heads, p) sound
      by_apply (err x) p k = rw (apply_heads, p) sound
      by_apply (ok next) p k = k next p

  ensure-IsSound :
      (fuel : ℕ) (st : Snapshots Cache Database) (id : ℕ)
      → IsSound b base st
      → IsSound b base (ensure b fuel st id).0
  unfolding ensure
  ensure-IsSound fuel st id sound =
      by_cache (b.cache_get st.cache id) (fetch_heads b fuel st id []) refl refl
    where
      by_cache :
          (o : Option Snapshot) (r : Result (Snapshot × List Header))
          → b.cache_get st.cache id ≡ o
          → fetch_heads b fuel st id [] ≡ r
          → IsSound b base (ensure b fuel st id).0
      by_cache (some s) r p q = rw (ensure, p) sound
      by_cache none panics p q = rw (ensure, p, q) sound
      by_cache none (err x) p q = rw (ensure, p, q) sound
      by_cache none (ok found) p q =
          let (d, up) = fetch_heads-At fuel st id [] found sound tt q in
          rw (ensure, p, q) (apply_heads-IsSound found.1 st found.0 sound d up)

  -- Where the libraries are honest and the chain is as asked: whatever the cache has evicted, from a
  -- sound store `get` makes a sound store again, and a snapshot that it answers is the derived one of
  -- the hash.
  pub get_snapshot-IsSound :
      (fuel : ℕ) (st : Snapshots Cache Database) (id : ℕ)
      → IsSound b base st
      → IsSound b base (get_snapshot b fuel st id).0
        × ((s : Snapshot) → (get_snapshot b fuel st id).1 ≡ ok s → Derived b base id s)
  unfolding get_snapshot
  get_snapshot-IsSound fuel st id sound =
      by_cache (b.cache_get st.cache id) (has_snapshot b st.database id) refl refl
    where
      by_ensure :
          (r : Snapshots Cache Database × Result (Unit {0}))
          → IsSound b base r.0
          → IsSound b base (from_cache b r id).0
            × ((s : Snapshot) → (from_cache b r id).1 ≡ ok s → Derived b base id s)
      by_ensure (st', panics) sound' = (sound', λ s e. cc)
      by_ensure (st', err x) sound' = (sound', λ s e. cc)
      by_ensure (st', ok _) sound' = (sound', λ s e. sound'.cached id s (ground (arith, e)))

      by_cache :
          (o : Option Snapshot) (r : Result Bool)
          → b.cache_get st.cache id ≡ o
          → has_snapshot b st.database id ≡ r
          → IsSound b base (get_snapshot b fuel st id).0
            × ((s : Snapshot) → (get_snapshot b fuel st id).1 ≡ ok s → Derived b base id s)
      by_cache (some t) r p q =
          rw (get_snapshot, p) (sound, λ s e. sound.cached id s (p ∙ ap some (ok-injective e)))
      by_cache none panics p q = rw (get_snapshot, p, q) (sound, λ s e. cc)
      by_cache none (err x) p q = rw (get_snapshot, p, q) (sound, λ s e. cc)
      by_cache none (ok true) p q =
          rw (get_snapshot, p, q) (sound, λ s e. load-Derived b base chain honest st id s sound e)
      by_cache none (ok false) p q =
          rw (get_snapshot, p, q)
            (by_ensure (ensure b fuel st id) (ensure-IsSound fuel st id sound))
