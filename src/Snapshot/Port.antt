-- ===== src/Snapshot/Port.antt =====
-- How the sender and the receiver see the snapshots (chain/bsc2/snapshots.go): what `add` and `get` do
-- to a store and answer, and the laws they rely on. What `get` adds to the cache on its way is not
-- followed.
use btp2_bsc.Base.{ℕ, ◌≡◌, refl, subst, ap, ◌∙◌, some, Result, ok, err, panics, arith}
use btp2_bsc.Chain.{Header, Ethereum}
use btp2_bsc.Snapshot.State.{Snapshot}
use btp2_bsc.Snapshot.Step.{apply}

pub record Port (Store : Type 0) : Type 0 where
  pub add : Store → Snapshot → Store × Result (Unit {0})
  pub get : Store → ℕ → Result Snapshot
  pub eth : Ethereum
  pub chain_id : ℕ

-- `Known head` is that the node has the header; `Of id s` that `s` is the snapshot of the block.
pub record IsPort {Store : Type 0} (port : Port Store) (IsSound : Store → Type 0)
    (Of : ℕ → Snapshot → Type 0) (Known : Header → Type 0) : Type 0 where
  pub answers : (st : Store) (id : ℕ) (s : Snapshot) → IsSound st → port.get st id ≡ ok s → Of id s
  pub keeps : (st : Store) (s : Snapshot) → IsSound st → Of s.hash s → IsSound (port.add st s).0
  pub grows :
      (s next : Snapshot) (head : Header)
      → Of s.hash s
      → Known head
      → apply port.eth s (some head) port.chain_id ≡ ok next
      → Of next.hash next
  pub named : (id : ℕ) (s : Snapshot) → Of id s → s.hash ≡ id

-- The new snapshot is added once the header is applied.
abbrev pub added_to :
    {Store : Type 0} → Snapshot → Store × Result (Unit {0}) → Store × Result Snapshot
added_to next (st, ok _) = (st, ok next)
added_to next (st, err e) = (st, err e)
added_to next (st, panics) = (st, panics)

module _ {Store : Type 0} (port : Port Store) where
  unfoldable pub apply_and_add : Store → Snapshot → Header → Store × Result Snapshot
  apply_and_add st s head = elim (apply port.eth s (some head) port.chain_id) [
    | err e ↦ (st, err e)
    | panics ↦ (st, panics)
    | ok next ↦ added_to next (port.add st next)
  ]

  added_to_sound :
      (IsSound : Store → Type 0) (next s : Snapshot) (r : Store × Result (Unit {0}))
      → IsSound r.0
      → IsSound (added_to next r).0 × ((added_to next r).1 ≡ ok s → next ≡ s)
  added_to_sound IsSound next s (st, ok _) h = (h, λ e. ground (arith, e))
  added_to_sound IsSound next s (st, err x) h = (h, λ e. cc)
  added_to_sound IsSound next s (st, panics) h = (h, λ e. cc)

  pub apply_and_add_sound :
      {IsSound : Store → Type 0} {Of : ℕ → Snapshot → Type 0} {Known : Header → Type 0}
      (laws : IsPort port IsSound Of Known) (st : Store) (s : Snapshot) (head : Header)
      → IsSound st
      → Of s.hash s
      → Known head
      → IsSound (apply_and_add st s head).0
        × ((next : Snapshot) → (apply_and_add st s head).1 ≡ ok next → Of next.hash next)
  unfolding apply_and_add
  apply_and_add_sound {IsSound} {Of} laws st s head sound of known =
      by_apply (apply port.eth s (some head) port.chain_id) refl
    where
      by_apply :
          (r : Result Snapshot)
          → apply port.eth s (some head) port.chain_id ≡ r
          → IsSound (apply_and_add st s head).0
            × ((next : Snapshot) → (apply_and_add st s head).1 ≡ ok next → Of next.hash next)
      by_apply panics p = rw (apply_and_add, p) (sound, λ next e. cc)
      by_apply (err x) p = rw (apply_and_add, p) (sound, λ next e. cc)
      by_apply (ok made) p =
          let of' = laws.grows s made head of known p in
          let here = laws.keeps st made sound of' in
          rw (apply_and_add, p)
            (
              (added_to_sound IsSound made made (port.add st made) here).0,
              λ next e.
                  subst (λ (t : Snapshot). Of t.hash t)
                    ((added_to_sound IsSound made next (port.add st made) here).1 e) of',
            )

  added_to_inv :
      (next s : Snapshot) (r : Store × Result (Unit {0})) (st : Store)
      → added_to next r ≡ (st, ok s)
      → next ≡ s
  added_to_inv next s (x, ok _) st e = ground (arith, e)
  added_to_inv next s (x, err y) st e = cc
  added_to_inv next s (x, panics) st e = cc

  pub apply_and_add_applies :
      (st st' : Store) (s next : Snapshot) (head : Header)
      → apply_and_add st s head ≡ (st', ok next)
      → apply port.eth s (some head) port.chain_id ≡ ok next
  unfolding apply_and_add
  apply_and_add_applies st st' s next head e =
      by_apply (apply port.eth s (some head) port.chain_id) refl
    where
      by_apply :
          (r : Result Snapshot)
          → apply port.eth s (some head) port.chain_id ≡ r
          → apply port.eth s (some head) port.chain_id ≡ ok next
      by_apply panics p = absurd (ground (arith, p, e))
      by_apply (err x) p = absurd (ground (arith, p, e))
      by_apply (ok made) p =
          p ∙ ap ok (added_to_inv made next (port.add st made) st' (rw (apply_and_add, p) at e))
