-- ===== src/Sender/Start.antt =====
-- The sender from its start: `prepare` and the loop of chain/bsc2/sender.go on the snapshots' store of
-- chain/bsc2/snapshots.go.
pub mod Examples
use btp2_bsc.Base.{
  ℕ, ◌≡◌, refl, ap, sym, subst, List, Option, none, some, Result, ok, err, panics, >>=-eq-ok, arith,
  Has,
}
use btp2_bsc.Chain.{Header}
use btp2_bsc.Snapshot.State.{Snapshot}
use btp2_bsc.Snapshot.Boot.{boot_snapshot}
use btp2_bsc.Snapshot.Store.{Backend, Snapshots, add_snapshot}
use btp2_bsc.Snapshot.Store.Derived.{Derived, trusted, IsChain}
use btp2_bsc.Snapshot.Store.Sound.{IsHonest, IsSound, add_snapshot-IsSound}
use btp2_bsc.Snapshot.Store.Filled.{port, port-IsPort}
use btp2_bsc.Sender.{Sender, Event, enter, epoch_header, with_boot, prepare, watch}
use btp2_bsc.Sender.Finality.{AllKnown, enter-Follows, watch-Alive}

module _ {Cache Database Blob : Type 0} (b : Backend Cache Database Blob) (fuel : ℕ) where
  with_boot_inv :
      (snap base : Snapshot) (st : Snapshots Cache Database)
      (r : Snapshots Cache Database × Result (Unit {0}))
      → with_boot (port b fuel) snap r ≡ ok (base, st)
      → (snap ≡ base) × (r.0 ≡ st)
  with_boot_inv snap base st (x, panics) e = cc
  with_boot_inv snap base st (x, err y) e = (cc e, cc e)
  with_boot_inv snap base st (x, ok _) e = (cc e, cc e)

  -- What `prepare` leaves in the store that held nothing.
  prepare-IsSound :
      (st st' : Snapshots Cache Database) (latest : Result Header) (by_number : ℕ → Result Header)
      (epoch : ℕ) (base : Snapshot)
      → IsChain b base
      → IsHonest b base
      → IsSound b base st
      → prepare (port b fuel) st latest by_number epoch ≡ ok (base, st')
      → IsSound b base st'
  unfolding prepare
  prepare-IsSound st st' latest by_number epoch base chain honest sound e =
      let (at_epoch, _, e1) = >>=-eq-ok (epoch_header latest by_number epoch) _ e in
      let (snap, _, e2) = >>=-eq-ok (boot_snapshot by_number b.eth epoch at_epoch) _ e1 in
      let (same, left) = with_boot_inv snap base st' (add_snapshot b st snap) e2 in
      subst (IsSound b base) left (
        add_snapshot-IsSound b base chain honest st snap sound
          (trusted (ap (λ (s : Snapshot). s.hash) (sym same)) (sym same)))

  -- Where the libraries are honest and the chain is as asked, from an empty store without a database, after a `prepare`
  -- that succeeds, and over any sequence of headers that the node has and of errors: each hash that
  -- the transactor is notified of is that of a block whose snapshot follows from the booted one by
  -- applying headers.
  pub start_derives :
      (st st' : Snapshots Cache Database) (latest : Result Header) (by_number : ℕ → Result Header)
      (epoch : ℕ) (base : Snapshot) (chain : IsChain b base) (honest : IsHonest b base) (rounds : ℕ)
      (events : List Event)
      → ((id : ℕ) → b.cache_get st.cache id ≡ none)
      → st.database ≡ none
      → prepare (port b fuel) st latest by_number epoch ≡ ok (base, st')
      → AllKnown (port b fuel) (port-IsPort b base chain honest fuel) events
      → (hash : ℕ) → Has hash (watch (port b fuel) rounds (some (enter base st')) events).1
      → (s : Snapshot) × Derived b base hash s
  start_derives st st' latest by_number epoch base chain honest rounds events cold closed e known =
      let laws = port-IsPort b base chain honest fuel in
      let sound =
        prepare-IsSound st st' latest by_number epoch base chain honest (fresh cold closed) e in
      (watch-Alive (port b fuel) laws rounds (some (enter base st')) events
        (enter-Follows (port b fuel) laws base st' sound (trusted refl refl)) known).1
    where
      fresh : ((id : ℕ) → b.cache_get st.cache id ≡ none) → st.database ≡ none → IsSound b base st
      fresh cold closed = record {
        cached = λ id s p. absurd (ground (arith, cold id, p));
        kept = λ d id v s p g u. absurd (ground (arith, closed, p));
      }
