-- ===== src/Snapshot/Store.antt =====
-- chain/bsc2/snapshots.go, and store, loadSnapshot and hasSnapshot of chain/bsc2/snapshot.go: the
-- snapshots in the cache, the database and from the node. The cache, the database's bucket, JSON and
-- the node are library code, the fields of one record; what reading changes in the cache's order of
-- eviction is not followed.
pub mod Derived
pub mod Sound
pub mod Answers
pub mod Filled
pub mod Examples
use btp2_bsc.Base.{
  ℕ, zero, suc, ◌%◌, List, [], ◌∷◌, Option, none, some, Bool, true, false, ◌==◌, if◌then◌else◌,
  no_database, Result, ok, err, panics, ◌>>=◌,
}
use btp2_bsc.Chain.{Header, Ethereum, VoteData}
use btp2_bsc.Snapshot.State.{Snapshot}
use btp2_bsc.Snapshot.Step.{apply}

pub record Backend (Cache Database Blob : Type 0) : Type 0 where
  pub cache_get : Cache → ℕ → Option Snapshot
  pub cache_add : Cache → Snapshot → Cache
  -- `GetBucket("Snapshot")`, and the bucket's methods at the key of a hash
  pub bucket : Database → Result (Unit {0})
  pub bucket_get : Database → ℕ → Result Blob
  pub bucket_set : Database → ℕ → Blob → Result Database
  pub bucket_has : Database → ℕ → Result Bool
  -- `json.Marshal`, and `json.Unmarshal` into a snapshot whose turn lengths are 1
  pub marshal : Snapshot → Result Blob
  pub unmarshal : Blob → Result Snapshot
  pub header_by_hash : ℕ → Result Header
  pub eth : Ethereum
  pub chain_id : ℕ
  pub checkpoint : ℕ

-- The database of the sender's store is nil.
pub record Snapshots (Cache Database : Type 0) : Type 0 where
  pub cache : Cache
  pub database : Option Database

abbrev pub at_least_one : ℕ → ℕ
at_least_one n = if n == 0 then 1 else n

abbrev pub with_turns : Snapshot → Snapshot
with_turns s = record s {
  curr_turn_length = at_least_one s.curr_turn_length;
  next_turn_length = at_least_one s.next_turn_length;
}

module _ {Cache Database Blob : Type 0} (b : Backend Cache Database Blob) where
  unfoldable pub store : Database → Snapshot → Result Database
  store database s =
      b.bucket database >>= λ _. b.marshal s >>= λ blob. b.bucket_set database s.hash blob

  unfoldable pub load_snapshot : Option Database → ℕ → Result Snapshot
  load_snapshot none hash = err no_database
  load_snapshot (some database) hash = b.bucket database >>= λ _.
      b.bucket_get database hash >>= λ blob. b.unmarshal blob >>= λ s. ok (with_turns s)

  unfoldable pub has_snapshot : Option Database → ℕ → Result Bool
  has_snapshot none hash = ok false
  has_snapshot (some database) hash = b.bucket database >>= λ _. b.bucket_has database hash

  abbrev pub stored :
      Snapshots Cache Database → Result Database → Snapshots Cache Database × Result (Unit {0})
  stored st (ok d) = (record st { database = some d }, ok tt)
  stored st (err e) = (st, err e)
  stored st panics = (st, panics)

  -- `add` into an open database; the interval 0 divides by zero.
  unfoldable pub add_to :
      Snapshots Cache Database
      → Option Database
      → Snapshot
      → Snapshots Cache Database × Result (Unit {0})
  unfolding store
  add_to st none snap = (st, ok tt)
  add_to st (some d) snap =
      if b.checkpoint == 0
      then (st, panics)
      else if snap.number % b.checkpoint == 0
      then stored st (store d snap)
      else (st, ok tt)

  unfoldable pub add_snapshot :
      Snapshots Cache Database → Snapshot → Snapshots Cache Database × Result (Unit {0})
  unfolding add_to
  add_snapshot st snap = add_to (record st { cache = b.cache_add st.cache snap }) st.database snap

  -- The first loop of `ensure`: a known snapshot, and the headers above it, the lowest first. Out of
  -- fuel is `panics`.
  unfoldable pub fetch_heads :
      ℕ → Snapshots Cache Database → ℕ → List Header → Result (Snapshot × List Header)
  unfolding has_snapshot load_snapshot
  fetch_heads zero st id heads = panics
  fetch_heads (suc fuel) st id heads = elim (b.cache_get st.cache id) [
    | some snap ↦ ok (snap, heads)
    | none ↦ has_snapshot st.database id >>= λ found.
        if found
        then (load_snapshot st.database id >>= λ snap. ok (snap, heads))
        else (b.header_by_hash id >>= λ head. fetch_heads fuel st head.parent_hash (head ∷ heads))
  ]

  -- The second loop.
  unfoldable pub apply_heads :
      Snapshots Cache Database
      → Snapshot
      → List Header
      → Snapshots Cache Database × Result (Unit {0})
  unfolding add_snapshot
  apply_heads st snap [] = (st, ok tt)
  apply_heads st snap (head ∷ heads) = elim (apply b.eth snap (some head) b.chain_id) [
    | err e ↦ (st, err e)
    | panics ↦ (st, panics)
    | ok next ↦
        let added = add_snapshot st next in
        elim added.1 [
          | err e ↦ (added.0, err e)
          | panics ↦ (added.0, panics)
          | ok _ ↦ apply_heads added.0 next heads
        ]
  ]

  unfoldable pub ensure :
      ℕ → Snapshots Cache Database → ℕ → Snapshots Cache Database × Result (Unit {0})
  unfolding fetch_heads apply_heads
  ensure fuel st id = elim (b.cache_get st.cache id) [
    | some snap ↦ (st, ok tt)
    | none ↦ elim (fetch_heads fuel st id []) [
      | err e ↦ (st, err e)
      | panics ↦ (st, panics)
      | ok found ↦ apply_heads st found.0 found.1
    ]
  ]

  abbrev pub from_cache :
      Snapshots Cache Database × Result (Unit {0}) → ℕ → Snapshots Cache Database × Result Snapshot
  from_cache (st, err e) id = (st, err e)
  from_cache (st, panics) id = (st, panics)
  from_cache (st, ok _) id =
      (st, elim (b.cache_get st.cache id) [ none ↦ panics | some snap ↦ ok snap ])

  -- `get`
  unfoldable pub get_snapshot :
      ℕ → Snapshots Cache Database → ℕ → Snapshots Cache Database × Result Snapshot
  unfolding ensure has_snapshot load_snapshot
  get_snapshot fuel st id = elim (b.cache_get st.cache id) [
    | some snap ↦ (st, ok snap)
    | none ↦ elim (has_snapshot st.database id) [
      | err e ↦ (st, err e)
      | panics ↦ (st, panics)
      | ok true ↦ (st, load_snapshot st.database id)
      | ok false ↦ from_cache (ensure fuel st id) id
    ]
  ]
