-- ===== src/Sender.antt =====
-- chain/bsc2/sender.go: the first finalized snapshot, the loop that follows the finality of the
-- destination, and the relay of a message. The node, the wallet and the snapshots' store are
-- arguments; `finality` and the snapshots are the sender's, `snap` and the calculator the loop's.
pub mod Finality
pub mod Heads
pub mod Relaying
pub mod Start
pub mod Examples
use btp2_bsc.Base.{
  ℕ, zero, suc, ◌+◌, ◌-◌, ◌*◌, ◌/◌, ◌%◌, List, [], ◌∷◌, Option, none, some, Bool, true, false, ◌==◌,
  if◌then◌else◌, Error, invalid_state, Result, ok, err, panics, ◌>>=◌, u64_mod,
}
use btp2_bsc.Chain.{Header, Ethereum}
use btp2_bsc.Errors.{restarts}
use btp2_bsc.Snapshot.State.{Snapshot}
use btp2_bsc.Snapshot.Boot.{boot_snapshot}
use btp2_bsc.Snapshot.Port.{Port, apply_and_add}
use btp2_bsc.Calculator.{Calculator, newest, feed}
use btp2_bsc.Transactor.{Created, created_message}
use btp2_bsc.Transactor.Run.{Transactor, busy, send}

pub record Sender (Store : Type 0) : Type 0 where
  pub finality : Snapshot
  pub store : Store
  pub snap : Snapshot
  pub calc : Calculator

-- What the loop selects: a header of the watcher, or its error.
pub data Event : Type 0 where
  new_head : Header → Event
  failure : Error → Event

-- `uint64(math.Ceil(txMaxDataSize / (1 + txOverheadScale)))`, in hundredths.
abbrev pub tx_max_data_size : ℕ
tx_max_data_size = 524288

unfoldable pub tx_size_limit : ℕ
tx_size_limit = (tx_max_data_size * 100 + 136) / 137

-- The loop begins at the finalized snapshot, with a new calculator.
unfoldable pub enter : {Store : Type 0} → Snapshot → Store → Sender Store
enter finality store = record {
  finality = finality;
  store = store;
  snap = finality;
  calc = record { checkpoint = finality.hash; feeds = [] };
}

-- The nearest epoch block is looked for; the epoch 0 divides by zero.
unfoldable pub epoch_header : Result Header → (ℕ → Result Header) → ℕ → Result Header
epoch_header latest header_by_number epoch = latest >>= λ newest_head.
    if epoch == 0
    then panics
    else header_by_number (newest_head.number - newest_head.number % epoch)

module _ {Store : Type 0} (port : Port Store) where
  -- `prepare`: the first finality, and the store with it. The error of `add` is not read, its panic
  -- ends the program.
  abbrev pub with_boot : Snapshot → Store × Result (Unit {0}) → Result (Snapshot × Store)
  with_boot snap (st, ok _) = ok (snap, st)
  with_boot snap (st, err e) = ok (snap, st)
  with_boot snap (st, panics) = panics

  unfoldable pub prepare :
      Store → Result Header → (ℕ → Result Header) → ℕ → Result (Snapshot × Store)
  unfolding epoch_header
  prepare store latest header_by_number epoch =
      epoch_header latest header_by_number epoch >>= λ at_epoch.
      boot_snapshot header_by_number port.eth epoch at_epoch >>= λ snap.
      with_boot snap (port.add store snap)

  -- The finalized blocks of a head: the last one's snapshot is the new finality, and its hash goes to
  -- the transactor.
  unfoldable pub finish_head : Sender Store → List ℕ → Sender Store × Result (Option ℕ)
  finish_head o finals = elim (newest finals) [
    | none ↦ (o, ok none)
    | some last ↦ elim (port.get o.store last) [
      | err e ↦ (o, err e)
      | panics ↦ (o, panics)
      | ok fn ↦ (record o { finality = fn }, ok (some fn.hash))
    ]
  ]

  abbrev pub fed_head :
      Sender Store → Calculator × Result (List ℕ) → Sender Store × Result (Option ℕ)
  fed_head o (calc, ok finals) = finish_head (record o { calc = calc }) finals
  fed_head o (calc, err e) = (record o { calc = calc }, err e)
  fed_head o (calc, panics) = (record o { calc = calc }, panics)

  -- The case of a head: the new state, and the hash that is notified, if any.
  abbrev pub applied_head :
      ℕ → Sender Store → Store × Result Snapshot → Sender Store × Result (Option ℕ)
  applied_head fuel o (st, err e) = (record o { store = st }, err e)
  applied_head fuel o (st, panics) = (record o { store = st }, panics)
  applied_head fuel o (st, ok snap) =
      fed_head (record o { store = st; snap = snap }) (feed (port.get st) fuel o.calc snap.hash)

  unfoldable pub on_head : ℕ → Sender Store → Header → Sender Store × Result (Option ℕ)
  unfolding finish_head
  on_head fuel o head = applied_head fuel o (apply_and_add port o.store o.snap head)

  -- An error ends the loop; it is entered again where the error is recoverable.
  abbrev pub retry : Sender Store → Error → Option (Sender Store)
  retry o e = if restarts e then some (enter o.finality o.store) else none

  abbrev pub noted : Option ℕ → List ℕ → List ℕ
  noted none hashes = hashes
  noted (some hash) hashes = hash ∷ hashes

  -- What a case leaves: the state, unless the goroutine has ended, and the hash notified.
  abbrev pub outcome : Sender Store × Result (Option ℕ) → Option (Sender Store) × Option ℕ
  outcome (o, ok hash) = (some o, hash)
  outcome (o, err e) = (retry o e, none)
  outcome (o, panics) = (none, none)

  unfoldable pub on_event : ℕ → Sender Store → Event → Option (Sender Store) × Option ℕ
  unfolding on_head
  on_event fuel o (new_head h) = outcome (on_head fuel o h)
  on_event fuel o (failure e) = (retry o e, none)

  -- `watchBlockFinalities` and the goroutine of `Start`: the hashes notified, in order.
  unfoldable pub watch : ℕ → Option (Sender Store) → List Event → Option (Sender Store) × List ℕ
  unfolding on_event
  watch fuel none events = (none, [])
  watch fuel (some o) [] = (some o, [])
  watch fuel (some o) (e ∷ events) =
      let r = on_event fuel o e in let rest = watch fuel r.0 events in (rest.0, noted r.1 rest.1)

-- `Relay`: refused while the transactor is busy; `keyed` is what the wallet's key gives.
unfoldable pub relay :
    ℕ → (Error → ℕ) → Result (Unit {0}) → Transactor → Created → Transactor × Result ℕ
relay success code_of keyed st m = if busy st then (st, err invalid_state) else elim keyed [
  | err e ↦ (st, err e)
  | panics ↦ (st, panics)
  | ok _ ↦ elim (send success code_of st (created_message m)) [
    | ok st' ↦ (st', ok m.id)
    | err e ↦ (st, err e)
    | panics ↦ (st, panics)
  ]
]

-- `GetStatus`: the numbers of the contract's answer, at the height of the finality.
pub record LinkStatus : Type 0 where
  pub rx_seq : ℕ
  pub tx_seq : ℕ
  pub height : ℕ
  pub extra : List ℕ

-- `Int64` of a big integer keeps its low 64 bits; the int64 that they spell stands for itself.
unfoldable pub get_status :
    {Store : Type 0} → (ℕ → Result LinkStatus) → Sender Store → Result LinkStatus
get_status status_at o = status_at o.finality.number >>= λ s. ok (record {
  rx_seq = s.rx_seq % u64_mod;
  tx_seq = s.tx_seq % u64_mod;
  height = s.height % u64_mod;
  extra = s.extra;
})
