-- ===== src/Receiver/Watch.antt =====
-- `receiver.loop`, `applyAndCache`, `Start` after its preparation, `clone` and `GetHeightForSeq`
-- (chain/bsc2/receiver.go). The node and the snapshots' store are arguments; of the two caches what is
-- added is kept, that of the latest block first. The wait for room at the start of a round is that of
-- Receiver/Sync.
pub mod Notices
pub mod Cached
pub mod Examples
use btp2_bsc.Base.{
  ℕ, zero, suc, ◌+◌, List, [], ◌∷◌, ◌++◌, Option, none, some, Bool, true, false, ltb, leb, ◌==◌,
  ◌||◌, not, if◌then◌else◌, Error, recoverable_err, Result, ok, err, panics, ◌>>=◌, add64,
}
use btp2_bsc.Chain.{Header, VoteData}
use btp2_bsc.Errors.{restarts}
use btp2_bsc.Snapshot.State.{Snapshot}
use btp2_bsc.Snapshot.Port.{Port, apply_and_add}
use btp2_bsc.Calculator.{Calculator, newest, feed}
use btp2_bsc.Client.{Message}
use btp2_bsc.Receiver.{Bstatus, update_status, query_messages}

-- `local` and the caches are the receiver's, as is the hash of `peer`; the others the loop's, `fed`
-- its `FeedCounter`.
pub record Watcher (Store : Type 0) : Type 0 where
  pub local : Bstatus
  pub peer_hash : ℕ
  pub store : Store
  pub heads : List Header
  pub msgs : List Message
  pub snap : Snapshot
  pub calc : Calculator
  pub fed : ℕ

-- A header with what the node answers meanwhile on the messages of a block; the watcher's error;
-- and a status of the peer that the other goroutine takes.
pub data Event : Type 0 where
  new_head : Header → (ℕ → Result (List Message)) → Event
  failure : Error → Event
  finalized : ℕ → Event

-- `clone`, and the status that the loop sends.
unfoldable pub clone : Bstatus → Bstatus
clone o = record { number = o.number; hash = 0; sequence = o.sequence; cache = 0 }

abbrev pub Outcome : Type 0 → Type 0
Outcome Store = Watcher Store × Result (Option Bstatus)

module _ {Store : Type 0} (port : Port Store) where
  -- The loop begins at the peer's block; without its snapshot it panics.
  unfoldable pub enter_loop : Watcher Store → Option (Watcher Store)
  enter_loop o = elim (port.get o.store o.peer_hash) [
    | err e ↦ none
    | panics ↦ none
    | ok snap ↦
        some (record o {
          snap = snap;
          calc = record { checkpoint = o.peer_hash; feeds = [] };
          fed = 0;
        })
  ]

  -- What follows the query of the messages of the blocks down to the last status.
  unfoldable pub finish_query : Watcher Store → ℕ → ℕ → List Message × Result ℕ → Outcome Store
  unfolding clone
  finish_query o number hash (cached, err e) = (record o { msgs = cached }, err recoverable_err)
  finish_query o number hash (cached, panics) = (record o { msgs = cached }, panics)
  finish_query o number hash (cached, ok sequence) =
      let local = update_status o.local number hash sequence in
      if not (sequence == 0) || ltb 50 o.fed
      then (record o { msgs = cached; local = local; fed = 0 }, ok (some (clone local)))
      else (record o { msgs = cached; local = local }, ok none)

  module _ (messages : ℕ → Result (List Message)) (fuel : ℕ) where
    -- The snapshot of the last finalized block: its height is `cache`, the source of its attestation
    -- the new status, unless that is not above the old one. A nil attestation is dereferenced.
    unfoldable pub move_status : Watcher Store → Snapshot → Outcome Store
    unfolding finish_query
    move_status o s =
        let o' = record o { local = record o.local { cache = s.number } } in
        elim s.attestation [
          | none ↦ (o', panics)
          | some a ↦
              if leb a.source_number o.local.number
              then (o', ok none)
              else finish_query o' a.source_number a.source_hash (
                  query_messages (port.get o.store) messages fuel a.source_hash o.local.hash 0
                    o.msgs)
        ]

    abbrev pub moved : Watcher Store → Result Snapshot → Outcome Store
    moved o (err e) = (o, panics)
    moved o panics = (o, panics)
    moved o (ok s) = move_status o s

    unfoldable pub finish_feed : Watcher Store → List ℕ → Outcome Store
    unfolding move_status
    finish_feed o finals = elim (newest finals) [
      | none ↦ (o, ok none)
      | some last ↦ moved o (port.get o.store last)
    ]

    abbrev pub fed_head : Watcher Store → Calculator × Result (List ℕ) → Outcome Store
    fed_head o (calc, ok finals) = finish_feed (record o { calc = calc }) finals
    fed_head o (calc, err e) = (record o { calc = calc }, err e)
    fed_head o (calc, panics) = (record o { calc = calc }, panics)

    -- `applyAndCache` puts the header into its cache once the snapshot is added.
    abbrev pub applied_head : Watcher Store → Header → Store × Result Snapshot → Outcome Store
    applied_head o h (st, err e) = (record o { store = st }, err e)
    applied_head o h (st, panics) = (record o { store = st }, panics)
    applied_head o h (st, ok snap) =
        fed_head (record o { store = st; snap = snap; heads = h ∷ o.heads })
          (feed (port.get st) fuel o.calc snap.hash)

    -- The case of a head: the new state, and the status that is sent, if any.
    unfoldable pub on_head : Watcher Store → Header → Outcome Store
    unfolding finish_feed
    on_head o h =
        applied_head (record o { fed = add64 o.fed 1 }) h (apply_and_add port o.store o.snap h)

  -- An error ends the loop; the loop is entered again where it is recoverable, and all else panics.
  abbrev pub retry : Watcher Store → Error → Option (Watcher Store)
  retry o e = if restarts e then enter_loop o else none

  abbrev pub left_by : Outcome Store → Option (Watcher Store) × Option Bstatus
  left_by (o, ok n) = (some o, n)
  left_by (o, err e) = (retry o e, none)
  left_by (o, panics) = (none, none)

  abbrev pub sent : Option Bstatus → List Bstatus → List Bstatus
  sent none ns = ns
  sent (some n) ns = n ∷ ns

  unfoldable pub on_event : ℕ → Watcher Store → Event → Option (Watcher Store) × Option Bstatus
  unfolding on_head enter_loop
  on_event fuel o (new_head h messages) = left_by (on_head messages fuel o h)
  on_event fuel o (failure e) = (retry o e, none)
  on_event fuel o (finalized hash) = (some (record o { peer_hash = hash }), none)

  -- The loop over a sequence of events, with its restarts: the statuses sent, in order.
  unfoldable pub watch :
      ℕ → Option (Watcher Store) → List Event → Option (Watcher Store) × List Bstatus
  unfolding on_event
  watch fuel none events = (none, [])
  watch fuel (some o) [] = (some o, [])
  watch fuel (some o) (e ∷ events) =
      let r = on_event fuel o e in let rest = watch fuel r.0 events in (rest.0, sent r.1 rest.1)

-- `Start`: the missing messages are put into the cache, and the last one's number is taken over. The
-- status that another goroutine sends then is not followed.
abbrev pub last_of : ℕ → List Message → ℕ
last_of sequence [] = sequence
last_of sequence (m ∷ ms) = last_of m.seq ms

unfoldable pub take_missing : Bstatus → List Message → List Message → List Message × Bstatus
take_missing local msgs found =
    (found ++ msgs, record local { sequence = last_of local.sequence found })

-- `GetHeightForSeq`: the message's height, from the cache or a search, or 0.
unfoldable pub get_height_for_seq :
    (ℕ → Option Message) → (ℕ → Result (Option Message)) → ℕ → Result ℕ
get_height_for_seq cached by_sequence sequence = elim (cached sequence) [
  | some m ↦ ok m.block_number
  | none ↦ elim (by_sequence sequence) [
    | ok (some m) ↦ ok m.block_number
    | ok none ↦ ok 0
    | err e ↦ ok 0
    | panics ↦ panics
  ]
]
