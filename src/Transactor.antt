-- ===== src/Transactor.antt =====
-- chain/bsc2/transactor.go: a relay message on its way through the transaction pool, a block and
-- finality, as a state machine. What the node answers is an argument; the k-th call of a retry loop
-- gets the k-th answer.
pub mod Transit
pub mod Polling
pub mod Finality
pub mod Run
pub mod Settled
pub mod Examples
use btp2_bsc.Base.{
  ℕ, zero, suc, ◌+◌, ◌≡◌, List, [], ◌∷◌, Option, none, some, Bool, true, false, leb, ltb, ◌==◌,
  ◌&&◌, if◌then◌else◌, Error, Result, ok, err, panics, not_found, estimate_gas_failure,
  dropped_by_tx_pool, tx_query_failure, tx_pool_timeout, receipt_query_failure,
  tx_sender_recovery_failure, emul_revert_failure,
}

pub data MessageType : Type 0 where
  unknown created pending executing executed finalized dropped faulted : MessageType

pub record Tx : Type 0 where
  pub hash : ℕ
  pub gas : ℕ

pub record Receipt : Type 0 where
  pub status : ℕ
  pub block_number : ℕ
  pub block_hash : ℕ
  pub tx_hash : ℕ

pub record Created : Type 0 where
  pub id : ℕ
  -- `opts.GasLimit`
  pub gas_limit : ℕ

pub record Pending : Type 0 where
  pub id : ℕ
  pub tx : Tx

pub record Executed : Type 0 where
  pub id : ℕ
  pub number : ℕ
  pub hash : ℕ
  pub tx : ℕ
  pub error : Option Error

-- `DroppedMessage` and `FaultedMessage`; a literal without `prev` leaves it at `Unknown`.
pub record Ended : Type 0 where
  pub id : ℕ
  pub error : Error
  pub prev : MessageType

pub data MessageTx : Type 0 where
  created_message : Created → MessageTx
  pending_message : Pending → MessageTx
  executing_message : Pending → Receipt → MessageTx
  executed_message : Executed → MessageTx
  finalized_message : Executed → MessageTx
  dropped_message : Ended → MessageTx
  faulted_message : Ended → MessageTx

unfoldable pub type_of : MessageTx → MessageType
type_of (created_message m) = created
type_of (pending_message m) = pending
type_of (executing_message m r) = executing
type_of (executed_message m) = executed
type_of (finalized_message m) = finalized
type_of (dropped_message m) = dropped
type_of (faulted_message m) = faulted

unfoldable pub id_of : MessageTx → ℕ
id_of (created_message m) = m.id
id_of (pending_message m) = m.id
id_of (executing_message m r) = m.id
id_of (executed_message m) = m.id
id_of (finalized_message m) = m.id
id_of (dropped_message m) = m.id
id_of (faulted_message m) = m.id

-- An answer of the node, or its error.
pub data Reply (A : Type 0) : Type 0 where
  reply : A → Reply A
  fails : Error → Reply A

-- The second and third result of `TransactionByHash`.
pub record Query : Type 0 where
  pub is_pending : Bool
  pub failure : Option Error

-- What a message's transition reads of the node and of go-ethereum.
pub record Node : Type 0 where
  -- `HandleRelayMessage` with `NoSend`, the k-th call, and without it, at a gas limit.
  pub estimate : ℕ → Reply Tx
  pub submit : ℕ → Reply Tx
  -- `uint64(float64(gas) * cfg.EstimateGasFactor)`
  pub scale_gas : ℕ → ℕ
  pub query : ℕ → Query
  pub receipt : Reply Receipt
  -- `types.Sender`, and `CallContract` at the receipt's block, whose answer is not read.
  pub recover_sender : Reply ℕ
  pub call_contract : ℕ → Reply (Unit {0})

-- How the polling loop of a pending message ends: the last value of `pending`, or a message.
pub data Polled : Type 0 where
  settled : Bool → Polled
  gives : MessageTx → Polled
  out_of_fuel : Polled

abbrev pub end_with : ℕ → Error → MessageType → Ended
end_with id e p = record { id = id; error = e; prev = p }

-- `for ErrCounter := 0; ; ErrCounter++`, given up at the failure with the counter 10: `left` is 10
-- minus the counter.
unfoldable pub estimate_loop : Node → ℕ → ℕ → Option Tx
estimate_loop node zero k = elim (node.estimate k) [ reply tx ↦ some tx | fails e ↦ none ]
estimate_loop node (suc left) k = elim (node.estimate k) [
  | reply tx ↦ some tx
  | fails e ↦ estimate_loop node left (suc k)
]

unfoldable pub submit_at : Node → Created → ℕ → MessageTx
submit_at node m gas_limit = elim (node.submit gas_limit) [
  | reply tx ↦ pending_message (record { id = m.id; tx = tx })
  | fails e ↦ dropped_message (end_with m.id e unknown)
]

unfoldable pub transit_created : ℕ → Node → Created → MessageTx
unfolding submit_at
transit_created max_gas_limit node m =
    let gas_limit = if ltb 0 max_gas_limit then max_gas_limit else m.gas_limit in
    if gas_limit == 0
    then elim (estimate_loop node 10 0) [
      | none ↦ dropped_message (end_with m.id estimate_gas_failure unknown)
      | some tx ↦ submit_at node m (node.scale_gas tx.gas)
    ]
    else submit_at node m gas_limit

abbrev pub is_not_found : Error → Bool
is_not_found not_found = true
is_not_found _ = false

-- `for pending && attempt < 10`; `k` counts the calls. Not found below five attempts, the loop goes
-- on with the `pending` that the call returned and the same `attempt`.
unfoldable pub poll : Node → Pending → ℕ → Bool → ℕ → ℕ → Polled
poll node m fuel false attempt k = settled false
poll node m zero true attempt k = if ltb attempt 10 then out_of_fuel else settled true
poll node m (suc fuel) true attempt k =
    let stay = poll node m fuel (node.query k).is_pending attempt (suc k) in
    let next = poll node m fuel (node.query k).is_pending (attempt + 1) (suc k) in
    if ltb attempt 10
    then elim (node.query k).failure [
      | none ↦ next
      | some e ↦
          if is_not_found e
          then (if ltb attempt 5
              then stay
              else gives (dropped_message (end_with m.id dropped_by_tx_pool pending)))
          else gives (faulted_message (end_with m.id tx_query_failure pending))
    ]
    else settled true

-- What follows the loop; out of fuel there is no next message.
unfoldable pub after_poll : Node → Pending → Polled → Option MessageTx
after_poll node m (settled true) = some (faulted_message (end_with m.id tx_pool_timeout unknown))
after_poll node m (settled false) = elim node.receipt [
  | reply r ↦ some (executing_message m r)
  | fails e ↦ some (faulted_message (end_with m.id receipt_query_failure pending))
]
after_poll node m (gives t) = some t
after_poll node m out_of_fuel = none

unfoldable pub transit_pending : ℕ → Node → Pending → Option MessageTx
transit_pending fuel node m = after_poll node m (poll node m fuel true 0 0)

abbrev pub executed_by : Pending → Receipt → Option Error → MessageTx
executed_by m r e =
    executed_message (record {
      id = m.id;
      number = r.block_number;
      hash = r.block_hash;
      tx = r.tx_hash;
      error = e;
    })

unfoldable pub transit_executing : Node → Pending → Receipt → MessageTx
transit_executing node m r =
    if r.status == 1 then executed_by m r none else elim node.recover_sender [
      | fails e ↦ faulted_message (end_with m.id tx_sender_recovery_failure executing)
      | reply from ↦ elim (node.call_contract from) [
        | fails e ↦ executed_by m r (some e)
        | reply _ ↦ faulted_message (end_with m.id emul_revert_failure executing)
      ]
    ]

-- `none` is the nil message. With too little fuel a pending message has none either.
unfoldable pub transit : ℕ → ℕ → Node → MessageTx → Option MessageTx
transit fuel max_gas_limit node (created_message m) = some (transit_created max_gas_limit node m)
transit fuel max_gas_limit node (pending_message m) = transit_pending fuel node m
transit fuel max_gas_limit node (executing_message m r) = some (transit_executing node m r)
transit fuel max_gas_limit node (executed_message m) = some (finalized_message m)
transit fuel max_gas_limit node (finalized_message m) = none
transit fuel max_gas_limit node (dropped_message m) = none
transit fuel max_gas_limit node (faulted_message m) = none
