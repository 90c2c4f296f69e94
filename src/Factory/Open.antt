-- ===== src/Factory/Open.antt =====
-- `newReceiver` (chain/bsc2/receiver.go) and `newSender` (chain/bsc2/sender.go): what the two are built
-- of. The database, the accumulator of the library and its heights are arguments, and so is
-- `NewClient`, of the endpoint and two addresses.
use Prim.Native.String.{String}
use btp2_bsc.Base.{ℕ, Option, none, some, Bool, ◌==◌, if◌then◌else◌, Result, ok, ◌>>=◌, or_panic}
use btp2_bsc.Factory.{RecvConfig, SenderConfig}

-- The network's parameters by chain id; another chain's pointer is nil.
unfoldable pub chain_config : {Params : Type 0} → Params → Params → ℕ → Option Params
chain_config bsc chapel id = if id == 56 then some bsc else if id == 97 then some chapel else none

pub record Opened (Params Client Database Acc : Type 0) : Type 0 where
  pub config : Option Params
  pub chain_id : ℕ
  pub epoch : ℕ
  pub startnumber : ℕ
  pub client : Client
  pub database : Database
  pub accumulator : Acc
  -- the interval of the snapshots' store
  pub checkpoint : ℕ

pub record Sending (Params Client Wallet Float : Type 0) : Type 0 where
  pub config : Option Params
  pub chain_id : ℕ
  pub epoch : ℕ
  pub client : Client
  pub wallet : Wallet
  pub checkpoint : ℕ
  -- `MessageTransactorConfig`
  pub max_gas_limit : ℕ
  pub estimate_gas_factor : Float

-- The state of an earlier run is taken up; the accumulator's number is the int64 of the same bits.
unfoldable pub open_accumulator :
    {Bucket Acc : Type 0}
    → (Bucket → ℕ → Acc)
    → (Bucket → Result Bool)
    → (Acc → Result Acc)
    → Bucket
    → ℕ
    → Result Acc
open_accumulator new_accumulator has_state recover bucket start =
    or_panic (has_state bucket) >>= λ there.
    if there
    then or_panic (recover (new_accumulator bucket start))
    else ok (new_accumulator bucket start)

module _ {Params Client Database Bucket Acc : Type 0} (bsc chapel : Params)
    (new_client : String → String → String → Result Client) where
  module _ (open_database : String → Result Database) (get_bucket : Database → Result Bucket)
      (new_accumulator : Bucket → ℕ → Acc) (has_state : Bucket → Result Bool)
      (recover : Acc → Result Acc) where
    -- `newReceiver`: the database is a LevelDB at the path, whatever type is asked for.
    unfoldable pub new_receiver : RecvConfig → Result (Opened Params Client Database Acc)
    unfolding chain_config open_accumulator
    new_receiver config = do
      client ← new_client config.endpoint config.src_address config.dst_address
      database ← or_panic (open_database config.db_path)
      bucket ← or_panic (get_bucket database)
      accumulator ← open_accumulator new_accumulator has_state recover bucket config.start_number
      ok (record {
        config = chain_config bsc chapel config.chain_id;
        chain_id = config.chain_id;
        epoch = config.epoch;
        startnumber = config.start_number;
        client = client;
        database = database;
        accumulator = accumulator;
        checkpoint = config.block_checkpoint_interval;
      })

-- `newSender`: its store of snapshots has no database.
unfoldable pub new_sender :
    {Params Client Wallet Float : Type 0}
    → Params
    → Params
    → (String → String → String → Result Client)
    → SenderConfig Float
    → Wallet
    → Result (Sending Params Client Wallet Float)
unfolding chain_config
new_sender bsc chapel new_client config wallet =
    new_client config.endpoint config.dst_address config.src_address >>= λ client. ok (record {
      config = chain_config bsc chapel config.chain_id;
      chain_id = config.chain_id;
      epoch = config.epoch;
      client = client;
      wallet = wallet;
      checkpoint = config.block_checkpoint_interval;
      max_gas_limit = config.max_gas_limit;
      estimate_gas_factor = config.estimate_gas_factor;
    })

-- `NewReceiver` and `NewSender`, with what they read of the configuration and what they build.
unfoldable pub open_receiver :
    {Made : Type 0} → Result RecvConfig → (RecvConfig → Result Made) → Result Made
open_receiver config make = config >>= make

unfoldable pub open_sender :
    {Float Wallet Made : Type 0}
    → Result (SenderConfig Float × Wallet)
    → (SenderConfig Float → Wallet → Result Made)
    → Result Made
open_sender config make = config >>= λ r. make r.0 r.1
