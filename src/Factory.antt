-- ===== src/Factory.antt =====
-- chain/bsc2/bsc2factory.go: what the relay's configuration of a chain makes of the receiver and the
-- sender. JSON, the files, the wallets, the printing and reading of numbers and the node's chain id are
-- arguments.
pub mod Open
pub mod Options
pub mod Interval
pub mod Failures
pub mod Examples
use Prim.Native.String.{String}
use text.Mathlib.Text.{◌==◌ as str_eq}
use btp2_bsc.Base.{
  ℕ, List, [], ◌∷◌, Option, none, some, Bool, true, false, not, if◌then◌else◌, Result, ok, err,
  panics, ◌>>=◌, or_panic, invalid_type, no_key_store,
}

-- `TYPE` and `Epoch`
abbrev pub chain_type : String
chain_type = "bsc-hertz"

abbrev pub epoch_length : ℕ
epoch_length = 200

-- What is read of the relay's `chain.BaseConfig`; an option has a value of any type of JSON.
pub record BaseConfig (Value : Type 0) : Type 0 where
  pub type_name : String
  pub address : String
  pub endpoint : String
  pub key_store : String
  pub key_store_pass : String
  pub key_secret : String
  pub options : List (String × Value)

pub record RecvConfig : Type 0 where
  pub chain_id : ℕ
  pub epoch : ℕ
  pub start_number : ℕ
  pub endpoint : String
  pub db_type : String
  pub db_path : String
  pub src_address : String
  pub dst_address : String
  pub block_checkpoint_interval : ℕ

pub record SenderConfig (Float : Type 0) : Type 0 where
  pub src_address : String
  pub dst_address : String
  pub endpoint : String
  pub chain_id : ℕ
  pub epoch : ℕ
  pub max_gas_limit : ℕ
  pub estimate_gas_factor : Float
  pub block_checkpoint_interval : ℕ

-- `ParseChainConfig`, with `json.Unmarshal`.
unfoldable pub parse_chain_config :
    {Raw Value : Type 0} → (Raw → Result (BaseConfig Value)) → Raw → Result (BaseConfig Value)
parse_chain_config unmarshal raw =
    unmarshal raw >>= λ cfg. if str_eq cfg.type_name chain_type then ok cfg else err invalid_type

-- `m[k]`, of a map that lists its keys once.
unfoldable pub option_of : {Value : Type 0} → List (String × Value) → String → Option Value
option_of [] k = none
option_of ((j, v) ∷ m) k = let rest = option_of m k in if str_eq j k then some v else rest

-- `resolvePassword`; no password is nil.
unfoldable pub resolve_password :
    (String → Result (List ℕ)) → (String → List ℕ) → String → String → Result (List ℕ)
resolve_password read_file bytes key_secret key_store_pass =
    if not (str_eq key_secret "")
    then read_file key_secret
    else if not (str_eq key_store_pass "")
    then ok (bytes key_store_pass)
    else ok []

-- `newWallet`
unfoldable pub new_wallet :
    {Wallet : Type 0}
    → (String → Result (List ℕ))
    → (String → List ℕ)
    → (List ℕ → List ℕ → Result Wallet)
    → String
    → String
    → String
    → Result Wallet
unfolding resolve_password
new_wallet read_file bytes decrypt passwd secret key_store_path = elim (read_file key_store_path) [
  | err e ↦ err no_key_store
  | panics ↦ panics
  | ok key_store ↦ resolve_password read_file bytes secret passwd >>= λ pw. decrypt key_store pw
]

-- `sprint` is `fmt.Sprintf("%v", x)`, of a value or of nil.
module _ {Value Float : Type 0} (sprint : Option Value → String) (parse_uint : String → Result ℕ)
    (parse_float : String → Result Float) where
  -- A value that does not read as a number panics.
  unfoldable pub conv_to_uint64 : List (String × Value) → String → ℕ → Result ℕ
  unfolding option_of
  conv_to_uint64 m k def = elim (option_of m k) [
    | none ↦ ok def
    | some val ↦ or_panic (parse_uint (sprint (some val)))
  ]

  unfoldable pub conv_to_float64 : List (String × Value) → String → Float → Result Float
  unfolding option_of
  conv_to_float64 m k def = elim (option_of m k) [
    | none ↦ ok def
    | some val ↦ or_panic (parse_float (sprint (some val)))
  ]

  -- The configuration that `NewReceiver` hands on; `ChainID` asks the node, and panics where it
  -- cannot.
  unfoldable pub recv_config : (String → Result ℕ) → BaseConfig Value → String → Result RecvConfig
  unfolding conv_to_uint64
  recv_config chain_id src dst_addr = do
    id ← or_panic (chain_id src.endpoint)
    start ← conv_to_uint64 src.options "start_number" 0
    interval ← conv_to_uint64 src.options "block_checkpoint_interval" 1024
    ok (record {
      chain_id = id;
      epoch = epoch_length;
      start_number = start;
      endpoint = src.endpoint;
      db_type = sprint (option_of src.options "db_type");
      db_path = sprint (option_of src.options "db_path");
      src_address = src.address;
      dst_address = dst_addr;
      block_checkpoint_interval = interval;
    })

  -- The configuration and the wallet that `NewSender` hands on; `one_and_a_half` is the float 1.5.
  unfoldable pub sender_config :
      {Wallet : Type 0}
      → (String → Result ℕ)
      → Float
      → (String → Result (List ℕ))
      → (String → List ℕ)
      → (List ℕ → List ℕ → Result Wallet)
      → String
      → BaseConfig Value
      → Result (SenderConfig Float × Wallet)
  unfolding new_wallet conv_to_uint64 conv_to_float64
  sender_config chain_id one_and_a_half read_file bytes decrypt src_addr dst = do
    w ← new_wallet read_file bytes decrypt dst.key_store_pass dst.key_secret dst.key_store
    id ← or_panic (chain_id dst.endpoint)
    gas ← conv_to_uint64 dst.options "max_gas_limit" 0
    factor ← conv_to_float64 dst.options "estimate_gas_factor" one_and_a_half
    interval ← conv_to_uint64 dst.options "block_checkpoint_interval" 1024
    ok (
      record {
        src_address = src_addr;
        dst_address = dst.address;
        endpoint = dst.endpoint;
        chain_id = id;
        epoch = epoch_length;
        max_gas_limit = gas;
        estimate_gas_factor = factor;
        block_checkpoint_interval = interval;
      },
      w,
    )
