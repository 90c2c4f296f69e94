-- ===== src/Factory/Examples.antt =====
-- A chain's configuration with two options, and the receiver and the sender that it makes: the values
-- are texts, and the chain is that of the first snapshot's tests.
use Prim.Native.String.{String}
use text.Mathlib.Text.{◌==◌ as str_eq}
use btp2_bsc.Base.{
  ℕ, ◌%◌, ◌≡◌, ◌≢◌, ◌↔◌, refl, sym, ap, List, [], ◌∷◌, Option, none, some, false, if◌then◌else◌,
  external, invalid_type, no_key_store, Result, ok, err, panics, ok-injective, length, ◌+◌, sub64,
  insert,
}
use btp2_bsc.Chain.{Header, index, slice_range, from_bytes_acc}
use btp2_bsc.Snapshot.State.{Snapshot, contains, set_add, set_of, fill_recents, new_snapshot}
use btp2_bsc.Snapshot.Extra.{
  parse_turn_length, validator_bytes, parse_validators, read_addresses, vote_attestation,
  attestation_bytes, decoded,
}
use btp2_bsc.Snapshot.Boot.{boot_snapshot, boot_at, boot_later, collect_recents, attestation_data}
use btp2_bsc.Snapshot.Store.Examples.{backend, base, start as empty_cache}
use btp2_bsc.Receiver.Relay.{sync_rounds}
use btp2_bsc.Receiver.Sync.{add_initial, store_initial, prepare, sync_acc, synchronize}
use btp2_bsc.Receiver.Watch.{take_missing}
use btp2_bsc.Snapshot.Examples.{chain}
use btp2_bsc.Snapshot.Boot.Examples.{node}
use btp2_bsc.Snapshot.Store.{Backend, store, add_snapshot}
use btp2_bsc.Client.Connect.{chain_id_of, new_client}
use btp2_bsc.Receiver.{Peer}
use btp2_bsc.Receiver.Start.{Started, local_of, start}
use btp2_bsc.Factory.{
  BaseConfig, RecvConfig, parse_chain_config, option_of, conv_to_uint64, recv_config,
  resolve_password, new_wallet,
}
use btp2_bsc.Factory.Open.{Opened, chain_config, open_accumulator, new_receiver}
use btp2_bsc.Factory.Options.{start_needs_number}
use btp2_bsc.Factory.Interval.{add_panics_iff}

abbrev printed : Option String → String
printed none = "<nil>"
printed (some text) = text

abbrev read_number : String → Result ℕ
read_number text =
    if str_eq text "400" then ok 400 else if str_eq text "0" then ok 0 else err (external 1)

abbrev read_float : String → Result (ℕ × ℕ)
read_float text = err (external 2)

abbrev given : BaseConfig String
given = record {
  type_name = "bsc-hertz";
  address = "btp://0x38.bsc/0x61";
  endpoint = "https://bsc-node";
  key_store = "key.json";
  key_store_pass = "-";
  key_secret = "";
  options = ("start_number", "400") ∷ ("db_path", "data") ∷ [];
}

abbrev config : RecvConfig
config = record {
  chain_id = 56;
  epoch = 200;
  start_number = 400;
  endpoint = "https://bsc-node";
  db_type = "<nil>";
  db_path = "data";
  src_address = "btp://0x38.bsc/0x61";
  dst_address = "btp://0x1.icon/cx1";
  block_checkpoint_interval = 1024;
}

accepts_type : parse_chain_config (λ (cfg : BaseConfig String). ok cfg) given ≡ ok given
unfolding parse_chain_config
accepts_type = refl

refuses_type :
    parse_chain_config (λ (cfg : BaseConfig String). ok cfg) (record given { type_name = "eth" })
    ≡ err invalid_type
unfolding parse_chain_config
refuses_type = refl

abbrev asked : String → Result ℕ
asked url = ok 56

config_read :
    recv_config printed read_number read_float asked given "btp://0x1.icon/cx1" ≡ ok config
unfolding recv_config conv_to_uint64 option_of
config_read = refl

-- An option that is no number.
config_panics :
    recv_config printed read_number read_float asked
      (record given { options = ("start_number", "no") ∷ [] })
      "btp://0x1.icon/cx1"
    ≡ panics
unfolding recv_config conv_to_uint64 option_of
config_panics = refl

abbrev opened : Opened ℕ ℕ ℕ ℕ
opened = record {
  config = some 1;
  chain_id = 56;
  epoch = 200;
  startnumber = 400;
  client = 9;
  database = 3;
  accumulator = 400;
  checkpoint = 1024;
}

abbrev connected : String → String → String → Result ℕ
connected endpoint sender receiver = ok 9

abbrev offset_of : ℕ → ℕ
offset_of acc = acc

receiver_opened :
    new_receiver 1 2 connected
      (λ path. ok 3)
      (λ database. ok database)
      (λ bucket start. start)
      (λ bucket. ok false)
      (λ acc. ok acc)
      config
    ≡ ok opened
unfolding new_receiver chain_config open_accumulator
receiver_opened = refl

abbrev peer_400 : Peer
peer_400 = record {
  number = 400;
  hash = 400;
  sequence = 4;
  blocks = record { root = 400; nodes = (400, []) ∷ [] };
}

abbrev started : Started
started = record {
  added = 400 ∷ [];
  msgs = [];
  local = record { number = 400; hash = 400; sequence = 4; cache = 0 };
}

fresh_start :
    start node node
      (ok tt)
      (λ h. ok false)
      (λ s. ok tt)
      (chain 0)
      (λ h. ok tt)
      (ok 500)
      (λ end sequence. ok [])
      (λ added. 400 + length added)
      200
      400
      0
      (ok peer_400)
    ≡ ok started
unfolding start local_of take_missing prepare add_initial store_initial synchronize sync_acc
    sync_rounds boot_snapshot boot_at boot_later collect_recents attestation_data new_snapshot
    set_of set_add contains fill_recents parse_validators parse_turn_length validator_bytes
    read_addresses vote_attestation attestation_bytes decoded slice_range index from_bytes_acc sub64
    insert
fresh_start = refl

node_numbered : (n : ℕ) (h : Header) → node n ≡ ok h → h.number ≡ n
node_numbered n h e = ap (λ (b : Header). b.number) (sym (ok-injective e))

start_needs_number_example :
    (v : String) × (n : ℕ) × (option_of given.options "start_number" ≡ some v)
    × (read_number (printed (some v)) ≡ ok n)
    × (n % 200 ≡ 0)
    × (n ≢ 0)
start_needs_number_example =
    start_needs_number printed read_number read_float 1 2 connected (λ path. ok 3)
      (λ database. ok database) (λ bucket number. number) (λ bucket. ok false) (λ acc. ok acc)
      offset_of asked given "btp://0x1.icon/cx1" config opened node node (ok tt) (λ h. ok false)
      (λ s. ok tt) (chain 0) (λ h. ok tt) (ok 500) (λ end sequence. ok [])
      (λ added. 400 + length added) (ok peer_400) started config_read receiver_opened (λ b. refl)
      (λ b n. refl) (λ h. refl) node_numbered fresh_start

abbrev no_interval : BaseConfig String
no_interval = record given {
  options = ("start_number", "400") ∷ ("block_checkpoint_interval", "0") ∷ [];
}

abbrev config_0 : RecvConfig
config_0 = record config { db_path = "<nil>"; block_checkpoint_interval = 0 }

config_0_read :
    recv_config printed read_number read_float asked no_interval "btp://0x1.icon/cx1" ≡ ok config_0
unfolding recv_config conv_to_uint64 option_of
config_0_read = refl

abbrev backend_0 : Backend (List Snapshot) (List (ℕ × Snapshot)) Snapshot
backend_0 = record backend { checkpoint = 0 }

base_written : store backend_0 ((400, base) ∷ []) base ≢ panics
unfolding store insert
base_written e = cc

add_panics_iff_example : ((add_snapshot backend_0 empty_cache base).1 ≡ panics) ↔ (
    (v : String) × (option_of no_interval.options "block_checkpoint_interval" ≡ some v)
    × (read_number (printed (some v)) ≡ ok 0))
add_panics_iff_example =
    add_panics_iff printed read_number read_float backend_0 asked no_interval "btp://0x1.icon/cx1"
      config_0 empty_cache ((400, base) ∷ []) base config_0_read refl refl base_written

abbrev scheme_of : String → Result String
scheme_of url = ok "https"

abbrev dialled : String → Result ℕ
dialled url = ok 7

abbrev account_of : String → String
account_of address = address

abbrev message_center : String → ℕ → Result ℕ
message_center account rpc = ok 8

-- Over HTTP the retrying transport is taken.
client_made :
    new_client scheme_of (λ url. ok 6) dialled account_of message_center "https://node" "a" "b"
    ≡ ok (record { sender = "a"; receiver = "b"; rpc = 6; message_center = 8 })
unfolding new_client
client_made = refl

chain_id_panics : chain_id_of dialled (λ rpc. err (external 3)) "https://node" ≡ panics
unfolding chain_id_of
chain_id_panics = refl

abbrev no_file : String → Result (List ℕ)
no_file path = err (external 5)

abbrev bytes_of : String → List ℕ
bytes_of text = 45 ∷ []

-- The file of the key is missing.
wallet_missing :
    new_wallet no_file bytes_of (λ key password. ok password) "-" "" "key.json" ≡ err no_key_store
unfolding new_wallet
wallet_missing = refl

-- The password is the configured one, where no file of a secret is named.
wallet_opened :
    new_wallet (λ path. ok (1 ∷ [])) bytes_of (λ key password. ok password) "-" "" "key.json"
    ≡ ok (45 ∷ [])
unfolding new_wallet resolve_password
wallet_opened = refl
