-- ===== src/Client/Connect.antt =====
-- `ChainID` and `NewClient` (chain/bsc2/client.go): what the connection to a node is made of. Dialling,
-- the parser of URLs and the binding of the contract are arguments.
use Prim.Native.String.{String}
use text.Mathlib.Text.{◌==◌ as str_eq}
use btp2_bsc.Base.{ℕ, ◌||◌, if◌then◌else◌, Result, ok, ◌>>=◌, or_panic}

unfoldable pub chain_id_of :
    {Rpc : Type 0} → (String → Result Rpc) → (Rpc → Result ℕ) → String → Result ℕ
chain_id_of dial chain_id url = or_panic (dial url) >>= λ client. or_panic (chain_id client)

pub record Client (Rpc Bmc : Type 0) : Type 0 where
  pub sender : String
  pub receiver : String
  pub rpc : Rpc
  pub message_center : Bmc

module _ {Rpc Bmc : Type 0} (scheme : String → Result String) (dial_http dial : String → Result Rpc)
    (account : String → String) (new_message_center : String → Rpc → Result Bmc) where
  -- `from` and `to` are the addresses of the two sides; HTTP goes through the transport that tries
  -- again.
  unfoldable pub new_client : String → String → String → Result (Client Rpc Bmc)
  new_client endpoint sender receiver = do
    u ← or_panic (scheme endpoint)
    rpc ←
        or_panic (if str_eq u "http" || str_eq u "https" then dial_http endpoint else dial endpoint)
    bmc ← or_panic (new_message_center (account sender) rpc)
    ok (record { sender = sender; receiver = receiver; rpc = rpc; message_center = bmc })
