-- ===== src/Receiver/Start/Examples.antt =====
-- The receiver's start with an empty accumulator and one missing message.
use btp2_bsc.Base.{
  Result, ℕ, ◌≤◌, sym, ap, subst, arith, false, ok-injective, ◌+◌, ◌-◌, ◌≡◌, refl, [], ◌∷◌, ok, err,
  panics, true, length, external,
}
use btp2_bsc.Chain.{Header, Ethereum}
use btp2_bsc.Client.{Message}
use btp2_bsc.Receiver.{Bstatus, Peer}
use btp2_bsc.Receiver.Relay.{sync_rounds}
use btp2_bsc.Receiver.Sync.{add_initial, store_initial, prepare, sync_acc, synchronize}
use btp2_bsc.Receiver.Watch.{take_missing}
use btp2_bsc.Receiver.Sync.Heights.{Run}
use btp2_bsc.Receiver.Start.Grown.{IsNode, start_accumulates}
use btp2_bsc.Receiver.Start.{Started, local_of, start}

abbrev block : ℕ → Header
block number = record {
  number = number;
  hash = 1000 + number;
  parent_hash = 999 + number;
  time = number;
  coinbase = 0;
  extra = [];
  size = 600;
}

abbrev message : Message
message = record { seq = 5; block_number = 401; block_hash = 1401; tx_index = 0 }

abbrev peer : Peer
peer = record {
  number = 402;
  hash = 1402;
  sequence = 4;
  blocks = record { root = 1402; nodes = (1402, []) ∷ [] };
}

abbrev started : Bstatus
started = record { number = 402; hash = 1402; sequence = 5; cache = 0 }

module _ (eth : Ethereum) where
  start_at_402 :
      start
        (λ h. ok (block (h - 1000)))
        (λ n. ok (block n))
        (ok tt)
        (λ h. ok true)
        (λ s. ok tt)
        eth
        (λ h. ok tt)
        (ok 500)
        (λ end sequence. ok (message ∷ []))
        (λ added. 400 + length added)
        200
        400
        0
        (ok peer)
      ≡ ok (record { added = 1400 ∷ 1401 ∷ 1402 ∷ []; msgs = message ∷ []; local = started })
  unfolding start local_of take_missing prepare add_initial store_initial synchronize sync_acc
      sync_rounds
  start_at_402 = refl

  -- A node that cannot be reached.
  start_unconnected :
      start
        (λ h. ok (block (h - 1000)))
        (λ n. err (external 1))
        (ok tt)
        (λ h. ok true)
        (λ s. ok tt)
        eth
        (λ h. ok tt)
        (ok 500)
        (λ end sequence. ok (message ∷ []))
        (λ added. 400 + length added)
        200
        400
        0
        (ok peer)
      ≡ panics
  unfolding start prepare
  start_unconnected = refl

abbrev by_number : ℕ → Result Header
by_number n = ok (block n)

abbrev by_hash : ℕ → Result Header
by_hash h = ok (block (h - 1000))

node : IsNode by_hash by_number (ok tt)
node = record {
  heights = λ n h e. ap (λ (b : Header). b.number) (sym (ok-injective e));
  hashes = λ n h e.
      subst (λ (b : Header). by_hash b.hash ≡ ok b) (ok-injective e)
        (ap (λ k. ok (block k)) (omega arith));
}

abbrev ethereum : Ethereum
ethereum = record {
  is_bohr = λ number time. false;
  seal_hash = λ head id. [];
  recover = λ hash sig. ok [];
  keccak = λ bytes. bytes;
  decode_attestation = λ bytes. err (external 1);
}

abbrev state_at_402 : Started
state_at_402 = record { added = 1400 ∷ 1401 ∷ 1402 ∷ []; msgs = message ∷ []; local = started }

start_accumulates_example :
    Run by_number 400 (1400 ∷ 1401 ∷ 1402 ∷ []) × (400 ≤ 402 → 400 + 3 ≡ 403)
start_accumulates_example =
    start_accumulates by_hash by_number (ok tt) node (λ h. ok true) (λ s. ok tt) ethereum
      (λ h. ok tt) (ok 500) (λ end sequence. ok (message ∷ [])) (λ added. 400 + length added) 200
      400 peer state_at_402 (λ xs. refl) (start_at_402 ethereum)
