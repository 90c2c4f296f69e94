-- ===== src/Receiver/Sync/Examples.antt =====
-- Tests of the receiver's preparation, of `Start` and of `GetHeightForSeq`.
use btp2_bsc.Base.{
  ℕ, ◌+◌, ◌-◌, ◌≡◌, refl, [], ◌∷◌, none, some, true, Result, ok, err, panics, not_found, external,
}
use btp2_bsc.Chain.{Header, Ethereum}
use btp2_bsc.Client.{Message}
use btp2_bsc.Receiver.{Bstatus}
use btp2_bsc.Receiver.Relay.{sync_rounds}
use btp2_bsc.Receiver.Sync.{add_initial, store_initial, prepare, sync_acc, synchronize}
use btp2_bsc.Receiver.Watch.{take_missing, get_height_for_seq}

abbrev block : ℕ → Header
block number = record {
  number = number;
  hash = 1000 + number;
  parent_hash = 999 + number;
  time = number;
  coinbase = 0;
  extra = [];
  size = 600;
}

abbrev by_number : ℕ → Result Header
by_number n = ok (block n)

abbrev by_hash : ℕ → Result Header
by_hash h = ok (block (h - 1000))

module _ (eth : Ethereum) where
  -- The snapshot is there, the accumulator is empty.
  prepare-new :
      prepare by_hash by_number (ok tt) (λ h. ok true) (λ s. ok tt) eth 200 400 0
      ≡ (1400 ∷ [], ok tt)
  unfolding prepare add_initial store_initial
  prepare-new = refl

  prepare-again :
      prepare by_hash by_number (ok tt) (λ h. ok true) (λ s. ok tt) eth 200 400 3 ≡ ([], ok tt)
  unfolding prepare add_initial store_initial
  prepare-again = refl

  prepare_off_epoch :
      prepare by_hash by_number (ok tt) (λ h. ok true) (λ s. ok tt) eth 200 401 0 ≡ ([], panics)
  unfolding prepare
  prepare_off_epoch = refl

synchronize_403 :
    synchronize by_hash by_number (ok tt) (λ h. ok tt) 401 403 ≡ (1401 ∷ 1402 ∷ 1403 ∷ [], ok tt)
unfolding synchronize sync_acc sync_rounds
synchronize_403 = refl

synchronize_fails :
    synchronize by_hash by_number (ok tt) (λ h. err (external 1)) 401 403 ≡ ([], err (external 1))
unfolding synchronize
synchronize_fails = refl

abbrev message : ℕ → Message
message seq = record { seq = seq; block_number = 400; block_hash = 1400; tx_index = seq }

abbrev local : Bstatus
local = record { number = 402; hash = 1402; sequence = 4; cache = 0 }

missing_two :
    take_missing local [] (message 5 ∷ message 6 ∷ [])
    ≡ (message 5 ∷ message 6 ∷ [], record local { sequence = 6 })
unfolding take_missing
missing_two = refl

found_by_search : get_height_for_seq (λ k. none) (λ k. ok (some (message k))) 5 ≡ ok 400
unfolding get_height_for_seq
found_by_search = refl

not_found_anywhere : get_height_for_seq (λ k. none) (λ k. err not_found) 5 ≡ ok 0
unfolding get_height_for_seq
not_found_anywhere = refl
