-- ===== src/Factory/Options.antt =====
-- What the options of a chain's configuration decide (chain/bsc2/bsc2factory.go), with the start of the
-- receiver that is made from them (chain/bsc2/receiver.go).
use Prim.Native.String.{String}
use btp2_bsc.Base.{
  ℕ, ◌%◌, ◌≡◌, ◌≢◌, refl, sym, ap, ◌∙◌, List, ◌==◌, ◌||◌, not, Option, some, Bool, false, Result,
  ok, err, panics, >>=-eq-ok, or_panic, or_panic-eq-ok, ok-injective, arith, Bool-cases,
  Option-cases, inl, inr,
}
use btp2_bsc.Chain.{Header, Ethereum}
use btp2_bsc.Snapshot.State.{Snapshot}
use btp2_bsc.Snapshot.Boot.{boot_snapshot, boot-Booted}
use btp2_bsc.Client.{Message}
use btp2_bsc.Receiver.{Peer}
use btp2_bsc.Receiver.Sync.{prepare, add_initial, store_initial, with_snapshot}
use btp2_bsc.Receiver.Start.{Started, all_added, start}
use btp2_bsc.Receiver.Start.Grown.{all_added_inv}
use btp2_bsc.Factory.{BaseConfig, RecvConfig, option_of, conv_to_uint64, recv_config, epoch_length}
use btp2_bsc.Factory.Open.{Opened, new_receiver, open_accumulator}

module _ (header_by_hash header_by_number : ℕ → Result Header) (flush : Result (Unit {0}))
    (has : ℕ → Result Bool) (store : Snapshot → Result (Unit {0})) (eth : Ethereum) where
  -- Over a store without snapshots `prepare` boots one at the offset.
  prepare_boots :
      (epoch offset leaves : ℕ) (xs : List ℕ)
      → ((h : ℕ) → has h ≡ ok false)
      → all_added (prepare header_by_hash header_by_number flush has store eth epoch offset leaves)
        ≡ ok xs
      → (offset % epoch ≡ 0)
        × ((head : Header) × (s : Snapshot) × (header_by_number offset ≡ ok head)
            × (boot_snapshot header_by_number eth epoch head ≡ ok s))
  unfolding prepare add_initial store_initial
  prepare_boots epoch offset leaves xs empty e =
      elim (Bool-cases (epoch == 0 || not (offset % epoch == 0))) [
        | inl bad ↦ absurd (ground (arith, rw (prepare, bad) at e))
        | inr good ↦ (ground (arith, good), by_head good (header_by_number offset) refl)
      ]
    where
      by_added :
          (head : Header) (r : List ℕ × Result (Unit {0}))
          → header_by_number offset ≡ ok head
          → all_added
              (with_snapshot header_by_hash header_by_number flush has store eth epoch head r)
            ≡ ok xs
          → (head : Header) × (s : Snapshot) × (header_by_number offset ≡ ok head)
            × (boot_snapshot header_by_number eth epoch head ≡ ok s)
      by_added head (added, panics) p q = cc
      by_added head (added, err x) p q = cc
      by_added head (added, ok _) p q =
          let (u, _, done) = all_added_inv _ xs q in
          let (s, booted, _) =
            >>=-eq-ok (boot_snapshot header_by_number eth epoch head) store
              (rw (store_initial, empty head.hash) at done) in
          (head, s, p, booted)

      by_head :
          (epoch == 0 || not (offset % epoch == 0)) ≡ false
          → (r : Result Header) → header_by_number offset ≡ r
          → (head : Header) × (s : Snapshot) × (header_by_number offset ≡ ok head)
            × (boot_snapshot header_by_number eth epoch head ≡ ok s)
      by_head good panics p = absurd (ground (arith, rw (prepare, good, p) at e))
      by_head good (err x) p = absurd (ground (arith, rw (prepare, good, p) at e))
      by_head good (ok head) p =
          by_added head (add_initial header_by_hash header_by_number flush leaves head) p
            (rw (prepare, good, p) at e)

module _ {Value Float : Type 0} (sprint : Option Value → String) (parse_uint : String → Result ℕ)
    (parse_float : String → Result Float) where
  -- What the configuration of a receiver is read from.
  pub recv_config_reads :
      (chain_id : String → Result ℕ) (src : BaseConfig Value) (dst : String) (cfg : RecvConfig)
      → recv_config sprint parse_uint parse_float chain_id src dst ≡ ok cfg
      → (conv_to_uint64 sprint parse_uint parse_float src.options "start_number" 0
          ≡ ok cfg.start_number)
        × (conv_to_uint64 sprint parse_uint parse_float src.options "block_checkpoint_interval" 1024
            ≡ ok cfg.block_checkpoint_interval)
        × (cfg.epoch ≡ epoch_length)
  unfolding recv_config
  recv_config_reads chain_id src dst cfg e =
      let (id, _, e1) = >>=-eq-ok (or_panic (chain_id src.endpoint)) _ e in
      let (n, p, e2) =
        >>=-eq-ok (conv_to_uint64 sprint parse_uint parse_float src.options "start_number" 0) _
          e1 in
      let (k, q, e3) =
        >>=-eq-ok
          (conv_to_uint64 sprint parse_uint parse_float src.options "block_checkpoint_interval"
            1024)
          _ e2 in
      let made = ok-injective e3 in
      (
        p ∙ ap (λ (c : RecvConfig). ok c.start_number) made,
        q ∙ ap (λ (c : RecvConfig). ok c.block_checkpoint_interval) made,
        sym (ap (λ (c : RecvConfig). c.epoch) made),
      )

  -- A number other than the default was read from a value of the option.
  pub conv_to_uint64_given :
      (m : List (String × Value)) (k : String) (def n : ℕ)
      → conv_to_uint64 sprint parse_uint parse_float m k def ≡ ok n
      → n ≢ def
      → (v : Value) × (option_of m k ≡ some v) × (parse_uint (sprint (some v)) ≡ ok n)
  unfolding conv_to_uint64
  conv_to_uint64_given m k def n e other = elim (Option-cases (option_of m k)) [
    | inl p ↦ absurd (other (sym (ok-injective (rw (conv_to_uint64, p) at e))))
    | inr (v, p) ↦
        (v, p, or_panic-eq-ok (parse_uint (sprint (some v))) (rw (conv_to_uint64, p) at e))
  ]

  module _ {Params Client Database Bucket Acc : Type 0} (bsc chapel : Params)
      (new_client : String → String → String → Result Client)
      (open_database : String → Result Database) (get_bucket : Database → Result Bucket)
      (new_accumulator : Bucket → ℕ → Acc) (has_state : Bucket → Result Bool)
      (recover : Acc → Result Acc) (offset_of : Acc → ℕ) where
    -- Over a database without an accumulator the offset is the number to start from.
    fresh_offset :
        (cfg : RecvConfig) (o : Opened Params Client Database Acc)
        → ((b : Bucket) → has_state b ≡ ok false)
        → ((b : Bucket) (n : ℕ) → offset_of (new_accumulator b n) ≡ n)
        → new_receiver bsc chapel new_client open_database get_bucket new_accumulator has_state
            recover cfg
          ≡ ok o
        → (offset_of o.accumulator ≡ cfg.start_number) × (o.epoch ≡ cfg.epoch)
    unfolding new_receiver open_accumulator
    fresh_offset cfg o fresh law e =
        let (client, _, e1) =
          >>=-eq-ok (new_client cfg.endpoint cfg.src_address cfg.dst_address) _ e in
        let (database, _, e2) = >>=-eq-ok (or_panic (open_database cfg.db_path)) _ e1 in
        let (bucket, _, e3) = >>=-eq-ok (or_panic (get_bucket database)) _ e2 in
        let made = ok-injective (rw (open_accumulator, fresh bucket) at e3) in
        (
          ap (λ (x : Opened Params Client Database Acc). offset_of x.accumulator) (sym made)
              ∙ law bucket cfg.start_number,
          sym (ap (λ (x : Opened Params Client Database Acc). x.epoch) made),
        )

    -- For a receiver made from a chain's configuration, over a database that holds nothing, and with
    -- a node that answers a height with its block: a `Start` that succeeds needs the option
    -- "start_number", with a positive multiple of 200 as its number.
    pub start_needs_number :
        (chain_id : String → Result ℕ) (src : BaseConfig Value) (dst : String) (cfg : RecvConfig)
        (o : Opened Params Client Database Acc)
        (header_by_hash header_by_number : ℕ → Result Header) (flush : Result (Unit {0}))
        (has : ℕ → Result Bool) (store : Snapshot → Result (Unit {0})) (eth : Ethereum)
        (ensure : ℕ → Result (Unit {0})) (latest : Result ℕ)
        (messages_after : ℕ → ℕ → Result (List Message)) (height_after : List ℕ → ℕ)
        (status : Result Peer) (s : Started)
        → recv_config sprint parse_uint parse_float chain_id src dst ≡ ok cfg
        → new_receiver bsc chapel new_client open_database get_bucket new_accumulator has_state
            recover cfg
          ≡ ok o
        → ((b : Bucket) → has_state b ≡ ok false)
        → ((b : Bucket) (n : ℕ) → offset_of (new_accumulator b n) ≡ n)
        → ((h : ℕ) → has h ≡ ok false)
        → ((n : ℕ) (h : Header) → header_by_number n ≡ ok h → h.number ≡ n)
        → start header_by_hash header_by_number flush has store eth ensure latest messages_after
            height_after o.epoch
            (offset_of o.accumulator)
            0
            status
          ≡ ok s
        → (v : Value) × (n : ℕ) × (option_of src.options "start_number" ≡ some v)
          × (parse_uint (sprint (some v)) ≡ ok n)
          × (n % 200 ≡ 0)
          × (n ≢ 0)
    unfolding start
    start_needs_number chain_id src dst cfg o header_by_hash header_by_number flush has store eth
          ensure latest messages_after height_after status s read made fresh law empty numbered e =
        let (given, _, epoch) = recv_config_reads chain_id src dst cfg read in
        let (offset, epoch') = fresh_offset cfg o fresh law made in
        let (peer, _, e1) = >>=-eq-ok (or_panic status) _ e in
        let (first, prepared, _) =
          >>=-eq-ok
            (all_added (
              prepare header_by_hash header_by_number flush has store eth o.epoch
                (offset_of o.accumulator) 0))
            _ e1 in
        let (multiple, (head, snap, found, booted)) =
          prepare_boots header_by_hash header_by_number flush has store eth o.epoch
            (offset_of o.accumulator) 0 first empty prepared in
        let above = (boot-Booted header_by_number eth o.epoch head snap booted).0 in
        let positive : cfg.start_number ≢ 0 = λ z. above (numbered _ head found ∙ offset ∙ z) in
        let (v, there, number) =
          conv_to_uint64_given src.options "start_number" 0 cfg.start_number given positive in
        (
          v,
          cfg.start_number,
          there,
          number,
          omega (arith, rw (offset, epoch' ∙ epoch) at multiple),
          positive,
        )
