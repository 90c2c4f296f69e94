-- ===== src/Factory/Failures.antt =====
-- How `NewReceiver` and `NewSender` fail (chain/bsc2/bsc2factory.go).
use Prim.Native.String.{String}
use btp2_bsc.Base.{
  ℕ, ◌≡◌, ◌≢◌, ◌↔◌, List, Option, none, some, Bool, true, false, Error, Result, ok, err, panics,
  ◌>>=◌, or_panic, if◌then◌else◌,
}
use btp2_bsc.Client.Connect.{new_client}
use btp2_bsc.Factory.{
  BaseConfig, option_of, conv_to_uint64, conv_to_float64, recv_config, new_wallet, sender_config,
}
use btp2_bsc.Factory.Open.{open_accumulator, new_receiver, new_sender, open_receiver, open_sender}

or_panic-ne-err : {A : Type 0} (r : Result A) (e : Error) → or_panic r ≢ err e
or_panic-ne-err (ok a) e q = cc
or_panic-ne-err (err x) e q = cc
or_panic-ne-err panics e q = cc

>>=-ne-err :
    {A B : Type 0} (m : Result A) (f : A → Result B) (e : Error)
    → m ≢ err e
    → ((a : A) → f a ≢ err e)
    → (m >>= f) ≢ err e
>>=-ne-err (ok a) f e n k = k a
>>=-ne-err (err x) f e n k = λ p. n (cc p)
>>=-ne-err panics f e n k = λ p. cc

ok-ne-err : {A : Type 0} (a : A) (e : Error) → ok a ≢ err e
ok-ne-err a e q = cc

>>=-err_iff :
    {A B : Type 0} (m : Result A) (f : A → Result B) (e : Error)
    → ((a : A) → f a ≢ err e)
    → ((m >>= f) ≡ err e) ↔ (m ≡ err e)
>>=-err_iff (ok a) f e k = (λ p. absurd (k a p), λ p. cc)
>>=-err_iff (err x) f e k = (λ p. cc, λ p. cc)
>>=-err_iff panics f e k = (λ p. cc, λ p. cc)

module _ {Rpc Bmc : Type 0} (scheme : String → Result String) (dial_http dial : String → Result Rpc)
    (account : String → String) (new_message_center : String → Rpc → Result Bmc) where
  new_client-ne-err :
      (endpoint sender receiver : String) (e : Error)
      → new_client scheme dial_http dial account new_message_center endpoint sender receiver ≢ err e
  unfolding new_client
  new_client-ne-err endpoint sender receiver e =
      >>=-ne-err (or_panic (scheme endpoint)) _ e (or_panic-ne-err _ e) (λ u.
        >>=-ne-err (or_panic _) _ e (or_panic-ne-err _ e) (λ rpc.
          >>=-ne-err (or_panic (new_message_center (account sender) rpc)) _ e (or_panic-ne-err _ e)
            (λ bmc. ok-ne-err _ e)))

open_accumulator-ne-err :
    {Bucket Acc : Type 0} (new_accumulator : Bucket → ℕ → Acc) (has_state : Bucket → Result Bool)
    (recover : Acc → Result Acc) (bucket : Bucket) (start : ℕ) (e : Error)
    → open_accumulator new_accumulator has_state recover bucket start ≢ err e
unfolding open_accumulator
open_accumulator-ne-err new_accumulator has_state recover bucket start e =
    >>=-ne-err (or_panic (has_state bucket)) _ e (or_panic-ne-err _ e) by_state
  where
    by_state :
        (there : Bool)
        → (if there
            then or_panic (recover (new_accumulator bucket start))
            else ok (new_accumulator bucket start))
          ≢ err e
    by_state true = or_panic-ne-err _ e
    by_state false = ok-ne-err _ e

module _ {Value Float : Type 0} (sprint : Option Value → String) (parse_uint : String → Result ℕ)
    (parse_float : String → Result Float) where
  conv_to_uint64-ne-err :
      (m : List (String × Value)) (k : String) (def : ℕ) (e : Error)
      → conv_to_uint64 sprint parse_uint parse_float m k def ≢ err e
  unfolding conv_to_uint64
  conv_to_uint64-ne-err m k def e = by_option (option_of m k)
    where
      by_option :
          (o : Option Value)
          → (elim o [ none ↦ ok def | some val ↦ or_panic (parse_uint (sprint (some val))) ])
            ≢ err e
      by_option none = ok-ne-err def e
      by_option (some val) = or_panic-ne-err (parse_uint (sprint (some val))) e

  conv_to_float64-ne-err :
      (m : List (String × Value)) (k : String) (def : Float) (e : Error)
      → conv_to_float64 sprint parse_uint parse_float m k def ≢ err e
  unfolding conv_to_float64
  conv_to_float64-ne-err m k def e = by_option (option_of m k)
    where
      by_option :
          (o : Option Value)
          → (elim o [ none ↦ ok def | some val ↦ or_panic (parse_float (sprint (some val))) ])
            ≢ err e
      by_option none = ok-ne-err def e
      by_option (some val) = or_panic-ne-err (parse_float (sprint (some val))) e

  recv_config-ne-err :
      (chain_id : String → Result ℕ) (src : BaseConfig Value) (dst : String) (e : Error)
      → recv_config sprint parse_uint parse_float chain_id src dst ≢ err e
  unfolding recv_config
  recv_config-ne-err chain_id src dst e =
      >>=-ne-err (or_panic (chain_id src.endpoint)) _ e (or_panic-ne-err _ e) (λ id.
        >>=-ne-err (conv_to_uint64 sprint parse_uint parse_float src.options "start_number" 0) _ e
          (conv_to_uint64-ne-err src.options "start_number" 0 e)
          (λ start.
            >>=-ne-err
              (conv_to_uint64 sprint parse_uint parse_float src.options "block_checkpoint_interval"
                1024)
              _ e (conv_to_uint64-ne-err src.options "block_checkpoint_interval" 1024 e)
              (λ interval. ok-ne-err _ e)))

  module _ {Rpc Bmc : Type 0} (scheme : String → Result String)
      (dial_http dial : String → Result Rpc) (account : String → String)
      (new_message_center : String → Rpc → Result Bmc) {Params : Type 0} (bsc chapel : Params) where
    -- `NewReceiver` never gives an error: whatever goes wrong panics.
    pub open_receiver_panics :
        {Database Bucket Acc : Type 0} (open_database : String → Result Database)
        (get_bucket : Database → Result Bucket) (new_accumulator : Bucket → ℕ → Acc)
        (has_state : Bucket → Result Bool) (recover : Acc → Result Acc)
        (chain_id : String → Result ℕ) (src : BaseConfig Value) (dst : String) (e : Error)
        → open_receiver (recv_config sprint parse_uint parse_float chain_id src dst) (
            new_receiver bsc chapel
              (new_client scheme dial_http dial account new_message_center)
              open_database
              get_bucket
              new_accumulator
              has_state
              recover)
          ≢ err e
    unfolding open_receiver new_receiver open_accumulator
    open_receiver_panics open_database get_bucket new_accumulator has_state recover chain_id src dst
          e =
        >>=-ne-err (recv_config sprint parse_uint parse_float chain_id src dst) _ e
          (recv_config-ne-err chain_id src dst e)
          (λ config.
            >>=-ne-err
              (new_client scheme dial_http dial account new_message_center config.endpoint
                config.src_address config.dst_address)
              _ e (new_client-ne-err scheme dial_http dial account new_message_center _ _ _ e)
              (λ client.
                >>=-ne-err (or_panic (open_database config.db_path)) _ e (or_panic-ne-err _ e)
                  (λ database.
                    >>=-ne-err (or_panic (get_bucket database)) _ e (or_panic-ne-err _ e) (λ bucket.
                      >>=-ne-err
                        (open_accumulator new_accumulator has_state recover bucket
                          config.start_number)
                        _ e
                        (open_accumulator-ne-err new_accumulator has_state recover bucket
                          config.start_number e)
                        (λ acc. ok-ne-err _ e)))))

    -- `NewSender` gives just the errors of opening its wallet; whatever else goes wrong panics.
    pub open_sender_errors :
        {Wallet : Type 0} (chain_id : String → Result ℕ) (one_and_a_half : Float)
        (read_file : String → Result (List ℕ)) (bytes : String → List ℕ)
        (decrypt : List ℕ → List ℕ → Result Wallet) (src : String) (dst : BaseConfig Value)
        (e : Error)
        → (open_sender
              (sender_config sprint parse_uint parse_float chain_id one_and_a_half read_file bytes
                decrypt src dst)
              (new_sender bsc chapel (new_client scheme dial_http dial account new_message_center))
            ≡ err e)
          ↔ (new_wallet read_file bytes decrypt dst.key_store_pass dst.key_secret dst.key_store
              ≡ err e)
    unfolding open_sender sender_config new_sender
    open_sender_errors chain_id one_and_a_half read_file bytes decrypt src dst e =
        let opened =
          >>=-err_iff
            (sender_config sprint parse_uint parse_float chain_id one_and_a_half read_file bytes
              decrypt src dst)
            (λ r.
              new_sender bsc chapel (new_client scheme dial_http dial account new_message_center)
                r.0 r.1)
            e
            (λ r.
              >>=-ne-err
                (new_client scheme dial_http dial account new_message_center r.0.endpoint
                  r.0.dst_address r.0.src_address)
                _ e (new_client-ne-err scheme dial_http dial account new_message_center _ _ _ e)
                (λ client. ok-ne-err _ e)) in
        let read =
          >>=-err_iff
            (new_wallet read_file bytes decrypt dst.key_store_pass dst.key_secret dst.key_store) _ e
            (λ w. >>=-ne-err (or_panic (chain_id dst.endpoint)) _ e (or_panic-ne-err _ e) (λ id.
              >>=-ne-err
                (conv_to_uint64 sprint parse_uint parse_float dst.options "max_gas_limit" 0) _ e
                (conv_to_uint64-ne-err dst.options "max_gas_limit" 0 e)
                (λ gas.
                  >>=-ne-err
                    (conv_to_float64 sprint parse_uint parse_float dst.options "estimate_gas_factor"
                      one_and_a_half)
                    _ e (conv_to_float64-ne-err dst.options "estimate_gas_factor" one_and_a_half e)
                    (λ factor.
                      >>=-ne-err
                        (conv_to_uint64 sprint parse_uint parse_float dst.options
                          "block_checkpoint_interval" 1024)
                        _ e (conv_to_uint64-ne-err dst.options "block_checkpoint_interval" 1024 e)
                        (λ interval. ok-ne-err _ e))))) in
        (λ p. read.0 (opened.0 p), λ p. opened.1 (read.1 p))
