-- ===== src/Base/Outcome.antt =====
-- Go results: a value, an error, or a panic. `external` stands for an error that other code made.
use Prim.Native.Nat.{ℕ}
use mathlib.Core.Path.{◌≡◌, refl}
use mathlib.Core.Logic.{◌≢◌}

pub data Error : Type 0 where
  duplicated_hash no_parent_hash no_leaf_count no_root_id : Error
  out_of_range inconsistent_block unauthorized_validator : Error
  recently_signed_bohr recently_signed : Error
  invalid_span_validators invalid_turn_length invalid_validators_bytes : Error
  missing_signature no_database recoverable_err no_cached_header : Error
  estimate_gas_failure dropped_by_tx_pool tx_query_failure tx_pool_timeout : Error
  receipt_query_failure tx_sender_recovery_failure emul_revert_failure tx_dropped : Error
  not_found invalid_state decode_failure : Error
  invalid_type no_key_store config_not_opened config_not_read config_not_decoded : Error
  external : ℕ → Error

pub data Result {ℓ} (Value : Type ℓ) : Type ℓ where
  panics : Result Value
  ok : Value → Result Value
  err : Error → Result Value

infixl 5 ◌>>=◌
abbrev pub ◌>>=◌ {ℓ κ} :
    {Value : Type ℓ} {Next : Type κ} → Result Value → (Value → Result Next) → Result Next
panics >>= next = panics
err why >>= next = err why
ok value >>= next = next value

-- What ends in `panic` or `log.Panicf`: an error is a panic.
abbrev pub or_panic {ℓ} : {A : Type ℓ} → Result A → Result A
or_panic (ok a) = ok a
or_panic (err e) = panics
or_panic panics = panics

pub or_panic-eq-ok {ℓ} : {A : Type ℓ} (r : Result A) {a : A} → or_panic r ≡ ok a → r ≡ ok a
or_panic-eq-ok (ok a) e = e
or_panic-eq-ok (err x) e = cc
or_panic-eq-ok panics e = cc

pub >>=-eq-ok {ℓ κ} :
    {Value : Type ℓ} {Next : Type κ} (first : Result Value) (next : Value → Result Next)
    {end : Next}
    → (first >>= next) ≡ ok end
    → (value : Value) × (first ≡ ok value) × (next value ≡ ok end)
>>=-eq-ok panics next e = cc
>>=-eq-ok (err why) next e = cc
>>=-eq-ok (ok value) next e = (value, refl, e)

pub >>=-ne-panics {ℓ κ} :
    {A : Type ℓ} {B : Type κ} (m : Result A) (f : A → Result B)
    → m ≢ panics
    → ((a : A) → f a ≢ panics)
    → (m >>= f) ≢ panics
>>=-ne-panics (ok a) f n k = k a
>>=-ne-panics (err e) f n k = λ p. cc
>>=-ne-panics panics f n k = λ p. n refl

pub ok-injective {ℓ} : {A : Type ℓ} {a b : A} → ok a ≡ ok b → a ≡ b
ok-injective e = cc
