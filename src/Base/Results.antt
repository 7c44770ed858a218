-- ===== src/Base/Results.antt =====
-- A call returns a value or throws. Each `throw` of the source has a constructor of `Error`.
use mathlib.Core.Path.{◌≡◌, refl}
use mathlib.Core.Logic.{◌⊎◌, inl, inr}
use mathlib.Core.Bool.{Bool, true, false}

pub data Error : Type 0 where
  -- amount.hpp, fees.cpp
  zero_halving_interval negative_fee_rate fee_overflow fee_exceeds_money bad_target bad_fee_mode :
      Error
  -- serialize.cpp, hash.cpp
  unexpected_end non_canonical_size odd_hex bad_hex_digit bad_hash_size : Error
  -- transaction.cpp
  exceeds_platform_size too_many_inputs too_many_outputs input_script_too_large
        output_script_too_large trailing_transaction_data no_inputs no_outputs too_many_items
        output_outside_money output_total_overflow push_too_large bad_reward bad_locking_script :
      Error
  -- script.cpp, merkle.cpp, pow.cpp
  invalid_public_key not_p2pk input_out_of_range wrong_key no_transactions negative_target
        zero_coefficient target_out_of_range value_out_of_range :
      Error
  -- utxo.cpp
  output_total_outside_money coinbase_as_regular duplicate_input missing_input immature_coinbase
        bad_signature input_total_overflow spends_more duplicate_output missing_coinbase
        duplicate_coinbase_output :
      Error
  -- block.cpp, chain.cpp
  header_size header_trailing genesis_inconsistent fees_outside_money reward_overflow
        exhausted_nonces empty_chain bad_genesis non_contiguous bad_proof_of_work bad_bits
        broken_link time_not_increasing extra_coinbase merkle_mismatch block_fee_overflow
        bad_coinbase_claim not_extending_tip foreign_genesis supply_overflow candidate_fee_overflow
        no_data_directory unsupported_chain no_chainstate snapshot_mismatch no_block_records
        missing_genesis no_valid_chain not_initialized :
      Error
  -- mempool.cpp
  bad_mempool_file coinbase_in_mempool already_in_mempool mempool_fee_overflow : Error
  -- bech32.cpp, wallet_amount.cpp
  amount_not_positive many_points too_many_decimals bad_amount amount_too_large amount_outside_money
        bad_fraction data_too_wide bad_padding bad_address_length mixed_case bad_prefix
        bad_character bad_checksum bad_address_version :
      Error
  -- storage.cpp
  bad_index_header bad_index_record payload_over_limit index_not_contiguous index_without_genesis
        bad_snapshot_header snapshot_height_missing snapshot_tip_missing snapshot_other_chain
        bad_snapshot_record value_outside_money bad_coinbase_flag duplicate_snapshot_outpoint
        bad_manifest_header bad_manifest_field missing_manifest_field bad_integer truncated_record
        bad_record_magic bad_record_version payload_size_mismatch record_checksum wrong_record
        block_missing index_checksum snapshot_checksum manifest_tip_mismatch too_many_transactions
        transaction_over_limit trailing_block_data no_valid_generation empty_active_chain
        file_missing :
      Error
  -- net.cpp
  bad_command payload_too_large truncated_header bad_message_start frame_length frame_checksum
        user_agent_too_large trailing_payload bad_protocol_version other_network too_many_items_sent
        bad_inventory_type bad_locator nonzero_count connection_closed bad_header_work
        headers_stopped headers_not_connected batches_not_contiguous bad_header_sequence
        time_not_after_fork headers_too_high tip_height_mismatch block_not_found
        block_count_mismatch block_not_announced body_missing chainwork_mismatch tip_claim_mismatch
        begin_outside_chain :
      Error
  -- a call of code outside the repository that failed
  external_failure : Error
  -- no throw of the source: a loop of the model ran out of fuel
  out_of_fuel : Error

pub data Result {ℓ} (A : Type ℓ) : Type ℓ where
  ok : A → Result A
  err : Error → Result A

-- `if (bad) throw e;`
abbrev pub throw_if : Bool → Error → Result (Unit {0})
throw_if true e = err e
throw_if false e = ok tt

infixl 5 ◌>>=◌
abbrev pub ◌>>=◌ {ℓ κ} : {A : Type ℓ} {B : Type κ} → Result A → (A → Result B) → Result B
ok value >>= next = next value
err thrown >>= next = err thrown

infixl 5 ◌>>◌
abbrev pub ◌>>◌ {ℓ} : {C : Type ℓ} → Result (Unit {0}) → Result C → Result C
check >> next = check >>= λ _. next

-- A bind whose first part returns, for chains that are too long to rewrite.
pub bind_ok {ℓ κ} :
    {A : Type ℓ} {B : Type κ} (call : Result A) (next : A → Result B) {value : A}
    {result : Result B}
    → call ≡ ok value
    → next value ≡ result
    → (call >>= next) ≡ result
bind_ok call next e h = rw e h

pub throw_if-ok : (b : Bool) (e : Error) → throw_if b e ≡ ok tt → b ≡ false
throw_if-ok true e h = cc
throw_if-ok false e h = refl

-- Inversion of a successful bind, for proofs where the parts stay shut.
pub >>=-eq-ok {ℓ κ} :
    {A : Type ℓ} {C : Type κ} (call : Result A) (next : A → Result C) {result : C}
    → (call >>= next) ≡ ok result
    → (value : A) × (call ≡ ok value) × (next value ≡ ok result)
>>=-eq-ok (ok value) next h = (value, refl, h)
>>=-eq-ok (err thrown) next h = cc

pub >>-eq-ok {ℓ} :
    {B : Type ℓ} (b : Bool) (e : Error) (k : Result B) {r : B}
    → (throw_if b e >> k) ≡ ok r
    → (b ≡ false) × (k ≡ ok r)
>>-eq-ok true e k h = cc
>>-eq-ok false e k h = (refl, h)

pub Result-cases {ℓ} :
    {A : Type ℓ} (r : Result A) → ((a : A) × (r ≡ ok a)) ⊎ ((e : Error) × (r ≡ err e))
Result-cases (ok a) = inl (a, refl)
Result-cases (err e) = inr (e, refl)

pub ok-injective {ℓ} : {A : Type ℓ} {a b : A} → ok a ≡ ok b → a ≡ b
ok-injective h = cc
