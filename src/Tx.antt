-- ===== src/Tx.antt =====
-- tx/builder.go: the transaction and its fields. A byte slice is a list of numbers; a value is an int64
-- that is zero or more, and a count or an index fits its Go type.
pub mod Wire
pub mod Build
pub mod Sign
mod Tests
use soqucoin_sdk.Prelude.{
  ℕ, ◌+◌, ◌-◌, ◌*◌, String, Bool, true, false, ◌&&◌, ◌||◌, Option, none, some, List, [], ◌∷◌, ◌++◌,
  if◌then◌else◌, nat_eq, ltb, length,
}
use soqucoin_sdk.Errors.{invalid_amount, fee_too_high, input_overflow, Error, Fault}
use soqucoin_sdk.Result.{Result, ok, error}
use soqucoin_sdk.Types.{Utxo}
use soqucoin_sdk.Text.{codes, hex_decode, reverse}

abbrev pub sig_hash_all : ℕ
sig_hash_all = 1

abbrev pub dilithium_sig_size : ℕ
dilithium_sig_size = 2420

abbrev pub dilithium_pub_key_size : ℕ
dilithium_pub_key_size = 1312

abbrev pub utxo_cost_per_byte : ℕ
utxo_cost_per_byte = 6500

abbrev pub max_money : ℕ
max_money = 20_000_000_000 * 100_000_000

abbrev pub fee_margin_vbytes : ℕ
fee_margin_vbytes = 1

-- The two limits are variables that an operator may tighten.
pub record FeeLimits : Type 0 where
  pub max_fee_shors : ℕ
  pub max_fee_rate : ℕ

abbrev pub default_limits : FeeLimits
default_limits = record { max_fee_shors = 2 * 100_000_000; max_fee_rate = 100_000 }

pub record TxInput : Type 0 where
  pub tx_id : List ℕ
  pub vout : ℕ
  pub sequence : ℕ
  pub value : ℕ
  pub script_pub_key : List ℕ
  pub witness_data : List (List ℕ)
  pub address : String

pub record TxOutput : Type 0 where
  pub value : ℕ
  pub script_pub_key : List ℕ

pub record Transaction : Type 0 where
  pub version : ℕ
  pub inputs : List TxInput
  pub outputs : List TxOutput
  pub lock_time : ℕ

unfoldable pub new_transaction : Transaction
new_transaction = record { version = 2; inputs = []; outputs = []; lock_time = 0 }

unfoldable pub input_of : Utxo → List ℕ → List ℕ → TxInput
input_of u script tx_id = record {
  tx_id = reverse tx_id;
  vout = u.vout;
  sequence = 0xffffffff;
  value = u.value;
  script_pub_key = script;
  witness_data = [];
  address = u.address;
}

abbrev added_input : Utxo → List ℕ → Transaction → Option (List ℕ) → Result Transaction
added_input u script t none = error []
added_input u script t (some tx_id) =
    if nat_eq (length tx_id) 32
    then ok (record t { inputs = t.inputs ++ (input_of u script tx_id ∷ []) })
    else error []

unfoldable pub add_input : Utxo → List ℕ → Transaction → Result Transaction
add_input u script t = added_input u script t (hex_decode (codes u.tx_id))

unfoldable pub add_output : ℕ → List ℕ → Transaction → Transaction
add_output value script t = record t {
  outputs = t.outputs ++ (record { value = value; script_pub_key = script } ∷ []);
}

unfoldable pub check_amount : ℕ → Fault
check_amount v = if nat_eq v 0 || ltb max_money v then some (invalid_amount ∷ []) else none

-- What is left of the sum after its first inputs.
unfoldable pub sum_from : ℕ → List Utxo → Result ℕ
sum_from total [] = ok total
sum_from total (u ∷ us) =
    let rest = sum_from (total + u.value) us in
    elim (check_amount u.value) [
      | some e ↦ error e
      | none ↦ if ltb (max_money - u.value) total then error (input_overflow ∷ []) else rest
    ]

unfoldable pub sum_inputs : List Utxo → Result ℕ
sum_inputs inputs = sum_from 0 inputs

-- a > b for an int64 that is kept as its 64 bits, and a b at or above zero.
abbrev pub gt64 : ℕ → ℕ → Bool
gt64 a b = ltb a 9223372036854775808 && ltb b a

unfoldable pub check_fee : FeeLimits → ℕ → ℕ → Fault
check_fee l fee fee_rate =
    if nat_eq fee_rate 0
    then some (invalid_amount ∷ [])
    else if ltb l.max_fee_rate fee_rate
    then some (fee_too_high ∷ [])
    else if gt64 fee l.max_fee_shors
    then some (fee_too_high ∷ [])
    else none
