-- ===== src/Tx/Build.antt =====
-- tx/builder.go: the scripts, and the functions that build a transaction without signing it. An amount is
-- an int64 that is zero or more; a difference or a sum that the code leaves unchecked is kept as its 64 bits.
pub mod Inputs
pub mod Fees
pub mod Send
pub mod Sweep
use soqucoin_sdk.Prelude.{
  ℕ, ◌+◌, ◌-◌, ◌%◌, Bool, true, false, ◌&&◌, ◌||◌, not, Option, none, some, List, [], ◌∷◌, ◌++◌,
  if◌then◌else◌, nat_eq, ltb, leb, length, is_empty,
}
use soqucoin_sdk.Errors.{below_dust, insufficient_funds, panicked, Error, Fault}
use soqucoin_sdk.Result.{Result, ok, error, ◌>>=◌, ◌>>◌}
use soqucoin_sdk.Types.{Utxo}
use soqucoin_sdk.Text.{codes, list_eq}
use soqucoin_sdk.Address.{hrp_of, script_for}
use soqucoin_sdk.Tx.{
  FeeLimits, TxOutput, Transaction, new_transaction, add_input, add_output, check_amount,
  sum_inputs, check_fee,
}
use soqucoin_sdk.Tx.Wire.{estimate_fee, min_output_value}

-- OP_n, then a push of 32 bytes: the shape of the three scripts.
unfoldable pub witness_script : ℕ → List ℕ → Result (List ℕ)
witness_script op hash =
    if nat_eq (length hash) 32 then ok (op ∷ 0x20 ∷ hash) else error (panicked ∷ [])

unfoldable pub script_p2wpkh : List ℕ → Result (List ℕ)
script_p2wpkh = witness_script 0x51

unfoldable pub script_v7_usdsoq_holding : List ℕ → Result (List ℕ)
script_v7_usdsoq_holding = witness_script 0x57

unfoldable pub script_witness_v5 : List ℕ → Result (List ℕ)
script_witness_v5 = witness_script 0x55

unfoldable pub is_holding : List ℕ → Bool
is_holding (op ∷ push ∷ hash) = nat_eq (length hash) 32 && nat_eq op 0x57 && nat_eq push 0x20
is_holding _ = false

unfoldable pub add_output_usdsoq : ℕ → List ℕ → Transaction → Result Transaction
add_output_usdsoq value script t =
    if is_holding script then ok (add_output value script t) else error (panicked ∷ [])

unfoldable pub add_output_witness_v5 : List ℕ → Transaction → Result Transaction
add_output_witness_v5 hash t = script_witness_v5 hash >>= λ script. ok (add_output 0 script t)

-- `first` is the prefix of the first input, once one is read.
unfoldable pub same_network_as : Option (List ℕ) → List Utxo → Fault
same_network_as first [] = none
same_network_as first (u ∷ us) = elim (hrp_of (codes u.address)) [
  | error e ↦ some e
  | ok hrp ↦ elim first [
    | none ↦ same_network_as (some hrp) us
    | some h ↦ if list_eq hrp h then same_network_as (some h) us else some []
  ]
]

unfoldable pub require_same_network : List Utxo → Fault
require_same_network = same_network_as none

-- inputScriptPubKey and AddInput, for each output to spend.
unfoldable pub add_inputs : List Utxo → Transaction → Result Transaction
add_inputs [] t = ok t
add_inputs (u ∷ us) t =
    script_for (codes u.address) >>= λ script. add_input u script t >>= λ next. add_inputs us next

abbrev pub sub64 : ℕ → ℕ → ℕ
sub64 a b = (a + (18446744073709551616 - b)) % 18446744073709551616

abbrev pub is_negative : ℕ → Bool
is_negative v = leb 9223372036854775808 v

-- `totalInput += u.Value` for each input.
unfoldable pub total_from : ℕ → List Utxo → ℕ
total_from total [] = total
total_from total (u ∷ us) = total_from ((total + u.value) % 18446744073709551616) us

unfoldable pub with_change : ℕ → List ℕ → Transaction → Transaction
with_change change script t =
    if leb (min_output_value script) change then add_output change script t else t

-- BuildSendTransaction, once the inputs are in place.
unfoldable pub send_outputs :
    FeeLimits → ℕ → List ℕ → ℕ → List ℕ → ℕ → Transaction → Result Transaction
send_outputs l total recipient amount change_script fee_rate t =
    let paid = add_output amount recipient t in
    let fee = estimate_fee (add_output 0 change_script paid) fee_rate in
    let change = sub64 (sub64 total amount) fee in
    check_fee l fee fee_rate
    >> (if is_negative change
        then error (insufficient_funds ∷ [])
        else ok (with_change change change_script paid))

unfoldable pub check_floor : ℕ → List ℕ → Fault
check_floor amount script =
    if ltb amount (min_output_value script) then some (below_dust ∷ []) else none

unfoldable pub build_send : FeeLimits → List Utxo → List ℕ → ℕ → List ℕ → ℕ → Result Transaction
build_send l inputs recipient amount change_script fee_rate =
    require_same_network inputs
    >> check_amount amount
    >> check_floor amount recipient
    >> (sum_inputs inputs >>= λ total. add_inputs inputs new_transaction >>= λ t.
        send_outputs l total recipient amount change_script fee_rate t)

-- BuildSweepTransaction, once the inputs are in place.
unfoldable pub sweep_output : FeeLimits → ℕ → List ℕ → ℕ → Transaction → Result Transaction
sweep_output l total destination fee_rate t =
    let fee = estimate_fee (add_output 0 destination t) fee_rate in
    let amount = sub64 total fee in
    check_fee l fee fee_rate
    >> (if is_negative amount || nat_eq amount 0
        then error (insufficient_funds ∷ [])
        else check_floor amount destination
          >> check_amount amount
          >> ok (add_output amount destination t))

unfoldable pub build_sweep : FeeLimits → List Utxo → List ℕ → ℕ → Result Transaction
build_sweep l inputs destination fee_rate =
    if is_empty inputs
    then error (insufficient_funds ∷ [])
    else require_same_network inputs
      >> (sum_inputs inputs >>= λ total.
          add_inputs inputs new_transaction >>= λ t. sweep_output l total destination fee_rate t)

-- The fee of the form with these three outputs.
unfoldable pub fee_of_three : Transaction → TxOutput → TxOutput → TxOutput → ℕ → ℕ
fee_of_three t a b c fee_rate = estimate_fee (record t { outputs = a ∷ b ∷ c ∷ [] }) fee_rate

abbrev output : ℕ → List ℕ → TxOutput
output value script = record { value = value; script_pub_key = script }

unfoldable pub mint_outputs :
    FeeLimits → ℕ → List ℕ → ℕ → List ℕ → List ℕ → ℕ → Transaction → Result Transaction
mint_outputs l total recipient amount change_script hash fee_rate t =
    script_witness_v5 hash >>= λ marker.
    let fee =
      fee_of_three t (output amount recipient) (output 0 marker) (output 0 change_script)
        fee_rate in
    let change = sub64 total fee in
    check_fee l fee fee_rate
    >> (if is_negative change
        then error []
        else add_output_usdsoq amount recipient t >>= λ paid.
            add_output_witness_v5 hash paid >>= λ marked.
            ok (with_change change change_script marked))

unfoldable pub build_mint_usdsoq :
    FeeLimits → List Utxo → List ℕ → ℕ → List ℕ → List ℕ → ℕ → Result Transaction
build_mint_usdsoq l inputs recipient amount change_script hash fee_rate =
    require_same_network inputs
    >> (if not (nat_eq (length hash) 32)
        then error []
        else add_inputs inputs new_transaction >>= λ t.
            mint_outputs l (total_from 0 inputs) recipient amount change_script hash fee_rate t)

unfoldable pub with_usdsoq_change : ℕ → List ℕ → Transaction → Result Transaction
with_usdsoq_change change script t =
    if leb (min_output_value script) change then add_output_usdsoq change script t else ok t

unfoldable pub send_usdsoq_outputs :
    FeeLimits → ℕ → ℕ → List ℕ → ℕ → List ℕ → List ℕ → ℕ → Transaction → Result Transaction
send_usdsoq_outputs l total_usdsoq total_soq recipient amount usdsoq_script soq_script fee_rate t =
    let fee =
      fee_of_three t (output amount recipient) (output 0 usdsoq_script) (output 0 soq_script)
        fee_rate in
    let soq_change = sub64 total_soq fee in
    check_fee l fee fee_rate
    >> (if is_negative total_usdsoq || ltb total_usdsoq amount || is_negative soq_change
        then error []
        else add_output_usdsoq amount recipient t >>= λ paid.
            with_usdsoq_change (total_usdsoq - amount) usdsoq_script paid >>= λ changed.
            ok (with_change soq_change soq_script changed))

unfoldable pub build_send_usdsoq :
    FeeLimits → List Utxo → List Utxo → List ℕ → ℕ → List ℕ → List ℕ → ℕ → Result Transaction
build_send_usdsoq l usdsoq_inputs soq_inputs recipient amount usdsoq_script soq_script fee_rate =
    require_same_network (usdsoq_inputs ++ soq_inputs)
    >> (add_inputs usdsoq_inputs new_transaction >>= λ t. add_inputs soq_inputs t >>= λ t'.
        send_usdsoq_outputs l (total_from 0 usdsoq_inputs) (total_from 0 soq_inputs) recipient
          amount usdsoq_script soq_script fee_rate t')
