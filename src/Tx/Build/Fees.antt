-- ===== src/Tx/Build/Fees.antt =====
-- The fee of tx/builder.go: that it does not wrap once it passed the limits, and how the size of a
-- transaction depends on its outputs.
use native.Mathlib.Nat.{mul-le-mul}
use soqucoin_sdk.Prelude.{ℕ, ◌+◌, ◌*◌, ◌≤◌, ◌<◌, ◌≡◌, none, List, length, arith}
use soqucoin_sdk.Tx.{
  TxInput, Transaction, FeeLimits, max_money, new_transaction, add_output, check_amount, check_fee,
}
use soqucoin_sdk.Tx.Wire.{
  vsize, estimate_fee, estimate_weight, min_output_value, write_inputs, var_int_size,
}
use soqucoin_sdk.Tx.Wire.Weight.{estimate_weight-frame, length-write_output, frame}
use soqucoin_sdk.Tx.Build.{check_floor}

pub fee_bound : (v r : ℕ) → v ≤ 2199023255552 → r ≤ 100_000 → v * r ≤ 219902325555200000
fee_bound v r h k = mul-le-mul h k

abbrev pub bare : List TxInput → Transaction
bare is = record new_transaction { inputs = is }

abbrev pub out_size : List ℕ → ℕ
out_size script = 8 + (var_int_size (length script) + length script)

pub estimate_weight-one :
    (is : List TxInput) (amount : ℕ) (recipient : List ℕ)
    → estimate_weight (add_output amount recipient (bare is))
      ≡ frame (bare is) + 4 * (1 + out_size recipient)
unfolding add_output new_transaction write_inputs var_int_size
estimate_weight-one is amount recipient = omega (
  arith,
  estimate_weight-frame (add_output amount recipient (bare is)),
  length-write_output (record { value = amount; script_pub_key = recipient }),
)

pub estimate_weight-two :
    (is : List TxInput) (amount : ℕ) (recipient : List ℕ) (change : ℕ) (script : List ℕ)
    → estimate_weight (add_output change script (add_output amount recipient (bare is)))
      ≡ frame (bare is) + 4 * (1 + out_size recipient + out_size script)
unfolding add_output new_transaction write_inputs var_int_size
estimate_weight-two is amount recipient change script = omega (
  arith,
  estimate_weight-frame (add_output change script (add_output amount recipient (bare is))),
  length-write_output (record { value = amount; script_pub_key = recipient }),
  length-write_output (record { value = change; script_pub_key = script }),
)

check_fee-rate :
    (l : FeeLimits) (fee fee_rate : ℕ) → check_fee l fee fee_rate ≡ none → fee_rate ≤ l.max_fee_rate
unfolding check_fee
check_fee-rate l fee fee_rate e = ground (arith, e)

check_fee-capped :
    (l : FeeLimits) (fee fee_rate : ℕ)
    → fee < 9223372036854775808
    → check_fee l fee fee_rate ≡ none
    → fee ≤ l.max_fee_shors
unfolding check_fee
check_fee-capped l fee fee_rate h e = ground (arith, e)

-- A fee that passed the limits did not wrap.
pub check_fee-ok :
    (l : FeeLimits) (t : Transaction) (fee_rate : ℕ)
    → l.max_fee_rate ≤ 100_000
    → vsize t ≤ 2199023255551
    → check_fee l (estimate_fee t fee_rate) fee_rate ≡ none
    → (estimate_fee t fee_rate ≡ (vsize t + 1) * fee_rate)
      × (estimate_fee t fee_rate ≤ l.max_fee_shors)
      × (estimate_fee t fee_rate ≤ 219902325555200000)
unfolding estimate_fee
check_fee-ok l t fee_rate lim size e =
    let rate = check_fee-rate l (estimate_fee t fee_rate) fee_rate e in
    let small = fee_bound (vsize t + 1) fee_rate (omega arith) (omega arith) in
    (
      omega arith,
      check_fee-capped l (estimate_fee t fee_rate) fee_rate (omega arith) e,
      omega arith,
    )

pub add_one_le : {a b : ℕ} → a ≤ b → a + 1 ≤ b + 1
add_one_le h = omega arith

module _ (is : List TxInput) (amount : ℕ) (recipient : List ℕ) (change : ℕ) (script : List ℕ) where
  -- The value of an output does not change the size.
  pub vsize-two :
      vsize (add_output change script (add_output amount recipient (bare is)))
      ≡ vsize (add_output 0 script (add_output amount recipient (bare is)))
  unfolding vsize
  vsize-two = omega (
    arith,
    estimate_weight-two is amount recipient change script,
    estimate_weight-two is amount recipient 0 script,
  )

  -- Folding a change output into the fee only makes the transaction smaller.
  pub vsize-one :
      let measured = vsize (add_output 0 script (add_output amount recipient (bare is))) in
      let folded = vsize (add_output amount recipient (bare is)) in
      (folded ≤ measured) × (measured ≤ folded + (17 + length script))
  unfolding vsize var_int_size
  vsize-one = ground (
    arith,
    estimate_weight-one is amount recipient,
    estimate_weight-two is amount recipient 0 script,
  )

pub check_amount-ok : (v : ℕ) → check_amount v ≡ none → v ≤ max_money
unfolding check_amount
check_amount-ok v e = ground (arith, e)

pub check_floor-ok :
    (v : ℕ) (script : List ℕ) → check_floor v script ≡ none → min_output_value script ≤ v
unfolding check_floor
check_floor-ok v script e = ground (arith, e)
