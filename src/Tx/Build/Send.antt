-- ===== src/Tx/Build/Send.antt =====
-- What BuildSendTransaction of tx/builder.go pays, to whom, and with what fee.
use mathlib.Core.Path.{subst}
use native.Mathlib.Nat.{mul-le-mul_right}
use soqucoin_sdk.Prelude.{
  ℕ, ◌+◌, ◌*◌, ◌≤◌, ◌<◌, ◌≡◌, refl, sym, List, [], ◌∷◌, length, leb, arith, ◌∙◌, ap, inl, inr, ◌⊎◌,
  Bool-cases, if◌then◌else◌,
}
use soqucoin_sdk.Errors.{insufficient_funds, Error}
use soqucoin_sdk.Result.{ok, error, bind_ok, then_ok}
use soqucoin_sdk.Types.{Utxo}
use soqucoin_sdk.CoinSelector.Coverage.{sum}
use soqucoin_sdk.Tx.{
  TxInput, Transaction, FeeLimits, max_money, new_transaction, add_output, check_amount, check_fee,
  sum_inputs,
}
use soqucoin_sdk.Tx.Wire.{vsize, estimate_fee, min_output_value}
use soqucoin_sdk.Tx.Build.{
  add_inputs, build_send, send_outputs, check_floor, with_change, sub64, is_negative,
  require_same_network,
}
use soqucoin_sdk.Tx.Build.Fees.{
  bare, check_fee-ok, vsize-two, vsize-one, add_one_le, check_amount-ok, check_floor-ok,
}
use soqucoin_sdk.Tx.Build.Inputs.{
  in_value, out_value, Spends, Spends-value, sum_inputs-ok, add_inputs-ok,
}

change-ok :
    (total amount fee : ℕ) (t : Transaction) {t' : Transaction}
    → total ≤ max_money
    → amount ≤ max_money
    → fee ≤ 219902325555200000
    → (if is_negative (sub64 (sub64 total amount) fee)
        then error (insufficient_funds ∷ [])
        else ok t)
      ≡ ok t'
    → (total ≡ amount + sub64 (sub64 total amount) fee + fee) × (t' ≡ t)
change-ok total amount fee t ht ha hf e = ground (arith, e)

-- A built payment: what it spends, whom it pays, and the fee, which is what its outputs leave.
pub record IsPayment (l : FeeLimits) (inputs : List Utxo) (recipient : List ℕ) (amount : ℕ)
    (change_script : List ℕ) (fee_rate : ℕ) (t : Transaction) : Type 0 where
  pub fee : ℕ
  pub change : ℕ
  pub spends : Spends inputs t.inputs
  pub balanced : in_value t.inputs ≡ out_value t.outputs + fee
  pub pays_rate : (vsize t + 1) * fee_rate ≤ fee
  pub capped : fee < l.max_fee_shors + min_output_value change_script
  pub above_floor : min_output_value recipient ≤ amount
  pub pays :
      (t.outputs ≡ record { value = amount; script_pub_key = recipient } ∷ [])
      ⊎ ((min_output_value change_script ≤ change)
          × (t.outputs
              ≡ record { value = amount; script_pub_key = recipient }
                ∷ record { value = change; script_pub_key = change_script }
                ∷ []))

-- The fee that is measured, as a number that does not wrap, and what it leaves.
record IsMeasured (l : FeeLimits) (is : List TxInput) (total : ℕ) (recipient : List ℕ) (amount : ℕ)
    (change_script : List ℕ) (fee_rate : ℕ) (t : Transaction) : Type 0 where
  fee : ℕ
  change : ℕ
  fee_is :
      fee
      ≡ (vsize (add_output 0 change_script (add_output amount recipient (bare is))) + 1) * fee_rate
  fee_capped : fee ≤ l.max_fee_shors
  covers : total ≡ amount + change + fee
  is_result : t ≡ with_change change change_script (add_output amount recipient (bare is))

send_outputs-IsMeasured :
    (l : FeeLimits) (is : List TxInput) (total : ℕ) (recipient : List ℕ) (amount : ℕ)
    (change_script : List ℕ) (fee_rate : ℕ) {t : Transaction}
    → l.max_fee_rate ≤ 100_000
    → vsize (add_output 0 change_script (add_output amount recipient (bare is))) ≤ 2199023255551
    → total ≤ max_money
    → amount ≤ max_money
    → send_outputs l total recipient amount change_script fee_rate (bare is) ≡ ok t
    → IsMeasured l is total recipient amount change_script fee_rate t
unfolding send_outputs
send_outputs-IsMeasured l is total recipient amount change_script fee_rate lim size tot amt e =
    let measured = add_output 0 change_script (add_output amount recipient (bare is)) in
    let fee = estimate_fee measured fee_rate in
    let (checked, e1) = then_ok (check_fee l fee fee_rate) _ e in
    let (exact, capped, small) = check_fee-ok l measured fee_rate lim size checked in
    let change = sub64 (sub64 total amount) fee in
    let (covers, is_result) =
      change-ok total amount fee
        (with_change change change_script (add_output amount recipient (bare is))) tot amt small
        e1 in
    record {
      fee = fee;
      change = change;
      fee_is = exact;
      fee_capped = capped;
      covers = covers;
      is_result = is_result;
    }

module _ (l : FeeLimits) (inputs : List Utxo) (is : List TxInput) (recipient : List ℕ) (amount : ℕ)
    (change_script : List ℕ) (fee_rate fee change : ℕ) (spends : Spends inputs is)
    (floor : min_output_value recipient ≤ amount)
    (fee_is : fee
      ≡ (vsize (add_output 0 change_script (add_output amount recipient (bare is))) + 1) * fee_rate)
    (capped : fee ≤ l.max_fee_shors) (covers : sum inputs ≡ amount + change + fee) where
  kept-IsPayment :
      min_output_value change_script ≤ change
      → IsPayment l inputs recipient amount change_script fee_rate
          (add_output change change_script (add_output amount recipient (bare is)))
  unfolding add_output new_transaction min_output_value
  kept-IsPayment above = record {
    fee = fee;
    change = change;
    spends = spends;
    balanced = omega (arith, Spends-value inputs is spends);
    pays_rate =
        omega (
          arith,
          ap (λ v. (v + 1) * fee_rate) (vsize-two is amount recipient change change_script),
        );
    capped = omega arith;
    above_floor = floor;
    pays = inr (above, refl);
  }

  folded-IsPayment :
      change < min_output_value change_script
      → IsPayment l inputs recipient amount change_script fee_rate
          (add_output amount recipient (bare is))
  unfolding add_output new_transaction min_output_value
  folded-IsPayment below = record {
    fee = fee + change;
    change = change;
    spends = spends;
    balanced = omega (arith, Spends-value inputs is spends);
    pays_rate = omega (
      arith,
      mul-le-mul_right fee_rate (add_one_le (vsize-one is amount recipient change change_script).0),
    );
    capped = omega arith;
    above_floor = floor;
    pays = inl refl;
  }

  built-IsPayment :
      IsPayment l inputs recipient amount change_script fee_rate
        (with_change change change_script (add_output amount recipient (bare is)))
  unfolding with_change
  built-IsPayment = elim (Bool-cases (leb (min_output_value change_script) change)) [
    | inl b ↦ rw b (kept-IsPayment (ground (arith, b)))
    | inr b ↦ rw b (folded-IsPayment (ground (arith, b)))
  ]

not_negative :
    (c : ℕ) (e : Error) (t : Transaction) {t' : Transaction}
    → (if is_negative c then error e else ok t) ≡ ok t'
    → t' ≡ t
not_negative c e t h = ground (arith, h)

vsize-with_change :
    (is : List TxInput) (amount : ℕ) (recipient : List ℕ) (change : ℕ) (script : List ℕ)
    → vsize (add_output 0 script (add_output amount recipient (bare is)))
      ≤ vsize (with_change change script (add_output amount recipient (bare is)))
        + (17 + length script)
unfolding with_change
vsize-with_change is amount recipient change script =
    elim (Bool-cases (leb (min_output_value script) change)) [
      | inl b ↦ rw b (omega (arith, vsize-two is amount recipient change script))
      | inr b ↦ rw b (vsize-one is amount recipient change script).1
    ]

vsize-send_outputs :
    (l : FeeLimits) (is : List TxInput) (total : ℕ) (recipient : List ℕ) (amount : ℕ)
    (change_script : List ℕ) (fee_rate : ℕ) (t : Transaction)
    → send_outputs l total recipient amount change_script fee_rate (bare is) ≡ ok t
    → vsize t + length change_script ≤ 1099511627776
    → vsize (add_output 0 change_script (add_output amount recipient (bare is))) ≤ 2199023255551
unfolding send_outputs
vsize-send_outputs l is total recipient amount change_script fee_rate t e h =
    let paid = add_output amount recipient (bare is) in
    let fee = estimate_fee (add_output 0 change_script paid) fee_rate in
    let change = sub64 (sub64 total amount) fee in
    let (_, e1) = then_ok (check_fee l fee fee_rate) _ e in
    let t_is =
      not_negative change (insufficient_funds ∷ []) (with_change change change_script paid) e1 in
    omega (arith, vsize-with_change is amount recipient change change_script, ap vsize t_is)

send_outputs-IsPayment :
    (l : FeeLimits) (inputs : List Utxo) (is : List TxInput) (recipient : List ℕ) (amount : ℕ)
    (change_script : List ℕ) (fee_rate : ℕ) (t : Transaction)
    → l.max_fee_rate ≤ 100_000
    → vsize t + length change_script ≤ 1099511627776
    → Spends inputs is
    → sum inputs ≤ max_money
    → amount ≤ max_money
    → min_output_value recipient ≤ amount
    → send_outputs l (sum inputs) recipient amount change_script fee_rate (bare is) ≡ ok t
    → IsPayment l inputs recipient amount change_script fee_rate t
send_outputs-IsPayment l inputs is recipient amount change_script fee_rate t lim size spends tot amt
      floor e =
    let measured =
      vsize-send_outputs l is (sum inputs) recipient amount change_script fee_rate t e size in
    let m =
      send_outputs-IsMeasured l is (sum inputs) recipient amount change_script fee_rate lim measured
        tot amt e in
    subst (IsPayment l inputs recipient amount change_script fee_rate) (sym m.is_result) (
      built-IsPayment l inputs is recipient amount change_script fee_rate m.fee m.change spends
        floor m.fee_is m.fee_capped m.covers)

-- A payment that is built spends exactly the given outputs, in their order and with their values; its
-- outputs are the amount to the recipient's script, no less than the node's relay floor, and at most one
-- more to the change script, no less than its floor. What they leave of the inputs' value is the fee: at
-- least the asked rate for the size of this very transaction and one vbyte more, and less than the fee
-- limit plus the floor of the change. It holds while the limit of the fee rate is at most 100,000, and the
-- transaction's size with the length of the change script at most 2^40.
pub build_send-IsPayment :
    (l : FeeLimits) (inputs : List Utxo) (recipient : List ℕ) (amount : ℕ) (change_script : List ℕ)
    (fee_rate : ℕ) (t : Transaction)
    → l.max_fee_rate ≤ 100_000
    → vsize t + length change_script ≤ 1099511627776
    → build_send l inputs recipient amount change_script fee_rate ≡ ok t
    → IsPayment l inputs recipient amount change_script fee_rate t
unfolding build_send new_transaction
build_send-IsPayment l inputs recipient amount change_script fee_rate t lim size e =
    let (_, e1) = then_ok (require_same_network inputs) _ e in
    let (amount_ok, e2) = then_ok (check_amount amount) _ e1 in
    let (floor_ok, e3) = then_ok (check_floor amount recipient) _ e2 in
    let (total, summed, e4) = bind_ok (sum_inputs inputs) _ e3 in
    let (added, got, sent) = bind_ok (add_inputs inputs new_transaction) _ e4 in
    let (is, added_is, spends) = add_inputs-ok inputs new_transaction got in
    let (total_is, total_fits) = sum_inputs-ok inputs summed in
    send_outputs-IsPayment l inputs is recipient amount change_script fee_rate t lim size spends
      (omega arith) (check_amount-ok amount amount_ok) (check_floor-ok amount recipient floor_ok)
      (ap (λ n. send_outputs l n recipient amount change_script fee_rate (bare is)) (sym total_is)
        ∙ ap (send_outputs l total recipient amount change_script fee_rate) (sym added_is)
        ∙ sent)
