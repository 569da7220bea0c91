-- ===== src/Tx/Build/Sweep.antt =====
-- What BuildSweepTransaction of tx/builder.go pays, and with what fee.
use mathlib.Core.Path.{subst}
use soqucoin_sdk.Prelude.{
  ℕ, ◌+◌, ◌*◌, ◌≤◌, ◌≡◌, refl, sym, ◌||◌, List, [], ◌∷◌, nat_eq, arith, ◌∙◌, ap, is_empty,
  if◌then◌else◌,
}
use soqucoin_sdk.Errors.{insufficient_funds, Error}
use soqucoin_sdk.Result.{Result, ok, error, bind_ok, then_ok, ok_injective, unguarded}
use soqucoin_sdk.Types.{Utxo}
use soqucoin_sdk.CoinSelector.Coverage.{sum}
use soqucoin_sdk.Tx.{
  TxInput, Transaction, FeeLimits, max_money, new_transaction, add_output, check_amount, check_fee,
  sum_inputs,
}
use soqucoin_sdk.Tx.Wire.{vsize, estimate_fee, min_output_value}
use soqucoin_sdk.Tx.Build.{
  add_inputs, build_sweep, sweep_output, check_floor, sub64, is_negative, require_same_network,
}
use soqucoin_sdk.Tx.Build.Fees.{bare, check_fee-ok, check_floor-ok, estimate_weight-one}
use soqucoin_sdk.Tx.Build.Inputs.{in_value, Spends, Spends-value, sum_inputs-ok, add_inputs-ok}

-- A built sweep: the one output has all that the fee leaves, and the fee is the asked rate's.
pub record IsSweep (l : FeeLimits) (inputs : List Utxo) (destination : List ℕ) (fee_rate : ℕ)
    (t : Transaction) : Type 0 where
  pub fee : ℕ
  pub amount : ℕ
  pub spends : Spends inputs t.inputs
  pub one_output : t.outputs ≡ record { value = amount; script_pub_key = destination } ∷ []
  pub balanced : in_value t.inputs ≡ amount + fee
  pub at_rate : fee ≡ (vsize t + 1) * fee_rate
  pub capped : fee ≤ l.max_fee_shors
  pub above_floor : min_output_value destination ≤ amount

pub vsize-add_output :
    (is : List TxInput) (amount : ℕ) (destination : List ℕ)
    → vsize (add_output 0 destination (bare is)) ≡ vsize (add_output amount destination (bare is))
unfolding vsize
vsize-add_output is amount destination =
    omega (arith, estimate_weight-one is amount destination, estimate_weight-one is 0 destination)

left_over :
    (total fee : ℕ) (e : Error) (r : Result Transaction) {t : Transaction}
    → total ≤ max_money
    → fee ≤ 219902325555200000
    → (if is_negative (sub64 total fee) || nat_eq (sub64 total fee) 0 then error e else r) ≡ ok t
    → (total ≡ sub64 total fee + fee) × (r ≡ ok t)
left_over total fee e r ht hf h = ground (arith, h)

swept-IsSweep :
    (l : FeeLimits) (inputs : List Utxo) (is : List TxInput) (destination : List ℕ)
    (fee_rate amount fee : ℕ)
    → Spends inputs is
    → fee ≡ (vsize (add_output 0 destination (bare is)) + 1) * fee_rate
    → fee ≤ l.max_fee_shors
    → sum inputs ≡ amount + fee
    → min_output_value destination ≤ amount
    → IsSweep l inputs destination fee_rate (add_output amount destination (bare is))
unfolding add_output new_transaction
swept-IsSweep l inputs is destination fee_rate amount fee spends fee_is capped covers floor =
    record {
      fee = fee;
      amount = amount;
      spends = spends;
      one_output = refl;
      balanced = omega (arith, Spends-value inputs is spends);
      at_rate = fee_is ∙ ap (λ v. (v + 1) * fee_rate) (vsize-add_output is amount destination);
      capped = capped;
      above_floor = floor;
    }

sweep_output-IsSweep :
    (l : FeeLimits) (inputs : List Utxo) (is : List TxInput) (destination : List ℕ) (fee_rate : ℕ)
    (t : Transaction)
    → l.max_fee_rate ≤ 100_000
    → vsize (add_output 0 destination (bare is)) ≤ 2199023255551
    → Spends inputs is
    → sum inputs ≤ max_money
    → sweep_output l (sum inputs) destination fee_rate (bare is) ≡ ok t
    → IsSweep l inputs destination fee_rate t
unfolding sweep_output
sweep_output-IsSweep l inputs is destination fee_rate t lim size spends tot e =
    let measured = add_output 0 destination (bare is) in
    let fee = estimate_fee measured fee_rate in
    let amount = sub64 (sum inputs) fee in
    let (checked, e1) = then_ok (check_fee l fee fee_rate) _ e in
    let (exact, capped, small) = check_fee-ok l measured fee_rate lim size checked in
    let (covers, e2) = left_over (sum inputs) fee (insufficient_funds ∷ []) _ tot small e1 in
    let (floor_ok, e3) = then_ok (check_floor amount destination) _ e2 in
    let (_, e4) = then_ok (check_amount amount) _ e3 in
    subst (IsSweep l inputs destination fee_rate) (ok_injective e4) (
      swept-IsSweep l inputs is destination fee_rate amount fee spends exact capped covers
        (check_floor-ok amount destination floor_ok))

vsize-sweep_output :
    (l : FeeLimits) (is : List TxInput) (total : ℕ) (destination : List ℕ) (fee_rate : ℕ)
    (t : Transaction)
    → sweep_output l total destination fee_rate (bare is) ≡ ok t
    → vsize (add_output 0 destination (bare is)) ≡ vsize t
unfolding sweep_output
vsize-sweep_output l is total destination fee_rate t e =
    let fee = estimate_fee (add_output 0 destination (bare is)) fee_rate in
    let amount = sub64 total fee in
    let (_, e1) = then_ok (check_fee l fee fee_rate) _ e in
    let (_, e2) =
      unguarded (is_negative amount || nat_eq amount 0) (insufficient_funds ∷ []) _ e1 in
    let (_, e3) = then_ok (check_floor amount destination) _ e2 in
    let (_, e4) = then_ok (check_amount amount) _ e3 in
    vsize-add_output is amount destination ∙ ap vsize (ok_injective e4)

-- A sweep that is built spends exactly the given outputs, in their order and with their values, and has
-- one output, to the destination's script, that holds all of their value but the fee and is no less than
-- the node's relay floor; the fee is at the asked rate for the size of this very transaction and one
-- vbyte more, and within the fee limit, while the limit of the fee rate is at most 100,000 and the
-- transaction is smaller than 2^41 vbytes.
pub build_sweep-IsSweep :
    (l : FeeLimits) (inputs : List Utxo) (destination : List ℕ) (fee_rate : ℕ) (t : Transaction)
    → l.max_fee_rate ≤ 100_000
    → vsize t ≤ 2199023255551
    → build_sweep l inputs destination fee_rate ≡ ok t
    → IsSweep l inputs destination fee_rate t
unfolding build_sweep new_transaction
build_sweep-IsSweep l inputs destination fee_rate t lim size e =
    let (_, e1) = unguarded (is_empty inputs) (insufficient_funds ∷ []) _ e in
    let (_, e2) = then_ok (require_same_network inputs) _ e1 in
    let (total, summed, e3) = bind_ok (sum_inputs inputs) _ e2 in
    let (added, got, swept) = bind_ok (add_inputs inputs new_transaction) _ e3 in
    let (is, added_is, spends) = add_inputs-ok inputs new_transaction got in
    let (total_is, total_fits) = sum_inputs-ok inputs summed in
    let built =
      ap (λ n. sweep_output l n destination fee_rate (bare is)) (sym total_is)
      ∙ ap (sweep_output l total destination fee_rate) (sym added_is)
      ∙ swept in
    sweep_output-IsSweep l inputs is destination fee_rate t lim
      (omega (arith, vsize-sweep_output l is (sum inputs) destination fee_rate t built)) spends
      (omega arith) built
