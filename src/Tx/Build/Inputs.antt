-- ===== src/Tx/Build/Inputs.antt =====
-- The inputs that the builders of tx/builder.go give a transaction.
use soqucoin_sdk.Prelude.{
  ℕ, ◌+◌, ◌≤◌, ◌≡◌, refl, sym, some, List, [], ◌∷◌, ◌++◌, length, nat_eq, arith, ◌∙◌, ap, inl, inr,
  Option-cases, Bool-cases,
}
use soqucoin_sdk.Result.{ok, ok_injective, bind_ok}
use soqucoin_sdk.Types.{Utxo}
use soqucoin_sdk.Text.{codes, hex_decode, reverse}
use soqucoin_sdk.Address.{script_for}
use soqucoin_sdk.CoinSelector.Coverage.{sum}
use mathlib.Core.List.{append_assoc, append-nil}
use soqucoin_sdk.Tx.{
  TxInput, TxOutput, Transaction, max_money, input_of, add_input, check_amount, sum_from,
  sum_inputs,
}
use soqucoin_sdk.Tx.Build.{add_inputs}

abbrev pub in_value : List TxInput → ℕ
in_value [] = 0
in_value (i ∷ is) = i.value + in_value is

abbrev pub out_value : List TxOutput → ℕ
out_value [] = 0
out_value (o ∷ os) = o.value + out_value os

-- The input spends the output: it names it, and it commits to its value and to its address' script.
pub record IsSpend (u : Utxo) (i : TxInput) : Type 0 where
  pub id : List ℕ
  pub read_id : hex_decode (codes u.tx_id) ≡ some id
  pub same_id : i.tx_id ≡ reverse id
  pub id_length : length id ≡ 32
  pub same_vout : i.vout ≡ u.vout
  pub same_value : i.value ≡ u.value
  pub same_address : i.address ≡ u.address
  pub same_script : script_for (codes u.address) ≡ ok i.script_pub_key
  pub not_signed : i.witness_data ≡ []

abbrev pub Spends : List Utxo → List TxInput → Type 0
Spends [] [] = Unit
Spends [] (i ∷ is) = ⊥
Spends (u ∷ us) [] = ⊥
Spends (u ∷ us) (i ∷ is) = IsSpend u i × Spends us is

pub Spends-value : (us : List Utxo) (is : List TxInput) → Spends us is → in_value is ≡ sum us
Spends-value [] [] h = refl
Spends-value [] (i ∷ is) h = absurd h
Spends-value (u ∷ us) [] h = absurd h
Spends-value (u ∷ us) (i ∷ is) h = omega (arith, h.0.same_value, Spends-value us is h.1)

pub sum_from-ok :
    (total : ℕ) (us : List Utxo) {n : ℕ}
    → total ≤ max_money
    → sum_from total us ≡ ok n
    → (n ≡ total + sum us) × (n ≤ max_money)
unfolding sum_from check_amount
sum_from-ok total [] h e = ground (arith, e)
sum_from-ok total (u ∷ us) {n} h e = ground (arith, sum_from-ok (total + u.value) us {n = n})

add_input-ok :
    (u : Utxo) (script : List ℕ) (t : Transaction) {t' : Transaction}
    → script_for (codes u.address) ≡ ok script
    → add_input u script t ≡ ok t'
    → (i : TxInput) × (t' ≡ record t { inputs = t.inputs ++ (i ∷ []) }) × IsSpend u i
unfolding add_input input_of
add_input-ok u script t h e = elim (Option-cases (hex_decode (codes u.tx_id))) [
  | inl n ↦ absurd (ground (arith, e, n))
  | inr (id, n) ↦ elim (Bool-cases (nat_eq (length id) 32)) [
    | inr b ↦ absurd (ground (arith, e, n, b))
    | inl b ↦ (
      input_of u script id,
      ground (arith, e, n, b),
      record {
        id = id;
        read_id = n;
        same_id = refl;
        id_length = ground (arith, b);
        same_vout = refl;
        same_value = refl;
        same_address = refl;
        same_script = h;
        not_signed = refl;
      },
    )
  ]
]

pub add_inputs-ok :
    (us : List Utxo) (t : Transaction) {t' : Transaction}
    → add_inputs us t ≡ ok t'
    → (is : List TxInput) × (t' ≡ record t { inputs = t.inputs ++ is }) × Spends us is
unfolding add_inputs
add_inputs-ok [] t e = (
  [],
  sym (ok_injective e)
      ∙ ap (λ (is : List TxInput). record t { inputs = is }) (sym (append-nil t.inputs)),
  tt,
)
add_inputs-ok (u ∷ us) t e =
    let (script, got, e1) = bind_ok (script_for (codes u.address)) _ e in
    let (next, added, e2) = bind_ok (add_input u script t) _ e1 in
    let (i, next_is, spend) = add_input-ok u script t got added in
    let (is, end, spends) = add_inputs-ok us next e2 in
    (
      i ∷ is,
      end
          ∙ ap (λ (x : Transaction). record x { inputs = x.inputs ++ is }) next_is
          ∙ ap (λ (js : List TxInput). record t { inputs = js })
              (append_assoc t.inputs (i ∷ []) is),
      (spend, spends),
    )

pub sum_inputs-ok : (us : List Utxo) {n : ℕ} → sum_inputs us ≡ ok n → (n ≡ sum us) × (n ≤ max_money)
unfolding sum_inputs
sum_inputs-ok us {n} e = omega (arith, sum_from-ok 0 us {n = n} (omega arith) e)
