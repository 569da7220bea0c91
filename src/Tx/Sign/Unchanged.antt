-- ===== src/Tx/Sign/Unchanged.antt =====
-- Signing by tx/builder.go leaves the transaction's id, its weight and the digests of its inputs.
use soqucoin_sdk.Prelude.{
  ℕ, ◌+◌, ◌*◌, ◌≡◌, refl, sym, ◌∙◌, ap, true, false, List, [], ◌∷◌, ◌++◌, length, length-append,
  is_empty, arith, All,
}
use soqucoin_sdk.Text.{hex_encode, reverse}
use soqucoin_sdk.Result.{ok}
use soqucoin_sdk.Tx.{TxInput, Transaction}
use soqucoin_sdk.Tx.Wire.{
  serialize, serialize_no_witness, write_each, write_input, write_inputs, write_outputs,
  write_outpoint, var_int_size, items_size, witness_size, witness_sizes, estimate_weight,
  sig_hash_preimage, compute_sig_hash, sha256d, little_endian, tx_id,
}
use soqucoin_sdk.Tx.Wire.Weight.{estimate_weight-signed, IsSigned}
use soqucoin_sdk.Tx.Sign.{Signer, sign_all}
use soqucoin_sdk.Tx.Sign.Signed.{IsSigning, Signings, sign_all-ok}

Signings-length : (js js' : List TxInput) → Signings js js' → length js' ≡ length js
Signings-length [] [] h = refl
Signings-length [] (j' ∷ js') h = absurd h
Signings-length (j ∷ js) [] h = absurd h
Signings-length (j ∷ js) (j' ∷ js') h = omega (arith, Signings-length js js' h.1)

Signings-is_empty : (js js' : List TxInput) → Signings js js' → is_empty js' ≡ is_empty js
Signings-is_empty [] [] h = refl
Signings-is_empty [] (j' ∷ js') h = absurd h
Signings-is_empty (j ∷ js) [] h = absurd h
Signings-is_empty (j ∷ js) (j' ∷ js') h = refl

-- What writes of an input all but its witness.
Signings-write_each :
    (write : TxInput → List ℕ)
    → ((j : TxInput) (items : List (List ℕ)) → write (record j { witness_data = items }) ≡ write j)
    → (js js' : List TxInput) → Signings js js'
    → write_each write js' ≡ write_each write js
unfolding write_each
Signings-write_each write same [] [] h = refl
Signings-write_each write same [] (j' ∷ js') h = absurd h
Signings-write_each write same (j ∷ js) [] h = absurd h
Signings-write_each write same (j ∷ js) (j' ∷ js') h =
    let head = ap write h.0.only_witness ∙ same j ((h.0.sig ++ 1 ∷ []) ∷ (0 ∷ h.0.pk) ∷ []) in
    ap (λ bytes. bytes ++ write_each write js') head
    ∙ ap (λ bytes. write j ++ bytes) (Signings-write_each write same js js' h.1)

Signings-write_input :
    (js js' : List TxInput)
    → Signings js js'
    → write_each write_input js' ≡ write_each write_input js
unfolding write_input write_outpoint
Signings-write_input js js' h = Signings-write_each write_input (λ j items. refl) js js' h

Signings-IsSigned : (js js' : List TxInput) → Signings js js' → All IsSigned js'
Signings-IsSigned [] [] h = tt
Signings-IsSigned [] (j' ∷ js') h = absurd h
Signings-IsSigned (j ∷ js) [] h = absurd h
Signings-IsSigned (j ∷ js) (j' ∷ js') h =
    (ap (λ (i : TxInput). is_empty i.witness_data) h.0.only_witness, Signings-IsSigned js js' h.1)

abbrev pub IsUnsigned : TxInput → Type 0
IsUnsigned j = is_empty j.witness_data ≡ true

-- An unsigned input counts for exactly the witness that it gets.
witness_size-signing :
    (j j' : TxInput) → IsUnsigned j → IsSigning j j' → witness_size j' ≡ witness_size j
unfolding witness_size items_size var_int_size
witness_size-signing j j' h s =
    ap witness_size s.only_witness
    ∙ ground (arith, h, s.sig_length, s.pk_length, length-append s.sig (1 ∷ []))

witness_sizes-signing :
    (js js' : List TxInput)
    → All IsUnsigned js
    → Signings js js'
    → witness_sizes js' ≡ witness_sizes js
unfolding witness_sizes
witness_sizes-signing [] [] u h = refl
witness_sizes-signing [] (j' ∷ js') u h = absurd h
witness_sizes-signing (j ∷ js) [] u h = absurd h
witness_sizes-signing (j ∷ js) (j' ∷ js') u h =
    omega (arith, witness_size-signing j j' u.0 h.0, witness_sizes-signing js js' u.1 h.1)

serialize_no_witness-signing :
    (t : Transaction) (js : List TxInput)
    → Signings t.inputs js
    → serialize_no_witness (record t { inputs = js }) ≡ serialize_no_witness t
unfolding serialize_no_witness write_inputs write_outputs
serialize_no_witness-signing t js h =
    rw (Signings-length t.inputs js h) (rw (Signings-write_input t.inputs js h) refl)

estimate_weight-signing :
    (t : Transaction) (js : List TxInput)
    → All IsUnsigned t.inputs
    → Signings t.inputs js
    → estimate_weight (record t { inputs = js }) ≡ estimate_weight t
unfolding estimate_weight
estimate_weight-signing t js u h =
    rw (serialize_no_witness-signing t js h) (rw (witness_sizes-signing t.inputs js u h) refl)

compute_sig_hash-signing :
    (sha256 : List ℕ → List ℕ) (t : Transaction) (js : List TxInput) (j : TxInput) (type_ : ℕ)
    → Signings t.inputs js
    → compute_sig_hash sha256 (record t { inputs = js }) j type_ ≡ compute_sig_hash sha256 t j type_
unfolding compute_sig_hash sig_hash_preimage write_outpoint
compute_sig_hash-signing sha256 t js j type_ h =
    rw (Signings-write_each write_outpoint (λ i items. refl) t.inputs js h) (
      rw
        (Signings-write_each (λ (i : TxInput). little_endian 4 i.sequence) (λ i items. refl)
          t.inputs js h)
        refl)

-- The weight that was estimated before is the node's measure after.
estimate_weight-sign_all :
    (sha256 : List ℕ → List ℕ) (s : Signer) (t t' : Transaction)
    → is_empty t.inputs ≡ false
    → All IsUnsigned t.inputs
    → sign_all sha256 s t ≡ ok t'
    → estimate_weight t ≡ 3 * length (serialize_no_witness t') + length (serialize t')
estimate_weight-sign_all sha256 s t t' nonempty unsigned e =
    let (js, end, signings) = sign_all-ok sha256 s t e in
    let after = record t { inputs = js } in
    sym (estimate_weight-signing t js unsigned signings)
    ∙ estimate_weight-signed after (Signings-is_empty t.inputs js signings ∙ nonempty)
        (Signings-IsSigned t.inputs js signings)
    ∙ ap (λ x. 3 * length (serialize_no_witness x) + length (serialize x)) (sym end)

tx_id-sign_all :
    (sha256 : List ℕ → List ℕ) (s : Signer) (t t' : Transaction)
    → sign_all sha256 s t ≡ ok t'
    → (tx_id sha256 t' ≡ tx_id sha256 t)
      × ((j : TxInput) (type_ : ℕ)
          → compute_sig_hash sha256 t' j type_ ≡ compute_sig_hash sha256 t j type_)
unfolding tx_id
tx_id-sign_all sha256 s t t' e =
    let (js, end, signings) = sign_all-ok sha256 s t e in
    (
      ap (tx_id sha256) end
          ∙ ap (λ bytes. hex_encode (reverse (sha256d sha256 bytes)))
              (serialize_no_witness-signing t js signings),
      λ j type_.
          ap (λ x. compute_sig_hash sha256 x j type_) end
          ∙ compute_sig_hash-signing sha256 t js j type_ signings,
    )

-- Signing all the inputs of a transaction that has inputs and none signed: the weight that was estimated
-- before equals three times the size without witnesses and the size of all the bytes that are written
-- after, the node's measure; and signing changes neither the transaction's id nor the digest that any
-- input signs.
pub sign_all-unchanged :
    (sha256 : List ℕ → List ℕ) (s : Signer) (t t' : Transaction)
    → is_empty t.inputs ≡ false
    → All IsUnsigned t.inputs
    → sign_all sha256 s t ≡ ok t'
    → (estimate_weight t ≡ 3 * length (serialize_no_witness t') + length (serialize t'))
      × (tx_id sha256 t' ≡ tx_id sha256 t)
      × ((j : TxInput) (type_ : ℕ)
          → compute_sig_hash sha256 t' j type_ ≡ compute_sig_hash sha256 t j type_)
sign_all-unchanged sha256 s t t' nonempty unsigned e =
    let (same_id, same_digests) = tx_id-sign_all sha256 s t t' e in
    (estimate_weight-sign_all sha256 s t t' nonempty unsigned e, same_id, same_digests)
