-- ===== src/Tx/Wire/Weight.antt =====
-- The sizes that tx/builder.go computes, and the bytes that it writes.
use soqucoin_sdk.Prelude.{
  ℕ, zero, suc, ◌+◌, ◌*◌, ◌/◌, ◌≡◌, refl, true, false, List, [], ◌∷◌, ◌++◌, length, length-append,
  is_empty, All, arith,
}
use soqucoin_sdk.Tx.{TxInput, TxOutput, Transaction}
use soqucoin_sdk.Tx.Wire.{
  little_endian, var_int_size, write_var_int, write_bytes, write_each, write_output, write_witness,
  write_inputs, write_outputs, any_witness, serialize, serialize_no_witness, items_size,
  witness_size, witness_sizes, estimate_weight,
}

pub length-little_endian : (n v : ℕ) → length (little_endian n v) ≡ n
unfolding little_endian
length-little_endian zero v = refl
length-little_endian (suc n) v = omega (arith, length-little_endian n (v / 256))

pub length-write_var_int : (v : ℕ) → length (write_var_int v) ≡ var_int_size v
unfolding write_var_int var_int_size
length-write_var_int v =
    ground (arith, length-little_endian 2 v, length-little_endian 4 v, length-little_endian 8 v)

pub length-write_bytes :
    (bs : List ℕ) → length (write_bytes bs) ≡ var_int_size (length bs) + length bs
unfolding write_bytes
length-write_bytes bs =
    omega (arith, length-append (write_var_int (length bs)) bs, length-write_var_int (length bs))

abbrev pub sizes {ℓ} : {A : Type ℓ} → (A → List ℕ) → List A → ℕ
sizes write [] = 0
sizes write (x ∷ xs) = length (write x) + sizes write xs

pub length-write_each {ℓ} :
    {A : Type ℓ} (write : A → List ℕ) (xs : List A) → length (write_each write xs) ≡ sizes write xs
unfolding write_each
length-write_each write [] = refl
length-write_each write (x ∷ xs) =
    omega (arith, length-append (write x) (write_each write xs), length-write_each write xs)

pub length-write_output :
    (o : TxOutput)
    → length (write_output o)
      ≡ 8 + (var_int_size (length o.script_pub_key) + length o.script_pub_key)
unfolding write_output
length-write_output o = omega (
  arith,
  length-append (little_endian 8 o.value) (write_bytes o.script_pub_key),
  length-little_endian 8 o.value,
  length-write_bytes o.script_pub_key,
)

pub length-serialize_no_witness :
    (t : Transaction)
    → length (serialize_no_witness t)
      ≡ 8
        + length (write_inputs t)
        + (var_int_size (length t.outputs) + sizes write_output t.outputs)
unfolding serialize_no_witness write_outputs
length-serialize_no_witness t = omega (
  arith,
  length-append (little_endian 4 t.version)
      (write_inputs t ++ (write_outputs t ++ little_endian 4 t.lock_time)),
  length-append (write_inputs t) (write_outputs t ++ little_endian 4 t.lock_time),
  length-append (write_outputs t) (little_endian 4 t.lock_time),
  length-append (write_var_int (length t.outputs)) (write_each write_output t.outputs),
  length-write_var_int (length t.outputs),
  length-write_each write_output t.outputs,
  length-little_endian 4 t.version,
  length-little_endian 4 t.lock_time,
)

abbrev pub IsSigned : TxInput → Type 0
IsSigned i = is_empty i.witness_data ≡ false

length-items : (items : List (List ℕ)) → length (write_each write_bytes items) ≡ items_size items
unfolding write_each items_size
length-items [] = refl
length-items (x ∷ xs) = omega (
  arith,
  length-append (write_bytes x) (write_each write_bytes xs),
  length-write_bytes x,
  length-items xs,
)

length-write_witness : (i : TxInput) → IsSigned i → length (write_witness i) ≡ witness_size i
unfolding write_witness witness_size
length-write_witness i h = rw h (
    omega (
      arith,
      length-append (write_var_int (length i.witness_data)) (write_each write_bytes i.witness_data),
      length-write_var_int (length i.witness_data),
      length-items i.witness_data,
    ))

length-witnesses :
    (is : List TxInput) → All IsSigned is → length (write_each write_witness is) ≡ witness_sizes is
unfolding write_each witness_sizes
length-witnesses [] h = refl
length-witnesses (i ∷ is) h = omega (
  arith,
  length-append (write_witness i) (write_each write_witness is),
  length-write_witness i h.0,
  length-witnesses is h.1,
)

any_witness-signed :
    (is : List TxInput) → is_empty is ≡ false → All IsSigned is → any_witness is ≡ true
unfolding any_witness
any_witness-signed [] e h = absurd (ground (arith, e))
any_witness-signed (i ∷ is) e h = rw h.0 refl

pub estimate_weight-signed :
    (t : Transaction)
    → is_empty t.inputs ≡ false
    → All IsSigned t.inputs
    → estimate_weight t ≡ 3 * length (serialize_no_witness t) + length (serialize t)
unfolding estimate_weight serialize serialize_no_witness
estimate_weight-signed t e h = rw (any_witness-signed t.inputs e h) (
    omega (
      arith,
      length-append (little_endian 4 t.version)
          (write_inputs t ++ (write_outputs t ++ little_endian 4 t.lock_time)),
      length-append (write_inputs t) (write_outputs t ++ little_endian 4 t.lock_time),
      length-append (write_outputs t) (little_endian 4 t.lock_time),
      length-append (little_endian 4 t.version) (
          0
          ∷ 1
          ∷ (write_inputs t
              ++ (write_outputs t
                  ++ (write_each write_witness t.inputs ++ little_endian 4 t.lock_time)))),
      length-append (write_inputs t)
          (write_outputs t ++ (write_each write_witness t.inputs ++ little_endian 4 t.lock_time)),
      length-append (write_outputs t)
          (write_each write_witness t.inputs ++ little_endian 4 t.lock_time),
      length-append (write_each write_witness t.inputs) (little_endian 4 t.lock_time),
      length-witnesses t.inputs h,
    ))

-- The size without the outputs.
abbrev pub frame : Transaction → ℕ
frame t = (8 + length (write_inputs t)) * 4 + (2 + witness_sizes t.inputs)

pub estimate_weight-frame :
    (t : Transaction)
    → estimate_weight t
      ≡ frame t + 4 * (var_int_size (length t.outputs) + sizes write_output t.outputs)
unfolding estimate_weight
estimate_weight-frame t = omega (arith, length-serialize_no_witness t)
