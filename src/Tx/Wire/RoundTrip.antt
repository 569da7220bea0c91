-- ===== src/Tx/Wire/RoundTrip.antt =====
-- The bytes that tx/builder.go writes read back as the transaction.
use mathlib.Core.List.{append_assoc}
use soqucoin_sdk.Prelude.{
  ℕ, suc, ◌≡◌, refl, sym, ◌∙◌, ap, Bool, true, false, some, List, [], ◌∷◌, ◌++◌, map, length,
  is_empty, arith, All, ltb, leb, Bool-cases, inl, inr,
}
use soqucoin_sdk.Tx.{TxInput, Transaction}
use soqucoin_sdk.Tx.Wire.{
  little_endian, write_var_int, write_bytes, write_each, write_input, write_output, write_witness,
  write_inputs, write_outputs, any_witness, serialize,
}
use soqucoin_sdk.Tx.Wire.Reader.{
  read_number, read_bytes, read_input, read_output, read_list, no_witnesses, read_witnesses,
  read_body, read_marked, read_tx, wire_input, wire_of,
}
use soqucoin_sdk.Tx.Wire.Reading.{
  Reads, Reads-then, Reads-last, read_number-little_endian, read_list-write, read_bytes-write_bytes,
  List-cases, read_list-same, Reads-end,
}
use soqucoin_sdk.Tx.Wire.Fields.{
  FitsBytes, FitsInput, FitsOutput, Fits, read_output-write_output, read_input-write_input,
}

read_witnesses-write :
    (is : List TxInput)
    → All FitsInput is
    → Reads
        (read_witnesses (map wire_input is) true)
        (write_each write_witness is)
        (map (λ (i : TxInput). i.witness_data) is)
unfolding read_witnesses write_each write_witness
read_witnesses-write [] h = λ rest. refl
read_witnesses-write (i ∷ is) h =
    Reads-then (read_list read_bytes) _
      (write_var_int (length i.witness_data) ++ write_each write_bytes i.witness_data)
      (write_each write_witness is) i.witness_data
      (read_list-same FitsBytes read_bytes write_bytes read_bytes-write_bytes i.witness_data
        h.0.count_fits h.0.items_fit)
      (Reads-last (read_witnesses (map wire_input is) true) (λ rest. i.witness_data ∷ rest)
        (write_each write_witness is) (map (λ (i : TxInput). i.witness_data) is)
        (read_witnesses-write is h.1))

no_witnesses-unsigned :
    (is : List TxInput)
    → any_witness is ≡ false
    → no_witnesses (map wire_input is) ≡ map (λ (i : TxInput). i.witness_data) is
unfolding any_witness
no_witnesses-unsigned [] h = refl
no_witnesses-unsigned (i ∷ is) h = elim (List-cases i.witness_data) [
  | inl e ↦ rw e (ap (λ ys. [] ∷ ys) (no_witnesses-unsigned is (ground (arith, h, e))))
  | inr (x, xs, e) ↦ absurd (ground (arith, h, e))
]

read_witnesses-none :
    (is : List TxInput)
    → any_witness is ≡ false
    → Reads (read_witnesses (map wire_input is) false) [] (map (λ (i : TxInput). i.witness_data) is)
unfolding read_witnesses
read_witnesses-none [] h rest = refl
read_witnesses-none (i ∷ is) h rest = ap (λ ys. some (ys, rest)) (no_witnesses-unsigned (i ∷ is) h)

read_body-write :
    (t : Transaction) (marked : Bool) (witnesses : List ℕ)
    → Fits t
    → Reads
        (read_witnesses (map wire_input t.inputs) marked)
        witnesses
        (map (λ (i : TxInput). i.witness_data) t.inputs)
    → Reads
        (read_body t.version marked)
        (write_inputs t ++ (write_outputs t ++ (witnesses ++ little_endian 4 t.lock_time)))
        (wire_of t)
unfolding read_body write_inputs write_outputs wire_of
read_body-write t marked witnesses h hw =
    Reads-then (read_list read_input) _ (write_inputs t) _ (map wire_input t.inputs)
      (read_list-write FitsInput read_input write_input wire_input read_input-write_input t.inputs
        h.input_count h.inputs_fit)
      (Reads-then (read_list read_output) _ (write_outputs t) _ t.outputs
        (read_list-same FitsOutput read_output write_output read_output-write_output t.outputs
          h.output_count h.outputs_fit)
        (Reads-then (read_witnesses (map wire_input t.inputs) marked) _ witnesses
          (little_endian 4 t.lock_time) (map (λ (i : TxInput). i.witness_data) t.inputs) hw
          (Reads-last (read_number 4)
            (λ lock_time. record {
              version = t.version;
              inputs = map wire_input t.inputs;
              outputs = t.outputs;
              witnesses = map (λ (i : TxInput). i.witness_data) t.inputs;
              lock_time = lock_time;
            })
            (little_endian 4 t.lock_time) t.lock_time
            (read_number-little_endian 4 t.lock_time h.lock_time_fits))))

-- The count of the inputs is no marker, as there is an input.
read_marked-unmarked :
    (version n : ℕ) (bytes : List ℕ)
    → read_marked version (write_var_int (suc n) ++ bytes)
      ≡ read_body version false (write_var_int (suc n) ++ bytes)
unfolding read_marked write_var_int
read_marked-unmarked version n bytes = elim (Bool-cases (ltb (suc n) 253)) [
  | inl b ↦ rw b refl
  | inr b ↦ rw b (elim (Bool-cases (leb (suc n) 65535)) [
    | inl c ↦ rw c refl
    | inr c ↦
        rw c (elim (Bool-cases (leb (suc n) 4294967295)) [ inl d ↦ rw d refl | inr d ↦ rw d refl ])
  ])
]

read_marked-inputs :
    (version : ℕ) (is : List TxInput) (bytes : List ℕ)
    → is_empty is ≡ false
    → read_marked version (write_var_int (length is) ++ bytes)
      ≡ read_body version false (write_var_int (length is) ++ bytes)
read_marked-inputs version [] bytes e = absurd cc
read_marked-inputs version (i ∷ is) bytes e = read_marked-unmarked version (length is) bytes

read_marked-write_inputs :
    (t : Transaction) (bytes : List ℕ)
    → is_empty t.inputs ≡ false
    → read_marked t.version (write_inputs t ++ bytes)
      ≡ read_body t.version false (write_inputs t ++ bytes)
unfolding write_inputs
read_marked-write_inputs t bytes e =
    let count = write_var_int (length t.inputs) in
    let inputs = write_each write_input t.inputs in
    ap (read_marked t.version) (append_assoc count inputs bytes)
    ∙ read_marked-inputs t.version t.inputs (inputs ++ bytes) e
    ∙ ap (read_body t.version false) (sym (append_assoc count inputs bytes))

read_unsigned :
    (t : Transaction)
    → is_empty t.inputs ≡ false
    → any_witness t.inputs ≡ false
    → Fits t
    → Reads
        (read_marked t.version)
        (write_inputs t ++ (write_outputs t ++ little_endian 4 t.lock_time))
        (wire_of t)
read_unsigned t e u h rest =
    let bytes = write_outputs t ++ little_endian 4 t.lock_time in
    ap (read_marked t.version) (append_assoc (write_inputs t) bytes rest)
    ∙ read_marked-write_inputs t (bytes ++ rest) e
    ∙ ap (read_body t.version false) (sym (append_assoc (write_inputs t) bytes rest))
    ∙ read_body-write t false [] h (read_witnesses-none t.inputs u) rest

read_signed :
    (t : Transaction)
    → Fits t
    → Reads
        (read_marked t.version)
        (0
          ∷ 1
          ∷ (write_inputs t
              ++ (write_outputs t
                  ++ (write_each write_witness t.inputs ++ little_endian 4 t.lock_time))))
        (wire_of t)
unfolding read_marked
read_signed t h rest =
    read_body-write t true (write_each write_witness t.inputs) h
      (read_witnesses-write t.inputs h.inputs_fit) rest

-- Reading the bytes that Serialize writes, by a reader of the format that is independent of it, gives the
-- transaction back and leaves nothing: the version, the lock time, the outputs, and each input's outpoint,
-- sequence and witness, and an empty signature script. It holds whether or not the inputs are signed, for
-- a transaction that has an input and whose fields fit their widths.
pub read_tx-serialize :
    (t : Transaction)
    → is_empty t.inputs ≡ false
    → Fits t
    → read_tx (serialize t) ≡ some (wire_of t, [])
unfolding read_tx serialize
read_tx-serialize t e h =
    let version_read = read_number-little_endian 4 t.version h.version_fits in
    elim (Bool-cases (any_witness t.inputs)) [
      | inl b ↦ rw b (
          Reads-end read_tx _ (wire_of t) (
            Reads-then (read_number 4) read_marked (little_endian 4 t.version) _ t.version
              version_read (read_signed t h)))
      | inr b ↦ rw b (
          Reads-end read_tx _ (wire_of t) (
            Reads-then (read_number 4) read_marked (little_endian 4 t.version) _ t.version
              version_read (read_unsigned t e b h)))
    ]
