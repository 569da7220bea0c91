-- ===== src/Tx/Wire.antt =====
-- tx/builder.go: the serialization of a transaction, and its weight.
pub mod Reader
pub mod Reading
pub mod Fields
pub mod RoundTrip
pub mod Weight
use soqucoin_sdk.Prelude.{
  ℕ, zero, suc, ◌+◌, ◌*◌, ◌/◌, ◌%◌, Bool, true, false, ◌||◌, List, [], ◌∷◌, ◌++◌, if◌then◌else◌,
  leb, ltb, not, is_empty, length,
}
use soqucoin_sdk.Text.{hex_encode, reverse}
use soqucoin_sdk.Tx.{
  dilithium_sig_size, dilithium_pub_key_size, utxo_cost_per_byte, fee_margin_vbytes, TxInput,
  TxOutput, Transaction,
}

-- binary.Write in little-endian order, of a number of `n` bytes.
unfoldable pub little_endian : ℕ → ℕ → List ℕ
little_endian zero v = []
little_endian (suc n) v = (v % 256) ∷ little_endian n (v / 256)

unfoldable pub var_int_size : ℕ → ℕ
var_int_size v =
    if ltb v 0xfd then 1 else if leb v 0xffff then 3 else if leb v 0xffffffff then 5 else 9

unfoldable pub write_var_int : ℕ → List ℕ
write_var_int v =
    if ltb v 0xfd
    then v ∷ []
    else if leb v 0xffff
    then 0xfd ∷ little_endian 2 v
    else if leb v 0xffffffff
    then 0xfe ∷ little_endian 4 v
    else 0xff ∷ little_endian 8 v

-- A length, and the bytes.
unfoldable pub write_bytes : List ℕ → List ℕ
write_bytes bs = write_var_int (length bs) ++ bs

unfoldable pub write_each {ℓ} : {A : Type ℓ} → (A → List ℕ) → List A → List ℕ
write_each write [] = []
write_each write (x ∷ xs) = write x ++ write_each write xs

unfoldable pub write_outpoint : TxInput → List ℕ
write_outpoint i = i.tx_id ++ little_endian 4 i.vout

-- The script of a signature is always empty.
unfoldable pub write_input : TxInput → List ℕ
write_input i = write_outpoint i ++ (write_var_int 0 ++ little_endian 4 i.sequence)

unfoldable pub write_output : TxOutput → List ℕ
write_output o = little_endian 8 o.value ++ write_bytes o.script_pub_key

unfoldable pub write_witness : TxInput → List ℕ
write_witness i = write_var_int (length i.witness_data) ++ write_each write_bytes i.witness_data

unfoldable pub write_inputs : Transaction → List ℕ
write_inputs t = write_var_int (length t.inputs) ++ write_each write_input t.inputs

unfoldable pub write_outputs : Transaction → List ℕ
write_outputs t = write_var_int (length t.outputs) ++ write_each write_output t.outputs

unfoldable pub any_witness : List TxInput → Bool
any_witness [] = false
any_witness (i ∷ is) = not (is_empty i.witness_data) || any_witness is

unfoldable pub serialize : Transaction → List ℕ
serialize t =
    if any_witness t.inputs
    then little_endian 4 t.version
      ++ (0 ∷ 1 ∷ []
          ++ (write_inputs t
              ++ (write_outputs t
                  ++ (write_each write_witness t.inputs ++ little_endian 4 t.lock_time))))
    else little_endian 4 t.version
      ++ (write_inputs t ++ (write_outputs t ++ little_endian 4 t.lock_time))

unfoldable pub serialize_hex : Transaction → List ℕ
serialize_hex t = hex_encode (serialize t)

unfoldable pub serialize_no_witness : Transaction → List ℕ
serialize_no_witness t =
    little_endian 4 t.version
    ++ (write_inputs t ++ (write_outputs t ++ little_endian 4 t.lock_time))

unfoldable pub items_size : List (List ℕ) → ℕ
items_size [] = 0
items_size (item ∷ items) = var_int_size (length item) + length item + items_size items

-- An input with no witness counts for the one that it will have.
unfoldable pub witness_size : TxInput → ℕ
witness_size i =
    if is_empty i.witness_data
    then 1
      + var_int_size (dilithium_sig_size + 1)
      + (dilithium_sig_size + 1)
      + var_int_size (dilithium_pub_key_size + 1)
      + (dilithium_pub_key_size + 1)
    else var_int_size (length i.witness_data) + items_size i.witness_data

unfoldable pub witness_sizes : List TxInput → ℕ
witness_sizes [] = 0
witness_sizes (i ∷ is) = witness_size i + witness_sizes is

unfoldable pub estimate_weight : Transaction → ℕ
estimate_weight t = length (serialize_no_witness t) * 4 + (2 + witness_sizes t.inputs)

unfoldable pub vsize : Transaction → ℕ
vsize t = (estimate_weight t + 3) / 4

-- The product of two int64, as its 64 bits.
unfoldable pub estimate_fee : Transaction → ℕ → ℕ
estimate_fee t fee_rate = (vsize t + fee_margin_vbytes) * fee_rate % 18446744073709551616

unfoldable pub min_output_value : List ℕ → ℕ
min_output_value script = utxo_cost_per_byte * (8 + var_int_size (length script) + length script)

-- `sha256` is that of the library.
module _ (sha256 : List ℕ → List ℕ) where
  unfoldable pub sha256d : List ℕ → List ℕ
  sha256d bytes = sha256 (sha256 bytes)

  unfoldable pub tx_id : Transaction → List ℕ
  tx_id t = hex_encode (reverse (sha256d (serialize_no_witness t)))

  -- ComputeSigHash at the input, with the SIGHASH_ALL preimage of BIP 143.
  unfoldable pub sig_hash_preimage : Transaction → TxInput → ℕ → List ℕ
  sig_hash_preimage t i hash_type =
      little_endian 4 t.version
      ++ (sha256d (write_each write_outpoint t.inputs)
          ++ (sha256d (write_each (λ (j : TxInput). little_endian 4 j.sequence) t.inputs)
              ++ (write_outpoint i
                  ++ (write_bytes i.script_pub_key
                      ++ (little_endian 8 i.value
                          ++ (little_endian 4 i.sequence
                              ++ (sha256d (write_each write_output t.outputs)
                                  ++ (little_endian 4 t.lock_time
                                      ++ little_endian 4 hash_type))))))))

  unfoldable pub compute_sig_hash : Transaction → TxInput → ℕ → List ℕ
  compute_sig_hash t i hash_type = sha256d (sig_hash_preimage t i hash_type)
