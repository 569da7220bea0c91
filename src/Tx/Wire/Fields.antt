-- ===== src/Tx/Wire/Fields.antt =====
-- The widths of a transaction's fields, and that an input or an output that tx/builder.go writes reads back.
use soqucoin_sdk.Prelude.{ℕ, ◌^◌, ◌<◌, ◌≡◌, sym, ◌∙◌, ap, List, [], ◌++◌, length, All}
use soqucoin_sdk.Tx.{TxInput, TxOutput, Transaction}
use soqucoin_sdk.Tx.Wire.{
  little_endian, write_var_int, write_bytes, write_outpoint, write_input, write_output,
}
use soqucoin_sdk.Tx.Wire.Reader.{
  read_byte, read_number, read_times, read_bytes, read_input, read_output, wire_input,
}
use soqucoin_sdk.Tx.Wire.Reading.{
  Reads, Reads-then, Reads-last, Reads-assoc, read_number-little_endian, read_times-bytes,
  read_bytes-write_bytes, read_bytes-empty,
}

abbrev pub FitsBytes : List ℕ → Type 0
FitsBytes bs = length bs < 2 ^ 64

-- The field's widths, which the Go types give.
pub record FitsInput (i : TxInput) : Type 0 where
  pub id_length : length i.tx_id ≡ 32
  pub vout_fits : i.vout < 2 ^ 32
  pub sequence_fits : i.sequence < 2 ^ 32
  pub count_fits : length i.witness_data < 2 ^ 64
  pub items_fit : All FitsBytes i.witness_data

pub record FitsOutput (o : TxOutput) : Type 0 where
  pub value_fits : o.value < 2 ^ 64
  pub script_fits : length o.script_pub_key < 2 ^ 64

pub record Fits (t : Transaction) : Type 0 where
  pub version_fits : t.version < 2 ^ 32
  pub lock_time_fits : t.lock_time < 2 ^ 32
  pub input_count : length t.inputs < 2 ^ 64
  pub output_count : length t.outputs < 2 ^ 64
  pub inputs_fit : All FitsInput t.inputs
  pub outputs_fit : All FitsOutput t.outputs

pub read_output-write_output : (o : TxOutput) → FitsOutput o → Reads read_output (write_output o) o
unfolding read_output write_output
read_output-write_output o h =
    Reads-then (read_number 8) _ (little_endian 8 o.value) (write_bytes o.script_pub_key) o.value
      (read_number-little_endian 8 o.value h.value_fits)
      (Reads-last read_bytes (λ script. record { value = o.value; script_pub_key = script })
        (write_bytes o.script_pub_key) o.script_pub_key
        (read_bytes-write_bytes o.script_pub_key h.script_fits))

pub read_times-id : (i : TxInput) → FitsInput i → Reads (read_times 32 read_byte) i.tx_id i.tx_id
read_times-id i h rest =
    ap (λ n. read_times n read_byte (i.tx_id ++ rest)) (sym h.id_length)
    ∙ read_times-bytes i.tx_id rest

pub read_input-write_input :
    (i : TxInput) → FitsInput i → Reads read_input (write_input i) (wire_input i)
unfolding read_input write_input write_outpoint wire_input
read_input-write_input i h =
    Reads-assoc read_input i.tx_id (little_endian 4 i.vout)
      (write_var_int 0 ++ little_endian 4 i.sequence) (wire_input i)
      (Reads-then (read_times 32 read_byte) _ i.tx_id _ i.tx_id (read_times-id i h) (
        Reads-then (read_number 4) _ (little_endian 4 i.vout) _ i.vout
          (read_number-little_endian 4 i.vout h.vout_fits)
          (Reads-then read_bytes _ (write_var_int 0) (little_endian 4 i.sequence) []
            read_bytes-empty
            (Reads-last (read_number 4)
              (λ sequence. record {
                tx_id = i.tx_id;
                vout = i.vout;
                script_sig = [];
                sequence = sequence;
              })
              (little_endian 4 i.sequence) i.sequence
              (read_number-little_endian 4 i.sequence h.sequence_fits)))))
