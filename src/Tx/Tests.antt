-- ===== src/Tx/Tests.antt =====
-- A payment, a sweep, their signing and their bytes, on concrete outputs.
use soqucoin_sdk.Prelude.{
  ℕ, zero, suc, ◌+◌, ◌≡◌, refl, Bool, ◌&&◌, List, [], ◌∷◌, length, arith, some, All, is_empty,
  false, none, ◌*◌,
}
use soqucoin_sdk.Result.{Result, ok, error}
use soqucoin_sdk.Types.{Utxo, asset_type_soq}
use soqucoin_sdk.Text.{
  trim_space, reverse_onto, trim_left, codes, lower, upper, byte_len, list_eq, hex_decode,
  hex_digit,
}
use soqucoin_sdk.Address.{
  hrp_of, check_parts, split_last_one, check_program, check_values, convert_bits, convert_loop,
  decode, decode_parts, drain, end_group, hrp_expand, index_from, is_supported_witness_version,
  network_of, polymod, polymod_from, polymod_step, read_program, read_values, script_for, shift_in,
  strip_checksum, verify_checksum, witness_program,
}
use soqucoin_sdk.Tx.{
  check_amount, sum_inputs, sum_from, add_input, add_output, check_fee, input_of, new_transaction,
  Transaction, TxInput, default_limits,
}
use soqucoin_sdk.Tx.Build.{
  require_same_network, same_network_as, check_floor, add_inputs, send_outputs, with_change,
  sweep_output, build_send, build_sweep,
}
use soqucoin_sdk.Tx.Wire.{
  min_output_value, var_int_size, estimate_fee, estimate_weight, items_size, little_endian,
  serialize_no_witness, vsize, witness_size, witness_sizes, write_bytes, write_each, write_input,
  write_inputs, write_outpoint, write_output, write_outputs, write_var_int, serialize, tx_id,
  compute_sig_hash, sha256d,
}
use soqucoin_sdk.Tx.Build.Send.{IsPayment, build_send-IsPayment}
use soqucoin_sdk.Tx.Build.Sweep.{IsSweep, build_sweep-IsSweep}
use soqucoin_sdk.Tx.Wire.Reader.{read_tx, wire_of}
use soqucoin_sdk.Tx.Wire.Fields.{Fits, FitsInput}
use soqucoin_sdk.Tx.Wire.RoundTrip.{read_tx-serialize}
use soqucoin_sdk.Tx.Sign.{
  Signer, sign_all, sign_from, sign_input, check_sizes, signed_input, set_at, verify_all,
  verify_from, verify_input, verify_witness, verify_items, verify_parts, cut, is_v1_program,
  program_of, keys_verify, check_digest, raw_signature, checked_type, check_public_key, raw_key,
}
use soqucoin_sdk.Tx.Sign.Verified.{IsVerified, verify_all-IsVerified}
use soqucoin_sdk.Tx.Sign.Unchanged.{IsUnsigned, sign_all-unchanged}

abbrev repeat : ℕ → ℕ → List ℕ
repeat zero b = []
repeat (suc n) b = b ∷ repeat n b

abbrev coin : ℕ → Utxo
coin value = record {
  outpoint = record {
    tx_id = "00112233445566778899aabbccddeeff00112233445566778899aabbccddeeff";
    vout = 1;
  };
  value = value;
  height = 100;
  address = "sq1pqurswpc8qurswpc8qurswpc8qurswpc8qurswpc8qurswpc8qursna42fl";
  asset_type = asset_type_soq;
}

abbrev coins : List Utxo
coins = coin 5_000_000_000 ∷ coin 700_000_000 ∷ []

abbrev script : List ℕ
script = 0x51 ∷ 0x20 ∷ repeat 32 7

abbrev built : Result Transaction → Transaction
built (ok t) = t
built (error e) = new_transaction

abbrev payment : Transaction
payment = built (build_send default_limits coins script 1_000_000_000 script 1000)

payment_is_built : build_send default_limits coins script 1_000_000_000 script 1000 ≡ ok payment
unfolding trim_space reverse_onto trim_left codes lower upper byte_len list_eq hex_decode hex_digit
    hrp_of check_parts split_last_one check_program check_values convert_bits convert_loop decode
    decode_parts drain end_group hrp_expand index_from is_supported_witness_version network_of
    polymod polymod_from polymod_step read_program read_values script_for shift_in strip_checksum
    verify_checksum witness_program check_amount sum_inputs sum_from add_input add_output check_fee
    input_of new_transaction require_same_network same_network_as check_floor add_inputs
    send_outputs with_change sweep_output build_send build_sweep min_output_value var_int_size
    estimate_fee estimate_weight items_size little_endian serialize_no_witness vsize witness_size
    witness_sizes write_bytes write_each write_input write_inputs write_outpoint write_output
    write_outputs write_var_int
payment_is_built = refl

vsize-payment : vsize payment ≡ 2049
unfolding trim_space reverse_onto trim_left codes lower upper byte_len list_eq hex_decode hex_digit
    hrp_of check_parts split_last_one check_program check_values convert_bits convert_loop decode
    decode_parts drain end_group hrp_expand index_from is_supported_witness_version network_of
    polymod polymod_from polymod_step read_program read_values script_for shift_in strip_checksum
    verify_checksum witness_program check_amount sum_inputs sum_from add_input add_output check_fee
    input_of new_transaction require_same_network same_network_as check_floor add_inputs
    send_outputs with_change sweep_output build_send build_sweep min_output_value var_int_size
    estimate_fee estimate_weight items_size little_endian serialize_no_witness vsize witness_size
    witness_sizes write_bytes write_each write_input write_inputs write_outpoint write_output
    write_outputs write_var_int
vsize-payment = refl

build_send-IsPayment_example :
    IsPayment default_limits coins script 1_000_000_000 script 1000 payment
build_send-IsPayment_example =
    build_send-IsPayment default_limits coins script 1_000_000_000 script 1000 payment (omega arith)
      (omega (arith, vsize-payment)) payment_is_built

abbrev sweep : Transaction
sweep = built (build_sweep default_limits coins script 1000)

sweep_is_built : build_sweep default_limits coins script 1000 ≡ ok sweep
unfolding trim_space reverse_onto trim_left codes lower upper byte_len list_eq hex_decode hex_digit
    hrp_of check_parts split_last_one check_program check_values convert_bits convert_loop decode
    decode_parts drain end_group hrp_expand index_from is_supported_witness_version network_of
    polymod polymod_from polymod_step read_program read_values script_for shift_in strip_checksum
    verify_checksum witness_program check_amount sum_inputs sum_from add_input add_output check_fee
    input_of new_transaction require_same_network same_network_as check_floor add_inputs
    send_outputs with_change sweep_output build_send build_sweep min_output_value var_int_size
    estimate_fee estimate_weight items_size little_endian serialize_no_witness vsize witness_size
    witness_sizes write_bytes write_each write_input write_inputs write_outpoint write_output
    write_outputs write_var_int
sweep_is_built = refl

vsize-sweep : vsize sweep ≡ 2006
unfolding trim_space reverse_onto trim_left codes lower upper byte_len list_eq hex_decode hex_digit
    hrp_of check_parts split_last_one check_program check_values convert_bits convert_loop decode
    decode_parts drain end_group hrp_expand index_from is_supported_witness_version network_of
    polymod polymod_from polymod_step read_program read_values script_for shift_in strip_checksum
    verify_checksum witness_program check_amount sum_inputs sum_from add_input add_output check_fee
    input_of new_transaction require_same_network same_network_as check_floor add_inputs
    send_outputs with_change sweep_output build_send build_sweep min_output_value var_int_size
    estimate_fee estimate_weight items_size little_endian serialize_no_witness vsize witness_size
    witness_sizes write_bytes write_each write_input write_inputs write_outpoint write_output
    write_outputs write_var_int
vsize-sweep = refl

build_sweep-IsSweep_example : IsSweep default_limits coins script 1000 sweep
build_sweep-IsSweep_example =
    build_sweep-IsSweep default_limits coins script 1000 sweep (omega arith)
      (omega (arith, vsize-sweep)) sweep_is_built

payment_inputs : All FitsInput payment.inputs
unfolding trim_space reverse_onto trim_left codes lower upper byte_len list_eq hex_decode hex_digit
    hrp_of check_parts split_last_one check_program check_values convert_bits convert_loop decode
    decode_parts drain end_group hrp_expand index_from is_supported_witness_version network_of
    polymod polymod_from polymod_step read_program read_values script_for shift_in strip_checksum
    verify_checksum witness_program check_amount sum_inputs sum_from add_input add_output check_fee
    input_of new_transaction require_same_network same_network_as check_floor add_inputs
    send_outputs with_change sweep_output build_send build_sweep min_output_value var_int_size
    estimate_fee estimate_weight items_size little_endian serialize_no_witness vsize witness_size
    witness_sizes write_bytes write_each write_input write_inputs write_outpoint write_output
    write_outputs write_var_int
payment_inputs = (
  record {
    id_length = refl;
    vout_fits = omega arith;
    sequence_fits = omega arith;
    count_fits = omega arith;
    items_fit = tt;
  },
  (
    record {
      id_length = refl;
      vout_fits = omega arith;
      sequence_fits = omega arith;
      count_fits = omega arith;
      items_fit = tt;
    },
    tt,
  ),
)

payment-Fits : Fits payment
unfolding trim_space reverse_onto trim_left codes lower upper byte_len list_eq hex_decode hex_digit
    hrp_of check_parts split_last_one check_program check_values convert_bits convert_loop decode
    decode_parts drain end_group hrp_expand index_from is_supported_witness_version network_of
    polymod polymod_from polymod_step read_program read_values script_for shift_in strip_checksum
    verify_checksum witness_program check_amount sum_inputs sum_from add_input add_output check_fee
    input_of new_transaction require_same_network same_network_as check_floor add_inputs
    send_outputs with_change sweep_output build_send build_sweep min_output_value var_int_size
    estimate_fee estimate_weight items_size little_endian serialize_no_witness vsize witness_size
    witness_sizes write_bytes write_each write_input write_inputs write_outpoint write_output
    write_outputs write_var_int
payment-Fits = record {
  version_fits = omega arith;
  lock_time_fits = omega arith;
  input_count = omega arith;
  output_count = omega arith;
  inputs_fit = payment_inputs;
  outputs_fit = (
    record { value_fits = omega arith; script_fits = omega arith },
    (record { value_fits = omega arith; script_fits = omega arith }, tt),
  );
}

payment_has_inputs : is_empty payment.inputs ≡ false
unfolding trim_space reverse_onto trim_left codes lower upper byte_len list_eq hex_decode hex_digit
    hrp_of check_parts split_last_one check_program check_values convert_bits convert_loop decode
    decode_parts drain end_group hrp_expand index_from is_supported_witness_version network_of
    polymod polymod_from polymod_step read_program read_values script_for shift_in strip_checksum
    verify_checksum witness_program check_amount sum_inputs sum_from add_input add_output check_fee
    input_of new_transaction require_same_network same_network_as check_floor add_inputs
    send_outputs with_change sweep_output build_send build_sweep min_output_value var_int_size
    estimate_fee estimate_weight items_size little_endian serialize_no_witness vsize witness_size
    witness_sizes write_bytes write_each write_input write_inputs write_outpoint write_output
    write_outputs write_var_int
payment_has_inputs = refl

read_tx-serialize_example : read_tx (serialize payment) ≡ some (wire_of payment, [])
read_tx-serialize_example = read_tx-serialize payment payment_has_inputs payment-Fits

-- A hash with the program of `script` as its one value, and a scheme with one signature of each message.
abbrev hash : List ℕ → List ℕ
hash bytes = repeat 32 7

abbrev accepts : List ℕ → List ℕ → List ℕ → Bool
accepts pk digest sig =
    list_eq pk (repeat 1312 5) && list_eq digest (repeat 32 7) && list_eq sig (repeat 2420 9)

abbrev signer : Signer
signer = record {
  sign = λ n address digest. ok (repeat 2420 9);
  public_key_for = λ n address. ok (repeat 1312 5);
}

abbrev signed : Transaction
signed = built (sign_all hash signer payment)

payment_is_signed : sign_all hash signer payment ≡ ok signed
unfolding sign_all sign_from sign_input check_sizes signed_input set_at trim_space reverse_onto
    trim_left codes lower upper byte_len list_eq hex_decode hex_digit hrp_of check_parts
    split_last_one check_program check_values convert_bits convert_loop decode decode_parts drain
    end_group hrp_expand index_from is_supported_witness_version network_of polymod polymod_from
    polymod_step read_program read_values script_for shift_in strip_checksum verify_checksum
    witness_program check_amount sum_inputs sum_from add_input add_output check_fee input_of
    new_transaction require_same_network same_network_as check_floor add_inputs send_outputs
    with_change sweep_output build_send build_sweep min_output_value var_int_size estimate_fee
    estimate_weight items_size little_endian serialize_no_witness vsize witness_size witness_sizes
    write_bytes write_each write_input write_inputs write_outpoint write_output write_outputs
    write_var_int
payment_is_signed = refl

payment-IsUnsigned : All IsUnsigned payment.inputs
unfolding trim_space reverse_onto trim_left codes lower upper byte_len list_eq hex_decode hex_digit
    hrp_of check_parts split_last_one check_program check_values convert_bits convert_loop decode
    decode_parts drain end_group hrp_expand index_from is_supported_witness_version network_of
    polymod polymod_from polymod_step read_program read_values script_for shift_in strip_checksum
    verify_checksum witness_program check_amount sum_inputs sum_from add_input add_output check_fee
    input_of new_transaction require_same_network same_network_as check_floor add_inputs
    send_outputs with_change sweep_output build_send build_sweep min_output_value var_int_size
    estimate_fee estimate_weight items_size little_endian serialize_no_witness vsize witness_size
    witness_sizes write_bytes write_each write_input write_inputs write_outpoint write_output
    write_outputs write_var_int
payment-IsUnsigned = (refl, (refl, tt))

sign_all-unchanged_example :
    (estimate_weight payment ≡ 3 * length (serialize_no_witness signed) + length (serialize signed))
    × (tx_id hash signed ≡ tx_id hash payment)
    × ((j : TxInput) (type_ : ℕ)
        → compute_sig_hash hash signed j type_ ≡ compute_sig_hash hash payment j type_)
sign_all-unchanged_example =
    sign_all-unchanged hash signer payment signed payment_has_inputs payment-IsUnsigned
      payment_is_signed

signed_is_verified : verify_all hash accepts signed ≡ none
unfolding verify_all verify_from verify_input verify_witness verify_items verify_parts cut
    is_v1_program program_of keys_verify check_digest raw_signature checked_type check_public_key
    raw_key compute_sig_hash sha256d sign_all sign_from sign_input check_sizes signed_input set_at
    trim_space reverse_onto trim_left codes lower upper byte_len list_eq hex_decode hex_digit hrp_of
    check_parts split_last_one check_program check_values convert_bits convert_loop decode
    decode_parts drain end_group hrp_expand index_from is_supported_witness_version network_of
    polymod polymod_from polymod_step read_program read_values script_for shift_in strip_checksum
    verify_checksum witness_program check_amount sum_inputs sum_from add_input add_output check_fee
    input_of new_transaction require_same_network same_network_as check_floor add_inputs
    send_outputs with_change sweep_output build_send build_sweep min_output_value var_int_size
    estimate_fee estimate_weight items_size little_endian serialize_no_witness vsize witness_size
    witness_sizes write_bytes write_each write_input write_inputs write_outpoint write_output
    write_outputs write_var_int
signed_is_verified = refl

verify_all-IsVerified_example : All (IsVerified hash accepts signed) signed.inputs
verify_all-IsVerified_example = verify_all-IsVerified hash accepts signed signed_is_verified
