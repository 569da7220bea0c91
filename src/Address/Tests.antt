-- ===== src/Address/Tests.antt =====
-- The address of a program on the main network, its script, and a round of the conversion of bits.
use soqucoin_sdk.Prelude.{ℕ, zero, suc, ◌≡◌, refl, List, [], ◌∷◌, length, All, arith}
use soqucoin_sdk.Result.{ok}
use soqucoin_sdk.Text.{codes, lower, upper, byte_len, list_eq, reverse_onto, trim_left, trim_space}
use soqucoin_sdk.Address.{
  BitState, Network, mainnet, network_hrp, Program, encode, decode, drain, script_for, network_of,
  hrp_of, check_parts, split_last_one, decode_parts, read_values, index_from, check_values,
  verify_checksum, hrp_expand, polymod, polymod_from, polymod_step, strip_checksum, read_program,
  convert_bits, convert_loop, shift_in, end_group, check_program, is_supported_witness_version,
  witness_program,
}
use soqucoin_sdk.Address.Groups.{FitsIn, IsDrained, drain-IsDrained}
use soqucoin_sdk.Address.Charset.{IsPlain}
use soqucoin_sdk.Address.RoundTrip.{decode-encode}
use soqucoin_sdk.Address.Scripts.{script_for_lem}

abbrev sevens : ℕ → List ℕ
sevens zero = []
sevens (suc n) = 7 ∷ sevens n

sevens-fit : (n : ℕ) → All (FitsIn 8) (sevens n)
sevens-fit zero = tt
sevens-fit (suc n) = (omega arith, sevens-fit n)

main_hrp-IsPlain : All IsPlain (network_hrp mainnet)
unfolding lower
main_hrp-IsPlain = (
  record { small = refl; ascii = omega arith },
  (record { small = refl; ascii = omega arith }, tt),
)

decode-encode_example :
    (addr : List ℕ) × (encode (network_hrp mainnet) 1 (sevens 32) ≡ ok addr)
    × (decode (network_hrp mainnet) addr ≡ ok (record { wit_ver = 1; wit_prog = sevens 32 }))
decode-encode_example =
    decode-encode (network_hrp mainnet) (sevens 32) refl (omega arith) main_hrp-IsPlain refl
      (sevens-fit 32)

abbrev main_address : List ℕ
main_address = codes "sq1pqurswpc8qurswpc8qurswpc8qurswpc8qurswpc8qurswpc8qursna42fl"

main_address_script : script_for main_address ≡ ok (0x51 ∷ 0x20 ∷ sevens 32)
unfolding codes lower upper byte_len list_eq reverse_onto trim_left trim_space script_for network_of
    hrp_of check_parts split_last_one decode decode_parts read_values index_from check_values
    verify_checksum hrp_expand polymod polymod_from polymod_step strip_checksum read_program
    convert_bits convert_loop shift_in drain end_group check_program is_supported_witness_version
    witness_program
main_address_script = refl

-- The second character after the prefix is U+212A, which is no letter of the alphabet.
abbrev kelvin_address : List ℕ
kelvin_address = codes "SQ1PKQRSWPC8QURSWPC8QURSWPC8QURSWPC8QURSWPC8QURSWPC8QURS9VNS8K"

kelvin_address_decodes :
    decode (network_hrp mainnet) kelvin_address
    ≡ ok (record { wit_ver = 1; wit_prog = 0xb0 ∷ sevens 31 })
unfolding codes lower upper byte_len list_eq reverse_onto trim_left trim_space script_for network_of
    hrp_of check_parts split_last_one decode decode_parts read_values index_from check_values
    verify_checksum hrp_expand polymod polymod_from polymod_step strip_checksum read_program
    convert_bits convert_loop shift_in drain end_group check_program is_supported_witness_version
    witness_program
kelvin_address_decodes = refl

script_for_lem_example :
    (n : Network) × (p : Program) × (network_of main_address ≡ ok n)
    × (decode (network_hrp n) main_address ≡ ok p)
    × (0x51 ∷ 0x20 ∷ sevens 32 ≡ 0x51 ∷ 0x20 ∷ p.wit_prog)
    × (length p.wit_prog ≡ 32)
script_for_lem_example = script_for_lem main_address (0x51 ∷ 0x20 ∷ sevens 32) main_address_script

abbrev twelve_bits : BitState
twelve_bits = record { acc = 0xabc; bits = 12 }

drain-IsDrained_example :
    IsDrained 5 twelve_bits (drain 12 5 twelve_bits).0 (drain 12 5 twelve_bits).1
drain-IsDrained_example = drain-IsDrained 12 5 twelve_bits (omega arith) (omega arith)
