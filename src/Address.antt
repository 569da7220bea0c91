-- ===== src/Address.antt =====
-- address/bech32m.go. A text is a list of code points, a `[]byte` or `[]int` a list of numbers.
-- Shifts are multiplications and divisions, masks of low bits remainders, and `|` of disjoint
-- fields a sum.
pub mod Bits
mod Groups
mod Regroup
mod Xor
mod Checksum
mod Charset
mod RoundTrip
pub mod Scripts
mod Tests
use Prim.Native.Nat.{bit_xor}
use soqucoin_sdk.Prelude.{
  ℕ, zero, suc, ◌+◌, ◌-◌, ◌*◌, ◌/◌, ◌%◌, ◌^◌, Bool, true, false, not, ◌&&◌, ◌||◌, Option, none,
  some, List, [], ◌∷◌, ◌++◌, map, if◌then◌else◌, leb, ltb, nat_eq, is_empty, length,
}
use soqucoin_sdk.Errors.{
  invalid_checksum, invalid_length, invalid_hrp, invalid_char, invalid_version,
  unsupported_witness_version, Error,
}
use soqucoin_sdk.Result.{Result, ok, error, ◌>>=◌}
use soqucoin_sdk.Text.{lower, upper, byte_len, list_eq, trim_space}

abbrev pub bech32m_const : ℕ
bech32m_const = 0x2bc830a3

abbrev pub witness_program_size : ℕ
witness_program_size = 32

abbrev pub max_address_length : ℕ
max_address_length = 90

unfoldable pub is_supported_witness_version : ℕ → Bool
is_supported_witness_version wit_ver = nat_eq wit_ver 1

-- "qpzry9x8gf2tvdw0s3jn54khce6mua7l"
abbrev pub charset : List ℕ
charset =
    113 ∷ 112 ∷ 122 ∷ 114 ∷ 121 ∷ 57 ∷ 120 ∷ 56 ∷ 103 ∷ 102 ∷ 50 ∷ 116 ∷ 118 ∷ 100 ∷ 119 ∷ 48 ∷ 115
    ∷ 51 ∷ 106 ∷ 110 ∷ 53 ∷ 52 ∷ 107 ∷ 104 ∷ 99 ∷ 101 ∷ 54 ∷ 109 ∷ 117 ∷ 97 ∷ 55 ∷ 108 ∷ []

unfoldable pub char_at : List ℕ → ℕ → ℕ
char_at [] d = 0
char_at (c ∷ cs) zero = c
char_at (c ∷ cs) (suc d) = char_at cs d

-- charsetRev, from the index of the list's head; `none` is its -1, and a code above 127.
unfoldable pub index_from : ℕ → List ℕ → ℕ → Option ℕ
index_from n [] c = none
index_from n (x ∷ xs) c = if nat_eq x c then some n else index_from (n + 1) xs c

abbrev pub xor_if : ℕ → ℕ → ℕ → ℕ
xor_if b gen chk = if nat_eq (b % 2) 1 then bit_xor chk gen else chk

abbrev pub xor_gens : ℕ → ℕ → ℕ
xor_gens b chk = xor_if (b / 16) 0x2a1462b3 (
    xor_if (b / 8) 0x3d4233dd
      (xor_if (b / 4) 0x1ea119fa (xor_if (b / 2) 0x26508e6d (xor_if b 0x3b6a57b2 chk))))

unfoldable pub polymod_step : ℕ → ℕ → ℕ
polymod_step chk v = xor_gens (chk / 33554432) (bit_xor (chk % 33554432 * 32) v)

unfoldable pub polymod_from : ℕ → List ℕ → ℕ
polymod_from chk [] = chk
polymod_from chk (v ∷ vs) = polymod_from (polymod_step chk v) vs

unfoldable pub polymod : List ℕ → ℕ
polymod values = polymod_from 1 values

unfoldable pub hrp_expand : List ℕ → List ℕ
hrp_expand hrp = map (λ c. c / 32) hrp ++ 0 ∷ map (λ c. c % 32) hrp

unfoldable pub verify_checksum : List ℕ → List ℕ → Bool
verify_checksum hrp data_ = nat_eq (polymod (hrp_expand hrp ++ data_)) bech32m_const

unfoldable pub create_checksum : List ℕ → List ℕ → List ℕ
create_checksum hrp values =
    let sum =
      bit_xor (polymod ((hrp_expand hrp ++ values) ++ 0 ∷ 0 ∷ 0 ∷ 0 ∷ 0 ∷ 0 ∷ [])) bech32m_const in
    (sum / 33554432 % 32)
    ∷ (sum / 1048576 % 32)
    ∷ (sum / 32768 % 32)
    ∷ (sum / 1024 % 32)
    ∷ (sum / 32 % 32)
    ∷ (sum % 32)
    ∷ []

-- What convertBits carries: `acc` is an int, which wraps, and a mask of low bits reads it only.
pub record BitState : Type 0 where
  pub acc : ℕ
  pub bits : ℕ

-- for bits >= toBits; each round takes `to_bits` off, so `bits` rounds are enough.
unfoldable pub drain : ℕ → ℕ → BitState → BitState × List ℕ
drain zero to_bits s = (s, [])
drain (suc fuel) to_bits s =
    let left = s.bits - to_bits in
    let (end, out) = drain fuel to_bits (record s { bits = left }) in
    if leb to_bits s.bits then (end, (s.acc / 2 ^ left % 2 ^ to_bits) ∷ out) else (s, [])

unfoldable pub shift_in : ℕ → ℕ → BitState → BitState
shift_in from_bits d s = record {
  acc = (s.acc * 2 ^ from_bits + d) % 2 ^ 64;
  bits = s.bits + from_bits;
}

-- The loop over the data; `none` is a value out of range.
unfoldable pub convert_loop : ℕ → ℕ → List ℕ → BitState → Option (BitState × List ℕ)
convert_loop from_bits to_bits [] s = some (s, [])
convert_loop from_bits to_bits (d ∷ ds) s =
    let shifted = shift_in from_bits d s in
    let (drained, out) = drain shifted.bits to_bits shifted in
    if leb (2 ^ from_bits) d then none else elim (convert_loop from_bits to_bits ds drained) [
      | none ↦ none
      | some (end, rest) ↦ some (end, out ++ rest)
    ]

-- The bits that are left, at the top of a last group.
abbrev pub last_group : ℕ → BitState → ℕ
last_group to_bits s = s.acc * 2 ^ (to_bits - s.bits) % 2 ^ to_bits

unfoldable pub end_group : ℕ → ℕ → Bool → BitState × List ℕ → Result (List ℕ)
end_group from_bits to_bits true (s, out) =
    if ltb 0 s.bits then ok (out ++ (last_group to_bits s ∷ [])) else ok out
end_group from_bits to_bits false (s, out) =
    if leb from_bits s.bits || not (nat_eq (last_group to_bits s) 0) then error [] else ok out

abbrev pub end_convert : ℕ → ℕ → Bool → Option (BitState × List ℕ) → Result (List ℕ)
end_convert from_bits to_bits pad none = error []
end_convert from_bits to_bits pad (some r) = end_group from_bits to_bits pad r

unfoldable pub convert_bits : List ℕ → ℕ → ℕ → Bool → Result (List ℕ)
convert_bits data_ from_bits to_bits pad =
    end_convert from_bits to_bits pad
      (convert_loop from_bits to_bits data_ (record { acc = 0; bits = 0 }))

-- The text before the last '1', and the text after it.
unfoldable pub split_last_one : List ℕ → Option (List ℕ × List ℕ)
split_last_one [] = none
split_last_one (c ∷ cs) = elim (split_last_one cs) [
  | some (before, after) ↦ some (c ∷ before, after)
  | none ↦ if nat_eq c 49 then some ([], cs) else none
]

-- `pos < 1 || pos+7 > len(addr)`
unfoldable pub check_parts : Option (List ℕ × List ℕ) → Result (List ℕ × List ℕ)
check_parts none = error (invalid_hrp ∷ [])
check_parts (some (hrp, rest)) =
    if is_empty hrp || ltb (byte_len rest) 6 then error (invalid_hrp ∷ []) else ok (hrp, rest)

abbrev pub cons_value : Option ℕ → Result (List ℕ) → Result (List ℕ)
cons_value none rest = error (invalid_char ∷ [])
cons_value (some v) (error e) = error e
cons_value (some v) (ok vs) = ok (v ∷ vs)

unfoldable pub read_values : List ℕ → Result (List ℕ)
read_values [] = ok []
read_values (c ∷ cs) = cons_value (index_from 0 charset c) (read_values cs)

-- data[:len(data)-6]
unfoldable pub strip_checksum : List ℕ → List ℕ
strip_checksum [] = []
strip_checksum (v ∷ vs) = let rest = strip_checksum vs in if leb 6 (length vs) then v ∷ rest else []

pub record Program : Type 0 where
  pub wit_ver : ℕ
  pub wit_prog : List ℕ

unfoldable pub check_program : ℕ → List ℕ → Result Program
check_program wit_ver wit_prog =
    if not (is_supported_witness_version wit_ver)
    then error (unsupported_witness_version ∷ [])
    else if nat_eq (length wit_prog) witness_program_size
    then ok (record { wit_ver = wit_ver; wit_prog = wit_prog })
    else error (invalid_length ∷ [])

unfoldable pub read_program : List ℕ → Result Program
read_program [] = error (invalid_length ∷ [])
read_program (v ∷ vs) = convert_bits vs 5 8 false >>= λ wit_prog. check_program v wit_prog

unfoldable pub check_values : List ℕ → List ℕ → Result Program
check_values hrp values =
    if verify_checksum hrp values
    then read_program (strip_checksum values)
    else error (invalid_checksum ∷ [])

unfoldable pub decode_parts : List ℕ → List ℕ × List ℕ → Result Program
decode_parts hrp (got_hrp, rest) =
    if list_eq got_hrp (map lower hrp)
    then (read_values rest >>= λ values. check_values got_hrp values)
    else error (invalid_hrp ∷ [])

unfoldable pub decode : List ℕ → List ℕ → Result Program
decode hrp addr =
    if ltb max_address_length (byte_len addr)
    then error (invalid_length ∷ [])
    else if not (list_eq (map lower addr) addr) && not (list_eq (map upper addr) addr)
    then error (invalid_char ∷ [])
    else check_parts (split_last_one (map lower addr)) >>= λ parts. decode_parts hrp parts

unfoldable pub write_values : List ℕ → List ℕ → List ℕ
write_values hrp values =
    map lower hrp ++ 49 ∷ map (char_at charset) (values ++ create_checksum (map lower hrp) values)

unfoldable pub encode : List ℕ → ℕ → List ℕ → Result (List ℕ)
encode hrp wit_ver wit_prog =
    if ltb 16 wit_ver
    then error (invalid_version ∷ [])
    else convert_bits wit_prog 8 5 true >>= λ groups. ok (write_values hrp (wit_ver ∷ groups))

-- WitnessProgram; `none` is nil.
unfoldable pub witness_program : Program → Option (List ℕ)
witness_program p =
    if is_supported_witness_version p.wit_ver && nat_eq (length p.wit_prog) witness_program_size
    then some (
        (if nat_eq p.wit_ver 0 then 0 else 0x50 + p.wit_ver)
        ∷ (length p.wit_prog % 256)
        ∷ p.wit_prog)
    else none

unfoldable pub validate : List ℕ → List ℕ → Option Error
validate hrp addr = elim (decode hrp addr) [ ok p ↦ none | error e ↦ some e ]

unfoldable pub hrp_of : List ℕ → Result (List ℕ)
hrp_of addr = check_parts (split_last_one (map lower (trim_space addr))) >>= λ parts. ok parts.0

-- types.Network: what an address tells of it.
pub data Network : Type 0 where
  mainnet stagenet : Network

-- "sq" and "ssq"; regtest has the prefix of the main network.
abbrev pub network_hrp : Network → List ℕ
network_hrp mainnet = 115 ∷ 113 ∷ []
network_hrp stagenet = 115 ∷ 115 ∷ 113 ∷ []

unfoldable pub network_of : List ℕ → Result Network
network_of addr = hrp_of addr >>= λ hrp.
    if list_eq hrp (network_hrp mainnet)
    then ok mainnet
    else if list_eq hrp (network_hrp stagenet)
    then ok stagenet
    else error (invalid_hrp ∷ [])

abbrev pub or_nil : Option (List ℕ) → List ℕ
or_nil none = []
or_nil (some script) = script

unfoldable pub script_for : List ℕ → Result (List ℕ)
script_for addr =
    network_of addr >>= λ n. decode (network_hrp n) addr >>= λ p. ok (or_nil (witness_program p))
