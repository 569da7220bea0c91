-- ===== src/Address/Scripts.antt =====
-- What Decode, Validate and ScriptFor of address/bech32m.go accept, and the script that they give.
use soqucoin_sdk.Prelude.{
  ℕ, ◌≡◌, sym, ◌∙◌, Bool, true, false, List, [], ◌∷◌, length, arith, ltb, if◌then◌else◌,
}
use soqucoin_sdk.Errors.{Error}
use soqucoin_sdk.Result.{Result, ok, error, bind_ok, unguarded, ok_injective}
use soqucoin_sdk.Text.{byte_len, list_eq}
use soqucoin_sdk.Address.{
  Program, Network, check_parts, check_program, read_program, check_values, decode_parts, decode,
  convert_bits, witness_program, network_of, network_hrp, script_for, or_nil,
  is_supported_witness_version, read_values, strip_checksum, verify_checksum,
}

abbrev pub IsSpendable : Program → Type 0
IsSpendable p = (p.wit_ver ≡ 1) × (length p.wit_prog ≡ 32)

unless_error :
    (b : Bool) (e : Error) (r : Result Program) {p : Program}
    → (if b then r else error e) ≡ ok p
    → r ≡ ok p
unless_error true e r h = h
unless_error false e r h = absurd cc

check_program-IsSpendable :
    (v : ℕ) (bytes : List ℕ) {p : Program} → check_program v bytes ≡ ok p → IsSpendable p
unfolding check_program is_supported_witness_version
check_program-IsSpendable v bytes h = ground (arith, h)

read_program-IsSpendable : (vs : List ℕ) {p : Program} → read_program vs ≡ ok p → IsSpendable p
unfolding read_program
read_program-IsSpendable [] h = absurd cc
read_program-IsSpendable (v ∷ vs) h =
    let (bytes, _, checked) = bind_ok (convert_bits vs 5 8 false) _ h in
    check_program-IsSpendable v bytes checked

decode_parts-IsSpendable :
    (hrp : List ℕ) (parts : List ℕ × List ℕ) {p : Program}
    → decode_parts hrp parts ≡ ok p
    → IsSpendable p
unfolding decode_parts check_values
decode_parts-IsSpendable hrp (got, rest) h =
    let (values, _, e) = bind_ok (read_values rest) _ (unless_error (list_eq got _) _ _ h) in
    read_program-IsSpendable (strip_checksum values)
      (unless_error (verify_checksum got values) _ _ e)

pub decode-IsSpendable : (hrp addr : List ℕ) {p : Program} → decode hrp addr ≡ ok p → IsSpendable p
unfolding decode
decode-IsSpendable hrp addr h =
    let (_, e1) = unguarded (ltb 90 (byte_len addr)) _ _ h in
    let (_, e2) = unguarded _ _ _ e1 in
    let (parts, _, e3) = bind_ok (check_parts _) _ e2 in decode_parts-IsSpendable hrp parts e3

witness_program-spendable :
    (p : Program) → IsSpendable p → or_nil (witness_program p) ≡ 0x51 ∷ 0x20 ∷ p.wit_prog
unfolding witness_program is_supported_witness_version
witness_program-spendable p h = ground (arith, h)

-- A script that ScriptFor gives is never empty: it is the witness version 1, a push of 32 bytes, and the
-- 32 bytes that the address decodes to on the network that its prefix names.
pub script_for_lem :
    (addr script : List ℕ)
    → script_for addr ≡ ok script
    → (n : Network) × (p : Program) × (network_of addr ≡ ok n)
      × (decode (network_hrp n) addr ≡ ok p)
      × (script ≡ 0x51 ∷ 0x20 ∷ p.wit_prog)
      × (length p.wit_prog ≡ 32)
unfolding script_for
script_for_lem addr script h =
    let (n, named, e) = bind_ok (network_of addr) _ h in
    let (p, decoded, e1) = bind_ok (decode (network_hrp n) addr) _ e in
    let spendable = decode-IsSpendable (network_hrp n) addr decoded in
    (
      n,
      p,
      named,
      decoded,
      sym (ok_injective e1) ∙ witness_program-spendable p spendable,
      spendable.1,
    )
