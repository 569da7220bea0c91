-- ===== src/Address/RoundTrip.antt =====
-- The round trip of an address: Encode and Decode of address/bech32m.go.
use soqucoin_sdk.Prelude.{
  ℕ, ◌+◌, ◌≤◌, ◌<◌, ◌≡◌, refl, ◌∙◌, true, false, some, List, [], ◌∷◌, ◌++◌, map, length,
  length-append, arith, All, is_empty, ltb,
}
use soqucoin_sdk.Result.{ok}
use soqucoin_sdk.Text.{lower, byte_len, list_eq}
use soqucoin_sdk.Address.{
  charset, char_at, convert_bits, create_checksum, verify_checksum, split_last_one, check_parts,
  strip_checksum, check_program, read_program, check_values, decode_parts, decode, write_values,
  encode, is_supported_witness_version,
}
use soqucoin_sdk.Address.Groups.{FitsIn, All-append}
use soqucoin_sdk.Address.Regroup.{convert_bits_roundtrip}
use soqucoin_sdk.Address.Checksum.{verify_checksum-create_checksum}
use soqucoin_sdk.Address.Charset.{
  IsPlain, read_values-char_at, split_last_one-text, map-lower_lem, byte_len-plain, text-IsPlain,
}

list_eq_same : (xs : List ℕ) → list_eq xs xs ≡ true
unfolding list_eq
list_eq_same [] = refl
list_eq_same (x ∷ xs) = ground (arith, list_eq_same xs)

strip_checksum-append : (xs ys : List ℕ) → length ys ≡ 6 → strip_checksum (xs ++ ys) ≡ xs
unfolding strip_checksum
strip_checksum-append [] [] h = refl
strip_checksum-append [] (y ∷ ys) h = ground (arith, h)
strip_checksum-append (x ∷ xs) ys h =
    ground (arith, h, length-append xs ys, strip_checksum-append xs ys h)

create_checksum-fits :
    (hrp vs : List ℕ)
    → All (FitsIn 5) (create_checksum hrp vs) × (length (create_checksum hrp vs) ≡ 6)
unfolding create_checksum
create_checksum-fits hrp vs = (
  (omega arith, (omega arith, (omega arith, (omega arith, (omega arith, (omega arith, tt)))))),
  refl,
)

length-map-char_at : (vs : List ℕ) → length (map (char_at charset) vs) ≡ length vs
length-map-char_at [] = refl
length-map-char_at (v ∷ vs) = omega (arith, length-map-char_at vs)

All-IsPlain_append : (xs ys : List ℕ) → All IsPlain xs → All IsPlain ys → All IsPlain (xs ++ ys)
All-IsPlain_append xs ys h k = All-append IsPlain xs ys h k

one-IsPlain : IsPlain 49
unfolding lower
one-IsPlain = record { small = refl; ascii = omega arith }

decode_text :
    (hrp vs : List ℕ)
    → is_empty hrp ≡ false
    → All IsPlain hrp
    → All (FitsIn 5) vs
    → 6 ≤ length vs
    → length hrp + length vs < 90
    → decode hrp (hrp ++ 49 ∷ map (char_at charset) vs) ≡ check_values hrp vs
unfolding decode check_parts decode_parts
decode_text hrp vs e plain fit six short =
    let body = map (char_at charset) vs in
    let text = hrp ++ 49 ∷ body in
    let body_plain = text-IsPlain vs fit in
    let text_plain : All IsPlain text =
      All-IsPlain_append hrp (49 ∷ body) plain (one-IsPlain, body_plain) in
    let small : map lower text ≡ text = map-lower_lem text text_plain in
    let long : ltb 90 (byte_len text) ≡ false = ground (
      arith,
      byte_len-plain text text_plain,
      length-append hrp (49 ∷ body),
      length-map-char_at vs,
      short,
    ) in
    let enough : ltb (byte_len body) 6 ≡ false =
      ground (arith, byte_len-plain body body_plain, length-map-char_at vs, six) in
    let same : list_eq text text ≡ true = list_eq_same text in
    let split : split_last_one text ≡ some (hrp, body) = split_last_one-text hrp vs fit in
    let lower_hrp : map lower hrp ≡ hrp = map-lower_lem hrp plain in
    rw long (
      rw small (
        rw same (
          rw split (
            rw e (
              rw enough
                (rw lower_hrp (rw (list_eq_same hrp) (rw (read_values-char_at vs fit) refl))))))))

check_values-made :
    (hrp g wit_prog : List ℕ)
    → convert_bits g 5 8 false ≡ ok wit_prog
    → length wit_prog ≡ 32
    → check_values hrp ((1 ∷ g) ++ create_checksum hrp (1 ∷ g))
      ≡ ok (record { wit_ver = 1; wit_prog = wit_prog })
unfolding check_values read_program check_program is_supported_witness_version
check_values-made hrp g wit_prog back size =
    let (fits, six) = create_checksum-fits hrp (1 ∷ g) in
    let verified : verify_checksum hrp ((1 ∷ g) ++ create_checksum hrp (1 ∷ g)) ≡ true =
      verify_checksum-create_checksum hrp (1 ∷ g) in
    let stripped : strip_checksum ((1 ∷ g) ++ create_checksum hrp (1 ∷ g)) ≡ 1 ∷ g =
      strip_checksum-append (1 ∷ g) (create_checksum hrp (1 ∷ g)) six in
    rw verified (rw stripped (rw back (rw size refl)))

-- An address that Encode makes decodes to the version and the program that it was made of, for the one
-- version that is spendable, a program of 32 bytes, and any prefix of up to 30 ASCII characters with no
-- capital letter.
pub decode-encode :
    (hrp wit_prog : List ℕ)
    → is_empty hrp ≡ false
    → length hrp ≤ 30
    → All IsPlain hrp
    → length wit_prog ≡ 32
    → All (FitsIn 8) wit_prog
    → (addr : List ℕ) × (encode hrp 1 wit_prog ≡ ok addr)
      × (decode hrp addr ≡ ok (record { wit_ver = 1; wit_prog = wit_prog }))
unfolding encode write_values
decode-encode hrp wit_prog e short plain size fit =
    let (g, made, g_fit, g_few, back) = convert_bits_roundtrip wit_prog fit in
    let all = (1 ∷ g) ++ create_checksum hrp (1 ∷ g) in
    let (sum_fits, six) = create_checksum-fits hrp (1 ∷ g) in
    let fits : All (FitsIn 5) all =
      All-append (FitsIn 5) (1 ∷ g) (create_checksum hrp (1 ∷ g)) (omega arith, g_fit) sum_fits in
    let count : length all ≡ 1 + length g + 6 =
      omega (arith, length-append (1 ∷ g) (create_checksum hrp (1 ∷ g)), six) in
    let made_text : encode hrp 1 wit_prog ≡ ok (hrp ++ 49 ∷ map (char_at charset) all) =
      rw made (rw (map-lower_lem hrp plain) refl) in
    (
      hrp ++ 49 ∷ map (char_at charset) all,
      made_text,
      decode_text hrp all e plain fits (omega (arith, count))
            (omega (arith, count, short, g_few, size))
          ∙ check_values-made hrp g wit_prog back size,
    )
