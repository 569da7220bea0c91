-- ===== src/Address/Checksum.antt =====
-- The checksum of address/bech32m.go: the one that createChecksum makes is one that verifyChecksum takes.
use Prim.Native.Nat.{bit_xor}
use mathlib.Core.List.{append_assoc}
use soqucoin_sdk.Prelude.{
  ℕ, ◌+◌, ◌*◌, ◌/◌, ◌%◌, ◌^◌, ◌<◌, ◌≡◌, refl, sym, ◌∙◌, ap, true, List, [], ◌∷◌, ◌++◌, arith,
  nat_eq, nat_eq_iff, Bool-cases, inl, inr,
}
use soqucoin_sdk.Address.{
  bech32m_const, xor_if, xor_gens, polymod_step, polymod_from, polymod, hrp_expand, verify_checksum,
  create_checksum,
}
use soqucoin_sdk.Address.Xor.{
  xor-zero, xor_assoc, xor_cancel, xor_swap, div-xor, mod-xor, mul-xor, xor_disjoint, xor-bound,
}

xor_if-xor : (b gen chk y : ℕ) → xor_if b gen (bit_xor chk y) ≡ bit_xor (xor_if b gen chk) y
xor_if-xor b gen chk y = elim (Bool-cases (nat_eq (b % 2) 1)) [
  | inl c ↦ rw c (xor_swap chk y gen)
  | inr c ↦ rw c refl
]

xor_gens-xor : (b chk y : ℕ) → xor_gens b (bit_xor chk y) ≡ bit_xor (xor_gens b chk) y
xor_gens-xor b chk y =
    let one = xor_if b 0x3b6a57b2 chk in
    let two = xor_if (b / 2) 0x26508e6d one in
    let three = xor_if (b / 4) 0x1ea119fa two in
    let four = xor_if (b / 8) 0x3d4233dd three in
    ap
      (λ x.
        xor_if (b / 16) 0x2a1462b3
          (xor_if (b / 8) 0x3d4233dd (xor_if (b / 4) 0x1ea119fa (xor_if (b / 2) 0x26508e6d x))))
      (xor_if-xor b 0x3b6a57b2 chk y)
    ∙ ap (λ x. xor_if (b / 16) 0x2a1462b3 (xor_if (b / 8) 0x3d4233dd (xor_if (b / 4) 0x1ea119fa x)))
        (xor_if-xor (b / 2) 0x26508e6d one y)
    ∙ ap (λ x. xor_if (b / 16) 0x2a1462b3 (xor_if (b / 8) 0x3d4233dd x))
        (xor_if-xor (b / 4) 0x1ea119fa two y)
    ∙ ap (xor_if (b / 16) 0x2a1462b3) (xor_if-xor (b / 8) 0x3d4233dd three y)
    ∙ xor_if-xor (b / 16) 0x2a1462b3 four y

-- A difference below the top five bits moves up by five, and takes the value in.
polymod_step-xor :
    (chk y d : ℕ)
    → y < 33554432
    → d < 32
    → polymod_step (bit_xor chk y) d ≡ bit_xor (polymod_step chk 0) (y * 32 + d)
unfolding polymod_step
polymod_step-xor chk y d h k =
    let low : y % 33554432 ≡ y = omega (arith, h) in
    let top : y / 33554432 ≡ 0 = omega (arith, h) in
    let high = div-xor 25 chk y ∙ ap (bit_xor (chk / 33554432)) top ∙ xor-zero (chk / 33554432) in
    let moved =
      ap (λ x. x * 32) (mod-xor 25 chk y ∙ ap (bit_xor (chk % 33554432)) low)
      ∙ mul-xor 5 (chk % 33554432) y in
    let base = chk % 33554432 * 32 in
    ap (λ b. xor_gens b (bit_xor (bit_xor chk y % 33554432 * 32) d)) high
    ∙ ap (λ x. xor_gens (chk / 33554432) (bit_xor x d)) moved
    ∙ ap (xor_gens (chk / 33554432))
        (xor_assoc base (y * 32) d ∙ ap (bit_xor base) (xor_disjoint 5 y d k))
    ∙ ap (λ x. xor_gens (chk / 33554432) (bit_xor x (y * 32 + d))) (sym (xor-zero base))
    ∙ xor_gens-xor (chk / 33554432) (bit_xor base 0) (y * 32 + d)

xor_if-bound : (b gen chk : ℕ) → gen < 2 ^ 30 → chk < 2 ^ 30 → xor_if b gen chk < 2 ^ 30
xor_if-bound b gen chk h k = elim (Bool-cases (nat_eq (b % 2) 1)) [
  | inl c ↦ rw c (xor-bound 30 chk gen k h)
  | inr c ↦ rw c k
]

polymod_step-bound : (chk : ℕ) → polymod_step chk 0 < 2 ^ 30
unfolding polymod_step
polymod_step-bound chk =
    let b = chk / 33554432 in
    let small = xor-bound 30 (chk % 33554432 * 32) 0 (omega arith) (omega arith) in
    xor_if-bound (b / 16) 0x2a1462b3 _ (omega arith) (
      xor_if-bound (b / 8) 0x3d4233dd _ (omega arith) (
        xor_if-bound (b / 4) 0x1ea119fa _ (omega arith) (
          xor_if-bound (b / 2) 0x26508e6d _ (omega arith)
            (xor_if-bound b 0x3b6a57b2 (bit_xor (chk % 33554432 * 32) 0) (omega arith) small))))

polymod_from-append :
    (chk : ℕ) (xs ys : List ℕ) → polymod_from chk (xs ++ ys) ≡ polymod_from (polymod_from chk xs) ys
unfolding polymod_from
polymod_from-append chk [] ys = refl
polymod_from-append chk (x ∷ xs) ys = polymod_from-append (polymod_step chk x) xs ys

abbrev zeros : List ℕ
zeros = 0 ∷ 0 ∷ 0 ∷ 0 ∷ 0 ∷ 0 ∷ []

abbrev digits_of : ℕ → List ℕ
digits_of s =
    (s / 33554432 % 32)
    ∷ (s / 1048576 % 32)
    ∷ (s / 32768 % 32)
    ∷ (s / 1024 % 32)
    ∷ (s / 32 % 32)
    ∷ (s % 32)
    ∷ []

-- A digit in place of a zero, after the higher digits of `w`.
take_digit :
    (chk y w : ℕ)
    → w < 2 ^ 30
    → w / 32 ≡ y
    → polymod_step (bit_xor chk y) (w % 32) ≡ bit_xor (polymod_step chk 0) w
take_digit chk y w h e =
    let sum : y * 32 + w % 32 ≡ w = omega (arith, e) in
    polymod_step-xor chk y (w % 32) (omega (arith, h, e)) (omega arith)
    ∙ ap (bit_xor (polymod_step chk 0)) sum

-- Six digits in place of six zeros: the number that they write is the difference.
polymod_from-digits_of :
    (chk s : ℕ) → s < 2 ^ 30 → polymod_from chk (digits_of s) ≡ bit_xor (polymod_from chk zeros) s
unfolding polymod_from
polymod_from-digits_of chk s h =
    let w1 = s / 33554432 in
    let w2 = s / 1048576 in
    let w3 = s / 32768 in
    let w4 = s / 1024 in
    let w5 = s / 32 in
    let a1 = polymod_step chk 0 in
    let a2 = polymod_step a1 0 in
    let a3 = polymod_step a2 0 in
    let a4 = polymod_step a3 0 in
    let e1 =
      ap (λ x. polymod_step x (w1 % 32)) (sym (xor-zero chk))
      ∙ take_digit chk 0 w1 (omega (arith, h)) (omega (arith, h)) in
    let e2 =
      ap (λ x. polymod_step x (w2 % 32)) e1
      ∙ take_digit a1 w1 w2 (omega (arith, h)) (omega arith) in
    let e3 =
      ap (λ x. polymod_step x (w3 % 32)) e2
      ∙ take_digit a2 w2 w3 (omega (arith, h)) (omega arith) in
    let e4 =
      ap (λ x. polymod_step x (w4 % 32)) e3
      ∙ take_digit a3 w3 w4 (omega (arith, h)) (omega arith) in
    let e5 =
      ap (λ x. polymod_step x (w5 % 32)) e4
      ∙ take_digit a4 w4 w5 (omega (arith, h)) (omega arith) in
    ap (λ x. polymod_step x (s % 32)) e5 ∙ take_digit (polymod_step a4 0) w5 s h (omega arith)

polymod_from-zeros_bound : (chk : ℕ) → polymod_from chk zeros < 2 ^ 30
unfolding polymod_from
polymod_from-zeros_bound chk =
    polymod_step-bound
      (polymod_step (polymod_step (polymod_step (polymod_step (polymod_step chk 0) 0) 0) 0) 0)

-- For any prefix and any values, the six values that are made for them complete them to a text whose
-- checksum is accepted.
pub verify_checksum-create_checksum :
    (hrp values : List ℕ) → verify_checksum hrp (values ++ create_checksum hrp values) ≡ true
unfolding verify_checksum create_checksum polymod
verify_checksum-create_checksum hrp values =
    let all = hrp_expand hrp ++ values in
    let chk = polymod_from 1 all in
    let target = polymod_from 1 (all ++ zeros) in
    let s = bit_xor target bech32m_const in
    let target_is : target ≡ polymod_from chk zeros = polymod_from-append 1 all zeros in
    let small : s < 2 ^ 30 =
      xor-bound 30 target bech32m_const (omega (arith, target_is, polymod_from-zeros_bound chk))
        (omega arith) in
    let result =
      ap (polymod_from 1) (sym (append_assoc (hrp_expand hrp) values (digits_of s)))
      ∙ polymod_from-append 1 all (digits_of s)
      ∙ polymod_from-digits_of chk s small
      ∙ ap (λ x. bit_xor x s) (sym target_is)
      ∙ xor_cancel target bech32m_const in
    (nat_eq_iff _ bech32m_const).1 result
