-- ===== src/Address/Regroup.antt =====
-- convertBits of address/bech32m.go from bytes to groups of five bits and back.
use mathlib.Core.List.{append_assoc, append-nil}
use native.Mathlib.Nat.{mod-lt, mod-eq_of_lt}
use soqucoin_sdk.Prelude.{
  ℕ, ◌+◌, ◌-◌, ◌*◌, ◌%◌, ◌^◌, ◌≤◌, ◌<◌, ◌≡◌, refl, sym, ◌∙◌, ap, true, false, List, [], ◌∷◌, ◌++◌,
  length, length-append, arith, All, ltb, inl, inr, Bool-cases,
}
use soqucoin_sdk.Result.{ok}
use soqucoin_sdk.Text.{reverse_onto, reverse}
use soqucoin_sdk.Address.{BitState, last_group, end_group, end_convert, convert_bits}
use soqucoin_sdk.Address.Bits.{lsb, length-lsb, lsb_mod, lsb_shift, lsb_injective, head, tail}
use soqucoin_sdk.Address.Groups.{
  group_bits, FitsIn, pow_positive, reverse_onto-append, All-append, IsConverted,
  convert_loop-IsConverted,
}

-- The last group has the bits that are left above zeros.
last_group-bits :
    (to_bits : ℕ) (s : BitState)
    → s.bits ≤ to_bits
    → lsb to_bits (last_group to_bits s) ≡ lsb (to_bits - s.bits) 0 ++ lsb s.bits s.acc
last_group-bits to_bits s h =
    let up = to_bits - s.bits in
    let sum : to_bits ≡ up + s.bits = omega (arith, h) in
    let same : s.acc * 2 ^ up ≡ s.acc * 2 ^ up + 0 = omega arith in
    lsb_mod to_bits to_bits (s.acc * 2 ^ up) (omega arith)
    ∙ ap (λ n. lsb n (s.acc * 2 ^ up)) sum
    ∙ ap (lsb (up + s.bits)) same
    ∙ lsb_shift up s.bits s.acc 0 (pow_positive up)

-- Groups of five with the bits of the bytes, and fewer than five zeros after them.
record IsPadded (ds g : List ℕ) : Type 0 where
  pad : ℕ
  few : pad < 5
  fit : All (FitsIn 5) g
  bits : group_bits 5 (reverse g) ≡ lsb pad 0 ++ group_bits 8 (reverse ds)

end_group-IsPadded :
    (ds : List ℕ) (s : BitState) (out : List ℕ)
    → s.bits < 5
    → All (FitsIn 5) out
    → group_bits 8 (reverse ds) ≡ lsb s.bits s.acc ++ group_bits 5 (reverse out)
    → (g : List ℕ) × (end_group 8 5 true (s, out) ≡ ok g) × IsPadded ds g
unfolding end_group reverse_onto
end_group-IsPadded ds s out few fit same = elim (Bool-cases (ltb 0 s.bits)) [
  | inr b ↦ (
    out,
    rw b refl,
    record {
      pad = 0;
      few = omega arith;
      fit = fit;
      bits =
          let none_left : 0 ≡ s.bits = ground (arith, b) in
          sym (same ∙ ap (λ n. lsb n s.acc ++ group_bits 5 (reverse out)) (sym none_left));
    },
  )
  | inl b ↦ (
    out ++ (last_group 5 s ∷ []),
    rw b refl,
    record {
      pad = 5 - s.bits;
      few = ground (arith, b);
      fit =
          All-append (FitsIn 5) out (last_group 5 s ∷ []) fit
            (mod-lt (s.acc * 2 ^ (5 - s.bits)) (pow_positive 5), tt);
      bits =
          ap (group_bits 5) (reverse_onto-append [] out (last_group 5 s ∷ []))
          ∙ ap (λ bs. bs ++ group_bits 5 (reverse out)) (last_group-bits 5 s (omega arith))
          ∙ append_assoc (lsb (5 - s.bits) 0) (lsb s.bits s.acc) (group_bits 5 (reverse out))
          ∙ ap (λ bs. lsb (5 - s.bits) 0 ++ bs) (sym same);
    },
  )
]

-- Lists of equal lengths that start two equal appendings are equal, and so are the rests.
append_injective :
    (xs ys us vs : List ℕ) → length xs ≡ length ys → xs ++ us ≡ ys ++ vs → (xs ≡ ys) × (us ≡ vs)
append_injective [] [] us vs h e = (refl, e)
append_injective [] (y ∷ ys) us vs h e = absurd (omega (arith, h))
append_injective (x ∷ xs) [] us vs h e = absurd (omega (arith, h))
append_injective (x ∷ xs) (y ∷ ys) us vs h e =
    let (same, rest) = append_injective xs ys us vs (omega (arith, h)) (ap tail e) in
    (ap (λ zs. x ∷ zs) same ∙ ap (λ z. z ∷ ys) (ap (head 0) e), rest)

length-group_bits : (k : ℕ) (xs : List ℕ) → length (group_bits k xs) ≡ k * length xs
length-group_bits k [] = omega arith
length-group_bits k (x ∷ xs) =
    grind (arith, length-append (lsb k x) (group_bits k xs), length-lsb k x, length-group_bits k xs)

mod_small : (k x : ℕ) → FitsIn k x → x % 2 ^ k ≡ x
mod_small k x h = mod-eq_of_lt h

group_bits-injective :
    (k : ℕ) (xs ys : List ℕ)
    → length xs ≡ length ys
    → All (FitsIn k) xs
    → All (FitsIn k) ys
    → group_bits k xs ≡ group_bits k ys
    → xs ≡ ys
group_bits-injective k [] [] h p q e = refl
group_bits-injective k [] (y ∷ ys) h p q e = absurd (omega (arith, h))
group_bits-injective k (x ∷ xs) [] h p q e = absurd (omega (arith, h))
group_bits-injective k (x ∷ xs) (y ∷ ys) h p q e =
    let (first, rest) =
      append_injective (lsb k x) (lsb k y) (group_bits k xs) (group_bits k ys)
        (length-lsb k x ∙ sym (length-lsb k y)) e in
    let same = sym (mod_small k x p.0) ∙ lsb_injective k x y first ∙ mod_small k y q.0 in
    ap (λ z. z ∷ xs) same
    ∙ ap (λ zs. y ∷ zs) (group_bits-injective k xs ys (omega (arith, h)) p.1 q.1 rest)

All-reverse_onto {κ} :
    (P : ℕ → Type κ) (ys xs : List ℕ) → All P ys → All P xs → All P (reverse_onto ys xs)
unfolding reverse_onto
All-reverse_onto P ys [] h k = h
All-reverse_onto P ys (x ∷ xs) h k = All-reverse_onto P (x ∷ ys) xs (k.0, h) k.1

length-reverse_onto : (ys xs : List ℕ) → length (reverse_onto ys xs) ≡ length ys + length xs
unfolding reverse_onto
length-reverse_onto ys [] = omega arith
length-reverse_onto ys (x ∷ xs) = omega (arith, length-reverse_onto (x ∷ ys) xs)

reverse_onto-twice :
    (xs ys zs : List ℕ) → reverse_onto zs (reverse_onto ys xs) ≡ reverse_onto (xs ++ zs) ys
unfolding reverse_onto
reverse_onto-twice [] ys zs = refl
reverse_onto-twice (x ∷ xs) ys zs = reverse_onto-twice xs (x ∷ ys) zs

reverse_injective : (xs ys : List ℕ) → reverse xs ≡ reverse ys → xs ≡ ys
unfolding reverse_onto
reverse_injective xs ys e =
    sym (append-nil xs)
    ∙ sym (reverse_onto-twice xs [] [])
    ∙ ap reverse e
    ∙ reverse_onto-twice ys [] []
    ∙ append-nil ys

-- What regrouping by eights finds in padded groups: the bytes, and the padding left.
regrouped :
    (ds g : List ℕ) (p : IsPadded ds g) (c : IsConverted 5 8 g (record { acc = 0; bits = 0 }))
    → All (FitsIn 8) ds
    → (c.end.bits ≡ p.pad) × (lsb c.end.bits c.end.acc ≡ lsb c.end.bits 0) × (c.out ≡ ds)
regrouped ds g p c fit =
    let before = group_bits 8 (reverse ds) in
    let after = group_bits 8 (reverse c.out) in
    let all = sym p.bits ∙ c.same_bits [] [] refl in
    let total : p.pad + 8 * length (reverse ds) ≡ c.end.bits + 8 * length (reverse c.out) = omega (
      arith,
      ap (λ (bs : List ℕ). length bs) all,
      length-append (lsb p.pad 0) before,
      length-lsb p.pad 0,
      length-append (lsb c.end.bits c.end.acc) after,
      length-lsb c.end.bits c.end.acc,
      length-group_bits 8 (reverse ds),
      length-group_bits 8 (reverse c.out),
    ) in
    let left : c.end.bits ≡ p.pad = omega (arith, total, p.few, c.few_left) in
    let count : length (reverse ds) ≡ length (reverse c.out) =
      omega (arith, total, p.few, c.few_left) in
    let (pads, bytes) =
      append_injective (lsb p.pad 0) (lsb c.end.bits c.end.acc) before after
        (length-lsb p.pad 0 ∙ sym left ∙ sym (length-lsb c.end.bits c.end.acc)) all in
    let same =
      group_bits-injective 8 (reverse ds) (reverse c.out) count
        (All-reverse_onto (FitsIn 8) [] ds tt fit)
        (All-reverse_onto (FitsIn 8) [] c.out tt c.out_fit) bytes in
    (left, sym pads ∙ ap (λ n. lsb n 0) (sym left), sym (reverse_injective ds c.out same))

last_group-zero : (s : BitState) → s.bits < 8 → lsb s.bits s.acc ≡ lsb s.bits 0 → last_group 8 s ≡ 0
last_group-zero s few zeros =
    let up = 8 - s.bits in
    let sum : up + s.bits ≡ 8 = omega (arith, few) in
    let zero_is : 0 * 2 ^ up + 0 ≡ 0 = omega arith in
    let bits =
      last_group-bits 8 s (omega arith)
      ∙ ap (λ bs. lsb up 0 ++ bs) zeros
      ∙ sym (lsb_shift up s.bits 0 0 (pow_positive up))
      ∙ ap (λ n. lsb n (0 * 2 ^ up + 0)) sum
      ∙ ap (lsb 8) zero_is in
    sym (mod_small 8 (last_group 8 s) (mod-lt (s.acc * 2 ^ up) (pow_positive 8)))
    ∙ lsb_injective 8 (last_group 8 s) 0 bits

end_group-back :
    (s : BitState) (out : List ℕ)
    → s.bits < 5
    → lsb s.bits s.acc ≡ lsb s.bits 0
    → end_group 5 8 false (s, out) ≡ ok out
unfolding end_group
end_group-back s out few zeros = ground (arith, last_group-zero s (omega arith) zeros)

padded_length : (ds g : List ℕ) → IsPadded ds g → 5 * length g < 8 * length ds + 5
padded_length ds g p =
    let bytes = group_bits 8 (reverse ds) in
    omega (
      arith,
      ap (λ (bs : List ℕ). length bs) p.bits,
      p.few,
      length-append (lsb p.pad 0) bytes,
      length-lsb p.pad 0,
      length-group_bits 5 (reverse g),
      length-group_bits 8 (reverse ds),
      length-reverse_onto [] g,
      length-reverse_onto [] ds,
    )

-- Bytes always convert to groups of five bits, with padding, that are the fewest that hold them, and
-- these always convert back, without padding, to the same bytes.
pub convert_bits_roundtrip :
    (ds : List ℕ)
    → All (FitsIn 8) ds
    → (g : List ℕ) × (convert_bits ds 8 5 true ≡ ok g)
      × All (FitsIn 5) g
      × (5 * length g < 8 * length ds + 5)
      × (convert_bits g 5 8 false ≡ ok ds)
unfolding convert_bits
convert_bits_roundtrip ds fit =
    let start : BitState = record { acc = 0; bits = 0 } in
    let there =
      convert_loop-IsConverted 8 5 ds start (omega arith) (omega arith) fit (omega arith) in
    let (g, grouped, padded) =
      end_group-IsPadded ds there.end there.out there.few_left there.out_fit
        (there.same_bits [] [] refl) in
    let back =
      convert_loop-IsConverted 5 8 g start (omega arith) (omega arith) padded.fit (omega arith) in
    let (left, zeros, same) = regrouped ds g padded back fit in
    (
      g,
      ap (end_convert 8 5 true) there.converts ∙ grouped,
      padded.fit,
      padded_length ds g padded,
      ap (end_convert 5 8 false) back.converts
          ∙ end_group-back back.end back.out (omega (arith, left, padded.few)) zeros
          ∙ ap ok same,
    )
