-- ===== src/Address/Groups.antt =====
-- convertBits of address/bech32m.go keeps the bits: its invariant, the bound of its inner loop, and what
-- its padding adds.
use mathlib.Core.List.{append_assoc}
use native.Mathlib.Nat.{mod-lt, pow-succ'}
use soqucoin_sdk.Prelude.{
  ℕ, zero, suc, ◌+◌, ◌-◌, ◌*◌, ◌/◌, ◌%◌, ◌^◌, ◌≤◌, ◌<◌, ◌≡◌, refl, sym, ◌∙◌, ap, false, some, List,
  [], ◌∷◌, ◌++◌, arith, All, leb, inl, inr, Bool-cases,
}
use soqucoin_sdk.Text.{reverse_onto}
use soqucoin_sdk.Address.{BitState, drain, shift_in, convert_loop}
use soqucoin_sdk.Address.Bits.{lsb, lsb_add, lsb_mod, lsb_shift}

-- The bits of groups of `k`, the last group first.
abbrev pub group_bits : ℕ → List ℕ → List ℕ
group_bits k [] = []
group_bits k (x ∷ xs) = lsb k x ++ group_bits k xs

-- A value of `k` bits.
abbrev pub FitsIn : ℕ → ℕ → Type 0
FitsIn k x = x < 2 ^ k

pub record IsDrained (to_bits : ℕ) (s end : BitState) (out : List ℕ) : Type 0 where
  pub few_left : end.bits < to_bits
  pub out_fit : All (FitsIn to_bits) out
  pub same_bits :
      (emitted : List ℕ)
      → lsb s.bits s.acc ++ group_bits to_bits emitted
        ≡ lsb end.bits end.acc ++ group_bits to_bits (reverse_onto emitted out)

pub pow_positive : (k : ℕ) → 0 < 2 ^ k
pow_positive zero = omega arith
pow_positive (suc k) = omega (arith, pow_positive k, pow-succ' 2 k)

-- One round of the inner loop.
take_group :
    (to_bits : ℕ) (s : BitState)
    → 0 < to_bits
    → to_bits ≤ s.bits
    → (end : BitState) (out : List ℕ)
    → IsDrained to_bits (record s { bits = s.bits - to_bits }) end out
    → IsDrained to_bits s end ((s.acc / 2 ^ (s.bits - to_bits) % 2 ^ to_bits) ∷ out)
unfolding reverse_onto
take_group to_bits s h b end out rest =
    let left = s.bits - to_bits in
    let high = s.acc / 2 ^ left in
    let sum : s.bits ≡ left + to_bits = omega (arith, b) in
    record {
      few_left = rest.few_left;
      out_fit = (mod-lt high (pow_positive to_bits), rest.out_fit);
      same_bits = λ emitted.
          ap (λ n. lsb n s.acc ++ group_bits to_bits emitted) sum
          ∙ ap (λ bs. bs ++ group_bits to_bits emitted) (lsb_add left to_bits s.acc)
          ∙ append_assoc (lsb left s.acc) (lsb to_bits high) (group_bits to_bits emitted)
          ∙ ap (λ bs. lsb left s.acc ++ (bs ++ group_bits to_bits emitted))
              (sym (lsb_mod to_bits to_bits high (omega arith)))
          ∙ rest.same_bits ((high % 2 ^ to_bits) ∷ emitted);
    }

-- The inner loop ends by its own test: as many rounds as there are bits leave fewer bits than a group
-- takes, for groups of at least one bit. The groups emitted are of that size, and they and the bits left
-- have all the bits that were there, in their order.
pub drain-IsDrained :
    (fuel to_bits : ℕ) (s : BitState)
    → 0 < to_bits
    → s.bits ≤ fuel
    → IsDrained to_bits s (drain fuel to_bits s).0 (drain fuel to_bits s).1
unfolding drain reverse_onto
drain-IsDrained zero to_bits s h f = record {
  few_left = omega (arith, h, f);
  out_fit = tt;
  same_bits = λ emitted. refl;
}
drain-IsDrained (suc fuel) to_bits s h f = elim (Bool-cases (leb to_bits s.bits)) [
  | inr b ↦
      rw b (record { few_left = ground (arith, b); out_fit = tt; same_bits = λ emitted. refl })
  | inl b ↦ rw b (
      take_group to_bits s h (ground (arith, b))
        (drain fuel to_bits (record s { bits = s.bits - to_bits })).0
        (drain fuel to_bits (record s { bits = s.bits - to_bits })).1
        (drain-IsDrained fuel to_bits (record s { bits = s.bits - to_bits }) h
          (omega (arith, h, f))))
]

pub reverse_onto-append :
    (emitted xs ys : List ℕ)
    → reverse_onto emitted (xs ++ ys) ≡ reverse_onto (reverse_onto emitted xs) ys
unfolding reverse_onto
reverse_onto-append emitted [] ys = refl
reverse_onto-append emitted (x ∷ xs) ys = reverse_onto-append (x ∷ emitted) xs ys

pub All-append {κ} : (P : ℕ → Type κ) (xs ys : List ℕ) → All P xs → All P ys → All P (xs ++ ys)
All-append P [] ys h k = k
All-append P (x ∷ xs) ys h k = (h.0, All-append P xs ys h.1 k)

-- Shifting a value in puts its bits below the others.
shift_in-bits :
    (from_bits d : ℕ) (s : BitState)
    → d < 2 ^ from_bits
    → from_bits + s.bits ≤ 64
    → lsb (shift_in from_bits d s).bits (shift_in from_bits d s).acc
      ≡ lsb from_bits d ++ lsb s.bits s.acc
unfolding shift_in
shift_in-bits from_bits d s h k =
    let sum : s.bits + from_bits ≡ from_bits + s.bits = omega arith in
    ap (λ n. lsb n ((s.acc * 2 ^ from_bits + d) % 2 ^ 64)) sum
    ∙ lsb_mod (from_bits + s.bits) 64 (s.acc * 2 ^ from_bits + d) k
    ∙ lsb_shift from_bits s.bits s.acc d h

-- The whole loop: it emits groups of `to_bits` with the bits of the values, the last ones left.
pub record IsConverted (from_bits to_bits : ℕ) (ds : List ℕ) (s : BitState) : Type 0 where
  pub end : BitState
  pub out : List ℕ
  pub converts : convert_loop from_bits to_bits ds s ≡ some (end, out)
  pub few_left : end.bits < to_bits
  pub out_fit : All (FitsIn to_bits) out
  pub same_bits :
      (taken emitted : List ℕ)
      → group_bits from_bits taken ≡ lsb s.bits s.acc ++ group_bits to_bits emitted
      → group_bits from_bits (reverse_onto taken ds)
        ≡ lsb end.bits end.acc ++ group_bits to_bits (reverse_onto emitted out)

pub convert_loop-IsConverted :
    (from_bits to_bits : ℕ) (ds : List ℕ) (s : BitState)
    → 0 < to_bits
    → from_bits + to_bits ≤ 64
    → All (FitsIn from_bits) ds
    → s.bits < to_bits
    → IsConverted from_bits to_bits ds s
unfolding convert_loop reverse_onto
convert_loop-IsConverted from_bits to_bits [] s h k fit few = record {
  end = s;
  out = [];
  converts = refl;
  few_left = few;
  out_fit = tt;
  same_bits = λ taken emitted e. e;
}
convert_loop-IsConverted from_bits to_bits (d ∷ ds) s h k fit few =
    let shifted = shift_in from_bits d s in
    let drained = drain shifted.bits to_bits shifted in
    let first = drain-IsDrained shifted.bits to_bits shifted h (omega arith) in
    let rest = convert_loop-IsConverted from_bits to_bits ds drained.0 h k fit.1 first.few_left in
    let in_range : leb (2 ^ from_bits) d ≡ false = ground (arith, fit) in
    record {
      end = rest.end;
      out = drained.1 ++ rest.out;
      converts = rw in_range (rw rest.converts refl);
      few_left = rest.few_left;
      out_fit = All-append (FitsIn to_bits) drained.1 rest.out first.out_fit rest.out_fit;
      same_bits = λ taken emitted e.
          rest.same_bits (d ∷ taken) (reverse_onto emitted drained.1) (
            ap (λ bs. lsb from_bits d ++ bs) e
            ∙ sym (append_assoc (lsb from_bits d) (lsb s.bits s.acc) (group_bits to_bits emitted))
            ∙ ap (λ bs. bs ++ group_bits to_bits emitted)
                (sym (shift_in-bits from_bits d s fit.0 (omega arith)))
            ∙ first.same_bits emitted)
          ∙ ap (λ xs. lsb rest.end.bits rest.end.acc ++ group_bits to_bits xs)
              (sym (reverse_onto-append emitted drained.1 rest.out));
    }
