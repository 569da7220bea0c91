-- ===== src/Address/Bits.antt =====
-- The bits of a number, the lowest first: what the shifts and masks of convertBits (address/bech32m.go)
-- do to them.
use native.Mathlib.Nat.{
  pow-succ', mod-eq-sub-mul-div, div-div-eq-div-mul, div-mul-le_self, mul_comm, mul_assoc,
}
use soqucoin_sdk.Prelude.{
  ℕ, zero, suc, ◌+◌, ◌-◌, ◌*◌, ◌/◌, ◌%◌, ◌^◌, ◌≤◌, ◌<◌, ◌≡◌, refl, sym, ◌∙◌, ap, List, [], ◌∷◌,
  ◌++◌, length, arith,
}

abbrev pub lsb : ℕ → ℕ → List ℕ
lsb zero v = []
lsb (suc k) v = (v % 2) ∷ lsb k (v / 2)

pub length-lsb : (k v : ℕ) → length (lsb k v) ≡ k
length-lsb zero v = refl
length-lsb (suc k) v = omega (arith, length-lsb k (v / 2))

pub div_pow_suc : (v k : ℕ) → v / 2 ^ suc k ≡ v / 2 / 2 ^ k
div_pow_suc v k = ap (λ p. v / p) (pow-succ' 2 k) ∙ sym (div-div-eq-div-mul v 2 (2 ^ k))

mod_double : (v p : ℕ) → v % (2 * p) ≡ v % 2 + 2 * (v / 2 % p)
mod_double v p =
    let quotient = ap (λ q. 2 * p * q) (sym (div-div-eq-div-mul v 2 p)) in
    omega (
      arith,
      mod-eq-sub-mul-div v (2 * p),
      mod-eq-sub-mul-div (v / 2) p,
      quotient,
      mul_assoc 2 p (v / 2 / p),
      div-mul-le_self (v / 2) p,
      mul_comm p (v / 2 / p),
    )

-- The lowest bit, and the rest, of a remainder.
pub mod_pow_suc : (v k : ℕ) → v % 2 ^ suc k ≡ v % 2 + 2 * (v / 2 % 2 ^ k)
mod_pow_suc v k = ap (λ p. v % p) (pow-succ' 2 k) ∙ mod_double v (2 ^ k)

pub lsb_congr : (k v w : ℕ) → v % 2 ^ k ≡ w % 2 ^ k → lsb k v ≡ lsb k w
lsb_congr zero v w h = refl
lsb_congr (suc k) v w h =
    let low : v % 2 ≡ w % 2 = omega (arith, h, mod_pow_suc v k, mod_pow_suc w k) in
    let high : v / 2 % 2 ^ k ≡ w / 2 % 2 ^ k = omega (arith, h, mod_pow_suc v k, mod_pow_suc w k) in
    ap (λ b. b ∷ lsb k (v / 2)) low ∙ ap (λ bs. (w % 2) ∷ bs) (lsb_congr k (v / 2) (w / 2) high)

abbrev pub head : ℕ → List ℕ → ℕ
head d [] = d
head d (x ∷ xs) = x

abbrev pub tail : List ℕ → List ℕ
tail [] = []
tail (x ∷ xs) = xs

-- The bits determine the remainder.
pub lsb_injective : (k v w : ℕ) → lsb k v ≡ lsb k w → v % 2 ^ k ≡ w % 2 ^ k
lsb_injective zero v w h = omega arith
lsb_injective (suc k) v w h = omega (
  arith,
  ap (head 0) h,
  lsb_injective k (v / 2) (w / 2) (ap tail h),
  mod_pow_suc v k,
  mod_pow_suc w k,
)

pub lsb_add : (k j v : ℕ) → lsb (k + j) v ≡ lsb k v ++ lsb j (v / 2 ^ k)
lsb_add zero j v =
    let sum : 0 + j ≡ j = omega arith in
    let same : v ≡ v / 2 ^ 0 = omega arith in ap (λ n. lsb n v) sum ∙ ap (lsb j) same
lsb_add (suc k) j v =
    let sum : suc k + j ≡ suc (k + j) = omega arith in
    ap (λ n. lsb n v) sum
    ∙ ap (λ bs. (v % 2) ∷ bs) (lsb_add k j (v / 2))
    ∙ ap (λ w. (v % 2) ∷ lsb k (v / 2) ++ lsb j w) (sym (div_pow_suc v k))

pub half-mod : (v k : ℕ) → v % 2 ^ suc k / 2 ≡ v / 2 % 2 ^ k
half-mod v k = omega (arith, mod_pow_suc v k)

-- A mask of more bits changes none of the lowest.
lsb-mask : (k j v : ℕ) → lsb k (v % 2 ^ (k + j)) ≡ lsb k v
lsb-mask zero j v = refl
lsb-mask (suc k) j v =
    let sum : suc k + j ≡ suc (k + j) = omega arith in
    ap (λ n. lsb (suc k) (v % 2 ^ n)) sum
    ∙ ap (λ b. b ∷ lsb k (v % 2 ^ suc (k + j) / 2)) (omega (arith, mod_pow_suc v (k + j)))
    ∙ ap (λ w. (v % 2) ∷ lsb k w) (half-mod v (k + j))
    ∙ ap (λ bs. (v % 2) ∷ bs) (lsb-mask k j (v / 2))

pub lsb_mod : (k m v : ℕ) → k ≤ m → lsb k (v % 2 ^ m) ≡ lsb k v
lsb_mod k m v h =
    let sum : m ≡ k + (m - k) = omega (arith, h) in
    ap (λ n. lsb k (v % 2 ^ n)) sum ∙ lsb-mask k (m - k) v

-- acc << f | d
pub lsb_shift : (f b acc d : ℕ) → d < 2 ^ f → lsb (f + b) (acc * 2 ^ f + d) ≡ lsb f d ++ lsb b acc
lsb_shift zero b acc d h =
    let sum : 0 + b ≡ b = omega arith in
    let same : acc * 2 ^ 0 + d ≡ acc = omega arith in
    ap (λ n. lsb n (acc * 2 ^ 0 + d)) sum ∙ ap (lsb b) same
lsb_shift (suc f) b acc d h =
    let sum : suc f + b ≡ suc (f + b) = omega arith in
    let double : acc * 2 ^ suc f ≡ 2 * (acc * 2 ^ f) =
      ap (λ p. acc * p) (pow-succ' 2 f)
      ∙ sym (mul_assoc acc 2 (2 ^ f))
      ∙ ap (λ p. p * 2 ^ f) (mul_comm acc 2)
      ∙ mul_assoc 2 acc (2 ^ f) in
    let low : (acc * 2 ^ suc f + d) % 2 ≡ d % 2 = omega (arith, double) in
    let high : (acc * 2 ^ suc f + d) / 2 ≡ acc * 2 ^ f + d / 2 = omega (arith, double) in
    ap (λ n. lsb n (acc * 2 ^ suc f + d)) sum
    ∙ ap (λ x. x ∷ lsb (f + b) ((acc * 2 ^ suc f + d) / 2)) low
    ∙ ap (λ w. (d % 2) ∷ lsb (f + b) w) high
    ∙ ap (λ bs. (d % 2) ∷ bs) (lsb_shift f b acc (d / 2) (omega (arith, h, pow-succ' 2 f)))
