-- ===== src/Address/Xor.antt =====
-- Exclusive or of native numbers, by its lowest bit: what the checksum of address/bech32m.go computes with.
use Prim.Native.Nat.{bit_xor, bit_xor-bitwise, digits, differ}
use native.Mathlib.Nat.{pow-succ', mul_assoc, mul_comm}
use soqucoin_sdk.Address.Bits.{div_pow_suc, mod_pow_suc, half-mod}
use soqucoin_sdk.Prelude.{
  ℕ, zero, suc, ◌+◌, ◌*◌, ◌/◌, ◌%◌, ◌^◌, ◌≤◌, ◌<◌, ◌≡◌, refl, sym, ◌∙◌, ap, arith,
}

differ_bits : (x y : ℕ) → x < 2 → y < 2 → differ x y ≡ (x + y) % 2
differ_bits zero y h k = omega (arith, k)
differ_bits (suc zero) zero h k = refl
differ_bits (suc zero) (suc zero) h k = refl
differ_bits (suc zero) (suc (suc y)) h k = absurd (omega (arith, k))
differ_bits (suc (suc x)) y h k = absurd (omega (arith, h))

abbrev xor_within : ℕ → ℕ → ℕ → ℕ
xor_within n a b = digits (λ y. y) differ n a b

-- More rounds than digits change nothing.
xor_within-enough : (m n a b : ℕ) → a ≤ m → a ≤ n → xor_within m a b ≡ xor_within n a b
xor_within-enough zero zero zero b h k = refl
xor_within-enough zero (suc n) zero b h k = refl
xor_within-enough (suc m) zero zero b h k = refl
xor_within-enough (suc m) (suc n) zero b h k = refl
xor_within-enough zero n (suc a) b h k = absurd (omega (arith, h))
xor_within-enough (suc m) zero (suc a) b h k = absurd (omega (arith, k))
xor_within-enough (suc m) (suc n) (suc a) b h k =
    ap (λ d. d * 2 + differ (suc a % 2) (b % 2))
      (xor_within-enough m n (suc a / 2) (b / 2) (omega (arith, h)) (omega (arith, k)))

pub zero-xor : (b : ℕ) → bit_xor 0 b ≡ b
zero-xor b = bit_xor-bitwise 0 b

pub xor_step : (a b : ℕ) → bit_xor a b ≡ 2 * bit_xor (a / 2) (b / 2) + (a % 2 + b % 2) % 2
xor_step zero b = omega (arith, zero-xor b, zero-xor (b / 2))
xor_step (suc a) b =
    let halves = xor_within-enough a (suc a / 2) (suc a / 2) (b / 2) (omega arith) (omega arith) in
    let low = differ_bits (suc a % 2) (b % 2) (omega arith) (omega arith) in
    omega (arith, bit_xor-bitwise (suc a) b, bit_xor-bitwise (suc a / 2) (b / 2), halves, low)

half-xor : (a b : ℕ) → bit_xor a b / 2 ≡ bit_xor (a / 2) (b / 2)
half-xor a b = omega (arith, xor_step a b)

low-xor : (a b : ℕ) → bit_xor a b % 2 ≡ (a % 2 + b % 2) % 2
low-xor a b = omega (arith, xor_step a b)

xor_zero_within : (n a : ℕ) → a ≤ n → bit_xor a 0 ≡ a
xor_zero_within zero zero h = zero-xor 0
xor_zero_within zero (suc a) h = absurd (omega (arith, h))
xor_zero_within (suc n) a h =
    omega (arith, xor_step a 0, xor_zero_within n (a / 2) (omega (arith, h)))

pub xor-zero : (a : ℕ) → bit_xor a 0 ≡ a
xor-zero a = xor_zero_within a a (omega arith)

xor_self_within : (n a : ℕ) → a ≤ n → bit_xor a a ≡ 0
xor_self_within zero zero h = refl
xor_self_within zero (suc a) h = absurd (omega (arith, h))
xor_self_within (suc n) a h =
    omega (arith, xor_step a a, xor_self_within n (a / 2) (omega (arith, h)))

xor_comm_within : (n a b : ℕ) → a ≤ n → b ≤ n → bit_xor a b ≡ bit_xor b a
xor_comm_within zero zero zero h k = refl
xor_comm_within zero zero (suc b) h k = absurd (omega (arith, k))
xor_comm_within zero (suc a) b h k = absurd (omega (arith, h))
xor_comm_within (suc n) a b h k = omega (
  arith,
  xor_step a b,
  xor_step b a,
  xor_comm_within n (a / 2) (b / 2) (omega (arith, h)) (omega (arith, k)),
)

pub xor_comm : (a b : ℕ) → bit_xor a b ≡ bit_xor b a
xor_comm a b = xor_comm_within (a + b) a b (omega arith) (omega arith)

xor_assoc_within :
    (n a b c : ℕ) → a ≤ n → b ≤ n → c ≤ n → bit_xor (bit_xor a b) c ≡ bit_xor a (bit_xor b c)
xor_assoc_within zero zero zero c h k l =
    ap (λ x. bit_xor x c) (zero-xor 0) ∙ ap (bit_xor 0) (sym (zero-xor c))
xor_assoc_within zero zero (suc b) c h k l = absurd (omega (arith, k))
xor_assoc_within zero (suc a) b c h k l = absurd (omega (arith, h))
xor_assoc_within (suc n) a b c h k l =
    let halves =
      ap (λ x. bit_xor x (c / 2)) (half-xor a b)
      ∙ xor_assoc_within n (a / 2) (b / 2) (c / 2) (omega (arith, h)) (omega (arith, k))
          (omega (arith, l))
      ∙ ap (bit_xor (a / 2)) (sym (half-xor b c)) in
    omega
      (arith, xor_step (bit_xor a b) c, xor_step a (bit_xor b c), low-xor a b, low-xor b c, halves)

pub xor_assoc : (a b c : ℕ) → bit_xor (bit_xor a b) c ≡ bit_xor a (bit_xor b c)
xor_assoc a b c = xor_assoc_within (a + b + c) a b c (omega arith) (omega arith) (omega arith)

pub xor_cancel : (a b : ℕ) → bit_xor a (bit_xor a b) ≡ b
xor_cancel a b =
    sym (xor_assoc a a b) ∙ ap (λ x. bit_xor x b) (xor_self_within a a (omega arith)) ∙ zero-xor b

pub xor_swap : (a b c : ℕ) → bit_xor (bit_xor a b) c ≡ bit_xor (bit_xor a c) b
xor_swap a b c = xor_assoc a b c ∙ ap (bit_xor a) (xor_comm b c) ∙ sym (xor_assoc a c b)

pub div-xor : (k a b : ℕ) → bit_xor a b / 2 ^ k ≡ bit_xor (a / 2 ^ k) (b / 2 ^ k)
div-xor zero a b =
    let same : bit_xor a b / 2 ^ 0 ≡ bit_xor a b = omega arith in
    let left : a ≡ a / 2 ^ 0 = omega arith in
    let right : b ≡ b / 2 ^ 0 = omega arith in
    same ∙ ap (λ x. bit_xor x b) left ∙ ap (bit_xor (a / 2 ^ 0)) right
div-xor (suc k) a b =
    div_pow_suc (bit_xor a b) k
    ∙ ap (λ x. x / 2 ^ k) (half-xor a b)
    ∙ div-xor k (a / 2) (b / 2)
    ∙ ap (λ x. bit_xor x (b / 2 / 2 ^ k)) (sym (div_pow_suc a k))
    ∙ ap (bit_xor (a / 2 ^ suc k)) (sym (div_pow_suc b k))

pub mod-xor : (k a b : ℕ) → bit_xor a b % 2 ^ k ≡ bit_xor (a % 2 ^ k) (b % 2 ^ k)
mod-xor zero a b =
    let same : bit_xor a b % 2 ^ 0 ≡ 0 = omega arith in
    let left : 0 ≡ a % 2 ^ 0 = omega arith in
    let right : 0 ≡ b % 2 ^ 0 = omega arith in
    same ∙ sym (zero-xor 0) ∙ ap (λ x. bit_xor x 0) left ∙ ap (bit_xor (a % 2 ^ 0)) right
mod-xor (suc k) a b =
    let halves =
      ap (λ x. x % 2 ^ k) (half-xor a b)
      ∙ mod-xor k (a / 2) (b / 2)
      ∙ ap (λ x. bit_xor x (b / 2 % 2 ^ k)) (sym (half-mod a k))
      ∙ ap (bit_xor (a % 2 ^ suc k / 2)) (sym (half-mod b k)) in
    omega (
      arith,
      mod_pow_suc (bit_xor a b) k,
      halves,
      low-xor a b,
      xor_step (a % 2 ^ suc k) (b % 2 ^ suc k),
      mod_pow_suc a k,
      mod_pow_suc b k,
    )

double-xor : (a b : ℕ) → bit_xor (2 * a) (2 * b) ≡ 2 * bit_xor a b
double-xor a b =
    let left : 2 * a / 2 ≡ a = omega arith in
    let right : 2 * b / 2 ≡ b = omega arith in
    let halves = ap (λ x. bit_xor x (2 * b / 2)) left ∙ ap (bit_xor a) right in
    omega (arith, xor_step (2 * a) (2 * b), halves)

double_pow : (a k : ℕ) → a * 2 ^ suc k ≡ 2 * (a * 2 ^ k)
double_pow a k =
    ap (λ p. a * p) (pow-succ' 2 k)
    ∙ sym (mul_assoc a 2 (2 ^ k))
    ∙ ap (λ p. p * 2 ^ k) (mul_comm a 2)
    ∙ mul_assoc 2 a (2 ^ k)

pub mul-xor : (k a b : ℕ) → bit_xor a b * 2 ^ k ≡ bit_xor (a * 2 ^ k) (b * 2 ^ k)
mul-xor zero a b =
    let same : bit_xor a b * 2 ^ 0 ≡ bit_xor a b = omega arith in
    let left : a ≡ a * 2 ^ 0 = omega arith in
    let right : b ≡ b * 2 ^ 0 = omega arith in
    same ∙ ap (λ x. bit_xor x b) left ∙ ap (bit_xor (a * 2 ^ 0)) right
mul-xor (suc k) a b =
    double_pow (bit_xor a b) k
    ∙ ap (λ x. 2 * x) (mul-xor k a b)
    ∙ sym (double-xor (a * 2 ^ k) (b * 2 ^ k))
    ∙ ap (λ x. bit_xor x (2 * (b * 2 ^ k))) (sym (double_pow a k))
    ∙ ap (bit_xor (a * 2 ^ suc k)) (sym (double_pow b k))

-- On disjoint bits it adds.
pub xor_disjoint : (k y d : ℕ) → d < 2 ^ k → bit_xor (y * 2 ^ k) d ≡ y * 2 ^ k + d
xor_disjoint zero y d h =
    let none : d ≡ 0 = omega (arith, h) in
    omega (arith, ap (bit_xor (y * 2 ^ 0)) none, xor-zero (y * 2 ^ 0), none)
xor_disjoint (suc k) y d h =
    let half : y * 2 ^ suc k / 2 ≡ y * 2 ^ k = omega (arith, double_pow y k) in
    omega (
      arith,
      xor_step (y * 2 ^ suc k) d,
      ap (λ x. bit_xor x (d / 2)) half,
      double_pow y k,
      xor_disjoint k y (d / 2) (omega (arith, h, pow-succ' 2 k)),
    )

pub xor-bound : (k a b : ℕ) → a < 2 ^ k → b < 2 ^ k → bit_xor a b < 2 ^ k
xor-bound zero a b h l =
    let left : a ≡ 0 = omega (arith, h) in
    let right : b ≡ 0 = omega (arith, l) in
    omega (arith, ap (λ x. bit_xor x b) left, ap (bit_xor 0) right, zero-xor 0)
xor-bound (suc k) a b h l = omega (
  arith,
  xor_step a b,
  pow-succ' 2 k,
  xor-bound k (a / 2) (b / 2) (omega (arith, h, pow-succ' 2 k)) (omega (arith, l, pow-succ' 2 k)),
)
