-- ===== src/Amount/Exact.antt =====
-- ParseSOQ is exact.
use soqucoin_sdk.Prelude.{
  ℕ, zero, suc, ◌+◌, ◌-◌, ◌*◌, ◌/◌, ◌≤◌, ◌<◌, ◌≡◌, refl, ◌∙◌, ap, true, none, some, List, [], ◌∷◌,
  ◌++◌, map, if◌then◌else◌, leb, ltb, length, All, arith, Bool-cases, inl, inr,
}
use soqucoin_sdk.Amount.{
  max_int64, shors_per_soq, split_point, digit_of, whole_loop, frac_loop, scale_whole, parse_soq,
  parse_parts, is_frac,
}

abbrev pub ascii : ℕ → ℕ
ascii d = 48 + d

abbrev pub IsDigit : ℕ → Type 0
IsDigit d = d < 10

-- The number that decimal digits spell after those that spell `n`.
abbrev pub number : List ℕ → ℕ → ℕ
number [] n = n
number (d ∷ ds) n = number ds (n * 10 + d)

-- The first n digits, with zeros where they end.
abbrev pub padded : ℕ → List ℕ → List ℕ
padded zero ds = []
padded (suc n) [] = 0 ∷ padded n []
padded (suc n) (d ∷ ds) = d ∷ padded n ds

number_above : (ds : List ℕ) (n : ℕ) → n ≤ number ds n
number_above [] n = omega arith
number_above (d ∷ ds) n = omega (arith, number_above ds (n * 10 + d))

digit_of-ascii : (d : ℕ) → IsDigit d → digit_of (ascii d) ≡ some d
unfolding digit_of
digit_of-ascii d h = ground (arith, h)

whole_loop_exact :
    (ds : List ℕ) (n : ℕ)
    → All IsDigit ds
    → n ≤ max_int64
    → whole_loop (map ascii ds) n
      ≡ (if leb (number ds n) max_int64 then some (number ds n) else none)
unfolding whole_loop
whole_loop_exact [] n h b = ground (arith, b)
whole_loop_exact (d ∷ ds) n h b = elim (Bool-cases (ltb ((max_int64 - d) / 10) n)) [
  | inl k ↦
      rw (digit_of-ascii d h.0, whole_loop)
        (rw k (ground (arith, k, h.0, number_above ds (n * 10 + d))))
  | inr k ↦
      rw (digit_of-ascii d h.0, whole_loop)
        (rw k (whole_loop_exact ds (n * 10 + d) h.1 (ground (arith, k, h.0))))
]

add_nothing : (n : ℕ) → n ≡ n + 0
add_nothing n = omega arith

frac_loop_exact :
    (k : ℕ) (ds : List ℕ) (n : ℕ)
    → All IsDigit ds
    → frac_loop k (map ascii ds) n ≡ some (number (padded k ds) n)
unfolding frac_loop
frac_loop_exact zero ds n h = refl
frac_loop_exact (suc k) [] n h =
    frac_loop_exact k [] (n * 10) tt
    ∙ ap (λ x. some (number (padded k []) x)) (add_nothing (n * 10))
frac_loop_exact (suc k) (d ∷ ds) n h =
    rw (digit_of-ascii d h.0, frac_loop) (frac_loop_exact k ds (n * 10 + d) h.1)

split_point_at :
    (ds cs : List ℕ)
    → All IsDigit ds
    → split_point (map ascii ds ++ (46 ∷ cs)) ≡ (map ascii ds, some cs)
unfolding split_point
split_point_at [] cs h = refl
split_point_at (d ∷ ds) cs h = rw (split_point_at ds cs h.1) (ground (arith, h.0))

abbrev nines : ℕ → ℕ → ℕ
nines zero n = n
nines (suc k) n = nines k (n * 10 + 9)

padded_small :
    (k : ℕ) (ds : List ℕ) (n m : ℕ) → All IsDigit ds → n ≤ m → number (padded k ds) n ≤ nines k m
padded_small zero ds n m h b = b
padded_small (suc k) [] n m h b = padded_small k [] (n * 10 + 0) (m * 10 + 9) tt (omega (arith, b))
padded_small (suc k) (d ∷ ds) n m h b =
    padded_small k ds (n * 10 + d) (m * 10 + 9) h.1 (omega (arith, b, h.0))

scale_exact :
    (ds fs : List ℕ)
    → All IsDigit fs
    → scale_whole (map ascii fs) (if leb (number ds 0) max_int64 then some (number ds 0) else none)
      ≡ (if leb (number ds 0 * shors_per_soq + number (padded 8 fs) 0) max_int64
          then some (number ds 0 * shors_per_soq + number (padded 8 fs) 0)
          else none)
scale_exact ds fs h = elim (Bool-cases (leb (number ds 0) max_int64)) [
  | inl b ↦
      let f : number (padded 8 fs) 0 ≤ 99999999 = padded_small 8 fs 0 0 h (omega arith) in
      rw b (rw (frac_loop_exact 8 fs 0 h) (ground (arith, b, f)))
  | inr b ↦ rw b (ground (arith, b))
]

length-ascii : (ds : List ℕ) → length (map ascii ds) ≡ length ds
length-ascii [] = refl
length-ascii (d ∷ ds) = omega (arith, length-ascii ds)

is_frac-ascii : (fs : List ℕ) → 1 ≤ length fs → length fs ≤ 8 → is_frac (some (map ascii fs)) ≡ true
is_frac-ascii [] l m = absurd (omega (arith, l))
is_frac-ascii (f ∷ fs) l m = ground (arith, m, length-ascii fs)

parse_parts_exact :
    (d : ℕ) (ds fs : List ℕ)
    → is_frac (some (map ascii fs)) ≡ true
    → parse_parts (map ascii (d ∷ ds), some (map ascii fs))
      ≡ scale_whole (map ascii fs) (whole_loop (map ascii (d ∷ ds)) 0)
unfolding parse_parts
parse_parts_exact d ds fs b = rw b refl

-- ParseSOQ is exact: on decimal digits, at least one of them, then a point, then one to eight decimal
-- digits, it returns the number of shors that they spell, the fraction filled up with zeros to eight
-- digits, when that is at most the greatest int64, and the error when it is more.
pub parse_soq_exact :
    (d : ℕ) (ds fs : List ℕ)
    → All IsDigit (d ∷ ds)
    → All IsDigit fs
    → 1 ≤ length fs
    → length fs ≤ 8
    → parse_soq (map ascii (d ∷ ds) ++ (46 ∷ map ascii fs)) ≡ (
        if leb (number (d ∷ ds) 0 * shors_per_soq + number (padded 8 fs) 0) max_int64
        then some (number (d ∷ ds) 0 * shors_per_soq + number (padded 8 fs) 0)
        else none)
unfolding parse_soq
parse_soq_exact d ds fs h k l m =
    ap (λ p. parse_parts p) (split_point_at (d ∷ ds) (map ascii fs) h)
    ∙ parse_parts_exact d ds fs (is_frac-ascii fs l m)
    ∙ ap (λ o. scale_whole (map ascii fs) o) (whole_loop_exact (d ∷ ds) 0 h (omega arith))
    ∙ scale_exact (d ∷ ds) fs k
