-- ===== src/Amount.antt =====
-- types/amount.go: `ParseSOQ`, on the bytes of the text. Each test comes before the arithmetic that it
-- guards, so no sum or product passes the greatest int64; `none` is ErrAmountFormat.
pub mod Exact
pub mod Tests
use soqucoin_sdk.Prelude.{
  ℕ, zero, suc, ◌+◌, ◌-◌, ◌*◌, ◌/◌, Bool, true, false, not, ◌&&◌, ◌||◌, Option, none, some, List,
  [], ◌∷◌, if◌then◌else◌, leb, ltb, nat_eq, is_empty, length,
}

abbrev pub max_int64 : ℕ
max_int64 = 9223372036854775807

abbrev pub shors_per_soq : ℕ
shors_per_soq = 100_000_000

-- The text before the first point, and the text after it if there is one.
unfoldable pub split_point : List ℕ → List ℕ × Option (List ℕ)
split_point [] = ([], none)
split_point (c ∷ cs) =
    let (whole, frac) = split_point cs in if nat_eq c 46 then ([], some cs) else (c ∷ whole, frac)

abbrev pub is_frac : Option (List ℕ) → Bool
is_frac none = true
is_frac (some frac) = not (is_empty frac) && leb (length frac) 8

abbrev pub or_no_digits : Option (List ℕ) → List ℕ
or_no_digits none = []
or_no_digits (some frac) = frac

unfoldable pub digit_of : ℕ → Option ℕ
digit_of c = if leb 48 c && leb c 57 then some (c - 48) else none

unfoldable pub whole_loop : List ℕ → ℕ → Option ℕ
unfolding digit_of
whole_loop [] soq = some soq
whole_loop (c ∷ cs) soq = elim (digit_of c) [
  | none ↦ none
  | some d ↦ if ltb ((max_int64 - d) / 10) soq then none else whole_loop cs (soq * 10 + d)
]

-- Eight times: a digit that is not there counts for zero.
unfoldable pub frac_loop : ℕ → List ℕ → ℕ → Option ℕ
unfolding digit_of
frac_loop zero cs frac_shors = some frac_shors
frac_loop (suc n) [] frac_shors = frac_loop n [] (frac_shors * 10)
frac_loop (suc n) (c ∷ cs) frac_shors = elim (digit_of c) [
  | none ↦ none
  | some d ↦ frac_loop n cs (frac_shors * 10 + d)
]

abbrev pub add_shors : ℕ → Option ℕ → Option ℕ
add_shors shors none = none
add_shors shors (some frac_shors) =
    if ltb (max_int64 - frac_shors) shors then none else some (shors + frac_shors)

abbrev pub scale_whole : List ℕ → Option ℕ → Option ℕ
scale_whole frac none = none
scale_whole frac (some soq) =
    if ltb (max_int64 / shors_per_soq) soq
    then none
    else add_shors (soq * shors_per_soq) (frac_loop 8 frac 0)

unfoldable pub parse_parts : List ℕ × Option (List ℕ) → Option ℕ
parse_parts (whole, frac) =
    if not (is_frac frac) || is_empty whole
    then none
    else scale_whole (or_no_digits frac) (whole_loop whole 0)

unfoldable pub parse_soq : List ℕ → Option ℕ
parse_soq s = parse_parts (split_point s)
