-- ===== src/Amount/Tests.antt =====
-- Figures as the node prints them, and forms that are refused.
use soqucoin_sdk.Prelude.{
  ◌+◌, ◌*◌, ◌≡◌, refl, none, some, [], ◌∷◌, ◌++◌, map, if◌then◌else◌, leb, arith,
}
use soqucoin_sdk.Amount.{
  max_int64, shors_per_soq, parse_soq, parse_parts, split_point, whole_loop, frac_loop, digit_of,
}
use soqucoin_sdk.Amount.Exact.{ascii, number, padded, parse_soq_exact}

parse_soq_exact_example : parse_soq (map ascii (1 ∷ 2 ∷ []) ++ (46 ∷ map ascii (0 ∷ 5 ∷ []))) ≡ (
    if leb (number (1 ∷ 2 ∷ []) 0 * shors_per_soq + number (padded 8 (0 ∷ 5 ∷ [])) 0) max_int64
    then some (number (1 ∷ 2 ∷ []) 0 * shors_per_soq + number (padded 8 (0 ∷ 5 ∷ [])) 0)
    else none)
parse_soq_exact_example =
    parse_soq_exact 1 (2 ∷ []) (0 ∷ 5 ∷ []) (omega arith, (omega arith, tt))
      (omega arith, (omega arith, tt)) (omega arith) (omega arith)

-- "12.05", "12", "12.", ".5" and "-1".
forms :
    (parse_soq (49 ∷ 50 ∷ 46 ∷ 48 ∷ 53 ∷ []) ≡ some 1_205_000_000)
    × (parse_soq (49 ∷ 50 ∷ []) ≡ some 1_200_000_000)
    × (parse_soq (49 ∷ 50 ∷ 46 ∷ []) ≡ none)
    × (parse_soq (46 ∷ 53 ∷ []) ≡ none)
    × (parse_soq (45 ∷ 49 ∷ []) ≡ none)
unfolding parse_soq parse_parts split_point whole_loop frac_loop digit_of
forms = (refl, refl, refl, refl, refl)
