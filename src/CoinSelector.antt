-- ===== src/CoinSelector.antt =====
-- utxo/selector.go: `CoinSelector`. Each output comes with the time at which the spent set is asked
-- about it. A sum is an int64, kept as its 64 bits; a value, a height and a count are at or above
-- zero. `sort.Slice` may order equal values in another way than the insertion below.
pub mod Coverage
pub mod Finding
pub mod Smallest
pub mod Tests
use soqucoin_sdk.Prelude.{
  ℕ, zero, suc, ◌+◌, ◌%◌, String, Bool, true, false, not, ◌&&◌, ◌||◌, Option, none, some, List, [],
  ◌∷◌, ◌++◌, if◌then◌else◌, leb, ltb, nat_eq, string_Eq, contains, is_empty, length,
}
use soqucoin_sdk.Errors.{input_limit_reached, no_candidates, Fault}
use soqucoin_sdk.Types.{Outpoint, Utxo, asset_type_soq}
use soqucoin_sdk.SpentSet.{SpentSet}
use soqucoin_sdk.SpentSet.Methods

abbrev pub max_inputs_per_tx : ℕ
max_inputs_per_tx = 80

pub record CoinSelector : Type 0 where
  pub spent_set : Option SpentSet
  pub min_utxo_value : ℕ

-- The arguments that say which outputs are wanted.
pub record Wanted : Type 0 where
  pub min_conf : ℕ
  pub tip_height : ℕ
  pub allowed_addresses : List String
  pub asset_type : ℕ

abbrev pub Candidates : Type 0
Candidates = Option SpentSet × List Utxo

-- A nil spent set is not asked.
unfoldable pub ask : ℕ → Outpoint → Option SpentSet → Option SpentSet × Bool
ask now key none = (none, false)
ask now key (some ss) = let (ss', spent) = Methods.is_spent now key ss in (some ss', spent)

-- The tests after the one of the spent set.
unfoldable pub eligible : Wanted → Utxo → Bool
eligible w u =
    nat_eq u.asset_type w.asset_type
    && (is_empty w.allowed_addresses || contains w.allowed_addresses u.address)
    && ltb 0 u.height
    && leb (u.height + w.min_conf) (w.tip_height + 1)

-- The first loop; an output that is worth less than `min_value` is skipped.
unfoldable pub collect : Wanted → ℕ → List (ℕ × Utxo) → Option SpentSet → Candidates
unfolding ask eligible
collect w min_value [] o = (o, [])
collect w min_value ((now, u) ∷ us) o =
    let (o', spent) = ask now u.outpoint o in
    let (end, rest) = collect w min_value us o' in
    if spent || not (eligible w u) || ltb u.value min_value then (end, rest) else (end, u ∷ rest)

insert_largest : Utxo → List Utxo → List Utxo
insert_largest u [] = u ∷ []
insert_largest u (x ∷ xs) =
    let rest = x ∷ insert_largest u xs in if ltb u.value x.value then rest else u ∷ x ∷ xs

unfoldable pub largest_first : List Utxo → List Utxo
unfolding insert_largest
largest_first [] = []
largest_first (u ∷ us) = insert_largest u (largest_first us)

insert_smallest : Utxo → List Utxo → List Utxo
insert_smallest u [] = u ∷ []
insert_smallest u (x ∷ xs) =
    let rest = x ∷ insert_smallest u xs in if ltb x.value u.value then rest else u ∷ x ∷ xs

unfoldable pub smallest_first : List Utxo → List Utxo
unfolding insert_smallest
smallest_first [] = []
smallest_first (u ∷ us) = insert_smallest u (smallest_first us)

-- The sum of two int64 that are kept as bits.
abbrev pub add64 : ℕ → ℕ → ℕ
add64 a b = (a + b) % 18446744073709551616

-- total >= target, where the target is at or above zero: a set sign bit is a negative sum.
abbrev pub at_least : ℕ → ℕ → Bool
at_least total target = ltb total 9223372036854775808 && leb target total

pub record Selected : Type 0 where
  pub utxos : List Utxo
  pub total : ℕ
  pub fault : Fault

-- The second loop.
unfoldable pub pick : ℕ → List Utxo → List Utxo → ℕ → Selected
pick target [] selected total = record { utxos = []; total = total; fault = some [] }
pick target (u ∷ us) selected total =
    let selected' = selected ++ (u ∷ []) in
    let total' = add64 total u.value in
    let rest = pick target us selected' total' in
    if at_least total' target
    then record { utxos = selected'; total = total'; fault = none }
    else if leb max_inputs_per_tx (length selected')
    then record { utxos = selected'; total = total'; fault = some (input_limit_reached ∷ []) }
    else rest

unfoldable pub select_by_asset_type :
    Wanted → ℕ → List (ℕ × Utxo) → CoinSelector → CoinSelector × Selected
unfolding collect largest_first pick
select_by_asset_type w target utxos cs =
    let (o, candidates) = collect w cs.min_utxo_value utxos cs.spent_set in
    (record cs { spent_set = o }, pick target (largest_first candidates) [] 0)

unfoldable pub select_utxos :
    ℕ → ℕ → List String → ℕ → List (ℕ × Utxo) → CoinSelector → CoinSelector × Selected
unfolding select_by_asset_type
select_utxos min_conf tip_height allowed target utxos cs =
    select_by_asset_type
      (record {
        min_conf = min_conf;
        tip_height = tip_height;
        allowed_addresses = allowed;
        asset_type = asset_type_soq;
      })
      target utxos cs

-- candidates[:n]
unfoldable pub first : ℕ → List Utxo → List Utxo
first n [] = []
first zero (u ∷ us) = []
first (suc n) (u ∷ us) = u ∷ first n us

unfoldable pub sum64 : List Utxo → ℕ → ℕ
sum64 [] total = total
sum64 (u ∷ us) total = sum64 us (add64 total u.value)

smallest_of : List Utxo → Selected
unfolding sum64
smallest_of [] = record { utxos = []; total = 0; fault = some (no_candidates ∷ []) }
smallest_of (u ∷ us) = record { utxos = u ∷ us; total = sum64 (u ∷ us) 0; fault = none }

-- No output is too small for a consolidation.
unfoldable pub select_smallest_utxos :
    ℕ → ℕ → ℕ → List String → List (ℕ × Utxo) → CoinSelector → CoinSelector × Selected
unfolding collect smallest_first smallest_of first
select_smallest_utxos max_count min_conf tip_height allowed utxos cs =
    let w : Wanted = record {
      min_conf = min_conf;
      tip_height = tip_height;
      allowed_addresses = allowed;
      asset_type = asset_type_soq;
    } in
    let (o, candidates) = collect w 0 utxos cs.spent_set in
    (record cs { spent_set = o }, smallest_of (first max_count (smallest_first candidates)))
