-- ===== src/CoinSelector/Finding.antt =====
-- A selection finds the amount when it is there.
use soqucoin_sdk.Prelude.{
  ℕ, ◌+◌, ◌≤◌, ◌<◌, ◌≡◌, refl, none, List, [], ◌∷◌, ◌++◌, leb, length, length-append, arith, inl,
  inr, Bool-cases, map,
}
use soqucoin_sdk.Types.{Utxo}
use soqucoin_sdk.CoinSelector.{
  CoinSelector, Wanted, collect, insert_largest, largest_first, add64, at_least, pick,
  select_by_asset_type, max_inputs_per_tx,
}
use soqucoin_sdk.CoinSelector.Coverage.{
  sum, sum-append, sum-largest_first, sum-collect, add64_exact,
}

sum_of_none : (us : List Utxo) → length us ≡ 0 → sum us ≡ 0
sum_of_none [] h = refl
sum_of_none (u ∷ us) h = absurd (omega (arith, h))

length-insert_largest : (u : Utxo) (us : List Utxo) → length (insert_largest u us) ≡ length us + 1
unfolding insert_largest
length-insert_largest u [] = refl
length-insert_largest u (x ∷ us) = ground (arith, length-insert_largest u us)

length-largest_first : (us : List Utxo) → length (largest_first us) ≡ length us
unfolding largest_first
length-largest_first [] = refl
length-largest_first (u ∷ us) =
    omega (arith, length-insert_largest u (largest_first us), length-largest_first us)

pick_finds :
    (target : ℕ) (us selected : List Utxo) (total : ℕ)
    → total ≡ sum selected
    → sum selected + sum us < 9223372036854775808
    → sum selected < target
    → target ≤ sum selected + sum us
    → length selected + length us ≤ max_inputs_per_tx
    → (pick target us selected total).fault ≡ none
unfolding pick
pick_finds target [] selected total e b s t l = absurd (omega (arith, s, t))
pick_finds target (u ∷ us) selected total e b s t l =
    let s' = selected ++ (u ∷ []) in
    let exact : add64 total u.value ≡ sum s' =
      omega (arith, add64_exact total u.value, sum-append selected u, e, b) in
    elim (Bool-cases (at_least (add64 total u.value) target)) [
      | inl k ↦ rw k refl
      | inr k ↦
          let short : sum s' < target = ground (arith, k, exact, b, sum-append selected u) in
          elim (Bool-cases (leb max_inputs_per_tx (length s'))) [
            | inl n ↦ absurd (
                ground (
                  arith,
                  n,
                  short,
                  t,
                  l,
                  sum-append selected u,
                  length-append selected (u ∷ []),
                  sum_of_none us,
                ))
            | inr n ↦ rw k (
                rw n (
                  pick_finds target us s' (add64 total u.value) exact
                    (omega (arith, b, sum-append selected u)) short
                    (omega (arith, t, sum-append selected u))
                    (omega (arith, l, length-append selected (u ∷ [])))))
          ]
    ]

-- When the values of the outputs that are offered sum to less than two to the 63rd, the amount is
-- above zero, and the candidates that pass the filters are at most eighty and together worth the
-- amount, the selection returns no error.
pub select_finds :
    (w : Wanted) (target : ℕ) (utxos : List (ℕ × Utxo)) (cs : CoinSelector)
    → sum (map (λ p. p.1) utxos) < 9223372036854775808
    → 0 < target
    → target ≤ sum (collect w cs.min_utxo_value utxos cs.spent_set).1
    → length (collect w cs.min_utxo_value utxos cs.spent_set).1 ≤ max_inputs_per_tx
    → (select_by_asset_type w target utxos cs).1.fault ≡ none
unfolding select_by_asset_type
select_finds w target utxos cs b p t l =
    let c = (collect w cs.min_utxo_value utxos cs.spent_set).1 in
    pick_finds target (largest_first c) [] 0 refl
      (omega (arith, b, sum-largest_first c, sum-collect w cs.min_utxo_value utxos cs.spent_set)) p
      (omega (arith, t, sum-largest_first c)) (omega (arith, l, length-largest_first c))
