-- ===== src/CoinSelector/Smallest.antt =====
-- What a consolidation of utxo/selector.go takes.
use mathlib.Core.List.{Perm}
use mathlib.Core.List.Perm
use mathlib.Core.Path.{subst}
use soqucoin_sdk.Prelude.{
  ℕ, ◌≤◌, ◌≡◌, refl, sym, ap, List, [], ◌∷◌, ◌++◌, ltb, length, All, ◌⊎◌, arith, inl, inr,
  Bool-cases, String, zero, suc,
}
use soqucoin_sdk.Types.{Utxo, asset_type_soq}
use soqucoin_sdk.CoinSelector.{
  CoinSelector, Wanted, collect, insert_smallest, smallest_first, first, smallest_of,
  select_smallest_utxos,
}
use soqucoin_sdk.CoinSelector.Coverage.{IsSound, collect-IsSound}

-- Each output is worth no more than those after it.
abbrev pub IsAscending : List Utxo → Type 0
IsAscending [] = Unit
IsAscending (u ∷ us) = All (λ (v : Utxo). u.value ≤ v.value) us × IsAscending us

module _ {κ} (P : Utxo → Type κ) where
  All-insert_smallest : (u : Utxo) (us : List Utxo) → P u → All P us → All P (insert_smallest u us)
  unfolding insert_smallest
  All-insert_smallest u [] p h = (p, tt)
  All-insert_smallest u (x ∷ us) p h = elim (Bool-cases (ltb x.value u.value)) [
    | inl b ↦ rw b (h.0, All-insert_smallest u us p h.1)
    | inr b ↦ rw b (p, h)
  ]

  All-smallest_first : (us : List Utxo) → All P us → All P (smallest_first us)
  unfolding smallest_first
  All-smallest_first [] h = h
  All-smallest_first (u ∷ us) h =
      All-insert_smallest u (smallest_first us) h.0 (All-smallest_first us h.1)

  All-first : (n : ℕ) (us : List Utxo) → All P us → All P (first n us)
  unfolding first
  All-first n [] h = tt
  All-first zero (u ∷ us) h = tt
  All-first (suc n) (u ∷ us) h = (h.0, All-first n us h.1)

All-above :
    (m n : ℕ) (us : List Utxo)
    → m ≤ n
    → All (λ (v : Utxo). n ≤ v.value) us
    → All (λ (v : Utxo). m ≤ v.value) us
All-above m n [] h a = tt
All-above m n (u ∷ us) h a = (omega (arith, h, a.0), All-above m n us h a.1)

insert_smallest-IsAscending :
    (u : Utxo) (us : List Utxo) → IsAscending us → IsAscending (insert_smallest u us)
unfolding insert_smallest
insert_smallest-IsAscending u [] h = (tt, tt)
insert_smallest-IsAscending u (x ∷ us) h = elim (Bool-cases (ltb x.value u.value)) [
  | inl b ↦ rw b (
    All-insert_smallest (λ (v : Utxo). x.value ≤ v.value) u us (ground (arith, b)) h.0,
    insert_smallest-IsAscending u us h.1,
  )
  | inr b ↦ rw b ((ground (arith, b), All-above u.value x.value us (ground (arith, b)) h.0), h)
]

smallest_first-IsAscending : (us : List Utxo) → IsAscending (smallest_first us)
unfolding smallest_first
smallest_first-IsAscending [] = tt
smallest_first-IsAscending (u ∷ us) =
    insert_smallest-IsAscending u (smallest_first us) (smallest_first-IsAscending us)

length-first : (n : ℕ) (us : List Utxo) → length (first n us) ≤ n
unfolding first
length-first n [] = omega arith
length-first zero (u ∷ us) = omega arith
length-first (suc n) (u ∷ us) = omega (arith, length-first n us)

utxos-smallest_of : (us : List Utxo) → (smallest_of us).utxos ≡ us
unfolding smallest_of
utxos-smallest_of [] = refl
utxos-smallest_of (u ∷ us) = refl

insert_smallest-perm : (u : Utxo) (us : List Utxo) → Perm (insert_smallest u us) (u ∷ us)
unfolding insert_smallest
insert_smallest-perm u [] = Perm.refl (u ∷ [])
insert_smallest-perm u (x ∷ us) = elim (Bool-cases (ltb x.value u.value)) [
  | inl b ↦ rw b (Perm.trans (Perm.cons x (insert_smallest-perm u us)) (Perm.swap u x us))
  | inr b ↦ rw b (Perm.refl (u ∷ x ∷ us))
]

smallest_first-perm : (us : List Utxo) → Perm (smallest_first us) us
unfolding smallest_first
smallest_first-perm [] = Perm.refl []
smallest_first-perm (u ∷ us) =
    Perm.trans (insert_smallest-perm u (smallest_first us)) (Perm.cons u (smallest_first-perm us))

-- candidates[n:]
abbrev left_out : ℕ → List Utxo → List Utxo
left_out n [] = []
left_out zero (u ∷ us) = u ∷ us
left_out (suc n) (u ∷ us) = left_out n us

first-left_out : (n : ℕ) (us : List Utxo) → first n us ++ left_out n us ≡ us
unfolding first
first-left_out n [] = refl
first-left_out zero (u ∷ us) = refl
first-left_out (suc n) (u ∷ us) = ap (λ x. u ∷ x) (first-left_out n us)

first-full : (n : ℕ) (us : List Utxo) → (length (first n us) ≡ n) ⊎ (left_out n us ≡ [])
unfolding first
first-full n [] = inr refl
first-full zero (u ∷ us) = inl refl
first-full (suc n) (u ∷ us) = elim (first-full n us) [
  | inl e ↦ inl (omega (arith, e))
  | inr e ↦ inr e
]

-- What the function that chooses the outputs of a consolidation does with its candidates.
pub record IsSmallest (max_count : ℕ) (candidates taken : List Utxo) : Type 0 where
  pub others : List Utxo
  pub parted : Perm (taken ++ others) candidates
  pub smallest : IsAscending (taken ++ others)
  pub at_most : length taken ≤ max_count
  pub enough : (length taken ≡ max_count) ⊎ (others ≡ [])

first-IsSmallest : (n : ℕ) (us : List Utxo) → IsSmallest n us (first n (smallest_first us))
first-IsSmallest n us =
    let sorted = smallest_first us in
    record {
      others = left_out n sorted;
      parted = subst (λ x. Perm x us) (sym (first-left_out n sorted)) (smallest_first-perm us);
      smallest = subst IsAscending (sym (first-left_out n sorted)) (smallest_first-IsAscending us);
      at_most = length-first n sorted;
      enough = first-full n sorted;
    }

-- A consolidation takes the smallest candidates. Its candidates are the outputs that the first loop
-- collects, however small. The outputs that it takes and the other candidates are together the
-- candidates, reordered so that no output is worth more than one after it, those taken first. It takes as
-- many as it is allowed, or all of them when they are fewer. Each output taken is of the native asset, at
-- an allowed address, confirmed deeply enough and not recorded as sent in the spent set.
pub select_smallest_lem :
    (max_count min_conf tip_height : ℕ) (allowed : List String) (utxos : List (ℕ × Utxo))
    (cs : CoinSelector)
    → let s = (select_smallest_utxos max_count min_conf tip_height allowed utxos cs).1.utxos in
      let w : Wanted = record {
        min_conf = min_conf;
        tip_height = tip_height;
        allowed_addresses = allowed;
        asset_type = asset_type_soq;
      } in
      IsSmallest max_count (collect w 0 utxos cs.spent_set).1 s × All (IsSound w 0 cs.spent_set) s
unfolding select_smallest_utxos
select_smallest_lem max_count min_conf tip_height allowed utxos cs =
    let w : Wanted = record {
      min_conf = min_conf;
      tip_height = tip_height;
      allowed_addresses = allowed;
      asset_type = asset_type_soq;
    } in
    let c = (collect w 0 utxos cs.spent_set).1 in
    rw (utxos-smallest_of (first max_count (smallest_first c))) (
      first-IsSmallest max_count c,
      All-first (IsSound w 0 cs.spent_set) max_count (smallest_first c) (
          All-smallest_first (IsSound w 0 cs.spent_set) c (collect-IsSound w 0 utxos cs.spent_set)),
    )
