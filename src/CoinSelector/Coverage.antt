-- ===== src/CoinSelector/Coverage.antt =====
-- What a selection is made of, and that it covers the amount.
use soqucoin_sdk.Prelude.{
  is_empty, contains, ◌⊎◌, string_Eq, ℕ, ◌+◌, ◌≤◌, ◌<◌, ◌≡◌, refl, Bool, true, false, not, ◌||◌,
  Option, none, some, List, [], ◌∷◌, ◌++◌, leb, ltb, length, length-append, All, arith, inl, inr,
  Bool-cases, map,
}
use soqucoin_sdk.Types.{Outpoint, Utxo, outpoint_Eq}
use soqucoin_sdk.Map
use soqucoin_sdk.SpentSet.{SpentSet}
use soqucoin_sdk.SpentSet.Methods.Permanence.{is_sent, asks_keep_sent, is_spent_sent}
use soqucoin_sdk.CoinSelector.{
  CoinSelector, Wanted, ask, eligible, collect, insert_largest, largest_first, add64, at_least,
  Selected, pick, select_by_asset_type, max_inputs_per_tx,
}

abbrev pub sum : List Utxo → ℕ
sum [] = 0
sum (u ∷ us) = u.value + sum us

pub sum-append : (us : List Utxo) (u : Utxo) → sum (us ++ (u ∷ [])) ≡ sum us + u.value
sum-append [] u = omega arith
sum-append (x ∷ us) u = omega (arith, sum-append us u)

module _ {κ} (P : Utxo → Type κ) where
  All-snoc : (us : List Utxo) (u : Utxo) → All P us → P u → All P (us ++ (u ∷ []))
  All-snoc [] u h p = (p, tt)
  All-snoc (x ∷ us) u h p = (h.0, All-snoc us u h.1 p)

  All-insert_largest : (u : Utxo) (us : List Utxo) → P u → All P us → All P (insert_largest u us)
  unfolding insert_largest
  All-insert_largest u [] p h = (p, tt)
  All-insert_largest u (x ∷ us) p h = elim (Bool-cases (ltb u.value x.value)) [
    | inl b ↦ rw b (h.0, All-insert_largest u us p h.1)
    | inr b ↦ rw b (p, h)
  ]

  All-largest_first : (us : List Utxo) → All P us → All P (largest_first us)
  unfolding largest_first
  All-largest_first [] h = h
  All-largest_first (u ∷ us) h =
      All-insert_largest u (largest_first us) h.0 (All-largest_first us h.1)

sum-insert_largest : (u : Utxo) (us : List Utxo) → sum (insert_largest u us) ≡ u.value + sum us
unfolding insert_largest
sum-insert_largest u [] = refl
sum-insert_largest u (x ∷ us) = ground (arith, sum-insert_largest u us)

pub sum-largest_first : (us : List Utxo) → sum (largest_first us) ≡ sum us
unfolding largest_first
sum-largest_first [] = refl
sum-largest_first (u ∷ us) =
    ground (arith, sum-insert_largest u (largest_first us), sum-largest_first us)

-- The output is recorded as sent, in the set as it was before the selection.
abbrev pub is_sent_in : Option SpentSet → Utxo → Bool
is_sent_in none u = false
is_sent_in (some ss) u = is_sent (Map.get u.outpoint ss.entries)

pub record IsSound (w : Wanted) (min_value : ℕ) (o : Option SpentSet) (u : Utxo) : Type 0 where
  pub wanted_asset : u.asset_type ≡ w.asset_type
  pub allowed :
      (is_empty w.allowed_addresses ≡ true) ⊎ (contains w.allowed_addresses u.address ≡ true)
  pub mined : 0 < u.height
  pub deep : u.height + w.min_conf ≤ w.tip_height + 1
  pub not_dust : min_value ≤ u.value
  pub not_sent : is_sent_in o u ≡ false

eligible_means :
    (w : Wanted) (u : Utxo)
    → eligible w u ≡ true
    → (u.asset_type ≡ w.asset_type)
      × ((is_empty w.allowed_addresses ≡ true) ⊎ (contains w.allowed_addresses u.address ≡ true))
      × (0 < u.height)
      × (u.height + w.min_conf ≤ w.tip_height + 1)
unfolding eligible
eligible_means w u h = ground (arith, h)

ask_keeps :
    (now : ℕ) (key : Outpoint) (o : Option SpentSet) (u : Utxo)
    → is_sent_in (ask now key o).0 u ≡ false
    → is_sent_in o u ≡ false
unfolding ask
ask_keeps now key none u h = refl
ask_keeps now key (some ss) u h = ground (arith, h, asks_keep_sent now key ss u.outpoint)

ask_sent :
    (now : ℕ) (o : Option SpentSet) (u : Utxo)
    → (ask now u.outpoint o).1 ≡ false
    → is_sent_in o u ≡ false
unfolding ask
ask_sent now none u h = refl
ask_sent now (some ss) u h = ground (arith, h, is_spent_sent now ss u.outpoint)

module _ (w : Wanted) (m : ℕ) where
  All-before :
      (now : ℕ) (key : Outpoint) (o : Option SpentSet) (us : List Utxo)
      → All (IsSound w m (ask now key o).0) us
      → All (IsSound w m o) us
  All-before now key o [] h = h
  All-before now key o (u ∷ us) h = (
    record {
      wanted_asset = h.0.wanted_asset;
      allowed = h.0.allowed;
      mined = h.0.mined;
      deep = h.0.deep;
      not_dust = h.0.not_dust;
      not_sent = ask_keeps now key o u h.0.not_sent;
    },
    All-before now key o us h.1,
  )

  pub collect-IsSound :
      (us : List (ℕ × Utxo)) (o : Option SpentSet) → All (IsSound w m o) (collect w m us o).1
  unfolding collect
  collect-IsSound [] o = tt
  collect-IsSound ((now, u) ∷ us) o =
      let rest =
        All-before now u.outpoint o (collect w m us (ask now u.outpoint o).0).1
          (collect-IsSound us (ask now u.outpoint o).0) in
      elim (Bool-cases ((ask now u.outpoint o).1 || not (eligible w u) || ltb u.value m)) [
        | inl b ↦ rw b rest
        | inr b ↦ rw b (
          record {
            wanted_asset = (eligible_means w u (ground (arith, b))).0;
            allowed = (eligible_means w u (ground (arith, b))).1;
            mined = (eligible_means w u (ground (arith, b))).2;
            deep = (eligible_means w u (ground (arith, b))).3;
            not_dust = ground (arith, b);
            not_sent = ask_sent now o u (ground (arith, b));
          },
          rest,
        )
      ]

pub sum-collect :
    (w : Wanted) (m : ℕ) (us : List (ℕ × Utxo)) (o : Option SpentSet)
    → sum (collect w m us o).1 ≤ sum (map (λ p. p.1) us)
unfolding collect
sum-collect w m [] o = omega arith
sum-collect w m ((now, u) ∷ us) o = ground (arith, sum-collect w m us (ask now u.outpoint o).0)

-- What a selection without an error promises.
pub record Covers (P : Utxo → Type 0) (target : ℕ) (s : Selected) : Type 0 where
  pub enough : target ≤ sum s.utxos
  pub exact : s.total ≡ sum s.utxos
  pub in_limit : length s.utxos ≤ max_inputs_per_tx
  pub sound : All P s.utxos

pub add64_exact : (a b : ℕ) → a + b < 9223372036854775808 → add64 a b ≡ a + b
add64_exact a b h = omega (arith, h)

pick-Covers :
    (P : Utxo → Type 0) (target : ℕ) (us selected : List Utxo) (total : ℕ)
    → total ≡ sum selected
    → sum selected + sum us < 9223372036854775808
    → length selected < max_inputs_per_tx
    → All P selected
    → All P us
    → (pick target us selected total).fault ≡ none
    → Covers P target (pick target us selected total)
unfolding pick
pick-Covers P target [] selected total e b l a c f = absurd (ground (arith, f))
pick-Covers P target (u ∷ us) selected total e b l a c f =
    let s = selected ++ (u ∷ []) in
    let t : add64 total u.value ≡ sum s =
      omega (arith, add64_exact total u.value, sum-append selected u, e, b) in
    elim (Bool-cases (at_least (add64 total u.value) target)) [
      | inl k ↦ rw k (record {
        enough = ground (arith, k, t);
        exact = t;
        in_limit = omega (arith, l, length-append selected (u ∷ []));
        sound = All-snoc P selected u a c.0;
      })
      | inr k ↦ elim (Bool-cases (leb max_inputs_per_tx (length s))) [
        | inl n ↦ absurd (ground (arith, k, n, f))
        | inr n ↦ rw k (
            rw n (
              pick-Covers P target us s (add64 total u.value) t
                (omega (arith, b, sum-append selected u)) (ground (arith, n))
                (All-snoc P selected u a c.0) c.1 (ground (arith, k, n, f))))
      ]
    ]

-- When the values of the outputs that are offered sum to less than two to the 63rd, a selection that
-- returns no error covers the amount, and its total is the sum of what it selected; it has at most
-- eighty inputs; and each of them is of the wanted asset, at an allowed address, confirmed deeply
-- enough, not below the smallest value, and not recorded as sent in the spent set.
pub select-Covers :
    (w : Wanted) (target : ℕ) (utxos : List (ℕ × Utxo)) (cs : CoinSelector)
    → sum (map (λ p. p.1) utxos) < 9223372036854775808
    → (select_by_asset_type w target utxos cs).1.fault ≡ none
    → Covers
        (IsSound w cs.min_utxo_value cs.spent_set)
        target
        (select_by_asset_type w target utxos cs).1
unfolding select_by_asset_type
select-Covers w target utxos cs b f =
    let candidates = (collect w cs.min_utxo_value utxos cs.spent_set).1 in
    let P = IsSound w cs.min_utxo_value cs.spent_set in
    pick-Covers P target (largest_first candidates) [] 0 refl
      (omega (
        arith,
        b,
        sum-largest_first candidates,
        sum-collect w cs.min_utxo_value utxos cs.spent_set,
      ))
      (omega arith) tt
      (All-largest_first P candidates (collect-IsSound w cs.min_utxo_value utxos cs.spent_set)) f
