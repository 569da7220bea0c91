-- ===== src/Map/Laws.antt =====
-- The laws of a map, in terms of `get`.
use mathlib.Core.Option.{none-ne-some}
use mathlib.Core.Path.{subst}
use soqucoin_sdk.Prelude.{
  Bool, true, false, Option, none, some, ◌≡◌, refl, ◌∙◌, List, [], ◌∷◌, map, arith, ◌⊎◌, inl, inr,
  if◌then◌else◌, length, All, Eq, ◌==◌,
}
use soqucoin_sdk.Map.Defs.{
  Map, keep, put_over, put_back, find, drop, filter, distinct, empty, get, put, remove, retain,
  values, size, insert_list, insert_all, restore_list, restore,
}

-- What the head of a list of entries gives, or the rest.
of_head {κ} :
    {V : Type κ} {v w : V} {r : Option V} (b : Bool)
    → (if b then some w else r) ≡ some v
    → (w ≡ v) ⊎ (r ≡ some v)
of_head true h = inl (cc)
of_head false h = inr h

module _ {ℓ κ} {K : Type ℓ} {V : Type κ} ⦃e : Eq K⦄ where
  find-drop : (k j : K) (l : List (K × V)) → find j (drop k l) ≡ (if k == j then none else find j l)
  unfolding find drop
  find-drop k j [] = ground arith
  find-drop k j ((i, v) ∷ l) =
      ground (arith, find-drop k j l, e.beq_iff i k, e.beq_iff i j, e.beq_iff k j)

  find-filter : (p : V → Bool) (j : K) (l : List (K × V)) → find j (filter p l) ≡ keep p (find j l)
  unfolding find filter
  find-filter p j [] = refl
  find-filter p j ((i, v) ∷ l) =
      ground (arith, find-filter p j l, find-drop i j (filter p l), e.beq_iff i j)

  pub get-empty : (k : K) → get k (empty {V = V}) ≡ none
  unfolding get empty
  get-empty k = refl

  pub get-remove : (k j : K) (m : Map K V) → get j (remove k m) ≡ (if k == j then none else get j m)
  unfolding get remove
  get-remove k j m = find-drop k j m.entries

  pub get-put :
      (k j : K) (v : V) (m : Map K V) → get j (put k v m) ≡ (if k == j then some v else get j m)
  unfolding get put find
  get-put k j v m = ground (arith, find-drop k j m.entries)

  pub get-retain : (p : V → Bool) (j : K) (m : Map K V) → get j (retain p m) ≡ keep p (get j m)
  unfolding get retain
  get-retain p j m = find-filter p j m.entries

  get-restore_list :
      (j : K) (l : List (K × Option V)) (m : Map K V)
      → get j (restore_list l m) ≡ put_back (find j l) (get j m)
  unfolding restore_list find
  get-restore_list j [] m = refl
  get-restore_list j ((k, none) ∷ l) m =
      ground (arith, get-remove k j (restore_list l m), get-restore_list j l m)
  get-restore_list j ((k, some v) ∷ l) m =
      ground (arith, get-put k j v (restore_list l m), get-restore_list j l m)

  pub get-restore :
      (j : K) (previous : Map K (Option V)) (m : Map K V)
      → get j (restore previous m) ≡ put_back (get j previous) (get j m)
  unfolding restore get
  get-restore j previous m = unfold get in get-restore_list j previous.entries m

  get-insert_list :
      (j : K) (l : List (K × V)) (m : Map K V)
      → get j (insert_list l m) ≡ put_over (find j l) (get j m)
  unfolding insert_list find
  get-insert_list j [] m = refl
  get-insert_list j ((k, v) ∷ l) m =
      ground (arith, get-put k j v (insert_list l m), get-insert_list j l m)

  pub get-insert_all :
      (j : K) (extra m : Map K V) → get j (insert_all extra m) ≡ put_over (get j extra) (get j m)
  unfolding insert_all get
  get-insert_all j extra m = unfold get in get-insert_list j extra.entries m

  find-distinct : (j : K) (l : List (K × V)) → find j (distinct l) ≡ find j l
  unfolding find distinct
  find-distinct j [] = refl
  find-distinct j ((k, v) ∷ l) =
      ground (arith, find-drop k j (distinct l), find-distinct j l, e.beq_iff k j)

  -- A map of size 0 has no entry.
  pub get_of_size_zero : (j : K) (m : Map K V) → size m ≡ 0 → get j m ≡ none
  unfolding size get distinct find
  get_of_size_zero j m h = go m.entries h
    where
      go : (l : List (K × V)) → length (map (λ e. e.1) (distinct l)) ≡ 0 → find j l ≡ none
      go [] h = refl
      go ((k, v) ∷ l) h = absurd (omega arith)

  -- What holds of every listed value holds of the value of every key.
  pub get_of_All_values {μ} :
      (P : V → Type μ) (j : K) (m : Map K V) {v : V} → All P (values m) → get j m ≡ some v → P v
  unfolding values get find
  get_of_All_values P j m h g = go (distinct m.entries) h (find-distinct j m.entries ∙ g)
    where
      go : {v : V} (l : List (K × V)) → All P (map (λ e. e.1) l) → find j l ≡ some v → P v
      go [] h g = absurd (none-ne-some _ g)
      go ((k, w) ∷ l) h g = elim (of_head (k == j) g) [ inl e ↦ subst P e h.0 | inr r ↦ go l h.1 r ]

pub ruleset map_laws = (get-empty, get-remove, get-put, get-retain, get-restore, get-insert_all)
