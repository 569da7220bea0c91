-- ===== src/Map/Defs.antt =====
-- A map as a list of entries, where the first entry of a key hides the later ones.
use soqucoin_sdk.Prelude.{
  ℕ, Bool, Option, none, some, List, [], ◌∷◌, map, if◌then◌else◌, length, Eq, ◌==◌,
}

pub record Map {ℓ κ} (K : Type ℓ) (V : Type κ) : Type (ℓ ⊔ κ) where
  pub entries : List (K × V)

-- What is left of an entry that may be deleted.
abbrev pub keep {κ} : {V : Type κ} → (V → Bool) → Option V → Option V
keep p none = none
keep p (some v) = if p v then some v else none

-- The value after the entries of another map are written.
abbrev pub put_over {κ} : {V : Type κ} → Option V → Option V → Option V
put_over none now = now
put_over (some v) now = some v

-- The value after a write-back of what a key had: nothing to write back, an absence or a value.
abbrev pub put_back {κ} : {V : Type κ} → Option (Option V) → Option V → Option V
put_back none now = now
put_back (some old) now = old

module _ {ℓ κ} {K : Type ℓ} {V : Type κ} ⦃e : Eq K⦄ where
  unfoldable pub find : K → List (K × V) → Option V
  find k [] = none
  find k ((j, v) ∷ l) = if j == k then some v else find k l

  unfoldable pub drop : K → List (K × V) → List (K × V)
  drop k [] = []
  drop k ((j, v) ∷ l) = let rest = drop k l in if j == k then rest else (j, v) ∷ rest

  -- An entry hides the later ones of its key, so what it hides goes with it.
  unfoldable pub filter : (V → Bool) → List (K × V) → List (K × V)
  filter p [] = []
  filter p ((k, v) ∷ l) = let rest = drop k (filter p l) in if p v then (k, v) ∷ rest else rest

  unfoldable pub distinct : List (K × V) → List (K × V)
  distinct [] = []
  distinct ((k, v) ∷ l) = (k, v) ∷ drop k (distinct l)

  unfoldable pub empty : Map K V
  empty = record { entries = [] }

  -- v, ok := m[k]
  unfoldable pub get : K → Map K V → Option V
  unfolding find
  get k m = find k m.entries

  -- delete(m, k)
  unfoldable pub remove : K → Map K V → Map K V
  unfolding drop
  remove k m = record { entries = drop k m.entries }

  -- m[k] = v
  unfoldable pub put : K → V → Map K V → Map K V
  unfolding drop
  put k v m = record { entries = (k, v) ∷ drop k m.entries }

  -- for k, v := range m { if !p(v) { delete(m, k) } }
  unfoldable pub retain : (V → Bool) → Map K V → Map K V
  unfolding filter drop
  retain p m = record { entries = filter p m.entries }

  -- The values, each key's once, in the order of a `range`.
  unfoldable pub values : Map K V → List V
  unfolding distinct drop
  values m = map (λ e. e.1) (distinct m.entries)

  -- len(m)
  unfoldable pub size : Map K V → ℕ
  unfolding values
  size m = length (values m)

module _ {ℓ κ} {K : Type ℓ} {V : Type κ} ⦃e : Eq K⦄ where
  unfoldable pub insert_list : List (K × V) → Map K V → Map K V
  unfolding put
  insert_list [] m = m
  insert_list ((k, v) ∷ l) m = put k v (insert_list l m)

  -- for k, v := range extra { m[k] = v }
  unfoldable pub insert_all : Map K V → Map K V → Map K V
  unfolding insert_list
  insert_all extra m = insert_list extra.entries m

  unfoldable pub restore_list : List (K × Option V) → Map K V → Map K V
  unfolding put remove
  restore_list [] m = m
  restore_list ((k, none) ∷ l) m = remove k (restore_list l m)
  restore_list ((k, some v) ∷ l) m = put k v (restore_list l m)

  -- for k, old := range previous { if old == nil { delete(m, k) } else { m[k] = *old } }
  unfoldable pub restore : Map K (Option V) → Map K V → Map K V
  unfolding restore_list
  restore previous m = restore_list previous.entries m
