-- ===== src/SpentSet/Methods/Owners.antt =====
-- `ReservedIntents` and `SentIntents`: the owners of the entries that they look for.
use Prim.Native.Nat.{Ordering}
use Prim.Native.String.{compare}
use text.Mathlib.TextEquality.{path_by_compare}
use mathlib.Core.Path.{subst}
use soqucoin_sdk.Prelude.{
  String, ◌≡◌, sym, Bool, true, false, some, List, [], ◌∷◌, arith, All, ◌⊎◌, contains, ◌==◌,
  string_Eq, Bool-cases, inl, inr, refl,
}
use soqucoin_sdk.Types.{Outpoint, outpoint_Eq}
use soqucoin_sdk.Map
use soqucoin_sdk.Map.{get_of_All_values}
use soqucoin_sdk.SpentSet.{SpentEntry, SpentSet, reserved}
use soqucoin_sdk.SpentSet.Methods.{insert_id, intents_of, reserved_intents}

Ordering-cases : (o : Ordering) → (o ≡ Ordering.lt) ⊎ ((o ≡ Ordering.eq) ⊎ (o ≡ Ordering.gt))
Ordering-cases Ordering.lt = inl refl
Ordering-cases Ordering.eq = inr (inl refl)
Ordering-cases Ordering.gt = inr (inr refl)

contains-insert_id : (id : String) (xs : List String) → contains (insert_id id xs) id ≡ true
unfolding insert_id
contains-insert_id id [] = ground (arith, string_Eq.beq_iff id id)
contains-insert_id id (x ∷ xs) = elim (Ordering-cases (compare id x)) [
  | inl c ↦ ground (arith, c, string_Eq.beq_iff id id)
  | inr (inl c) ↦ ground (arith, c, string_Eq.beq_iff x id, path_by_compare id x c)
  | inr (inr c) ↦ ground (arith, c, contains-insert_id id xs)
]

contains-insert_id_of :
    (id y : String) (xs : List String) → contains xs y ≡ true → contains (insert_id id xs) y ≡ true
unfolding insert_id
contains-insert_id_of id y [] h = absurd cc
contains-insert_id_of id y (x ∷ xs) h = elim (Ordering-cases (compare id x)) [
  | inl c ↦ ground (arith, c, h)
  | inr (inl c) ↦ ground (arith, c, h)
  | inr (inr c) ↦ elim (Bool-cases (x == y)) [
    | inl b ↦ ground (arith, c, b)
    | inr b ↦ ground (arith, c, b, contains-insert_id_of id y xs (ground (arith, h, b)))
  ]
]

module _ (p : SpentEntry → Bool) where
  IsListed : List String → SpentEntry → Type 0
  IsListed ids e = p e ≡ true → contains ids e.intent_id ≡ true

  All-IsListed :
      (ids ids' : List String) (es : List SpentEntry)
      → ((y : String) → contains ids y ≡ true → contains ids' y ≡ true)
      → All (IsListed ids) es
      → All (IsListed ids') es
  unfolding IsListed
  All-IsListed ids ids' [] k h = tt
  All-IsListed ids ids' (e ∷ es) k h = (λ b. k e.intent_id (h.0 b), All-IsListed ids ids' es k h.1)

  intents_of-owned :
      (e : SpentEntry) (es : List SpentEntry)
      → p e ≡ true
      → intents_of p (e ∷ es) ≡ insert_id e.intent_id (intents_of p es)
  unfolding intents_of
  intents_of-owned e es b = rw b refl

  intents_of-other :
      (e : SpentEntry) (es : List SpentEntry)
      → p e ≡ false
      → intents_of p (e ∷ es) ≡ intents_of p es
  unfolding intents_of
  intents_of-other e es b = rw b refl

  intents_of-IsListed : (es : List SpentEntry) → All (IsListed (intents_of p es)) es
  unfolding IsListed
  intents_of-IsListed [] = tt
  intents_of-IsListed (e ∷ es) =
      let found = intents_of-IsListed es in
      let rest = intents_of p es in
      elim (Bool-cases (p e)) [
        | inl b ↦
            subst (λ ids. IsListed ids e × All (IsListed ids) es) (sym (intents_of-owned e es b))
              (
                λ c. contains-insert_id e.intent_id rest,
                All-IsListed rest (insert_id e.intent_id rest) es
                    (λ y. contains-insert_id_of e.intent_id y rest) found,
              )
        | inr b ↦
            subst (λ ids. IsListed ids e × All (IsListed ids) es) (sym (intents_of-other e es b))
              (λ c. absurd (ground (arith, b, c)), found)
      ]

pub reserved_intents-listed :
    (ss : SpentSet) (j : Outpoint) (e : SpentEntry)
    → Map.get j ss.entries ≡ some e
    → reserved e ≡ true
    → contains (reserved_intents ss) e.intent_id ≡ true
unfolding reserved_intents IsListed
reserved_intents-listed ss j e g r =
    get_of_All_values (IsListed reserved (reserved_intents ss)) j ss.entries
      (intents_of-IsListed reserved (Map.values ss.entries)) g r
