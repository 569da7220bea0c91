-- ===== src/Withdraw/Store/Laws.antt =====
-- What a write of the store leaves: a record only ever moves from the state that the write names.
use soqucoin_sdk.Prelude.{
  String, ◌≡◌, ◌≢◌, refl, ◌∙◌, Bool, true, false, ◌&&◌, none, some, arith, ◌⊎◌, inl, inr,
  Bool-cases, if◌then◌else◌, ◌==◌, string_Eq, Option-cases,
}
use soqucoin_sdk.Errors.{written_not_durable, Fault, is}
use soqucoin_sdk.AtomicFile.{WriteOutcome, written, not_durable, write_failed}
use soqucoin_sdk.Map.{get-put}
use soqucoin_sdk.Withdraw.Intent.{State, state_eq, state_eq_iff, Intent}
use soqucoin_sdk.Withdraw.Store.{Store, get, put, create, update, expect_state}

-- The write reached the store: it returned nil, or said that only its durability is unconfirmed.
abbrev pub landed : Fault → Bool
landed none = true
landed (some err) = is written_not_durable err

get-put_store :
    (w : WriteOutcome) (i : Intent) (st : Store) (j : String)
    → get j (put w i st).0 ≡ (if landed (put w i st).1 && (i.id == j) then some i else get j st)
unfolding put get is
get-put_store written i st j = ground (arith, get-put i.id j i st.intents)
get-put_store not_durable i st j = ground (arith, get-put i.id j i st.intents)
get-put_store write_failed i st j = ground (arith, get-put i.id j i st.intents)

pub get-update :
    (w : WriteOutcome) (i : Intent) (from : State) (st : Store) (j : String)
    → get j (update w i from st).0
      ≡ (if landed (update w i from st).1 && (i.id == j) then some i else get j st)
unfolding update expect_state is
get-update w i from st j = ground (arith, get-put_store w i st j)

-- An Update that returned nil, or an error that says that only durability is unconfirmed, found a
-- record under its id, in the state that the Update names.
pub update_found :
    (w : WriteOutcome) (i : Intent) (from : State) (st : Store)
    → landed (update w i from st).1 ≡ true
    → (prev : Intent) × (get i.id st ≡ some prev) × (prev.state ≡ from)
unfolding update expect_state is
update_found w i from st h = elim (Option-cases (get i.id st)) [
  | inl e ↦ absurd (ground (arith, e))
  | inr (prev, e) ↦ (prev, e, ground (arith, e, state_eq_iff prev.state from))
]

-- An Update that does not land failed to write, or found no record in the state named.
update_refused :
    (w : WriteOutcome) (i : Intent) (from : State) (st : Store)
    → landed (update w i from st).1 ≡ false
    → (w ≡ write_failed)
      ⊎ ((get i.id st ≡ none) ⊎ ((prev : Intent) × (get i.id st ≡ some prev) × (prev.state ≢ from)))
unfolding update put expect_state is
update_refused w i from st h = elim (Option-cases (get i.id st)) [
  | inl e ↦ inr (inl e)
  | inr (prev, e) ↦ elim (Bool-cases (state_eq prev.state from)) [
    | inr k ↦ inr (inr (prev, e, ground (arith, k, state_eq_iff prev.state from)))
    | inl k ↦ inl (ground (arith, h, e, k))
  ]
]

-- Update is a compare and set on the state that it names. Either it lands: it returns nil or an error
-- that says that only durability is unconfirmed, the store had a record under the id in the state
-- named, and now the new record is under that id and every other id is as it was. Or it does not land,
-- and leaves every id as it was; then the write failed, or there was no record under the id, or it was
-- in another state.
pub update_compares :
    (w : WriteOutcome) (i : Intent) (from : State) (st : Store) (j : String)
    → ((landed (update w i from st).1 ≡ true)
        × ((prev : Intent) × (get i.id st ≡ some prev) × (prev.state ≡ from))
        × (get j (update w i from st).0 ≡ (if i.id == j then some i else get j st)))
      ⊎ ((landed (update w i from st).1 ≡ false)
          × (get j (update w i from st).0 ≡ get j st)
          × ((w ≡ write_failed)
              ⊎ ((get i.id st ≡ none)
                  ⊎ ((prev : Intent) × (get i.id st ≡ some prev) × (prev.state ≢ from)))))
update_compares w i from st j = elim (Bool-cases (landed (update w i from st).1)) [
  | inl h ↦ inl (h, update_found w i from st h, get-update w i from st j ∙ rw h refl)
  | inr h ↦ inr (h, get-update w i from st j ∙ rw h refl, update_refused w i from st h)
]

pub get-create :
    (w : WriteOutcome) (i : Intent) (st : Store) (j : String)
    → get j (create w i st).0
      ≡ (if landed (create w i st).1 && (i.id == j) then some i else get j st)
unfolding create is
get-create w i st j = ground (arith, get-put_store w i st j)

pub create_absent :
    (w : WriteOutcome) (i : Intent) (st : Store)
    → landed (create w i st).1 ≡ true
    → get i.id st ≡ none
unfolding create is
create_absent w i st h = ground arith
