-- ===== src/Withdraw/Store.antt =====
-- withdraw/store.go: `FileStore`, and `MemStore` as the store with no file. The JSON of the file is
-- its list of intents. Neither store fails a read.
pub mod Laws
pub mod Tests
use Prim.Native.Nat.{Ordering}
use Prim.Native.String.{compare}
use soqucoin_sdk.Prelude.{
  ℕ, String, Bool, true, false, ◌||◌, ◌&&◌, Option, none, some, List, [], ◌∷◌, if◌then◌else◌, ltb,
  nat_eq, string_Eq, is_some, is_empty,
}
use soqucoin_sdk.Errors.{exists, stale, written_not_durable, Fault}
use soqucoin_sdk.AtomicFile.{WriteOutcome, written, not_durable, write_failed}
use soqucoin_sdk.Map
use soqucoin_sdk.Map.{Map}
use soqucoin_sdk.Withdraw.Intent.{State, state_eq, Intent}

pub record Store : Type 0 where
  pub intents : Map String Intent
  pub file_backed : Bool
  pub file : Option (List Intent)

unfoldable pub new_mem_store : Store
new_mem_store = record { intents = Map.empty; file_backed = false; file = none }

unfoldable pub get : String → Store → Option Intent
get id st = Map.get id st.intents

-- The order of `filterSorted`: by creation, then by id.
before : Intent → Intent → Bool
before a b =
    if nat_eq a.created_at b.created_at
    then elim (compare a.id b.id) [ Ordering.lt ↦ true | _ ↦ false ]
    else ltb a.created_at b.created_at

insert : Intent → List Intent → List Intent
unfolding before
insert i [] = i ∷ []
insert i (x ∷ xs) = let rest = x ∷ insert i xs in if before x i then rest else i ∷ x ∷ xs

has_state : List State → State → Bool
has_state [] s = false
has_state (x ∷ xs) s = state_eq x s || has_state xs s

filter_list : List State → List Intent → List Intent
unfolding insert has_state
filter_list states [] = []
filter_list states (i ∷ is) =
    let rest = filter_list states is in
    if is_empty states || has_state states i.state then insert i rest else rest

-- filterSorted, which is List.
unfoldable pub list : List State → Store → List Intent
unfolding filter_list
list states st = filter_list states (Map.values st.intents)

-- FileStore.put: what is in memory after the write, and the error.
put_file : WriteOutcome → Store → Store → Store × Fault
unfolding list
put_file written st st' = (record st' { file = some (list [] st') }, none)
put_file not_durable st st' =
    (record st' { file = some (list [] st') }, some (written_not_durable ∷ []))
put_file write_failed st st' = (st, some [])

unfoldable pub put : WriteOutcome → Intent → Store → Store × Fault
unfolding put_file
put w i st =
    let st' = record st { intents = Map.put i.id i st.intents } in
    if st.file_backed then put_file w st st' else (st', none)

unfoldable pub create : WriteOutcome → Intent → Store → Store × Fault
unfolding put get
create w i st = if is_some (get i.id st) then (st, some (exists ∷ [])) else put w i st

-- expectState
unfoldable pub expect_state : Option Intent → State → Fault
expect_state none from = some (stale ∷ [])
expect_state (some prev) from = if state_eq prev.state from then none else some (stale ∷ [])

update_expected : WriteOutcome → Intent → Store → Fault → Store × Fault
unfolding put
update_expected w i st none = put w i st
update_expected w i st (some err) = (st, some err)

unfoldable pub update : WriteOutcome → Intent → State → Store → Store × Fault
unfolding update_expected expect_state get
update w i from st = update_expected w i st (expect_state (get i.id st) from)

-- What reading the path and parsing it gives: the version and the intents.
pub data ReadOutcome : Type 0 where
  no_file unreadable : ReadOutcome
  parsed : ℕ → List Intent → ReadOutcome

unfoldable pub load_intents : List Intent → Map String Intent → Map String Intent
load_intents [] m = m
load_intents (i ∷ is) m = load_intents is (Map.put i.id i m)

-- NewFileStore; `none` is an error.
unfoldable pub new_file_store : ReadOutcome → Option Store
unfolding load_intents
new_file_store no_file = some (record { intents = Map.empty; file_backed = true; file = none })
new_file_store unreadable = none
new_file_store (parsed version is) =
    if nat_eq version 1
    then some (record { intents = load_intents is Map.empty; file_backed = true; file = some is })
    else none
