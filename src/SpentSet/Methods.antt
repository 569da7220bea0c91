-- ===== src/SpentSet/Methods.antt =====
-- utxo/selector.go: the other methods of `SpentSet`. Durations are in nanoseconds.
pub mod Effects
pub mod Permanence
pub mod Owners
use Prim.Native.Nat.{Ordering}
use Prim.Native.String.{compare}
use soqucoin_sdk.Prelude.{
  ℕ, ◌+◌, ◌*◌, String, Bool, true, false, not, ◌&&◌, ◌||◌, Option, none, some, List, [], ◌∷◌,
  if◌then◌else◌, ltb, ◌==◌, nat_eq, string_Eq,
}
use soqucoin_sdk.Errors.{already_reserved, written_not_durable, Fault, is}
use soqucoin_sdk.Types.{Outpoint, outpoint_Eq, Utxo}
use soqucoin_sdk.AtomicFile.{WriteOutcome}
use soqucoin_sdk.Map
use soqucoin_sdk.SpentSet.{
  SpentEntry, Entries, SpentSet, reserved, expired, sent_by_another, persist,
}

abbrev pub hour : ℕ
hour = 3600 * 1_000_000_000

-- Deletes the entries for which `gone` holds, and writes the file if there were any.
sweep : WriteOutcome → (SpentEntry → Bool) → SpentSet → SpentSet × Fault
unfolding persist
sweep w gone ss =
    if nat_eq (Map.size (Map.retain gone ss.entries)) 0
    then (ss, none)
    else persist w (record ss { entries = Map.retain (λ e. not (gone e)) ss.entries })

unfoldable pub reserved_by : String → SpentEntry → Bool
unfolding reserved
reserved_by intent_id e = reserved e && (e.intent_id == intent_id)

unfoldable pub release : WriteOutcome → String → SpentSet → SpentSet × Fault
unfolding sweep reserved_by
release w intent_id ss = sweep w (reserved_by intent_id) ss

forget_persisted : Entries → SpentSet × Fault → SpentSet × Fault
unfolding is
forget_persisted dropped (ss, none) = (ss, none)
forget_persisted dropped (ss, some err) =
    if is written_not_durable err
    then (ss, some err)
    else (record ss { entries = Map.insert_all dropped ss.entries }, some err)

forget_owned : WriteOutcome → (SpentEntry → Bool) → SpentSet → SpentSet × Fault
unfolding forget_persisted persist
forget_owned w owned ss =
    let dropped = Map.retain owned ss.entries in
    if nat_eq (Map.size dropped) 0
    then (ss, none)
    else forget_persisted dropped
        (persist w (record ss { entries = Map.retain (λ e. not (owned e)) ss.entries }))

unfoldable pub forget : WriteOutcome → String → SpentSet → SpentSet × Fault
unfolding forget_owned
forget w intent_id ss =
    if intent_id == "" then (ss, some []) else forget_owned w (λ e. e.intent_id == intent_id) ss

-- A set of ids, sorted: `sort.Strings` of the keys of a `map[string]bool`.
insert_id : String → List String → List String
insert_id id [] = id ∷ []
insert_id id (x ∷ xs) =
    let rest = x ∷ insert_id id xs in
    elim (compare id x) [ Ordering.lt ↦ id ∷ x ∷ xs | Ordering.eq ↦ x ∷ xs | Ordering.gt ↦ rest ]

intents_of : (SpentEntry → Bool) → List SpentEntry → List String
unfolding insert_id
intents_of p [] = []
intents_of p (e ∷ es) =
    let rest = intents_of p es in if p e then insert_id e.intent_id rest else rest

unfoldable pub sent_unconfirmed : SpentEntry → Bool
unfolding reserved
sent_unconfirmed e = not (reserved e) && not e.confirmed && not (e.intent_id == "")

unfoldable pub sent_intents : SpentSet → List String
unfolding intents_of sent_unconfirmed
sent_intents ss = intents_of sent_unconfirmed (Map.values ss.entries)

unfoldable pub reserved_intents : SpentSet → List String
unfolding intents_of reserved
reserved_intents ss = intents_of reserved (Map.values ss.entries)

unfoldable pub any_sent_by_another : String → String → Entries → List Utxo → Bool
unfolding sent_by_another
any_sent_by_another tx_id intent_id entries [] = false
any_sent_by_another tx_id intent_id entries (u ∷ us) = elim (Map.get u.outpoint entries) [
  | none ↦ any_sent_by_another tx_id intent_id entries us
  | some e ↦ sent_by_another tx_id intent_id e || any_sent_by_another tx_id intent_id entries us
]

unfoldable pub sent_entry : ℕ → String → String → Outpoint → SpentEntry
sent_entry now tx_id intent_id key = record {
  outpoint = key;
  spent_in_tx = tx_id;
  spent_at = now;
  confirmed = false;
  expires_at = none;
  intent_id = intent_id;
}

unfoldable pub mark_loop : ℕ → String → String → List Utxo → Entries → Entries
unfolding sent_entry
mark_loop now tx_id intent_id [] entries = entries
mark_loop now tx_id intent_id (u ∷ us) entries =
    mark_loop now tx_id intent_id us
      (Map.put u.outpoint (sent_entry now tx_id intent_id u.outpoint) entries)

-- markBroadcast; MarkBroadcast gives the empty intent id.
unfoldable pub mark_broadcast_for :
    ℕ → WriteOutcome → List Utxo → String → String → SpentSet → SpentSet × Fault
unfolding any_sent_by_another mark_loop persist
mark_broadcast_for now w inputs tx_id intent_id ss =
    if any_sent_by_another tx_id intent_id ss.entries inputs
    then (ss, some (already_reserved ∷ []))
    else persist w (record ss { entries = mark_loop now tx_id intent_id inputs ss.entries })

unfoldable pub mark_broadcast : ℕ → WriteOutcome → List Utxo → String → SpentSet → SpentSet × Fault
unfolding mark_broadcast_for
mark_broadcast now w inputs tx_id ss = mark_broadcast_for now w inputs tx_id "" ss

-- An expired reservation is deleted from memory by the question.
unfoldable pub is_spent : ℕ → Outpoint → SpentSet → SpentSet × Bool
unfolding expired
is_spent now key ss = elim (Map.get key ss.entries) [
  | none ↦ (ss, false)
  | some e ↦
      if expired now e
      then (record ss { entries = Map.remove key ss.entries }, false)
      else (ss, true)
]

confirm_at : Outpoint → Option SpentEntry → Entries × Bool → Entries × Bool
confirm_at key none r = r
confirm_at key (some e) (entries, changed) =
    if e.confirmed
    then (entries, changed)
    else (Map.put key (record e { confirmed = true }) entries, true)

confirm_loop : List Utxo → Entries × Bool → Entries × Bool
unfolding confirm_at
confirm_loop [] r = r
confirm_loop (u ∷ us) r = confirm_loop us (confirm_at u.outpoint (Map.get u.outpoint r.0) r)

confirm_changed : WriteOutcome → SpentSet → Entries × Bool → SpentSet × Fault
unfolding persist
confirm_changed w ss (entries, changed) =
    if changed then persist w (record ss { entries = entries }) else (ss, none)

unfoldable pub confirm_spent_all : WriteOutcome → List Utxo → SpentSet → SpentSet × Fault
unfolding confirm_loop confirm_changed
confirm_spent_all w inputs ss = confirm_changed w ss (confirm_loop inputs (ss.entries, false))

unfoldable pub confirm_spent : WriteOutcome → Outpoint → SpentSet → SpentSet × Fault
unfolding confirm_spent_all
confirm_spent w key ss =
    confirm_spent_all w
      (record { outpoint = key; value = 0; height = 0; address = ""; asset_type = 0 } ∷ []) ss

-- entry.SpentAt.Before(now.Add(-d))
abbrev older_than : ℕ → ℕ → SpentEntry → Bool
older_than d now e = ltb (e.spent_at + d) now

unfoldable pub prunable : ℕ → SpentEntry → Bool
unfolding expired
prunable now e = (e.confirmed && older_than hour now e) || expired now e

unfoldable pub prune : ℕ → WriteOutcome → SpentSet → SpentSet × Fault
unfolding sweep prunable
prune now w ss = sweep w (prunable now) ss

-- What reading the path and parsing it gives.
pub data ReadOutcome : Type 0 where
  no_file unreadable : ReadOutcome
  parsed : List SpentEntry → ReadOutcome

load_loop : ℕ → List SpentEntry → Entries → Entries
load_loop now [] entries = entries
load_loop now (e ∷ es) entries =
    load_loop now es
      (if e.confirmed && older_than (2 * hour) now e then entries else Map.put e.outpoint e entries)

-- OpenSpentSet at a path; `none` is ErrSpentSetUnreadable.
unfoldable pub open_spent_set : ℕ → ReadOutcome → Option SpentSet
unfolding load_loop
open_spent_set now no_file = some (record { entries = Map.empty; file_backed = true; file = none })
open_spent_set now unreadable = none
open_spent_set now (parsed es) =
    some (record { entries = load_loop now es Map.empty; file_backed = true; file = some es })

or_empty : Option SpentSet → SpentSet
or_empty none = record { entries = Map.empty; file_backed = true; file = none }
or_empty (some ss) = ss

-- NewSpentSet: at no path nothing is read, and an unreadable file is an empty set.
unfoldable pub new_spent_set : ℕ → Option ReadOutcome → SpentSet
unfolding open_spent_set or_empty
new_spent_set now none = record { entries = Map.empty; file_backed = false; file = none }
new_spent_set now (some r) = or_empty (open_spent_set now r)

unfoldable pub size : SpentSet → ℕ
size ss = Map.size ss.entries
