-- ===== src/SpentSet.antt =====
-- utxo/selector.go: the spent set. Each method takes the time that its `time.Now()` reads and, where
-- it writes the file, what that write came to; it returns the new set and the error. The zero
-- `time.Time` is `none`. The JSON of the file is its list of entries, without the time of writing,
-- which nothing reads.
pub mod Tests
pub mod Reserving
pub mod Methods
use Prim.Native.String.{◌++◌ as str_append}
use text.Mathlib.Text.{starts_with}
use soqucoin_sdk.Prelude.{
  ℕ, ◌+◌, ◌*◌, String, ◌≡◌, Bool, true, false, not, ◌&&◌, ◌||◌, Option, none, some, List, [], ◌∷◌,
  map, if◌then◌else◌, ltb, ◌==◌, string_Eq, contains, is_some,
}
use soqucoin_sdk.Errors.{
  Kind, already_reserved, persist_failed, written_not_durable, custom, Fault, is,
}
use soqucoin_sdk.Types.{Outpoint, outpoint_Eq, Utxo}
use soqucoin_sdk.AtomicFile.{WriteOutcome, written, not_durable, write_failed}
use soqucoin_sdk.Map
use soqucoin_sdk.Map.{Map}

pub record SpentEntry : Type 0 where
  pub outpoint : Outpoint
  pub spent_in_tx : String
  pub spent_at : ℕ
  pub confirmed : Bool
  pub expires_at : Option ℕ
  pub intent_id : String

abbrev pub reserved_prefix : String
reserved_prefix = "reserved:"

unfoldable pub reserved : SpentEntry → Bool
reserved e = is_some e.expires_at && starts_with e.spent_in_tx reserved_prefix

-- now.After(t); the zero time is in the past.
abbrev pub after : ℕ → Option ℕ → Bool
after now none = true
after now (some t) = ltb t now

unfoldable pub expired : ℕ → SpentEntry → Bool
unfolding reserved
expired now e = reserved e && after now e.expires_at

unfoldable pub sent_by_another : String → String → SpentEntry → Bool
unfolding reserved
sent_by_another broadcast_tx_id intent_id e =
    if reserved e || e.confirmed || (e.spent_in_tx == broadcast_tx_id)
    then false
    else (intent_id == "") || not (e.intent_id == intent_id)

abbrev pub Entries : Type 0
Entries = Map Outpoint SpentEntry

-- `file` is what the path holds: nothing before the first write.
pub record SpentSet : Type 0 where
  pub entries : Entries
  pub file_backed : Bool
  pub file : Option (List SpentEntry)

write_entries : WriteOutcome → SpentSet → SpentSet × Fault
write_entries written ss = (record ss { file = some (Map.values ss.entries) }, none)
write_entries not_durable ss = (
  record ss { file = some (Map.values ss.entries) },
  some (persist_failed ∷ written_not_durable ∷ []),
)
write_entries write_failed ss = (ss, some (persist_failed ∷ []))

unfoldable pub persist : WriteOutcome → SpentSet → SpentSet × Fault
unfolding write_entries
persist w ss = if ss.file_backed then write_entries w ss else (ss, none)
