-- ===== src/SpentSet/Reserving.antt =====
-- utxo/selector.go: `SpentSet.Reserve`.
pub mod Loop
pub mod Outcome
pub mod Exclusion
use Prim.Native.String.{◌++◌}
use soqucoin_sdk.Prelude.{
  ℕ, ◌+◌, String, Bool, true, false, not, ◌&&◌, ◌||◌, Option, none, some, List, [], ◌∷◌,
  if◌then◌else◌, ◌==◌, nat_eq, string_Eq,
}
use soqucoin_sdk.Errors.{already_reserved, Fault}
use soqucoin_sdk.Types.{Outpoint, outpoint_Eq, Utxo}
use soqucoin_sdk.AtomicFile.{WriteOutcome}
use soqucoin_sdk.Map
use soqucoin_sdk.Map.{Map}
use soqucoin_sdk.SpentSet.{
  SpentEntry, Entries, SpentSet, reserved_prefix, reserved, expired, persist,
}

-- The entry is this withdrawal's own; an empty id owns nothing.
unfoldable pub owned_by : String → SpentEntry → Bool
owned_by intent_id e = not (intent_id == "") && (e.intent_id == intent_id)

-- The first loop's test of one input.
unfoldable pub blocks : ℕ → String → Option SpentEntry → Bool
unfolding expired owned_by
blocks now intent_id none = false
blocks now intent_id (some e) = not (expired now e) && not (owned_by intent_id e)

unfoldable pub any_blocked : ℕ → String → Entries → List Utxo → Bool
unfolding blocks
any_blocked now intent_id entries [] = false
any_blocked now intent_id entries (u ∷ us) =
    blocks now intent_id (Map.get u.outpoint entries) || any_blocked now intent_id entries us

unfoldable pub reservation : ℕ → ℕ → String → Outpoint → SpentEntry
reservation now ttl intent_id key = record {
  outpoint = key;
  spent_in_tx = reserved_prefix ++ intent_id;
  spent_at = now;
  confirmed = false;
  expires_at = some (now + ttl);
  intent_id = intent_id;
}

-- What the second loop changes: the entries, and what they were before its first write to each.
abbrev pub Pending : Type 0
Pending = Entries × Map Outpoint (Option SpentEntry)

-- The withdrawal's own record of a send.
unfoldable pub own_send : String → Option SpentEntry → Bool
unfolding owned_by reserved
own_send intent_id none = false
own_send intent_id (some e) = owned_by intent_id e && not (reserved e)

reserve_new : ℕ → ℕ → String → Outpoint → Option SpentEntry → Pending → Pending
unfolding reservation own_send
reserve_new now ttl intent_id key old (entries, previous) =
    if own_send intent_id old
    then (entries, previous)
    else (Map.put key (reservation now ttl intent_id key) entries, Map.put key old previous)

reserve_one : ℕ → ℕ → String → Outpoint → Option (Option SpentEntry) → Pending → Pending
unfolding reserve_new
reserve_one now ttl intent_id key (some old) p = p
reserve_one now ttl intent_id key none p = reserve_new now ttl intent_id key (Map.get key p.0) p

unfoldable pub reserve_loop : ℕ → ℕ → String → List Utxo → Pending → Pending
unfolding reserve_one
reserve_loop now ttl intent_id [] p = p
reserve_loop now ttl intent_id (u ∷ us) p =
    reserve_loop now ttl intent_id us
      (reserve_one now ttl intent_id u.outpoint (Map.get u.outpoint p.1) p)

-- A write that failed puts back what was there.
reserve_persisted : Map Outpoint (Option SpentEntry) → SpentSet × Fault → SpentSet × Fault
reserve_persisted previous (ss, none) = (ss, none)
reserve_persisted previous (ss, some err) =
    (record ss { entries = Map.restore previous ss.entries }, some err)

reserve_free : WriteOutcome → SpentSet → Pending → SpentSet × Fault
unfolding reserve_persisted persist
reserve_free w ss (entries, previous) =
    if nat_eq (Map.size previous) 0
    then (record ss { entries = entries }, none)
    else reserve_persisted previous (persist w (record ss { entries = entries }))

unfoldable pub reserve : ℕ → WriteOutcome → List Utxo → String → ℕ → SpentSet → SpentSet × Fault
unfolding any_blocked reserve_loop reserve_free
reserve now w inputs intent_id ttl ss =
    if any_blocked now intent_id ss.entries inputs
    then (ss, some (already_reserved ∷ []))
    else reserve_free w ss (reserve_loop now ttl intent_id inputs (ss.entries, Map.empty))
