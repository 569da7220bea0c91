-- ===== src/Withdraw/Engine.antt =====
-- withdraw/engine.go: `Engine` and what its transitions share. The store, the spent set and the calls
-- of the Broadcaster are one state. What the outside answers, and the times at which the clock is
-- read, come with each call: the selector, the signer, the node, the file system and the context.
-- Every transition runs under the engine's lock, so each is one step. `Process` takes the lock twice and
-- says what other callers do before each; `Recover` is the start-up pass, before other callers begin.
pub mod Building
pub mod Sending
pub mod Settling
pub mod Driving
use soqucoin_sdk.Prelude.{
  ℕ, String, Bool, true, false, not, ◌||◌, ◌&&◌, Option, none, some, List, [], ◌∷◌, if◌then◌else◌,
  nat_eq, ◌==◌, string_Eq, ◌*◌,
}
use soqucoin_sdk.Errors.{
  canceled, deadline_exceeded, invalid_intent, wrong_state, already_reserved, reservation_lost,
  Error, Fault, is, join,
}
use soqucoin_sdk.AtomicFile.{WriteOutcome}
use soqucoin_sdk.SpentSet.{SpentSet}
use soqucoin_sdk.SpentSet.Methods
use soqucoin_sdk.Withdraw.Intent.{State, failed, state_eq, Intent}
use soqucoin_sdk.Withdraw.Store
use soqucoin_sdk.Withdraw.Store.{Store}

-- `on_network` is address.Validate at the network's prefix.
pub record Engine : Type 0 where
  pub on_network : String → Bool
  pub required_confirmations : ℕ
  pub reservation_ttl : ℕ
  pub abandon_after : ℕ

-- A call of the Broadcaster: the bytes and the txid that it is given, and whose they are.
pub record Sent : Type 0 where
  pub id : String
  pub raw_hex : String
  pub tx_id : String

-- `wire` holds each call of the Broadcaster, the last first.
pub record World : Type 0 where
  pub store : Store
  pub spent : SpentSet
  pub wire : List Sent

-- The intent's bytes are handed to the Broadcaster.
unfoldable pub hand_over : Intent → World → World
hand_over i world = record world {
  wire = record { id = i.id; raw_hex = i.raw_hex; tx_id = i.tx_id } ∷ world.wire;
}

-- A write: when, and what came of it.
pub record Write : Type 0 where
  pub at : ℕ
  pub outcome : WriteOutcome

-- What a transition leaves: the state, the caller's copy of the intent, and the error.
pub record Reply : Type 0 where
  pub world : World
  pub copy : Intent
  pub fault : Fault

unfoldable pub context_ended : Error → Bool
unfolding is
context_ended err = is canceled err || is deadline_exceeded err

abbrev pub default_reservation_ttl : ℕ
default_reservation_ttl = 4 * Methods.hour

abbrev pub default_abandon_after : ℕ
default_abandon_after = 24 * Methods.hour

unfoldable pub ttl : Engine → ℕ
ttl e = if nat_eq e.reservation_ttl 0 then default_reservation_ttl else e.reservation_ttl

unfoldable pub wait : Engine → ℕ
wait e = if nat_eq e.abandon_after 0 then default_abandon_after else e.abandon_after

unfoldable pub check_destination : Engine → String → Fault
check_destination e addr = if e.on_network addr then none else some (invalid_intent ∷ [])

unfoldable pub save : Write → State → Intent → World → Reply
save w from i world =
    let i' = record i { updated_at = w.at } in
    let (st, f) = Store.update w.outcome i' from world.store in
    record { world = record world { store = st }; copy = i'; fault = f }

-- What `reread` gives: the record, or the error.
pub data Reread : Type 0 where
  found : Intent → Reread
  refused : Error → Reread

abbrev pub in_states : List State → State → Bool
in_states [] s = false
in_states (x ∷ xs) s = state_eq x s || in_states xs s

unfoldable pub reread_record : List State → Option Intent → Reread
reread_record want none = refused (invalid_intent ∷ [])
reread_record want (some stored) =
    if in_states want stored.state then found stored else refused (wrong_state ∷ [])

unfoldable pub reread : List State → Intent → World → Reread
unfolding reread_record
reread want i world = reread_record want (Store.get i.id world.store)

unfoldable pub with_reread : Intent → World → (Intent → Reply) → Reread → Reply
with_reread i world go (found stored) = go stored
with_reread i world go (refused err) = record { world = world; copy = i; fault = some err }

-- Every transition but Submit begins so: with no record in a wanted state nothing is done.
unfoldable pub with_stored : List State → Intent → World → (Intent → Reply) → Reply
unfolding with_reread reread
with_stored want i world go = with_reread i world go (reread want i world)

unfoldable pub release : WriteOutcome → Intent → World → World
release w i world = record world { spent = (Methods.release w i.id world.spent).0 }

-- A save that failed adds its error to the cause.
unfoldable pub saved_with : Error → Reply → Reply
saved_with cause r = record r { fault = join (some cause) r.fault }

unfoldable pub fail_saved : WriteOutcome → Error → Reply → Reply
unfolding release
fail_saved w cause r = elim r.fault [
  | none ↦ record r { world = release w r.copy r.world; fault = some cause }
  | some err ↦ record r { fault = join (some cause) (some err) }
]

unfoldable pub failed_intent : Error → Bool → Intent → Intent
failed_intent cause keep_tx i =
    let i' = record i { state = failed; last_error = some cause } in
    if keep_tx then i' else record i' { raw_hex = ""; tx_id = ""; inputs = [] }

-- The verdict lands before the inputs are freed.
unfoldable pub fail : Write → WriteOutcome → Error → Bool → State → Intent → World → Reply
unfolding fail_saved failed_intent save
fail w release_write cause keep_tx from i world =
    fail_saved release_write cause (save w from (failed_intent cause keep_tx i) world)

unfoldable pub not_reserved : Error → Error
unfolding is
not_reserved err = if is already_reserved err then reservation_lost ∷ err else err
