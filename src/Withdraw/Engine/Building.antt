-- ===== src/Withdraw/Engine/Building.antt =====
-- withdraw/engine.go: `Submit` and `Build`.
use soqucoin_sdk.Prelude.{
  ℕ, ◌+◌, String, Bool, true, false, ◌||◌, ◌&&◌, Option, none, some, List, [], ◌∷◌, if◌then◌else◌,
  nat_eq, ◌==◌, string_Eq,
}
use soqucoin_sdk.Errors.{
  transient, exists, conflict, invalid_intent, written_not_durable, Error, Fault, is,
}
use soqucoin_sdk.Types.{Utxo}
use soqucoin_sdk.AtomicFile.{WriteOutcome}
use soqucoin_sdk.SpentSet.{SpentSet}
use soqucoin_sdk.SpentSet.Reserving
use soqucoin_sdk.Withdraw.Intent.{created, built, Intent, recorded}
use soqucoin_sdk.Withdraw.Store
use soqucoin_sdk.Withdraw.Engine.{
  Engine, World, Write, Reply, context_ended, ttl, check_destination, save, with_stored, release,
  saved_with, fail,
}

-- Submit returns the intent that the store holds, if any, whether it was created, and the error.
pub record Submitted : Type 0 where
  pub world : World
  pub intent : Option Intent
  pub created : Bool
  pub fault : Fault

unfoldable pub fresh : ℕ → String → String → ℕ → ℕ → Intent
fresh now id address amount fee_rate = record {
  id = id;
  address = address;
  amount = amount;
  fee_rate = fee_rate;
  state = created;
  tx_id = "";
  node_tx_id = "";
  maybe_relayed = false;
  sent_at = none;
  abandoned_at = none;
  hold = "";
  raw_hex = "";
  inputs = [];
  attempts = 0;
  last_error = none;
  confirmations = 0;
  created_at = now;
  updated_at = now;
}

abbrev refuse_submit : World → Error → Submitted
refuse_submit world err = record { world = world; intent = none; created = false; fault = some err }

module _ (same_address : String → String → Bool) where
  unfoldable pub same_payment : String → ℕ → ℕ → Intent → Bool
  same_payment address amount fee_rate i =
      same_address i.address address && nat_eq i.amount amount && nat_eq i.fee_rate fee_rate

  -- The id is in the store already.
  unfoldable pub submit_existing : World → String → ℕ → ℕ → Option Intent → Submitted
  unfolding same_payment
  submit_existing world address amount fee_rate none = refuse_submit world (invalid_intent ∷ [])
  submit_existing world address amount fee_rate (some i) =
      if same_payment address amount fee_rate i
      then record { world = world; intent = some i; created = false; fault = none }
      else record { world = world; intent = some i; created = false; fault = some (conflict ∷ []) }

  unfoldable pub submit_created : World → Intent → Fault → Submitted
  unfolding is submit_existing
  submit_created world i none = record {
    world = world;
    intent = some i;
    created = true;
    fault = none;
  }
  submit_created world i (some err) =
      if is exists err
      then submit_existing world i.address i.amount i.fee_rate (Store.get i.id world.store)
      else refuse_submit world err

  unfoldable pub submit_valid : WriteOutcome → Intent → World → Submitted
  unfolding submit_created
  submit_valid w i world =
      let (st, f) = Store.create w i world.store in submit_created (record world { store = st }) i f

  -- `same_address` is strings.EqualFold.
  unfoldable pub submit : Engine → ℕ → WriteOutcome → String → String → ℕ → ℕ → World → Submitted
  unfolding submit_valid fresh
  submit e now w id address amount fee_rate world =
      if (id == "") || (address == "") || nat_eq amount 0 || nat_eq fee_rate 0
      then refuse_submit world (invalid_intent ∷ [])
      else elim (check_destination e address) [
        | none ↦ submit_valid w (fresh now id address amount fee_rate) world
        | some err ↦ refuse_submit world err
      ]

pub data Selection : Type 0 where
  chosen : List Utxo → Selection
  not_selected : Error → Selection

pub data Signing : Type 0 where
  signed : String → String → Signing
  not_signed : Error → Signing

-- What one Build meets, in its order.
pub record BuildAnswers : Type 0 where
  pub selection : Selection
  pub ended_selecting : Bool
  pub reserve_write : Write
  pub signing : Signing
  pub ended_signing : Bool
  pub save_write : Write
  pub release_write : WriteOutcome

unfoldable pub defer_build : Write → Error → Intent → World → Reply
unfolding save saved_with
defer_build w cause i world =
    saved_with cause
      (save w created (record i { attempts = i.attempts + 1; last_error = some cause }) world)

-- The record of the built intent was written, or not.
unfoldable pub build_persisted : BuildAnswers → Reply → Reply
unfolding is release
build_persisted a r = elim r.fault [
  | none ↦ r
  | some err ↦ if is written_not_durable err then r else record r {
    world = release a.release_write r.copy r.world;
    copy = record r.copy { state = created; raw_hex = ""; tx_id = ""; inputs = [] };
  }
]

unfoldable pub build_signed : BuildAnswers → List Utxo → Intent → World → Signing → Reply
unfolding build_persisted defer_build fail
build_signed a inputs i world (signed raw_hex tx_id) = build_persisted a (
    save a.save_write created
      (record i { raw_hex = raw_hex; tx_id = tx_id; inputs = recorded inputs; state = built })
      world)
build_signed a inputs i world (not_signed err) =
    if context_ended err || a.ended_signing
    then defer_build a.save_write err i (release a.release_write i world)
    else fail a.save_write a.release_write err false created i world

unfoldable pub build_reserved : BuildAnswers → List Utxo → Intent → World → SpentSet × Fault → Reply
unfolding build_signed defer_build
build_reserved a inputs i world (spent, none) =
    build_signed a inputs i (record world { spent = spent }) a.signing
build_reserved a inputs i world (spent, some err) =
    defer_build a.save_write err i (record world { spent = spent })

unfoldable pub build_selected : Engine → BuildAnswers → Intent → World → Selection → Reply
unfolding build_reserved defer_build fail is
build_selected e a i world (chosen inputs) =
    build_reserved a inputs i world
      (Reserving.reserve a.reserve_write.at a.reserve_write.outcome inputs i.id (ttl e) world.spent)
build_selected e a i world (not_selected err) =
    if is transient err || context_ended err || a.ended_selecting
    then defer_build a.save_write err i world
    else fail a.save_write a.release_write err false created i world

unfoldable pub build_stored : Engine → BuildAnswers → World → Intent → Reply
unfolding build_selected fail
build_stored e a world i = elim (check_destination e i.address) [
  | none ↦ build_selected e a i world a.selection
  | some err ↦ fail a.save_write a.release_write err false created i world
]

unfoldable pub build : Engine → BuildAnswers → Intent → World → Reply
unfolding with_stored build_stored
build e a i world = with_stored (created ∷ []) i world (build_stored e a world)
