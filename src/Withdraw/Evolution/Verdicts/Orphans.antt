-- ===== src/Withdraw/Evolution/Verdicts/Orphans.antt =====
-- Which reservations `Recover` frees.
use soqucoin_sdk.Prelude.{
  String, ◌≡◌, refl, ◌∙◌, ap, Bool, false, not, ◌&&◌, ◌||◌, Option, none, some, List, [], ◌∷◌,
  arith, inl, inr, Option-cases, Bool-cases, ◌==◌, string_Eq, contains,
}
use soqucoin_sdk.Errors.{Fault}
use soqucoin_sdk.Types.{Outpoint, outpoint_Eq}
use soqucoin_sdk.Map
use soqucoin_sdk.Map.{keep}
use soqucoin_sdk.SpentSet.{SpentEntry, reserved}
use soqucoin_sdk.SpentSet.Methods.{reserved_by, reserved_intents}
use soqucoin_sdk.SpentSet.Methods.Effects.{get-release}
use soqucoin_sdk.SpentSet.Methods.Owners.{reserved_intents-listed}
use soqucoin_sdk.Withdraw.Intent.{created, failed, state_eq, Intent}
use soqucoin_sdk.Withdraw.Store
use soqucoin_sdk.Withdraw.Engine.{World}
use soqucoin_sdk.Withdraw.Engine.Driving.{
  RecoverAnswers, note_spent, release_orphan, release_orphans,
}

-- Nothing signed exists for the intent: it is Created or Failed.
abbrev pub has_nothing_built : Option Intent → Bool
has_nothing_built none = false
has_nothing_built (some i) = state_eq i.state created || state_eq i.state failed

get-release_orphan :
    (a : RecoverAnswers) (id : String) (o : Option Intent) (world : World) (errs : Fault)
    (j : Outpoint)
    → Map.get j (release_orphan a id o (world, errs)).0.spent.entries
      ≡ keep (λ e. not (has_nothing_built o && reserved_by id e)) (Map.get j world.spent.entries)
unfolding release_orphan note_spent
get-release_orphan a id none world errs j =
    ground (arith, Option-cases (Map.get j world.spent.entries))
get-release_orphan a id (some i) world errs j = ground (
  arith,
  get-release (a.release_write id) id world.spent j,
  Option-cases (Map.get j world.spent.entries),
)

release_orphan-rest :
    (a : RecoverAnswers) (id : String) (o : Option Intent) (world : World) (errs : Fault)
    → ((release_orphan a id o (world, errs)).0.store ≡ world.store)
      × ((release_orphan a id o (world, errs)).0.wire ≡ world.wire)
unfolding release_orphan note_spent
release_orphan-rest a id none world errs = (refl, refl)
release_orphan-rest a id (some i) world errs = ground arith

-- The entries that the pass over the ids drops.
abbrev freed : World → List String → SpentEntry → Bool
freed world ids e =
    reserved e && contains ids e.intent_id && has_nothing_built (Store.get e.intent_id world.store)

freed-cons :
    (world : World) (id : String) (ids : List String) (o : Option SpentEntry)
    → keep
        (λ e. not (freed world ids e))
        (keep (λ e. not (has_nothing_built (Store.get id world.store) && reserved_by id e)) o)
      ≡ keep (λ e. not (freed world (id ∷ ids) e)) o
unfolding reserved_by
freed-cons world id ids none = refl
freed-cons world id ids (some e) = elim (Bool-cases (e.intent_id == id)) [
  | inl b ↦
      let same : e.intent_id ≡ id = (string_Eq.beq_iff e.intent_id id).0 b in
      ground (
        arith,
        b,
        ap (λ x. has_nothing_built (Store.get x world.store)) same,
        string_Eq.beq_iff id e.intent_id,
      )
  | inr b ↦ ground (arith, b, string_Eq.beq_iff id e.intent_id, string_Eq.beq_iff e.intent_id id)
]

get-release_orphans :
    (a : RecoverAnswers) (ids : List String) (world : World) (errs : Fault) (j : Outpoint)
    → (Map.get j (release_orphans a ids (world, errs)).0.spent.entries
        ≡ keep (λ e. not (freed world ids e)) (Map.get j world.spent.entries))
      × ((release_orphans a ids (world, errs)).0.store ≡ world.store)
      × ((release_orphans a ids (world, errs)).0.wire ≡ world.wire)
unfolding release_orphans
get-release_orphans a [] world errs j =
    (ground (arith, Option-cases (Map.get j world.spent.entries)), refl, refl)
get-release_orphans a (id ∷ ids) world errs j =
    let n = release_orphan a id (Store.get id world.store) (world, errs) in
    let (left, st, wire) = get-release_orphans a ids n.0 n.1 j in
    let (same_store, same_wire) = release_orphan-rest a id (Store.get id world.store) world errs in
    (
      left
          ∙ ap
              (λ w.
                keep
                  (λ e. not (
                    reserved e
                    && contains ids e.intent_id
                    && has_nothing_built (Store.get e.intent_id w)))
                  (Map.get j n.0.spent.entries))
              same_store
          ∙ ap (λ x. keep (λ e. not (freed world ids e)) x)
              (get-release_orphan a id (Store.get id world.store) world errs j)
          ∙ freed-cons world id ids (Map.get j world.spent.entries),
      st ∙ same_store,
      wire ∙ same_wire,
    )

-- The pass of Recover over the reservations frees exactly those of intents with nothing built: whatever
-- its writes come to, an entry goes when it is a reservation and the store knows its owner as Created
-- or Failed, and every other entry stays, as do the reservations of an owner that is Built, Broadcast
-- or Confirmed or that the store does not know. No record is changed and nothing is sent.
pub release_orphans_exact :
    (a : RecoverAnswers) (world : World) (errs : Fault) (j : Outpoint)
    → let left = (release_orphans a (reserved_intents world.spent) (world, errs)).0 in
      (Map.get j left.spent.entries
        ≡ keep
            (λ e. not (reserved e && has_nothing_built (Store.get e.intent_id world.store)))
            (Map.get j world.spent.entries))
      × (left.store ≡ world.store)
      × (left.wire ≡ world.wire)
release_orphans_exact a world errs j =
    let (left, st, wire) = get-release_orphans a (reserved_intents world.spent) world errs j in
    (left ∙ all_listed (Map.get j world.spent.entries) refl, st, wire)
  where
    all_listed :
        (o : Option SpentEntry)
        → Map.get j world.spent.entries ≡ o
        → keep (λ e. not (freed world (reserved_intents world.spent) e)) o
          ≡ keep (λ e. not (reserved e && has_nothing_built (Store.get e.intent_id world.store))) o
    all_listed none g = refl
    all_listed (some e) g = ground (arith, reserved_intents-listed world.spent j e g)
