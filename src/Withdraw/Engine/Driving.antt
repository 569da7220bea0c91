-- ===== src/Withdraw/Engine/Driving.antt =====
-- withdraw/engine.go: `Process` and `Recover`, which drive an intent through several transitions.
use soqucoin_sdk.Prelude.{ℕ, String, Option, none, some, List, [], ◌∷◌, if◌then◌else◌}
use soqucoin_sdk.Errors.{invalid_intent, failed_intent, permanent, unknown_reservation, Fault, join}
use soqucoin_sdk.AtomicFile.{WriteOutcome}
use soqucoin_sdk.SpentSet.{SpentSet}
use soqucoin_sdk.SpentSet.Reserving
use soqucoin_sdk.SpentSet.Methods
use soqucoin_sdk.Withdraw.Intent.{
  created, built, broadcast, failed, state_eq, Intent, held_err, hold_tx_id, utxos,
}
use soqucoin_sdk.Withdraw.Store
use soqucoin_sdk.Withdraw.Engine.{Engine, World, Write, Reply, ttl, not_reserved}
use soqucoin_sdk.Withdraw.Engine.Building.{BuildAnswers, build}
use soqucoin_sdk.Withdraw.Engine.Sending.{SendAnswers, broadcast_intent}

-- What one Process meets. Before each transition takes the lock, other callers may act.
pub record ProcessAnswers : Type 0 where
  pub before_build : World → World
  pub build_answers : BuildAnswers
  pub before_send : World → World
  pub send_answers : SendAnswers

-- Process returns the intent that it has read, if any.
pub record Processed : Type 0 where
  pub world : World
  pub intent : Option Intent
  pub fault : Fault

unfoldable pub process_end : Reply → Processed
process_end r = record {
  world = r.world;
  intent = some r.copy;
  fault = if state_eq r.copy.state failed then some (failed_intent ∷ permanent ∷ []) else none;
}

unfoldable pub stopped : Reply → Processed
stopped r = record { world = r.world; intent = some r.copy; fault = r.fault }

unfoldable pub process_sent : Reply → Processed
unfolding process_end stopped
process_sent r = elim r.fault [ none ↦ process_end r | some err ↦ stopped r ]

unfoldable pub process_send : Engine → ProcessAnswers → Reply → Processed
unfolding process_sent
process_send e a r =
    if state_eq r.copy.state built
    then process_sent (broadcast_intent e a.send_answers r.copy (a.before_send r.world))
    else process_end r

unfoldable pub process_built : Engine → ProcessAnswers → Reply → Processed
unfolding process_send
process_built e a r = elim r.fault [ none ↦ process_send e a r | some err ↦ stopped r ]

unfoldable pub process_read : Engine → ProcessAnswers → World → Option Intent → Processed
unfolding process_built
process_read e a world none = record {
  world = world;
  intent = none;
  fault = some (invalid_intent ∷ []);
}
process_read e a world (some i) =
    if state_eq i.state created
    then process_built e a (build e a.build_answers i (a.before_build world))
    else process_send e a (record { world = world; copy = i; fault = none })

unfoldable pub process : Engine → ProcessAnswers → String → World → Processed
unfolding process_read
process e a id world = process_read e a world (Store.get id world.store)

-- What one Recover meets, for each intent by its id.
pub record RecoverAnswers : Type 0 where
  pub mark_write : String → Write
  pub forget_write : String → WriteOutcome
  pub release_write : String → WriteOutcome
  pub reserve_write : String → Write
  pub context : String → Fault
  pub send_answers : String → SendAnswers

-- A pass leaves the state and the errors noted; `note` joins one more.
abbrev pub Noted : Type 0
Noted = World × Fault

unfoldable pub note_spent : World → Fault → SpentSet × Fault → Noted
note_spent world errs (spent, f) = (record world { spent = spent }, join errs f)

unfoldable pub remark : RecoverAnswers → String → Intent → Noted → Noted
unfolding note_spent
remark a tx_id i (world, errs) =
    let w = a.mark_write i.id in
    note_spent world errs
      (Methods.mark_broadcast_for w.at w.outcome (utxos i) tx_id i.id world.spent)

unfoldable pub remark_broadcast : RecoverAnswers → List Intent → Noted → Noted
unfolding remark
remark_broadcast a [] n = n
remark_broadcast a (i ∷ is) n = remark_broadcast a is (remark a i.tx_id i n)

-- A failed intent's entries are dropped if it was abandoned, and reported if not.
unfoldable pub drop_of_failed : RecoverAnswers → String → Option ℕ → Noted → Noted
unfolding note_spent
drop_of_failed a id none (world, errs) = (world, join errs (some []))
drop_of_failed a id (some t) (world, errs) =
    note_spent world errs (Methods.forget (a.forget_write id) id world.spent)

unfoldable pub drop_abandoned_one : RecoverAnswers → String → Option Intent → Noted → Noted
unfolding drop_of_failed
drop_abandoned_one a id none n = n
drop_abandoned_one a id (some i) n =
    if state_eq i.state failed then drop_of_failed a id i.abandoned_at n else n

unfoldable pub drop_abandoned : RecoverAnswers → List String → Noted → Noted
unfolding drop_abandoned_one
drop_abandoned a [] n = n
drop_abandoned a (id ∷ ids) n =
    drop_abandoned a ids (drop_abandoned_one a id (Store.get id n.0.store) n)

unfoldable pub release_orphan : RecoverAnswers → String → Option Intent → Noted → Noted
unfolding note_spent
release_orphan a id none (world, errs) = (world, join errs (some (unknown_reservation ∷ [])))
release_orphan a id (some i) (world, errs) =
    if state_eq i.state created
    then note_spent world errs (Methods.release (a.release_write id) id world.spent)
    else if state_eq i.state failed
    then note_spent world errs (Methods.release (a.release_write id) id world.spent)
    else (world, errs)

unfoldable pub release_orphans : RecoverAnswers → List String → Noted → Noted
unfolding release_orphan
release_orphans a [] n = n
release_orphans a (id ∷ ids) n =
    release_orphans a ids (release_orphan a id (Store.get id n.0.store) n)

unfoldable pub resume_reserved :
    Engine → RecoverAnswers → Intent → World → Fault → SpentSet × Fault → Noted
resume_reserved e a i world errs (spent, some err) =
    (record world { spent = spent }, join errs (some (not_reserved err)))
resume_reserved e a i world errs (spent, none) = elim (a.context i.id) [
  | some err ↦ (record world { spent = spent }, join errs (some err))
  | none ↦
      let r = broadcast_intent e (a.send_answers i.id) i (record world { spent = spent }) in
      (r.world, join errs r.fault)
]

unfoldable pub resume_one : Engine → RecoverAnswers → Intent → Fault → Noted → Noted
unfolding remark resume_reserved
resume_one e a i (some held) n = let m = remark a (hold_tx_id i) i n in (m.0, join m.1 (some held))
resume_one e a i none (world, errs) =
    let w = a.reserve_write i.id in
    resume_reserved e a i world errs
      (Reserving.reserve w.at w.outcome (utxos i) i.id (ttl e) world.spent)

unfoldable pub resume_built : Engine → RecoverAnswers → List Intent → Noted → Noted
unfolding resume_one held_err
resume_built e a [] n = n
resume_built e a (i ∷ is) n = resume_built e a is (resume_one e a i (held_err i) n)

unfoldable pub recover : Engine → RecoverAnswers → World → Noted
unfolding remark_broadcast drop_abandoned release_orphans resume_built
recover e a world =
    let marked = remark_broadcast a (Store.list (broadcast ∷ []) world.store) (world, none) in
    let dropped = drop_abandoned a (Methods.sent_intents marked.0.spent) marked in
    let freed = release_orphans a (Methods.reserved_intents dropped.0.spent) dropped in
    resume_built e a (Store.list (built ∷ []) freed.0.store) freed
