-- ===== src/Withdraw/Evolution/History/Drivers.antt =====
-- `Process` and `Recover` change the state only by the engine's transitions.
use soqucoin_sdk.Prelude.{
  String, ◌≡◌, Option, none, some, List, [], ◌∷◌, Option-cases, Bool-cases, inl, inr, arith,
}
use soqucoin_sdk.Errors.{Fault}
use soqucoin_sdk.SpentSet.{SpentSet}
use soqucoin_sdk.SpentSet.Methods
use soqucoin_sdk.Withdraw.Intent.{
  created, built, broadcast, failed, state_eq, Intent, held_err, hold_tx_id,
}
use soqucoin_sdk.Withdraw.Store
use soqucoin_sdk.Withdraw.Engine.{Engine, World, Reply}
use soqucoin_sdk.Withdraw.Engine.Building.{build}
use soqucoin_sdk.Withdraw.Engine.Sending.{broadcast_intent}
use soqucoin_sdk.Withdraw.Engine.Driving.{
  ProcessAnswers, process_end, stopped, process_sent, process_send, process_built, process_read,
  process, RecoverAnswers, Noted, note_spent, remark, remark_broadcast, drop_of_failed,
  drop_abandoned_one, drop_abandoned, release_orphan, release_orphans, resume_reserved, resume_one,
  resume_built, recover,
}
use soqucoin_sdk.Withdraw.Evolution.History.{spends, builds, sends, Reach, here, next, Reach-trans}

process_sent_world : (r : Reply) → (process_sent r).world ≡ r.world
unfolding process_sent process_end stopped
process_sent_world r = ground arith

module _ (e : Engine) (a : ProcessAnswers) (before_build : (w : World) → Reach w (a.before_build w))
    (before_send : (w : World) → Reach w (a.before_send w)) where
  process_send-Reach :
      {s : World} (r : Reply) → Reach s r.world → Reach s (process_send e a r).world
  unfolding process_send process_end
  process_send-Reach r h = elim (Bool-cases (state_eq r.copy.state built)) [
    | inl b ↦ rw b (
        rw (process_sent_world (broadcast_intent e a.send_answers r.copy (a.before_send r.world))) (
          next (Reach-trans h (before_send r.world))
            (sends e a.send_answers r.copy (a.before_send r.world))))
    | inr b ↦ rw b h
  ]

  process_built-Reach :
      {s : World} (r : Reply) → Reach s r.world → Reach s (process_built e a r).world
  unfolding process_built stopped
  process_built-Reach r h = elim (Option-cases r.fault) [
    | inl f ↦ rw (f, process_built) (process_send-Reach r h)
    | inr (err, f) ↦ rw (f, process_built) h
  ]

  process_read-Reach :
      (world : World) (o : Option Intent) → Reach world (process_read e a world o).world
  unfolding process_read
  process_read-Reach world none = here
  process_read-Reach world (some i) = elim (Bool-cases (state_eq i.state created)) [
    | inl b ↦ rw b (
        process_built-Reach (build e a.build_answers i (a.before_build world))
          (next (before_build world) (builds e a.build_answers i (a.before_build world))))
    | inr b ↦ rw b (process_send-Reach (record { world = world; copy = i; fault = none }) here)
  ]

  -- When what other callers do, before Process takes the lock each time, is a history of the engine's
  -- transitions and of changes to the spent set, then what Process leaves is reached by such a history.
  process-Reach : (id : String) (world : World) → Reach world (process e a id world).world
  unfolding process
  process-Reach id world = process_read-Reach world (Store.get id world.store)

remark-Reach :
    {s : World} (a : RecoverAnswers) (tx_id : String) (i : Intent) (n : Noted)
    → Reach s n.0
    → Reach s (remark a tx_id i n).0
unfolding remark note_spent
remark-Reach a tx_id i (world, errs) h = next h (spends _ world)

remark_broadcast-Reach :
    {s : World} (a : RecoverAnswers) (is : List Intent) (n : Noted)
    → Reach s n.0
    → Reach s (remark_broadcast a is n).0
unfolding remark_broadcast
remark_broadcast-Reach a [] n h = h
remark_broadcast-Reach a (i ∷ is) n h =
    remark_broadcast-Reach a is (remark a i.tx_id i n) (remark-Reach a i.tx_id i n h)

drop_abandoned_one-Reach :
    {s : World} (a : RecoverAnswers) (id : String) (o : Option Intent) (n : Noted)
    → Reach s n.0
    → Reach s (drop_abandoned_one a id o n).0
unfolding drop_abandoned_one drop_of_failed note_spent
drop_abandoned_one-Reach a id none n h = h
drop_abandoned_one-Reach a id (some i) (world, errs) h =
    elim (Bool-cases (state_eq i.state failed)) [
      | inl b ↦ elim (Option-cases i.abandoned_at) [
        | inl c ↦ rw b (rw (c, drop_of_failed) h)
        | inr (t, c) ↦ rw b (rw (c, drop_of_failed) (next h (spends _ world)))
      ]
      | inr b ↦ rw b h
    ]

drop_abandoned-Reach :
    {s : World} (a : RecoverAnswers) (ids : List String) (n : Noted)
    → Reach s n.0
    → Reach s (drop_abandoned a ids n).0
unfolding drop_abandoned
drop_abandoned-Reach a [] n h = h
drop_abandoned-Reach a (id ∷ ids) n h =
    drop_abandoned-Reach a ids _ (drop_abandoned_one-Reach a id (Store.get id n.0.store) n h)

release_orphan-Reach :
    {s : World} (a : RecoverAnswers) (id : String) (o : Option Intent) (n : Noted)
    → Reach s n.0
    → Reach s (release_orphan a id o n).0
unfolding release_orphan note_spent
release_orphan-Reach a id none (world, errs) h = h
release_orphan-Reach a id (some i) (world, errs) h = elim (Bool-cases (state_eq i.state created)) [
  | inl b ↦ rw b (next h (spends _ world))
  | inr b ↦ elim (Bool-cases (state_eq i.state failed)) [
    | inl c ↦ rw b (rw c (next h (spends _ world)))
    | inr c ↦ rw b (rw c h)
  ]
]

release_orphans-Reach :
    {s : World} (a : RecoverAnswers) (ids : List String) (n : Noted)
    → Reach s n.0
    → Reach s (release_orphans a ids n).0
unfolding release_orphans
release_orphans-Reach a [] n h = h
release_orphans-Reach a (id ∷ ids) n h =
    release_orphans-Reach a ids _ (release_orphan-Reach a id (Store.get id n.0.store) n h)

resume_reserved-Reach :
    {s : World} (e : Engine) (a : RecoverAnswers) (i : Intent) (world : World) (errs : Fault)
    (r : SpentSet × Fault)
    → Reach s world
    → Reach s (resume_reserved e a i world errs r).0
unfolding resume_reserved
resume_reserved-Reach e a i world errs (spent, some err) h = next h (spends spent world)
resume_reserved-Reach e a i world errs (spent, none) h = elim (Option-cases (a.context i.id)) [
  | inl c ↦
      rw (c, resume_reserved)
        (next (next h (spends spent world))
          (sends e (a.send_answers i.id) i (record world { spent = spent })))
  | inr (err, c) ↦ rw (c, resume_reserved) (next h (spends spent world))
]

resume_one-Reach :
    {s : World} (e : Engine) (a : RecoverAnswers) (i : Intent) (f : Fault) (n : Noted)
    → Reach s n.0
    → Reach s (resume_one e a i f n).0
unfolding resume_one
resume_one-Reach e a i (some held) n h = remark-Reach a (hold_tx_id i) i n h
resume_one-Reach e a i none (world, errs) h = resume_reserved-Reach e a i world errs _ h

resume_built-Reach :
    {s : World} (e : Engine) (a : RecoverAnswers) (is : List Intent) (n : Noted)
    → Reach s n.0
    → Reach s (resume_built e a is n).0
unfolding resume_built
resume_built-Reach e a [] n h = h
resume_built-Reach e a (i ∷ is) n h =
    resume_built-Reach e a is _ (resume_one-Reach e a i (held_err i) n h)

-- What Recover leaves, whatever the store and the spent set hold and whatever the node and the disk
-- answer, is reached by a history of the engine's transitions and of changes to the spent set.
recover-Reach :
    (e : Engine) (a : RecoverAnswers) (world : World) → Reach world (recover e a world).0
unfolding recover
recover-Reach e a world =
    let marked = remark_broadcast a (Store.list (broadcast ∷ []) world.store) (world, none) in
    let dropped = drop_abandoned a (Methods.sent_intents marked.0.spent) marked in
    let freed = release_orphans a (Methods.reserved_intents dropped.0.spent) dropped in
    let m : Reach world marked.0 =
      remark_broadcast-Reach a (Store.list (broadcast ∷ []) world.store) (world, none) here in
    let d : Reach world dropped.0 =
      drop_abandoned-Reach a (Methods.sent_intents marked.0.spent) marked m in
    let f : Reach world freed.0 =
      release_orphans-Reach a (Methods.reserved_intents dropped.0.spent) dropped d in
    resume_built-Reach e a (Store.list (built ∷ []) freed.0.store) freed f
