-- ===== src/Withdraw/Evolution/Verdicts/Stopping.antt =====
-- Every way in which `Process` of withdraw/engine.go ends.
use soqucoin_sdk.Prelude.{
  [], ◌∷◌, String, ◌≡◌, refl, true, Option, none, some, arith, ◌⊎◌, inl, inr, Option-cases,
  Bool-cases, string_Eq,
}
use soqucoin_sdk.Errors.{invalid_intent, failed_intent, permanent, Error}
use soqucoin_sdk.Withdraw.Intent.{created, built, broadcast, failed, state_eq, state_eq_iff, Intent}
use soqucoin_sdk.Withdraw.Store
use soqucoin_sdk.Withdraw.Engine.{Engine, World, Reply}
use soqucoin_sdk.Withdraw.Engine.Building.{build}
use soqucoin_sdk.Withdraw.Engine.Sending.{broadcast_intent}
use soqucoin_sdk.Withdraw.Engine.Driving.{
  ProcessAnswers, Processed, process, process_read, process_built, process_send, process_sent,
  process_end, stopped,
}
use soqucoin_sdk.Withdraw.Evolution.{Inv}
use soqucoin_sdk.Withdraw.Evolution.Transitions.Builds.{build-Good}
use soqucoin_sdk.Withdraw.Evolution.Verdicts.Saved.{broadcast_intent-IsSaved}
use soqucoin_sdk.Withdraw.Evolution.Verdicts.Built.{build-IsBuilt}
use soqucoin_sdk.Withdraw.Evolution.Verdicts.Processing.{IsSent, process-IsSent}

module _ (e : Engine) (a : ProcessAnswers) where
  -- What Process hands to Broadcast: the record that it has read, or what Build gave back.
  pub data IsReady (id : String) (world : World) (r : Reply) : Type 0 where
    read_built :
        (i : Intent)
        → Store.get id world.store ≡ some i
        → r ≡ record { world = world; copy = i; fault = none }
        → IsReady id world r
    built_now :
        (i : Intent)
        → Store.get id world.store ≡ some i
        → i.state ≡ created
        → r ≡ build e a.build_answers i (a.before_build world)
        → r.fault ≡ none
        → IsReady id world r

  -- Why Process returns an error, and what it has done by then.
  pub data IsStopped (id : String) (world : World) (p : Processed) : Type 0 where
    unknown :
        Store.get id world.store ≡ none
        → p.world ≡ world
        → p.fault ≡ some (invalid_intent ∷ [])
        → IsStopped id world p
    was_failed :
        (i : Intent)
        → Store.get id world.store ≡ some i
        → i.state ≡ failed
        → p.world ≡ world
        → p.fault ≡ some (failed_intent ∷ permanent ∷ [])
        → IsStopped id world p
    not_built :
        (i : Intent) (err : Error)
        → Store.get id world.store ≡ some i
        → i.state ≡ created
        → (build e a.build_answers i (a.before_build world)).fault ≡ some err
        → p.world ≡ (build e a.build_answers i (a.before_build world)).world
        → p.fault ≡ some err
        → IsStopped id world p
    not_sent :
        (r : Reply) (err : Error)
        → IsReady id world r
        → r.copy.state ≡ built
        → (broadcast_intent e a.send_answers r.copy (a.before_send r.world)).fault ≡ some err
        → p.world ≡ (broadcast_intent e a.send_answers r.copy (a.before_send r.world)).world
        → p.fault ≡ some err
        → IsStopped id world p

module _ (e : Engine) (a : ProcessAnswers)
    (keeps_build : (w : World) → Inv w → Inv (a.before_build w))
    (keeps_send : (w : World) → Inv w → Inv (a.before_send w)) where
  process_sent-fault :
      (r : Reply) (err : Error)
      → (r.fault ≡ none → r.copy.state ≡ broadcast)
      → (process_sent r).fault ≡ some err
      → (r.fault ≡ some err) × ((process_sent r).world ≡ r.world)
  unfolding process_sent process_end stopped
  process_sent-fault r err k h = elim (Option-cases r.fault) [
    | inr (x, f) ↦ (ground (arith, h, f), ground (arith, f))
    | inl f ↦ absurd (ground (arith, h, f, k f))
  ]

  process_end-IsStopped :
      (id : String) (world : World) (i : Intent) (err : Error)
      → Store.get id world.store ≡ some i
      → (process_end (record { world = world; copy = i; fault = none })).fault ≡ some err
      → IsStopped e a id world (process_end (record { world = world; copy = i; fault = none }))
  unfolding process_end
  process_end-IsStopped id world i err g h = elim (Bool-cases (state_eq i.state failed)) [
    | inl b ↦
        was_failed i g (ground (arith, b, state_eq_iff i.state failed)) refl (ground (arith, b))
    | inr b ↦ absurd (ground (arith, h, b))
  ]

  process_send-IsStopped :
      (id : String) (world : World) (r : Reply) (err : Error)
      → Inv r.world
      → IsReady e a id world r
      → r.copy.state ≡ built
      → (process_send e a r).fault ≡ some err
      → IsStopped e a id world (process_send e a r)
  unfolding process_send
  process_send-IsStopped id world r err v ready b h =
      let k : state_eq r.copy.state built ≡ true = ground (arith, b) in
      let s = broadcast_intent e a.send_answers r.copy (a.before_send r.world) in
      let (f, w) =
        process_sent-fault s err
          (λ n.
            (broadcast_intent-IsSaved e a.send_answers r.copy (a.before_send r.world)
              (keeps_send r.world v) n).in_state)
          (ground (arith, h, k)) in
      not_sent r err ready b f (ground (arith, w, k)) h

  process_built-IsStopped :
      (id : String) (world : World) (i : Intent) (err : Error)
      → Inv world
      → Store.get id world.store ≡ some i
      → i.state ≡ created
      → (process_built e a (build e a.build_answers i (a.before_build world))).fault ≡ some err
      → IsStopped e a id world
          (process_built e a (build e a.build_answers i (a.before_build world)))
  unfolding process_built stopped
  process_built-IsStopped id world i err v g c h =
      let v' = keeps_build world v in
      let r = build e a.build_answers i (a.before_build world) in
      elim (Option-cases r.fault) [
        | inr (x, f) ↦ rw (f, process_built) (not_built i x g c f refl f)
        | inl f ↦
            rw (f, process_built)
              (process_send-IsStopped id world r err
                (build-Good e a.build_answers i (a.before_build world) v').inv
                (built_now i g c refl f)
                (build-IsBuilt e a.build_answers i (a.before_build world) v' f).1
                (ground (arith, h, f)))
      ]

  process_read-IsStopped :
      (id : String) (world : World) (o : Option Intent) (err : Error)
      → Inv world
      → Store.get id world.store ≡ o
      → (process_read e a world o).fault ≡ some err
      → IsStopped e a id world (process_read e a world o)
  unfolding process_read
  process_read-IsStopped id world none err v g h = unknown g refl refl
  process_read-IsStopped id world (some i) err v g h =
      let r : Reply = record { world = world; copy = i; fault = none } in
      elim (Bool-cases (state_eq i.state created)) [
        | inl c ↦ rw c (
            process_built-IsStopped id world i err v g
              (ground (arith, c, state_eq_iff i.state created)) (ground (arith, h, c)))
        | inr c ↦ elim (Bool-cases (state_eq i.state built)) [
          | inl b ↦ rw c (
              process_send-IsStopped id world r err v (read_built i g refl)
                (ground (arith, b, state_eq_iff i.state built)) (ground (arith, h, c)))
          | inr b ↦ rw c (
              rw (b, process_send)
                (process_end-IsStopped id world i err g (ground (arith, h, c, b))))
        ]
      ]

  -- When what other callers do, before Process takes the lock each time, keeps the invariant of the
  -- store and of what was sent, Process either returns no error, and then gives back the intent of the
  -- id that it was asked for, Broadcast or Confirmed, as the store holds it; or it returns an error for
  -- one of four reasons, and has done no more than that reason says. The id is unknown, or the intent
  -- was Failed already, and nothing is changed; the intent was Created and Build returned the error,
  -- and nothing is done after Build; or the intent was read as Built, or Build gave it back Built with
  -- no error, and Broadcast returned the error.
  pub process_outcome :
      (id : String) (world : World)
      → Inv world
      → (((process e a id world).fault ≡ none) × IsSent id (process e a id world))
        ⊎ IsStopped e a id world (process e a id world)
  unfolding process
  process_outcome id world v = elim (Option-cases (process e a id world).fault) [
    | inl f ↦ inl (f, process-IsSent e a keeps_build keeps_send id world v f)
    | inr (err, f) ↦ inr (process_read-IsStopped id world (Store.get id world.store) err v refl f)
  ]
