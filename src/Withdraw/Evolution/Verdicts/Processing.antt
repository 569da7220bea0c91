-- ===== src/Withdraw/Evolution/Verdicts/Processing.antt =====
-- What `Process` of withdraw/engine.go has done when it returns no error.
use mathlib.Core.Path.{subst}
use soqucoin_sdk.Prelude.{
  String, ◌≡◌, refl, ◌∙◌, ap, true, false, Option, none, some, arith, ◌⊎◌, inl, inr, Option-cases,
  Bool-cases, string_Eq,
}
use soqucoin_sdk.Withdraw.Intent.{
  State, created, built, broadcast, confirmed, failed, state_eq, state_eq_iff, Intent,
}
use soqucoin_sdk.Withdraw.Store
use soqucoin_sdk.Withdraw.Engine.{Engine, World, Reply}
use soqucoin_sdk.Withdraw.Engine.Building.{build}
use soqucoin_sdk.Withdraw.Engine.Sending.{broadcast_intent}
use soqucoin_sdk.Withdraw.Engine.Driving.{
  ProcessAnswers, Processed, process, process_read, process_built, process_send, process_sent,
  process_end, stopped,
}
use soqucoin_sdk.Withdraw.Evolution.{Inv}
use soqucoin_sdk.Withdraw.Evolution.Transitions.Builds.{build-Good}
use soqucoin_sdk.Withdraw.Evolution.Verdicts.Saved.{IsSaved, broadcast_intent-IsSaved}
use soqucoin_sdk.Withdraw.Evolution.Verdicts.Built.{IsBuilt, build-IsBuilt}

-- Process gives back the intent `id`, broadcast or confirmed, as the store holds it.
pub record IsSent (id : String) (p : Processed) : Type 0 where
  pub copy : Intent
  pub given : p.intent ≡ some copy
  pub same_id : copy.id ≡ id
  pub is_out : (copy.state ≡ broadcast) ⊎ (copy.state ≡ confirmed)
  pub stored : Store.get id p.world.store ≡ some copy

of_broadcast : (s : State) → s ≡ broadcast → state_eq s failed ≡ false
of_broadcast s h = ground arith

process_sent-IsSent :
    (id : String) (r : Reply)
    → (r.fault ≡ none → IsSaved id broadcast r)
    → (process_sent r).fault ≡ none
    → IsSent id (process_sent r)
unfolding process_sent process_end stopped
process_sent-IsSent id r k h = elim (Option-cases r.fault) [
  | inr (err, f) ↦ absurd (ground (arith, h, f))
  | inl f ↦
      let s = k f in
      rw (f, process_sent)
        (record {
          copy = r.copy;
          given = refl;
          same_id = s.same_id;
          is_out = inl s.in_state;
          stored = s.stored;
        })
]

out_unless :
    (s : State)
    → state_eq s created ≡ false
    → state_eq s built ≡ false
    → state_eq s failed ≡ false
    → (s ≡ broadcast) ⊎ (s ≡ confirmed)
out_unless s h k l = ground arith

process_end-IsSent :
    (i : Intent) (world : World)
    → Store.get i.id world.store ≡ some i
    → state_eq i.state created ≡ false
    → state_eq i.state built ≡ false
    → (process_end (record { world = world; copy = i; fault = none })).fault ≡ none
    → IsSent i.id (process_end (record { world = world; copy = i; fault = none }))
unfolding process_end
process_end-IsSent i world e c b h = record {
  copy = i;
  given = refl;
  same_id = refl;
  is_out = out_unless i.state c b (ground (arith, h));
  stored = e;
}

module _ (e : Engine) (a : ProcessAnswers)
    (keeps_build : (w : World) → Inv w → Inv (a.before_build w))
    (keeps_send : (w : World) → Inv w → Inv (a.before_send w)) where
  process_send-IsSent :
      (r : Reply)
      → Inv r.world
      → r.copy.state ≡ built
      → (process_send e a r).fault ≡ none
      → IsSent r.copy.id (process_send e a r)
  unfolding process_send
  process_send-IsSent r v b h =
      let k : state_eq r.copy.state built ≡ true = ground (arith, b) in
      rw k (
        process_sent-IsSent r.copy.id
          (broadcast_intent e a.send_answers r.copy (a.before_send r.world))
          (broadcast_intent-IsSaved e a.send_answers r.copy (a.before_send r.world)
            (keeps_send r.world v))
          (ground (arith, h, k)))

  process_built-IsSent :
      (id : String) (r : Reply)
      → Inv r.world
      → (r.fault ≡ none → IsBuilt id r)
      → (process_built e a r).fault ≡ none
      → IsSent id (process_built e a r)
  unfolding process_built stopped
  process_built-IsSent id r v k h = elim (Option-cases r.fault) [
    | inr (err, f) ↦ absurd (ground (arith, h, f))
    | inl f ↦
        let (same, b) = k f in
        rw (f, process_built)
          (subst (λ x. IsSent x (process_send e a r)) same
            (process_send-IsSent r v b (ground (arith, h, f))))
  ]

  process_read-IsSent :
      (id : String) (world : World) (o : Option Intent)
      → Inv world
      → Store.get id world.store ≡ o
      → (process_read e a world o).fault ≡ none
      → IsSent id (process_read e a world o)
  unfolding process_read
  process_read-IsSent id world none v g h = absurd cc
  process_read-IsSent id world (some i) v g h =
      let same : i.id ≡ id = v.keyed id i g in
      elim (Bool-cases (state_eq i.state created)) [
        | inl c ↦
            let v' = keeps_build world v in
            rw c (
              process_built-IsSent id (build e a.build_answers i (a.before_build world))
                (build-Good e a.build_answers i (a.before_build world) v').inv
                (λ f.
                  let t = build-IsBuilt e a.build_answers i (a.before_build world) v' f in
                  (t.0 ∙ same, t.1))
                (ground (arith, h, c)))
        | inr c ↦ elim (Bool-cases (state_eq i.state built)) [
          | inl b ↦ rw c (
              subst
                (λ x.
                  IsSent x (process_send e a (record { world = world; copy = i; fault = none })))
                same
                (process_send-IsSent (record { world = world; copy = i; fault = none }) v
                  (ground (arith, b, state_eq_iff i.state built)) (ground (arith, h, c))))
          | inr b ↦
              let fault : (process_end (record { world = world; copy = i; fault = none })).fault
                  ≡ none =
                ground (arith, h, c, b) in
              rw c (
                rw (b, process_send)
                  (subst
                    (λ x. IsSent x (process_end (record { world = world; copy = i; fault = none })))
                    same
                    (process_end-IsSent i world (ap (λ x. Store.get x world.store) same ∙ g) c b
                      fault)))
        ]
      ]

  -- What the answer nil means, when what other callers do, before Process takes the lock each time,
  -- keeps the invariant.
  pub process-IsSent :
      (id : String) (world : World)
      → Inv world
      → (process e a id world).fault ≡ none
      → IsSent id (process e a id world)
  unfolding process
  process-IsSent id world v h = process_read-IsSent id world (Store.get id world.store) v refl h
