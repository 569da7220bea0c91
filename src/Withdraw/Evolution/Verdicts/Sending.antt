-- ===== src/Withdraw/Evolution/Verdicts/Sending.antt =====
-- In which state a Broadcast leaves the record, and on what grounds.
use soqucoin_sdk.Prelude.{
  ◌+◌, ◌≡◌, refl, sym, ◌∙◌, ap, Bool, true, false, none, some, [], ◌∷◌, arith, ◌⊎◌, inl, inr,
  Option-cases, string_Eq,
}
use soqucoin_sdk.Errors.{
  Error, Fault, held, is, permanent, unknown_outcome, already_in_chain, txid_mismatch,
}
use soqucoin_sdk.AtomicFile.{WriteOutcome}
use soqucoin_sdk.SpentSet.{SpentSet}
use soqucoin_sdk.SpentSet.Reserving
use soqucoin_sdk.SpentSet.Methods
use soqucoin_sdk.Withdraw.Intent.{
  built, broadcast, failed, Intent, held_err, hold_tx_id, hold_rejected_after_unknown, utxos,
}
use soqucoin_sdk.Withdraw.Store
use soqucoin_sdk.Withdraw.Engine.{
  save, fail, fail_saved, failed_intent, Engine, World, Write, Reply, hand_over, saved_with,
  not_reserved, ttl, release, context_ended,
}
use soqucoin_sdk.Withdraw.Engine.Sending.{
  hold_built, hold_after_mark, hold_marked, Verdict, accepted, may_be_out, other_tx_id,
  rejected_after_unknown, rejected, not_taken, verdict, verdict_of, SendAnswers, accept, or_unknown,
  settle, maybe_out, send, send_reserved, send_stored, broadcast_intent, with_fault,
}
use soqucoin_sdk.Withdraw.Evolution.{save_stored}
use soqucoin_sdk.Withdraw.Evolution.Verdicts.{get-save, with_stored_found}

abbrev Grounds : Verdict → Intent → Type 0
Grounds d b =
    (b.state ≡ built)
    ⊎ ((b.state ≡ broadcast) × (d ≡ accepted))
    ⊎ ((b.state ≡ failed) × (err : Error) × (d ≡ rejected err))

accept_state :
    (a : SendAnswers) (i : Intent) (world : World) (s : SpentSet × Fault) {b : Intent}
    → Store.get i.id world.store ≡ some i
    → i.state ≡ built
    → Store.get i.id (accept a i world s).world.store ≡ some b
    → (b.state ≡ built) ⊎ (b.state ≡ broadcast)
unfolding accept
accept_state a i world (spent, f) e n g = ground (
  arith,
  get-save a.save_write built (record i { state = broadcast; last_error = f })
      (record world { spent = spent }),
)

hold_state :
    (w : Write) (cause : Error) (i : Intent) (world : World) {old b : Intent}
    → Store.get i.id world.store ≡ some old
    → old.state ≡ built
    → i.state ≡ built
    → Store.get i.id (hold_built w cause i world).world.store ≡ some b
    → b.state ≡ built
unfolding hold_built saved_with
hold_state w cause i world e n k g =
    ground (arith, get-save w built (record i { last_error = some cause }) world)

fail_store :
    (w : WriteOutcome) (cause : Error) (r : Reply)
    → (fail_saved w cause r).world.store ≡ r.world.store
unfolding fail_saved release
fail_store w cause r = ground arith

fail_state :
    (w : Write) (release_write : WriteOutcome) (cause : Error) (i : Intent) (world : World)
    {old b : Intent}
    → Store.get i.id world.store ≡ some old
    → old.state ≡ built
    → Store.get i.id (fail w release_write cause true built i world).world.store ≡ some b
    → (b.state ≡ built) ⊎ (b.state ≡ failed)
unfolding fail failed_intent
fail_state w release_write cause i world e n g = ground (
  arith,
  get-save w built (failed_intent cause true i) world,
  fail_store release_write cause (save w built (failed_intent cause true i) world),
)

hold_after_state :
    (w : Write) (cause : Error) (i : Intent) (world : World) (s : SpentSet × Fault) {old b : Intent}
    → Store.get i.id world.store ≡ some old
    → old.state ≡ built
    → i.state ≡ built
    → Store.get i.id (hold_after_mark w cause i world s).world.store ≡ some b
    → b.state ≡ built
unfolding hold_after_mark
hold_after_state w cause i world (spent, f) e n k g =
    hold_state w (with_fault cause f) i (record world { spent = spent }) e n k g

settle_state :
    (a : SendAnswers) (prior : Bool) (i : Intent) (world : World) (d : Verdict) {b : Intent}
    → Store.get i.id world.store ≡ some i
    → i.state ≡ built
    → Store.get i.id (settle a prior i world d).world.store ≡ some b
    → Grounds d b
unfolding settle hold_marked
settle_state a prior i world accepted e n g = ground (
  arith,
  accept_state a i world
      (Methods.mark_broadcast_for a.mark_write.at a.mark_write.outcome (utxos i) i.tx_id i.id
        world.spent)
      e n g,
)
settle_state a prior i world (may_be_out err) e n g =
    inl (hold_state a.save_write err i world e n n g)
settle_state a prior i world (other_tx_id err) e n g =
    let i' : Intent = record i { node_tx_id = or_unknown a.reply.got } in
    inl (
      hold_after_state a.save_write err i' world
        (Methods.mark_broadcast_for a.mark_write.at a.mark_write.outcome (utxos i') (hold_tx_id i')
          i'.id world.spent)
        e n n g)
settle_state a prior i world rejected_after_unknown e n g =
    let i' : Intent = record i { hold = hold_rejected_after_unknown } in
    inl (
      hold_after_state a.save_write (held ∷ []) i' world
        (Methods.mark_broadcast_for a.mark_write.at a.mark_write.outcome (utxos i') (hold_tx_id i')
          i'.id world.spent)
        e n n g)
settle_state a prior i world (rejected err) e n g = ground (
  arith,
  fail_state a.save_write a.release_write err (record i { maybe_relayed = false }) world e n g,
)
settle_state a prior i world (not_taken err) e n g =
    inl (hold_state a.save_write err (record i { maybe_relayed = prior }) world e n n g)

send_recorded :
    (a : SendAnswers) (prior : Bool) (r : Reply)
    → r.fault ≡ none
    → send a prior r
      ≡ settle a prior r.copy (hand_over r.copy r.world) (verdict prior a.reply.fault)
unfolding send
send_recorded a prior r f = rw (f, send) refl

send_unrecorded :
    (a : SendAnswers) (prior : Bool) (r : Reply) {err : Error}
    → r.fault ≡ some err
    → send a prior r ≡ r
unfolding send
send_unrecorded a prior r f = ground arith

send_state :
    (a : SendAnswers) (prior : Bool) (w : Write) (i : Intent) (world : World) {old b : Intent}
    → Store.get i.id world.store ≡ some old
    → old.state ≡ built
    → i.state ≡ built
    → Store.get i.id (send a prior (save w built i world)).world.store ≡ some b
    → Grounds (verdict prior a.reply.fault) b
unfolding hand_over save
send_state a prior w i world {old} {b} e n k g = elim (Option-cases (save w built i world).fault) [
  | inl f ↦
      let i' : Intent = record i { updated_at = w.at } in
      settle_state a prior i' (hand_over i' (save w built i world).world)
        (verdict prior a.reply.fault) (save_stored w built i world f) k
        (sym (
            ap (λ r. Store.get i.id r.world.store) (send_recorded a prior (save w built i world) f))
          ∙ g)
  | inr (err, f) ↦ inl (
      ground (
        arith,
        e,
        n,
        k,
        get-save w built i world,
        sym (
              ap (λ r. Store.get i.id r.world.store)
                (send_unrecorded a prior (save w built i world) f))
            ∙ g,
      ))
]

send_reserved_state :
    (a : SendAnswers) (i : Intent) (world : World) (s : SpentSet × Fault) {b : Intent}
    → Store.get i.id world.store ≡ some i
    → i.state ≡ built
    → Store.get i.id (send_reserved a i world s).world.store ≡ some b
    → Grounds (verdict (maybe_out i) a.reply.fault) b
unfolding send_reserved
send_reserved_state a i world (spent, none) e n g =
    send_state a (maybe_out i) a.attempt_write
      (record i { attempts = i.attempts + 1; maybe_relayed = true; sent_at = some a.sent_at })
      (record world { spent = spent }) e n n g
send_reserved_state a i world (spent, some err) e n g =
    inl (hold_state a.attempt_write (not_reserved err) i (record world { spent = spent }) e n n g)

send_stored_free :
    (eng : Engine) (a : SendAnswers) (world : World) (i : Intent)
    → held_err i ≡ none
    → send_stored eng a world i
      ≡ send_reserved a i world (
          Reserving.reserve a.reserve_write.at a.reserve_write.outcome
            (utxos i)
            i.id
            (ttl eng)
            world.spent)
unfolding send_stored
send_stored_free eng a world i h = rw (h, send_stored) refl

send_stored_held :
    (eng : Engine) (a : SendAnswers) (world : World) (i : Intent) {err : Error}
    → held_err i ≡ some err
    → send_stored eng a world i ≡ record { world = world; copy = i; fault = some err }
unfolding send_stored
send_stored_held eng a world i h = rw (h, send_stored) refl

send_stored_state :
    (eng : Engine) (a : SendAnswers) (world : World) (i : Intent) {b : Intent}
    → Store.get i.id world.store ≡ some i
    → i.state ≡ built
    → Store.get i.id (send_stored eng a world i).world.store ≡ some b
    → Grounds (verdict (maybe_out i) a.reply.fault) b
send_stored_state eng a world i e n g = elim (Option-cases (held_err i)) [
  | inl h ↦
      send_reserved_state a i world
        (Reserving.reserve a.reserve_write.at a.reserve_write.outcome (utxos i) i.id (ttl eng)
          world.spent)
        e n (sym (ap (λ r. Store.get i.id r.world.store) (send_stored_free eng a world i h)) ∙ g)
  | inr (err, h) ↦ inl (
      ground (
        arith,
        e,
        n,
        sym (ap (λ r. Store.get i.id r.world.store) (send_stored_held eng a world i h)) ∙ g,
      ))
]

-- The grounds on which Broadcast may fail an intent.
rejected_of :
    (prior : Bool) (f : Fault) {err : Error}
    → verdict prior f ≡ rejected err
    → (f ≡ some err)
      × (prior ≡ false)
      × (is permanent err ≡ true)
      × (is already_in_chain err ≡ false)
      × (context_ended err ≡ false)
      × (is unknown_outcome err ≡ false)
      × (is txid_mismatch err ≡ false)
unfolding verdict verdict_of
rejected_of prior none e = ground arith
rejected_of prior (some err) e = ground arith

accepted_of :
    (prior : Bool) (f : Fault)
    → verdict prior f ≡ accepted
    → (f ≡ none) ⊎ ((err : Error) × (f ≡ some err) × (is already_in_chain err ≡ true))
unfolding verdict verdict_of
accepted_of prior none e = ground arith
accepted_of prior (some err) e = ground arith

-- When the store holds a Built intent and its record carries the id that it is stored under, then after
-- a Broadcast of it, whatever the node, the clock and the disk answered, the record that is stored
-- under that id is still Built; or it is Broadcast, and the node answered that it took the bytes or
-- that it has them already; or it is Failed, and then the node's answer is an error that is permanent
-- and is neither of an ended context nor of an unknown outcome, a foreign txid or bytes in the chain
-- already, and no earlier attempt may have put the bytes out.
pub broadcast_grounds :
    (eng : Engine) (a : SendAnswers) (i s b : Intent) (world : World)
    → Store.get i.id world.store ≡ some s
    → s.id ≡ i.id
    → s.state ≡ built
    → Store.get i.id (broadcast_intent eng a i world).world.store ≡ some b
    → (b.state ≡ built)
      ⊎ ((b.state ≡ broadcast)
          × ((a.reply.fault ≡ none)
              ⊎ ((err : Error) × (a.reply.fault ≡ some err) × (is already_in_chain err ≡ true))))
      ⊎ ((b.state ≡ failed)
          × (err : Error) × (a.reply.fault ≡ some err)
          × (maybe_out s ≡ false)
          × (is permanent err ≡ true)
          × (is already_in_chain err ≡ false)
          × (context_ended err ≡ false)
          × (is unknown_outcome err ≡ false)
          × (is txid_mismatch err ≡ false))
unfolding broadcast_intent
broadcast_grounds eng a i s b world e k n g =
    let f =
      with_stored_found (built ∷ []) i world (send_stored eng a world) e (ground (arith, n)) in
    elim (send_stored_state eng a world s {b = b} (ap (λ x. Store.get x world.store) k ∙ e) n (
      ap (λ x. Store.get x (send_stored eng a world s).world.store) k
      ∙ sym (ap (λ r. Store.get i.id r.world.store) f)
      ∙ g)) [
        | inl p ↦ inl p
        | inr (inl p) ↦ inr (inl (p.0, accepted_of (maybe_out s) a.reply.fault p.1))
        | inr (inr (p, err, d)) ↦
            let q = rejected_of (maybe_out s) a.reply.fault d in
            inr (inr (p, err, q.0, q.1, q.2, q.3, q.4, q.5, q.6))
      ]
