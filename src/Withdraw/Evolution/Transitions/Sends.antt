-- ===== src/Withdraw/Evolution/Transitions/Sends.antt =====
-- `Broadcast` and `Rebroadcast` let the records evolve.
use soqucoin_sdk.Prelude.{
  ℕ, ◌+◌, ◌≡◌, refl, ◌∙◌, ap, Bool, true, false, none, some, [], ◌∷◌, arith, inl, inr, Option-cases,
}
use soqucoin_sdk.Errors.{Error, Fault, held}
use soqucoin_sdk.SpentSet.{SpentSet}
use soqucoin_sdk.Withdraw.Intent.{
  state_eq_iff, built, broadcast, Intent, held_err, hold_rejected_after_unknown,
}
use soqucoin_sdk.Withdraw.Store
use soqucoin_sdk.Withdraw.Engine.{save, Engine, World, Write, saved_with, not_reserved}
use soqucoin_sdk.Withdraw.Engine.Sending.{
  hold_built, hold_after_mark, hold_marked, Verdict, accepted, may_be_out, other_tx_id,
  rejected_after_unknown, rejected, not_taken, verdict, SendAnswers, accept, or_unknown, settle,
  maybe_out, send, send_reserved, send_stored, broadcast_intent, ResendAnswers, resent_with, resend,
  resend_stored, rebroadcast, last_sent, with_fault,
}
use soqucoin_sdk.Withdraw.Evolution.{
  Evolves, Evolves-refl, Evolves-trans, Inv, Good, Good-refl, Good-trans, save-Good, save_stored,
  hand_over-Good,
}
use soqucoin_sdk.Withdraw.Evolution.Transitions.{Inv-spent, spent-Good, fail-Good, with_stored-Good}

hold_built-Good :
    (w : Write) (cause : Error) (i : Intent) (world : World) {old : Intent}
    → Inv world
    → Store.get i.id world.store ≡ some old
    → Evolves old i
    → i.state ≡ built
    → Good world (hold_built w cause i world).world
unfolding hold_built saved_with
hold_built-Good w cause i world v e p n =
    save-Good w built (record i { last_error = some cause }) world v e
      (Evolves-trans p (ground arith))

hold_after_mark-Good :
    (w : Write) (cause : Error) (i : Intent) (world : World) (s : SpentSet × Fault) {old : Intent}
    → Inv world
    → Store.get i.id world.store ≡ some old
    → Evolves old i
    → i.state ≡ built
    → Good world (hold_after_mark w cause i world s).world
unfolding hold_after_mark
hold_after_mark-Good w cause i world (spent, f) v e p n = spent-Good spent (
    hold_built-Good w (with_fault cause f) i (record world { spent = spent }) (Inv-spent spent v) e
      p n)

accept-Good :
    (a : SendAnswers) (i : Intent) (world : World) (s : SpentSet × Fault)
    → Inv world
    → Store.get i.id world.store ≡ some i
    → i.state ≡ built
    → Good world (accept a i world s).world
unfolding accept
accept-Good a i world (spent, f) v e n = spent-Good spent (
    save-Good a.save_write built (record i { state = broadcast; last_error = f })
      (record world { spent = spent }) (Inv-spent spent v) e (ground arith))

pub settle-Good :
    (a : SendAnswers) (prior : Bool) (i : Intent) (world : World) (d : Verdict)
    → Inv world
    → Store.get i.id world.store ≡ some i
    → i.state ≡ built
    → Good world (settle a prior i world d).world
unfolding settle hold_marked
settle-Good a prior i world accepted v e n = accept-Good a i world _ v e n
settle-Good a prior i world (may_be_out err) v e n =
    hold_built-Good a.save_write err i world v e (Evolves-refl i) n
settle-Good a prior i world (other_tx_id err) v e n =
    hold_after_mark-Good a.save_write err (record i { node_tx_id = or_unknown a.reply.got }) world _
      v e (ground arith) n
settle-Good a prior i world rejected_after_unknown v e n =
    hold_after_mark-Good a.save_write (held ∷ []) (record i { hold = hold_rejected_after_unknown })
      world _ v e (ground arith) n
settle-Good a prior i world (rejected err) v e n =
    fail-Good a.save_write a.release_write err true built (record i { maybe_relayed = false }) world
      v e (ground arith) (ground (arith, n)) (inl refl)
settle-Good a prior i world (not_taken err) v e n =
    hold_built-Good a.save_write err (record i { maybe_relayed = prior }) world v e (ground arith) n

-- The bytes go out once the attempt is on record.
send_saved-Good :
    (a : SendAnswers) (prior : Bool) (w : Write) (i : Intent) (world : World) {old : Intent}
    → Inv world
    → Store.get i.id world.store ≡ some old
    → Evolves old i
    → i.state ≡ built
    → Good world (send a prior (save w built i world)).world
unfolding send
send_saved-Good a prior w i world {old} v e p n =
    let i' : Intent = record i { updated_at = w.at } in
    let g = save-Good w built i world v e (Evolves-trans p (ground arith)) in
    elim (Option-cases (save w built i world).fault) [
      | inl f ↦
          let s = save_stored w built i world f in
          let h = hand_over-Good i' (save w built i world).world g.inv s (ground (arith, n)) in
          rw (f, send)
            (Good-trans g
              (Good-trans h (settle-Good a prior i' _ (verdict prior a.reply.fault) h.inv s n)))
      | inr (err, f) ↦ rw (f, send) g
    ]

send_reserved-Good :
    (a : SendAnswers) (i : Intent) (world : World) (s : SpentSet × Fault)
    → Inv world
    → Store.get i.id world.store ≡ some i
    → i.state ≡ built
    → Good world (send_reserved a i world s).world
unfolding send_reserved
send_reserved-Good a i world (spent, none) v e n = spent-Good spent (
    send_saved-Good a (maybe_out i) a.attempt_write
      (record i { attempts = i.attempts + 1; maybe_relayed = true; sent_at = some a.sent_at })
      (record world { spent = spent }) (Inv-spent spent v) e (ground arith) n)
send_reserved-Good a i world (spent, some err) v e n = spent-Good spent (
    hold_built-Good a.attempt_write (not_reserved err) i (record world { spent = spent })
      (Inv-spent spent v) e (Evolves-refl i) n)

send_stored-Good :
    (eng : Engine) (a : SendAnswers) (world : World) (i : Intent)
    → Inv world
    → Store.get i.id world.store ≡ some i
    → i.state ≡ built
    → Good world (send_stored eng a world i).world
unfolding send_stored
send_stored-Good eng a world i v e n = elim (Option-cases (held_err i)) [
  | inl c ↦ rw (c, send_stored) (send_reserved-Good a i world _ v e n)
  | inr (err, c) ↦ rw (c, send_stored) (Good-refl v)
]

pub broadcast_intent-Good :
    (eng : Engine) (a : SendAnswers) (i : Intent) (world : World)
    → Inv world
    → Good world (broadcast_intent eng a i world).world
unfolding broadcast_intent
broadcast_intent-Good eng a i world v =
    with_stored-Good (built ∷ []) i world (send_stored eng a world) v
      (λ s e b. send_stored-Good eng a world s v e (ground (arith, state_eq_iff built s.state)))

resent-Evolves :
    (before : ℕ) (f : Fault) (i : Intent) (t : ℕ)
    → i.state ≡ broadcast
    → Evolves i (record (resent_with before f i) { updated_at = t })
      × ((resent_with before f i).id ≡ i.id)
unfolding resent_with
resent-Evolves before none i t h = ground arith
resent-Evolves before (some err) i t h = ground arith

resend-Good :
    (a : ResendAnswers) (before : ℕ) (i : Intent) (world : World) {old : Intent}
    → Inv world
    → Store.get i.id world.store ≡ some old
    → Evolves old i
    → i.state ≡ broadcast
    → Good world (resend a before (save a.attempt_write broadcast i world)).world
unfolding resend
resend-Good a before i world {old} v e p n =
    let w = a.attempt_write in
    let i' : Intent = record i { updated_at = w.at } in
    let g = save-Good w broadcast i world v e (Evolves-trans p (ground arith)) in
    elim (Option-cases (save w broadcast i world).fault) [
      | inl f ↦
          let s = save_stored w broadcast i world f in
          let h = hand_over-Good i' (save w broadcast i world).world g.inv s (ground (arith, n)) in
          let q = resent-Evolves before a.reply.fault i' a.save_write.at n in
          rw (f, resend)
            (Good-trans g (
              Good-trans h (
                save-Good a.save_write broadcast (resent_with before a.reply.fault i') _ h.inv
                  (ap (λ x. Store.get x (save w broadcast i world).world.store) q.1 ∙ s) q.0)))
      | inr (err, f) ↦ rw (f, resend) g
    ]

pub rebroadcast-Good :
    (a : ResendAnswers) (i : Intent) (world : World)
    → Inv world
    → Good world (rebroadcast a i world).world
unfolding rebroadcast resend_stored
rebroadcast-Good a i world v =
    with_stored-Good (broadcast ∷ []) i world (resend_stored a world) v (λ s e b.
      resend-Good a (last_sent s) (record s { attempts = s.attempts + 1; sent_at = some a.sent_at })
        world v e (ground arith) (ground (arith, state_eq_iff broadcast s.state)))
