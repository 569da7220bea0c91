-- ===== src/Withdraw/Evolution/Verdicts/Saved.antt =====
-- What `Broadcast` of withdraw/engine.go has saved when it returns no error.
use soqucoin_sdk.Prelude.{
  ◌+◌, String, ◌≡◌, refl, sym, ◌∙◌, ap, Bool, true, false, none, some, List, [], ◌∷◌, arith, inl,
  inr, Option-cases, string_Eq,
}
use soqucoin_sdk.Errors.{Error, Fault, join, held}
use soqucoin_sdk.AtomicFile.{WriteOutcome}
use soqucoin_sdk.SpentSet.{SpentSet}
use soqucoin_sdk.SpentSet.Reserving
use soqucoin_sdk.SpentSet.Methods
use soqucoin_sdk.Withdraw.Intent.{
  utxos, hold_tx_id, hold_rejected_after_unknown, State, built, broadcast, Intent, held_err,
}
use soqucoin_sdk.Withdraw.Store
use soqucoin_sdk.Withdraw.Store.Laws.{get-update}
use soqucoin_sdk.Withdraw.Engine.{
  Engine, World, Write, Reply, save, fail, fail_saved, saved_with, reread, with_stored, with_reread,
  reread_record, hand_over, not_reserved, ttl,
}
use soqucoin_sdk.Withdraw.Engine.Sending.{
  SendAnswers, Verdict, accepted, may_be_out, other_tx_id, rejected_after_unknown, rejected,
  not_taken, accept, settle, send, send_reserved, send_stored, broadcast_intent, hold_built,
  hold_marked, hold_after_mark, verdict, maybe_out, with_fault, or_unknown,
}
use soqucoin_sdk.Withdraw.Evolution.{Inv}

-- The reply names the intent `id` in the state `s`, and the store holds the same record.
pub record IsSaved (id : String) (s : State) (r : Reply) : Type 0 where
  pub same_id : r.copy.id ≡ id
  pub in_state : r.copy.state ≡ s
  pub stored : Store.get id r.world.store ≡ some r.copy

save-IsSaved :
    (w : Write) (from : State) (i : Intent) (world : World)
    → (save w from i world).fault ≡ none
    → IsSaved i.id i.state (save w from i world)
unfolding save
save-IsSaved w from i world h = record {
  same_id = refl;
  in_state = refl;
  stored = ground (
    arith,
    h,
    get-update w.outcome (record i { updated_at = w.at }) from world.store i.id,
    string_Eq.beq_iff i.id i.id,
  );
}

join-none : (f g : Fault) → join f g ≡ none → (f ≡ none) × (g ≡ none)
join-none none g h = (refl, h)
join-none (some e) none h = absurd cc
join-none (some e) (some e') h = absurd cc

pub saved_with_fails : (cause : Error) (r : Reply) → (saved_with cause r).fault ≡ none → ⊥
unfolding saved_with
saved_with_fails cause r h = elim (Option-cases r.fault) [
  | inl e ↦ ground (arith, h, e)
  | inr (x, e) ↦ ground (arith, h, e)
]

hold_built_fails :
    (w : Write) (cause : Error) (i : Intent) (world : World)
    → (hold_built w cause i world).fault ≡ none
    → ⊥
unfolding hold_built
hold_built_fails w cause i world h =
    saved_with_fails cause (save w built (record i { last_error = some cause }) world) h

hold_after_mark_fails :
    (w : Write) (cause : Error) (i : Intent) (world : World) (r : SpentSet × Fault)
    → (hold_after_mark w cause i world r).fault ≡ none
    → ⊥
unfolding hold_after_mark
hold_after_mark_fails w cause i world (spent, f) h =
    hold_built_fails w (with_fault cause f) i (record world { spent = spent }) h

hold_marked_fails :
    (mark w : Write) (cause : Error) (i : Intent) (world : World)
    → (hold_marked mark w cause i world).fault ≡ none
    → ⊥
unfolding hold_marked
hold_marked_fails mark w cause i world h =
    hold_after_mark_fails w cause i world
      (Methods.mark_broadcast_for mark.at mark.outcome (utxos i) (hold_tx_id i) i.id world.spent) h

pub fail_fails :
    (w : Write) (release_write : WriteOutcome) (cause : Error) (keep_tx : Bool) (from : State)
    (i : Intent) (world : World)
    → (fail w release_write cause keep_tx from i world).fault ≡ none
    → ⊥
unfolding fail fail_saved
fail_fails w release_write cause keep_tx from i world h = ground arith

pub with_stored_ok :
    (want : List State) (i : Intent) (world : World) (go : Intent → Reply)
    → (with_stored want i world go).fault ≡ none
    → (s : Intent) × (Store.get i.id world.store ≡ some s) × (with_stored want i world go ≡ go s)
unfolding with_stored with_reread reread reread_record
with_stored_ok want i world go h = elim (Option-cases (Store.get i.id world.store)) [
  | inl e ↦ absurd (ground (arith, h, e))
  | inr (s, e) ↦ (s, e, ground (arith, h, e))
]

accept-IsSaved :
    (a : SendAnswers) (i : Intent) (world : World) (r : SpentSet × Fault)
    → (accept a i world r).fault ≡ none
    → IsSaved i.id broadcast (accept a i world r)
unfolding accept
accept-IsSaved a i world (spent, f) h =
    let i' : Intent = record i { state = broadcast; last_error = f } in
    let s =
      save-IsSaved a.save_write built i' (record world { spent = spent })
        (join-none f (save a.save_write built i' (record world { spent = spent })).fault h).1 in
    record { same_id = s.same_id; in_state = s.in_state; stored = s.stored }

settle-IsSaved :
    (a : SendAnswers) (prior : Bool) (i : Intent) (world : World) (d : Verdict)
    → (settle a prior i world d).fault ≡ none
    → IsSaved i.id broadcast (settle a prior i world d)
unfolding settle
settle-IsSaved a prior i world accepted h = accept-IsSaved a i world _ h
settle-IsSaved a prior i world (may_be_out err) h =
    absurd (hold_built_fails a.save_write err i world h)
settle-IsSaved a prior i world (other_tx_id err) h = absurd (
    hold_marked_fails a.mark_write a.save_write err
      (record i { node_tx_id = or_unknown a.reply.got }) world h)
settle-IsSaved a prior i world rejected_after_unknown h = absurd (
    hold_marked_fails a.mark_write a.save_write (held ∷ [])
      (record i { hold = hold_rejected_after_unknown }) world h)
settle-IsSaved a prior i world (rejected err) h = absurd (
    fail_fails a.save_write a.release_write err true built (record i { maybe_relayed = false })
      world h)
settle-IsSaved a prior i world (not_taken err) h =
    absurd (hold_built_fails a.save_write err (record i { maybe_relayed = prior }) world h)

send-IsSaved :
    (a : SendAnswers) (prior : Bool) (r : Reply)
    → (send a prior r).fault ≡ none
    → IsSaved r.copy.id broadcast (send a prior r)
unfolding send
send-IsSaved a prior r h = elim (Option-cases r.fault) [
  | inr (err, e) ↦ absurd (ground (arith, h, e))
  | inl e ↦
      rw (e, send)
        (settle-IsSaved a prior r.copy (hand_over r.copy r.world) (verdict prior a.reply.fault)
          (ground (arith, h, e)))
]

send_reserved-IsSaved :
    (a : SendAnswers) (i : Intent) (world : World) (r : SpentSet × Fault)
    → (send_reserved a i world r).fault ≡ none
    → IsSaved i.id broadcast (send_reserved a i world r)
unfolding send_reserved save
send_reserved-IsSaved a i world (spent, none) h =
    send-IsSaved a (maybe_out i)
      (save a.attempt_write built
        (record i { attempts = i.attempts + 1; maybe_relayed = true; sent_at = some a.sent_at })
        (record world { spent = spent }))
      h
send_reserved-IsSaved a i world (spent, some err) h =
    absurd
      (hold_built_fails a.attempt_write (not_reserved err) i (record world { spent = spent }) h)

send_stored-IsSaved :
    (eng : Engine) (a : SendAnswers) (world : World) (i : Intent)
    → (send_stored eng a world i).fault ≡ none
    → IsSaved i.id broadcast (send_stored eng a world i)
unfolding send_stored
send_stored-IsSaved eng a world i h = elim (Option-cases (held_err i)) [
  | inr (err, e) ↦ absurd (ground (arith, h, e))
  | inl e ↦
      rw (e, send_stored)
        (send_reserved-IsSaved a i world
          (Reserving.reserve a.reserve_write.at a.reserve_write.outcome (utxos i) i.id (ttl eng)
            world.spent)
          (ground (arith, h, e)))
]

pub broadcast_intent-IsSaved :
    (eng : Engine) (a : SendAnswers) (i : Intent) (world : World)
    → Inv world
    → (broadcast_intent eng a i world).fault ≡ none
    → IsSaved i.id broadcast (broadcast_intent eng a i world)
unfolding broadcast_intent
broadcast_intent-IsSaved eng a i world v h =
    let (s, e, k) = with_stored_ok (built ∷ []) i world (send_stored eng a world) h in
    subst2 s (v.keyed i.id s e) k
      (send_stored-IsSaved eng a world s (ap (λ (r : Reply). r.fault) (sym k) ∙ h))
  where
    subst2 :
        (s : Intent) {r r' : Reply}
        → s.id ≡ i.id
        → r ≡ r'
        → IsSaved s.id broadcast r'
        → IsSaved i.id broadcast r
    subst2 s p q t = record {
      same_id = ap (λ (r : Reply). r.copy.id) q ∙ t.same_id ∙ p;
      in_state = ap (λ (r : Reply). r.copy.state) q ∙ t.in_state;
      stored = ground (arith, t.stored, p, q);
    }
