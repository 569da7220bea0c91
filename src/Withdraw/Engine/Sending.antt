-- ===== src/Withdraw/Engine/Sending.antt =====
-- withdraw/engine.go: `Broadcast` and `Rebroadcast`.
use soqucoin_sdk.Prelude.{
  ◌++◌, ℕ, ◌+◌, String, Bool, true, false, not, ◌||◌, ◌&&◌, none, some, [], ◌∷◌, if◌then◌else◌, ltb,
  ◌==◌, string_Eq, is_some,
}
use soqucoin_sdk.Errors.{
  permanent, transient, unknown_outcome, txid_mismatch, unauthorized, already_in_chain, held, Error,
  Fault, is, join,
}
use soqucoin_sdk.AtomicFile.{WriteOutcome}
use soqucoin_sdk.SpentSet.{SpentSet}
use soqucoin_sdk.SpentSet.Reserving
use soqucoin_sdk.SpentSet.Methods
use soqucoin_sdk.Withdraw.Intent.{
  built, broadcast, Intent, held_err, hold_tx_id, hold_rejected_after_unknown, node_tx_id_unknown,
  utxos,
}
use soqucoin_sdk.Withdraw.Engine.{
  Engine, World, Write, Reply, hand_over, context_ended, ttl, save, with_stored, saved_with, fail,
  not_reserved,
}

-- What the Broadcaster returns: a txid and an error.
pub record NodeReply : Type 0 where
  pub got : String
  pub fault : Fault

-- What one Broadcast meets, in its order.
pub record SendAnswers : Type 0 where
  pub reserve_write : Write
  pub sent_at : ℕ
  pub attempt_write : Write
  pub reply : NodeReply
  pub mark_write : Write
  pub save_write : Write
  pub release_write : WriteOutcome

unfoldable pub hold_built : Write → Error → Intent → World → Reply
unfolding save saved_with
hold_built w cause i world =
    saved_with cause (save w built (record i { last_error = some cause }) world)

-- `errors.Join` of the cause and a spent set that could not be written.
abbrev pub with_fault : Error → Fault → Error
with_fault cause none = cause
with_fault cause (some err) = cause ++ err

unfoldable pub hold_after_mark : Write → Error → Intent → World → SpentSet × Fault → Reply
unfolding hold_built
hold_after_mark w cause i world (spent, f) =
    hold_built w (with_fault cause f) i (record world { spent = spent })

unfoldable pub hold_marked : Write → Write → Error → Intent → World → Reply
unfolding hold_after_mark
hold_marked mark w cause i world =
    hold_after_mark w cause i world
      (Methods.mark_broadcast_for mark.at mark.outcome (utxos i) (hold_tx_id i) i.id world.spent)

-- The branch that the `switch` of Broadcast takes.
pub data Verdict : Type 0 where
  accepted : Verdict
  may_be_out : Error → Verdict
  other_tx_id : Error → Verdict
  rejected_after_unknown : Verdict
  rejected : Error → Verdict
  not_taken : Error → Verdict

-- `prior`: the bytes may be out from an attempt before this one.
unfoldable pub verdict_of : Bool → Error → Verdict
unfolding is context_ended
verdict_of prior err =
    if is already_in_chain err
    then accepted
    else if context_ended err || is unknown_outcome err
    then may_be_out err
    else if is txid_mismatch err
    then other_tx_id err
    else if is permanent err && prior
    then rejected_after_unknown
    else if is permanent err
    then rejected err
    else if is transient err || is unauthorized err
    then not_taken err
    else may_be_out err

unfoldable pub verdict : Bool → Fault → Verdict
unfolding verdict_of
verdict prior none = accepted
verdict prior (some err) = verdict_of prior err

unfoldable pub accept : SendAnswers → Intent → World → SpentSet × Fault → Reply
unfolding save
accept a i world (spent, f) =
    let r =
      save a.save_write built (record i { state = broadcast; last_error = f })
        (record world { spent = spent }) in
    record r { fault = join f r.fault }

abbrev pub or_unknown : String → String
or_unknown got = if got == "" then node_tx_id_unknown else got

unfoldable pub settle : SendAnswers → Bool → Intent → World → Verdict → Reply
unfolding accept hold_built hold_marked fail
settle a prior i world accepted = accept a i world (
    Methods.mark_broadcast_for a.mark_write.at a.mark_write.outcome (utxos i) i.tx_id i.id
      world.spent)
settle a prior i world (may_be_out err) = hold_built a.save_write err i world
settle a prior i world (other_tx_id err) =
    hold_marked a.mark_write a.save_write err (record i { node_tx_id = or_unknown a.reply.got })
      world
settle a prior i world rejected_after_unknown =
    hold_marked a.mark_write a.save_write (held ∷ [])
      (record i { hold = hold_rejected_after_unknown }) world
settle a prior i world (rejected err) =
    fail a.save_write a.release_write err true built (record i { maybe_relayed = false }) world
settle a prior i world (not_taken err) =
    hold_built a.save_write err (record i { maybe_relayed = prior }) world

-- A record from before the mark existed with attempts on it counts as possibly relayed.
unfoldable pub maybe_out : Intent → Bool
maybe_out i = i.maybe_relayed || (ltb 0 i.attempts && not (is_some i.sent_at))

-- The attempt is on record: now the bytes go out.
unfoldable pub send : SendAnswers → Bool → Reply → Reply
unfolding settle verdict hand_over
send a prior r = elim r.fault [
  | none ↦ settle a prior r.copy (hand_over r.copy r.world) (verdict prior a.reply.fault)
  | some err ↦ r
]

unfoldable pub send_reserved : SendAnswers → Intent → World → SpentSet × Fault → Reply
unfolding send save hold_built maybe_out
send_reserved a i world (spent, none) = send a (maybe_out i) (
    save a.attempt_write built
      (record i { attempts = i.attempts + 1; maybe_relayed = true; sent_at = some a.sent_at })
      (record world { spent = spent }))
send_reserved a i world (spent, some err) =
    hold_built a.attempt_write (not_reserved err) i (record world { spent = spent })

unfoldable pub send_stored : Engine → SendAnswers → World → Intent → Reply
unfolding send_reserved held_err
send_stored e a world i = elim (held_err i) [
  | none ↦ send_reserved a i world (
      Reserving.reserve a.reserve_write.at a.reserve_write.outcome (utxos i) i.id (ttl e)
        world.spent)
  | some err ↦ record { world = world; copy = i; fault = some err }
]

unfoldable pub broadcast_intent : Engine → SendAnswers → Intent → World → Reply
unfolding with_stored send_stored
broadcast_intent e a i world = with_stored (built ∷ []) i world (send_stored e a world)

-- What one Rebroadcast meets, in its order.
pub record ResendAnswers : Type 0 where
  pub sent_at : ℕ
  pub attempt_write : Write
  pub reply : NodeReply
  pub save_write : Write

-- `sentAt`, or when the record was last written for one from before it existed.
unfoldable pub last_sent : Intent → ℕ
last_sent i = elim i.sent_at [ none ↦ i.updated_at | some t ↦ t ]

-- The node answered and did not take the bytes.
unfoldable pub refused_by_node : Error → Bool
unfolding is
refused_by_node err = is permanent err || is transient err || is unauthorized err

unfoldable pub resent_with : ℕ → Fault → Intent → Intent
unfolding refused_by_node is
resent_with before none i = record i { last_error = none }
resent_with before (some err) i =
    if is already_in_chain err
    then record i { last_error = none }
    else if refused_by_node err
    then record i { last_error = some err; sent_at = some before }
    else record i { last_error = some err }

unfoldable pub resent_fault : Fault → Fault
unfolding is
resent_fault none = none
resent_fault (some err) = if is already_in_chain err then none else some err

unfoldable pub resend : ResendAnswers → ℕ → Reply → Reply
unfolding resent_with resent_fault save hand_over
resend a before r = elim r.fault [
  | none ↦
      let s =
        save a.save_write broadcast (resent_with before a.reply.fault r.copy)
          (hand_over r.copy r.world) in
      record s { fault = join (resent_fault a.reply.fault) s.fault }
  | some err ↦ r
]

unfoldable pub resend_stored : ResendAnswers → World → Intent → Reply
unfolding resend save last_sent
resend_stored a world i = resend a (last_sent i) (
    save a.attempt_write broadcast
      (record i { attempts = i.attempts + 1; sent_at = some a.sent_at }) world)

unfoldable pub rebroadcast : ResendAnswers → Intent → World → Reply
unfolding with_stored resend_stored
rebroadcast a i world = with_stored (broadcast ∷ []) i world (resend_stored a world)
