-- ===== src/Withdraw/Evolution/Verdicts.antt =====
-- In which state each call leaves the record, and on what grounds.
mod Saved
mod Built
pub mod Processing
pub mod Stopping
pub mod Orphans
pub mod Sending
pub mod Settling
pub mod Confirming
pub mod Submitting
use soqucoin_sdk.Prelude.{
  ℕ, ◌+◌, ◌≤◌, ◌<◌, String, ◌≡◌, ◌≢◌, refl, sym, ◌∙◌, ap, Bool, true, false, Option, none, some,
  List, [], ◌∷◌, arith, ◌⊎◌, inl, inr, Option-cases, Bool-cases, ◌||◌, nat_eq, string_Eq,
  if◌then◌else◌, ◌&&◌, ◌==◌,
}
use soqucoin_sdk.Errors.{
  wrong_state, Error, Fault, held, is, permanent, unknown_outcome, already_in_chain, txid_mismatch,
}
use soqucoin_sdk.AtomicFile.{WriteOutcome}
use soqucoin_sdk.SpentSet.{SpentSet}
use soqucoin_sdk.SpentSet.Reserving
use soqucoin_sdk.SpentSet.Methods
use soqucoin_sdk.Withdraw.Intent.{
  state_eq, state_eq_iff, State, built, broadcast, confirmed, failed, Intent, held_err, hold_tx_id,
  hold_rejected_after_unknown, utxos,
}
use soqucoin_sdk.Withdraw.Store
use soqucoin_sdk.Withdraw.Store.Laws.{landed, get-update}
use soqucoin_sdk.Withdraw.Engine.{
  save, fail, fail_saved, failed_intent, Engine, World, Write, Reply, hand_over, saved_with,
  in_states, with_stored, with_reread, reread, reread_record, found, refused, not_reserved, ttl,
  release, context_ended,
}
use soqucoin_sdk.Withdraw.Engine.Sending.{
  hold_built, hold_after_mark, hold_marked, Verdict, accepted, may_be_out, other_tx_id,
  rejected_after_unknown, rejected, not_taken, verdict, verdict_of, SendAnswers, accept, or_unknown,
  settle, maybe_out, send, send_reserved, send_stored, broadcast_intent, with_fault,
}
use soqucoin_sdk.Withdraw.Evolution.{save_stored}

pub get-save :
    (w : Write) (from : State) (i : Intent) (world : World)
    → Store.get i.id (save w from i world).world.store ≡ (
        if landed (save w from i world).fault
        then some (record i { updated_at = w.at })
        else Store.get i.id world.store)
unfolding save
get-save w from i world = ground (
  arith,
  get-update w.outcome (record i { updated_at = w.at }) from world.store i.id,
  string_Eq.beq_iff i.id i.id,
)

pub with_stored_found :
    (want : List State) (i : Intent) (world : World) (go : Intent → Reply) {s : Intent}
    → Store.get i.id world.store ≡ some s
    → in_states want s.state ≡ true
    → with_stored want i world go ≡ go s
unfolding with_stored with_reread reread reread_record
with_stored_found want i world go {s} e b =
    ap (λ r. with_reread i world go r) (ap (λ o. reread_record want o) e ∙ kept)
  where
    kept : reread_record want (some s) ≡ found s
    kept = ground arith

pub with_stored_refused :
    (want : List State) (i : Intent) (world : World) (go : Intent → Reply) {s : Intent}
    → Store.get i.id world.store ≡ some s
    → in_states want s.state ≡ false
    → with_stored want i world go
      ≡ record { world = world; copy = i; fault = some (wrong_state ∷ []) }
unfolding with_stored with_reread reread reread_record
with_stored_refused want i world go {s} e b =
    ap (λ r. with_reread i world go r) (ap (λ o. reread_record want o) e ∙ kept)
  where
    kept : reread_record want (some s) ≡ refused (wrong_state ∷ [])
    kept = ground arith
