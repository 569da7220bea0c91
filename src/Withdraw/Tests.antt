-- ===== src/Withdraw/Tests.antt =====
-- The theorems of the engine at one withdrawal: submitted, built, sent with its outcome unknown, and
-- sent again.
use soqucoin_sdk.Prelude.{
  ℕ, ◌≤◌, ◌+◌, ◌<◌, String, ◌≡◌, ◌≢◌, ◌⊎◌, refl, Bool, true, false, Option, none, some, [], ◌∷◌,
  not, ◌&&◌, ◌==◌, string_Eq, get_elem?, arith, All, if◌then◌else◌,
}
use soqucoin_sdk.Errors.{
  Error, unknown_outcome, permanent, already_in_chain, txid_mismatch, is, conflict,
}
use soqucoin_sdk.Types.{outpoint_Eq, Utxo, asset_type_soq}
use soqucoin_sdk.AtomicFile.{written}
use soqucoin_sdk.Map
use soqucoin_sdk.SpentSet.Reserving
use soqucoin_sdk.SpentSet.Methods
use soqucoin_sdk.SpentSet.Methods.{reserved_intents}
use soqucoin_sdk.Withdraw.Intent.{
  created, built, broadcast, failed, confirmed, Intent, Input, utxos, recorded,
}
use soqucoin_sdk.Withdraw.Store
use soqucoin_sdk.Withdraw.Engine.{
  Engine, World, Write, Sent, context_ended, wait, check_destination, ttl,
}
use soqucoin_sdk.Withdraw.Engine.Building.{
  fresh, chosen, signed, BuildAnswers, build, submit, same_payment,
}
use soqucoin_sdk.Withdraw.Engine.Sending.{SendAnswers, broadcast_intent, maybe_out, last_sent}
use soqucoin_sdk.Withdraw.Engine.Settling.{
  says, ConfirmAnswers, update_confirmations, Chain, AbandonAnswers, abandon, sendable,
}
use soqucoin_sdk.Withdraw.Engine.Driving.{ProcessAnswers, process, RecoverAnswers, release_orphans}
use soqucoin_sdk.Withdraw.Evolution.{Evolves, Inv}
use soqucoin_sdk.Withdraw.Evolution.History.{
  Reach, here, next, submits, builds, sends, records_evolve, sent_is_recorded, one_transaction,
  Reach-Good, single,
}
use soqucoin_sdk.Withdraw.Evolution.Verdicts.Processing.{IsSent}
use soqucoin_sdk.Withdraw.Evolution.Verdicts.Stopping.{IsStopped, process_outcome}
use soqucoin_sdk.Withdraw.Evolution.Verdicts.Orphans.{has_nothing_built, release_orphans_exact}
use soqucoin_sdk.SpentSet.{reserved}
use soqucoin_sdk.Map.{keep}
use soqucoin_sdk.Withdraw.Evolution.Verdicts.Sending.{broadcast_grounds}
use soqucoin_sdk.Withdraw.Evolution.Verdicts.Settling.{IsUnknown, abandon_grounds}
use soqucoin_sdk.Withdraw.Evolution.Verdicts.Confirming.{confirm_grounds}
use soqucoin_sdk.Withdraw.Evolution.Verdicts.Submitting.{submit_known}

abbrev engine : Engine
engine = record {
  on_network = λ addr. true;
  required_confirmations = 1;
  reservation_ttl = 0;
  abandon_after = 0;
}

abbrev equal_fold : String → String → Bool
equal_fold a b = a == b

abbrev coin : Utxo
coin = record {
  outpoint = record { tx_id = "aa"; vout = 0 };
  value = 100;
  height = 1;
  address = "own";
  asset_type = asset_type_soq;
}

abbrev at_time : ℕ → Write
at_time t = record { at = t; outcome = written }

abbrev start : World
start = record {
  store = Store.new_mem_store;
  spent = record { entries = Map.empty; file_backed = false; file = none };
  wire = [];
}

abbrev request : Intent
request = fresh 1 "w1" "addr" 5 1

abbrev submitted : World
submitted = (submit equal_fold engine 1 written "w1" "addr" 5 1 start).world

abbrev build_answers : BuildAnswers
build_answers = record {
  selection = chosen (coin ∷ []);
  ended_selecting = false;
  reserve_write = at_time 2;
  signing = signed "ff00" "t1";
  ended_signing = false;
  save_write = at_time 3;
  release_write = written;
}

abbrev built_world : World
built_world = (build engine build_answers request submitted).world

abbrev send_answers : Option Error → SendAnswers
send_answers f = record {
  reserve_write = at_time 4;
  sent_at = 5;
  attempt_write = at_time 5;
  reply = record { got = ""; fault = f };
  mark_write = at_time 6;
  save_write = at_time 7;
  release_write = written;
}

abbrev unsure : World
unsure =
    (broadcast_intent engine (send_answers (some (unknown_outcome ∷ []))) request built_world).world

abbrev accepted_world : World
accepted_world = (broadcast_intent engine (send_answers none) request unsure).world

abbrev call : Sent
call = record { id = "w1"; raw_hex = "ff00"; tx_id = "t1" }

start-Inv : Inv start
unfolding Store.get Store.new_mem_store Map.get Map.empty
start-Inv = record { keyed = λ j a e. absurd (ground (arith, e)); recorded = tt }

history : Reach start accepted_world
history =
    next
      (next
        (next (next here (submits equal_fold engine 1 written "w1" "addr" 5 1 start))
          (builds engine build_answers request submitted))
        (sends engine (send_answers (some (unknown_outcome ∷ []))) request built_world))
      (sends engine (send_answers none) request unsure)

abbrev built_record : Intent
built_record = record request {
  state = built;
  raw_hex = "ff00";
  tx_id = "t1";
  inputs = record { outpoint = coin.outpoint; value = 100; address = "own" } ∷ [];
  updated_at = 3;
}

abbrev failed_record : Intent
failed_record = record built_record {
  state = failed;
  attempts = 1;
  sent_at = some 5;
  last_error = some (permanent ∷ []);
  updated_at = 7;
}

abbrev accepted_record : Intent
accepted_record = record built_record {
  state = broadcast;
  attempts = 2;
  maybe_relayed = true;
  sent_at = some 5;
  updated_at = 7;
}

holds_request : Store.get "w1" submitted.store ≡ some request
unfolding Store.new_mem_store submit build broadcast_intent Map.empty Store.get Map.get
    check_destination Store.create Map.put Reserving.reserve Map.size Store.update utxos recorded
    ttl Methods.mark_broadcast_for
holds_request = refl

holds_built : Store.get "w1" built_world.store ≡ some built_record
unfolding Store.new_mem_store submit build broadcast_intent Map.empty Store.get Map.get
    check_destination Store.create Map.put Reserving.reserve Map.size Store.update utxos recorded
    ttl Methods.mark_broadcast_for
holds_built = refl

holds_accepted : Store.get "w1" accepted_world.store ≡ some accepted_record
unfolding Store.new_mem_store submit build broadcast_intent Map.empty Store.get Map.get
    check_destination Store.create Map.put Reserving.reserve Map.size Store.update utxos recorded
    ttl Methods.mark_broadcast_for
holds_accepted = refl

last_call : get_elem? accepted_world.wire 0 ≡ some call
unfolding Store.new_mem_store submit build broadcast_intent Map.empty Store.get Map.get
    check_destination Store.create Map.put Reserving.reserve Map.size Store.update utxos recorded
    ttl Methods.mark_broadcast_for
last_call = refl

first_call : get_elem? accepted_world.wire 1 ≡ some call
unfolding Store.new_mem_store submit build broadcast_intent Map.empty Store.get Map.get
    check_destination Store.create Map.put Reserving.reserve Map.size Store.update utxos recorded
    ttl Methods.mark_broadcast_for
first_call = refl

one_transaction_example : (call.raw_hex ≡ call.raw_hex) × (call.tx_id ≡ call.tx_id)
one_transaction_example =
    one_transaction start accepted_world 0 1 call call start-Inv history last_call first_call refl

submitted-Inv : Inv submitted
submitted-Inv =
    (Reach-Good start-Inv (single (submits equal_fold engine 1 written "w1" "addr" 5 1 start))).inv

since_submitted : Reach submitted accepted_world
since_submitted =
    next
      (next (single (builds engine build_answers request submitted))
        (sends engine (send_answers (some (unknown_outcome ∷ []))) request built_world))
      (sends engine (send_answers none) request unsure)

records_evolve_example :
    (b : Intent) × (Store.get "w1" accepted_world.store ≡ some b) × Evolves request b
records_evolve_example =
    records_evolve submitted accepted_world "w1" request submitted-Inv since_submitted holds_request

sent_is_recorded_example :
    (b : Intent) × (Store.get "w1" accepted_world.store ≡ some b)
    × (b.raw_hex ≡ "ff00")
    × (b.tx_id ≡ "t1")
    × (b.state ≢ created)
sent_is_recorded_example = sent_is_recorded start accepted_world 1 call start-Inv history first_call

abbrev rejection : SendAnswers
rejection = send_answers (some (permanent ∷ []))

holds_failed :
    Store.get "w1" (broadcast_intent engine rejection request built_world).world.store
    ≡ some failed_record
unfolding Store.new_mem_store submit build broadcast_intent Map.empty Store.get Map.get
    check_destination Store.create Map.put Reserving.reserve Map.size Store.update utxos recorded
    ttl Methods.mark_broadcast_for
holds_failed = refl

broadcast_grounds_example :
    (failed_record.state ≡ built)
    ⊎ ((failed_record.state ≡ broadcast)
        × ((rejection.reply.fault ≡ none)
            ⊎ ((err : Error) × (rejection.reply.fault ≡ some err)
                × (is already_in_chain err ≡ true))))
    ⊎ ((failed_record.state ≡ failed)
        × (err : Error) × (rejection.reply.fault ≡ some err)
        × (maybe_out built_record ≡ false)
        × (is permanent err ≡ true)
        × (is already_in_chain err ≡ false)
        × (context_ended err ≡ false)
        × (is unknown_outcome err ≡ false)
        × (is txid_mismatch err ≡ false))
unfolding fresh
broadcast_grounds_example =
    broadcast_grounds engine rejection request built_record failed_record built_world holds_built
      refl refl holds_failed

abbrev confirm_answers : ConfirmAnswers
confirm_answers = record {
  confirmations = some (says 2);
  confirm_write = written;
  save_write = at_time 8;
}

abbrev confirmed_record : Intent
confirmed_record = record accepted_record { state = confirmed; confirmations = 2; updated_at = 8 }

holds_confirmed :
    Store.get "w1" (update_confirmations engine confirm_answers request accepted_world).world.store
    ≡ some confirmed_record
unfolding Store.new_mem_store submit build broadcast_intent Map.empty Store.get Map.get
    check_destination Store.create Map.put Reserving.reserve Map.size Store.update utxos recorded
    ttl Methods.mark_broadcast_for update_confirmations
holds_confirmed = refl

confirm_grounds_example :
    (broadcast ≡ broadcast)
    × (m : ℕ) × (confirm_answers.confirmations ≡ some (says m))
    × (0 < 1)
    × (1 ≤ m)
unfolding fresh
confirm_grounds_example =
    confirm_grounds engine confirm_answers request accepted_record confirmed_record accepted_world
      holds_accepted refl (ground arith) holds_confirmed refl

abbrev forgetful : Chain
forgetful = record { knows = λ tx. says false; unspent = λ o. says true }

abbrev abandon_answers : AbandonAnswers
abandon_answers = record {
  chain = some forgetful;
  now = 90_000_000_000_000;
  abandoned_at = 90_000_000_000_001;
  save_write = at_time 90_000_000_000_002;
  forget_write = written;
}

abbrev abandoned_record : Intent
abandoned_record = record accepted_record {
  state = failed;
  abandoned_at = some 90_000_000_000_001;
  last_error = some [];
  updated_at = 90_000_000_000_002;
}

holds_abandoned :
    Store.get "w1" (abandon engine abandon_answers request accepted_world).world.store
    ≡ some abandoned_record
unfolding Store.new_mem_store submit build broadcast_intent Map.empty Store.get Map.get
    check_destination Store.create Map.put Reserving.reserve Map.size Store.update utxos recorded
    ttl Methods.mark_broadcast_for abandon wait
holds_abandoned = refl

abandon_grounds_example :
    (c : Chain) × (abandon_answers.chain ≡ some c)
    × ((accepted_record.state ≡ built) ⊎ (accepted_record.state ≡ broadcast))
    × (sendable accepted_record ≡ false)
    × (last_sent accepted_record + wait engine ≤ abandon_answers.now)
    × IsUnknown c accepted_record.tx_id
    × IsUnknown c accepted_record.node_tx_id
    × All (λ (o : Input). c.unspent o.outpoint ≡ says true) accepted_record.inputs
unfolding fresh
abandon_grounds_example =
    abandon_grounds engine abandon_answers request accepted_record abandoned_record accepted_world
      holds_accepted refl (ground arith) holds_abandoned refl

submit_known_example : submit equal_fold engine 9 written "w1" "addr" 6 1 submitted ≡ (record {
  world = submitted;
  intent = some request;
  created = false;
  fault = if same_payment equal_fold "addr" 6 1 request then none else some (conflict ∷ []);
})
unfolding check_destination
submit_known_example =
    submit_known equal_fold engine 9 written "w1" "addr" 6 1 submitted request refl refl
      holds_request

abbrev process_answers : ProcessAnswers
process_answers = record {
  before_build = λ w. w;
  build_answers = build_answers;
  before_send = λ w. w;
  send_answers = send_answers none;
}

process_outcome_example :
    (((process engine process_answers "w1" submitted).fault ≡ none)
      × IsSent "w1" (process engine process_answers "w1" submitted))
    ⊎ IsStopped engine process_answers "w1" submitted
        (process engine process_answers "w1" submitted)
process_outcome_example =
    process_outcome engine process_answers (λ w v. v) (λ w v. v) "w1" submitted submitted-Inv

-- That withdrawal is sent.
processed_sent : (process engine process_answers "w1" submitted).fault ≡ none
unfolding Store.new_mem_store submit build broadcast_intent process Map.empty Store.get Map.get
    check_destination Store.create Map.put Reserving.reserve Map.size Store.update utxos recorded
    ttl Methods.mark_broadcast_for
processed_sent = refl

abbrev recover_answers : RecoverAnswers
recover_answers = record {
  mark_write = λ id. at_time 20;
  forget_write = λ id. written;
  release_write = λ id. written;
  reserve_write = λ id. at_time 21;
  context = λ id. none;
  send_answers = λ id. send_answers none;
}

-- A Build that stopped between the reservation and the record.
abbrev stranded : World
stranded = record submitted {
  spent = (Reserving.reserve 2 written (coin ∷ []) "w1" 1000 submitted.spent).0;
}

abbrev recovered : World
recovered = (release_orphans recover_answers (reserved_intents stranded.spent) (stranded, none)).0

release_orphans_exact_example :
    (Map.get coin.outpoint recovered.spent.entries
      ≡ keep
          (λ e. not (reserved e && has_nothing_built (Store.get e.intent_id stranded.store)))
          (Map.get coin.outpoint stranded.spent.entries))
    × (recovered.store ≡ stranded.store)
    × (recovered.wire ≡ stranded.wire)
release_orphans_exact_example = release_orphans_exact recover_answers stranded none coin.outpoint
