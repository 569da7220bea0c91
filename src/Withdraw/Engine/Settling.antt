-- ===== src/Withdraw/Engine/Settling.antt =====
-- withdraw/engine.go: `UpdateConfirmations` and `Abandon`.
use soqucoin_sdk.Prelude.{
  ℕ, ◌+◌, String, Bool, true, false, not, ◌||◌, Option, none, some, List, [], ◌∷◌, if◌then◌else◌,
  nat_eq, leb, ltb, ◌==◌, string_Eq, ◌&&◌, is_some,
}
use soqucoin_sdk.Errors.{not_abandonable, wrong_state, Error, Fault, join}
use soqucoin_sdk.Types.{Outpoint}
use soqucoin_sdk.AtomicFile.{WriteOutcome}
use soqucoin_sdk.SpentSet.{SpentSet}
use soqucoin_sdk.SpentSet.Methods
use soqucoin_sdk.Withdraw.Intent.{
  built, broadcast, confirmed, failed, state_eq, Input, Intent, held_err, node_tx_id_unknown, utxos,
}
use soqucoin_sdk.Withdraw.Engine.{Engine, World, Write, Reply, save, with_stored, wait}
use soqucoin_sdk.Withdraw.Engine.Sending.{last_sent}

-- What a call of the node gives.
pub data Answer {ℓ} (A : Type ℓ) : Type ℓ where
  says : A → Answer A
  fails : Error → Answer A

-- What one UpdateConfirmations meets; `none` is an engine with no Confirmer.
pub record ConfirmAnswers : Type 0 where
  pub confirmations : Option (Answer ℕ)
  pub confirm_write : WriteOutcome
  pub save_write : Write

unfoldable pub save_confirmed : ConfirmAnswers → Intent → World → SpentSet × Fault → Reply
unfolding save
save_confirmed a i world (spent, f) =
    let r =
      save a.save_write broadcast (record i { state = confirmed })
        (record world { spent = spent }) in
    record r { fault = join f r.fault }

unfoldable pub confirm_counted : Engine → ConfirmAnswers → ℕ → Intent → World → Reply
unfolding save_confirmed save
confirm_counted e a n i world =
    if leb e.required_confirmations n
    then save_confirmed a (record i { confirmations = n }) world
        (Methods.confirm_spent_all a.confirm_write (utxos i) world.spent)
    else save a.save_write broadcast (record i { confirmations = n }) world

-- The caller's copy is replaced only when the node has answered.
unfoldable pub confirm_stored : Engine → ConfirmAnswers → Intent → World → Answer ℕ → Intent → Reply
unfolding confirm_counted
confirm_stored e a i world (says n) stored = confirm_counted e a n stored world
confirm_stored e a i world (fails err) stored = record { world = world; copy = i; fault = some err }

unfoldable pub confirm_with : Engine → ConfirmAnswers → Intent → World → Option (Answer ℕ) → Reply
unfolding confirm_stored with_stored
confirm_with e a i world none = record { world = world; copy = i; fault = some [] }
confirm_with e a i world (some answer) =
    if nat_eq e.required_confirmations 0
    then record { world = world; copy = i; fault = some [] }
    else with_stored (broadcast ∷ []) i world (confirm_stored e a i world answer)

unfoldable pub update_confirmations : Engine → ConfirmAnswers → Intent → World → Reply
unfolding confirm_with
update_confirmations e a i world = confirm_with e a i world a.confirmations

-- The node as Abandon asks it.
pub record Chain : Type 0 where
  pub knows : String → Answer Bool
  pub unspent : Outpoint → Answer Bool

-- What one Abandon meets; `none` is an engine with no Chain.
pub record AbandonAnswers : Type 0 where
  pub chain : Option Chain
  pub now : ℕ
  pub abandoned_at : ℕ
  pub save_write : Write
  pub forget_write : WriteOutcome

-- A check passes, or gives the error that stops the call.
unfoldable pub after_knows : Answer Bool → Fault → Fault
after_knows (fails err) rest = some err
after_knows (says true) rest = some (not_abandonable ∷ [])
after_knows (says false) rest = rest

unfoldable pub unknown_to : Chain → List String → Fault
unfolding after_knows
unknown_to c [] = none
unknown_to c (tx_id ∷ tx_ids) =
    let rest = unknown_to c tx_ids in
    if (tx_id == "") || (tx_id == node_tx_id_unknown)
    then rest
    else after_knows (c.knows tx_id) rest

unfoldable pub after_unspent : Answer Bool → Fault → Fault
after_unspent (fails err) rest = some err
after_unspent (says false) rest = some (not_abandonable ∷ [])
after_unspent (says true) rest = rest

unfoldable pub all_unspent : Chain → List Input → Fault
unfolding after_unspent
all_unspent c [] = none
all_unspent c (o ∷ os) = after_unspent (c.unspent o.outpoint) (all_unspent c os)

abbrev or_else : Fault → Fault → Fault
or_else none f = f
or_else (some err) f = some err

-- Every check of Abandon, in its order.
unfoldable pub not_abandonable_why : Engine → Chain → ℕ → Intent → Fault
unfolding last_sent unknown_to all_unspent
not_abandonable_why e c now i =
    if ltb now (last_sent i + wait e)
    then some (not_abandonable ∷ [])
    else or_else (unknown_to c (i.tx_id ∷ i.node_tx_id ∷ [])) (all_unspent c i.inputs)

unfoldable pub forget_saved : AbandonAnswers → Reply → Reply
forget_saved a r = elim r.fault [
  | none ↦
      let (spent, f) = Methods.forget a.forget_write r.copy.id r.world.spent in
      record r { world = record r.world { spent = spent }; fault = f }
  | some err ↦ r
]

unfoldable pub abandon_checked : AbandonAnswers → World → Intent → Fault → Reply
unfolding forget_saved save
abandon_checked a world i none = forget_saved a (
    save a.save_write i.state
      (record i { state = failed; abandoned_at = some a.abandoned_at; last_error = some [] }) world)
abandon_checked a world i (some err) = record { world = world; copy = i; fault = some err }

-- A Built intent that is not held is refused.
unfoldable pub sendable : Intent → Bool
unfolding held_err
sendable i = state_eq i.state built && not (is_some (held_err i))

unfoldable pub abandon_stored : Engine → AbandonAnswers → Chain → Intent → World → Intent → Reply
unfolding abandon_checked not_abandonable_why sendable
abandon_stored e a c i world stored =
    if sendable stored
    then record { world = world; copy = i; fault = some (wrong_state ∷ []) }
    else abandon_checked a world stored (not_abandonable_why e c a.now stored)

unfoldable pub abandon_with : Engine → AbandonAnswers → Intent → World → Option Chain → Reply
unfolding abandon_stored with_stored
abandon_with e a i world none = record { world = world; copy = i; fault = some [] }
abandon_with e a i world (some c) =
    with_stored (built ∷ broadcast ∷ []) i world (abandon_stored e a c i world)

unfoldable pub abandon : Engine → AbandonAnswers → Intent → World → Reply
unfolding abandon_with
abandon e a i world = abandon_with e a i world a.chain
