-- ===== src/Withdraw/Evolution/Transitions/Settles.antt =====
-- `UpdateConfirmations` and `Abandon` let the records evolve.
use soqucoin_sdk.Prelude.{
  ℕ, ◌≡◌, Option, none, some, [], ◌∷◌, arith, ◌⊎◌, inl, inr, Option-cases, Bool-cases, leb, nat_eq,
}
use soqucoin_sdk.Errors.{Fault}
use soqucoin_sdk.SpentSet.{SpentSet}
use soqucoin_sdk.SpentSet.Methods
use soqucoin_sdk.Withdraw.Intent.{state_eq_iff, built, broadcast, confirmed, failed, utxos, Intent}
use soqucoin_sdk.Withdraw.Store
use soqucoin_sdk.Withdraw.Engine.{save, Engine, World, Reply}
use soqucoin_sdk.Withdraw.Engine.Settling.{
  Answer, says, fails, ConfirmAnswers, save_confirmed, confirm_counted, confirm_stored,
  confirm_with, update_confirmations, Chain, AbandonAnswers, forget_saved, abandon_checked,
  sendable, abandon_stored, abandon_with, abandon,
}
use soqucoin_sdk.Withdraw.Evolution.{Evolves, Inv, Good, Good-refl, save-Good}
use soqucoin_sdk.Withdraw.Evolution.Transitions.{
  Inv-spent, Good-spent, spent-Good, with_stored-Good,
}

save_confirmed-Good :
    (a : ConfirmAnswers) (i : Intent) (world : World) (s : SpentSet × Fault) {old : Intent}
    → Inv world
    → Store.get i.id world.store ≡ some old
    → Evolves old (record i { state = confirmed; updated_at = a.save_write.at })
    → Good world (save_confirmed a i world s).world
unfolding save_confirmed
save_confirmed-Good a i world (spent, f) v e p = spent-Good spent (
    save-Good a.save_write broadcast (record i { state = confirmed })
      (record world { spent = spent }) (Inv-spent spent v) e p)

confirm_counted-Good :
    (eng : Engine) (a : ConfirmAnswers) (n : ℕ) (i : Intent) (world : World)
    → Inv world
    → Store.get i.id world.store ≡ some i
    → i.state ≡ broadcast
    → Good world (confirm_counted eng a n i world).world
unfolding confirm_counted
confirm_counted-Good eng a n i world v e h = elim (Bool-cases (leb eng.required_confirmations n)) [
  | inl b ↦ rw b (
      save_confirmed-Good a (record i { confirmations = n }) world
        (Methods.confirm_spent_all a.confirm_write (utxos i) world.spent) v e (ground arith))
  | inr b ↦
      rw b
        (save-Good a.save_write broadcast (record i { confirmations = n }) world v e (ground arith))
]

confirm_stored-Good :
    (eng : Engine) (a : ConfirmAnswers) (i : Intent) (world : World) (r : Answer ℕ) (s : Intent)
    → Inv world
    → Store.get s.id world.store ≡ some s
    → s.state ≡ broadcast
    → Good world (confirm_stored eng a i world r s).world
unfolding confirm_stored
confirm_stored-Good eng a i world (says n) s v e h = confirm_counted-Good eng a n s world v e h
confirm_stored-Good eng a i world (fails err) s v e h = Good-refl v

confirm_with-Good :
    (eng : Engine) (a : ConfirmAnswers) (i : Intent) (world : World) (o : Option (Answer ℕ))
    → Inv world
    → Good world (confirm_with eng a i world o).world
unfolding confirm_with
confirm_with-Good eng a i world none v = Good-refl v
confirm_with-Good eng a i world (some r) v =
    elim (Bool-cases (nat_eq eng.required_confirmations 0)) [
      | inl b ↦ rw b (Good-refl v)
      | inr b ↦ rw b (
          with_stored-Good (broadcast ∷ []) i world (confirm_stored eng a i world r) v (λ s e c.
            confirm_stored-Good eng a i world r s v e
              (ground (arith, state_eq_iff broadcast s.state))))
    ]

pub update_confirmations-Good :
    (eng : Engine) (a : ConfirmAnswers) (i : Intent) (world : World)
    → Inv world
    → Good world (update_confirmations eng a i world).world
unfolding update_confirmations
update_confirmations-Good eng a i world v = confirm_with-Good eng a i world a.confirmations v

forget_saved-Good :
    (a : AbandonAnswers) (r : Reply) {world : World}
    → Good world r.world
    → Good world (forget_saved a r).world
unfolding forget_saved
forget_saved-Good a r g = elim (Option-cases r.fault) [
  | inl e ↦ rw (e, forget_saved) (Good-spent _ g)
  | inr (err, e) ↦ rw (e, forget_saved) g
]

abandon_checked-Good :
    (a : AbandonAnswers) (world : World) (i : Intent) (f : Fault)
    → Inv world
    → Store.get i.id world.store ≡ some i
    → (i.state ≡ built) ⊎ (i.state ≡ broadcast)
    → Good world (abandon_checked a world i f).world
unfolding abandon_checked
abandon_checked-Good a world i none v e h =
    let i' : Intent = record i {
      state = failed;
      abandoned_at = some a.abandoned_at;
      last_error = some [];
    } in
    forget_saved-Good a (save a.save_write i.state i' world)
      (save-Good a.save_write i.state i' world v e (ground arith))
abandon_checked-Good a world i (some err) v e h = Good-refl v

abandon_stored-Good :
    (eng : Engine) (a : AbandonAnswers) (c : Chain) (i : Intent) (world : World) (s : Intent)
    → Inv world
    → Store.get s.id world.store ≡ some s
    → (s.state ≡ built) ⊎ (s.state ≡ broadcast)
    → Good world (abandon_stored eng a c i world s).world
unfolding abandon_stored
abandon_stored-Good eng a c i world s v e h = elim (Bool-cases (sendable s)) [
  | inl b ↦ rw b (Good-refl v)
  | inr b ↦ rw b (abandon_checked-Good a world s _ v e h)
]

abandon_with-Good :
    (eng : Engine) (a : AbandonAnswers) (i : Intent) (world : World) (o : Option Chain)
    → Inv world
    → Good world (abandon_with eng a i world o).world
unfolding abandon_with
abandon_with-Good eng a i world none v = Good-refl v
abandon_with-Good eng a i world (some c) v =
    with_stored-Good (built ∷ broadcast ∷ []) i world (abandon_stored eng a c i world) v
      (λ s e b. abandon_stored-Good eng a c i world s v e (ground arith))

pub abandon-Good :
    (eng : Engine) (a : AbandonAnswers) (i : Intent) (world : World)
    → Inv world
    → Good world (abandon eng a i world).world
unfolding abandon
abandon-Good eng a i world v = abandon_with-Good eng a i world a.chain v
