-- ===== src/Withdraw/Evolution/Verdicts/Confirming.antt =====
-- In which state UpdateConfirmations leaves the record, and on what grounds.
use soqucoin_sdk.Prelude.{
  ℕ, ◌≤◌, ◌<◌, ◌≡◌, ◌≢◌, sym, ◌∙◌, ap, false, Option, none, some, [], ◌∷◌, arith, inl, inr,
  Bool-cases, nat_eq, refl, string_Eq,
}
use soqucoin_sdk.Withdraw.Intent.{state_eq_iff, broadcast, confirmed, Intent}
use soqucoin_sdk.Withdraw.Store
use soqucoin_sdk.Withdraw.Engine.{Engine, World, in_states, with_stored}
use soqucoin_sdk.Withdraw.Engine.Settling.{
  Answer, says, fails, ConfirmAnswers, confirm_counted, confirm_stored, confirm_with,
  update_confirmations,
}
use soqucoin_sdk.Withdraw.Evolution.Verdicts.{get-save, with_stored_found, with_stored_refused}

confirm_counted_state :
    (eng : Engine) (a : ConfirmAnswers) (m : ℕ) (i : Intent) (world : World) {b : Intent}
    → Store.get i.id world.store ≡ some i
    → i.state ≢ confirmed
    → Store.get i.id (confirm_counted eng a m i world).world.store ≡ some b
    → b.state ≡ confirmed
    → eng.required_confirmations ≤ m
unfolding confirm_counted
confirm_counted_state eng a m i world e n g h =
    ground (arith, get-save a.save_write broadcast (record i { confirmations = m }) world)

confirm_stored_state :
    (eng : Engine) (a : ConfirmAnswers) (i : Intent) (world : World) (r : Answer ℕ) (s : Intent)
    {b : Intent}
    → Store.get s.id world.store ≡ some s
    → s.state ≢ confirmed
    → Store.get s.id (confirm_stored eng a i world r s).world.store ≡ some b
    → b.state ≡ confirmed
    → (m : ℕ) × (r ≡ says m) × (eng.required_confirmations ≤ m)
unfolding confirm_stored
confirm_stored_state eng a i world (says m) s e n g h =
    (m, refl, confirm_counted_state eng a m s world e n g h)
confirm_stored_state eng a i world (fails err) s e n g h = absurd (ground (arith, e, n, g, h))

confirm_with_stored :
    (eng : Engine) (a : ConfirmAnswers) (i : Intent) (world : World) (r : Answer ℕ)
    → nat_eq eng.required_confirmations 0 ≡ false
    → confirm_with eng a i world (some r)
      ≡ with_stored (broadcast ∷ []) i world (confirm_stored eng a i world r)
unfolding confirm_with
confirm_with_stored eng a i world r z = rw z refl

confirm_with_state :
    (eng : Engine) (a : ConfirmAnswers) (i s : Intent) (world : World) (o : Option (Answer ℕ))
    {b : Intent}
    → Store.get i.id world.store ≡ some s
    → s.id ≡ i.id
    → s.state ≢ confirmed
    → Store.get i.id (confirm_with eng a i world o).world.store ≡ some b
    → b.state ≡ confirmed
    → (s.state ≡ broadcast)
      × (m : ℕ) × (o ≡ some (says m))
      × (0 < eng.required_confirmations)
      × (eng.required_confirmations ≤ m)
unfolding confirm_with
confirm_with_state eng a i s world none e k n g h = absurd (ground (arith, e, n, g, h))
confirm_with_state eng a i s world (some r) {b} e k n g h =
    elim (Bool-cases (nat_eq eng.required_confirmations 0)) [
      | inl z ↦ absurd (ground (arith, z, e, n, g, h))
      | inr z ↦
          let go = confirm_stored eng a i world r in
          let t = confirm_with_stored eng a i world r z in
          elim (Bool-cases (in_states (broadcast ∷ []) s.state)) [
            | inl w ↦
                let f = t ∙ with_stored_found (broadcast ∷ []) i world go e w in
                let p =
                  confirm_stored_state eng a i world r s {b = b}
                    (ap (λ x. Store.get x world.store) k ∙ e) n
                    (ap (λ x. Store.get x (go s).world.store) k
                      ∙ sym (ap (λ q. Store.get i.id q.world.store) f)
                      ∙ g)
                    h in
                (
                  ground (arith, w, state_eq_iff broadcast s.state),
                  p.0,
                  ap (λ q. some q) p.1,
                  ground (arith, z),
                  p.2,
                )
            | inr w ↦
                let f = t ∙ with_stored_refused (broadcast ∷ []) i world go e w in
                absurd (ground (arith, e, n, h, sym (ap (λ q. Store.get i.id q.world.store) f) ∙ g))
          ]
    ]

-- When the store holds a record that is not Confirmed, under its own id, and an UpdateConfirmations of
-- it leaves the stored record Confirmed, then the record was Broadcast, the engine asks for at least
-- one confirmation, and the node has answered with at least as many as it asks for.
pub confirm_grounds :
    (eng : Engine) (a : ConfirmAnswers) (i s b : Intent) (world : World)
    → Store.get i.id world.store ≡ some s
    → s.id ≡ i.id
    → s.state ≢ confirmed
    → Store.get i.id (update_confirmations eng a i world).world.store ≡ some b
    → b.state ≡ confirmed
    → (s.state ≡ broadcast)
      × (m : ℕ) × (a.confirmations ≡ some (says m))
      × (0 < eng.required_confirmations)
      × (eng.required_confirmations ≤ m)
unfolding update_confirmations
confirm_grounds eng a i s b world e k n g h =
    confirm_with_state eng a i s world a.confirmations e k n g h
