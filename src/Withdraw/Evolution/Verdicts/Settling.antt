-- ===== src/Withdraw/Evolution/Verdicts/Settling.antt =====
-- In which state Abandon leaves the record, and on what grounds.
use soqucoin_sdk.Prelude.{
  ℕ, ◌+◌, ◌≤◌, String, ◌≡◌, ◌≢◌, sym, ◌∙◌, ap, Bool, true, false, Option, none, some, List, [], ◌∷◌,
  arith, ◌⊎◌, inl, inr, Bool-cases, All, refl, string_Eq,
}
use soqucoin_sdk.Errors.{Fault}
use soqucoin_sdk.Withdraw.Intent.{
  state_eq_iff, built, broadcast, failed, Input, Intent, node_tx_id_unknown,
}
use soqucoin_sdk.Withdraw.Store
use soqucoin_sdk.Withdraw.Engine.{Engine, World, Reply, in_states, wait}
use soqucoin_sdk.Withdraw.Engine.Sending.{last_sent}
use soqucoin_sdk.Withdraw.Engine.Settling.{
  Answer, says, fails, Chain, AbandonAnswers, not_abandonable_why, forget_saved, abandon_checked,
  sendable, abandon_stored, abandon_with, abandon, unknown_to, after_knows, all_unspent,
  after_unspent,
}
use soqucoin_sdk.Withdraw.Evolution.Verdicts.{with_stored_found, with_stored_refused}

-- The checks of Abandon as it documents them: the wait is over, the node has neither txid, and it
-- says of every input that it is unspent.
abbrev pub IsUnknown : Chain → String → Type 0
IsUnknown c tx_id = (tx_id ≡ "") ⊎ (tx_id ≡ node_tx_id_unknown) ⊎ (c.knows tx_id ≡ says false)

after_unspent_passes :
    (r : Answer Bool) (rest : Fault) → after_unspent r rest ≡ none → (r ≡ says true) × (rest ≡ none)
unfolding after_unspent
after_unspent_passes (says true) rest e = ground arith
after_unspent_passes (says false) rest e = absurd (ground (arith, e))
after_unspent_passes (fails err) rest e = absurd (ground (arith, e))

all_unspent-All :
    (c : Chain) (is : List Input)
    → all_unspent c is ≡ none
    → All (λ (o : Input). c.unspent o.outpoint ≡ says true) is
unfolding all_unspent
all_unspent-All c [] e = ground arith
all_unspent-All c (o ∷ os) e =
    let p = after_unspent_passes (c.unspent o.outpoint) (all_unspent c os) e in
    (p.0, all_unspent-All c os p.1)

after_knows_passes :
    (r : Answer Bool) (rest : Fault) → after_knows r rest ≡ none → (r ≡ says false) × (rest ≡ none)
unfolding after_knows
after_knows_passes (says false) rest e = ground arith
after_knows_passes (says true) rest e = absurd (ground (arith, e))
after_knows_passes (fails err) rest e = absurd (ground (arith, e))

unknown_to_cons :
    (c : Chain) (t : String) (ts : List String)
    → unknown_to c (t ∷ ts) ≡ none
    → IsUnknown c t × (unknown_to c ts ≡ none)
unfolding unknown_to
unknown_to_cons c t ts e = ground (
  arith,
  string_Eq.beq_iff t "",
  string_Eq.beq_iff t node_tx_id_unknown,
  after_knows_passes (c.knows t) (unknown_to c ts),
)

-- What Abandon has established when no check stopped it.
abandonable :
    (e : Engine) (c : Chain) (now : ℕ) (i : Intent)
    → not_abandonable_why e c now i ≡ none
    → (last_sent i + wait e ≤ now)
      × IsUnknown c i.tx_id
      × IsUnknown c i.node_tx_id
      × All (λ (o : Input). c.unspent o.outpoint ≡ says true) i.inputs
unfolding not_abandonable_why
abandonable e c now i h =
    let first : (last_sent i + wait e ≤ now)
        × (unknown_to c (i.tx_id ∷ i.node_tx_id ∷ []) ≡ none)
        × (all_unspent c i.inputs ≡ none) =
      ground arith in
    let p = unknown_to_cons c i.tx_id (i.node_tx_id ∷ []) first.1 in
    let q = unknown_to_cons c i.node_tx_id [] p.1 in
    (first.0, p.0, q.0, all_unspent-All c i.inputs first.2)

forget_saved_store :
    (a : AbandonAnswers) (r : Reply) → (forget_saved a r).world.store ≡ r.world.store
unfolding forget_saved
forget_saved_store a r = ground arith

abandon_checked_state :
    (a : AbandonAnswers) (world : World) (i : Intent) (f : Fault) {b : Intent}
    → Store.get i.id world.store ≡ some i
    → i.state ≢ failed
    → Store.get i.id (abandon_checked a world i f).world.store ≡ some b
    → b.state ≡ failed
    → f ≡ none
unfolding abandon_checked
abandon_checked_state a world i none e n g h = refl
abandon_checked_state a world i (some err) e n g h = absurd (ground (arith, e, n, g, h))

abandon_stored_state :
    (eng : Engine) (a : AbandonAnswers) (c : Chain) (i : Intent) (world : World) (s : Intent)
    {b : Intent}
    → Store.get s.id world.store ≡ some s
    → s.state ≢ failed
    → Store.get s.id (abandon_stored eng a c i world s).world.store ≡ some b
    → b.state ≡ failed
    → (sendable s ≡ false) × (not_abandonable_why eng c a.now s ≡ none)
unfolding abandon_stored
abandon_stored_state eng a c i world s e n g h =
    ground (arith, abandon_checked_state a world s (not_abandonable_why eng c a.now s) e n)

abandon_with_state :
    (eng : Engine) (a : AbandonAnswers) (i s : Intent) (world : World) (o : Option Chain)
    {b : Intent}
    → Store.get i.id world.store ≡ some s
    → s.id ≡ i.id
    → s.state ≢ failed
    → Store.get i.id (abandon_with eng a i world o).world.store ≡ some b
    → b.state ≡ failed
    → (c : Chain) × (o ≡ some c)
      × ((s.state ≡ built) ⊎ (s.state ≡ broadcast))
      × (sendable s ≡ false)
      × (not_abandonable_why eng c a.now s ≡ none)
unfolding abandon_with
abandon_with_state eng a i s world none e k n g h = absurd (ground (arith, e, n, g, h))
abandon_with_state eng a i s world (some c) {b} e k n g h =
    elim (Bool-cases (in_states (built ∷ broadcast ∷ []) s.state)) [
      | inl w ↦
          let f =
            with_stored_found (built ∷ broadcast ∷ []) i world (abandon_stored eng a c i world) e
              w in
          let p =
            abandon_stored_state eng a c i world s {b = b} (ap (λ x. Store.get x world.store) k ∙ e)
              n
              (ap (λ x. Store.get x (abandon_stored eng a c i world s).world.store) k
                ∙ sym (ap (λ r. Store.get i.id r.world.store) f)
                ∙ g)
              h in
          (
            c,
            refl,
            ground (arith, w, state_eq_iff built s.state, state_eq_iff broadcast s.state),
            p.0,
            p.1,
          )
      | inr w ↦
          let f =
            with_stored_refused (built ∷ broadcast ∷ []) i world (abandon_stored eng a c i world) e
              w in
          absurd (ground (arith, e, n, h, sym (ap (λ r. Store.get i.id r.world.store) f) ∙ g))
    ]

-- When the store holds a record that is not Failed, under its own id, and an Abandon of it leaves the
-- stored record Failed, then the engine has a node to ask, the record was Built or Broadcast and is
-- not one that Broadcast would still send, the wait since it was last sent is over, the node does not
-- know the recorded txid nor the one that the node had named, where these are set, and it says of
-- every input of the record that it is unspent.
pub abandon_grounds :
    (eng : Engine) (a : AbandonAnswers) (i s b : Intent) (world : World)
    → Store.get i.id world.store ≡ some s
    → s.id ≡ i.id
    → s.state ≢ failed
    → Store.get i.id (abandon eng a i world).world.store ≡ some b
    → b.state ≡ failed
    → (c : Chain) × (a.chain ≡ some c)
      × ((s.state ≡ built) ⊎ (s.state ≡ broadcast))
      × (sendable s ≡ false)
      × (last_sent s + wait eng ≤ a.now)
      × IsUnknown c s.tx_id
      × IsUnknown c s.node_tx_id
      × All (λ (o : Input). c.unspent o.outpoint ≡ says true) s.inputs
unfolding abandon
abandon_grounds eng a i s b world e k n g h =
    let (c, o, t, u, w) = abandon_with_state eng a i s world a.chain e k n g h in
    let q = abandonable eng c a.now s w in (c, o, t, u, q.0, q.1, q.2, q.3)
