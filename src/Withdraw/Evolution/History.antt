-- ===== src/Withdraw/Evolution/History.antt =====
-- Any history of the engine: calls of its transitions in any order, by any callers, between which the
-- spent set may change in any way, since other holders of the set reserve, sweep and prune in it.
pub mod Drivers
use soqucoin_sdk.Prelude.{
  ℕ, String, ◌≡◌, ◌≢◌, sym, ◌∙◌, Bool, Option, some, List, arith, ◌⊎◌, inl, inr, All, get_elem?,
  All-get_elem?,
}
use soqucoin_sdk.AtomicFile.{WriteOutcome}
use soqucoin_sdk.SpentSet.{SpentSet}
use soqucoin_sdk.Withdraw.Intent.{created, Intent}
use soqucoin_sdk.Withdraw.Store
use soqucoin_sdk.Withdraw.Engine.{Engine, World, Sent}
use soqucoin_sdk.Withdraw.Engine.Building.{BuildAnswers, submit, build}
use soqucoin_sdk.Withdraw.Engine.Sending.{SendAnswers, broadcast_intent, ResendAnswers, rebroadcast}
use soqucoin_sdk.Withdraw.Engine.Settling.{
  ConfirmAnswers, update_confirmations, AbandonAnswers, abandon,
}
use soqucoin_sdk.Withdraw.Evolution.{Evolves, Inv, IsRecorded, Good, Good-refl, Good-trans}
use soqucoin_sdk.Withdraw.Evolution.Transitions.{Inv-spent, Good-spent}
use soqucoin_sdk.Withdraw.Evolution.Transitions.Builds.{submit-Good, build-Good}
use soqucoin_sdk.Withdraw.Evolution.Transitions.Sends.{broadcast_intent-Good, rebroadcast-Good}
use soqucoin_sdk.Withdraw.Evolution.Transitions.Settles.{update_confirmations-Good, abandon-Good}

pub data Step : World → World → Type 0 where
  submits :
      (same : String → String → Bool) (e : Engine) (now : ℕ) (w : WriteOutcome)
      (id address : String) (amount fee_rate : ℕ) (world : World)
      → Step world (submit same e now w id address amount fee_rate world).world
  builds :
      (e : Engine) (a : BuildAnswers) (i : Intent) (world : World)
      → Step world (build e a i world).world
  sends :
      (e : Engine) (a : SendAnswers) (i : Intent) (world : World)
      → Step world (broadcast_intent e a i world).world
  resends :
      (a : ResendAnswers) (i : Intent) (world : World) → Step world (rebroadcast a i world).world
  confirms :
      (e : Engine) (a : ConfirmAnswers) (i : Intent) (world : World)
      → Step world (update_confirmations e a i world).world
  abandons :
      (e : Engine) (a : AbandonAnswers) (i : Intent) (world : World)
      → Step world (abandon e a i world).world
  spends : (s : SpentSet) (world : World) → Step world (record world { spent = s })

pub data Reach (s : World) : World → Type 0 where
  here : Reach s s
  next : {t u : World} → Reach s t → Step t u → Reach s u

pub single : {s t : World} → Step s t → Reach s t
single h = next here h

pub Reach-trans : {s t u : World} → Reach s t → Reach t u → Reach s u
Reach-trans h here = h
Reach-trans h (next k l) = next (Reach-trans h k) l

Step-Good : {s t : World} → Step s t → Inv s → Good s t
Step-Good (submits same e now w id address amount fee_rate world) v =
    submit-Good same e now w id address amount fee_rate world v
Step-Good (builds e a i world) v = build-Good e a i world v
Step-Good (sends e a i world) v = broadcast_intent-Good e a i world v
Step-Good (resends a i world) v = rebroadcast-Good a i world v
Step-Good (confirms e a i world) v = update_confirmations-Good e a i world v
Step-Good (abandons e a i world) v = abandon-Good e a i world v
Step-Good (spends s world) v = Good-spent s (Good-refl v)

pub Reach-Good : {s t : World} → Inv s → Reach s t → Good s t
Reach-Good v here = Good-refl v
Reach-Good v (next h k) = let g = Reach-Good v h in Good-trans g (Step-Good k g.inv)

-- In any history from a state that satisfies the invariant, a record that the store holds is held
-- until the end, under its id, and becomes one that it may evolve into: the same id, address, amount
-- and fee rate; a state that its state leads to; once it is built, the same bytes, txid and inputs;
-- and in a final state no change at all.
pub records_evolve :
    (w w' : World) (id : String) (a : Intent)
    → Inv w
    → Reach w w'
    → Store.get id w.store ≡ some a
    → (b : Intent) × (Store.get id w'.store ≡ some b) × Evolves a b
records_evolve w w' id a v h e = (Reach-Good v h).records.evolves id a e

-- After any history from a state that satisfies the invariant, what the k-th last call of the
-- Broadcaster was given is on record: the store has an intent of that id, which is past Created, with
-- those bytes and that txid.
pub sent_is_recorded :
    (w w' : World) (k : ℕ) (s : Sent)
    → Inv w
    → Reach w w'
    → get_elem? w'.wire k ≡ some s
    → (b : Intent) × (Store.get s.id w'.store ≡ some b)
      × (b.raw_hex ≡ s.raw_hex)
      × (b.tx_id ≡ s.tx_id)
      × (b.state ≢ created)
sent_is_recorded w w' k s v h e =
    All-get_elem? (IsRecorded w'.store) w'.wire k (Reach-Good v h).inv.recorded e

-- No intent is ever sent as two transactions: after any history from a state that satisfies the
-- invariant, with calls by any callers, failed writes and answers of any kind, two calls of the
-- Broadcaster for one intent were given the same bytes and the same txid.
pub one_transaction :
    (w w' : World) (k l : ℕ) (s t : Sent)
    → Inv w
    → Reach w w'
    → get_elem? w'.wire k ≡ some s
    → get_elem? w'.wire l ≡ some t
    → s.id ≡ t.id
    → (s.raw_hex ≡ t.raw_hex) × (s.tx_id ≡ t.tx_id)
one_transaction w w' k l s t v h e f same =
    let p = sent_is_recorded w w' k s v h e in
    let q = sent_is_recorded w w' l t v h f in ground (arith, p, q, same)
