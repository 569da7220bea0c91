-- ===== src/Withdraw/Evolution/Transitions.antt =====
-- Every transition of the engine lets the records evolve and keeps the invariant.
pub mod Builds
pub mod Sends
pub mod Settles
use soqucoin_sdk.Prelude.{
  ℕ, String, ◌≡◌, ◌≢◌, refl, sym, ◌∙◌, ap, Bool, true, false, Option, none, some, List, [], ◌∷◌,
  arith, ◌⊎◌, inl, inr, Option-cases, Bool-cases,
}
use soqucoin_sdk.Errors.{Error, Fault}
use soqucoin_sdk.AtomicFile.{WriteOutcome}
use soqucoin_sdk.SpentSet.{SpentSet}
use soqucoin_sdk.Withdraw.Intent.{State, created, failed, Intent}
use soqucoin_sdk.Withdraw.Store
use soqucoin_sdk.Withdraw.Engine.{
  World, Write, Reply, in_states, Reread, found, refused, reread, reread_record, with_stored, save,
  release, fail_saved, failed_intent, fail, with_reread,
}
use soqucoin_sdk.Withdraw.Evolution.{
  Evolves, Evolves-trans, Inv, Good, Good-refl, save-Good, is_final,
}

pub Inv-spent : {w : World} (s : SpentSet) → Inv w → Inv (record w { spent = s })
Inv-spent s h = record { keyed = h.keyed; recorded = h.recorded }

pub Good-spent : {w w' : World} (s : SpentSet) → Good w w' → Good w (record w' { spent = s })
Good-spent s h = record { records = h.records; inv = Inv-spent s h.inv }

pub spent-Good : {w w' : World} (s : SpentSet) → Good (record w { spent = s }) w' → Good w w'
spent-Good s h = record { records = h.records; inv = h.inv }

pub reread_found :
    (want : List State) (i : Intent) (world : World) {s : Intent}
    → reread want i world ≡ found s
    → (Store.get i.id world.store ≡ some s) × (in_states want s.state ≡ true)
unfolding reread reread_record
reread_found want i world e = ground arith

-- What `with_stored` hands over is the store's own record, in a wanted state.
pub with_stored-Good :
    (want : List State) (i : Intent) (world : World) (go : Intent → Reply)
    → Inv world
    → ((s : Intent)
        → Store.get s.id world.store ≡ some s
        → in_states want s.state ≡ true
        → Good world (go s).world)
    → Good world (with_stored want i world go).world
unfolding with_stored with_reread
with_stored-Good want i world go v h = of_reread (reread want i world) refl
  where
    of_reread : (r : Reread) → reread want i world ≡ r → Good world (with_reread i world go r).world
    of_reread (refused err) e = Good-refl v
    of_reread (found s) e =
        let (g, b) = reread_found want i world e in
        h s (ap (λ x. Store.get x world.store) (v.keyed i.id s g) ∙ g) b

fail_saved-Good :
    (w : WriteOutcome) (cause : Error) (r : Reply) {world : World}
    → Good world r.world
    → Good world (fail_saved w cause r).world
unfolding fail_saved release
fail_saved-Good w cause r g = elim (Option-cases r.fault) [
  | inl e ↦ rw (e, fail_saved) (Good-spent _ g)
  | inr (err, e) ↦ rw (e, fail_saved) g
]

-- Failing an intent, from a state that is not final; its bytes go only if they were never built.
pub fail-Good :
    (w : Write) (release_write : WriteOutcome) (cause : Error) (keep_tx : Bool) (from : State)
    (i : Intent) (world : World) {old : Intent}
    → Inv world
    → Store.get i.id world.store ≡ some old
    → Evolves old i
    → is_final i.state ≡ false
    → (keep_tx ≡ true) ⊎ (i.state ≡ created)
    → Good world (fail w release_write cause keep_tx from i world).world
unfolding fail failed_intent
fail-Good w release_write cause true from i world v e p n k =
    fail_saved-Good release_write cause _
      (save-Good w from (failed_intent cause true i) world v e (Evolves-trans p (ground arith)))
fail-Good w release_write cause false from i world v e p n k =
    fail_saved-Good release_write cause _
      (save-Good w from (failed_intent cause false i) world v e (Evolves-trans p (ground arith)))
