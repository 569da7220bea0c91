-- ===== src/SpentSet/Methods/Permanence.antt =====
-- A broadcast input is never offered again, whatever is called and whenever.
use soqucoin_sdk.Prelude.{
  ℕ, String, ◌≡◌, refl, Bool, true, false, not, ◌&&◌, Option, none, some, List, [], ◌∷◌, arith, inl,
  inr, contains, Bool-cases, Option-cases, All,
}
use soqucoin_sdk.Errors.{already_reserved}
use soqucoin_sdk.Types.{Outpoint, outpoint_Eq, Utxo}
use soqucoin_sdk.AtomicFile.{WriteOutcome}
use soqucoin_sdk.Map
use soqucoin_sdk.Map.{keep, get-remove}
use soqucoin_sdk.SpentSet.{SpentEntry, SpentSet, reserved}
use soqucoin_sdk.SpentSet.Reserving.{own_send, blocks, reserve}
use soqucoin_sdk.SpentSet.Reserving.Loop.{outpoints}
use soqucoin_sdk.SpentSet.Reserving.Outcome.{reserve-Outcome}
use soqucoin_sdk.SpentSet.Reserving.Exclusion.{any_blocked_at}
use soqucoin_sdk.SpentSet.Methods.{
  reserved_by, release, forget, prunable, prune, any_sent_by_another, sent_entry,
  mark_broadcast_for, is_spent, confirm_spent_all,
}
use soqucoin_sdk.SpentSet.Methods.Effects.{
  get-release, get-prune, mark_broadcast_for_lem, get-confirm_spent_all,
}

-- A call of any method that changes the set; a method that only reads changes nothing.
pub data Op : Type 0 where
  reserves : ℕ → WriteOutcome → List Utxo → String → ℕ → Op
  releases forgets : WriteOutcome → String → Op
  marks : ℕ → WriteOutcome → List Utxo → String → String → Op
  asks : ℕ → Outpoint → Op
  confirms : WriteOutcome → List Utxo → Op
  prunes : ℕ → WriteOutcome → Op

unfoldable pub apply : Op → SpentSet → SpentSet
apply (reserves now w inputs id ttl) ss = (reserve now w inputs id ttl ss).0
apply (releases w id) ss = (release w id ss).0
apply (forgets w id) ss = (forget w id ss).0
apply (marks now w inputs tx id) ss = (mark_broadcast_for now w inputs tx id ss).0
apply (asks now key) ss = (is_spent now key ss).0
apply (confirms w inputs) ss = (confirm_spent_all w inputs ss).0
apply (prunes now w) ss = (prune now w ss).0

unfoldable pub apply_all : List Op → SpentSet → SpentSet
unfolding apply
apply_all [] ss = ss
apply_all (op ∷ ops) ss = apply_all ops (apply op ss)

-- Neither Forget nor a confirmation of this outpoint.
abbrev pub LeavesUnconfirmed : Outpoint → Op → Type 0
LeavesUnconfirmed j (forgets w id) = ⊥
LeavesUnconfirmed j (confirms w inputs) = contains (outpoints inputs) j ≡ false
LeavesUnconfirmed j op = Unit

-- The outpoint's entry records a send that the chain has not confirmed.
unfoldable pub is_sent : Option SpentEntry → Bool
is_sent none = false
is_sent (some e) = not (reserved e) && not e.confirmed

sent_blocks :
    (now : ℕ) (id : String) (o : Option SpentEntry)
    → is_sent o ≡ true
    → own_send id o ≡ false
    → blocks now id o ≡ true
unfolding is_sent own_send blocks
sent_blocks now id none s n = cc
sent_blocks now id (some e) s n = ground arith

-- A withdrawal that did not send the outpoint is refused it.
refused_sent :
    (now : ℕ) (w : WriteOutcome) (inputs : List Utxo) (id : String) (ttl : ℕ) (ss : SpentSet)
    (j : Outpoint)
    → is_sent (Map.get j ss.entries) ≡ true
    → contains (outpoints inputs) j ≡ true
    → own_send id (Map.get j ss.entries) ≡ false
    → reserve now w inputs id ttl ss ≡ (ss, some (already_reserved ∷ []))
refused_sent now w inputs id ttl ss j s c n =
    (reserve-Outcome now w inputs id ttl ss).refused_if_blocked
      (any_blocked_at now id ss.entries inputs j c (sent_blocks now id (Map.get j ss.entries) s n))

reserve_keeps_sent :
    (now : ℕ) (w : WriteOutcome) (inputs : List Utxo) (id : String) (ttl : ℕ) (ss : SpentSet)
    (j : Outpoint)
    → is_sent (Map.get j ss.entries) ≡ true
    → Map.get j (reserve now w inputs id ttl ss).0.entries ≡ Map.get j ss.entries
reserve_keeps_sent now w inputs id ttl ss j s =
    elim (Option-cases (reserve now w inputs id ttl ss).1) [
      | inl ok ↦ ground (
        arith,
        (reserve-Outcome now w inputs id ttl ss).taken j ok,
        refused_sent now w inputs id ttl ss j s,
      )
      | inr (err, e) ↦ (reserve-Outcome now w inputs id ttl ss).undone j err e
    ]

keep_sent :
    (p : SpentEntry → Bool) (o : Option SpentEntry)
    → ((e : SpentEntry) → is_sent (some e) ≡ true → p e ≡ false)
    → is_sent o ≡ true
    → is_sent (keep (λ e. not (p e)) o) ≡ true
keep_sent p none h s = s
keep_sent p (some e) h s = ground (arith, h e s)

not_reserved_by :
    (id : String) (e : SpentEntry) → is_sent (some e) ≡ true → reserved_by id e ≡ false
unfolding is_sent reserved_by
not_reserved_by id e s = ground arith

not_prunable : (now : ℕ) (e : SpentEntry) → is_sent (some e) ≡ true → prunable now e ≡ false
unfolding is_sent prunable
not_prunable now e s = ground arith

is_sent-sent_entry :
    (now : ℕ) (tx id : String) (j : Outpoint) → is_sent (some (sent_entry now tx id j)) ≡ true
unfolding is_sent reserved sent_entry
is_sent-sent_entry now tx id j = refl

marks_keep_sent :
    (now : ℕ) (w : WriteOutcome) (inputs : List Utxo) (tx id : String) (ss : SpentSet)
    (j : Outpoint)
    → is_sent (Map.get j ss.entries) ≡ true
    → is_sent (Map.get j (mark_broadcast_for now w inputs tx id ss).0.entries) ≡ true
marks_keep_sent now w inputs tx id ss j s =
    let law = mark_broadcast_for_lem now w inputs tx id ss j in
    elim (Bool-cases (any_sent_by_another tx id ss.entries inputs)) [
      | inl b ↦ ground (arith, law.0 b)
      | inr b ↦ ground (arith, law.1 b, is_sent-sent_entry now tx id j)
    ]

pub asks_keep_sent :
    (now : ℕ) (key : Outpoint) (ss : SpentSet) (j : Outpoint)
    → is_sent (Map.get j ss.entries) ≡ true
    → is_sent (Map.get j (is_spent now key ss).0.entries) ≡ true
unfolding is_spent is_sent
asks_keep_sent now key ss j s =
    ground (arith, get-remove key j ss.entries, outpoint_Eq.beq_iff key j)

apply_keeps_sent :
    (op : Op) (ss : SpentSet) (j : Outpoint)
    → LeavesUnconfirmed j op
    → is_sent (Map.get j ss.entries) ≡ true
    → is_sent (Map.get j (apply op ss).entries) ≡ true
unfolding apply
apply_keeps_sent (reserves now w inputs id ttl) ss j l s =
    rw (reserve_keeps_sent now w inputs id ttl ss j s) s
apply_keeps_sent (releases w id) ss j l s =
    rw (get-release w id ss j) (keep_sent (reserved_by id) _ (not_reserved_by id) s)
apply_keeps_sent (forgets w id) ss j l s = absurd l
apply_keeps_sent (marks now w inputs tx id) ss j l s = marks_keep_sent now w inputs tx id ss j s
apply_keeps_sent (asks now key) ss j l s = asks_keep_sent now key ss j s
apply_keeps_sent (confirms w inputs) ss j l s = rw (get-confirm_spent_all w inputs ss j) (rw l s)
apply_keeps_sent (prunes now w) ss j l s =
    rw (get-prune now w ss j) (keep_sent (prunable now) _ (not_prunable now) s)

apply_all_keeps_sent :
    (ops : List Op) (ss : SpentSet) (j : Outpoint)
    → All (LeavesUnconfirmed j) ops
    → is_sent (Map.get j ss.entries) ≡ true
    → is_sent (Map.get j (apply_all ops ss).entries) ≡ true
unfolding apply_all
apply_all_keeps_sent [] ss j l s = s
apply_all_keeps_sent (op ∷ ops) ss j l s =
    apply_all_keeps_sent ops (apply op ss) j l.1 (apply_keeps_sent op ss j l.0 s)

pub is_spent_sent :
    (now : ℕ) (ss : SpentSet) (j : Outpoint)
    → is_sent (Map.get j ss.entries) ≡ true
    → is_spent now j ss ≡ (ss, true)
unfolding is_spent is_sent
is_spent_sent now ss j s = ground arith

-- A broadcast input stays spent: once `MarkBroadcast` has not refused its inputs, whatever its write
-- came to, and after any calls of any methods in any order at any times, with any withdrawals and
-- outcomes of writes, but for a Forget and for a confirmation of that outpoint: the outpoint reads as
-- spent at every time, and a `Reserve` of it by any withdrawal that does not own its record of the
-- send is refused and changes nothing.
pub sent_stays_spent :
    (now later : ℕ) (w w' : WriteOutcome) (inputs inputs' : List Utxo) (tx id other : String)
    (ttl : ℕ) (ss : SpentSet) (j : Outpoint) (ops : List Op)
    → any_sent_by_another tx id ss.entries inputs ≡ false
    → contains (outpoints inputs) j ≡ true
    → contains (outpoints inputs') j ≡ true
    → All (LeavesUnconfirmed j) ops
    → own_send other
        (Map.get j (apply_all ops (mark_broadcast_for now w inputs tx id ss).0).entries)
      ≡ false
    → let end = apply_all ops (mark_broadcast_for now w inputs tx id ss).0 in
      (is_spent later j end ≡ (end, true))
      × (reserve later w' inputs' other ttl end ≡ (end, some (already_reserved ∷ [])))
sent_stays_spent now later w w' inputs inputs' tx id other ttl ss j ops free c c' l n =
    let marked = (mark_broadcast_for now w inputs tx id ss).0 in
    let sent : is_sent (Map.get j marked.entries) ≡ true =
      rw ((mark_broadcast_for_lem now w inputs tx id ss j).1 free)
        (rw c (is_sent-sent_entry now tx id j)) in
    let end = apply_all_keeps_sent ops marked j l sent in
    (is_spent_sent later _ j end, refused_sent later w' inputs' other ttl _ j end c' n)
