-- ===== src/SpentSet/Reserving/Outcome.antt =====
-- `Reserve` is all or nothing: what each of its outcomes leaves at every outpoint.
use soqucoin_sdk.Prelude.{
  ℕ, String, ◌≡◌, ◌∙◌, true, not, ◌&&◌, Option, none, some, List, [], ◌∷◌, arith, inl, inr,
  if◌then◌else◌, contains, Bool-cases,
}
use soqucoin_sdk.Errors.{already_reserved, Error, Fault}
use soqucoin_sdk.Types.{Outpoint, outpoint_Eq, Utxo}
use soqucoin_sdk.AtomicFile.{WriteOutcome, written, not_durable, write_failed}
use soqucoin_sdk.Map
use soqucoin_sdk.Map.{Map}
use soqucoin_sdk.SpentSet.{SpentEntry, SpentSet, persist}
use soqucoin_sdk.SpentSet.Reserving.{
  own_send, reservation, any_blocked, Pending, reserve_loop, reserve_persisted, reserve_free,
  reserve,
}
use soqucoin_sdk.SpentSet.Reserving.Loop.{outpoints, get-reserve_loop, get-restore-reserve_loop}

pub entries-persist : (w : WriteOutcome) (ss : SpentSet) → (persist w ss).0.entries ≡ ss.entries
unfolding persist
entries-persist written ss = ground arith
entries-persist not_durable ss = ground arith
entries-persist write_failed ss = ground arith

-- What `Reserve` leaves at an outpoint when it succeeds.
abbrev pub reserved_entry :
    ℕ → ℕ → String → List Utxo → Outpoint → Option SpentEntry → Option SpentEntry
reserved_entry now ttl id inputs j old =
    if contains (outpoints inputs) j && not (own_send id old)
    then some (reservation now ttl id j)
    else old

-- The outcome of `Reserve`, as it is promised.
pub record Outcome (now : ℕ) (inputs : List Utxo) (id : String) (ttl : ℕ) (ss : SpentSet)
    (r : SpentSet × Fault) : Type 0 where
  pub refused_if_blocked :
      any_blocked now id ss.entries inputs ≡ true → r ≡ (ss, some (already_reserved ∷ []))
  pub taken :
      (j : Outpoint)
      → r.1 ≡ none
      → Map.get j r.0.entries ≡ reserved_entry now ttl id inputs j (Map.get j ss.entries)
  pub undone :
      (j : Outpoint) (err : Error) → r.1 ≡ some err → Map.get j r.0.entries ≡ Map.get j ss.entries

module _ (now : ℕ) (w : WriteOutcome) (inputs : List Utxo) (id : String) (ttl : ℕ)
    (ss : SpentSet) where
  p : Pending
  p = reserve_loop now ttl id inputs (ss.entries, Map.empty)

  free : SpentSet × Fault
  free = reserve_free w ss p

  free_taken : (j : Outpoint) → free.1 ≡ none → Map.get j free.0.entries ≡ Map.get j p.0
  unfolding free reserve_free reserve_persisted
  free_taken j h = ground (arith, entries-persist w (record ss { entries = p.0 }))

  free_undone :
      (j : Outpoint) (err : Error)
      → free.1 ≡ some err
      → Map.get j free.0.entries ≡ Map.get j (Map.restore p.1 p.0)
  unfolding free reserve_free reserve_persisted
  free_undone j err h = ground (arith, entries-persist w (record ss { entries = p.0 }))

  taken_lem :
      (j : Outpoint)
      → free.1 ≡ none
      → Map.get j free.0.entries ≡ reserved_entry now ttl id inputs j (Map.get j ss.entries)
  unfolding p
  taken_lem j h = free_taken j h ∙ get-reserve_loop now ttl id inputs j ss.entries

  undone_lem :
      (j : Outpoint) (err : Error)
      → free.1 ≡ some err
      → Map.get j free.0.entries ≡ Map.get j ss.entries
  unfolding p
  undone_lem j err h = free_undone j err h ∙ get-restore-reserve_loop now ttl id inputs j ss.entries

  pub reserve-Outcome : Outcome now inputs id ttl ss (reserve now w inputs id ttl ss)
  unfolding reserve free p
  reserve-Outcome = record {
    refused_if_blocked = λ b. rw b;
    taken = λ j h. elim (Bool-cases (any_blocked now id ss.entries inputs)) [
      | inl b ↦ ground (arith, b)
      | inr b ↦ ground (arith, b, taken_lem j)
    ];
    undone = λ j err h. elim (Bool-cases (any_blocked now id ss.entries inputs)) [
      | inl b ↦ ground (arith, b)
      | inr b ↦ ground (arith, b, undone_lem j err)
    ];
  }
