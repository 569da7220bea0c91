-- ===== src/SpentSet/Methods/Effects.antt =====
-- What each method leaves at every outpoint, whatever its write comes to.
use soqucoin_sdk.Prelude.{
  ℕ, String, ◌≡◌, refl, sym, ◌∙◌, ap, Bool, true, false, not, Option, none, some, List, [], ◌∷◌,
  arith, ◌⊎◌, inl, inr, if◌then◌else◌, contains, Bool-cases, ◌==◌,
}
use soqucoin_sdk.Errors.{already_reserved, written_not_durable, Fault, is}
use soqucoin_sdk.Types.{Outpoint, outpoint_Eq, Utxo}
use soqucoin_sdk.AtomicFile.{WriteOutcome}
use soqucoin_sdk.Map
use soqucoin_sdk.Map.{keep, get-put, get-retain, get_of_size_zero}
use soqucoin_sdk.SpentSet.{SpentEntry, Entries, SpentSet}
use soqucoin_sdk.SpentSet.Reserving.Loop.{outpoints}
use soqucoin_sdk.SpentSet.Reserving.Outcome.{entries-persist}
use soqucoin_sdk.SpentSet.Methods.{
  sweep, reserved_by, release, prune, prunable, any_sent_by_another, sent_entry, mark_loop,
  mark_broadcast_for, confirm_at, confirm_loop, confirm_changed, confirm_spent_all,
}

-- The error says that nothing was written, so the change was undone.
abbrev pub was_undone : Fault → Bool
was_undone none = false
was_undone (some err) = not (is written_not_durable err)

none_gone :
    (p : SpentEntry → Bool) (j : Outpoint) (m : Entries)
    → Map.size (Map.retain p m) ≡ 0
    → keep p (Map.get j m) ≡ none
none_gone p j m h = sym (get-retain p j m) ∙ get_of_size_zero j (Map.retain p m) h

keep-not :
    (p : SpentEntry → Bool) (o : Option SpentEntry) → keep p o ≡ none → keep (λ e. not (p e)) o ≡ o
keep-not p none h = refl
keep-not p (some e) h = ground arith

get-sweep :
    (w : WriteOutcome) (gone : SpentEntry → Bool) (ss : SpentSet) (j : Outpoint)
    → Map.get j (sweep w gone ss).0.entries ≡ keep (λ e. not (gone e)) (Map.get j ss.entries)
unfolding sweep
get-sweep w gone ss j = ground (
  arith,
  none_gone gone j ss.entries,
  keep-not gone (Map.get j ss.entries),
  get-retain (λ e. not (gone e)) j ss.entries,
  entries-persist w (record ss { entries = Map.retain (λ e. not (gone e)) ss.entries }),
)

-- `Release` drops the reservations of its withdrawal and nothing else: what it has sent, and what
-- others hold, stays.
pub get-release :
    (w : WriteOutcome) (id : String) (ss : SpentSet) (j : Outpoint)
    → Map.get j (release w id ss).0.entries
      ≡ keep (λ e. not (reserved_by id e)) (Map.get j ss.entries)
unfolding release
get-release w id ss j = get-sweep w (reserved_by id) ss j

pub get-prune :
    (now : ℕ) (w : WriteOutcome) (ss : SpentSet) (j : Outpoint)
    → Map.get j (prune now w ss).0.entries ≡ keep (λ e. not (prunable now e)) (Map.get j ss.entries)
unfolding prune
get-prune now w ss j = get-sweep w (prunable now) ss j

get-mark_loop :
    (now : ℕ) (tx id : String) (us : List Utxo) (j : Outpoint) (entries : Entries)
    → Map.get j (mark_loop now tx id us entries)
      ≡ (if contains (outpoints us) j then some (sent_entry now tx id j) else Map.get j entries)
unfolding mark_loop
get-mark_loop now tx id [] j entries = refl
get-mark_loop now tx id (u ∷ us) j entries = ground (
  arith,
  get-put u.outpoint j (sent_entry now tx id u.outpoint) entries,
  get-mark_loop now tx id us j (Map.put u.outpoint (sent_entry now tx id u.outpoint) entries),
  outpoint_Eq.beq_iff u.outpoint j,
)

pub mark_broadcast_for_lem :
    (now : ℕ) (w : WriteOutcome) (us : List Utxo) (tx id : String) (ss : SpentSet) (j : Outpoint)
    → (any_sent_by_another tx id ss.entries us ≡ true
        → mark_broadcast_for now w us tx id ss ≡ (ss, some (already_reserved ∷ [])))
      × (any_sent_by_another tx id ss.entries us ≡ false
          → Map.get j (mark_broadcast_for now w us tx id ss).0.entries ≡ (
              if contains (outpoints us) j
              then some (sent_entry now tx id j)
              else Map.get j ss.entries))
unfolding mark_broadcast_for
mark_broadcast_for_lem now w us tx id ss j = (
  λ b. rw b,
  λ b. rw b (
      ap (λ es. Map.get j es)
        (entries-persist w (record ss { entries = mark_loop now tx id us ss.entries }))
      ∙ get-mark_loop now tx id us j ss.entries),
)

-- `MarkBroadcast` is all or nothing, and its entries do not wait for the file: refused, it changes
-- nothing; otherwise exactly its inputs are recorded as sent, also when the write failed.
pub mark_all_or_nothing :
    (now : ℕ) (w : WriteOutcome) (us : List Utxo) (tx id : String) (ss : SpentSet) (j : Outpoint)
    → ((any_sent_by_another tx id ss.entries us ≡ true)
        × (mark_broadcast_for now w us tx id ss ≡ (ss, some (already_reserved ∷ []))))
      ⊎ ((any_sent_by_another tx id ss.entries us ≡ false)
          × (Map.get j (mark_broadcast_for now w us tx id ss).0.entries ≡ (
              if contains (outpoints us) j
              then some (sent_entry now tx id j)
              else Map.get j ss.entries)))
mark_all_or_nothing now w us tx id ss j =
    let law = mark_broadcast_for_lem now w us tx id ss j in
    elim (Bool-cases (any_sent_by_another tx id ss.entries us)) [
      | inl b ↦ inl (b, law.0 b)
      | inr b ↦ inr (b, law.1 b)
    ]

abbrev pub confirmed_entry : Option SpentEntry → Option SpentEntry
confirmed_entry none = none
confirmed_entry (some e) = some (record e { confirmed = true })

get-confirm_at :
    (k j : Outpoint) (o : Option SpentEntry) (r : Entries × Bool)
    → Map.get k r.0 ≡ o
    → (Map.get j (confirm_at k o r).0
        ≡ (if k == j then confirmed_entry (Map.get j r.0) else Map.get j r.0))
      × ((confirm_at k o r).1 ≡ false → r.1 ≡ false)
      × ((confirm_at k o r).1 ≡ false → (confirm_at k o r).0 ≡ r.0)
unfolding confirm_at
get-confirm_at k j none r h = ground (arith, outpoint_Eq.beq_iff k j)
get-confirm_at k j (some e) (entries, changed) h =
    ground (arith, outpoint_Eq.beq_iff k j, get-put k j (record e { confirmed = true }) entries)

get-confirm_loop :
    (us : List Utxo) (r : Entries × Bool) (j : Outpoint)
    → (Map.get j (confirm_loop us r).0
        ≡ (if contains (outpoints us) j then confirmed_entry (Map.get j r.0) else Map.get j r.0))
      × ((confirm_loop us r).1 ≡ false → (r.1 ≡ false) × ((confirm_loop us r).0 ≡ r.0))
unfolding confirm_loop
get-confirm_loop [] r j = (refl, λ h. (h, refl))
get-confirm_loop (u ∷ us) r j =
    let o = Map.get u.outpoint r.0 in
    let one = get-confirm_at u.outpoint j o r refl in
    let rest = get-confirm_loop us (confirm_at u.outpoint o r) j in
    (ground (arith, one.0, rest.0), λ h. (one.1 (rest.1 h).0, (rest.1 h).1 ∙ one.2 (rest.1 h).0))

pub get-confirm_spent_all :
    (w : WriteOutcome) (us : List Utxo) (ss : SpentSet) (j : Outpoint)
    → Map.get j (confirm_spent_all w us ss).0.entries ≡ (
        if contains (outpoints us) j
        then confirmed_entry (Map.get j ss.entries)
        else Map.get j ss.entries)
unfolding confirm_spent_all confirm_changed
get-confirm_spent_all w us ss j =
    let r = confirm_loop us (ss.entries, false) in
    ground (
      arith,
      get-confirm_loop us (ss.entries, false) j,
      entries-persist w (record ss { entries = r.0 }),
    )

module _ (w : WriteOutcome) (owned : SpentEntry → Bool) (ss : SpentSet) (j : Outpoint) where
  dropped : Entries
  dropped = Map.retain owned ss.entries

  left : SpentSet
  left = record ss { entries = Map.retain (λ e. not (owned e)) ss.entries }
