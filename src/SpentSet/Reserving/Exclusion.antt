-- ===== src/SpentSet/Reserving/Exclusion.antt =====
-- Two withdrawals never hold one input.
use soqucoin_sdk.Prelude.{
  ℕ, ◌+◌, ◌≤◌, String, ◌≡◌, ◌≢◌, ◌∙◌, ap, true, Option, none, some, List, [], ◌∷◌, arith, contains,
  string_Eq,
}
use soqucoin_sdk.Errors.{already_reserved}
use soqucoin_sdk.Types.{Outpoint, outpoint_Eq, Utxo}
use soqucoin_sdk.AtomicFile.{WriteOutcome}
use soqucoin_sdk.Map
use soqucoin_sdk.SpentSet.{SpentEntry, Entries, SpentSet}
use soqucoin_sdk.SpentSet.Reserving.{blocks, own_send, reservation, any_blocked, reserve}
use soqucoin_sdk.SpentSet.Reserving.Loop.{outpoints, reserved-reservation}
use soqucoin_sdk.SpentSet.Reserving.Outcome.{reserved_entry, reserve-Outcome}

-- One input that blocks refuses the whole call.
pub any_blocked_at :
    (now : ℕ) (id : String) (entries : Entries) (us : List Utxo) (j : Outpoint)
    → contains (outpoints us) j ≡ true
    → blocks now id (Map.get j entries) ≡ true
    → any_blocked now id entries us ≡ true
unfolding any_blocked
any_blocked_at now id entries [] j c b = cc
any_blocked_at now id entries (u ∷ us) j c b = ground (
  arith,
  outpoint_Eq.beq_iff u.outpoint j,
  ap (λ k. blocks now id (Map.get k entries)),
  any_blocked_at now id entries us j,
)

-- What a successful `Reserve` leaves at an input refuses everybody else until it expires.
blocks-reserved_entry :
    (now later ttl : ℕ) (id other : String) (inputs : List Utxo) (j : Outpoint)
    (old : Option SpentEntry)
    → contains (outpoints inputs) j ≡ true
    → other ≢ id
    → later ≤ now + ttl
    → blocks later other (reserved_entry now ttl id inputs j old) ≡ true
unfolding blocks own_send reservation
blocks-reserved_entry now later ttl id other inputs j none c n l =
    ground (arith, reserved-reservation now ttl id j, string_Eq.beq_iff id other)
blocks-reserved_entry now later ttl id other inputs j (some e) c n l = ground (
  arith,
  reserved-reservation now ttl id j,
  string_Eq.beq_iff id other,
  string_Eq.beq_iff e.intent_id id,
  string_Eq.beq_iff e.intent_id other,
)

-- Reservations exclude one another: once a withdrawal has reserved an outpoint, a `Reserve` by any
-- other withdrawal whose inputs name that outpoint, at any time until the reservation expires, is
-- refused with ErrAlreadyReserved and changes nothing.
pub reserve_excludes :
    (now later : ℕ) (w w' : WriteOutcome) (inputs inputs' : List Utxo) (id other : String)
    (ttl ttl' : ℕ) (ss : SpentSet) (j : Outpoint)
    → (reserve now w inputs id ttl ss).1 ≡ none
    → contains (outpoints inputs) j ≡ true
    → contains (outpoints inputs') j ≡ true
    → other ≢ id
    → later ≤ now + ttl
    → reserve later w' inputs' other ttl' (reserve now w inputs id ttl ss).0
      ≡ ((reserve now w inputs id ttl ss).0, some (already_reserved ∷ []))
reserve_excludes now later w w' inputs inputs' id other ttl ttl' ss j ok c c' n l =
    let held = (reserve now w inputs id ttl ss).0 in
    (reserve-Outcome later w' inputs' other ttl' held).refused_if_blocked (
      any_blocked_at later other held.entries inputs' j c' (
        ap (blocks later other) ((reserve-Outcome now w inputs id ttl ss).taken j ok)
        ∙ blocks-reserved_entry now later ttl id other inputs j (Map.get j ss.entries) c n l))
