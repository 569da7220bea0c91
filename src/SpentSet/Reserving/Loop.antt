-- ===== src/SpentSet/Reserving/Loop.antt =====
-- What the second loop of `Reserve` writes, key by key, and that its rollback undoes it.
use text.Mathlib.TextPositions.{starts_with-append}
use soqucoin_sdk.Prelude.{
  ℕ, String, ◌≡◌, refl, ◌∙◌, ap, Bool, true, false, not, ◌&&◌, Option, some, List, [], ◌∷◌, map,
  arith, if◌then◌else◌, contains, is_some, ◌==◌,
}
use soqucoin_sdk.Types.{Outpoint, outpoint_Eq, Utxo}
use soqucoin_sdk.Map
use soqucoin_sdk.Map.{Map, put_back, get-put, get-empty, get-restore, get_of_size_zero}
use soqucoin_sdk.SpentSet.{SpentEntry, Entries, reserved, reserved_prefix}
use soqucoin_sdk.SpentSet.Reserving.{
  own_send, reservation, Pending, reserve_new, reserve_one, reserve_loop,
}

abbrev pub outpoints : List Utxo → List Outpoint
outpoints = map (λ u. u.outpoint)

pub reserved-reservation :
    (now ttl : ℕ) (id : String) (key : Outpoint) → reserved (reservation now ttl id key) ≡ true
unfolding reserved reservation
reserved-reservation now ttl id key = starts_with-append reserved_prefix id

module _ (now ttl : ℕ) (id : String) where
  -- The entries from before the loop, read through what the loop saved.
  restored : Pending → Outpoint → Option SpentEntry
  restored (entries, previous) j = put_back (Map.get j previous) (Map.get j entries)

  restored-reserve_one :
      (key j : Outpoint) (p : Pending)
      → restored (reserve_one now ttl id key (Map.get key p.1) p) j ≡ restored p j
  unfolding reserve_one reserve_new restored
  restored-reserve_one key j (entries, previous) = ground (
    arith,
    get-put key j (reservation now ttl id key) entries,
    get-put key j (Map.get key entries) previous,
    outpoint_Eq.beq_iff key j,
  )

  restored-reserve_loop :
      (us : List Utxo) (j : Outpoint) (p : Pending)
      → restored (reserve_loop now ttl id us p) j ≡ restored p j
  unfolding reserve_loop
  restored-reserve_loop [] j p = refl
  restored-reserve_loop (u ∷ us) j p =
      restored-reserve_loop us j (reserve_one now ttl id u.outpoint (Map.get u.outpoint p.1) p)
      ∙ restored-reserve_one u.outpoint j p

  -- A key that the loop saved holds the new reservation.
  Saved : Pending → Type 0
  Saved p =
      (j : Outpoint)
      → is_some (Map.get j p.1) ≡ true
      → Map.get j p.0 ≡ some (reservation now ttl id j)

  -- What `Reserve` leaves at a key: the new reservation if it is asked for and not sent by this
  -- withdrawal already.
  abbrev reserved_at : Bool → Outpoint → Option SpentEntry → Option SpentEntry
  reserved_at asked j old =
      if asked && not (own_send id old) then some (reservation now ttl id j) else old

  own_send-reservation : (j : Outpoint) → own_send id (some (reservation now ttl id j)) ≡ false
  unfolding own_send
  own_send-reservation j = ground (arith, reserved-reservation now ttl id j)

  reserve_one_lem :
      (key j : Outpoint) (p : Pending)
      → Saved p
      → Map.get j (reserve_one now ttl id key (Map.get key p.1) p).0
        ≡ reserved_at (key == j) j (Map.get j p.0)
  unfolding reserve_one reserve_new Saved
  reserve_one_lem key j (entries, previous) h = ground (
    arith,
    h j,
    own_send-reservation j,
    get-put key j (reservation now ttl id key) entries,
    outpoint_Eq.beq_iff key j,
  )

  reserve_one-Saved :
      (key : Outpoint) (p : Pending)
      → Saved p
      → Saved (reserve_one now ttl id key (Map.get key p.1) p)
  unfolding reserve_one reserve_new Saved
  reserve_one-Saved key (entries, previous) h j m = ground (
    arith,
    h j,
    own_send-reservation j,
    get-put key j (reservation now ttl id key) entries,
    get-put key j (Map.get key entries) previous,
    outpoint_Eq.beq_iff key j,
  )

  reserve_loop_lem :
      (us : List Utxo) (j : Outpoint) (p : Pending)
      → Saved p
      → Map.get j (reserve_loop now ttl id us p).0
        ≡ reserved_at (contains (outpoints us) j) j (Map.get j p.0)
  unfolding reserve_loop
  reserve_loop_lem [] j p h = refl
  reserve_loop_lem (u ∷ us) j p h =
      let q = reserve_one now ttl id u.outpoint (Map.get u.outpoint p.1) p in
      ground (
        arith,
        own_send-reservation j,
        reserve_one_lem u.outpoint j p h,
        reserve_loop_lem us j q (reserve_one-Saved u.outpoint p h),
      )

  -- Every key after the loop.
  pub get-reserve_loop :
      (us : List Utxo) (j : Outpoint) (entries : Entries)
      → Map.get j (reserve_loop now ttl id us (entries, Map.empty)).0
        ≡ reserved_at (contains (outpoints us) j) j (Map.get j entries)
  unfolding Saved
  get-reserve_loop us j entries =
      reserve_loop_lem us j (entries, Map.empty)
        (λ k m. ground (arith, get-empty {V = Option SpentEntry} k))

  -- The rollback puts back what every key had.
  pub get-restore-reserve_loop :
      (us : List Utxo) (j : Outpoint) (entries : Entries)
      → let p = reserve_loop now ttl id us (entries, Map.empty) in
        Map.get j (Map.restore p.1 p.0) ≡ Map.get j entries
  unfolding restored
  get-restore-reserve_loop us j entries =
      let p = reserve_loop now ttl id us (entries, Map.empty) in
      get-restore j p.1 p.0
      ∙ restored-reserve_loop us j (entries, Map.empty)
      ∙ ap (λ o. put_back o (Map.get j entries)) (get-empty j)
