-- ===== src/SpentSet/Tests.antt =====
-- The theorems of the spent set at two coins and two withdrawals.
use soqucoin_sdk.Prelude.{
  ◌≡◌, ◌⊎◌, refl, true, false, none, some, List, [], ◌∷◌, arith, contains, if◌then◌else◌, string_Eq,
  String,
}
use soqucoin_sdk.Errors.{already_reserved}
use soqucoin_sdk.Types.{Outpoint, outpoint_Eq, Utxo, asset_type_soq}
use soqucoin_sdk.AtomicFile.{written, write_failed}
use soqucoin_sdk.Map
use soqucoin_sdk.SpentSet.{SpentSet}
use soqucoin_sdk.SpentSet.Reserving.{reserve}
use soqucoin_sdk.SpentSet.Reserving.Loop.{outpoints}
use soqucoin_sdk.SpentSet.Reserving.Exclusion.{reserve_excludes}
use soqucoin_sdk.SpentSet.Methods.{
  prune, release, mark_broadcast_for, any_sent_by_another, sent_entry, is_spent,
}
use soqucoin_sdk.SpentSet.Methods.Effects.{mark_all_or_nothing}
use soqucoin_sdk.SpentSet.Methods.Permanence.{
  Op, reserves, releases, prunes, asks, apply_all, sent_stays_spent,
}

abbrev coin : String → Utxo
coin tx = record {
  outpoint = record { tx_id = tx; vout = 0 };
  value = 100;
  height = 1;
  address = "own";
  asset_type = asset_type_soq;
}

abbrev new_set : SpentSet
new_set = record { entries = Map.empty; file_backed = true; file = none }

abbrev a : Outpoint
a = (coin "aa").outpoint

abbrev w1_holds : SpentSet
w1_holds = (reserve 5 written (coin "aa" ∷ coin "bb" ∷ []) "w1" 10 new_set).0

reserve_excludes_example :
    reserve 15 written (coin "aa" ∷ []) "w2" 10 w1_holds ≡ (w1_holds, some (already_reserved ∷ []))
unfolding reserve Map.get Map.empty Map.size Map.put
reserve_excludes_example =
    reserve_excludes 5 15 written written (coin "aa" ∷ coin "bb" ∷ []) (coin "aa" ∷ []) "w1" "w2" 10
      10 new_set a refl refl refl (ground (arith, string_Eq.beq_iff "w2" "w1")) (omega arith)

abbrev sent : SpentSet
sent = (mark_broadcast_for 6 write_failed (coin "aa" ∷ []) "t1" "w1" w1_holds).0

abbrev busy : List Op
busy =
    reserves 7 written (coin "bb" ∷ []) "w3" 10
    ∷ releases written "w1"
    ∷ asks 9_000_000_000_000_000 a
    ∷ prunes 9_000_000_000_000_000 written
    ∷ []

sent_stays_spent_example :
    (is_spent 30 a (apply_all busy sent) ≡ (apply_all busy sent, true))
    × (reserve 30 written (coin "aa" ∷ []) "w2" 10 (apply_all busy sent)
        ≡ (apply_all busy sent, some (already_reserved ∷ [])))
unfolding reserve Map.get Map.empty Map.size Map.put any_sent_by_another mark_broadcast_for
    apply_all prune Map.retain is_spent release
sent_stays_spent_example =
    sent_stays_spent 6 30 write_failed written (coin "aa" ∷ []) (coin "aa" ∷ []) "t1" "w1" "w2" 10
      w1_holds a busy refl refl refl (tt, (tt, (tt, (tt, tt)))) refl

mark_all_or_nothing_example :
    ((any_sent_by_another "t1" "w1" w1_holds.entries (coin "aa" ∷ []) ≡ true)
      × (mark_broadcast_for 6 write_failed (coin "aa" ∷ []) "t1" "w1" w1_holds
          ≡ (w1_holds, some (already_reserved ∷ []))))
    ⊎ ((any_sent_by_another "t1" "w1" w1_holds.entries (coin "aa" ∷ []) ≡ false)
        × (Map.get a sent.entries ≡ (
            if contains (outpoints (coin "aa" ∷ [])) a
            then some (sent_entry 6 "t1" "w1" a)
            else Map.get a w1_holds.entries)))
mark_all_or_nothing_example =
    mark_all_or_nothing 6 write_failed (coin "aa" ∷ []) "t1" "w1" w1_holds a
