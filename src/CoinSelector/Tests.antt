-- ===== src/CoinSelector/Tests.antt =====
-- A selection and a consolidation over three outputs, one of which is recorded as sent.
use soqucoin_sdk.Prelude.{ℕ, ◌≡◌, refl, String, false, none, some, List, [], ◌∷◌, All, arith}
use soqucoin_sdk.Types.{Utxo, asset_type_soq, outpoint_Eq}
use soqucoin_sdk.AtomicFile.{written}
use soqucoin_sdk.Map
use soqucoin_sdk.SpentSet.{SpentSet}
use soqucoin_sdk.SpentSet.Methods
use soqucoin_sdk.CoinSelector.{
  CoinSelector, Wanted, select_by_asset_type, select_smallest_utxos, collect,
}
use soqucoin_sdk.CoinSelector.Coverage.{Covers, IsSound, select-Covers}
use soqucoin_sdk.CoinSelector.Finding.{select_finds}
use soqucoin_sdk.CoinSelector.Smallest.{IsSmallest, select_smallest_lem}

abbrev coin : String → ℕ → Utxo
coin tx value = record {
  outpoint = record { tx_id = tx; vout = 1 };
  value = value;
  height = 100;
  address = "own";
  asset_type = asset_type_soq;
}

abbrev offered : List (ℕ × Utxo)
offered = (7, coin "aa" 50) ∷ (8, coin "bb" 900) ∷ (9, coin "cc" 300) ∷ []

abbrev sent : SpentSet
sent =
    (Methods.mark_broadcast_for 6 written (coin "bb" 900 ∷ []) "t1" "w1"
      (record { entries = Map.empty; file_backed = false; file = none })).0

abbrev selector : CoinSelector
selector = record { spent_set = some sent; min_utxo_value = 10 }

abbrev wanted : Wanted
wanted = record {
  min_conf = 6;
  tip_height = 105;
  allowed_addresses = "own" ∷ [];
  asset_type = asset_type_soq;
}

select-Covers_example :
    Covers (IsSound wanted 10 (some sent)) 320 (select_by_asset_type wanted 320 offered selector).1
unfolding select_by_asset_type Methods.is_spent Methods.mark_broadcast_for Map.get Map.put Map.empty
select-Covers_example = select-Covers wanted 320 offered selector (omega arith) refl

select_finds_example : (select_by_asset_type wanted 320 offered selector).1.fault ≡ none
unfolding collect Methods.is_spent Methods.mark_broadcast_for Map.get Map.put Map.empty
select_finds_example =
    select_finds wanted 320 offered selector (omega arith) (omega arith) (omega arith) (omega arith)

select_smallest_lem_example :
    IsSmallest 1
      (collect wanted 0 offered (some sent)).1
      (select_smallest_utxos 1 6 105 ("own" ∷ []) offered selector).1.utxos
    × All
        (IsSound wanted 0 (some sent))
        (select_smallest_utxos 1 6 105 ("own" ∷ []) offered selector).1.utxos
select_smallest_lem_example = select_smallest_lem 1 6 105 ("own" ∷ []) offered selector
