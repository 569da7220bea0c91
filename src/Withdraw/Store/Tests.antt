-- ===== src/Withdraw/Store/Tests.antt =====
-- An update that lands.
use soqucoin_sdk.Prelude.{
  ℕ, String, ◌≡◌, refl, ◌≢◌, ◌⊎◌, true, false, none, some, if◌then◌else◌, ◌==◌, string_Eq,
}
use soqucoin_sdk.AtomicFile.{written, write_failed}
use soqucoin_sdk.Map
use soqucoin_sdk.Withdraw.Intent.{broadcast, Intent}
use soqucoin_sdk.Withdraw.Engine.Building.{fresh}
use soqucoin_sdk.Withdraw.Store.{Store, new_mem_store, get, create, update}
use soqucoin_sdk.Withdraw.Store.Laws.{landed, update_compares}

abbrev record_of : ℕ → Intent
record_of n = record (fresh n "w1" "addr" 5 1) { state = broadcast; attempts = n }

abbrev written_id : String
written_id = "w1"

abbrev stored : Store
stored = (create written (record_of 1) new_mem_store).0

update_lands : landed (update written (record_of 2) broadcast stored).1 ≡ true
unfolding fresh update create get new_mem_store Map.get Map.empty Map.put
update_lands = refl

update_compares_example :
    ((landed (update written (record_of 2) broadcast stored).1 ≡ true)
      × ((prev : Intent) × (get "w1" stored ≡ some prev) × (prev.state ≡ broadcast))
      × (get "w1" (update written (record_of 2) broadcast stored).0
          ≡ (if written_id == "w1" then some (record_of 2) else get "w1" stored)))
    ⊎ ((landed (update written (record_of 2) broadcast stored).1 ≡ false)
        × (get "w1" (update written (record_of 2) broadcast stored).0 ≡ get "w1" stored)
        × ((written ≡ write_failed)
            ⊎ ((get "w1" stored ≡ none)
                ⊎ ((prev : Intent) × (get "w1" stored ≡ some prev) × (prev.state ≢ broadcast)))))
unfolding fresh
update_compares_example = update_compares written (record_of 2) broadcast stored "w1"
