-- ===== src/Deposit.antt =====
-- deposit/monitor.go: a pass of the monitor over the node, the indexer's cache and the ledger. All that is
-- outside is one world, which each call may change, so an answer may differ from call to call. A zero time
-- is `none`; a height, a depth and a time are zero or more. A pass holds its lock throughout.
pub mod Outputs
pub mod Scan
mod Calls
mod Grounds
mod Credits
mod Tests
use soqucoin_sdk.Prelude.{
  ℕ, ◌+◌, ◌-◌, ◌*◌, String, Bool, true, false, not, ◌&&◌, ◌||◌, Option, none, some, List, [], ◌∷◌,
  ◌++◌, map, if◌then◌else◌, nat_eq, leb, ltb, length, is_empty, is_some, contains, string_Eq,
}
use soqucoin_sdk.Map
use soqucoin_sdk.Map.{Map}
use soqucoin_sdk.Errors.{
  permanent, canceled, deadline_exceeded, wrong_chain, paused, cache_age_below_pings, Error, Fault,
  is, is_any,
}
use soqucoin_sdk.Result.{Result, ok, error}
use soqucoin_sdk.Types.{Outpoint, Utxo, outpoint_Eq}
use soqucoin_sdk.Text.{codes, lower, list_eq, hex_encode}
use soqucoin_sdk.Address.{script_for}

pub data AlertKind : Type 0 where
  node_syncing node_wrong_chain cache_stale indexer_mismatch : AlertKind
  deposit_vanished deposit_regressed ledger_error : AlertKind

-- rpc.TxOut, with the hex text of the script.
pub record TxOut : Type 0 where
  pub value : ℕ
  pub script_hex : List ℕ
  pub confirmations : ℕ
  pub coinbase : Bool

pub record Deposit : Type 0 where
  pub outpoint : Outpoint
  pub address : String
  pub value : ℕ
  pub height : ℕ
  pub confirmations : ℕ
  pub credited_at : ℕ

-- The interfaces Cache, AddressFreshness, Node and Ledger, the address provider, the clock, and the
-- context of the pass.
pub record Outside (W : Type 0) : Type 0 where
  pub require_synced : W → W × Fault
  pub require_chain : W → W × Fault
  pub get_block_count : W → W × Result ℕ
  pub get_tx_out : Outpoint → W → W × Result (Option TxOut)
  pub get_utxos : String → W → W × List Utxo
  pub last_refresh : W → W × (Option ℕ × Fault)
  pub last_refresh_of : String → W → W × (Option ℕ × Fault)
  pub addresses : W → W × List String
  pub context_error : W → W × Fault
  pub credit : Deposit → W → W × Fault
  pub is_credited : Outpoint → W → W × Result Bool
  pub pending : W → W × Result (List Deposit)
  pub mark_final : Outpoint → W → W × Fault
  pub clock : W → W × ℕ

-- `cadence` is 0 where the cache reports none, and `per_address` says whether it reports each address.
pub record Config : Type 0 where
  pub required : ℕ → ℕ
  pub has_network : Bool
  pub network_maturity : ℕ
  pub max_cache_age : ℕ
  pub cadence : ℕ
  pub per_address : Bool

abbrev pub max_reorg_depth : ℕ
max_reorg_depth = 288

abbrev pub mainnet_maturity : ℕ
mainnet_maturity = 288

-- network().CoinbaseMaturity
unfoldable pub coinbase_maturity : Config → ℕ
coinbase_maturity c =
    if c.has_network && not (nat_eq c.network_maturity 0)
    then c.network_maturity
    else mainnet_maturity

-- maxCacheAge, in nanoseconds
unfoldable pub cache_age : Config → ℕ
cache_age c = if nat_eq c.max_cache_age 0 then 300_000_000_000 else c.max_cache_age

pub record Final : Type 0 where
  pub key : Outpoint
  pub address : String

pub record Monitor (W : Type 0) : Type 0 where
  pub world : W
  pub final : Map Outpoint Final
  pub first_listed : Map String ℕ
  pub alerts : List AlertKind

pub data Freshness : Type 0 where
  waiting is_stale fresh : Freshness

-- What the loop over the addresses has gathered.
pub record Pass : Type 0 where
  pub credited : List Deposit
  pub stale : ℕ
  pub scanned : List String
  pub seen : List Outpoint

unfoldable pub refused : Error → Bool
refused e = is permanent e

-- The node's output is the one that the indexer reported, deep enough, at the address' script.
unfoldable pub agrees : Config → List ℕ → Utxo → TxOut → Bool
agrees c script u out =
    nat_eq out.value u.value
    && list_eq (map lower out.script_hex) (map lower (hex_encode script))
    && leb (c.required u.value) out.confirmations

unfoldable pub is_immature : Config → TxOut → Bool
is_immature c out = out.coinbase && ltb out.confirmations (coinbase_maturity c)

unfoldable pub regressed : Config → ℕ → TxOut → Bool
regressed c value out = ltb out.confirmations (c.required value)

unfoldable pub deposit_of : String → Utxo → ℕ → TxOut → ℕ → Deposit
deposit_of addr u tip out now = record {
  outpoint = u.outpoint;
  address = addr;
  value = u.value;
  height = tip + 1 - out.confirmations;
  confirmations = out.confirmations;
  credited_at = now;
}

module _ {W : Type 0} (o : Outside W) (c : Config) where
  unfoldable pub alert : AlertKind → Monitor W → Monitor W
  alert k m = record m { alerts = m.alerts ++ (k ∷ []) }

  abbrev pub ask : {A : Type 0} → (W → W × A) → Monitor W → Monitor W × A
  ask call m = let (w, a) = call m.world in (record m { world = w }, a)

  -- An error of the ledger, alarmed unless the context or an error of it ended the call.
  unfoldable pub alert_unless_ended : Error → Monitor W → Monitor W
  alert_unless_ended e m =
      let (m1, stopped) = ask o.context_error m in
      if is_some stopped || is_any (canceled ∷ deadline_exceeded ∷ []) e
      then m1
      else alert ledger_error m1

  unfoldable pub is_final : Outpoint → Monitor W → Bool
  is_final k m = is_some (Map.get k m.final)

  unfoldable pub note_final : Outpoint → String → Monitor W → Monitor W
  note_final k addr m = record m { final = Map.put k (record { key = k; address = addr }) m.final }

  unfoldable pub prune_final : Pass → Monitor W → Monitor W
  prune_final p m = record m {
    final =
        Map.retain
          (λ (f : Final). not (contains p.scanned f.address && not (contains p.seen f.key)))
          m.final;
  }

  abbrev pub first_time : String → Monitor W → Option ℕ → Monitor W × ℕ
  first_time addr m (some first) = (m, first)
  first_time addr m none =
      let (m1, now) = ask o.clock m in
      (record m1 { first_listed = Map.put addr now m1.first_listed }, now)

  unfoldable pub awaiting : String → Monitor W → Monitor W × Bool
  awaiting addr m =
      let (m1, first) = first_time addr m (Map.get addr m.first_listed) in
      let (m2, now) = ask o.clock m1 in (m2, leb now (first + cache_age c))

  abbrev pub answered : String → Option ℕ × Fault → Monitor W → Monitor W × Freshness
  answered addr (none, none) m =
      let (m1, waits) = awaiting addr m in (m1, if waits then waiting else is_stale)
  answered addr (none, some e) m =
      (record m { first_listed = Map.remove addr m.first_listed }, is_stale)
  answered addr (some at, err) m =
      let m1 = record m { first_listed = Map.remove addr m.first_listed } in
      let (m2, now) = ask o.clock m1 in (m2, if ltb (at + cache_age c) now then is_stale else fresh)

  unfoldable pub freshness : String → Monitor W → Monitor W × Freshness
  freshness addr m =
      if c.per_address
      then (let (m1, answer) = ask (o.last_refresh_of addr) m in answered addr answer m1)
      else (m, fresh)
