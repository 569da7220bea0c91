-- ===== src/Deposit/Tests.antt =====
-- A pass that credits one deposit and passes over an output that the node does not have as reported. The
-- world is the list of the outpoints that the ledger holds.
use soqucoin_sdk.Prelude.{
  ◌≡◌, refl, String, true, false, Option, none, some, List, [], ◌∷◌, length, All, contains,
  string_Eq, if◌then◌else◌,
}
use soqucoin_sdk.Map
use soqucoin_sdk.Result.{Result, ok}
use soqucoin_sdk.Types.{Outpoint, Utxo, outpoint_Eq, asset_type_soq}
use soqucoin_sdk.Text.{
  codes, lower, upper, byte_len, list_eq, reverse_onto, trim_left, trim_space, hex_encode,
}
use soqucoin_sdk.Address.{
  drain, script_for, network_of, hrp_of, check_parts, split_last_one, decode, decode_parts,
  read_values, index_from, check_values, verify_checksum, hrp_expand, polymod, polymod_from,
  polymod_step, strip_checksum, read_program, convert_bits, convert_loop, shift_in, end_group,
  check_program, is_supported_witness_version, witness_program,
}
use soqucoin_sdk.Deposit.{
  TxOut, Outside, Config, Monitor, coinbase_maturity, cache_age, refused, agrees, is_immature,
  regressed, deposit_of, alert, alert_unless_ended, is_final, note_final, prune_final, awaiting,
  freshness, indexer_mismatch,
}
use soqucoin_sdk.Deposit.Outputs.{
  verify_with_node, recheck_credited, scan_utxo, scan_utxos, scan_address, scan_addresses,
}
use soqucoin_sdk.Deposit.Scan.{recheck_each, recheck_pending, scan}
use soqucoin_sdk.Deposit.Grounds.{IsGrounded}
use soqucoin_sdk.Deposit.Credits.{scan-IsGrounded}

abbrev own_address : String
own_address = "sq1pqurswpc8qurswpc8qurswpc8qurswpc8qurswpc8qurswpc8qursna42fl"

abbrev point : String → Outpoint
point id = record { tx_id = id; vout = 0 }

abbrev listed : String → Utxo
listed id = record {
  outpoint = point id;
  value = 5000;
  height = 100;
  address = own_address;
  asset_type = asset_type_soq;
}

-- The node has "aa" as the indexer reported it, and nothing else.
abbrev node_output : Outpoint → Result (Option TxOut)
node_output p =
    if contains (point "aa" ∷ []) p
    then ok (
        some (record {
          value = 5000;
          script_hex = codes "51200707070707070707070707070707070707070707070707070707070707070707";
          confirmations = 11;
          coinbase = false;
        }))
    else ok none

abbrev outside : Outside (List Outpoint)
outside = record {
  require_synced = λ w. (w, none);
  require_chain = λ w. (w, none);
  get_block_count = λ w. (w, ok 110);
  get_tx_out = λ p w. (w, node_output p);
  get_utxos = λ addr w. (w, listed "aa" ∷ listed "bb" ∷ listed "aa" ∷ []);
  last_refresh = λ w. (w, (some 5, none));
  last_refresh_of = λ addr w. (w, (some 5, none));
  addresses = λ w. (w, own_address ∷ []);
  context_error = λ w. (w, none);
  credit = λ d w. (d.outpoint ∷ w, none);
  is_credited = λ p w. (w, ok (contains w p));
  pending = λ w. (w, ok []);
  mark_final = λ p w. (w, none);
  clock = λ w. (w, 7);
}

abbrev config : Config
config = record {
  required = λ value. 6;
  has_network = false;
  network_maturity = 0;
  max_cache_age = 0;
  cadence = 0;
  per_address = true;
}

abbrev monitor : Monitor (List Outpoint)
monitor = record { world = []; final = Map.empty; first_listed = Map.empty; alerts = [] }

-- "aa" is credited once, and the alert is for "bb".
pass_credits_one :
    ((scan outside config monitor).0.world ≡ point "aa" ∷ [])
    × (length (scan outside config monitor).1.0 ≡ 1)
    × ((scan outside config monitor).0.alerts ≡ indexer_mismatch ∷ [])
unfolding codes lower upper byte_len list_eq reverse_onto trim_left trim_space hex_encode drain
    script_for network_of hrp_of check_parts split_last_one decode decode_parts read_values
    index_from check_values verify_checksum hrp_expand polymod polymod_from polymod_step
    strip_checksum read_program convert_bits convert_loop shift_in end_group check_program
    is_supported_witness_version witness_program coinbase_maturity cache_age refused agrees
    is_immature regressed deposit_of alert alert_unless_ended is_final note_final prune_final
    awaiting freshness verify_with_node recheck_credited scan_utxo scan_utxos scan_address
    scan_addresses recheck_each recheck_pending scan Map.get Map.empty Map.remove Map.retain
pass_credits_one = (refl, refl, refl)

scan-IsGrounded_example :
    All (IsGrounded outside config monitor.world) (scan outside config monitor).1.0
scan-IsGrounded_example = scan-IsGrounded outside config monitor
