-- ===== src/Deposit/Scan.antt =====
-- deposit/monitor.go: recheckPending and Scan, the pass from its first check to its end.
use soqucoin_sdk.Prelude.{
  ℕ, ◌+◌, ◌*◌, ◌&&◌, ◌||◌, Option, none, some, List, [], ◌∷◌, if◌then◌else◌, nat_eq, ltb, length,
  is_some, map,
}
use soqucoin_sdk.Errors.{
  canceled, deadline_exceeded, wrong_chain, paused, cache_age_below_pings, Error, Fault, is, is_any,
}
use soqucoin_sdk.Result.{Result, ok, error}
use soqucoin_sdk.Types.{Outpoint}
use soqucoin_sdk.Deposit.{
  node_syncing, node_wrong_chain, cache_stale, deposit_vanished, deposit_regressed, ledger_error,
  TxOut, Deposit, Outside, Config, Monitor, Pass, max_reorg_depth, cache_age, refused, regressed,
  alert, ask, alert_unless_ended, note_final, prune_final,
}
use soqucoin_sdk.Deposit.Outputs.{scan_addresses}

module _ {W : Type 0} (o : Outside W) (c : Config) where
  abbrev pub marked : Deposit → Monitor W × Fault → Monitor W × Fault
  marked d (m, some e) = (alert o c ledger_error m, some e)
  marked d (m, none) = (note_final o c d.outpoint d.address m, none)

  -- The node's answer about a credited output that is not final.
  abbrev pub judge_pending : Deposit → Monitor W → Result (Option TxOut) → Monitor W × Fault
  judge_pending d m (error e) = if refused e then (alert o c ledger_error m, none) else (m, some e)
  judge_pending d m (ok none) = (alert o c deposit_vanished m, none)
  judge_pending d m (ok (some out)) =
      if regressed c d.value out
      then (alert o c deposit_regressed m, none)
      else if ltb max_reorg_depth out.confirmations
      then marked d (ask o c (o.mark_final d.outpoint) m)
      else (m, none)

  unfoldable pub recheck_each : List Deposit → Monitor W → Monitor W × Fault
  recheck_each [] m = (m, none)
  recheck_each (d ∷ ds) m =
      let (m1, answer) = ask o c (o.get_tx_out d.outpoint) m in
      let (m2, f) = judge_pending d m1 answer in
      elim f [ some e ↦ (m2, some e) | none ↦ recheck_each ds m2 ]

  abbrev pub rechecked : List Deposit → Monitor W × Fault → Monitor W × Result (List Outpoint)
  rechecked ds (m, some e) = (m, error e)
  rechecked ds (m, none) = (m, ok (map (λ (d : Deposit). d.outpoint) ds))

  abbrev pub recheck_listed : Monitor W × Result (List Deposit) → Monitor W × Result (List Outpoint)
  recheck_listed (m, error e) = (alert_unless_ended o c e m, error e)
  recheck_listed (m, ok ds) = rechecked ds (recheck_each ds m)

  unfoldable pub recheck_pending : Monitor W → Monitor W × Result (List Outpoint)
  recheck_pending m = recheck_listed (ask o c o.pending m)

  abbrev pub start : Pass
  start = record { credited = []; stale = 0; scanned = []; seen = [] }

  -- The end of a pass over `count` addresses.
  abbrev pub close : ℕ → Monitor W × (Pass × Fault) → Monitor W × (List Deposit × Fault)
  close count (m, (p, some e)) = (m, (p.credited, some e))
  close count (m, (p, none)) =
      if nat_eq p.stale 0
      then (prune_final o c p m, (p.credited, none))
      else if nat_eq p.stale count
      then (alert o c cache_stale m, ([], some (paused ∷ [])))
      else (prune_final o c p (alert o c cache_stale m), (p.credited, none))

  abbrev pub credit_new :
      ℕ → Monitor W × Result (List Outpoint) → Monitor W × (List Deposit × Fault)
  credit_new tip (m, error e) = (m, ([], some e))
  credit_new tip (m, ok pending) =
      let (m1, addrs) = ask o c o.addresses m in
      let (m2, stopped) = ask o c o.context_error m1 in
      elim stopped [
        | some e ↦ (m2, ([], some e))
        | none ↦ close (length addrs) (scan_addresses o c tip pending addrs start m2)
      ]

  abbrev pub with_tip : Monitor W × Result ℕ → Monitor W × (List Deposit × Fault)
  with_tip (m, error e) = (m, ([], some e))
  with_tip (m, ok tip) = credit_new tip (recheck_pending m)

  abbrev pub pause_stale : Monitor W → Monitor W × (List Deposit × Fault)
  pause_stale m = (alert o c cache_stale m, ([], some (paused ∷ [])))

  abbrev pub check_refresh : Monitor W × (Option ℕ × Fault) → Monitor W × (List Deposit × Fault)
  check_refresh (m, (none, err)) = pause_stale m
  check_refresh (m, (some at, some e)) = pause_stale m
  check_refresh (m, (some at, none)) =
      let (m1, now) = ask o c o.clock m in
      if ltb (at + cache_age c) now then pause_stale m1 else with_tip (ask o c o.get_block_count m1)

  abbrev pub check_cache : Monitor W → Monitor W × (List Deposit × Fault)
  check_cache m =
      if c.per_address
      then with_tip (ask o c o.get_block_count m)
      else check_refresh (ask o c o.last_refresh m)

  abbrev pub check_chain : Monitor W × Fault → Monitor W × (List Deposit × Fault)
  check_chain (m, none) = check_cache m
  check_chain (m, some e) =
      (if is wrong_chain e then alert o c node_wrong_chain m else m, ([], some e))

  abbrev pub not_synced : Error → Monitor W → Monitor W × (List Deposit × Fault)
  not_synced e m =
      let (m1, stopped) = ask o c o.context_error m in
      if is_some stopped || is_any (canceled ∷ deadline_exceeded ∷ []) e
      then (m1, ([], some e))
      else (alert o c node_syncing m1, ([], some (paused ∷ [])))

  abbrev pub check_synced : Monitor W × Fault → Monitor W × (List Deposit × Fault)
  check_synced (m, none) = check_chain (ask o c o.require_chain m)
  check_synced (m, some e) =
      if is wrong_chain e then (alert o c node_wrong_chain m, ([], some e)) else not_synced e m

  unfoldable pub scan : Monitor W → Monitor W × (List Deposit × Fault)
  scan m =
      if ltb 0 c.cadence && ltb (cache_age c) (2 * c.cadence)
      then (m, ([], some (cache_age_below_pings ∷ [])))
      else check_synced (ask o c o.require_synced m)
