-- ===== src/Deposit/Outputs.antt =====
-- deposit/monitor.go: the outputs of an address, one by one, and verifyWithNode; the loops of Scan.
use soqucoin_sdk.Prelude.{
  ℕ, ◌+◌, String, Bool, true, false, not, ◌||◌, Option, none, some, List, [], ◌∷◌, ◌++◌,
  if◌then◌else◌, nat_eq, ltb, contains, string_Eq,
}
use soqucoin_sdk.Errors.{Fault}
use soqucoin_sdk.Result.{Result, ok, error}
use soqucoin_sdk.Types.{Outpoint, Utxo, outpoint_Eq}
use soqucoin_sdk.Text.{codes}
use soqucoin_sdk.Address.{script_for}
use soqucoin_sdk.Deposit.{
  max_reorg_depth, refused, agrees, is_immature, regressed, deposit_of, alert, ask,
  alert_unless_ended, is_final, note_final, freshness, TxOut, Deposit, Outside, Config, Monitor,
  Pass, indexer_mismatch, deposit_regressed, ledger_error, waiting, is_stale, fresh,
}

module _ {W : Type 0} (o : Outside W) (c : Config) where
  abbrev pub judge :
      String
      → List ℕ
      → Utxo
      → ℕ
      → Monitor W
      → Result (Option TxOut)
      → Monitor W × Result (Option Deposit)
  judge addr script u tip m (error e) =
      if refused e then (alert o c indexer_mismatch m, ok none) else (m, error e)
  judge addr script u tip m (ok none) = (alert o c indexer_mismatch m, ok none)
  judge addr script u tip m (ok (some out)) =
      if not (agrees c script u out)
      then (alert o c indexer_mismatch m, ok none)
      else if is_immature c out
      then (m, ok none)
      else (let (m1, now) = ask o c o.clock m in (m1, ok (some (deposit_of addr u tip out now))))

  unfoldable pub verify_with_node :
      String → List ℕ → Utxo → ℕ → Monitor W → Monitor W × Result (Option Deposit)
  verify_with_node addr script u tip m =
      let (m1, answer) = ask o c (o.get_tx_out u.outpoint) m in judge addr script u tip m1 answer

  -- A credited output that the ledger leaves out of Pending.
  abbrev pub judge_credited :
      String → Utxo → Monitor W → Result (Option TxOut) → Monitor W × Result (Option Deposit)
  judge_credited addr u m (error e) =
      if refused e then (alert o c indexer_mismatch m, ok none) else (m, error e)
  judge_credited addr u m (ok none) = (m, ok none)
  judge_credited addr u m (ok (some out)) =
      if regressed c u.value out
      then (alert o c deposit_regressed m, ok none)
      else if ltb max_reorg_depth out.confirmations
      then (note_final o c u.outpoint addr m, ok none)
      else (m, ok none)

  unfoldable pub recheck_credited :
      String → Utxo → List Outpoint → Monitor W → Monitor W × Result (Option Deposit)
  recheck_credited addr u pending m =
      if contains pending u.outpoint
      then (m, ok none)
      else (let (m1, answer) = ask o c (o.get_tx_out u.outpoint) m in
          judge_credited addr u m1 answer)

  abbrev pub recorded : Deposit → Monitor W × Fault → Monitor W × Result (Option Deposit)
  recorded d (m, none) = (m, ok (some d))
  recorded d (m, some e) = (alert o c ledger_error m, error e)

  abbrev pub offered : Monitor W × Result (Option Deposit) → Monitor W × Result (Option Deposit)
  offered (m, error e) = (m, error e)
  offered (m, ok none) = (m, ok none)
  offered (m, ok (some d)) = recorded d (ask o c (o.credit d) m)

  abbrev pub by_ledger :
      String
      → List ℕ
      → Utxo
      → ℕ
      → List Outpoint
      → Monitor W
      → Result Bool
      → Monitor W × Result (Option Deposit)
  by_ledger addr script u tip pending m (error e) = (alert_unless_ended o c e m, error e)
  by_ledger addr script u tip pending m (ok true) = recheck_credited addr u pending m
  by_ledger addr script u tip pending m (ok false) = offered (verify_with_node addr script u tip m)

  unfoldable pub scan_utxo :
      String → List ℕ → ℕ → List Outpoint → Utxo → Monitor W → Monitor W × Result (Option Deposit)
  scan_utxo addr script tip pending u m =
      if nat_eq u.height 0
        || ltb (tip + 1) (c.required u.value + u.height)
        || is_final o c u.outpoint m
      then (m, ok none)
      else (let (m1, done) = ask o c (o.is_credited u.outpoint) m in
          by_ledger addr script u tip pending m1 done)

  abbrev pub with_credited : Option Deposit → List Deposit → List Deposit
  with_credited none ds = ds
  with_credited (some d) ds = ds ++ (d ∷ [])

  unfoldable pub scan_utxos :
      String
      → List ℕ
      → ℕ
      → List Outpoint
      → List Utxo
      → Pass
      → Monitor W
      → Monitor W × (Pass × Fault)
  scan_utxos addr script tip pending [] p m = (m, (p, none))
  scan_utxos addr script tip pending (u ∷ us) p m =
      let noted = record p { seen = u.outpoint ∷ p.seen } in
      let (m1, found) = scan_utxo addr script tip pending u m in
      elim found [
        | error e ↦ (m1, (noted, some e))
        | ok d ↦
            scan_utxos addr script tip pending us
              (record noted { credited = with_credited d noted.credited }) m1
      ]

  abbrev pub scan_script :
      String → ℕ → List Outpoint → Pass → Monitor W → Result (List ℕ) → Monitor W × (Pass × Fault)
  scan_script addr tip pending p m (error e) = (alert o c ledger_error m, (p, none))
  scan_script addr tip pending p m (ok script) =
      let (m1, us) = ask o c (o.get_utxos addr) m in
      scan_utxos addr script tip pending us (record p { scanned = addr ∷ p.scanned }) m1

  unfoldable pub scan_address :
      String → ℕ → List Outpoint → Pass → Monitor W → Monitor W × (Pass × Fault)
  scan_address addr tip pending p m =
      let (m1, state) = freshness o c addr m in
      elim state [
        | waiting ↦ (m1, (p, none))
        | is_stale ↦ (m1, (record p { stale = p.stale + 1 }, none))
        | fresh ↦ scan_script addr tip pending p m1 (script_for (codes addr))
      ]

  unfoldable pub scan_addresses :
      ℕ → List Outpoint → List String → Pass → Monitor W → Monitor W × (Pass × Fault)
  scan_addresses tip pending [] p m = (m, (p, none))
  scan_addresses tip pending (addr ∷ addrs) p m =
      let (m1, (p1, f)) = scan_address addr tip pending p m in
      elim f [ some e ↦ (m1, (p1, some e)) | none ↦ scan_addresses tip pending addrs p1 m1 ]
