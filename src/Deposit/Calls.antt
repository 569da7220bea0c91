-- ===== src/Deposit/Calls.antt =====
-- The calls that a pass of deposit/monitor.go makes to what is outside, as the worlds they lead to.
pub mod Rechecks
use soqucoin_sdk.Prelude.{
  ◌≡◌, ◌⊎◌, refl, arith, Option-cases, inl, inr, ℕ, String, Bool, true, false, Option, none, some,
  List, [], ◌∷◌, string_Eq,
}
use soqucoin_sdk.Errors.{Error, Fault}
use soqucoin_sdk.Result.{Result, ok, error, Result-cases}
use soqucoin_sdk.Types.{Outpoint, Utxo, outpoint_Eq}
use soqucoin_sdk.Text.{codes}
use soqucoin_sdk.Address.{script_for}
use soqucoin_sdk.Map
use soqucoin_sdk.Deposit.{
  Freshness, waiting, is_stale, fresh, TxOut, Deposit, Outside, Config, Monitor, Pass, alert, ask,
  alert_unless_ended, note_final, first_time, awaiting, answered, freshness,
}
use soqucoin_sdk.Deposit.Outputs.{
  judge, verify_with_node, judge_credited, recheck_credited, recorded, offered, by_ledger,
  with_credited, scan_utxo, scan_utxos, scan_script, scan_address,
}
use soqucoin_sdk.Deposit.Scan.{
  marked, judge_pending, recheck_each, rechecked, recheck_listed, recheck_pending,
}

module _ {W : Type 0} (o : Outside W) where
  -- A world that calls to the outside lead to, one after the other, from the world `from`.
  pub data Since (from : W) : W → Type 0 where
    here : Since from from
    require_synced : {w : W} → Since from w → Since from (o.require_synced w).0
    require_chain : {w : W} → Since from w → Since from (o.require_chain w).0
    get_block_count : {w : W} → Since from w → Since from (o.get_block_count w).0
    get_tx_out : {w : W} (k : Outpoint) → Since from w → Since from (o.get_tx_out k w).0
    get_utxos : {w : W} (addr : String) → Since from w → Since from (o.get_utxos addr w).0
    last_refresh : {w : W} → Since from w → Since from (o.last_refresh w).0
    last_refresh_of :
        {w : W} (addr : String) → Since from w → Since from (o.last_refresh_of addr w).0
    addresses : {w : W} → Since from w → Since from (o.addresses w).0
    context_error : {w : W} → Since from w → Since from (o.context_error w).0
    credit : {w : W} (d : Deposit) → Since from w → Since from (o.credit d w).0
    is_credited : {w : W} (k : Outpoint) → Since from w → Since from (o.is_credited k w).0
    pending : {w : W} → Since from w → Since from (o.pending w).0
    mark_final : {w : W} (k : Outpoint) → Since from w → Since from (o.mark_final k w).0
    clock : {w : W} → Since from w → Since from (o.clock w).0

pub Freshness-cases : (f : Freshness) → (f ≡ waiting) ⊎ ((f ≡ is_stale) ⊎ (f ≡ fresh))
Freshness-cases waiting = inl refl
Freshness-cases is_stale = inr (inl refl)
Freshness-cases fresh = inr (inr refl)

module _ {W : Type 0} (o : Outside W) (c : Config) (from : W) where
  abbrev pub Reached : {A : Type 0} → Monitor W × A → Type 0
  Reached r = Since o from r.0.world

  pub alert_unless_ended-Reached :
      (e : Error) (m : Monitor W)
      → Since o from m.world
      → Since o from (alert_unless_ended o c e m).world
  unfolding alert_unless_ended alert
  alert_unless_ended-Reached e m h = ground (arith, context_error h)

  judge-Reached :
      (addr : String) (script : List ℕ) (u : Utxo) (tip : ℕ) (m : Monitor W)
      (r : Result (Option TxOut))
      → Since o from m.world
      → Reached (judge o c addr script u tip m r)
  unfolding alert
  judge-Reached addr script u tip m (error e) h = ground arith
  judge-Reached addr script u tip m (ok none) h = h
  judge-Reached addr script u tip m (ok (some out)) h = ground (arith, clock h)

  judge_credited-Reached :
      (addr : String) (u : Utxo) (m : Monitor W) (r : Result (Option TxOut))
      → Since o from m.world
      → Reached (judge_credited o c addr u m r)
  unfolding alert note_final
  judge_credited-Reached addr u m (error e) h = ground arith
  judge_credited-Reached addr u m (ok none) h = h
  judge_credited-Reached addr u m (ok (some out)) h = ground arith

  recheck_credited-Reached :
      (addr : String) (u : Utxo) (due : List Outpoint) (m : Monitor W)
      → Since o from m.world
      → Reached (recheck_credited o c addr u due m)
  unfolding recheck_credited
  recheck_credited-Reached addr u due m h = ground (
    arith,
    judge_credited-Reached addr u (ask o c (o.get_tx_out u.outpoint) m).0
        (o.get_tx_out u.outpoint m.world).1 (get_tx_out u.outpoint h),
  )

  recorded-Reached :
      (d : Deposit) (m : Monitor W) (f : Fault)
      → Since o from m.world
      → Reached (recorded o c d (m, f))
  unfolding alert
  recorded-Reached d m none h = h
  recorded-Reached d m (some e) h = h

  offered-Reached :
      (m : Monitor W) (r : Result (Option Deposit))
      → Since o from m.world
      → Reached (offered o c (m, r))
  offered-Reached m (error e) h = h
  offered-Reached m (ok none) h = h
  offered-Reached m (ok (some d)) h =
      recorded-Reached d (ask o c (o.credit d) m).0 (o.credit d m.world).1 (credit d h)

  by_ledger-Reached :
      (addr : String) (script : List ℕ) (u : Utxo) (tip : ℕ) (due : List Outpoint) (m : Monitor W)
      (r : Result Bool)
      → Since o from m.world
      → Reached (by_ledger o c addr script u tip due m r)
  unfolding verify_with_node
  by_ledger-Reached addr script u tip due m (error e) h = alert_unless_ended-Reached e m h
  by_ledger-Reached addr script u tip due m (ok true) h = recheck_credited-Reached addr u due m h
  by_ledger-Reached addr script u tip due m (ok false) h =
      let verdict =
        judge o c addr script u tip (ask o c (o.get_tx_out u.outpoint) m).0
          (o.get_tx_out u.outpoint m.world).1 in
      offered-Reached verdict.0 verdict.1 (
        judge-Reached addr script u tip (ask o c (o.get_tx_out u.outpoint) m).0
          (o.get_tx_out u.outpoint m.world).1 (get_tx_out u.outpoint h))

  pub scan_utxo-Reached :
      (addr : String) (script : List ℕ) (tip : ℕ) (due : List Outpoint) (u : Utxo) (m : Monitor W)
      → Since o from m.world
      → Reached (scan_utxo o c addr script tip due u m)
  unfolding scan_utxo
  scan_utxo-Reached addr script tip due u m h = ground (
    arith,
    by_ledger-Reached addr script u tip due (ask o c (o.is_credited u.outpoint) m).0
        (o.is_credited u.outpoint m.world).1 (is_credited u.outpoint h),
  )

  scan_utxos-Reached :
      (addr : String) (script : List ℕ) (tip : ℕ) (due : List Outpoint) (us : List Utxo) (p : Pass)
      (m : Monitor W)
      → Since o from m.world
      → Reached (scan_utxos o c addr script tip due us p m)
  unfolding scan_utxos
  scan_utxos-Reached addr script tip due [] p m h = h
  scan_utxos-Reached addr script tip due (u ∷ us) p m h =
      let (m1, found) = scan_utxo o c addr script tip due u m in
      let h' = scan_utxo-Reached addr script tip due u m h in
      elim (Result-cases found) [
        | inr (e, r) ↦ rw (r, scan_utxos) h'
        | inl (d, r) ↦
            rw (r, scan_utxos)
              (scan_utxos-Reached addr script tip due us
                (record p { seen = u.outpoint ∷ p.seen; credited = with_credited o c d p.credited })
                m1 h')
      ]

  first_time-Reached :
      (addr : String) (m : Monitor W) (f : Option ℕ)
      → Since o from m.world
      → Reached (first_time o c addr m f)
  first_time-Reached addr m (some first) h = h
  first_time-Reached addr m none h = clock h

  answered-Reached :
      (addr : String) (at : Option ℕ) (f : Fault) (m : Monitor W)
      → Since o from m.world
      → Reached (answered o c addr (at, f) m)
  unfolding awaiting
  answered-Reached addr none none m h =
      clock (first_time-Reached addr m (Map.get addr m.first_listed) h)
  answered-Reached addr none (some e) m h = h
  answered-Reached addr (some at) f m h = clock h

  pub freshness-Reached :
      (addr : String) (m : Monitor W) → Since o from m.world → Reached (freshness o c addr m)
  unfolding freshness
  freshness-Reached addr m h = ground (
    arith,
    answered-Reached addr (o.last_refresh_of addr m.world).1.0 (o.last_refresh_of addr m.world).1.1
        (ask o c (o.last_refresh_of addr) m).0 (last_refresh_of addr h),
  )

  scan_script-Reached :
      (addr : String) (tip : ℕ) (due : List Outpoint) (p : Pass) (m : Monitor W)
      (r : Result (List ℕ))
      → Since o from m.world
      → Reached (scan_script o c addr tip due p m r)
  unfolding alert
  scan_script-Reached addr tip due p m (error e) h = h
  scan_script-Reached addr tip due p m (ok script) h =
      scan_utxos-Reached addr script tip due (o.get_utxos addr m.world).1
        (record p { scanned = addr ∷ p.scanned }) (ask o c (o.get_utxos addr) m).0
        (get_utxos addr h)

  pub scan_address-Reached :
      (addr : String) (tip : ℕ) (due : List Outpoint) (p : Pass) (m : Monitor W)
      → Since o from m.world
      → Reached (scan_address o c addr tip due p m)
  unfolding scan_address
  scan_address-Reached addr tip due p m h =
      let (m1, state) = freshness o c addr m in
      let h' = freshness-Reached addr m h in
      elim (Freshness-cases state) [
        | inl f ↦ rw (f, scan_address) h'
        | inr (inl f) ↦ rw (f, scan_address) h'
        | inr (inr f) ↦
            rw (f, scan_address)
              (scan_script-Reached addr tip due p m1 (script_for (codes addr)) h')
      ]
