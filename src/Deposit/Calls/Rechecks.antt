-- ===== src/Deposit/Calls/Rechecks.antt =====
-- The calls of recheckPending in deposit/monitor.go.
use soqucoin_sdk.Prelude.{
  arith, Option-cases, inl, inr, Option, none, some, List, [], ◌∷◌, string_Eq,
}
use soqucoin_sdk.Errors.{Fault}
use soqucoin_sdk.Result.{Result, ok, error}
use soqucoin_sdk.Types.{outpoint_Eq}
use soqucoin_sdk.Deposit.{TxOut, Deposit, Outside, Config, Monitor, alert, ask, note_final}
use soqucoin_sdk.Deposit.Scan.{
  marked, judge_pending, recheck_each, rechecked, recheck_listed, recheck_pending,
}
use soqucoin_sdk.Deposit.Calls.{
  Since, get_tx_out, pending, mark_final, Reached, alert_unless_ended-Reached,
}

module _ {W : Type 0} (o : Outside W) (c : Config) (from : W) where
  marked-Reached :
      (d : Deposit) (m : Monitor W) (f : Fault)
      → Since o from m.world
      → Reached o c from (marked o c d (m, f))
  unfolding alert note_final
  marked-Reached d m none h = h
  marked-Reached d m (some e) h = h

  judge_pending-Reached :
      (d : Deposit) (m : Monitor W) (r : Result (Option TxOut))
      → Since o from m.world
      → Reached o c from (judge_pending o c d m r)
  unfolding alert
  judge_pending-Reached d m (error e) h = ground arith
  judge_pending-Reached d m (ok none) h = h
  judge_pending-Reached d m (ok (some out)) h = ground (
    arith,
    marked-Reached d (ask o c (o.mark_final d.outpoint) m).0 (o.mark_final d.outpoint m.world).1
        (mark_final d.outpoint h),
  )

  recheck_each-Reached :
      (ds : List Deposit) (m : Monitor W)
      → Since o from m.world
      → Reached o c from (recheck_each o c ds m)
  unfolding recheck_each
  recheck_each-Reached [] m h = h
  recheck_each-Reached (d ∷ ds) m h =
      let (m1, answer) = ask o c (o.get_tx_out d.outpoint) m in
      let (m2, f) = judge_pending o c d m1 answer in
      let h' = judge_pending-Reached d m1 answer (get_tx_out d.outpoint h) in
      elim (Option-cases f) [
        | inl n ↦ rw (n, recheck_each) (recheck_each-Reached ds m2 h')
        | inr (e, n) ↦ rw (n, recheck_each) h'
      ]

  rechecked-Reached :
      (ds : List Deposit) (m : Monitor W) (f : Fault)
      → Since o from m.world
      → Reached o c from (rechecked o c ds (m, f))
  rechecked-Reached ds m (some e) h = h
  rechecked-Reached ds m none h = h

  recheck_listed-Reached :
      (m : Monitor W) (r : Result (List Deposit))
      → Since o from m.world
      → Reached o c from (recheck_listed o c (m, r))
  recheck_listed-Reached m (error e) h = alert_unless_ended-Reached o c from e m h
  recheck_listed-Reached m (ok ds) h =
      rechecked-Reached ds (recheck_each o c ds m).0 (recheck_each o c ds m).1
        (recheck_each-Reached ds m h)

  pub recheck_pending-Reached :
      (m : Monitor W) → Since o from m.world → Reached o c from (recheck_pending o c m)
  unfolding recheck_pending
  recheck_pending-Reached m h =
      recheck_listed-Reached (ask o c o.pending m).0 (o.pending m.world).1 (pending h)
