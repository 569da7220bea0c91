-- ===== src/Deposit/Credits.antt =====
-- What the whole of Scan of deposit/monitor.go credits.
use soqucoin_sdk.Prelude.{
  ℕ, ◌+◌, ◌*◌, Bool, true, false, ◌&&◌, ◌||◌, Option, none, some, List, [], ◌∷◌, inl, inr, All,
  nat_eq, ltb, length, is_some, Bool-cases, Option-cases, if◌then◌else◌,
}
use soqucoin_sdk.Errors.{canceled, deadline_exceeded, wrong_chain, Error, Fault, is, is_any}
use soqucoin_sdk.Result.{Result, ok, error}
use soqucoin_sdk.Types.{Outpoint}
use soqucoin_sdk.Deposit.{Deposit, Outside, Config, Monitor, Pass, cache_age, ask}
use soqucoin_sdk.Deposit.Outputs.{scan_addresses}
use soqucoin_sdk.Deposit.Scan.{
  start, close, credit_new, with_tip, check_refresh, check_cache, check_chain, not_synced,
  check_synced, recheck_pending, scan,
}
use soqucoin_sdk.Deposit.Calls.{
  Since, here, require_synced, require_chain, get_block_count, last_refresh, addresses,
  context_error, clock,
}
use soqucoin_sdk.Deposit.Calls.Rechecks.{recheck_pending-Reached}
use soqucoin_sdk.Deposit.Grounds.{IsGrounded, scan_addresses-IsGrounded}

module _ {W : Type 0} (o : Outside W) (c : Config) (from : W) where
  abbrev AllGrounded : Monitor W × (List Deposit × Fault) → Type 0
  AllGrounded r = All (IsGrounded o c from) r.1.0

  close-grounded :
      (count : ℕ) (m : Monitor W) (p : Pass) (f : Fault)
      → All (IsGrounded o c from) p.credited
      → AllGrounded (close o c count (m, (p, f)))
  close-grounded count m p (some e) h = h
  close-grounded count m p none h = elim (Bool-cases (nat_eq p.stale 0)) [
    | inl b ↦ rw (b, All) h
    | inr b ↦ elim (Bool-cases (nat_eq p.stale count)) [
      | inl k ↦ rw (b, All) (rw (k, All) tt)
      | inr k ↦ rw (b, All) (rw (k, All) h)
    ]
  ]

  credit_new-grounded :
      (tip : ℕ) (m : Monitor W) (r : Result (List Outpoint))
      → Since o from m.world
      → AllGrounded (credit_new o c tip (m, r))
  credit_new-grounded tip m (error e) i = tt
  credit_new-grounded tip m (ok due) i =
      let (m1, addrs) = ask o c o.addresses m in
      let (m2, stopped) = ask o c o.context_error m1 in
      elim (Option-cases stopped) [
        | inr (e, s) ↦ rw (s, All) tt
        | inl s ↦
            rw (s, All)
              (close-grounded (length addrs) (scan_addresses o c tip due addrs (start o c) m2).0
                (scan_addresses o c tip due addrs (start o c) m2).1.0
                (scan_addresses o c tip due addrs (start o c) m2).1.1
                (scan_addresses-IsGrounded o c from tip due addrs (start o c) m2
                  (context_error (addresses i)) tt))
      ]

  with_tip-grounded :
      (m : Monitor W) (r : Result ℕ) → Since o from m.world → AllGrounded (with_tip o c (m, r))
  with_tip-grounded m (error e) i = tt
  with_tip-grounded m (ok tip) i =
      credit_new-grounded tip (recheck_pending o c m).0 (recheck_pending o c m).1
        (recheck_pending-Reached o c from m i)

  check_refresh-grounded :
      (m : Monitor W) (at : Option ℕ) (err : Fault)
      → Since o from m.world
      → AllGrounded (check_refresh o c (m, (at, err)))
  check_refresh-grounded m none err i = tt
  check_refresh-grounded m (some at) (some e) i = tt
  check_refresh-grounded m (some at) none i =
      let (m1, now) = ask o c o.clock m in
      elim (Bool-cases (ltb (at + cache_age c) now)) [
        | inl b ↦ rw (b, All) tt
        | inr b ↦
            rw (b, All)
              (with_tip-grounded (ask o c o.get_block_count m1).0 (ask o c o.get_block_count m1).1
                (get_block_count (clock i)))
      ]

  either_grounded :
      (b : Bool) (x y : Monitor W × (List Deposit × Fault))
      → AllGrounded x
      → AllGrounded y
      → AllGrounded (if b then x else y)
  either_grounded true x y h k = h
  either_grounded false x y h k = k

  check_cache-grounded : (m : Monitor W) → Since o from m.world → AllGrounded (check_cache o c m)
  check_cache-grounded m i =
      either_grounded c.per_address _ _
        (with_tip-grounded (ask o c o.get_block_count m).0 (ask o c o.get_block_count m).1
          (get_block_count i))
        (check_refresh-grounded (ask o c o.last_refresh m).0 (o.last_refresh m.world).1.0
          (o.last_refresh m.world).1.1 (last_refresh i))

  check_chain-grounded :
      (m : Monitor W) (f : Fault) → Since o from m.world → AllGrounded (check_chain o c (m, f))
  check_chain-grounded m none i = check_cache-grounded m i
  check_chain-grounded m (some e) i = tt

  not_synced-grounded : (e : Error) (m : Monitor W) → AllGrounded (not_synced o c e m)
  not_synced-grounded e m =
      let (m1, stopped) = ask o c o.context_error m in
      elim (Bool-cases (is_some stopped || is_any (canceled ∷ deadline_exceeded ∷ []) e)) [
        | inl b ↦ rw (b, All) tt
        | inr b ↦ rw (b, All) tt
      ]

  check_synced-grounded :
      (m : Monitor W) (f : Fault) → Since o from m.world → AllGrounded (check_synced o c (m, f))
  check_synced-grounded m none i =
      check_chain-grounded (ask o c o.require_chain m).0 (ask o c o.require_chain m).1
        (require_chain i)
  check_synced-grounded m (some e) i = elim (Bool-cases (is wrong_chain e)) [
    | inl b ↦ rw (b, All) tt
    | inr b ↦ rw (b, All) (not_synced-grounded e m)
  ]

module _ {W : Type 0} (o : Outside W) (c : Config) where
  -- For every deposit that a pass returns as credited there is a point of the pass, reached from its
  -- start by calls of the node, the indexer, the ledger, the clock and the context, at which four calls
  -- follow each other. The ledger is asked first and has not credited the outpoint. The node is asked
  -- next and answers with an output of the deposit's value, at the script of the deposit's own address,
  -- at least as deep as the policy requires for the value, and mature if it is a coinbase. The clock
  -- then gives the time that the deposit bears, and only then the ledger is told of the deposit, and
  -- records it without an error. It holds for any answers, which may change between calls, and also for
  -- the deposits that come with an error.
  pub scan-IsGrounded : (m : Monitor W) → All (IsGrounded o c m.world) (scan o c m).1.0
  unfolding scan
  scan-IsGrounded m = elim (Bool-cases (ltb 0 c.cadence && ltb (cache_age c) (2 * c.cadence))) [
    | inl b ↦ rw (b, All) tt
    | inr b ↦
        rw (b, All)
          (check_synced-grounded o c m.world (ask o c o.require_synced m).0
            (ask o c o.require_synced m).1 (require_synced here))
  ]
