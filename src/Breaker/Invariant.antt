-- ===== src/Breaker/Invariant.antt =====
-- The state of a breaker between calls, and the edges along which a call moves it.
use soqucoin_sdk.Prelude.{
  ℕ, ◌+◌, ◌≤◌, ◌<◌, ◌≡◌, ◌≢◌, Bool, true, false, not, ◌||◌, none, some, List, [], ◌∷◌, arith,
}
use soqucoin_sdk.Errors.{Fault}
use soqucoin_sdk.Breaker.{
  Breaker, State, closed, open_circuit, half_open, halted, Call, allows, resets, results, succeeds,
  fails, trips, per_request, new, step, run,
}

pub record Inv (cb : Breaker) : Type 0 where
  pub has_limit : 0 < cb.max_failures
  pub below_limit : cb.state ≡ closed → cb.consecutive_failures < cb.max_failures
  pub probe_half_open : cb.probing ≡ true → cb.state ≡ half_open
  pub open_failed : cb.state ≡ open_circuit → 0 < cb.consecutive_failures
  pub failures_counted : cb.consecutive_failures ≤ cb.total_failures

new-Inv : (max_failures cooldown : ℕ) → 0 < max_failures → Inv (new max_failures cooldown)
unfolding new
new-Inv max_failures cooldown h = ground arith

step-Inv : (cb : Breaker) (c : ℕ × Call) → Inv cb → Inv (step cb c)
unfolding step
step-Inv cb (now, allows) h = ground arith
step-Inv cb (now, resets) h = ground arith
step-Inv cb (now, results none) h = ground arith
step-Inv cb (now, results (some err)) h = ground arith
step-Inv cb (now, succeeds) h = ground arith
step-Inv cb (now, fails err) h = ground arith
step-Inv cb (now, trips err) h = ground arith

run-Inv : (cb : Breaker) (cs : List (ℕ × Call)) → Inv cb → Inv (run cb cs)
unfolding run
run-Inv cb [] h = h
run-Inv cb (c ∷ cs) h = run-Inv (step cb c) cs (step-Inv cb c h)

-- After any calls on a new breaker whose failure limit is above zero: a closed one has fewer consecutive failures than its limit, a
-- probe is in flight only half-open, an open one has counted a failure, and the consecutive
-- failures are among the total.
pub run-new-Inv :
    (max_failures cooldown : ℕ) (cs : List (ℕ × Call))
    → 0 < max_failures
    → Inv (run (new max_failures cooldown) cs)
run-new-Inv max_failures cooldown cs h = run-Inv _ cs (new-Inv max_failures cooldown h)

-- The calls by which an operation reports that it went through.
abbrev pub reports_success : Call → Bool
reports_success (results none) = true
reports_success succeeds = true
reports_success c = false

-- The calls that count a failure.
abbrev pub reports_failure : Breaker → Call → Bool
reports_failure cb (results (some err)) = not (per_request cb (some err))
reports_failure cb (fails err) = true
reports_failure cb c = false

-- The error of one request, reported by `RecordResult`.
abbrev pub reports_neither : Breaker → Call → Bool
reports_neither cb (results (some err)) = per_request cb (some err)
reports_neither cb c = false

-- Where a call takes the breaker, and what each edge needs. The edges that change the state are those
-- of the diagram in the type's documentation, and two that it leaves out: `success_while_open`, a
-- success that arrives while the breaker is open, and `Reset` of a breaker that is not halted.
pub data Edge (cb : Breaker) (now : ℕ) (c : Call) : State → State → Type 0 where
  fail_open :
      reports_failure cb c ≡ true
      → cb.max_failures ≤ cb.consecutive_failures + 1
      → Edge cb now c closed open_circuit
  cool_down :
      c ≡ allows → cb.last_failure + cb.cooldown ≤ now → Edge cb now c open_circuit half_open
  probe_succeeds : reports_success c ≡ true → Edge cb now c half_open closed
  probe_fails : reports_failure cb c ≡ true → Edge cb now c half_open open_circuit
  success_while_open : reports_success c ≡ true → Edge cb now c open_circuit closed
  halt : (err : Fault) (s : State) → c ≡ trips err → Edge cb now c s halted
  reset : (s : State) → c ≡ resets → Edge cb now c s closed
  stay_below_limit :
      reports_failure cb c ≡ true
      → cb.consecutive_failures + 1 < cb.max_failures
      → Edge cb now c closed closed
  stay_cooling :
      c ≡ allows → now < cb.last_failure + cb.cooldown → Edge cb now c open_circuit open_circuit
  stay_allowed : (s : State) → c ≡ allows → s ≢ open_circuit → Edge cb now c s s
  stay_closed : reports_success c ≡ true → Edge cb now c closed closed
  stay_open : reports_failure cb c ≡ true → Edge cb now c open_circuit open_circuit
  stay_halted : (reports_success c || reports_failure cb c) ≡ true → Edge cb now c halted halted
  stay_neither : (s : State) → reports_neither cb c ≡ true → Edge cb now c s s

-- Every call moves the breaker along one of these edges, under that edge's condition. From closed,
-- a counted failure opens it when the limit is reached and leaves it closed before; from half-open
-- a counted failure opens it and a success closes it; from open, `Allow` makes it half-open once the
-- cooldown is over and leaves it open before, a counted failure leaves it open and a success closes
-- it. `Trip` halts it, `Reset` closes it, a halt stays under every other call, and an error about one
-- request moves nothing.
pub step-Edge :
    (cb : Breaker) (now : ℕ) (c : Call) → Edge cb now c cb.state (step cb (now, c)).state
unfolding step
step-Edge cb now allows = grind (arith, cool_down, stay_cooling, stay_allowed)
step-Edge cb now resets = grind (arith, reset)
step-Edge cb now (results none) =
    grind (arith, probe_succeeds, success_while_open, stay_closed, stay_halted)
step-Edge cb now (results (some err)) =
    grind (arith, fail_open, stay_below_limit, probe_fails, stay_open, stay_halted, stay_neither)
step-Edge cb now succeeds =
    grind (arith, probe_succeeds, success_while_open, stay_closed, stay_halted)
step-Edge cb now (fails err) =
    grind (arith, fail_open, stay_below_limit, probe_fails, stay_open, stay_halted)
step-Edge cb now (trips err) = grind (arith, halt)
