-- ===== src/Breaker.antt =====
-- resilience/circuit_breaker.go. A method that mutates `*CircuitBreaker` returns the new record and
-- the call of `OnStateChange` that it makes, if any; logging is left out. Times are numbers, and the
-- counters count calls and are left unbounded.
pub mod Invariant
pub mod Halt
pub mod Opening
pub mod Tests
use soqucoin_sdk.Prelude.{
  ℕ, ◌+◌, Bool, true, false, ◌||◌, Option, none, some, List, [], ◌∷◌, if◌then◌else◌, leb,
}
use soqucoin_sdk.Errors.{
  Kind, permanent, invalid_checksum, invalid_length, invalid_hrp, invalid_char,
  unsupported_witness_version, invalid_version, invalid_amount, below_dust, fee_too_high,
  insufficient_funds, input_overflow, invalid_intent, wrong_state, conflict, canceled, Error, Fault,
  is_any,
}

pub data State : Type 0 where
  closed open_circuit half_open halted : State

pub record Breaker : Type 0 where
  pub state : State
  pub consecutive_failures : ℕ
  pub max_failures : ℕ
  pub cooldown : ℕ
  pub probing : Bool
  pub halt_reason : Option Error
  pub last_failure : ℕ
  pub last_success : ℕ
  pub total_failures : ℕ
  pub total_successes : ℕ
  pub per_request_errors : List Kind

-- The arguments of `OnStateChange`.
pub record Notice : Type 0 where
  pub from : State
  pub to : State
  pub failures : ℕ
  pub last_err : Fault

abbrev pub Reply : Type 0
Reply = Breaker × Option Notice

unfoldable pub new : ℕ → ℕ → Breaker
new max_failures cooldown = record {
  state = closed;
  consecutive_failures = 0;
  max_failures = max_failures;
  cooldown = cooldown;
  probing = false;
  halt_reason = none;
  last_failure = 0;
  last_success = 0;
  total_failures = 0;
  total_successes = 0;
  per_request_errors = [];
}

abbrev pub per_request_sentinels : List Kind
per_request_sentinels =
    canceled ∷ permanent ∷ invalid_checksum ∷ invalid_length ∷ invalid_hrp ∷ invalid_char
    ∷ unsupported_witness_version ∷ invalid_version ∷ invalid_amount ∷ below_dust ∷ fee_too_high
    ∷ insufficient_funds ∷ input_overflow ∷ wrong_state ∷ invalid_intent ∷ conflict ∷ []

unfoldable pub per_request : Breaker → Fault → Bool
unfolding is_any
per_request cb none = false
per_request cb (some err) = is_any per_request_sentinels err || is_any cb.per_request_errors err

-- A nil error is replaced by `errors.New("unspecified reason")`.
abbrev pub or_unspecified : Fault → Error
or_unspecified none = []
or_unspecified (some err) = err

abbrev is_halted : State → Bool
is_halted halted = true
is_halted s = false

abbrev is_closed : State → Bool
is_closed closed = true
is_closed s = false

abbrev is_half_open : State → Bool
is_half_open half_open = true
is_half_open s = false

unfoldable pub trip : Fault → Breaker → Reply
trip err cb = (
  record cb { state = halted; halt_reason = some (or_unspecified err); probing = false },
  if is_halted cb.state
      then none
      else some (record {
        from = cb.state;
        to = halted;
        failures = cb.consecutive_failures;
        last_err = some (or_unspecified err);
      }),
)

-- Why `Allow` refuses.
pub data Refusal : Type 0 where
  halted_for : Option Error → Refusal
  cooling_down : ℕ → Refusal
  probe_in_flight : Refusal

-- The `switch` of `Allow`; a state is one of the four constants.
allow_in : State → ℕ → Breaker → Breaker × Option Refusal
allow_in closed now cb = (cb, none)
allow_in halted now cb = (cb, some (halted_for cb.halt_reason))
allow_in open_circuit now cb =
    if leb (cb.last_failure + cb.cooldown) now
    then (record cb { state = half_open; probing = true }, none)
    else (cb, some (cooling_down cb.consecutive_failures))
allow_in half_open now cb =
    if cb.probing then (cb, some probe_in_flight) else (record cb { probing = true }, none)

unfoldable pub allow : ℕ → Breaker → Breaker × Option Refusal
unfolding allow_in
allow now cb = allow_in cb.state now cb

unfoldable pub record_success : ℕ → Breaker → Reply
record_success now cb =
    let seen = record cb { last_success = now; total_successes = cb.total_successes + 1 } in
    if is_halted cb.state then (seen, none) else (
      record seen { consecutive_failures = 0; state = closed; probing = false },
      if is_closed cb.state
          then none
          else some (record { from = cb.state; to = closed; failures = 0; last_err = none }),
    )

-- The `switch` of `RecordFailure` over the state it finds, on the breaker that counted the failure.
trip_open : State → Error → Breaker → Reply
trip_open halted err cb = (cb, none)
trip_open half_open err cb = (
  record cb { state = open_circuit; probing = false },
  some (record {
    from = half_open;
    to = open_circuit;
    failures = cb.consecutive_failures;
    last_err = some err;
  }),
)
trip_open open_circuit err cb = (cb, none)
trip_open closed err cb =
    if leb cb.max_failures cb.consecutive_failures
    then (
      record cb { state = open_circuit },
      some (record {
        from = closed;
        to = open_circuit;
        failures = cb.consecutive_failures;
        last_err = some err;
      }),
    )
    else (cb, none)

unfoldable pub record_failure : Fault → ℕ → Breaker → Reply
unfolding trip_open
record_failure err now cb = trip_open cb.state (or_unspecified err) (record cb {
  consecutive_failures = cb.consecutive_failures + 1;
  last_failure = now;
  total_failures = cb.total_failures + 1;
})

-- The second component is the `bool` that `RecordResult` returns.
record_failed : Error → ℕ → Breaker → Reply × Bool
unfolding record_failure per_request
record_failed err now cb =
    if per_request cb (some err)
    then ((if is_half_open cb.state then record cb { probing = false } else cb, none), false)
    else (record_failure (some err) now cb, true)

unfoldable pub record_result : Fault → ℕ → Breaker → Reply × Bool
unfolding record_success record_failed
record_result none now cb = (record_success now cb, true)
record_result (some err) now cb = record_failed err now cb

unfoldable pub reset : Breaker → Reply
reset cb = (
  record cb { state = closed; consecutive_failures = 0; probing = false; halt_reason = none },
  if is_closed cb.state
      then none
      else some (record { from = cb.state; to = closed; failures = 0; last_err = none }),
)

-- Any caller's call, with the time at which it is made.
pub data Call : Type 0 where
  allows resets : Call
  results : Fault → Call
  succeeds : Call
  fails : Fault → Call
  trips : Fault → Call

unfoldable pub step : Breaker → ℕ × Call → Breaker
unfolding allow reset record_result record_success record_failure trip
step cb (now, allows) = (allow now cb).0
step cb (now, resets) = (reset cb).0
step cb (now, results err) = (record_result err now cb).0.0
step cb (now, succeeds) = (record_success now cb).0
step cb (now, fails err) = (record_failure err now cb).0
step cb (now, trips err) = (trip err cb).0

unfoldable pub run : Breaker → List (ℕ × Call) → Breaker
unfolding step
run cb [] = cb
run cb (c ∷ cs) = run (step cb c) cs
