-- ===== src/Breaker/Tests.antt =====
-- The theorems at concrete breakers, and what counts as an error about one request.
use soqucoin_sdk.Prelude.{
  ◌⊎◌, ◌≢◌, Option, Bool, arith, ℕ, ◌+◌, ◌≤◌, ◌<◌, ◌≡◌, refl, true, false, none, some, List, [],
  ◌∷◌, map, is_some,
}
use soqucoin_sdk.Errors.{
  held, reservation_lost, stale, failed_intent, permanent, wrong_state, transient,
}
use soqucoin_sdk.Breaker.{
  Notice, Breaker, open_circuit, half_open, halted, Call, allows, fails, succeeds, probe_in_flight,
  halted_for, new, per_request, trip, allow, record_failure, record_result, step, run,
}
use soqucoin_sdk.Breaker.Invariant.{Inv, Edge, run-new-Inv, step-Edge}
use soqucoin_sdk.Breaker.Halt.{halt_outlasts}
use soqucoin_sdk.Breaker.Opening.{failures, opens_at_limit, one_probe, record_result_counts}

-- withdraw.ErrFailed wraps rpc.ErrPermanent and is about one request; what an operator must resolve
-- is not.
classified :
    (per_request (new 3 60) (some (failed_intent ∷ permanent ∷ [])) ≡ true)
    × (per_request (new 3 60) (some (wrong_state ∷ [])) ≡ true)
    × (per_request (new 3 60) (some (held ∷ [])) ≡ false)
    × (per_request (new 3 60) (some (reservation_lost ∷ [])) ≡ false)
    × (per_request (new 3 60) (some (stale ∷ [])) ≡ false)
unfolding per_request new
classified = (refl, refl, refl, refl, refl)

abbrev busy_day : List (ℕ × Call)
busy_day = (1, fails none) ∷ (2, fails none) ∷ (3, allows) ∷ (70, allows) ∷ (71, succeeds) ∷ []

run-new-Inv_example : Inv (run (new 2 60) busy_day)
run-new-Inv_example = run-new-Inv 2 60 busy_day (omega arith)

abbrev tripping : Breaker
tripping = record (new 1 60) { total_successes = 5 }

step-Edge_example :
    Edge tripping 9 (fails none) tripping.state (step tripping (9, fails none)).state
step-Edge_example = step-Edge tripping 9 (fails none)

abbrev after_halt : Breaker
after_halt = run (trip none (new 3 60)).0 busy_day

halt_outlasts_example :
    (after_halt.state ≡ halted)
    × (allow 500 after_halt ≡ (after_halt, some (halted_for after_halt.halt_reason)))
halt_outlasts_example = halt_outlasts (new 3 60) none busy_day 500 (omega arith)

abbrev two_failures : Breaker
two_failures = run (new 3 60) (failures ((1, none) ∷ (2, none) ∷ []))

abbrev opened : Breaker
opened = (record_failure none 3 two_failures).0

opens_at_limit_example :
    ((allow 63 two_failures).1 ≡ none)
    × (opened.state ≡ open_circuit)
    × (is_some (record_failure none 3 two_failures).1 ≡ true)
    × ((3 + 60 ≤ 63) ⊎ (((allow 63 opened).0 ≡ opened) × (is_some (allow 63 opened).1 ≡ true)))
    × ((63 < 3 + 60) ⊎ (((allow 63 opened).0.state ≡ half_open) × ((allow 63 opened).1 ≡ none)))
unfolding new
opens_at_limit_example =
    opens_at_limit (new 3 60) ((1, none) ∷ (2, none) ∷ []) 3 63 none refl refl refl

abbrev cooled : Breaker
cooled = record (new 3 60) { state = open_circuit; last_failure = 10; consecutive_failures = 3 }

abbrev probing : Breaker
probing = (allow 80 cooled).0

one_probe_example :
    (run probing (map (λ t. (t, allows)) (81 ∷ 900 ∷ [])) ≡ probing)
    × (allow 901 probing ≡ (probing, some probe_in_flight))
unfolding allow new
one_probe_example = one_probe cooled 80 (81 ∷ 900 ∷ []) 901 refl refl

abbrev replied : (Breaker × Option Notice) × Bool
replied = record_result (some (transient ∷ [])) 9 cooled

record_result_counts_example :
    ((per_request cooled (some (transient ∷ [])) ≡ true)
      × (replied.1 ≡ false)
      × (replied.0.0 ≡ record cooled { probing = replied.0.0.probing })
      × ((cooled.state ≢ half_open) ⊎ ((allow 9 replied.0.0).1 ≡ none)))
    ⊎ ((per_request cooled (some (transient ∷ [])) ≡ false)
        × (replied.1 ≡ true)
        × (replied.0 ≡ record_failure (some (transient ∷ [])) 9 cooled)
        × (replied.0.0.total_failures ≡ cooled.total_failures + 1))
record_result_counts_example = record_result_counts cooled (transient ∷ []) 9
