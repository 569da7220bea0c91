-- ===== src/Breaker/Opening.antt =====
-- When the breaker opens, how long it refuses, and that it admits one probe.
use soqucoin_sdk.Prelude.{
  Bool-cases, ◌≢◌, true, false, inl, inr, ◌⊎◌, ap, ◌∙◌, ℕ, ◌+◌, ◌≤◌, ◌<◌, ◌≡◌, refl, true, false,
  none, some, List, [], ◌∷◌, arith, length, is_some, map,
}
use soqucoin_sdk.Errors.{Error, Fault}
use soqucoin_sdk.Breaker.{
  Breaker, closed, open_circuit, half_open, Call, allows, fails, probe_in_flight, per_request,
  allow, record_failure, record_result, step, run,
}

abbrev pub failures : List (ℕ × Fault) → List (ℕ × Call)
failures = map (λ f. (f.0, fails f.1))

step_fails_closed :
    (cb : Breaker) (now : ℕ) (err : Fault)
    → cb.state ≡ closed
    → cb.consecutive_failures + 1 < cb.max_failures
    → ((step cb (now, fails err)).state ≡ closed)
      × ((step cb (now, fails err)).consecutive_failures ≡ cb.consecutive_failures + 1)
      × ((step cb (now, fails err)).max_failures ≡ cb.max_failures)
      × ((step cb (now, fails err)).cooldown ≡ cb.cooldown)
unfolding step
step_fails_closed cb now err h l = ground arith

-- Fewer failures than the limit leave the breaker closed.
run_fails_closed :
    (cb : Breaker) (fs : List (ℕ × Fault))
    → cb.state ≡ closed
    → cb.consecutive_failures + length fs < cb.max_failures
    → ((run cb (failures fs)).state ≡ closed)
      × ((run cb (failures fs)).consecutive_failures ≡ cb.consecutive_failures + length fs)
      × ((run cb (failures fs)).max_failures ≡ cb.max_failures)
      × ((run cb (failures fs)).cooldown ≡ cb.cooldown)
unfolding run
run_fails_closed cb [] h l = (h, omega arith, refl, refl)
run_fails_closed cb ((now, err) ∷ fs) h l =
    let s = step_fails_closed cb now err h (omega arith) in
    let r = run_fails_closed (step cb (now, fails err)) fs s.0 (omega arith) in ground arith

open_at_limit :
    (cb : Breaker) (now : ℕ) (err : Fault)
    → cb.state ≡ closed
    → cb.consecutive_failures + 1 ≡ cb.max_failures
    → ((record_failure err now cb).0.state ≡ open_circuit)
      × (is_some (record_failure err now cb).1 ≡ true)
      × ((record_failure err now cb).0.last_failure ≡ now)
      × ((record_failure err now cb).0.cooldown ≡ cb.cooldown)
unfolding record_failure
open_at_limit cb now err h l = ground arith

allow_open :
    (cb : Breaker) (now : ℕ)
    → cb.state ≡ open_circuit
    → ((cb.last_failure + cb.cooldown ≤ now)
        ⊎ (((allow now cb).0 ≡ cb) × (is_some (allow now cb).1 ≡ true)))
      × ((now < cb.last_failure + cb.cooldown)
          ⊎ (((allow now cb).0.state ≡ half_open) × ((allow now cb).1 ≡ none)))
unfolding allow
allow_open cb now h = (ground arith, ground arith)

-- A closed breaker with no failures stays closed, and lets every operation pass, through fewer
-- failures in a row than its limit. The failure that reaches the limit opens it and is notified;
-- from then on `Allow` refuses and changes nothing until the cooldown has passed, and then admits a
-- probe.
pub opens_at_limit :
    (cb : Breaker) (fs : List (ℕ × Fault)) (now later : ℕ) (err : Fault)
    → cb.state ≡ closed
    → cb.consecutive_failures ≡ 0
    → length fs + 1 ≡ cb.max_failures
    → let before = run cb (failures fs) in
      let after = (record_failure err now before).0 in
      ((allow later before).1 ≡ none)
      × (after.state ≡ open_circuit)
      × (is_some (record_failure err now before).1 ≡ true)
      × ((now + cb.cooldown ≤ later)
          ⊎ (((allow later after).0 ≡ after) × (is_some (allow later after).1 ≡ true)))
      × ((later < now + cb.cooldown)
          ⊎ (((allow later after).0.state ≡ half_open) × ((allow later after).1 ≡ none)))
opens_at_limit cb fs now later err h z l =
    let before = run cb (failures fs) in
    let after = (record_failure err now before).0 in
    let r = run_fails_closed cb fs h (omega arith) in
    let o = open_at_limit before now err r.0 (omega arith) in
    let a = allow_open after later o.0 in
    (
      unfold allow in ground arith,
      o.0,
      o.1,
      ground (arith, r.3, o.2, o.3, a.0),
      ground (arith, r.3, o.2, o.3, a.1),
    )

step_probing :
    (cb : Breaker) (now : ℕ)
    → cb.state ≡ half_open
    → cb.probing ≡ true
    → (step cb (now, allows) ≡ cb) × (allow now cb ≡ (cb, some probe_in_flight))
unfolding step
step_probing cb now s q = ground arith

run_probing :
    (cb : Breaker) (ts : List ℕ)
    → cb.state ≡ half_open
    → cb.probing ≡ true
    → run cb (map (λ t. (t, allows)) ts) ≡ cb
unfolding run
run_probing cb [] s q = refl
run_probing cb (t ∷ ts) s q =
    ap (λ b. run b (map (λ t. (t, allows)) ts)) (step_probing cb t s q).0 ∙ run_probing cb ts s q

-- One probe: when `Allow` has let the probe of a half-open breaker go, every further `Allow`, however
-- many are made and whenever, is refused and changes nothing until a result is recorded.
pub one_probe :
    (cb : Breaker) (now : ℕ) (later : List ℕ) (last : ℕ)
    → (allow now cb).1 ≡ none
    → (allow now cb).0.state ≡ half_open
    → let admitted = (allow now cb).0 in
      (run admitted (map (λ t. (t, allows)) later) ≡ admitted)
      × (allow last admitted ≡ (admitted, some probe_in_flight))
one_probe cb now later last a h =
    let p : (allow now cb).0.probing ≡ true = unfold allow in ground arith in
    (run_probing (allow now cb).0 later h p, (step_probing (allow now cb).0 last h p).1)

-- An error about one request counts for nothing: state, counters and times stay, and `RecordResult`
-- says so; only a probe that was in flight is over, so that the next one can go. Any other error is
-- a failure, counted once.
pub record_result_counts :
    (cb : Breaker) (err : Error) (now : ℕ)
    → ((per_request cb (some err) ≡ true)
        × ((record_result (some err) now cb).1 ≡ false)
        × ((record_result (some err) now cb).0.0
            ≡ record cb { probing = (record_result (some err) now cb).0.0.probing })
        × ((cb.state ≢ half_open) ⊎ ((allow now (record_result (some err) now cb).0.0).1 ≡ none)))
      ⊎ ((per_request cb (some err) ≡ false)
          × ((record_result (some err) now cb).1 ≡ true)
          × ((record_result (some err) now cb).0 ≡ record_failure (some err) now cb)
          × ((record_result (some err) now cb).0.0.total_failures ≡ cb.total_failures + 1))
unfolding record_result allow
record_result_counts cb err now = elim (Bool-cases (per_request cb (some err))) [
  | inl p ↦ inl (p, ground arith, ground arith, ground arith)
  | inr p ↦ inr (p, ground arith, ground arith, ground arith)
]
