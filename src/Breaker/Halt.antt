-- ===== src/Breaker/Halt.antt =====
-- A halt outlasts everything but `Reset`, and who may cause one.
use soqucoin_sdk.Prelude.{ℕ, ◌≡◌, refl, some, List, [], ◌∷◌, arith, All}
use soqucoin_sdk.Errors.{Fault}
use soqucoin_sdk.Breaker.{
  Breaker, halted, Call, allows, resets, results, succeeds, fails, trips, trip, halted_for, allow,
  step, run,
}

abbrev pub IsNotReset : ℕ × Call → Type 0
IsNotReset (now, resets) = ⊥
IsNotReset (now, c) = Unit

step_halted :
    (cb : Breaker) (c : ℕ × Call) → IsNotReset c → cb.state ≡ halted → (step cb c).state ≡ halted
unfolding step
step_halted cb (now, resets) n h = absurd n
step_halted cb (now, allows) n h = ground arith
step_halted cb (now, results err) n h = ground arith
step_halted cb (now, succeeds) n h = ground arith
step_halted cb (now, fails err) n h = ground arith
step_halted cb (now, trips err) n h = ground arith

run_halted :
    (cb : Breaker) (cs : List (ℕ × Call))
    → All IsNotReset cs
    → cb.state ≡ halted
    → (run cb cs).state ≡ halted
unfolding run
run_halted cb [] n h = h
run_halted cb (c ∷ cs) n h = run_halted (step cb c) cs n.1 (step_halted cb c n.0 h)

allow_halted :
    (cb : Breaker) (now : ℕ)
    → cb.state ≡ halted
    → allow now cb ≡ (cb, some (halted_for cb.halt_reason))
unfolding allow
allow_halted cb now h = ground arith

-- After a trip, whatever calls follow at whatever times, as long as none is `Reset`, the breaker is
-- still halted, and `Allow` refuses with the halt and changes nothing.
pub halt_outlasts :
    (cb : Breaker) (err : Fault) (cs : List (ℕ × Call)) (now : ℕ)
    → All IsNotReset cs
    → ((run (trip err cb).0 cs).state ≡ halted)
      × (allow now (run (trip err cb).0 cs)
          ≡ (run (trip err cb).0 cs, some (halted_for (run (trip err cb).0 cs).halt_reason)))
halt_outlasts cb err cs now n =
    let h = run_halted (trip err cb).0 cs n (unfold trip in refl) in
    (h, allow_halted (run (trip err cb).0 cs) now h)
