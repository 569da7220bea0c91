-- ===== src/RefreshPolicy/Loop.antt =====
-- electrumx/subscribe.go: the closure `step` of `Client.run`, and the loop that calls it. What the
-- outside answers (the pass, the ping, the context) comes with each event.
pub mod Pacing
pub mod Trigger
pub mod Tests
use soqucoin_sdk.Prelude.{
  ℕ, ◌≡◌, Bool, true, false, ◌&&◌, Option, none, some, List, [], ◌∷◌, if◌then◌else◌,
}
use soqucoin_sdk.RefreshPolicy.{
  Event, start, retry, Outcome, PassResult, clean, error, classify_pass, Action, PolicyResult,
  RefreshPolicy, new_refresh_policy, on_event, on_result,
}

-- What the event meets: the pass that runs, or the error that a ping brought; and whether the
-- context has ended or `Stop` was called by then.
pub record Answer : Type 0 where
  pub made : Bool
  pub result : PassResult
  pub shut_down : Bool

-- `armed` is the wait of the retry timer that has not fired; a timer that is replaced never fires.
pub record Refresher : Type 0 where
  pub policy : RefreshPolicy
  pub armed : Option ℕ

-- What the event made the refresher do.
pub record Effect : Type 0 where
  pub passed : Option Bool  -- a pass ran; whether it was a full one
  pub reported : Option Outcome  -- what the policy was told
  pub reconnected : Bool

abbrev pub nothing : Effect
nothing = record { passed = none; reported = none; reconnected = false }

abbrev is_error : PassResult → Bool
is_error clean = false
is_error (error e) = true

-- The policy has decided: set the retry timer and rebuild the connection as it says.
carry_out : Option Bool → Outcome → RefreshPolicy × PolicyResult → Refresher × Effect
carry_out passed out (p, res) = (
  record { policy = p; armed = if res.set_retry then some res.backoff else none },
  record { passed = passed; reported = some out; reconnected = res.reconnect },
)

-- A pass or a ping has answered.
settle_pass : Option Bool → Bool → PassResult → Bool → Option ℕ → RefreshPolicy → Refresher × Effect
unfolding carry_out
settle_pass passed made result shut_down armed p =
    let (out, report) = classify_pass made result in
    if is_error result && shut_down
    then (record { policy = p; armed = armed }, record nothing { passed = passed })
    else if report
    then carry_out passed out (on_result p out)
    else (record { policy = p; armed = armed }, record nothing { passed = passed })

act_on : Option ℕ → Answer → RefreshPolicy × Action → Refresher × Effect
unfolding settle_pass
act_on armed a (p, act) =
    if act.run_pass
    then settle_pass (some act.full) a.made a.result a.shut_down armed p
    else if act.report
    then settle_pass none true a.result a.shut_down armed p
    else (record { policy = p; armed = armed }, nothing)

-- The retry timer fires once.
abbrev fired : Event → Option ℕ → Option ℕ
fired retry armed = none
fired _ armed = armed

unfoldable pub step : Refresher → Event × Answer → Refresher × Effect
unfolding act_on on_event on_result classify_pass
step r (ev, a) = act_on (fired ev r.armed) a (on_event r.policy ev)

-- `step(evStart, nil)`, before the loop.
unfoldable pub started : Answer → Refresher × Effect
unfolding step new_refresh_policy
started a = step (record { policy = new_refresh_policy; armed = none }) (start, a)

-- The events that the `select` of the loop hands over; the retry timer can fire only when armed.
abbrev pub can_wake : Refresher → Event → Bool
can_wake r start = false
can_wake r retry = elim r.armed [ none ↦ false | some t ↦ true ]
can_wake r _ = true

pub data Run (r : Refresher) : Refresher → List Effect → Type 0 where
  here : Run r r []
  wake :
      {s : Refresher} {effects : List Effect} (ev : Event) (a : Answer)
      → Run r s effects
      → can_wake s ev ≡ true
      → Run r (step s (ev, a)).0 ((step s (ev, a)).1 ∷ effects)
