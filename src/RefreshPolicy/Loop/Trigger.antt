-- ===== src/RefreshPolicy/Loop/Trigger.antt =====
-- When the refresher rebuilds its connection, in terms of what it was told over its whole life.
use soqucoin_sdk.Prelude.{◌≤◌, ◌<◌, ◌≡◌, true, Option, none, some, List, [], ◌∷◌, ◌++◌, ◌⊎◌, arith}
use soqucoin_sdk.RefreshPolicy.{Event, Outcome, conn_err, no_reply}
use soqucoin_sdk.RefreshPolicy.Loop.{Answer, Refresher, Effect, step, started, Run, here, wake}

-- The last outcome that the policy was told; the newest effect comes first.
abbrev pub last_reported : List Effect → Option Outcome
last_reported [] = none
last_reported (e ∷ es) = elim e.reported [ none ↦ last_reported es | some out ↦ some out ]

-- A counted timeout is the last outcome that was reported.
abbrev Counts : Refresher → List Effect → Type 0
Counts r effects =
    (r.policy.consecutive ≤ 1) × (0 < r.policy.consecutive → last_reported effects ≡ some no_reply)

started-Counts : (a : Answer) → Counts (started a).0 ((started a).1 ∷ [])
unfolding started
started-Counts a = ground arith

step-Counts :
    (r : Refresher) (effects : List Effect) (ev : Event) (a : Answer)
    → Counts r effects
    → Counts (step r (ev, a)).0 ((step r (ev, a)).1 ∷ effects)
unfolding step
step-Counts r effects ev a h = ground arith

Run-Counts :
    {r s : Refresher} {effects : List Effect} (base : List Effect)
    → Run r s effects
    → Counts r base
    → Counts s (effects ++ base)
Run-Counts base here h = h
Run-Counts base (wake {s = s} {effects = effects} ev a run w) h =
    step-Counts s (effects ++ base) ev a (Run-Counts base run h)

-- Reconnect trigger: after any events since the start, an event rebuilds the connection only if
-- what it reports is a lost connection, or a reply timeout right after another reply timeout, with
-- no other outcome reported between the two.
pub reconnect_trigger :
    (a b : Answer) {s : Refresher} {effects : List Effect} (ev : Event)
    → Run (started a).0 s effects
    → (step s (ev, b)).1.reconnected ≡ true
    → ((step s (ev, b)).1.reported ≡ some conn_err)
      ⊎ (((step s (ev, b)).1.reported ≡ some no_reply)
          × (last_reported (effects ++ (started a).1 ∷ []) ≡ some no_reply))
unfolding step
reconnect_trigger a b ev run h =
    ground (arith, Run-Counts ((started a).1 ∷ []) run (started-Counts a))
