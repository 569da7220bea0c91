-- ===== src/RefreshPolicy/Loop/Pacing.antt =====
-- How fast the refresher may act: the invariant of its state, and what a backoff holds back.
use soqucoin_sdk.Prelude.{
  ◌≢◌, ◌≤◌, ◌≡◌, refl, true, false, none, some, List, ◌⊎◌, inl, inr, arith, is_some, All,
}
use soqucoin_sdk.RefreshPolicy.{Event, start, kick, reconcile, retry, app_err}
use soqucoin_sdk.RefreshPolicy.Loop.{
  Answer, Refresher, Effect, step, started, can_wake, Run, here, wake,
}

pub record Inv (r : Refresher) : Type 0 where
  pub armed_if_paced : r.policy.paced ≡ true → is_some r.armed ≡ true
  pub paced_if_deferred : r.policy.pending_full ≡ true → r.policy.paced ≡ true
  pub one_timeout : r.policy.consecutive ≤ 1
  pub backoff_positive : 1 ≤ r.policy.backoff
  pub backoff_capped : r.policy.backoff ≤ 60

pub started-Inv : (a : Answer) → Inv (started a).0
unfolding started
started-Inv a = ground arith

pub step-Inv :
    (r : Refresher) (ev : Event) (a : Answer)
    → can_wake r ev ≡ true
    → Inv r
    → Inv (step r (ev, a)).0
unfolding step
step-Inv r start a w h = cc
step-Inv r ev a w h = ground arith

pub Run-Inv : {r s : Refresher} {effects : List Effect} → Run r s effects → Inv r → Inv s
Run-Inv here h = h
Run-Inv (wake {s = s} ev a run w) h = step-Inv s ev a w (Run-Inv run h)

-- After any events the refresher is never stuck: while a connection backoff holds the wakes back,
-- the retry timer that ends it is armed, a deferred reconcile is held only by such a backoff, and
-- the backoff lies between one second and sixty.
pub Run-not_stuck :
    (a : Answer) {s : Refresher} {effects : List Effect}
    → Run (started a).0 s effects
    → ((s.policy.paced ≡ false) ⊎ (can_wake s retry ≡ true))
      × ((s.policy.pending_full ≡ false) ⊎ (s.policy.paced ≡ true))
      × (1 ≤ s.policy.backoff)
      × (s.policy.backoff ≤ 60)
Run-not_stuck a run = ground (arith, Run-Inv run (started-Inv a))

-- Pacing: while a connection backoff is pending, an event that is not the retry timer runs no pass,
-- rebuilds nothing and leaves the backoff and the timer as they are.
pub paced_wake_waits :
    (r : Refresher) (ev : Event) (a : Answer)
    → can_wake r ev ≡ true
    → ev ≢ retry
    → r.policy.paced ≡ true
    → ((step r (ev, a)).1.passed ≡ none)
      × ((step r (ev, a)).1.reconnected ≡ false)
      × ((step r (ev, a)).0.policy.paced ≡ true)
      × ((step r (ev, a)).0.policy.backoff ≡ r.policy.backoff)
      × ((step r (ev, a)).0.armed ≡ r.armed)
unfolding step
paced_wake_waits r ev a w ne h = ground arith

-- Kick liveness: with no connection backoff pending, a wake by a notification runs a pass at once, a
-- full one if a reconcile was deferred. When that pass only met an error that the server answered, the
-- connection is not rebuilt, a retry is armed, and the next notification again runs a pass at once.
pub kick_runs_at_once :
    (r : Refresher) (a b : Answer)
    → r.policy.paced ≡ false
    → ((step r (kick, a)).1.passed ≡ some r.policy.pending_full)
      × (((step r (kick, a)).1.reported ≢ some app_err)
          ⊎ (((step r (kick, a)).1.reconnected ≡ false)
              × (is_some (step r (kick, a)).0.armed ≡ true)
              × ((step (step r (kick, a)).0 (kick, b)).1.passed ≡ some false)))
unfolding step
kick_runs_at_once r a b h = ground arith

-- A deferred reconcile stays deferred until a pass runs, and that pass is a full one.
pending_full-held :
    (r : Refresher) (ev : Event) (a : Answer)
    → Inv r
    → can_wake r ev ≡ true
    → r.policy.pending_full ≡ true
    → ((ev ≢ retry)
        × ((step r (ev, a)).1.passed ≡ none)
        × ((step r (ev, a)).0.policy.pending_full ≡ true))
      ⊎ ((step r (ev, a)).1.passed ≡ some true)
unfolding step
pending_full-held r ev a i w h = ground arith

Run-pending_full :
    {r s : Refresher} {effects : List Effect}
    → Run r s effects
    → Inv r
    → r.policy.pending_full ≡ true
    → All (λ (f : Effect). f.passed ≡ none) effects
    → s.policy.pending_full ≡ true
Run-pending_full here i h n = h
Run-pending_full (wake {s = s} ev a run w) i h n =
    elim (pending_full-held s ev a (Run-Inv run i) w (Run-pending_full run i h n.1)) [
      | inl k ↦ k.2
      | inr k ↦ absurd cc
    ]

reconcile-pending_full :
    (r : Refresher) (tick : Answer)
    → r.policy.paced ≡ true
    → ((step r (reconcile, tick)).1.passed ≡ none)
      × ((step r (reconcile, tick)).0.policy.pending_full ≡ true)
unfolding step
reconcile-pending_full r tick h = ground arith

-- Reconcile liveness, the deferral: in a state that satisfies the invariant, a reconcile tick during a
-- connection backoff runs no pass; after it and any further events that run none, the next event that
-- can happen either runs none again, and then it is not the retry timer, or it runs a full pass.
pub reconcile_made_up :
    (r : Refresher) (tick a : Answer) (ev : Event) {s : Refresher} {effects : List Effect}
    → Inv r
    → r.policy.paced ≡ true
    → Run (step r (reconcile, tick)).0 s effects
    → All (λ (f : Effect). f.passed ≡ none) effects
    → can_wake s ev ≡ true
    → ((step r (reconcile, tick)).1.passed ≡ none)
      × (((ev ≢ retry) × ((step s (ev, a)).1.passed ≡ none))
          ⊎ ((step s (ev, a)).1.passed ≡ some true))
reconcile_made_up r tick a ev {s} i h run n w =
    let (quiet, held) = reconcile-pending_full r tick h in
    let i' = step-Inv r reconcile tick refl i in
    (
      quiet,
      elim (pending_full-held s ev a (Run-Inv run i') w (Run-pending_full run i' held n)) [
        | inl k ↦ inl (k.0, k.1)
        | inr k ↦ inr k
      ],
    )
