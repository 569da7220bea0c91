-- ===== src/RefreshPolicy/Loop/Tests.antt =====
-- The theorems at a short history: a clean start, two reply timeouts, and a reconcile tick between.
use soqucoin_sdk.Prelude.{
  ◌≢◌, ◌≤◌, ◌≡◌, refl, true, false, none, some, List, [], ◌∷◌, ◌++◌, ◌⊎◌, is_some,
}
use soqucoin_sdk.RefreshPolicy.{kick, reconcile, retry, app_err, conn_err, no_reply, clean, error}
use soqucoin_sdk.RefreshPolicy.Loop.{
  Answer, Refresher, Effect, step, started, can_wake, Run, here, wake,
}
use soqucoin_sdk.RefreshPolicy.Loop.Pacing.{
  started-Inv, Run-Inv, Run-not_stuck, paced_wake_waits, kick_runs_at_once, reconcile_made_up,
}
use soqucoin_sdk.RefreshPolicy.Loop.Trigger.{last_reported, reconnect_trigger}

abbrev fine : Answer
fine = record { made = true; result = clean; shut_down = false }

abbrev silent : Answer
silent = record {
  made = true;
  result = error (record { is_connection = false; is_no_reply = true });
  shut_down = false;
}

abbrev refused : Answer
refused = record {
  made = true;
  result = error (record { is_connection = false; is_no_reply = false });
  shut_down = false;
}

abbrev up : Refresher
up = (started fine).0

abbrev timed_out : Refresher
timed_out = (step up (kick, silent)).0

abbrev deferred : Refresher
deferred = (step timed_out (reconcile, fine)).0

abbrev effects : List Effect
effects = (step timed_out (reconcile, fine)).1 ∷ (step up (kick, silent)).1 ∷ []

first_timeout : Run up timed_out ((step up (kick, silent)).1 ∷ [])
unfolding step started
first_timeout = wake kick silent here refl

history : Run up deferred effects
unfolding step started
history = wake reconcile fine (wake kick silent here refl) refl

Run-not_stuck_example :
    ((deferred.policy.paced ≡ false) ⊎ (can_wake deferred retry ≡ true))
    × ((deferred.policy.pending_full ≡ false) ⊎ (deferred.policy.paced ≡ true))
    × (1 ≤ deferred.policy.backoff)
    × (deferred.policy.backoff ≤ 60)
Run-not_stuck_example = Run-not_stuck fine history

paced_wake_waits_example :
    ((step timed_out (reconcile, fine)).1.passed ≡ none)
    × ((step timed_out (reconcile, fine)).1.reconnected ≡ false)
    × (deferred.policy.paced ≡ true)
    × (deferred.policy.backoff ≡ timed_out.policy.backoff)
    × (deferred.armed ≡ timed_out.armed)
unfolding step started
paced_wake_waits_example = paced_wake_waits timed_out reconcile fine refl (λ e. cc) refl

kick_runs_at_once_example :
    ((step up (kick, refused)).1.passed ≡ some up.policy.pending_full)
    × (((step up (kick, refused)).1.reported ≢ some app_err)
        ⊎ (((step up (kick, refused)).1.reconnected ≡ false)
            × (is_some (step up (kick, refused)).0.armed ≡ true)
            × ((step (step up (kick, refused)).0 (kick, fine)).1.passed ≡ some false)))
unfolding step started
kick_runs_at_once_example = kick_runs_at_once up refused fine refl

abbrev kicked : Refresher
kicked = (step deferred (kick, fine)).0

after_tick : Run deferred kicked ((step deferred (kick, fine)).1 ∷ [])
unfolding step started
after_tick = wake kick fine here refl

reconcile_made_up_example :
    ((step timed_out (reconcile, fine)).1.passed ≡ none)
    × (((retry ≢ retry) × ((step kicked (retry, fine)).1.passed ≡ none))
        ⊎ ((step kicked (retry, fine)).1.passed ≡ some true))
unfolding step started
reconcile_made_up_example =
    reconcile_made_up timed_out fine fine retry (Run-Inv first_timeout (started-Inv fine)) refl
      after_tick (refl, tt) refl

reconnect_trigger_example :
    ((step deferred (retry, silent)).1.reported ≡ some conn_err)
    ⊎ (((step deferred (retry, silent)).1.reported ≡ some no_reply)
        × (last_reported (effects ++ (started fine).1 ∷ []) ≡ some no_reply))
unfolding step started
reconnect_trigger_example = reconnect_trigger fine silent retry history refl
