-- ===== src/RefreshPolicy.antt =====
-- electrumx/refreshpolicy.go. A method that mutates `*refreshPolicy` returns the new record. A
-- duration is a number of seconds: the policy starts from one and doubles.
pub mod Loop
use soqucoin_sdk.Prelude.{ℕ, ◌+◌, ◌*◌, Bool, true, false, if◌then◌else◌, ltb}

pub data Event : Type 0 where
  start kick reconcile ping_err retry : Event

pub data Outcome : Type 0 where
  ok conn_err no_reply app_err : Outcome

-- What `errIsConnection` and `errIsNoReply` say of an error.
pub record PassError : Type 0 where
  pub is_connection : Bool
  pub is_no_reply : Bool

pub data PassResult : Type 0 where
  clean : PassResult
  error : PassError → PassResult

unfoldable pub classify_outcome : PassResult → Outcome
classify_outcome clean = ok
classify_outcome (error e) =
    if e.is_connection then conn_err else if e.is_no_reply then no_reply else app_err

unfoldable pub classify_pass : Bool → PassResult → Outcome × Bool
unfolding classify_outcome
classify_pass false clean = (ok, false)
classify_pass made r = (classify_outcome r, true)

pub record Action : Type 0 where
  pub run_pass : Bool
  pub full : Bool
  pub report : Bool

abbrev pub no_action : Action
no_action = record { run_pass = false; full = false; report = false }

pub record PolicyResult : Type 0 where
  pub reconnect : Bool
  pub set_retry : Bool
  pub backoff : ℕ

pub record RefreshPolicy : Type 0 where
  pub backoff : ℕ
  pub consecutive : ℕ
  pub paced : Bool
  pub pending_full : Bool

-- maxReconnectBackoff, in seconds.
abbrev pub max_reconnect_backoff : ℕ
max_reconnect_backoff = 60

unfoldable pub new_refresh_policy : RefreshPolicy
new_refresh_policy = record { backoff = 1; consecutive = 0; paced = false; pending_full = false }

abbrev pass : Bool → Action
pass full = record { run_pass = true; full = full; report = false }

take_full : RefreshPolicy → RefreshPolicy × Action
take_full p = (record p { pending_full = false }, pass p.pending_full)

unfoldable pub on_event : RefreshPolicy → Event → RefreshPolicy × Action
unfolding take_full
on_event p start = (p, pass true)
on_event p kick = if p.paced then (p, no_action) else take_full p
on_event p reconcile =
    if p.paced then (record p { pending_full = true }, no_action) else (p, pass true)
on_event p ping_err =
    if p.paced
    then (p, no_action)
    else (p, record { run_pass = false; full = false; report = true })
on_event p retry = take_full (record p { paced = false })

-- The `switch` of `onResult`, once the backoff has moved up the ladder.
settle : Outcome → PolicyResult → RefreshPolicy → RefreshPolicy × PolicyResult
settle conn_err r p = (record p { paced = true; consecutive = 0 }, record r { reconnect = true })
settle no_reply r p =
    if ltb (p.consecutive + 1) 2
    then (record p { paced = true; consecutive = p.consecutive + 1 }, r)
    else (record p { paced = true; consecutive = 0 }, record r { reconnect = true })
settle _ r p = (record p { consecutive = 0 }, r)

unfoldable pub on_result : RefreshPolicy → Outcome → RefreshPolicy × PolicyResult
unfolding settle
on_result p ok = (
  record p { consecutive = 0; backoff = 1; paced = false },
  record { reconnect = false; set_retry = false; backoff = 0 },
)
on_result p out =
    settle out (record { reconnect = false; set_retry = true; backoff = p.backoff })
      (record p {
        backoff =
            if ltb max_reconnect_backoff (p.backoff * 2)
            then max_reconnect_backoff
            else p.backoff * 2;
      })
