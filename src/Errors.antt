-- ===== src/Errors.antt =====
-- Go's `error` values. An error is the list of the sentinels that `errors.Is` finds in its chain:
-- `%w` keeps the list, `errors.Join` puts two together, and a text says nothing that is tested.
-- The sentinels are those of rpc, address, tx, keys, utxo, deposit, atomicfile, withdraw and context; `custom`
-- stands for those of a caller, and `panicked` for a run that panics.
use native.Mathlib.Decide.{ℕ_discrete}
use mathlib.Core.Bool.{decide}
use soqucoin_sdk.Prelude.{ℕ, Bool, false, ◌||◌, Option, none, some, List, [], ◌∷◌, ◌++◌}

pub data Kind : Type 0 where
  permanent transient unknown_outcome txid_mismatch unauthorized already_in_chain : Kind
  invalid_checksum invalid_length invalid_hrp invalid_char : Kind
  unsupported_witness_version invalid_version : Kind
  invalid_amount below_dust fee_too_high insufficient_funds input_overflow : Kind
  already_reserved persist_failed written_not_durable no_candidates input_limit_reached : Kind
  invalid_intent wrong_state conflict held not_abandonable reservation_lost exists stale : Kind
  unknown_reservation failed_intent : Kind
  canceled deadline_exceeded : Kind
  unsigned witness_form hash_type wrong_key bad_signature : Kind
  invalid_public_key digest_size key_hash_type panicked : Kind
  wrong_chain paused cache_age_below_pings : Kind
  custom : ℕ → Kind

pub Kind-discrete : Discrete Kind
Kind-discrete = hlevel ℕ_discrete

abbrev pub Error : Type 0
Error = List Kind

-- What a function with result `error` returns: `none` is nil.
abbrev pub Fault : Type 0
Fault = Option Error

-- errors.Is(err, kind)
unfoldable pub is : Kind → Error → Bool
unfolding Kind-discrete decide ℕ_discrete
is k [] = false
is k (x ∷ xs) = decide (Kind-discrete x k) || is k xs

-- errors.Is(err, e) for some e of a list
unfoldable pub is_any : List Kind → Error → Bool
unfolding is
is_any [] err = false
is_any (k ∷ ks) err = is k err || is_any ks err

-- errors.Join
abbrev pub join : Fault → Fault → Fault
join none f = f
join (some e) none = some e
join (some e) (some e') = some (e ++ e')
