-- ===== src/Withdraw/Evolution/Verdicts/Submitting.antt =====
-- What a Submit of an id that the store holds answers.
use soqucoin_sdk.Prelude.{
  ℕ, String, ◌≡◌, ◌∙◌, Bool, true, false, none, some, [], ◌∷◌, arith, inl, inr, Bool-cases, nat_eq,
  if◌then◌else◌, string_Eq, ◌==◌, ◌||◌, refl, not,
}
use soqucoin_sdk.Errors.{conflict, exists, is}
use soqucoin_sdk.AtomicFile.{WriteOutcome}
use soqucoin_sdk.Withdraw.Intent.{Intent}
use soqucoin_sdk.Withdraw.Store
use soqucoin_sdk.Withdraw.Store.{Store}
use soqucoin_sdk.Withdraw.Engine.{Engine, World, check_destination}
use soqucoin_sdk.Withdraw.Engine.Building.{
  fresh, same_payment, submit_existing, submit_created, submit_valid, submit,
}

-- The request is complete.
abbrev pub is_complete : String → String → ℕ → ℕ → Bool
is_complete id address amount fee_rate =
    not ((id == "") || (address == "") || nat_eq amount 0 || nat_eq fee_rate 0)

create_known :
    (w : WriteOutcome) (i : Intent) (st : Store) {old : Intent}
    → Store.get i.id st ≡ some old
    → Store.create w i st ≡ (st, some (exists ∷ []))
unfolding Store.create
create_known w i st e = rw (e, Store.create) refl

module _ (same : String → String → Bool) where
  submit_valid_known :
      (w : WriteOutcome) (i : Intent) (world : World) {old : Intent}
      → Store.get i.id world.store ≡ some old
      → submit_valid same w i world
        ≡ submit_existing same world i.address i.amount i.fee_rate (some old)
  unfolding submit_valid submit_created is
  submit_valid_known w i world e = rw (create_known w i world.store e, submit_valid) (rw e refl)

  submit_past_checks :
      (eng : Engine) (now : ℕ) (w : WriteOutcome) (id address : String) (amount fee_rate : ℕ)
      (world : World)
      → is_complete id address amount fee_rate ≡ true
      → check_destination eng address ≡ none
      → submit same eng now w id address amount fee_rate world
        ≡ submit_valid same w (fresh now id address amount fee_rate) world
  unfolding submit
  submit_past_checks eng now w id address amount fee_rate world c d =
      elim (Bool-cases ((id == "") || (address == "") || nat_eq amount 0 || nat_eq fee_rate 0)) [
        | inl b ↦ absurd (ground (arith, b, c))
        | inr b ↦ rw b (rw (d, submit) refl)
      ]

  -- A Submit of a complete request, to an address of the network, whose id the store holds already,
  -- changes nothing and creates nothing; it answers with the stored intent, without an error if that
  -- is the same payment and with the conflict if it is another.
  pub submit_known :
      (eng : Engine) (now : ℕ) (w : WriteOutcome) (id address : String) (amount fee_rate : ℕ)
      (world : World) (old : Intent)
      → is_complete id address amount fee_rate ≡ true
      → check_destination eng address ≡ none
      → Store.get id world.store ≡ some old
      → submit same eng now w id address amount fee_rate world ≡ (record {
        world = world;
        intent = some old;
        created = false;
        fault =
            if same_payment same address amount fee_rate old then none else some (conflict ∷ []);
      })
  unfolding fresh submit_existing
  submit_known eng now w id address amount fee_rate world old c d e =
      submit_past_checks eng now w id address amount fee_rate world c d
      ∙ submit_valid_known w (fresh now id address amount fee_rate) world e
      ∙ ground arith
