-- ===== src/Withdraw/Evolution/Transitions/Builds.antt =====
-- `Submit` and `Build` let the records evolve.
use soqucoin_sdk.Prelude.{
  ℕ, ◌+◌, String, ◌≡◌, Bool, false, none, some, List, [], ◌∷◌, arith, inl, inr, Option-cases,
  Bool-cases, ◌||◌, nat_eq, ◌==◌, string_Eq,
}
use soqucoin_sdk.Errors.{Error, Fault, transient, written_not_durable, is}
use soqucoin_sdk.AtomicFile.{WriteOutcome}
use soqucoin_sdk.Types.{Utxo}
use soqucoin_sdk.SpentSet.{SpentSet}
use soqucoin_sdk.Withdraw.Intent.{state_eq_iff, built, recorded, created, Intent}
use soqucoin_sdk.Withdraw.Store
use soqucoin_sdk.Withdraw.Store.{Store}
use soqucoin_sdk.Withdraw.Store.Laws.{get-create, create_absent}
use soqucoin_sdk.Withdraw.Engine.{
  save, fail, Engine, World, Write, Reply, context_ended, saved_with, release, check_destination,
}
use soqucoin_sdk.Withdraw.Engine.Building.{
  defer_build, build_persisted, BuildAnswers, build_signed, signed, not_signed, Signing,
  build_reserved, build_selected, Selection, chosen, not_selected, build_stored, build,
  submit_valid, submit_created, submit_existing, submit, fresh,
}
use soqucoin_sdk.Withdraw.Evolution.{
  Evolves-refl, StoreEvolves, All-evolves, Inv, Good, Good-refl, save-Good,
}
use soqucoin_sdk.Withdraw.Evolution.Transitions.{
  Inv-spent, Good-spent, spent-Good, fail-Good, with_stored-Good,
}

module _ (a : BuildAnswers) (i : Intent) (world : World) (v : Inv world)
    (e : Store.get i.id world.store ≡ some i) (n : i.state ≡ created) where
  defer_build-Good : (w : Write) (cause : Error) → Good world (defer_build w cause i world).world
  unfolding defer_build saved_with
  defer_build-Good w cause =
      save-Good w created (record i { attempts = i.attempts + 1; last_error = some cause }) world v
        e (ground arith)

  fail_unbuilt-Good :
      (w : Write) (release_write : WriteOutcome) (cause : Error)
      → Good world (fail w release_write cause false created i world).world
  fail_unbuilt-Good w release_write cause =
      fail-Good w release_write cause false created i world v e (Evolves-refl i) (ground (arith, n))
        (inr n)

build_persisted-Good :
    (a : BuildAnswers) (r : Reply) {world : World}
    → Good world r.world
    → Good world (build_persisted a r).world
unfolding build_persisted release
build_persisted-Good a r g = elim (Option-cases r.fault) [
  | inl e ↦ rw (e, build_persisted) g
  | inr (err, e) ↦ elim (Bool-cases (is written_not_durable err)) [
    | inl b ↦ rw (e, build_persisted) (rw b g)
    | inr b ↦ rw (e, build_persisted) (rw b (Good-spent _ g))
  ]
]

build_signed-Good :
    (a : BuildAnswers) (inputs : List Utxo) (i : Intent) (world : World) (s : Signing)
    → Inv world
    → Store.get i.id world.store ≡ some i
    → i.state ≡ created
    → Good world (build_signed a inputs i world s).world
unfolding build_signed release
build_signed-Good a inputs i world (signed raw_hex tx_id) v e n =
    let i' : Intent = record i {
      raw_hex = raw_hex;
      tx_id = tx_id;
      inputs = recorded inputs;
      state = built;
    } in
    build_persisted-Good a (save a.save_write created i' world)
      (save-Good a.save_write created i' world v e (ground arith))
build_signed-Good a inputs i world (not_signed err) v e n =
    elim (Bool-cases (context_ended err || a.ended_signing)) [
      | inl b ↦ rw b (
          spent-Good _ (
            defer_build-Good a i (release a.release_write i world) (Inv-spent _ v) e n a.save_write
              err))
      | inr b ↦ rw b (fail_unbuilt-Good a i world v e n a.save_write a.release_write err)
    ]

build_reserved-Good :
    (a : BuildAnswers) (inputs : List Utxo) (i : Intent) (world : World) (s : SpentSet × Fault)
    → Inv world
    → Store.get i.id world.store ≡ some i
    → i.state ≡ created
    → Good world (build_reserved a inputs i world s).world
unfolding build_reserved
build_reserved-Good a inputs i world (spent, none) v e n = spent-Good spent (
    build_signed-Good a inputs i (record world { spent = spent }) a.signing (Inv-spent spent v) e n)
build_reserved-Good a inputs i world (spent, some err) v e n =
    spent-Good spent (
      defer_build-Good a i (record world { spent = spent }) (Inv-spent spent v) e n a.save_write
        err)

build_selected-Good :
    (eng : Engine) (a : BuildAnswers) (i : Intent) (world : World) (s : Selection)
    → Inv world
    → Store.get i.id world.store ≡ some i
    → i.state ≡ created
    → Good world (build_selected eng a i world s).world
unfolding build_selected
build_selected-Good eng a i world (chosen inputs) v e n =
    build_reserved-Good a inputs i world _ v e n
build_selected-Good eng a i world (not_selected err) v e n =
    elim (Bool-cases (is transient err || context_ended err || a.ended_selecting)) [
      | inl b ↦ rw b (defer_build-Good a i world v e n a.save_write err)
      | inr b ↦ rw b (fail_unbuilt-Good a i world v e n a.save_write a.release_write err)
    ]

build_stored-Good :
    (eng : Engine) (a : BuildAnswers) (world : World) (i : Intent)
    → Inv world
    → Store.get i.id world.store ≡ some i
    → i.state ≡ created
    → Good world (build_stored eng a world i).world
unfolding build_stored
build_stored-Good eng a world i v e n = elim (Option-cases (check_destination eng i.address)) [
  | inl c ↦ rw (c, build_stored) (build_selected-Good eng a i world a.selection v e n)
  | inr (err, c) ↦
      rw (c, build_stored) (fail_unbuilt-Good a i world v e n a.save_write a.release_write err)
]

pub build-Good :
    (eng : Engine) (a : BuildAnswers) (i : Intent) (world : World)
    → Inv world
    → Good world (build eng a i world).world
unfolding build
build-Good eng a i world v =
    with_stored-Good (created ∷ []) i world (build_stored eng a world) v
      (λ s e b. build_stored-Good eng a world s v e (ground (arith, state_eq_iff created s.state)))

-- A new record takes a free id, and every record that is there stays.
submit_valid_store :
    (same : String → String → Bool) (w : WriteOutcome) (i : Intent) (world : World)
    → (submit_valid same w i world).world
      ≡ record world { store = (Store.create w i world.store).0 }
unfolding submit_valid submit_created submit_existing
submit_valid_store same w i world = ground arith

create_evolves :
    (w : WriteOutcome) (i : Intent) (st : Store) → StoreEvolves st (Store.create w i st).0
create_evolves w i st = record {
  evolves = λ j a h. (
    a,
    ground (arith, get-create w i st j, create_absent w i st, string_Eq.beq_iff i.id j),
    Evolves-refl a,
  );
}

submit_valid-Good :
    (same : String → String → Bool) (w : WriteOutcome) (i : Intent) (world : World)
    → Inv world
    → Good world (submit_valid same w i world).world
submit_valid-Good same w i world v = rw (submit_valid_store same w i world) (record {
  records = create_evolves w i world.store;
  inv = record {
    keyed = λ j a h.
        ground (arith, get-create w i world.store j, string_Eq.beq_iff i.id j, v.keyed j a);
    recorded = All-evolves (create_evolves w i world.store) world.wire v.recorded;
  };
})

pub submit-Good :
    (same : String → String → Bool) (eng : Engine) (now : ℕ) (w : WriteOutcome)
    (id address : String) (amount fee_rate : ℕ) (world : World)
    → Inv world
    → Good world (submit same eng now w id address amount fee_rate world).world
unfolding submit
submit-Good same eng now w id address amount fee_rate world v =
    elim (Bool-cases ((id == "") || (address == "") || nat_eq amount 0 || nat_eq fee_rate 0)) [
      | inl b ↦ rw b (Good-refl v)
      | inr b ↦ elim (Option-cases (check_destination eng address)) [
        | inl c ↦ rw b (
            rw (c, submit)
              (submit_valid-Good same w (fresh now id address amount fee_rate) world v))
        | inr (err, c) ↦ rw b (rw (c, submit) (Good-refl v))
      ]
    ]
