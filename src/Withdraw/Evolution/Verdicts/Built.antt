-- ===== src/Withdraw/Evolution/Verdicts/Built.antt =====
-- What `Build` of withdraw/engine.go gives back when it returns no error.
use soqucoin_sdk.Prelude.{
  ◌+◌, ◌||◌, String, ◌≡◌, refl, sym, ◌∙◌, ap, false, none, some, List, [], ◌∷◌, arith, inl, inr,
  Option-cases, Bool-cases, string_Eq,
}
use soqucoin_sdk.Errors.{Error, Fault, is, written_not_durable, transient}
use soqucoin_sdk.Types.{Utxo}
use soqucoin_sdk.SpentSet.{SpentSet}
use soqucoin_sdk.SpentSet.Reserving
use soqucoin_sdk.Withdraw.Intent.{created, built, Intent, recorded}
use soqucoin_sdk.Withdraw.Engine.{
  Engine, World, Write, Reply, save, check_destination, context_ended, release, ttl,
}
use soqucoin_sdk.Withdraw.Engine.Building.{
  BuildAnswers, Signing, signed, not_signed, Selection, chosen, not_selected, defer_build,
  build_persisted, build_signed, build_reserved, build_selected, build_stored, build,
}
use soqucoin_sdk.Withdraw.Evolution.{Inv}
use soqucoin_sdk.Withdraw.Evolution.Verdicts.Saved.{with_stored_ok, fail_fails, saved_with_fails}

-- The reply names the intent `id`, built.
abbrev pub IsBuilt : String → Reply → Type 0
IsBuilt id r = (r.copy.id ≡ id) × (r.copy.state ≡ built)

defer_build_fails :
    (w : Write) (cause : Error) (i : Intent) (world : World)
    → (defer_build w cause i world).fault ≡ none
    → ⊥
unfolding defer_build
defer_build_fails w cause i world h =
    saved_with_fails cause
      (save w created (record i { attempts = i.attempts + 1; last_error = some cause }) world) h

build_persisted-IsBuilt :
    (a : BuildAnswers) (r : Reply)
    → r.copy.state ≡ built
    → (build_persisted a r).fault ≡ none
    → IsBuilt r.copy.id (build_persisted a r)
unfolding build_persisted
build_persisted-IsBuilt a r b h = elim (Option-cases r.fault) [
  | inl e ↦ rw (e, build_persisted) (refl, b)
  | inr (err, e) ↦ elim (Bool-cases (is written_not_durable err)) [
    | inl k ↦ absurd (ground (arith, h, e, k))
    | inr k ↦ absurd (ground (arith, h, e, k))
  ]
]

build_signed-IsBuilt :
    (a : BuildAnswers) (inputs : List Utxo) (i : Intent) (world : World) (s : Signing)
    → (build_signed a inputs i world s).fault ≡ none
    → IsBuilt i.id (build_signed a inputs i world s)
unfolding build_signed save
build_signed-IsBuilt a inputs i world (signed raw_hex tx_id) h =
    build_persisted-IsBuilt a
      (save a.save_write created
        (record i { raw_hex = raw_hex; tx_id = tx_id; inputs = recorded inputs; state = built })
        world)
      refl h
build_signed-IsBuilt a inputs i world (not_signed err) h =
    elim (Bool-cases (context_ended err || a.ended_signing)) [
      | inl b ↦ absurd (
          defer_build_fails a.save_write err i (release a.release_write i world)
            (ground (arith, h, b)))
      | inr b ↦
          absurd (
            fail_fails a.save_write a.release_write err false created i world
              (ground (arith, h, b)))
    ]

build_reserved-IsBuilt :
    (a : BuildAnswers) (inputs : List Utxo) (i : Intent) (world : World) (r : SpentSet × Fault)
    → (build_reserved a inputs i world r).fault ≡ none
    → IsBuilt i.id (build_reserved a inputs i world r)
unfolding build_reserved
build_reserved-IsBuilt a inputs i world (spent, none) h =
    build_signed-IsBuilt a inputs i (record world { spent = spent }) a.signing h
build_reserved-IsBuilt a inputs i world (spent, some err) h =
    absurd (defer_build_fails a.save_write err i (record world { spent = spent }) h)

build_selected-IsBuilt :
    (eng : Engine) (a : BuildAnswers) (i : Intent) (world : World) (s : Selection)
    → (build_selected eng a i world s).fault ≡ none
    → IsBuilt i.id (build_selected eng a i world s)
unfolding build_selected
build_selected-IsBuilt eng a i world (chosen inputs) h =
    build_reserved-IsBuilt a inputs i world
      (Reserving.reserve a.reserve_write.at a.reserve_write.outcome inputs i.id (ttl eng)
        world.spent)
      h
build_selected-IsBuilt eng a i world (not_selected err) h =
    elim (Bool-cases (is transient err || context_ended err || a.ended_selecting)) [
      | inl b ↦ absurd (defer_build_fails a.save_write err i world (ground (arith, h, b)))
      | inr b ↦
          absurd (
            fail_fails a.save_write a.release_write err false created i world
              (ground (arith, h, b)))
    ]

build_stored-IsBuilt :
    (eng : Engine) (a : BuildAnswers) (world : World) (i : Intent)
    → (build_stored eng a world i).fault ≡ none
    → IsBuilt i.id (build_stored eng a world i)
unfolding build_stored
build_stored-IsBuilt eng a world i h = elim (Option-cases (check_destination eng i.address)) [
  | inl e ↦
      rw (e, build_stored) (build_selected-IsBuilt eng a i world a.selection (ground (arith, h, e)))
  | inr (err, e) ↦
      absurd
        (fail_fails a.save_write a.release_write err false created i world (ground (arith, h, e)))
]

pub build-IsBuilt :
    (eng : Engine) (a : BuildAnswers) (i : Intent) (world : World)
    → Inv world
    → (build eng a i world).fault ≡ none
    → IsBuilt i.id (build eng a i world)
unfolding build
build-IsBuilt eng a i world v h =
    let (s, e, k) = with_stored_ok (created ∷ []) i world (build_stored eng a world) h in
    let t = build_stored-IsBuilt eng a world s (ap (λ (r : Reply). r.fault) (sym k) ∙ h) in
    (
      ap (λ (r : Reply). r.copy.id) k ∙ t.0 ∙ v.keyed i.id s e,
      ap (λ (r : Reply). r.copy.state) k ∙ t.1,
    )
