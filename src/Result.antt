-- ===== src/Result.antt =====
-- Go's pair of a value and an error, of which one is used.
use soqucoin_sdk.Prelude.{◌≡◌, ◌⊎◌, inl, inr, refl, none, some, Bool, true, false, if◌then◌else◌}
use soqucoin_sdk.Errors.{Error, Fault}

pub data Result {ℓ} (A : Type ℓ) : Type ℓ where
  ok : A → Result A
  error : Error → Result A

-- `if err != nil { return err }`
infixl 5 ◌>>=◌
abbrev pub ◌>>=◌ {ℓ κ} : {A : Type ℓ} {B : Type κ} → Result A → (A → Result B) → Result B
ok a >>= f = f a
error e >>= f = error e

-- The same for a call that returns an error only.
infixr 4 ◌>>◌
abbrev pub ◌>>◌ {ℓ} : {A : Type ℓ} → Fault → Result A → Result A
none >> r = r
some e >> r = error e

module _ {ℓ} {A : Type ℓ} where
  pub ok_injective : {a b : A} → ok a ≡ ok b → a ≡ b
  ok_injective e = cc

  pub then_ok : (f : Fault) (r : Result A) {a : A} → (f >> r) ≡ ok a → (f ≡ none) × (r ≡ ok a)
  then_ok none r e = (refl, e)
  then_ok (some x) r e = absurd cc

  pub bind_ok {κ} :
      {B : Type κ} (r : Result A) (f : A → Result B) {b : B}
      → (r >>= f) ≡ ok b
      → (a : A) × (r ≡ ok a) × (f a ≡ ok b)
  bind_ok (ok a) f e = (a, refl, e)
  bind_ok (error x) f e = absurd cc

  pub unguarded :
      (b : Bool) (x : Error) (r : Result A) {a : A}
      → (if b then error x else r) ≡ ok a
      → (b ≡ false) × (r ≡ ok a)
  unguarded true x r e = absurd cc
  unguarded false x r e = (refl, e)

pub passed :
    (b : Bool) (e : Error) (f : Fault) → (if b then some e else f) ≡ none → (b ≡ false) × (f ≡ none)
passed true e f h = absurd cc
passed false e f h = (refl, h)

pub unless_refused :
    (b : Bool) (e : Error) (f : Fault) → (if b then f else some e) ≡ none → (b ≡ true) × (f ≡ none)
unless_refused true e f h = (refl, h)
unless_refused false e f h = absurd cc

pub Result-cases {ℓ} :
    {A : Type ℓ} (r : Result A) → ((a : A) × (r ≡ ok a)) ⊎ ((e : Error) × (r ≡ error e))
Result-cases (ok a) = inl (a, refl)
Result-cases (error e) = inr (e, refl)
