-- ===== src/Tx/Sign/Cuts.antt =====
-- Slices of byte strings, and indices of a list, as tx/verify.go uses them.
use soqucoin_sdk.Prelude.{
  ℕ, zero, suc, ◌≤◌, ◌≡◌, refl, ap, true, some, List, [], ◌∷◌, ◌++◌, length, get_elem?, arith,
}
use soqucoin_sdk.Text.{list_eq}
use soqucoin_sdk.Tx.Sign.{cut}

pub cut-append : (n : ℕ) (bs : List ℕ) → bs ≡ (cut n bs).0 ++ (cut n bs).1
unfolding cut
cut-append zero bs = refl
cut-append (suc n) [] = refl
cut-append (suc n) (b ∷ bs) = ap (λ cs. b ∷ cs) (cut-append n bs)

pub length-cut : (n : ℕ) (bs : List ℕ) → n ≤ length bs → length (cut n bs).0 ≡ n
unfolding cut
length-cut zero bs h = refl
length-cut (suc n) [] h = absurd (omega arith)
length-cut (suc n) (b ∷ bs) h = omega (arith, length-cut n bs (omega arith))

pub cut-prefix : (xs ys : List ℕ) → cut (length xs) (xs ++ ys) ≡ (xs, ys)
unfolding cut
cut-prefix [] ys = refl
cut-prefix (x ∷ xs) ys = ap (λ (p : List ℕ × List ℕ). (x ∷ p.0, p.1)) (cut-prefix xs ys)

pub list_eq_sound : (xs ys : List ℕ) → list_eq xs ys ≡ true → xs ≡ ys
unfolding list_eq
list_eq_sound [] [] h = refl
list_eq_sound [] (y ∷ ys) h = absurd cc
list_eq_sound (x ∷ xs) [] h = absurd cc
list_eq_sound (x ∷ xs) (y ∷ ys) h = ground (arith, list_eq_sound xs ys)

pub list_eq_refl : (xs : List ℕ) → list_eq xs xs ≡ true
unfolding list_eq
list_eq_refl [] = refl
list_eq_refl (x ∷ xs) = ground (arith, list_eq_refl xs)

pub get_elem?-length {ℓ} :
    {A : Type ℓ} (xs : List A) (y : A) (ys : List A) → get_elem? (xs ++ y ∷ ys) (length xs) ≡ some y
get_elem?-length [] y ys = refl
get_elem?-length (x ∷ xs) y ys = get_elem?-length xs y ys
