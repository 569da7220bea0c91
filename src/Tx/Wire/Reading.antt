-- ===== src/Tx/Wire/Reading.antt =====
-- The primitive fields that tx/builder.go writes read back, whatever follows them.
use mathlib.Core.List.{append_assoc, append-nil}
use soqucoin_sdk.Prelude.{
  ℕ, zero, suc, ◌+◌, ◌*◌, ◌/◌, ◌%◌, ◌<◌, ◌≡◌, refl, sym, ◌∙◌, ap, some, List, [], ◌∷◌, ◌++◌, map,
  length, arith, All, ltb, leb, Bool-cases, inl, inr, ◌⊎◌,
}
use soqucoin_sdk.Tx.Wire.{little_endian, write_var_int, write_bytes, write_each}
use soqucoin_sdk.Tx.Wire.Reader.{
  Reader, give, and_then, ◌▷◌, read_byte, read_number, read_var_int, read_times, read_bytes,
  read_list,
}

-- The reader takes exactly the bytes `w`, whatever follows, and gives `a`.
abbrev pub Reads {ℓ} : {A : Type ℓ} → Reader A → List ℕ → A → Type ℓ
Reads r w a = (rest : List ℕ) → r (w ++ rest) ≡ some (a, rest)

module _ {ℓ κ} {A : Type ℓ} {B : Type κ} where
  pub Reads-then :
      (r : Reader A) (f : A → Reader B) (w w' : List ℕ) (a : A) {b : B}
      → Reads r w a
      → Reads (f a) w' b
      → Reads (r ▷ f) (w ++ w') b
  Reads-then r f w w' a h h' rest =
      ap (λ bytes. and_then (r bytes) f) (append_assoc w w' rest)
      ∙ ap (λ o. and_then o f) (h (w' ++ rest))
      ∙ h' rest

  pub Reads-last :
      (r : Reader A) (f : A → B) (w : List ℕ) (a : A)
      → Reads r w a
      → Reads (r ▷ λ x. give (f x)) w (f a)
  Reads-last r f w a h rest = ap (λ o. and_then o (λ x. give (f x))) (h rest)

pub Reads-assoc {ℓ} :
    {A : Type ℓ} (r : Reader A) (u v w : List ℕ) (a : A)
    → Reads r (u ++ (v ++ w)) a
    → Reads r ((u ++ v) ++ w) a
Reads-assoc r u v w a h rest = ap (λ bytes. r (bytes ++ rest)) (append_assoc u v w) ∙ h rest

-- 256 ^ n
abbrev pub limit : ℕ → ℕ
limit zero = 1
limit (suc n) = 256 * limit n

pub read_number-little_endian :
    (n v : ℕ) → v < limit n → Reads (read_number n) (little_endian n v) v
unfolding read_number little_endian read_byte
read_number-little_endian zero v h rest = ap (λ x. some (x, rest)) (omega arith)
read_number-little_endian (suc n) v h rest =
    ap (λ o. and_then o (λ x. give (v % 256 + 256 * x)))
      (read_number-little_endian n (v / 256) (omega arith) rest)
    ∙ ap (λ x. some (x, rest)) (omega arith)

pub read_var_int-write_var_int : (v : ℕ) → v < limit 8 → Reads read_var_int (write_var_int v) v
unfolding read_var_int write_var_int read_byte
read_var_int-write_var_int v h rest = elim (Bool-cases (ltb v 253)) [
  | inl b ↦ rw b (rw b refl)
  | inr b ↦ rw b (elim (Bool-cases (leb v 65535)) [
    | inl c ↦ rw c (read_number-little_endian 2 v (ground (arith, c)) rest)
    | inr c ↦ rw c (elim (Bool-cases (leb v 4294967295)) [
      | inl d ↦ rw d (read_number-little_endian 4 v (ground (arith, d)) rest)
      | inr d ↦ rw d (read_number-little_endian 8 v h rest)
    ])
  ])
]

-- A list of things that read back as views of them.
pub read_times-write_each {ℓ} :
    {A B : Type ℓ} (P : A → Type ℓ) (r : Reader B) (write : A → List ℕ) (view : A → B)
    → ((x : A) → P x → Reads r (write x) (view x))
    → (xs : List A) → All P xs
    → Reads (read_times (length xs) r) (write_each write xs) (map view xs)
unfolding read_times write_each
read_times-write_each P r write view h [] hs = λ rest. refl
read_times-write_each P r write view h (x ∷ xs) hs =
    Reads-then r (λ y. read_times (length xs) r ▷ λ ys. give (y ∷ ys)) (write x)
      (write_each write xs) (view x) (h x hs.0)
      (Reads-last (read_times (length xs) r) (λ ys. view x ∷ ys) (write_each write xs) (map view xs)
        (read_times-write_each P r write view h xs hs.1))

pub read_list-write {ℓ} :
    {A B : Type ℓ} (P : A → Type ℓ) (r : Reader B) (write : A → List ℕ) (view : A → B)
    → ((x : A) → P x → Reads r (write x) (view x))
    → (xs : List A) → length xs < limit 8
    → All P xs
    → Reads (read_list r) (write_var_int (length xs) ++ write_each write xs) (map view xs)
unfolding read_list
read_list-write P r write view h xs fits hs =
    Reads-then read_var_int (λ n. read_times n r) (write_var_int (length xs)) (write_each write xs)
      (length xs) (read_var_int-write_var_int (length xs) fits)
      (read_times-write_each P r write view h xs hs)

pub read_times-bytes : (bs : List ℕ) → Reads (read_times (length bs) read_byte) bs bs
unfolding read_times read_byte
read_times-bytes [] rest = refl
read_times-bytes (b ∷ bs) rest =
    ap (λ o. and_then o (λ cs. give (b ∷ cs))) (read_times-bytes bs rest)

pub read_bytes-write_bytes :
    (bs : List ℕ) → length bs < limit 8 → Reads read_bytes (write_bytes bs) bs
unfolding read_bytes write_bytes
read_bytes-write_bytes bs fits =
    Reads-then read_var_int (λ n. read_times n read_byte) (write_var_int (length bs)) bs (length bs)
      (read_var_int-write_var_int (length bs) fits) (read_times-bytes bs)

-- The script of a signature.
pub read_bytes-empty : Reads read_bytes (write_var_int 0) []
unfolding read_bytes read_var_int read_byte write_var_int read_times
read_bytes-empty rest = refl

pub List-cases {ℓ} :
    {A : Type ℓ} (xs : List A) → (xs ≡ []) ⊎ ((y : A) × (ys : List A) × (xs ≡ y ∷ ys))
List-cases [] = inl refl
List-cases (y ∷ ys) = inr (y, ys, refl)

pub map_id {ℓ} : {A : Type ℓ} (xs : List A) → map (λ (x : A). x) xs ≡ xs
map_id [] = refl
map_id (x ∷ xs) = ap (λ ys. x ∷ ys) (map_id xs)

-- A list of things that read back as they are.
pub read_list-same {ℓ} :
    {A : Type ℓ} (P : A → Type ℓ) (r : Reader A) (write : A → List ℕ)
    → ((x : A) → P x → Reads r (write x) x)
    → (xs : List A) → length xs < limit 8
    → All P xs
    → Reads (read_list r) (write_var_int (length xs) ++ write_each write xs) xs
read_list-same P r write h xs fits hs rest =
    read_list-write P r write (λ x. x) h xs fits hs rest ∙ ap (λ ys. some (ys, rest)) (map_id xs)

pub Reads-end {ℓ} :
    {A : Type ℓ} (r : Reader A) (w : List ℕ) (a : A) → Reads r w a → r w ≡ some (a, [])
Reads-end r w a h = ap r (sym (append-nil w)) ∙ h []
