-- ===== src/Address/Charset.antt =====
-- The alphabet of address/bech32m.go: each of its 32 characters reads back, is in lower case, and is no '1'.
use soqucoin_sdk.Prelude.{
  ℕ, zero, suc, ◌<◌, ◌≡◌, refl, ◌∙◌, ap, Bool, true, false, ◌&&◌, not, Option, none, some, List, [],
  ◌∷◌, ◌++◌, map, length, arith, All, nat_eq, ltb,
}
use soqucoin_sdk.Result.{ok}
use soqucoin_sdk.Text.{lower, byte_len}
use soqucoin_sdk.Address.{charset, char_at, index_from, read_values, split_last_one}
use soqucoin_sdk.Address.Groups.{FitsIn}

-- The index is found, and the character is a small letter or a digit other than '1'.
abbrev reads_back : ℕ → Option ℕ → Bool
reads_back d none = false
reads_back d (some n) = nat_eq n d

abbrev is_plain : ℕ → Bool
is_plain c = nat_eq (lower c) c && ltb c 128 && not (nat_eq c 49)

abbrev is_good : ℕ → Bool
is_good d = reads_back d (index_from 0 charset (char_at charset d)) && is_plain (char_at charset d)

abbrev good_up_to : ℕ → Bool
good_up_to zero = true
good_up_to (suc n) = is_good n && good_up_to n

all_good : good_up_to 32 ≡ true
unfolding index_from char_at lower
all_good = refl

good_below : (n d : ℕ) → good_up_to n ≡ true → d < n → is_good d ≡ true
good_below zero d h k = absurd (omega (arith, k))
good_below (suc n) d h k = ground (arith, h, good_below n d)

reads_back-some : (d : ℕ) (o : Option ℕ) → reads_back d o ≡ true → o ≡ some d
reads_back-some d none h = absurd cc
reads_back-some d (some n) h = ap some (ground (arith, h))

pub index_from-char_at : (d : ℕ) → FitsIn 5 d → index_from 0 charset (char_at charset d) ≡ some d
index_from-char_at d h =
    let good = good_below 32 d all_good h in
    reads_back-some d (index_from 0 charset (char_at charset d)) (ground (arith, good))

-- What a text needs so that its case and its length in bytes are plain.
pub record IsPlain (c : ℕ) : Type 0 where
  pub small : lower c ≡ c
  pub ascii : c < 128

pub char_at-IsPlain : (d : ℕ) → FitsIn 5 d → IsPlain (char_at charset d)
char_at-IsPlain d h =
    let good = good_below 32 d all_good h in
    record { small = ground (arith, good); ascii = ground (arith, good) }

pub char_at-not_one : (d : ℕ) → FitsIn 5 d → nat_eq (char_at charset d) 49 ≡ false
char_at-not_one d h = ground (arith, good_below 32 d all_good h)

pub read_values-char_at :
    (vs : List ℕ) → All (FitsIn 5) vs → read_values (map (char_at charset) vs) ≡ ok vs
unfolding read_values
read_values-char_at [] h = refl
read_values-char_at (v ∷ vs) h =
    rw (index_from-char_at v h.0) (rw (read_values-char_at vs h.1) refl)

no_one : (vs : List ℕ) → All (FitsIn 5) vs → split_last_one (map (char_at charset) vs) ≡ none
unfolding split_last_one
no_one [] h = refl
no_one (v ∷ vs) h = rw (no_one vs h.1) (rw (char_at-not_one v h.0) refl)

last_one_here :
    (rest : List ℕ) → split_last_one rest ≡ none → split_last_one (49 ∷ rest) ≡ some ([], rest)
unfolding split_last_one
last_one_here rest h = rw h refl

pub split_last_one-text :
    (hrp vs : List ℕ)
    → All (FitsIn 5) vs
    → split_last_one (hrp ++ 49 ∷ map (char_at charset) vs) ≡ some (hrp, map (char_at charset) vs)
unfolding split_last_one
split_last_one-text [] vs h = last_one_here (map (char_at charset) vs) (no_one vs h)
split_last_one-text (c ∷ hrp) vs h = rw (split_last_one-text hrp vs h) refl

pub map-lower_lem : (cs : List ℕ) → All IsPlain cs → map lower cs ≡ cs
map-lower_lem [] h = refl
map-lower_lem (c ∷ cs) h =
    ap (λ x. x ∷ map lower cs) h.0.small ∙ ap (λ xs. c ∷ xs) (map-lower_lem cs h.1)

pub byte_len-plain : (cs : List ℕ) → All IsPlain cs → byte_len cs ≡ length cs
unfolding byte_len
byte_len-plain [] h = refl
byte_len-plain (c ∷ cs) h = ground (arith, h.0.ascii, byte_len-plain cs h.1)

pub text-IsPlain : (vs : List ℕ) → All (FitsIn 5) vs → All IsPlain (map (char_at charset) vs)
text-IsPlain [] h = tt
text-IsPlain (v ∷ vs) h = (char_at-IsPlain v h.0, text-IsPlain vs h.1)
