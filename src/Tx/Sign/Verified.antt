-- ===== src/Tx/Sign/Verified.antt =====
-- What VerifyInput and VerifyAll of tx/verify.go establish.
use mathlib.Core.List.{append_assoc}
use soqucoin_sdk.Prelude.{
  ℕ, ◌≡◌, refl, sym, ◌∙◌, ap, Bool, true, false, ◌&&◌, not, none, List, [], ◌∷◌, ◌++◌, length,
  length-append, get_elem?, nat_eq, arith, All, inl, inr, Option-cases,
}
use soqucoin_sdk.Errors.{witness_form}
use soqucoin_sdk.Result.{Result, ok, error, ◌>>◌, passed, unless_refused, then_ok, ok_injective}
use soqucoin_sdk.Text.{list_eq}
use soqucoin_sdk.Tx.{TxInput, Transaction, sig_hash_all}
use soqucoin_sdk.Tx.Wire.{compute_sig_hash}
use soqucoin_sdk.Tx.Sign.{
  cut, keys_verify, raw_key, raw_signature, check_digest, check_public_key, is_v1_program,
  program_of, verify_parts, verify_items, verify_witness, verify_input, verify_from, verify_all,
  verdict, verify_found,
}
use soqucoin_sdk.Tx.Sign.Cuts.{cut-append, length-cut, list_eq_sound, get_elem?-length}

raw_key-of_size : (pk : List ℕ) → length pk ≡ 1312 → raw_key pk ≡ pk
unfolding raw_key
raw_key-of_size [] h = refl
raw_key-of_size (b ∷ bs) h = ground (arith, h)

raw_signature-of_size : (sig : List ℕ) → length sig ≡ 2420 → raw_signature sig ≡ ok sig
unfolding raw_signature
raw_signature-of_size sig h = ground (arith, h)

pub keys_verify-of_size :
    (mldsa_verify : List ℕ → List ℕ → List ℕ → Bool) (pk digest sig : List ℕ)
    → length pk ≡ 1312
    → length sig ≡ 2420
    → keys_verify mldsa_verify pk digest sig
      ≡ (check_digest digest >> (check_public_key pk >> ok (mldsa_verify pk digest sig)))
unfolding keys_verify
keys_verify-of_size mldsa_verify pk digest sig hp hs =
    rw (raw_signature-of_size sig hs) (rw (raw_key-of_size pk hp) (rw hs refl))

is_v1_program_iff :
    (script : List ℕ) → is_v1_program script ≡ true → script ≡ 0x51 ∷ 0x20 ∷ program_of script
unfolding is_v1_program program_of
is_v1_program_iff [] h = absurd cc
is_v1_program_iff (a ∷ []) h = absurd cc
is_v1_program_iff (a ∷ b ∷ program) h = ground (arith, h)

module _ (sha256 : List ℕ → List ℕ) (mldsa_verify : List ℕ → List ℕ → List ℕ → Bool) where
  -- The input's witness is that of its script's key, and signs this transaction.
  pub record IsVerified (t : Transaction) (j : TxInput) : Type 0 where
    pub sig : List ℕ
    pub pk : List ℕ
    pub witness : j.witness_data ≡ (sig ++ 1 ∷ []) ∷ (0 ∷ pk) ∷ []
    pub sig_length : length sig ≡ 2420
    pub pk_length : length pk ≡ 1312
    pub script : j.script_pub_key ≡ 0x51 ∷ 0x20 ∷ sha256 pk
    pub valid_key : check_public_key pk ≡ none
    pub verifies : mldsa_verify pk (compute_sig_hash sha256 t j 1) sig ≡ true

  keys_verify-true :
      (pk digest sig : List ℕ)
      → length pk ≡ 1312
      → length sig ≡ 2420
      → keys_verify mldsa_verify pk digest sig ≡ ok true
      → (check_public_key pk ≡ none) × (mldsa_verify pk digest sig ≡ true)
  keys_verify-true pk digest sig hp hs e =
      let split = sym (keys_verify-of_size mldsa_verify pk digest sig hp hs) ∙ e in
      let (_, e1) = then_ok (check_digest digest) _ split in
      let (valid, e2) = then_ok (check_public_key pk) _ e1 in (valid, ok_injective e2)

  verdict-none : (r : Result Bool) → verdict sha256 mldsa_verify r ≡ none → r ≡ ok true
  verdict-none (error e) h = absurd cc
  verdict-none (ok true) h = refl
  verdict-none (ok false) h = absurd cc

  checked_parts-IsVerified :
      (t : Transaction) (j : TxInput) (sig : List ℕ) (type_ b : ℕ) (pk : List ℕ)
      → j.witness_data ≡ (sig ++ type_ ∷ []) ∷ (b ∷ pk) ∷ []
      → length sig ≡ 2420
      → length pk ≡ 1312
      → b ≡ 0
      → type_ ≡ 1
      → j.script_pub_key ≡ 0x51 ∷ 0x20 ∷ sha256 pk
      → keys_verify mldsa_verify pk (compute_sig_hash sha256 t j type_) sig ≡ ok true
      → IsVerified t j
  checked_parts-IsVerified t j sig type_ b pk w hs hp hb ht script e =
      let (valid, verifies) = keys_verify-true pk (compute_sig_hash sha256 t j type_) sig hp hs e in
      record {
        sig = sig;
        pk = pk;
        witness =
            w
            ∙ ap (λ x. (sig ++ x ∷ []) ∷ (b ∷ pk) ∷ []) ht
            ∙ ap (λ x. (sig ++ 1 ∷ []) ∷ (x ∷ pk) ∷ []) hb;
        sig_length = hs;
        pk_length = hp;
        script = script;
        valid_key = valid;
        verifies =
            ap (λ x. mldsa_verify pk (compute_sig_hash sha256 t j x) sig) (sym ht) ∙ verifies;
      }

  verify_parts-IsVerified :
      (t : Transaction) (j : TxInput) (sig after : List ℕ) (b : ℕ) (pk : List ℕ)
      → j.witness_data ≡ (sig ++ after) ∷ (b ∷ pk) ∷ []
      → length sig ≡ 2420
      → length after ≡ 1
      → length pk ≡ 1312
      → verify_parts sha256 mldsa_verify t j sig after b pk ≡ none
      → IsVerified t j
  unfolding verify_parts
  verify_parts-IsVerified t j sig [] b pk w hs ha hp e = absurd (omega (arith, ha))
  verify_parts-IsVerified t j sig (x ∷ y ∷ more) b pk w hs ha hp e = absurd (omega (arith, ha))
  verify_parts-IsVerified t j sig (type_ ∷ []) b pk w hs ha hp e =
      let (form, e1) = passed (not (nat_eq b 0 && is_v1_program j.script_pub_key)) _ _ e in
      let (kind, e2) = passed (not (nat_eq type_ sig_hash_all)) _ _ e1 in
      let (key, e3) = passed (not (list_eq (sha256 pk) (program_of j.script_pub_key))) _ _ e2 in
      let same = list_eq_sound (sha256 pk) (program_of j.script_pub_key) (ground (arith, key)) in
      let script = is_v1_program_iff j.script_pub_key (ground (arith, form)) in
      checked_parts-IsVerified t j sig type_ b pk w hs hp (ground (arith, form))
        (ground (arith, kind)) (script ∙ ap (λ p. 0x51 ∷ 0x20 ∷ p) (sym same)) (verdict-none _ e3)

  verify_items-IsVerified :
      (t : Transaction) (j : TxInput) (sig pk : List ℕ)
      → j.witness_data ≡ sig ∷ pk ∷ []
      → verify_items sha256 mldsa_verify t j sig pk ≡ none
      → IsVerified t j
  unfolding verify_items
  verify_items-IsVerified t j sig [] w e = absurd cc
  verify_items-IsVerified t j sig (b ∷ pk) w e =
      let raw = (cut 2420 sig).0 in
      let after = (cut 2420 sig).1 in
      let (sizes, e1) =
        unless_refused (nat_eq (length sig) 2421 && nat_eq (length (b ∷ pk)) 1313)
          (witness_form ∷ []) (verify_parts sha256 mldsa_verify t j raw after b pk) e in
      let sig_size : length sig ≡ 2421 = ground (arith, sizes) in
      let pk_size : length pk ≡ 1312 = ground (arith, sizes) in
      let raw_size = length-cut 2420 sig (omega (arith, sig_size)) in
      let after_size : length after ≡ 1 = omega (
        arith,
        sig_size,
        raw_size,
        ap (λ (xs : List ℕ). length xs) (cut-append 2420 sig),
        length-append raw after,
      ) in
      verify_parts-IsVerified t j raw after b pk
        (w ∙ ap (λ s. s ∷ (b ∷ pk) ∷ []) (cut-append 2420 sig)) raw_size after_size pk_size e1

  verify_witness-IsVerified :
      (t : Transaction) (j : TxInput) (items : List (List ℕ))
      → j.witness_data ≡ items
      → verify_witness sha256 mldsa_verify t j items ≡ none
      → IsVerified t j
  unfolding verify_witness
  verify_witness-IsVerified t j [] w e = absurd cc
  verify_witness-IsVerified t j (a ∷ []) w e = absurd cc
  verify_witness-IsVerified t j (a ∷ b ∷ c ∷ more) w e = absurd cc
  verify_witness-IsVerified t j (sig ∷ pk ∷ []) w e = verify_items-IsVerified t j sig pk w e

  -- The loop, after the inputs `done`.
  verify_from-IsVerified :
      (t : Transaction) (done left : List TxInput)
      → t.inputs ≡ done ++ left
      → verify_from sha256 mldsa_verify t (length done) left ≡ none
      → All (IsVerified t) left
  unfolding verify_from verify_input
  verify_from-IsVerified t done [] h e = tt
  verify_from-IsVerified t done (j ∷ left) h e =
      let at_j = ap (λ js. get_elem? js (length done)) h ∙ get_elem?-length done j left in
      elim (Option-cases (verify_input sha256 mldsa_verify t (length done))) [
        | inr (x, bad) ↦ absurd (ground (arith, e, bad))
        | inl good ↦ (
          verify_witness-IsVerified t j j.witness_data refl
              (ap (verify_found sha256 mldsa_verify t) (sym at_j) ∙ good),
          verify_from-IsVerified t (done ++ j ∷ []) left (h ∙ sym (append_assoc done (j ∷ []) left))
              (ap (λ n. verify_from sha256 mldsa_verify t n left) (length-append done (j ∷ []))
                ∙ ground (arith, e, good)),
        )
      ]

  -- A transaction that VerifyAll accepts has, on each of its inputs, the witness of a key whose SHA-256
  -- is the program of the output that the input spends, and a signature by it of the SIGHASH_ALL digest of
  -- this very transaction for this input, in the two items and the sizes of the consensus.
  pub verify_all-IsVerified :
      (t : Transaction) → verify_all sha256 mldsa_verify t ≡ none → All (IsVerified t) t.inputs
  unfolding verify_all
  verify_all-IsVerified t e = verify_from-IsVerified t [] t.inputs refl e
