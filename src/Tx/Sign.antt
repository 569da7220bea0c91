-- ===== src/Tx/Sign.antt =====
-- tx/builder.go and tx/verify.go: signing and verification, and keys.Verify with its checks. `sha256` and
-- `mldsa_verify` (of a key, a message and a signature) are those of the libraries. A signer may answer each
-- input differently.
pub mod Cuts
pub mod Verified
pub mod Signed
pub mod Unchanged
use soqucoin_sdk.Prelude.{
  ℕ, zero, suc, ◌+◌, ◌%◌, Bool, true, false, ◌&&◌, ◌||◌, not, Option, none, some, List, [], ◌∷◌,
  ◌++◌, String, ◌==◌, string_Eq, if◌then◌else◌, nat_eq, length, get_elem?,
}
use soqucoin_sdk.Errors.{
  unsigned, witness_form, hash_type, wrong_key, bad_signature, invalid_public_key, digest_size,
  key_hash_type, Error, Fault,
}
use soqucoin_sdk.Result.{Result, ok, error, ◌>>=◌, ◌>>◌}
use soqucoin_sdk.Types.{Utxo}
use soqucoin_sdk.Text.{list_eq}
use soqucoin_sdk.Tx.{
  sig_hash_all, dilithium_sig_size, dilithium_pub_key_size, FeeLimits, TxInput, Transaction,
}
use soqucoin_sdk.Tx.Wire.{compute_sig_hash, serialize_hex, tx_id}
use soqucoin_sdk.Tx.Build.{build_send, build_sweep}

-- The answers to the call for an input.
pub record Signer : Type 0 where
  pub sign : ℕ → String → List ℕ → Result (List ℕ)
  pub public_key_for : ℕ → String → Result (List ℕ)

unfoldable pub signed_input : List ℕ → List ℕ → ℕ → TxInput → TxInput
signed_input sig pk type_ j = record j {
  witness_data = (sig ++ (type_ % 256) ∷ []) ∷ (0x00 ∷ pk) ∷ [];
}

unfoldable pub set_at : ℕ → TxInput → List TxInput → List TxInput
set_at n j [] = []
set_at zero j (i ∷ is) = j ∷ is
set_at (suc n) j (i ∷ is) = i ∷ set_at n j is

unfoldable pub check_sizes : List ℕ → List ℕ → Fault
check_sizes sig pk =
    if nat_eq (length sig) dilithium_sig_size && nat_eq (length pk) dilithium_pub_key_size
    then none
    else some []

unfoldable pub check_digest : List ℕ → Fault
check_digest digest = if nat_eq (length digest) 32 then none else some (digest_size ∷ [])

unfoldable pub check_public_key : List ℕ → Fault
check_public_key [] = some []
check_public_key (b ∷ bs) =
    if not (nat_eq (length (b ∷ bs)) dilithium_pub_key_size)
    then some []
    else if nat_eq b 0xff
    then some (invalid_public_key ∷ [])
    else none

-- A witness-form key without its first byte.
unfoldable pub raw_key : List ℕ → List ℕ
raw_key [] = []
raw_key (b ∷ bs) = if nat_eq (length bs) dilithium_pub_key_size && nat_eq b 0 then bs else b ∷ bs

-- bs[:n] and bs[n:]
unfoldable pub cut : ℕ → List ℕ → List ℕ × List ℕ
cut zero bs = ([], bs)
cut (suc n) [] = ([], [])
cut (suc n) (b ∷ bs) = let (before, after) = cut n bs in (b ∷ before, after)

unfoldable pub checked_type : List ℕ × List ℕ → Result (List ℕ)
checked_type (sig, t ∷ []) = if nat_eq t sig_hash_all then ok sig else error (key_hash_type ∷ [])
checked_type (sig, _) = ok sig

-- A witness-form signature without its last byte.
unfoldable pub raw_signature : List ℕ → Result (List ℕ)
raw_signature sig =
    if nat_eq (length sig) (dilithium_sig_size + 1)
    then checked_type (cut dilithium_sig_size sig)
    else ok sig

module _ (mldsa_verify : List ℕ → List ℕ → List ℕ → Bool) where
  unfoldable pub keys_verify : List ℕ → List ℕ → List ℕ → Result Bool
  keys_verify pk digest signature =
      check_digest digest
      >> (raw_signature signature >>= λ sig.
          check_public_key (raw_key pk)
          >> (if nat_eq (length sig) dilithium_sig_size
              then ok (mldsa_verify (raw_key pk) digest sig)
              else error []))

module _ (sha256 : List ℕ → List ℕ) where
  abbrev pub sign_found : Signer → Transaction → ℕ → ℕ → Option TxInput → Result Transaction
  sign_found s t i type_ none = error []
  sign_found s t i type_ (some j) =
      if not (nat_eq type_ sig_hash_all)
      then error (hash_type ∷ [])
      else if j.address == ""
      then error []
      else s.sign i j.address (compute_sig_hash sha256 t j type_) >>= λ sig.
          s.public_key_for i j.address >>= λ pk.
          check_sizes sig pk
          >> ok (record t { inputs = set_at i (signed_input sig pk type_ j) t.inputs })

  unfoldable pub sign_input : Signer → Transaction → ℕ → ℕ → Result Transaction
  sign_input s t i type_ = sign_found s t i type_ (get_elem? t.inputs i)

  -- The inputs from index `i` on; `left` is those not yet signed, and bounds the loop.
  unfoldable pub sign_from : Signer → ℕ → List TxInput → Transaction → Result Transaction
  sign_from s i [] t = ok t
  sign_from s i (j ∷ left) t =
      sign_input s t i sig_hash_all >>= λ next. sign_from s (i + 1) left next

  unfoldable pub sign_all : Signer → Transaction → Result Transaction
  sign_all s t = sign_from s 0 t.inputs t

unfoldable pub is_v1_program : List ℕ → Bool
is_v1_program (op ∷ push ∷ program) =
    nat_eq (length program) 32 && nat_eq op 0x51 && nat_eq push 0x20
is_v1_program _ = false

-- spk[2:]
unfoldable pub program_of : List ℕ → List ℕ
program_of (op ∷ push ∷ program) = program
program_of _ = []

module _ (sha256 : List ℕ → List ℕ) (mldsa_verify : List ℕ → List ℕ → List ℕ → Bool) where
  abbrev pub verdict : Result Bool → Fault
  verdict (error e) = some (witness_form ∷ e)
  verdict (ok true) = none
  verdict (ok false) = some (bad_signature ∷ [])

  -- The parts of the witness: the signature, the bytes after it, the first byte of the key, its rest.
  unfoldable pub verify_parts : Transaction → TxInput → List ℕ → List ℕ → ℕ → List ℕ → Fault
  verify_parts t j sig [] b pk = some (witness_form ∷ [])
  verify_parts t j sig (type_ ∷ more) b pk =
      if not (nat_eq b 0 && is_v1_program j.script_pub_key)
      then some (witness_form ∷ [])
      else if not (nat_eq type_ sig_hash_all)
      then some (hash_type ∷ [])
      else if not (list_eq (sha256 pk) (program_of j.script_pub_key))
      then some (wrong_key ∷ [])
      else verdict (keys_verify mldsa_verify pk (compute_sig_hash sha256 t j type_) sig)

  unfoldable pub verify_items : Transaction → TxInput → List ℕ → List ℕ → Fault
  verify_items t j sig [] = some (witness_form ∷ [])
  verify_items t j sig (b ∷ pk) =
      let (raw, after) = cut dilithium_sig_size sig in
      if nat_eq (length sig) (dilithium_sig_size + 1)
        && nat_eq (length (b ∷ pk)) (dilithium_pub_key_size + 1)
      then verify_parts t j raw after b pk
      else some (witness_form ∷ [])

  unfoldable pub verify_witness : Transaction → TxInput → List (List ℕ) → Fault
  verify_witness t j [] = some (unsigned ∷ [])
  verify_witness t j (sig ∷ pk ∷ []) = verify_items t j sig pk
  verify_witness t j _ = some (witness_form ∷ [])

  abbrev pub verify_found : Transaction → Option TxInput → Fault
  verify_found t none = some []
  verify_found t (some j) = verify_witness t j j.witness_data

  unfoldable pub verify_input : Transaction → ℕ → Fault
  verify_input t i = verify_found t (get_elem? t.inputs i)

  unfoldable pub verify_from : Transaction → ℕ → List TxInput → Fault
  verify_from t i [] = none
  verify_from t i (j ∷ left) =
      let rest = verify_from t (i + 1) left in
      elim (verify_input t i) [ some e ↦ some e | none ↦ rest ]

  unfoldable pub verify_all : Transaction → Fault
  verify_all t = verify_from t 0 t.inputs

  unfoldable pub sign_and_verify : Signer → Transaction → Result Transaction
  sign_and_verify s t = sign_all sha256 s t >>= λ signed. verify_all signed >> ok signed

  unfoldable pub build_signed :
      FeeLimits → List Utxo → List ℕ → ℕ → List ℕ → ℕ → Signer → Result Transaction
  build_signed l inputs recipient amount change_script fee_rate s =
      build_send l inputs recipient amount change_script fee_rate >>= λ t. sign_and_verify s t

  unfoldable pub build_signed_sweep :
      FeeLimits → List Utxo → List ℕ → ℕ → Signer → Result Transaction
  build_signed_sweep l inputs destination fee_rate s =
      build_sweep l inputs destination fee_rate >>= λ t. sign_and_verify s t

  -- The raw hex and the id.
  unfoldable pub build_and_sign :
      FeeLimits → List Utxo → List ℕ → ℕ → List ℕ → ℕ → Signer → Result (List ℕ × List ℕ)
  build_and_sign l inputs recipient amount change_script fee_rate s =
      build_signed l inputs recipient amount change_script fee_rate s >>= λ t.
      ok (serialize_hex t, tx_id sha256 t)
