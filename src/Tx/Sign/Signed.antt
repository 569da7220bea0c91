-- ===== src/Tx/Sign/Signed.antt =====
-- What SignAll of tx/builder.go changes in a transaction, and what it leaves.
use mathlib.Core.List.{append_assoc}
use soqucoin_sdk.Prelude.{
  ℕ, ◌≡◌, refl, sym, ◌∙◌, ap, some, List, [], ◌∷◌, ◌++◌, length, length-append, get_elem?, arith,
  ◌==◌, string_Eq,
}
use soqucoin_sdk.Result.{ok, then_ok, bind_ok, unguarded, ok_injective}
use soqucoin_sdk.Tx.{TxInput, Transaction, sig_hash_all}
use soqucoin_sdk.Tx.Wire.{compute_sig_hash}
use soqucoin_sdk.Tx.Sign.{
  Signer, signed_input, set_at, check_sizes, sign_found, sign_input, sign_from, sign_all,
}
use soqucoin_sdk.Tx.Sign.Cuts.{get_elem?-length}

-- The input with the witness of a signature and a key of the right sizes, and nothing else changed.
pub record IsSigning (j j' : TxInput) : Type 0 where
  pub sig : List ℕ
  pub pk : List ℕ
  pub sig_length : length sig ≡ 2420
  pub pk_length : length pk ≡ 1312
  pub only_witness : j' ≡ record j { witness_data = (sig ++ 1 ∷ []) ∷ (0 ∷ pk) ∷ [] }

abbrev pub Signings : List TxInput → List TxInput → Type 0
Signings [] [] = Unit
Signings [] (j' ∷ js') = ⊥
Signings (j ∷ js) [] = ⊥
Signings (j ∷ js) (j' ∷ js') = IsSigning j j' × Signings js js'

set_at-length :
    (done : List TxInput) (j j' : TxInput) (left : List TxInput)
    → set_at (length done) j' (done ++ j ∷ left) ≡ done ++ j' ∷ left
unfolding set_at
set_at-length [] j j' left = refl
set_at-length (i ∷ done) j j' left = ap (λ js. i ∷ js) (set_at-length done j j' left)

module _ (sha256 : List ℕ → List ℕ) (s : Signer) where
  sign_found-ok :
      (t : Transaction) (n : ℕ) (j : TxInput) {t' : Transaction}
      → sign_found sha256 s t n sig_hash_all (some j) ≡ ok t'
      → (j' : TxInput) × (t' ≡ record t { inputs = set_at n j' t.inputs }) × IsSigning j j'
  unfolding check_sizes signed_input
  sign_found-ok t n j e =
      let (_, e1) = unguarded (j.address == "") _ _ e in
      let (sig, _, e2) =
        bind_ok (s.sign n j.address (compute_sig_hash sha256 t j sig_hash_all)) _ e1 in
      let (pk, _, e3) = bind_ok (s.public_key_for n j.address) _ e2 in
      let (sizes, e4) = then_ok (check_sizes sig pk) _ e3 in
      (
        signed_input sig pk 1 j,
        sym (ok_injective e4),
        record {
          sig = sig;
          pk = pk;
          sig_length = ground (arith, sizes);
          pk_length = ground (arith, sizes);
          only_witness = refl;
        },
      )

  sign_from-ok :
      (t : Transaction) (done left : List TxInput) {t' : Transaction}
      → t.inputs ≡ done ++ left
      → sign_from sha256 s (length done) left t ≡ ok t'
      → (js : List TxInput) × (t' ≡ record t { inputs = done ++ js }) × Signings left js
  unfolding sign_from sign_input
  sign_from-ok t done [] h e =
      ([], sym (ok_injective e) ∙ ap (λ (js : List TxInput). record t { inputs = js }) h, tt)
  sign_from-ok t done (j ∷ left) h e =
      let at_j = ap (λ js. get_elem? js (length done)) h ∙ get_elem?-length done j left in
      let (next, signed, e1) = bind_ok (sign_input sha256 s t (length done) sig_hash_all) _ e in
      let (j', next_is, signing) =
        sign_found-ok t (length done) j
          (ap (sign_found sha256 s t (length done) sig_hash_all) (sym at_j) ∙ signed) in
      let inputs_are =
        ap (λ (x : Transaction). x.inputs) next_is
        ∙ ap (set_at (length done) j') h
        ∙ set_at-length done j j' left
        ∙ sym (append_assoc done (j' ∷ []) left) in
      let (js, end, signings) =
        sign_from-ok next (done ++ j' ∷ []) left inputs_are
          (ap (λ n. sign_from sha256 s n left next) (length-append done (j' ∷ [])) ∙ e1) in
      (
        j' ∷ js,
        end
            ∙ ap (λ (x : Transaction). record x { inputs = (done ++ j' ∷ []) ++ js }) next_is
            ∙ ap (λ (is : List TxInput). record t { inputs = is }) (append_assoc done (j' ∷ []) js),
        (signing, signings),
      )

  pub sign_all-ok :
      (t : Transaction) {t' : Transaction}
      → sign_all sha256 s t ≡ ok t'
      → (js : List TxInput) × (t' ≡ record t { inputs = js }) × Signings t.inputs js
  unfolding sign_all
  sign_all-ok t e = sign_from-ok t [] t.inputs refl e
