-- ===== src/Tx/Wire/Reader.antt =====
-- A reader of the transaction format of BIP 144, independent of tx/builder.go: what a node makes of the
-- bytes that the builder writes.
use soqucoin_sdk.Prelude.{
  ℕ, zero, suc, ◌+◌, ◌*◌, Bool, true, false, Option, none, some, List, [], ◌∷◌, map, ltb, nat_eq,
  if◌then◌else◌,
}
use soqucoin_sdk.Tx.{TxInput, TxOutput, Transaction}

-- What is read, and the bytes after it.
abbrev pub Reader {ℓ} : Type ℓ → Type ℓ
Reader A = List ℕ → Option (A × List ℕ)

abbrev pub give {ℓ} : {A : Type ℓ} → A → Reader A
give a bytes = some (a, bytes)

abbrev pub and_then {ℓ κ} :
    {A : Type ℓ} {B : Type κ} → Option (A × List ℕ) → (A → Reader B) → Option (B × List ℕ)
and_then none f = none
and_then (some (a, rest)) f = f a rest

infixl 5 ◌▷◌
abbrev pub ◌▷◌ {ℓ κ} : {A : Type ℓ} {B : Type κ} → Reader A → (A → Reader B) → Reader B
(r ▷ f) bytes = and_then (r bytes) f

unfoldable pub read_byte : Reader ℕ
read_byte [] = none
read_byte (b ∷ bs) = some (b, bs)

unfoldable pub read_number : ℕ → Reader ℕ
read_number zero = give 0
read_number (suc n) = read_byte ▷ λ b. read_number n ▷ λ v. give (b + 256 * v)

unfoldable pub read_var_int : Reader ℕ
read_var_int = read_byte ▷ λ b.
    if ltb b 253
    then give b
    else if nat_eq b 253
    then read_number 2
    else if nat_eq b 254
    then read_number 4
    else read_number 8

unfoldable pub read_times {ℓ} : {A : Type ℓ} → ℕ → Reader A → Reader (List A)
read_times zero r = give []
read_times (suc n) r = r ▷ λ a. read_times n r ▷ λ as_. give (a ∷ as_)

unfoldable pub read_bytes : Reader (List ℕ)
read_bytes = read_var_int ▷ λ n. read_times n read_byte

pub record WireInput : Type 0 where
  pub tx_id : List ℕ
  pub vout : ℕ
  pub script_sig : List ℕ
  pub sequence : ℕ

pub record WireTx : Type 0 where
  pub version : ℕ
  pub inputs : List WireInput
  pub outputs : List TxOutput
  pub witnesses : List (List (List ℕ))
  pub lock_time : ℕ

unfoldable pub read_input : Reader WireInput
read_input = read_times 32 read_byte ▷ λ id. read_number 4 ▷ λ vout. read_bytes ▷ λ script.
    read_number 4 ▷ λ sequence.
    give (record { tx_id = id; vout = vout; script_sig = script; sequence = sequence })

unfoldable pub read_output : Reader TxOutput
read_output = read_number 8 ▷ λ value.
    read_bytes ▷ λ script. give (record { value = value; script_pub_key = script })

unfoldable pub read_list {ℓ} : {A : Type ℓ} → Reader A → Reader (List A)
read_list r = read_var_int ▷ λ n. read_times n r

abbrev pub no_witnesses : List WireInput → List (List (List ℕ))
no_witnesses [] = []
no_witnesses (i ∷ is) = [] ∷ no_witnesses is

-- The witnesses, one for each input, when the marker and the flag stand before the inputs.
unfoldable pub read_witnesses : List WireInput → Bool → Reader (List (List (List ℕ)))
read_witnesses [] marked = give []
read_witnesses (i ∷ is) true =
    read_list read_bytes ▷ λ items. read_witnesses is true ▷ λ rest. give (items ∷ rest)
read_witnesses (i ∷ is) false = give ([] ∷ no_witnesses is)

unfoldable pub read_body : ℕ → Bool → Reader WireTx
read_body version marked = read_list read_input ▷ λ inputs. read_list read_output ▷ λ outputs.
    read_witnesses inputs marked ▷ λ witnesses. read_number 4 ▷ λ lock_time. give (record {
      version = version;
      inputs = inputs;
      outputs = outputs;
      witnesses = witnesses;
      lock_time = lock_time;
    })

-- A zero where the number of inputs stands is the marker, and a one after it the flag.
unfoldable pub read_marked : ℕ → Reader WireTx
read_marked version (zero ∷ suc zero ∷ bytes) = read_body version true bytes
read_marked version bytes = read_body version false bytes

unfoldable pub read_tx : Reader WireTx
read_tx = read_number 4 ▷ read_marked

-- What of a transaction stands in its bytes.
unfoldable pub wire_input : TxInput → WireInput
wire_input i = record { tx_id = i.tx_id; vout = i.vout; script_sig = []; sequence = i.sequence }

unfoldable pub wire_of : Transaction → WireTx
wire_of t = record {
  version = t.version;
  inputs = map wire_input t.inputs;
  outputs = t.outputs;
  witnesses = map (λ (i : TxInput). i.witness_data) t.inputs;
  lock_time = t.lock_time;
}
