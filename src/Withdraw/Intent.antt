-- ===== src/Withdraw/Intent.antt =====
-- withdraw/engine.go: the states and the record of a withdrawal. An amount or a fee rate is an int64,
-- of which the program accepts the positive ones; a text that is empty until it is set is "", and a
-- zero `time.Time` is `none`. `LastError` is kept as the error that it prints.
use soqucoin_sdk.Prelude.{
  ℕ, String, ◌≡◌, ◌↔◌, Bool, true, not, Option, none, some, List, [], ◌∷◌, map, if◌then◌else◌, ◌==◌,
  nat_eq, string_Eq, arith,
}
use soqucoin_sdk.Errors.{Fault, held}
use soqucoin_sdk.Types.{Outpoint, Utxo, asset_type_soq}

pub data State : Type 0 where
  created built broadcast confirmed failed : State

pub State-discrete : Discrete State
State-discrete = hlevel

abbrev number : State → ℕ
number created = 0
number built = 1
number broadcast = 2
number confirmed = 3
number failed = 4

-- prev.State == from
abbrev pub state_eq : State → State → Bool
state_eq a b = nat_eq (number a) (number b)

pub state_eq_iff : (a b : State) → (state_eq a b ≡ true) ↔ (a ≡ b)
state_eq_iff a b = ground arith

-- withdraw.Outpoint: a persisted reference to a spent input.
pub record Input : Type 0 where
  pub outpoint : Outpoint
  pub value : ℕ
  pub address : String

pub record Intent : Type 0 where
  pub id : String
  pub address : String
  pub amount : ℕ
  pub fee_rate : ℕ
  pub state : State
  pub tx_id : String
  pub node_tx_id : String
  pub maybe_relayed : Bool
  pub sent_at : Option ℕ
  pub abandoned_at : Option ℕ
  pub hold : String
  pub raw_hex : String
  pub inputs : List Input
  pub attempts : ℕ
  pub last_error : Fault
  pub confirmations : ℕ
  pub created_at : ℕ
  pub updated_at : ℕ

abbrev pub hold_rejected_after_unknown : String
hold_rejected_after_unknown = "rejected after an attempt whose outcome is unknown"

abbrev pub node_tx_id_unknown : String
node_tx_id_unknown = "unknown"

-- heldErr; a text is set when it is not empty.
unfoldable pub held_err : Intent → Fault
held_err i =
    if not (i.node_tx_id == "")
    then some (held ∷ [])
    else if not (i.hold == "")
    then some (held ∷ [])
    else none

unfoldable pub hold_tx_id : Intent → String
hold_tx_id i = if not (i.node_tx_id == "") then i.node_tx_id else i.tx_id

-- Engine.inputs
unfoldable pub utxos : Intent → List Utxo
utxos i =
    map
      (λ o. record {
        outpoint = o.outpoint;
        value = o.value;
        height = 0;
        address = o.address;
        asset_type = asset_type_soq;
      })
      i.inputs

-- The inputs as Build records them.
unfoldable pub recorded : List Utxo → List Input
recorded = map (λ u. record { outpoint = u.outpoint; value = u.value; address = u.address })
