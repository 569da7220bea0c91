-- ===== src/Types.antt =====
-- types/types.go and utxo.SpentKey: an output, and the outpoint that names it. A value or a height is
-- an int64 that the indexer client and the node keep at or above zero.
use soqucoin_sdk.Prelude.{ℕ, String, ◌≡◌, ◌↔◌, Bool, true, ◌&&◌, arith, Eq, ◌==◌, nat_eq, string_Eq}

-- Also utxo.SpentKey.
pub record Outpoint : Type 0 where
  pub tx_id : String
  pub vout : ℕ

abbrev pub outpoint_beq : Outpoint → Outpoint → Bool
outpoint_beq a b = (a.tx_id == b.tx_id) && nat_eq a.vout b.vout

pub outpoint_beq_iff : (a b : Outpoint) → (outpoint_beq a b ≡ true) ↔ (a ≡ b)
outpoint_beq_iff a b = ground (arith, string_Eq.beq_iff a.tx_id b.tx_id)

instance abbrev pub outpoint_Eq : Eq Outpoint
outpoint_Eq = record { beq = outpoint_beq; beq_iff = outpoint_beq_iff }

pub record Utxo : Type 0 where
  pub outpoint : Outpoint
  pub open outpoint use *
  pub value : ℕ
  pub height : ℕ
  pub address : String
  pub asset_type : ℕ

abbrev pub asset_type_soq : ℕ
asset_type_soq = 0

abbrev pub asset_type_usdsoq : ℕ
asset_type_usdsoq = 1
