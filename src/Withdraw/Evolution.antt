-- ===== src/Withdraw/Evolution.antt =====
-- How the records of a store may change, and what the calls of the Broadcaster have to do with them.
pub mod Transitions
pub mod History
pub mod Verdicts
use mathlib.Core.Path.{subst}
use soqucoin_sdk.Prelude.{
  ℕ, String, ◌≡◌, ◌≢◌, refl, sym, ◌∙◌, ap, Bool, true, false, ◌||◌, Option, none, some, List, [],
  ◌∷◌, arith, ◌⊎◌, inl, inr, All, ◌==◌, string_Eq, if◌then◌else◌, ◌&&◌, Bool-cases,
}
use soqucoin_sdk.AtomicFile.{WriteOutcome}
use soqucoin_sdk.Withdraw.Intent.{State, created, built, broadcast, confirmed, failed, Intent}
use soqucoin_sdk.Withdraw.Store
use soqucoin_sdk.Withdraw.Store.{Store}
use soqucoin_sdk.Withdraw.Store.Laws.{landed, get-update}
use soqucoin_sdk.Withdraw.Engine.{World, Sent, Write, Reply, hand_over, save}

-- The states in the order of the diagram: from the first one, the second can be reached.
abbrev pub leads_to : State → State → Bool
leads_to created t = true
leads_to built created = false
leads_to built t = true
leads_to broadcast broadcast = true
leads_to broadcast confirmed = true
leads_to broadcast failed = true
leads_to broadcast t = false
leads_to confirmed confirmed = true
leads_to confirmed t = false
leads_to failed failed = true
leads_to failed t = false

abbrev pub is_final : State → Bool
is_final confirmed = true
is_final failed = true
is_final s = false

-- What may become of a record: the request stays, the state goes forward, the transaction stays once
-- it is built, and nothing changes in a final state.
pub record Evolves (a b : Intent) : Type 0 where
  pub same_id : b.id ≡ a.id
  pub same_address : b.address ≡ a.address
  pub same_amount : b.amount ≡ a.amount
  pub same_fee_rate : b.fee_rate ≡ a.fee_rate
  pub forward : leads_to a.state b.state ≡ true
  pub same_bytes :
      (a.state ≡ created) ⊎ ((b.raw_hex ≡ a.raw_hex) × (b.tx_id ≡ a.tx_id) × (b.inputs ≡ a.inputs))
  pub same_if_final : (is_final a.state ≡ false) ⊎ (b ≡ a)

pub Evolves-refl : (a : Intent) → Evolves a a
Evolves-refl a = ground arith

forward_trans : (s t u : State) → leads_to s t ≡ true → leads_to t u ≡ true → leads_to s u ≡ true
forward_trans s t u h k = ground arith

of_created : (s t : State) → leads_to s t ≡ true → t ≡ created → s ≡ created
of_created s t h k = ground arith

pub Evolves-trans : {a b c : Intent} → Evolves a b → Evolves b c → Evolves a c
Evolves-trans {a} {b} {c} h k = record {
  same_id = k.same_id ∙ h.same_id;
  same_address = k.same_address ∙ h.same_address;
  same_amount = k.same_amount ∙ h.same_amount;
  same_fee_rate = k.same_fee_rate ∙ h.same_fee_rate;
  forward = forward_trans a.state b.state c.state h.forward k.forward;
  same_bytes = elim h.same_bytes [
    | inl e ↦ inl e
    | inr p ↦ elim k.same_bytes [
      | inl e ↦ inl (of_created a.state b.state h.forward e)
      | inr q ↦ inr (q.0 ∙ p.0, q.1 ∙ p.1, q.2 ∙ p.2)
    ]
  ];
  same_if_final = elim h.same_if_final [
    | inl e ↦ inl e
    | inr p ↦ elim k.same_if_final [
      | inl e ↦ inl (ap (λ (i : Intent). is_final i.state) (sym p) ∙ e)
      | inr q ↦ inr (q ∙ p)
    ]
  ];
}

-- Every record that the store holds has become one that it may.
pub record StoreEvolves (st st' : Store) : Type 0 where
  pub evolves :
      (j : String) (a : Intent)
      → Store.get j st ≡ some a
      → (b : Intent) × (Store.get j st' ≡ some b) × Evolves a b

pub StoreEvolves-refl : (st : Store) → StoreEvolves st st
StoreEvolves-refl st = record { evolves = λ j a h. (a, h, Evolves-refl a) }

pub StoreEvolves-trans :
    {st su sv : Store} → StoreEvolves st su → StoreEvolves su sv → StoreEvolves st sv
StoreEvolves-trans h k = record {
  evolves = λ j a e.
      let (b, f, p) = h.evolves j a e in
      let (c, g, q) = k.evolves j b f in (c, g, Evolves-trans p q);
}

-- The bytes that went out are those of a record that is built.
abbrev pub IsRecorded : Store → Sent → Type 0
IsRecorded st s =
    (b : Intent) × (Store.get s.id st ≡ some b)
    × (b.raw_hex ≡ s.raw_hex)
    × (b.tx_id ≡ s.tx_id)
    × (b.state ≢ created)

pub record Inv (w : World) : Type 0 where
  pub keyed : (j : String) (a : Intent) → Store.get j w.store ≡ some a → a.id ≡ j
  pub recorded : All (IsRecorded w.store) w.wire

-- What every transition does: the records evolve, and the invariant is kept.
pub record Good (w w' : World) : Type 0 where
  pub records : StoreEvolves w.store w'.store
  pub inv : Inv w'

pub Good-refl : {w : World} → Inv w → Good w w
Good-refl {w} h = record { records = StoreEvolves-refl w.store; inv = h }

pub Good-trans : {u v w : World} → Good u v → Good v w → Good u w
Good-trans h k = record { records = StoreEvolves-trans h.records k.records; inv = k.inv }

IsRecorded-evolves :
    {st st' : Store} → StoreEvolves st st' → (s : Sent) → IsRecorded st s → IsRecorded st' s
IsRecorded-evolves h s (b, e, raw, tx, n) =
    let (c, f, p) = h.evolves s.id b e in
    elim p.same_bytes [
      | inl k ↦ absurd (n k)
      | inr q ↦ (c, f, q.0 ∙ raw, q.1 ∙ tx, λ k. n (of_created b.state c.state p.forward k))
    ]

pub All-evolves :
    {st st' : Store}
    → StoreEvolves st st'
    → (l : List Sent) → All (IsRecorded st) l
    → All (IsRecorded st') l
All-evolves h [] a = a
All-evolves h (s ∷ l) a = (IsRecorded-evolves h s a.0, All-evolves h l a.1)

module _ (w : WriteOutcome) (i : Intent) (from : State) (st : Store) {old : Intent}
    (e : Store.get i.id st ≡ some old) (p : Evolves old i) where
  same_record :
      (j : String) (a : Intent)
      → Store.get j st ≡ some a
      → landed (Store.update w i from st).1 && (i.id == j) ≡ true
      → old ≡ a
  same_record j a h b = ground (arith, string_Eq.beq_iff i.id j)

  update_evolves : StoreEvolves st (Store.update w i from st).0
  update_evolves = record {
    evolves = λ j a h. elim (Bool-cases (landed (Store.update w i from st).1 && (i.id == j))) [
      | inl b ↦ (
        i,
        rw (get-update w i from st j) (rw b),
        subst (λ x. Evolves x i) (same_record j a h b) p,
      )
      | inr b ↦ (a, rw (get-update w i from st j) (rw b h), Evolves-refl a)
    ];
  }

  update_keyed :
      ((j : String) (a : Intent) → Store.get j st ≡ some a → a.id ≡ j)
      → (j : String) (a : Intent) → Store.get j (Store.update w i from st).0 ≡ some a
      → a.id ≡ j
  update_keyed k j a h = ground (arith, get-update w i from st j, string_Eq.beq_iff i.id j, k j a)

-- Saving a record over one that it may evolve from.
pub save-Good :
    (w : Write) (from : State) (i : Intent) (world : World) {old : Intent}
    → Inv world
    → Store.get i.id world.store ≡ some old
    → Evolves old (record i { updated_at = w.at })
    → Good world (save w from i world).world
unfolding save
save-Good w from i world v e p =
    let i' : Intent = record i { updated_at = w.at } in
    let records = update_evolves w.outcome i' from world.store e p in
    record {
      records = records;
      inv = record {
        keyed = update_keyed w.outcome i' from world.store e p v.keyed;
        recorded = All-evolves records world.wire v.recorded;
      };
    }

-- What a save that returned nil has left in the store.
pub save_stored :
    (w : Write) (from : State) (i : Intent) (world : World)
    → (save w from i world).fault ≡ none
    → Store.get i.id (save w from i world).world.store ≡ some (record i { updated_at = w.at })
unfolding save
save_stored w from i world h = ground (
  arith,
  get-update w.outcome (record i { updated_at = w.at }) from world.store i.id,
  string_Eq.beq_iff i.id i.id,
)

pub hand_over-Good :
    (i : Intent) (world : World)
    → Inv world
    → Store.get i.id world.store ≡ some i
    → i.state ≢ created
    → Good world (hand_over i world)
unfolding hand_over
hand_over-Good i world v e n = record {
  records = StoreEvolves-refl world.store;
  inv = record { keyed = v.keyed; recorded = ((i, e, refl, refl, n), v.recorded) };
}
