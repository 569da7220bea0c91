-- ===== src/Deposit/Grounds.antt =====
-- What a pass of deposit/monitor.go credits, and on whose word.
use mathlib.Core.Path.{subst}
use soqucoin_sdk.Prelude.{
  ℕ, ◌+◌, ◌≤◌, ◌≡◌, refl, sym, ◌∙◌, ap, String, Bool, true, false, ◌||◌, Option, none, some, List,
  [], ◌∷◌, map, contains, string_Eq, All, nat_eq, ltb, arith, inl, inr, Bool-cases, Option-cases,
}
use soqucoin_sdk.Errors.{Fault}
use soqucoin_sdk.Result.{Result, ok, error, ok_injective, Result-cases}
use soqucoin_sdk.Types.{Outpoint, Utxo, outpoint_Eq}
use soqucoin_sdk.Text.{codes, lower, hex_encode}
use soqucoin_sdk.Address.{script_for}
use soqucoin_sdk.Tx.Sign.Cuts.{list_eq_sound}
use soqucoin_sdk.Deposit.{
  TxOut, Deposit, Outside, Config, Monitor, Pass, coinbase_maturity, refused, regressed, agrees,
  is_immature, deposit_of, ask, freshness, is_final,
}
use soqucoin_sdk.Deposit.Outputs.{
  judge, verify_with_node, judge_credited, recheck_credited, recorded, offered, by_ledger,
  with_credited, scan_utxo, scan_utxos, scan_script, scan_address, scan_addresses,
}
use soqucoin_sdk.Deposit.Calls.{
  Since, get_utxos, Freshness-cases, scan_utxo-Reached, freshness-Reached, scan_address-Reached,
}

module _ {W : Type 0} (o : Outside W) (c : Config) where
  -- What the node says of the deposit's output when it is asked in the world `asked`.
  pub record IsConfirmed (d : Deposit) (asked : W) : Type 0 where
    pub out : TxOut
    pub script : List ℕ
    pub answer : (o.get_tx_out d.outpoint asked).1 ≡ ok (some out)
    pub own_script : script_for (codes d.address) ≡ ok script
    pub same_script : map lower out.script_hex ≡ map lower (hex_encode script)
    pub same_value : out.value ≡ d.value
    pub same_depth : d.confirmations ≡ out.confirmations
    pub deep_enough : c.required d.value ≤ out.confirmations
    pub mature : out.coinbase ≡ true → coinbase_maturity c ≤ out.confirmations

  abbrev pub after_ledger : Deposit → W → W
  after_ledger d w = (o.is_credited d.outpoint w).0

  abbrev pub after_node : Deposit → W → W
  after_node d w = (o.get_tx_out d.outpoint (after_ledger d w)).0

  abbrev pub after_clock : Deposit → W → W
  after_clock d w = (o.clock (after_node d w)).0

  -- Four calls, each in the world that the one before it left: the ledger has not the deposit, the
  -- node confirms it, the clock gives its time, and the ledger records it. The calls before them lead
  -- from the world `from` to the one in which the ledger is asked.
  pub record IsGrounded (from : W) (d : Deposit) : Type 0 where
    pub asked_in : W
    pub in_pass : Since o from asked_in
    pub unrecorded : (o.is_credited d.outpoint asked_in).1 ≡ ok false
    pub confirmed : IsConfirmed d (after_ledger d asked_in)
    pub timed : d.credited_at ≡ (o.clock (after_node d asked_in)).1
    pub recorded : (o.credit d (after_clock d asked_in)).1 ≡ none

  some_injective : {d e : Deposit} → some d ≡ some e → d ≡ e
  some_injective h = cc

  agreed-IsConfirmed :
      (addr : String) (script : List ℕ) (u : Utxo) (tip now : ℕ) (out : TxOut) (w : W)
      → script_for (codes addr) ≡ ok script
      → (o.get_tx_out u.outpoint w).1 ≡ ok (some out)
      → agrees c script u out ≡ true
      → is_immature c out ≡ false
      → IsConfirmed (deposit_of addr u tip out now) w
  unfolding agrees is_immature deposit_of
  agreed-IsConfirmed addr script u tip now out w s a g i = record {
    out = out;
    script = script;
    answer = a;
    own_script = s;
    same_script =
        list_eq_sound (map lower out.script_hex) (map lower (hex_encode script))
          (ground (arith, g));
    same_value = ground (arith, g);
    same_depth = refl;
    deep_enough = ground (arith, g);
    mature = λ b. ground (arith, i, b);
  }

  judge-IsConfirmed :
      (addr : String) (script : List ℕ) (u : Utxo) (tip : ℕ) (m : Monitor W) (w : W)
      (r : Result (Option TxOut)) (d : Deposit)
      → script_for (codes addr) ≡ ok script
      → (o.get_tx_out u.outpoint w).1 ≡ r
      → (judge o c addr script u tip m r).1 ≡ ok (some d)
      → IsConfirmed d w
        × (d.outpoint ≡ u.outpoint)
        × (d.credited_at ≡ (o.clock m.world).1)
        × ((judge o c addr script u tip m r).0.world ≡ (o.clock m.world).0)
  unfolding deposit_of
  judge-IsConfirmed addr script u tip m w (error e) d s a h = elim (Bool-cases (refused e)) [
    | inl b ↦ absurd (ground (arith, h, b))
    | inr b ↦ absurd (ground (arith, h, b))
  ]
  judge-IsConfirmed addr script u tip m w (ok none) d s a h = absurd cc
  judge-IsConfirmed addr script u tip m w (ok (some out)) d s a h =
      elim (Bool-cases (agrees c script u out)) [
        | inr b ↦ absurd (ground (arith, h, b))
        | inl b ↦ elim (Bool-cases (is_immature c out)) [
          | inl i ↦ absurd (ground (arith, h, b, i))
          | inr i ↦
              (let now = (o.clock m.world).1 in
                let made : ok (some (deposit_of addr u tip out now)) ≡ ok (some d) =
                  ground (arith, h, b, i) in
                let left : (judge o c addr script u tip m (ok (some out))).0.world
                    ≡ (o.clock m.world).0 =
                  ground (arith, b, i) in
                subst
                  (λ (x : Deposit).
                    IsConfirmed x w
                    × (x.outpoint ≡ u.outpoint)
                    × (x.credited_at ≡ (o.clock m.world).1)
                    × ((judge o c addr script u tip m (ok (some out))).0.world
                        ≡ (o.clock m.world).0))
                  (some_injective (ok_injective made))
                  (agreed-IsConfirmed addr script u tip now out w s a b i, refl, refl, left))
        ]
      ]

  recorded-none :
      (d d' : Deposit) (m : Monitor W) (f : Fault)
      → (recorded o c d (m, f)).1 ≡ ok (some d')
      → (f ≡ none) × (d ≡ d')
  recorded-none d d' m none h = (refl, some_injective (ok_injective h))
  recorded-none d d' m (some e) h = absurd cc

  offered-recorded :
      (m : Monitor W) (r : Result (Option Deposit)) (d : Deposit)
      → (offered o c (m, r)).1 ≡ ok (some d)
      → (r ≡ ok (some d)) × ((o.credit d m.world).1 ≡ none)
  offered-recorded m (error e) d h = absurd cc
  offered-recorded m (ok none) d h = absurd cc
  offered-recorded m (ok (some d0)) d h =
      let (landed, same) =
        recorded-none d0 d (ask o c (o.credit d0) m).0 (o.credit d0 m.world).1 h in
      (ap (λ x. ok (some x)) same, ap (λ x. (o.credit x m.world).1) (sym same) ∙ landed)

  judge_credited-none :
      (addr : String) (u : Utxo) (m : Monitor W) (r : Result (Option TxOut)) (d : Deposit)
      → (judge_credited o c addr u m r).1 ≡ ok (some d)
      → ⊥
  judge_credited-none addr u m (error e) d h = ground (arith, h, Bool-cases (refused e))
  judge_credited-none addr u m (ok none) d h = cc
  judge_credited-none addr u m (ok (some out)) d h =
      ground (arith, h, Bool-cases (regressed c u.value out))

  recheck_credited-none :
      (addr : String) (u : Utxo) (pending : List Outpoint) (m : Monitor W) (d : Deposit)
      → (recheck_credited o c addr u pending m).1 ≡ ok (some d)
      → ⊥
  unfolding recheck_credited
  recheck_credited-none addr u pending m d h = elim (Bool-cases (contains pending u.outpoint)) [
    | inl b ↦ ground (arith, h, b)
    | inr b ↦
        judge_credited-none addr u (ask o c (o.get_tx_out u.outpoint) m).0
          (o.get_tx_out u.outpoint m.world).1 d (ground (arith, h, b))
  ]

  by_ledger-IsGrounded :
      (from : W) (addr : String) (script : List ℕ) (u : Utxo) (tip : ℕ) (pending : List Outpoint)
      (m : Monitor W) (w : W) (r : Result Bool) (d : Deposit)
      → Since o from w
      → script_for (codes addr) ≡ ok script
      → m.world ≡ (o.is_credited u.outpoint w).0
      → (o.is_credited u.outpoint w).1 ≡ r
      → (by_ledger o c addr script u tip pending m r).1 ≡ ok (some d)
      → IsGrounded from d
  unfolding verify_with_node
  by_ledger-IsGrounded from addr script u tip pending m w (error e) d i s l k h = absurd cc
  by_ledger-IsGrounded from addr script u tip pending m w (ok true) d i s l k h =
      absurd (recheck_credited-none addr u pending m d h)
  by_ledger-IsGrounded from addr script u tip pending m w (ok false) d i s l k h =
      let (m1, answer) = ask o c (o.get_tx_out u.outpoint) m in
      let verdict = judge o c addr script u tip m1 answer in
      let (found, landed) = offered-recorded verdict.0 verdict.1 d h in
      let (confirmed, same, timed, left) =
        judge-IsConfirmed addr script u tip m1 m.world answer d s refl found in
      let asked : m.world ≡ after_ledger d w = l ∙ ap (λ x. (o.is_credited x w).0) (sym same) in
      let told : m1.world ≡ after_node d w =
        ap (λ x. (o.get_tx_out x m.world).0) (sym same)
        ∙ ap (λ x. (o.get_tx_out d.outpoint x).0) asked in
      record {
        asked_in = w;
        in_pass = i;
        unrecorded = ap (λ x. (o.is_credited x w).1) same ∙ k;
        confirmed = subst (λ x. IsConfirmed d x) asked confirmed;
        timed = timed ∙ ap (λ x. (o.clock x).1) told;
        recorded = ap (λ x. (o.credit d x).1) (sym (left ∙ ap (λ x. (o.clock x).0) told)) ∙ landed;
      }

  scan_utxo-IsGrounded :
      (from : W) (addr : String) (script : List ℕ) (tip : ℕ) (pending : List Outpoint) (u : Utxo)
      (m : Monitor W) (d : Deposit)
      → Since o from m.world
      → script_for (codes addr) ≡ ok script
      → (scan_utxo o c addr script tip pending u m).1 ≡ ok (some d)
      → IsGrounded from d
  unfolding scan_utxo
  scan_utxo-IsGrounded from addr script tip pending u m d i s h =
      elim (Bool-cases (
        nat_eq u.height 0
        || ltb (tip + 1) (c.required u.value + u.height)
        || is_final o c u.outpoint m)) [
          | inl b ↦ absurd (ground (arith, h, b))
          | inr b ↦
              by_ledger-IsGrounded from addr script u tip pending
                (ask o c (o.is_credited u.outpoint) m).0 m.world
                (o.is_credited u.outpoint m.world).1 d i s refl refl (ground (arith, h, b))
        ]

  All-with_credited :
      (from : W) (ds : List Deposit) (found : Option Deposit)
      → All (IsGrounded from) ds
      → ((d : Deposit) → found ≡ some d → IsGrounded from d)
      → All (IsGrounded from) (with_credited o c found ds)
  All-with_credited from ds none h k = h
  All-with_credited from [] (some d) h k = (k d refl, tt)
  All-with_credited from (x ∷ ds) (some d) h k = (h.0, All-with_credited from ds (some d) h.1 k)

  scan_utxos-IsGrounded :
      (from : W) (addr : String) (script : List ℕ) (tip : ℕ) (pending : List Outpoint)
      (us : List Utxo) (p : Pass) (m : Monitor W)
      → Since o from m.world
      → script_for (codes addr) ≡ ok script
      → All (IsGrounded from) p.credited
      → All (IsGrounded from) (scan_utxos o c addr script tip pending us p m).1.0.credited
  unfolding scan_utxos
  scan_utxos-IsGrounded from addr script tip pending [] p m i s h = h
  scan_utxos-IsGrounded from addr script tip pending (u ∷ us) p m i s h =
      elim (Result-cases (scan_utxo o c addr script tip pending u m).1) [
        | inr (e, r) ↦ rw (r, All) h
        | inl (found, r) ↦
            rw (r, All)
              (scan_utxos-IsGrounded from addr script tip pending us
                (record p {
                  seen = u.outpoint ∷ p.seen;
                  credited = with_credited o c found p.credited;
                })
                (scan_utxo o c addr script tip pending u m).0
                (scan_utxo-Reached o c from addr script tip pending u m i) s
                (All-with_credited from p.credited found h (λ d e.
                  scan_utxo-IsGrounded from addr script tip pending u m d i s
                    (r ∙ ap (λ x. ok x) e))))
      ]

  scan_script-IsGrounded :
      (from : W) (addr : String) (tip : ℕ) (pending : List Outpoint) (p : Pass) (m : Monitor W)
      (r : Result (List ℕ))
      → Since o from m.world
      → script_for (codes addr) ≡ r
      → All (IsGrounded from) p.credited
      → All (IsGrounded from) (scan_script o c addr tip pending p m r).1.0.credited
  scan_script-IsGrounded from addr tip pending p m (error e) i s h = h
  scan_script-IsGrounded from addr tip pending p m (ok script) i s h =
      scan_utxos-IsGrounded from addr script tip pending (o.get_utxos addr m.world).1
        (record p { scanned = addr ∷ p.scanned }) (ask o c (o.get_utxos addr) m).0
        (get_utxos addr i) s h

  scan_address-IsGrounded :
      (from : W) (addr : String) (tip : ℕ) (pending : List Outpoint) (p : Pass) (m : Monitor W)
      → Since o from m.world
      → All (IsGrounded from) p.credited
      → All (IsGrounded from) (scan_address o c addr tip pending p m).1.0.credited
  unfolding scan_address
  scan_address-IsGrounded from addr tip pending p m i h =
      elim (Freshness-cases (freshness o c addr m).1) [
        | inl f ↦ rw (f, All) h
        | inr (inl f) ↦ rw (f, All) h
        | inr (inr f) ↦
            rw (f, All)
              (scan_script-IsGrounded from addr tip pending p (freshness o c addr m).0
                (script_for (codes addr)) (freshness-Reached o c from addr m i) refl h)
      ]

  pub scan_addresses-IsGrounded :
      (from : W) (tip : ℕ) (pending : List Outpoint) (addrs : List String) (p : Pass)
      (m : Monitor W)
      → Since o from m.world
      → All (IsGrounded from) p.credited
      → All (IsGrounded from) (scan_addresses o c tip pending addrs p m).1.0.credited
  unfolding scan_addresses
  scan_addresses-IsGrounded from tip pending [] p m i h = h
  scan_addresses-IsGrounded from tip pending (addr ∷ addrs) p m i h =
      let found = scan_address-IsGrounded from addr tip pending p m i h in
      elim (Option-cases (scan_address o c addr tip pending p m).1.1) [
        | inr (e, f) ↦ rw (f, All) found
        | inl f ↦
            rw (f, All)
              (scan_addresses-IsGrounded from tip pending addrs
                (scan_address o c addr tip pending p m).1.0
                (scan_address o c addr tip pending p m).0
                (scan_address-Reached o c from addr tip pending p m i) found)
      ]
