-- ===== src/Genesis/Supply.antt =====
-- petri/cosmos/chain/chain.go: the bank's genesis stays in balance when accounts are funded.
use mathlib.Core.Path.{subst}
use ironbird.Base.{
  ◌≡◌, refl, sym, arith, ap, inl, inr, String, Option, none, some, List, [], ◌∷◌, ◌++◌, map, arith,
  Option-cases, All, NotIn, Distinct,
}
use ironbird.Base.Action.{Result, ok, err, Result-cases}
use ironbird.Base.Int.{ℤ, pos, ◌+ℤ◌, int_laws}
use ironbird.Genesis.{
  Coin, Balance, BankCoin, BankBalance, BankGenesis, Decimal, Amounts, bank_coin, bank_balance,
  set_amount, additional_supply, add_amounts, supply_map, supply_coin, update_bank,
}
use ironbird.Genesis.Sums.{
  only, sum_amounts, sum_coins, sum_balances, keys_of, additional_supply-sum, add_amounts-sum,
  set_amount-sum, add_amounts-Distinct, set_amount-NotIn, set_amount-Distinct,
}

-- Printed amounts read back.
abbrev pub Reads : Decimal → Type 0
Reads dec = (n : ℤ) → dec.parse (dec.print n) ≡ some n

abbrev pub or_zero : Option ℤ → ℤ
or_zero none = pos 0
or_zero (some n) = n

abbrev pub denoms : List BankCoin → List String
denoms [] = []
denoms (c ∷ cs) = c.denom ∷ denoms cs

-- The amount of a denomination in a list of coins, and in a list of balances.
abbrev pub total : Decimal → String → List BankCoin → ℤ
total dec denom [] = pos 0
total dec denom (c ∷ cs) = only denom c.denom (or_zero (dec.parse c.amount)) +ℤ total dec denom cs

abbrev pub held : Decimal → String → List BankBalance → ℤ
held dec denom [] = pos 0
held dec denom (b ∷ bs) = total dec denom b.coins +ℤ held dec denom bs

-- Each denomination is listed once in the supply, with what all accounts hold of it.
pub record IsBalanced (dec : Decimal) (bank : BankGenesis) : Type 0 where
  pub once : Distinct (denoms bank.supply)
  pub matches : (denom : String) → total dec denom bank.supply ≡ held dec denom bank.balances

-- What an update with the balances `bals` makes of `bank`.
pub record Funded (dec : Decimal) (bals : List Balance) (bank new : BankGenesis) : Type 0 where
  pub balances : new.balances ≡ bank.balances ++ map (bank_balance dec) bals
  pub once : Distinct (denoms new.supply)
  pub supply :
      (denom : String)
      → total dec denom new.supply ≡ total dec denom bank.supply +ℤ sum_balances denom bals

-- What the map of the supply holds.
record Mapped (dec : Decimal) (cs : List BankCoin) (m r : Amounts) : Type 0 where
  sums : (denom : String) → sum_amounts denom r ≡ total dec denom cs +ℤ sum_amounts denom m
  once : Distinct (keys_of r)

ok_inj : {E A : Type 0} {a b : A} → Path (Result E A) (ok a) (ok b) → a ≡ b
ok_inj {a = a} e = ap (value_or a) e
  where
    value_or : {E A : Type 0} → A → Result E A → A
    value_or a (ok b) = b
    value_or a (err e) = a

err-not-ok : {E A : Type 0} {x : E} {a : A} → Path (Result E A) (err x) (ok a) → ⊥
err-not-ok e = ground arith

module _ (dec : Decimal) where
  supply_map-Mapped :
      (cs : List BankCoin) (m r : Amounts)
      → supply_map dec cs m ≡ ok r
      → Distinct (denoms cs)
      → All (λ d. NotIn d (keys_of m)) (denoms cs)
      → Distinct (keys_of m)
      → Mapped dec cs m r
  unfolding supply_map
  supply_map-Mapped [] m r e once fresh h =
      subst (Mapped dec [] m) (ok_inj e) (record { sums = λ denom. omega int_laws; once = h })
  supply_map-Mapped (c ∷ cs) m r e once fresh h = elim (Option-cases (dec.parse c.amount)) [
    | inl unread ↦ elim (err-not-ok (rw (unread, supply_map) at e)) [ ]
    | inr (n, read) ↦ entered n read (
        supply_map-Mapped cs (set_amount c.denom n m) r (rw (read, supply_map) at e) once.1
          (All-both (denoms cs) once.0 fresh.1 n) (set_amount-Distinct c.denom n m fresh.0 h))
  ]
    where
      entered :
          (n : ℤ)
          → dec.parse c.amount ≡ some n
          → Mapped dec cs (set_amount c.denom n m) r
          → Mapped dec (c ∷ cs) m r
      entered n read p = record {
        sums = λ denom.
            rw read (grind (int_laws, p.sums denom, set_amount-sum denom c.denom n m fresh.0));
        once = p.once;
      }

      All-both :
          (ds : List String)
          → NotIn c.denom ds
          → All (λ d. NotIn d (keys_of m)) ds
          → (n : ℤ) → All (λ d. NotIn d (keys_of (set_amount c.denom n m))) ds
      All-both [] a b n = tt
      All-both (d ∷ ds) a b n =
          (set_amount-NotIn d c.denom n m (λ p. a.0 (sym p)) b.0, All-both ds a.1 b.1 n)

  -- The supply that is written is what the map holds.
  total-supply :
      Reads dec
      → (denom : String) (m : Amounts)
      → total dec denom (map (supply_coin dec) m) ≡ sum_amounts denom m
  total-supply law denom [] = refl
  total-supply law denom ((d, n) ∷ m) = rw (law n) (grind (int_laws, total-supply law denom m))

  denoms-supply : (m : Amounts) → denoms (map (supply_coin dec) m) ≡ keys_of m
  denoms-supply [] = refl
  denoms-supply ((d, n) ∷ m) = ap (λ ds. d ∷ ds) (denoms-supply m)

  total-coins :
      Reads dec
      → (denom : String) (cs : List Coin)
      → total dec denom (map (bank_coin dec) cs) ≡ sum_coins denom cs
  total-coins law denom [] = refl
  total-coins law denom (c ∷ cs) = rw (law c.amount) (grind (int_laws, total-coins law denom cs))

  held-balances :
      Reads dec
      → (denom : String) (old : List BankBalance) (bals : List Balance)
      → held dec denom (old ++ map (bank_balance dec) bals)
        ≡ held dec denom old +ℤ sum_balances denom bals
  held-balances law denom [] [] = omega int_laws
  held-balances law denom [] (b ∷ bals) =
      grind (int_laws, held-balances law denom [] bals, total-coins law denom b.coins)
  held-balances law denom (o ∷ old) bals = grind (int_laws, held-balances law denom old bals)

  -- The amounts that are written.
  abbrev final : List Balance → Amounts → Amounts
  final bals m = add_amounts (additional_supply bals []) m

  written :
      Reads dec
      → (bals : List Balance) (bank : BankGenesis) (m : Amounts) → Mapped dec bank.supply [] m
      → Funded dec bals bank (record {
        balances = bank.balances ++ map (bank_balance dec) bals;
        supply = map (supply_coin dec) (final bals m);
      })
  written law bals bank m p = record {
    balances = refl;
    once =
        subst Distinct (sym (denoms-supply (final bals m)))
          (add_amounts-Distinct (additional_supply bals []) m p.once);
    supply = λ denom. grind (
      int_laws,
      total-supply law denom (final bals m),
      p.sums denom,
      add_amounts-sum denom (additional_supply bals []) m,
      additional_supply-sum denom bals [],
    );
  }

  nothing_known : (ds : List String) → All (λ d. NotIn d (keys_of [])) ds
  nothing_known [] = tt
  nothing_known (d ∷ ds) = (tt, nothing_known ds)

  -- If the supply lists each denomination once and printed amounts read back, an update that succeeds
  -- appends the balances, lists each denomination of the supply once, and adds to the supply of
  -- every denomination what the balances hold of it.
  pub update_bank-Funded :
      Reads dec
      → (bals : List Balance) (bank new : BankGenesis) → update_bank dec bals bank ≡ ok new
      → Distinct (denoms bank.supply)
      → Funded dec bals bank new
  unfolding update_bank
  update_bank-Funded law bals bank new e once =
      elim (Result-cases (supply_map dec bank.supply [])) [
        | inr (text, unread) ↦ elim (err-not-ok (rw (unread, update_bank) at e)) [ ]
        | inl (m, found) ↦ subst (Funded dec bals bank) (ok_inj (rw (found, update_bank) at e)) (
            written law bals bank m (
              supply_map-Mapped bank.supply [] m found once (nothing_known (denoms bank.supply))
                tt))
      ]

  -- If printed amounts read back and the supply matches what the accounts hold, it still does after
  -- an update that succeeds.
  pub update_bank-IsBalanced :
      Reads dec
      → (bals : List Balance) (bank new : BankGenesis) → update_bank dec bals bank ≡ ok new
      → IsBalanced dec bank
      → IsBalanced dec new
  update_bank-IsBalanced law bals bank new e h =
      let f = update_bank-Funded law bals bank new e h.once in
      record {
        once = f.once;
        matches = λ denom. grind (
          int_laws,
          f.supply denom,
          h.matches denom,
          held-balances law denom bank.balances bals,
          ap (held dec denom) f.balances,
        );
      }
