-- ===== src/Genesis.antt =====
-- petri/cosmos/chain/chain.go: the accounts and balances that are added to a chain's genesis file. A
-- Go map of amounts is an association list with one entry for each key; the order of the new supply
-- is that of the list, where the source leaves it open. Amounts are integers. big.Int's
-- reading and writing of decimal texts is the parameter `Decimal`.
pub mod Sums
pub mod Supply
mod Tests
use ironbird.Base.{◌≡◌, String, Option, none, some, List, [], ◌∷◌, ◌++◌, map, str_eq, if◌then◌else◌}
use ironbird.Base.Int.{ℤ, ◌+ℤ◌}
use ironbird.Base.Action.{Result, ok, err}

-- types.Coin
pub record Coin : Type 0 where
  pub denom : String
  pub amount : ℤ

pub record Balance : Type 0 where
  pub address : String
  pub coins : List Coin

pub record Account : Type 0 where
  pub kind : String
  pub address : String
  pub account_number : String
  pub sequence : String

-- The coins, the balances and the state of the bank module's genesis, whose amounts are texts.
pub record BankCoin : Type 0 where
  pub denom : String
  pub amount : String

pub record BankBalance : Type 0 where
  pub address : String
  pub coins : List BankCoin

pub record BankGenesis : Type 0 where
  pub balances : List BankBalance
  pub supply : List BankCoin

pub record Decimal : Type 0 where
  pub print : ℤ → String
  pub parse : String → Option ℤ

abbrev pub Amounts : Type 0
Amounts = List (String × ℤ)

-- Add to the amount of a key, which is entered if there is none.
unfoldable pub add_amount : String → ℤ → Amounts → Amounts
add_amount denom n [] = (denom, n) ∷ []
add_amount denom n ((d, k) ∷ m) =
    if str_eq d denom then (d, k +ℤ n) ∷ m else (d, k) ∷ add_amount denom n m

-- Set the amount of a key.
unfoldable pub set_amount : String → ℤ → Amounts → Amounts
set_amount denom n [] = (denom, n) ∷ []
set_amount denom n ((d, k) ∷ m) =
    if str_eq d denom then (d, n) ∷ m else (d, k) ∷ set_amount denom n m

unfoldable pub add_coins : List Coin → Amounts → Amounts
unfolding add_amount
add_coins [] m = m
add_coins (c ∷ cs) m = add_coins cs (add_amount c.denom c.amount m)

unfoldable pub additional_supply : List Balance → Amounts → Amounts
unfolding add_coins
additional_supply [] m = m
additional_supply (b ∷ bs) m = additional_supply bs (add_coins b.coins m)

-- The additional amounts are added to the supply, key by key.
unfoldable pub add_amounts : Amounts → Amounts → Amounts
unfolding add_amount
add_amounts [] m = m
add_amounts ((d, n) ∷ more) m = add_amounts more (add_amount d n m)

unfoldable pub build_balances : List Account → List Coin → List Balance
build_balances [] funds = []
build_balances (a ∷ as') funds =
    (record { address = a.address; coins = funds }) ∷ build_balances as' funds

module _ (dec : Decimal) where
  abbrev pub bank_coin : Coin → BankCoin
  bank_coin c = record { denom = c.denom; amount = dec.print c.amount }

  abbrev pub bank_balance : Balance → BankBalance
  bank_balance b = record { address = b.address; coins = map bank_coin b.coins }

  -- The supply as a map; a later coin of a denomination replaces an earlier one.
  unfoldable pub supply_map : List BankCoin → Amounts → Result String Amounts
  unfolding set_amount
  supply_map [] m = ok m
  supply_map (c ∷ cs) m = elim (dec.parse c.amount) [
    | none ↦ err c.amount
    | some n ↦ supply_map cs (set_amount c.denom n m)
  ]

  abbrev pub supply_coin : String × ℤ → BankCoin
  supply_coin e = record { denom = e.0; amount = dec.print e.1 }

  -- The bank's part of `UpdateGenesisBalances`.
  unfoldable pub update_bank : List Balance → BankGenesis → Result String BankGenesis
  unfolding additional_supply supply_map add_amounts
  update_bank bals bank = elim (supply_map bank.supply []) [
    | err text ↦ err text
    | ok m ↦ ok (record {
      balances = bank.balances ++ map bank_balance bals;
      supply = map supply_coin (add_amounts (additional_supply bals []) m);
    })
  ]
