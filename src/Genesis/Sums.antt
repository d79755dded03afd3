-- ===== src/Genesis/Sums.antt =====
-- petri/cosmos/chain/chain.go: sums over the entries of a map of amounts.
use ironbird.Base.{
  ◌≡◌, ◌≢◌, sym, arith, inl, inr, String, Bool, true, false, List, [], ◌∷◌, str_eq, eq_iff,
  if◌then◌else◌, Bool-cases, NotIn, Distinct,
}
use ironbird.Base.Int.{ℤ, pos, ◌+ℤ◌, int_laws}
use ironbird.Genesis.{
  Coin, Balance, Amounts, add_amount, set_amount, add_coins, additional_supply, add_amounts,
}

-- The amount, if the key is the one asked for.
abbrev pub only : String → String → ℤ → ℤ
only denom d n = if str_eq d denom then n else pos 0

abbrev pub sum_amounts : String → Amounts → ℤ
sum_amounts denom [] = pos 0
sum_amounts denom ((d, n) ∷ m) = only denom d n +ℤ sum_amounts denom m

abbrev pub sum_coins : String → List Coin → ℤ
sum_coins denom [] = pos 0
sum_coins denom (c ∷ cs) = only denom c.denom c.amount +ℤ sum_coins denom cs

abbrev pub sum_balances : String → List Balance → ℤ
sum_balances denom [] = pos 0
sum_balances denom (b ∷ bs) = sum_coins denom b.coins +ℤ sum_balances denom bs

abbrev pub keys_of : Amounts → List String
keys_of [] = []
keys_of ((d, n) ∷ m) = d ∷ keys_of m

module _ (denom : String) where
  pub add_amount-sum :
      (d : String) (n : ℤ) (m : Amounts)
      → sum_amounts denom (add_amount d n m) ≡ only denom d n +ℤ sum_amounts denom m
  unfolding add_amount
  add_amount-sum d n [] = omega int_laws
  add_amount-sum d n ((e, k) ∷ m) = elim (Bool-cases (str_eq e d)) [
    | inl same ↦ rw same (grind (int_laws, eq_iff e d, eq_iff e denom, eq_iff d denom))
    | inr other ↦ rw other (grind (int_laws, add_amount-sum d n m))
  ]

  add_coins-sum :
      (cs : List Coin) (m : Amounts)
      → sum_amounts denom (add_coins cs m) ≡ sum_coins denom cs +ℤ sum_amounts denom m
  unfolding add_coins
  add_coins-sum [] m = omega int_laws
  add_coins-sum (c ∷ cs) m = grind (
    int_laws,
    add_coins-sum cs (add_amount c.denom c.amount m),
    add_amount-sum c.denom c.amount m,
  )

  pub additional_supply-sum :
      (bs : List Balance) (m : Amounts)
      → sum_amounts denom (additional_supply bs m) ≡ sum_balances denom bs +ℤ sum_amounts denom m
  unfolding additional_supply
  additional_supply-sum [] m = omega int_laws
  additional_supply-sum (b ∷ bs) m =
      grind (int_laws, additional_supply-sum bs (add_coins b.coins m), add_coins-sum b.coins m)

  pub add_amounts-sum :
      (more m : Amounts)
      → sum_amounts denom (add_amounts more m) ≡ sum_amounts denom more +ℤ sum_amounts denom m
  unfolding add_amounts
  add_amounts-sum [] m = omega int_laws
  add_amounts-sum ((d, n) ∷ more) m =
      grind (int_laws, add_amounts-sum more (add_amount d n m), add_amount-sum d n m)

  pub set_amount-sum :
      (d : String) (n : ℤ) (m : Amounts)
      → NotIn d (keys_of m)
      → sum_amounts denom (set_amount d n m) ≡ only denom d n +ℤ sum_amounts denom m
  unfolding set_amount
  set_amount-sum d n [] h = omega int_laws
  set_amount-sum d n ((e, k) ∷ m) h = elim (Bool-cases (str_eq e d)) [
    | inl same ↦ elim (h.0 (sym ((eq_iff e d).0 same))) [ ]
    | inr other ↦ rw other (grind (int_laws, set_amount-sum d n m h.1))
  ]

-- A key that is not among the keys is the only one that is added.
add_amount-NotIn :
    (x d : String) (n : ℤ) (m : Amounts)
    → x ≢ d
    → NotIn x (keys_of m)
    → NotIn x (keys_of (add_amount d n m))
unfolding add_amount
add_amount-NotIn x d n [] ne h = (ne, tt)
add_amount-NotIn x d n ((e, k) ∷ m) ne h = elim (Bool-cases (str_eq e d)) [
  | inl same ↦ rw same h
  | inr other ↦ rw other (h.0, add_amount-NotIn x d n m ne h.1)
]

add_amount-Distinct :
    (d : String) (n : ℤ) (m : Amounts)
    → Distinct (keys_of m)
    → Distinct (keys_of (add_amount d n m))
unfolding add_amount
add_amount-Distinct d n [] h = (tt, tt)
add_amount-Distinct d n ((e, k) ∷ m) h = elim (Bool-cases (str_eq e d)) [
  | inl same ↦ rw same h
  | inr other ↦ rw other (
    add_amount-NotIn e d n m (λ p. differ (str_eq e d) ((eq_iff e d).1 p) other) h.0,
    add_amount-Distinct d n m h.1,
  )
]
  where
    differ : (b : Bool) → b ≡ true → b ≡ false → ⊥
    differ b x y = ground arith

pub add_amounts-Distinct :
    (more m : Amounts) → Distinct (keys_of m) → Distinct (keys_of (add_amounts more m))
unfolding add_amounts
add_amounts-Distinct [] m h = h
add_amounts-Distinct ((d, n) ∷ more) m h =
    add_amounts-Distinct more (add_amount d n m) (add_amount-Distinct d n m h)

pub set_amount-NotIn :
    (x d : String) (n : ℤ) (m : Amounts)
    → x ≢ d
    → NotIn x (keys_of m)
    → NotIn x (keys_of (set_amount d n m))
unfolding set_amount
set_amount-NotIn x d n [] ne h = (ne, tt)
set_amount-NotIn x d n ((e, k) ∷ m) ne h = elim (Bool-cases (str_eq e d)) [
  | inl same ↦ rw same h
  | inr other ↦ rw other (h.0, set_amount-NotIn x d n m ne h.1)
]

-- Setting a new key keeps the keys distinct.
pub set_amount-Distinct :
    (d : String) (n : ℤ) (m : Amounts)
    → NotIn d (keys_of m)
    → Distinct (keys_of m)
    → Distinct (keys_of (set_amount d n m))
unfolding set_amount
set_amount-Distinct d n [] fresh h = (tt, tt)
set_amount-Distinct d n ((e, k) ∷ m) fresh h = elim (Bool-cases (str_eq e d)) [
  | inl same ↦ elim (fresh.0 (sym ((eq_iff e d).0 same))) [ ]
  | inr other ↦
      rw other
        (set_amount-NotIn e d n m (λ p. fresh.0 (sym p)) h.0, set_amount-Distinct d n m fresh.1 h.1)
]
