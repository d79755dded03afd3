-- ===== src/Genesis/Tests.antt =====
-- A genesis with one holder, and two accounts that are funded; amounts are written in strokes.
use Prim.Native.Char.{code}
use ironbird.Base.Int.{ℤ, pos, negsuc, ◌+ℤ◌, int_laws}
use ironbird.Base.{
  ℕ, zero, suc, ◌-◌, ◌==◌, if◌then◌else◌, ◌≡◌, refl, String, Option, some, List, [], ◌∷◌, ap, arith,
}
use ironbird.Base.Action.{ok}
use ironbird.Genesis.{Balance, BankGenesis, Decimal, update_bank}
use ironbird.Genesis.Supply.{Reads, IsBalanced, Funded, update_bank-Funded, update_bank-IsBalanced}

strokes : ℕ → String
strokes zero = ""
strokes (suc n) = String.◌∷◌ "1" (strokes n)

count_strokes : String → ℕ
count_strokes String.[] = 0
count_strokes (String.◌∷◌ c rest) = suc (count_strokes rest)

-- A negative number has a minus sign before it.
print_unary : ℤ → String
unfolding strokes
print_unary (pos n) = strokes n
print_unary (negsuc n) = String.◌∷◌ "-" (strokes (suc n))

parse_unary : String → Option ℤ
unfolding count_strokes
parse_unary String.[] = some (pos 0)
parse_unary (String.◌∷◌ c rest) =
    if code c == 45
    then some (negsuc (count_strokes rest - 1))
    else some (pos (suc (count_strokes rest)))

abbrev unary : Decimal
unary = record { print = print_unary; parse = parse_unary }

strokes_lem : (n : ℕ) → count_strokes (strokes n) ≡ n
unfolding strokes count_strokes
strokes_lem zero = refl
strokes_lem (suc n) = ap suc (strokes_lem n)

unary-Reads : Reads unary
unfolding print_unary parse_unary strokes count_strokes
unary-Reads (pos zero) = refl
unary-Reads (pos (suc n)) = ap (λ k. some (pos (suc k))) (strokes_lem n)
unary-Reads (negsuc n) = ap (λ k. some (negsuc k)) (omega (arith, strokes_lem n))

abbrev bank : BankGenesis
bank = record {
  balances =
      (record { address = "a0"; coins = (record { denom = "stake"; amount = "111" }) ∷ [] }) ∷ [];
  supply = (record { denom = "stake"; amount = "111" }) ∷ [];
}

abbrev funds : List Balance
funds =
    (record { address = "a1"; coins = (record { denom = "stake"; amount = pos 2 }) ∷ [] })
    ∷ (record { address = "a2"; coins = (record { denom = "atest"; amount = pos 1 }) ∷ [] })
    ∷ []

abbrev funded : BankGenesis
funded = record {
  balances =
      (record { address = "a0"; coins = (record { denom = "stake"; amount = "111" }) ∷ [] })
      ∷ (record { address = "a1"; coins = (record { denom = "stake"; amount = "11" }) ∷ [] })
      ∷ (record { address = "a2"; coins = (record { denom = "atest"; amount = "1" }) ∷ [] })
      ∷ [];
  supply =
      (record { denom = "stake"; amount = "11111" })
      ∷ (record { denom = "atest"; amount = "1" })
      ∷ [];
}

update_bank_example : update_bank unary funds bank ≡ ok funded
unfolding update_bank print_unary parse_unary strokes count_strokes ◌+ℤ◌
update_bank_example = refl

bank-IsBalanced : IsBalanced unary bank
unfolding parse_unary count_strokes
bank-IsBalanced = record { once = (tt, tt); matches = λ denom. grind (int_laws) }

update_bank-Funded_example : Funded unary funds bank funded
update_bank-Funded_example =
    update_bank-Funded unary unary-Reads funds bank funded update_bank_example (tt, tt)

update_bank-IsBalanced_example : IsBalanced unary funded
update_bank-IsBalanced_example =
    update_bank-IsBalanced unary unary-Reads funds bank funded update_bank_example bank-IsBalanced
