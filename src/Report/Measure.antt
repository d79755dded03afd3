-- ===== src/Report/Measure.antt =====
-- Counting the times below a bound that a test accepts.
use ironbird.Base.{
  ℕ, zero, suc, ◌+◌, ◌-◌, ◌≤◌, ◌≡◌, refl, ◌∙◌, Bool, true, false, ◌&&◌, ◌||◌, ltb, leb,
  if◌then◌else◌, Bool-cases, inl, inr, arith,
}

unfoldable pub count : (ℕ → Bool) → ℕ → ℕ
count p zero = 0
count p (suc n) = let rest = count p n in if p n then suc rest else rest

-- The half-open interval from `a` to `b`.
abbrev pub between : ℕ → ℕ → ℕ → Bool
between a b t = leb a t && ltb t b

module _ (p q : ℕ → Bool) where
  pub count_agree : (n : ℕ) → ((t : ℕ) → p t ≡ q t) → count p n ≡ count q n
  unfolding count
  count_agree zero e = refl
  count_agree (suc n) e = rw (e n, count_agree n e) refl

  pub count_either :
      (n : ℕ) → ((t : ℕ) → (p t && q t) ≡ false) → count (λ t. p t || q t) n ≡ count p n + count q n
  unfolding count
  count_either zero e = refl
  count_either (suc n) e = ground (arith, e n, count_either n e)

pub count_none : (n : ℕ) → count (λ t. false) n ≡ 0
unfolding count
count_none zero = refl
count_none (suc n) = count_none n

module _ (a b : ℕ) where
  count_prefix : (k : ℕ) → k ≤ b → count (between a b) k ≡ k - a
  unfolding count
  count_prefix zero h = omega arith
  count_prefix (suc k) h = ground (arith, count_prefix k (omega arith))

  pub count_interval : (n : ℕ) → a ≤ b → b ≤ n → count (between a b) n ≡ b - a
  unfolding count
  count_interval zero hab h = count_prefix zero (omega arith) ∙ omega arith
  count_interval (suc n) hab h = elim (Bool-cases (leb b n)) [
    | inl le ↦ ground (arith, count_interval n hab (ground arith))
    | inr gt ↦ ground (arith, count_prefix n (ground arith))
  ]

count_weaken :
    (p q : ℕ → Bool) (n : ℕ) → ((t : ℕ) → p t ≡ true → q t ≡ true) → count p n ≤ count q n
unfolding count
count_weaken p q zero h = omega arith
count_weaken p q (suc n) h = ground (arith, h n, count_weaken p q n h)

-- No more times are accepted within an interval than it has.
pub count_within :
    (q : ℕ → Bool) {a : ℕ} (b : ℕ) → a ≤ b → count (λ t. between a b t && q t) b ≤ b - a
count_within q {a} b h = omega (
  arith,
  count_weaken (λ t. between a b t && q t) (between a b) b (λ t h. ground arith),
  count_interval a b b h (omega arith),
)
