-- ===== src/Risk/Prices.antt =====
-- The price rule of backend/app/brokers/pricing.py.
use roi_gen.Base.{
  ℕ, suc, ◌+◌, ◌*◌, ◌≤◌, ◌<◌, ◌≡◌, ap, ℤ, pos, negsuc, sub_ℕ, leb_ℤ, abs, ◌-ℤ◌, arith, Bool-cases,
  inl, inr, ◌⊎◌,
}
use roi_gen.Risk.Request.{tick_of, round_half_up, quantize_price}

tick_cent : (n : ℕ) → 1000000 ≤ n → tick_of (pos n) ≡ 10000
tick_cent n h = ground arith

tick_sub : (n : ℕ) → n < 1000000 → tick_of (pos n) ≡ 100
tick_sub n h = ground arith

tick_negative : (n : ℕ) → tick_of (negsuc n) ≡ 100
tick_negative n = ground arith

abs-sub_le : (a b k : ℕ) → a ≤ b + k → b ≤ a + k → abs (pos a -ℤ pos b) ≤ k
unfolding ◌-ℤ◌
abs-sub_le a b k h1 h2 = ground arith

abs-neg_sub_le : (a b k : ℕ) → a ≤ suc b + k → suc b ≤ a + k → abs (sub_ℕ 0 a -ℤ negsuc b) ≤ k
unfolding ◌-ℤ◌
abs-neg_sub_le a b k h1 h2 = ground arith

-- A quantized price differs from the price by at most half a tick.
quantize_price-near : (price : ℤ) → abs (quantize_price price -ℤ price) * 2 ≤ tick_of price
quantize_price-near (pos n) = elim (Bool-cases (leb_ℤ (pos 1000000) (pos n))) [
  | inl e ↦
      rw (e) (omega (arith, abs-sub_le (round_half_up 10000 n) n 5000 (omega arith) (omega arith)))
  | inr e ↦
      rw (e) (omega (arith, abs-sub_le (round_half_up 100 n) n 50 (omega arith) (omega arith)))
]
quantize_price-near (negsuc n) =
    rw (tick_negative n)
      (omega (arith, abs-neg_sub_le (round_half_up 100 (suc n)) n 50 (omega arith) (omega arith)))

-- A rounding to a tick that a price keeps is kept by the price rule.
kept :
    (n tick : ℕ)
    → tick_of (pos n) ≡ tick
    → round_half_up tick n ≡ n
    → quantize_price (pos n) ≡ pos n
kept n tick e h = rw (e) (ap pos h)

rounded_kept :
    (n : ℕ)
    → (n < 1000000) ⊎ (1000000 ≤ n)
    → quantize_price (quantize_price (pos n)) ≡ quantize_price (pos n)
rounded_kept n (inr h) =
    rw (tick_cent n h)
      (kept (round_half_up 10000 n) 10000 (tick_cent _ (omega arith)) (omega arith))
rounded_kept n (inl h) =
    rw (tick_sub n h) (elim (below_or_dollar (round_half_up 100 n) (omega arith)) [
      | inl b ↦ kept (round_half_up 100 n) 100 (tick_sub _ b) (omega arith)
      | inr b ↦ kept (round_half_up 100 n) 10000 (tick_cent _ (omega arith)) (omega arith)
    ])
  where
    below_or_dollar : (m : ℕ) → m ≤ 1000000 → (m < 1000000) ⊎ (m ≡ 1000000)
    below_or_dollar m q = ground arith

-- The price rule keeps a price that it has made, also one below a dollar that it rounds up to one.
quantize_price-idempotent :
    (n : ℕ) → quantize_price (quantize_price (pos n)) ≡ quantize_price (pos n)
quantize_price-idempotent n = rounded_kept n (ground arith)
