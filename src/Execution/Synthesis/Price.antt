-- ===== src/Execution/Synthesis/Price.antt =====
-- The price of a missed span.
use roi_gen.Base.{ℕ, ◌<◌, ◌≡◌, some, ℤ, pos, ◌+ℤ◌, ◌-ℤ◌, ◌*ℤ◌, ◌≤ℤ◌, arith, int_laws, eq_of_parts}
use roi_gen.Execution.Synthesis.{AppliedLedger, derived_price, positive_span_price, span_price}

sum_less : (a b : ℤ) → (a +ℤ b) -ℤ a ≡ b
sum_less a b = eq_of_parts _ _ (omega int_laws)

module _ (divide : ℤ → ℕ → ℤ) (cum : ℕ) (avg : ℤ) (applied : AppliedLedger) (span : ℕ)
    (h : 0 < span) where
  -- With a positive broker average the price of a positive span is positive: a derivation that is
  -- not falls back to the average.
  span_price_positive :
      pos 1 ≤ℤ avg
      → (p : ℤ) × (span_price divide cum (some avg) applied span ≡ some p) × (pos 1 ≤ℤ p)
  unfolding span_price positive_span_price
  span_price_positive a =
      (positive_span_price divide cum (some avg) applied span, ground arith, ground arith)

  -- Where the ledger already holds fills and the broker's average is that of the recorded fills
  -- together with a span at some positive price, the span is booked at that price, if the division
  -- of the decimals gives a quotient without remainder exactly.
  pub span_price_recovers :
      (p : ℤ)
      → 0 < applied.qty
      → pos 1 ≤ℤ p
      → divide (p *ℤ pos span) span ≡ p
      → pos cum *ℤ avg ≡ applied.notional +ℤ p *ℤ pos span
      → span_price divide cum (some avg) applied span ≡ some p
  unfolding span_price positive_span_price
  span_price_recovers p q positive exact blended =
      let missed : pos cum *ℤ avg -ℤ applied.notional ≡ p *ℤ pos span =
        rw blended (sum_less applied.notional (p *ℤ pos span)) in
      let priced : derived_price divide cum avg applied span ≡ p = rw missed exact in
      rw priced (ground arith)
