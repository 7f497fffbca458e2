-- ===== src/Risk/Sizing.antt =====
-- Sizing against the risk budget: `size_position` of backend/app/engine/risk/controls.py.
use roi_gen.Base.{
  ℕ, ◌+◌, ◌*◌, ◌/◌, ◌≤◌, ◌<◌, ◌≡◌, refl, Bool, true, false, Option, ℤ, pos, negsuc, pos_part, ◌-ℤ◌,
  ◌*ℤ◌, ◌≤ℤ◌, abs, ltb_ℤ, ◌==◌, arith, Bool-cases, inl, inr,
}
use native.Mathlib.Nat.{div-mul-le_self, lt-div-mul-add}
use roi_gen.Risk.Controls.{
  SignalEvent, RiskState, RiskLimits, effective_risk_pct, base_risk_pct, min_ℤ,
  drawdown_size_factor, quot, sized_qty, sized, size_position,
}

-- The risk budget of a signal, in units of 10^-15 dollars: equity times the effective percentage
-- times the drawdown multiplier.
abbrev pub budget : RiskState → RiskLimits → ℤ
budget state limits =
    state.equity
    *ℤ effective_risk_pct limits state.strategy_risk_pct state.strategy_proven
    *ℤ pos (drawdown_size_factor limits state)

-- What one share risks, in the same unit.
abbrev pub share_risk : SignalEvent → ℕ
share_risk signal = abs (signal.entry_price -ℤ signal.stop_price) * 1000000000

quot-positive :
    (a : ℤ) (d : ℕ)
    → 0 < d
    → ltb_ℤ (quot a d) (pos 1) ≡ false
    → (n : ℕ) × (quot a d ≡ pos n) × (1 ≤ n) × (n * d ≤ pos_part a) × (pos_part a < n * d + d)
quot-positive (pos n) d z h =
    (n / d, refl, ground (arith, h), div-mul-le_self n d, lt-div-mul-add z)
quot-positive (negsuc n) d z h = absurd (ground (arith, h))

-- The shares of a passed sizing.
pub record Affordable (cost : ℕ) (funds qty : ℤ) : Type 0 where
  pub shares : ℕ
  pub counted : qty ≡ pos shares
  pub whole : 1 ≤ shares
  pub within : shares * cost ≤ pos_part funds
  pub largest : pos_part funds < shares * cost + cost

sized-Affordable :
    (risk_pct risk_amount : ℤ) (factor per_share_risk : ℕ)
    → (sized risk_pct risk_amount factor per_share_risk).check.passed ≡ true
    → Affordable
        (per_share_risk * 1000000000)
        (risk_amount *ℤ pos factor)
        (sized risk_pct risk_amount factor per_share_risk).qty
sized-Affordable risk_pct risk_amount factor per_share_risk h =
    let qty = sized_qty risk_amount factor per_share_risk in
    elim (Bool-cases (per_share_risk == 0)) [
      | inl e ↦ absurd (grind (arith, e))
      | inr e ↦ elim (Bool-cases (ltb_ℤ qty (pos 1))) [
        | inl f ↦ absurd (grind (arith, e, f))
        | inr f ↦
            let q =
              quot-positive (risk_amount *ℤ pos factor) (per_share_risk * 1000000000)
                (ground (arith, e)) f in
            rw (e, f)
              (record { shares = q.0; counted = q.1; whole = q.2; within = q.3; largest = q.4 })
      ]
    ]

-- A passed sizing is a whole number of shares, at least one, the largest whose risk the budget
-- covers.
pub size_position-Affordable :
    (signal : SignalEvent) (state : RiskState) (limits : RiskLimits)
    → (size_position signal state limits).check.passed ≡ true
    → Affordable (share_risk signal) (budget state limits) (size_position signal state limits).qty
size_position-Affordable signal state limits h = sized-Affordable _ _ _ _ h

sized-unpaid :
    (risk_pct risk_amount : ℤ) (factor per_share_risk : ℕ)
    → (sized risk_pct risk_amount factor per_share_risk).check.passed ≡ false
    → (sized risk_pct risk_amount factor per_share_risk).qty ≡ pos 0
sized-unpaid risk_pct risk_amount factor per_share_risk h =
    let qty = sized_qty risk_amount factor per_share_risk in
    elim (Bool-cases (per_share_risk == 0)) [
      | inl e ↦ rw e refl
      | inr e ↦ elim (Bool-cases (ltb_ℤ qty (pos 1))) [
        | inl f ↦ rw (e, f) refl
        | inr f ↦ let sized_up : true ≡ false = rw (e, f) at h in absurd (cc sized_up)
      ]
    ]

-- Conversely, the check passes wherever there is such a number of shares.
pub Affordable-passed :
    (signal : SignalEvent) (state : RiskState) (limits : RiskLimits) (cost : ℕ) (funds : ℤ)
    → Affordable cost funds (size_position signal state limits).qty
    → (size_position signal state limits).check.passed ≡ true
Affordable-passed signal state limits cost funds a =
    elim (Bool-cases (size_position signal state limits).check.passed) [
      | inl e ↦ e
      | inr e ↦
          let nothing : (size_position signal state limits).qty ≡ pos 0 = sized-unpaid _ _ _ _ e in
          let none_bought : pos a.shares ≡ pos 0 = cc (nothing, a.counted) in
          let zero_shares : a.shares ≡ 0 = cc none_bought in
          absurd (omega (arith, zero_shares, a.whole))
    ]

min_ℤ-left : (a b : ℤ) → min_ℤ a b ≤ℤ a
min_ℤ-left a b = ground arith

min_ℤ-right : (a b : ℤ) → min_ℤ a b ≤ℤ b
min_ℤ-right a b = ground arith

-- Whatever a strategy asks for, its percentage is at most the hard ceiling, and that of a strategy
-- that is not proven at most the ceiling of the unproven too.
effective_risk_pct-capped :
    (limits : RiskLimits) (asked : Option ℤ) (proven : Bool)
    → (effective_risk_pct limits asked proven ≤ℤ limits.max_risk_pct)
      × (proven ≡ false → effective_risk_pct limits asked proven ≤ℤ limits.unproven_risk_pct)
effective_risk_pct-capped limits asked true =
    (min_ℤ-right (base_risk_pct limits asked) limits.max_risk_pct, λ e. absurd (grind arith))
effective_risk_pct-capped limits asked false = (
  min_ℤ-right (min_ℤ (base_risk_pct limits asked) limits.unproven_risk_pct) limits.max_risk_pct,
  λ e. omega (
    arith,
    min_ℤ-left (min_ℤ (base_risk_pct limits asked) limits.unproven_risk_pct) limits.max_risk_pct,
    min_ℤ-right (base_risk_pct limits asked) limits.unproven_risk_pct,
  ),
)
