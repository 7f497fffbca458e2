-- ===== src/Risk/Flatten.antt =====
-- The authorization of a flatten: `RiskEngine.authorize_flatten` of
-- backend/app/engine/risk/engine.py.
use roi_gen.Base.{
  ℕ, ◌≡◌, ◌≢◌, ◌↔◌, refl, Bool, true, false, not, ◌&&◌, List, [], ◌∷◌, arith, ◌==◌, is_some, select,
}
use roi_gen.Risk.Engine.{
  FlattenEvent, is_flatten_source, is_stated, authorize_flatten, decide_flatten, flatten_checks,
  is_failed_check,
}
use roi_gen.Risk.Controls.{ControlCheck, flatten_scope, flatten_provenance}

decide_flatten-passed :
    (event : FlattenEvent) (now : ℕ) (checks : List ControlCheck) (scope provenance : Bool)
    → (is_some
          (decide_flatten event now checks (
            select is_failed_check (
              record { name = flatten_scope; passed = scope }
              ∷ record { name = flatten_provenance; passed = provenance }
              ∷ []))).approval
        ≡ true)
      ↔ ((scope ≡ true) × (provenance ≡ true))
decide_flatten-passed event now checks true true = (λ h. (refl, refl), λ h. refl)
decide_flatten-passed event now checks true false =
    (λ h. absurd (grind (arith, h)), λ h. absurd (grind (arith, h)))
decide_flatten-passed event now checks false true =
    (λ h. absurd (grind (arith, h)), λ h. absurd (grind (arith, h)))
decide_flatten-passed event now checks false false =
    (λ h. absurd (grind (arith, h)), λ h. absurd (grind (arith, h)))

-- A flatten is authorized exactly when it names a portfolio, a known source and a reason.
authorize_flatten_iff :
    (event : FlattenEvent) (now : ℕ)
    → (is_some (authorize_flatten event now).approval ≡ true) ↔ (
        (event.portfolio_id ≢ 0)
        × (is_flatten_source event.source ≡ true)
        × (is_stated event.reason ≡ true))
authorize_flatten_iff event now =
    let passed =
      decide_flatten-passed event now (flatten_checks event) (not (event.portfolio_id == 0))
        (is_flatten_source event.source && is_stated event.reason) in
    (
      λ h.
          let both = passed.0 h in
          (grind (arith, both.0), grind (arith, both.1), grind (arith, both.1)),
      λ h. passed.1 (grind (arith, h.0), grind (arith, h.1, h.2)),
    )
