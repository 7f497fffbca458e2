-- ===== src/Strategy/Loader/Tests.antt =====
-- A live portfolio with a paper strategy, a live one, and a live one of an unknown kind.
use roi_gen.Base.{ℕ, ◌-◌, ◌≡◌, refl, true, some, List, [], ◌∷◌, All}
use roi_gen.Models.Enums.{StrategyStatus, PortfolioMode}
use roi_gen.Risk.State.{StrategyText}
use roi_gen.Strategy.Runner.{Kind, Built, create}
use roi_gen.Strategy.Loader.{StrategyRow, is_tradeable, load_active_strategies}
use roi_gen.Strategy.Loader.Earned.{From, HasEarned, IsLoaded, load_active_strategies-Earned}

abbrev row : ℕ → ℕ → StrategyStatus → StrategyRow
row id kind status = record {
  id = id;
  portfolio_id = 1;
  kind = kind;
  status = StrategyText.member status;
  created_at = 10 - id;
}

abbrev kinds : List (Kind ℕ ℕ)
kinds = record { kind = 5; cls = λ id. Built.built id } ∷ []

abbrev args : StrategyRow → ℕ
args r = r.id

abbrev rows : List StrategyRow
rows =
    row 1 5 StrategyStatus.paper
    ∷ row 2 5 StrategyStatus.live
    ∷ row 3 7 StrategyStatus.live
    ∷ row 4 5 StrategyStatus.live
    ∷ []

-- The older one first; the unknown kind is skipped.
load_test : load_active_strategies kinds args 1 PortfolioMode.live rows ≡ some (4 ∷ 2 ∷ [])
unfolding load_active_strategies create
load_test = refl

load_active_strategies-Earned_example :
    (loaded : List ℕ) × (load_active_strategies kinds args 1 PortfolioMode.live rows ≡ some loaded)
    × All (From kinds args (HasEarned kinds args 1 PortfolioMode.live rows)) loaded
    × All (λ r. is_tradeable 1 PortfolioMode.live r ≡ true → IsLoaded kinds args loaded r) rows
unfolding create
load_active_strategies-Earned_example =
    load_active_strategies-Earned kinds args 1 PortfolioMode.live rows
      ((λ h k. cc k), ((λ h k. cc k), ((λ h k. cc k), ((λ h k. cc k), tt))))
