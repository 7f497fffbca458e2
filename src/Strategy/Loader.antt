-- ===== src/Strategy/Loader.antt =====
-- Loading the strategies of a portfolio, backend/app/engine/loader.py. What a constructor reads of a
-- row besides its kind is in the arguments that `arguments` gives.
use roi_gen.Base.{
  ℕ, ◌+◌, ◌≡◌, Bool, true, false, ◌&&◌, Option, none, some, List, [], ◌∷◌, ltb, leb, ◌==◌,
  if◌then◌else◌, select,
}
use roi_gen.Models.Enums.{StrategyStatus, PortfolioMode}
use roi_gen.Risk.State.{StrategyText, member}
use roi_gen.Strategy.Runner.{Kind, Built, built, key_error, bad_params, other_error, create}
pub mod Earned
mod Tests

pub record StrategyRow : Type 0 where
  pub id : ℕ
  pub portfolio_id : ℕ
  pub kind : ℕ
  pub status : StrategyText
  pub created_at : ℕ

-- The statuses that a mode loads.
abbrev pub allowed : PortfolioMode → StrategyText → Bool
allowed PortfolioMode.live (member StrategyStatus.live) = true
allowed PortfolioMode.paper (member StrategyStatus.live) = true
allowed PortfolioMode.paper (member StrategyStatus.paper) = true
allowed _ _ = false

abbrev pub is_tradeable : ℕ → PortfolioMode → StrategyRow → Bool
is_tradeable portfolio mode row = row.portfolio_id == portfolio && allowed mode row.status

-- `order_by(created_at)`
abbrev pub insert_row : StrategyRow → List StrategyRow → List StrategyRow
insert_row x [] = x ∷ []
insert_row x (y ∷ ys) = if leb x.created_at y.created_at then x ∷ y ∷ ys else y ∷ insert_row x ys

abbrev pub by_creation : List StrategyRow → List StrategyRow
by_creation [] = []
by_creation (x ∷ xs) = insert_row x (by_creation xs)

module _ {ℓ κ} {Args : Type ℓ} {S : Type κ} (kinds : List (Kind Args S))
    (arguments : StrategyRow → Args) where
  -- One row, and what the later ones come to: it is skipped where the registry or the class refuses
  -- it, and `none` is an exception of another type.
  abbrev pub keep : Built S → Option (List S) → Option (List S)
  keep (built s) none = none
  keep (built s) (some later) = some (s ∷ later)
  keep other_error later = none
  keep key_error later = later
  keep bad_params later = later

  unfoldable pub load_rows : List StrategyRow → Option (List S)
  load_rows [] = some []
  load_rows (row ∷ rows) = keep (create kinds row.kind (arguments row)) (load_rows rows)

  unfoldable pub load_active_strategies : ℕ → PortfolioMode → List StrategyRow → Option (List S)
  unfolding load_rows
  load_active_strategies portfolio mode rows =
      load_rows (by_creation (select (is_tradeable portfolio mode) rows))
