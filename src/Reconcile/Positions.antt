-- ===== src/Reconcile/Positions.antt =====
-- The positions of a portfolio overwritten by the broker's: `_reconcile_positions` of
-- backend/app/services/reconciliation.py.
use roi_gen.Base.{
  ℕ, ◌≡◌, ◌≢◌, refl, sym, ap, ◌∙◌, Bool, true, false, ◌&&◌, not, Option, none, some, List, [], ◌∷◌,
  ℤ, arith, ◌==◌, ==_iff, if◌then◌else◌, find, any, select, update_where, is_some, length, map, All,
  Fresh, Distinct, Bool-cases, Option-cases, inl, inr,
}
use roi_gen.Models.Rows.{Position}
use roi_gen.Execution.Positions.{at_key, is_zero}
use roi_gen.Execution.Positions.Net.{find-updated, find-updated_other}
pub mod Upsert
pub mod Mirror

-- The columns of a broker position that the service reads.
pub record PositionReport : Type 0 where
  pub symbol : ℕ
  pub qty : ℤ
  pub avg_entry_price : ℤ

abbrev pub report_for : ℕ → List PositionReport → Option PositionReport
report_for s = find (λ b. b.symbol == s)

abbrev pub position_row : ℕ → PositionReport → Position
position_row portfolio b = record {
  portfolio_id = portfolio;
  symbol = b.symbol;
  qty = b.qty;
  avg_entry_price = b.avg_entry_price;
}

-- One round of the loop: `local` is what the dictionary of the rows read before it holds.
abbrev pub upsert : ℕ → PositionReport → Option Position → List Position → List Position
upsert portfolio b none ps = position_row portfolio b ∷ ps
upsert portfolio b (some local) ps =
    update_where (at_key portfolio b.symbol) (λ _. position_row portfolio b) ps

pub upsert_all : ℕ → List Position → List PositionReport → List Position → List Position
upsert_all portfolio before [] ps = ps
upsert_all portfolio before (b ∷ bs) ps =
    upsert_all portfolio before bs (upsert portfolio b (find (at_key portfolio b.symbol) before) ps)

abbrev pub has_vanished : ℕ → List PositionReport → Position → Bool
has_vanished portfolio bs x = x.portfolio_id == portfolio && not (is_some (report_for x.symbol bs))

-- `not broker_positions and account.position_market_value != 0 and local_by_symbol`
abbrev pub is_suspect : ℕ → ℤ → List PositionReport → List Position → Bool
is_suspect portfolio market_value [] ps =
    not (is_zero market_value) && any (λ x. x.portfolio_id == portfolio) ps
is_suspect portfolio market_value (b ∷ bs) ps = false

-- The counts of rows synced and removed, and the table.
unfoldable pub reconcile_positions :
    ℕ → ℤ → List PositionReport → List Position → (ℕ × ℕ) × List Position
unfolding upsert_all
reconcile_positions portfolio market_value bs ps =
    let synced = upsert_all portfolio ps bs ps in
    if is_suspect portfolio market_value bs ps then ((length bs, 0), synced) else (
      (length bs, length (select (has_vanished portfolio bs) ps)),
      select (λ x. not (has_vanished portfolio bs x)) synced,
    )

-- A row as the broker reports it.
abbrev pub as_report : Option Position → Option PositionReport
as_report none = none
as_report (some x) =
    some (record { symbol = x.symbol; qty = x.qty; avg_entry_price = x.avg_entry_price })

-- What the table shows for a portfolio and a symbol.
abbrev pub shown : ℕ → ℕ → List Position → Option PositionReport
shown portfolio s ps = as_report (find (at_key portfolio s) ps)
