-- ===== src/Execution/Positions.antt =====
-- The net position tracker, backend/app/engine/execution/positions.py. The quotient of two decimals
-- is a parameter: `divide x n` is `x / n`, rounded by the decimal context.
use roi_gen.Base.{
  ℕ, ◌+◌, Bool, true, false, ◌&&◌, ◌||◌, not, Option, none, some, List, [], ◌∷◌, ℤ, pos, ◌+ℤ◌, ◌-ℤ◌,
  ◌*ℤ◌, ltb_ℤ, abs, ◌==◌, if◌then◌else◌, find, select, update_where, leb_ℤ,
}
use roi_gen.Models.Enums.{OrderSide, is_buy}
use roi_gen.Models.Rows.{Position}
pub mod Net
mod Tests

-- Buy is positive, sell negative.
unfoldable pub signed_qty : OrderSide → ℕ → ℤ
signed_qty OrderSide.buy qty = pos qty
signed_qty OrderSide.sell qty = pos 0 -ℤ pos qty

abbrev pub at_key : ℕ → ℕ → Position → Bool
at_key portfolio symbol x = x.portfolio_id == portfolio && x.symbol == symbol

abbrev pub is_positive : ℤ → Bool
is_positive q = ltb_ℤ (pos 0) q

abbrev pub is_negative : ℤ → Bool
is_negative q = ltb_ℤ q (pos 0)

abbrev pub is_zero : ℤ → Bool
is_zero q = leb_ℤ q (pos 0) && leb_ℤ (pos 0) q

abbrev pub same_direction : ℤ → ℤ → Bool
same_direction old delta =
    (is_positive old && is_positive delta) || (is_negative old && is_negative delta)

abbrev pub crossed_zero : ℤ → ℤ → Bool
crossed_zero old new = (is_positive old && is_negative new) || (is_negative old && is_positive new)

module _ (divide : ℤ → ℕ → ℤ) where
  -- The average entry price after a fill that leaves the position open.
  pub next_avg : Position → ℤ → ℤ → ℤ
  next_avg p delta price =
      if same_direction p.qty delta
      then divide (p.avg_entry_price *ℤ pos (abs p.qty) +ℤ price *ℤ pos (abs delta))
          (abs p.qty + abs delta)
      else if crossed_zero p.qty (p.qty +ℤ delta)
      then price
      else p.avg_entry_price

  pub moved : Position → ℤ → ℤ → Position
  moved p delta price = record p { qty = p.qty +ℤ delta; avg_entry_price = next_avg p delta price }

  pub apply_delta : Option Position → ℕ → ℕ → ℤ → ℤ → List Position → List Position
  apply_delta none portfolio symbol delta price ps =
      record { portfolio_id = portfolio; symbol = symbol; qty = delta; avg_entry_price = price }
      ∷ ps
  apply_delta (some p) portfolio symbol delta price ps =
      if is_zero (p.qty +ℤ delta)
      then select (λ x. not (at_key portfolio symbol x)) ps
      else update_where (at_key portfolio symbol) (λ _. moved p delta price) ps

  pub apply_fill_to_position :
      (portfolio symbol : ℕ) → OrderSide → ℕ → ℤ → List Position → List Position
  unfolding apply_delta
  apply_fill_to_position portfolio symbol side qty price ps =
      apply_delta (find (at_key portfolio symbol) ps) portfolio symbol (signed_qty side qty) price
        ps
