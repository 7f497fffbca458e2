-- ===== src/Execution/Positions/Tests.antt =====
-- The tracker on a few fills, and the theorems at those inputs. A position is bought, grown, sold
-- through zero and covered.
use roi_gen.Base.{
  ℕ, ◌/◌, ◌≡◌, refl, List, [], ◌∷◌, ℤ, pos, negsuc, pos_part, ◌+ℤ◌, ◌-ℤ◌, ◌*ℤ◌, total_of,
}
use roi_gen.Models.Enums.{OrderSide}
use roi_gen.Execution.Positions.{signed_qty, next_avg, moved, apply_fill_to_position}
use roi_gen.Execution.Positions.Net.{PositionFill, net, delta_at, apply_fills, net-apply_fills}

-- Rounding down stands for the decimal context in these runs.
abbrev floor_divide : ℤ → ℕ → ℤ
floor_divide x n = pos (pos_part x / n)

abbrev fill_of : OrderSide → ℕ → ℕ → PositionFill
fill_of side qty price = record {
  portfolio_id = 1;
  symbol = 9;
  side = side;
  qty = qty;
  price = pos price;
}

abbrev session : List PositionFill
session =
    fill_of OrderSide.buy 10 100 ∷ fill_of OrderSide.buy 10 110 ∷ fill_of OrderSide.sell 25 120 ∷ []

session_runs :
    apply_fills floor_divide session []
    ≡ record { portfolio_id = 1; symbol = 9; qty = negsuc 4; avg_entry_price = pos 120 } ∷ []
unfolding apply_fills apply_fill_to_position signed_qty moved next_avg ◌+ℤ◌ ◌-ℤ◌ ◌*ℤ◌
session_runs = refl

net-apply_fills_example :
    net 1 9 (apply_fills floor_divide session []) ≡ net 1 9 [] +ℤ total_of (delta_at 1 9) session
net-apply_fills_example = net-apply_fills floor_divide 1 9 session []
