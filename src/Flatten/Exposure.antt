-- ===== src/Flatten/Exposure.antt =====
-- What stands between a portfolio and flat: `_Exposure`, `_exposure`, `_count_pending_submit` and
-- `_exposure_predates` of backend/app/engine/flatten_controller.py.
use roi_gen.Base.{
  ℕ, Bool, true, false, not, ◌&&◌, ◌||◌, Option, none, some, List, [], ◌∷◌, map, ℤ, ltb, ◌==◌, abs,
  select, any, length,
}
use roi_gen.Models.Enums.{OrderStatus, StatusText, known}
use roi_gen.Models.Rows.{Lot}
use roi_gen.Models.Commands.{Text}

-- A position and an open order, as the broker lists them, and a local order row.
pub record BrokerPosition : Type 0 where
  pub symbol : ℕ
  pub qty : ℤ

pub record OpenOrder : Type 0 where
  pub symbol : ℕ
  pub client_order_id : Option Text

pub record LocalOrder : Type 0 where
  pub portfolio_id : ℕ
  pub status : StatusText
  pub client_order_id : Text

pub record Exposure : Type 0 where
  pub position_symbols : List ℕ
  pub working_orders : ℕ
  pub pending_submit : ℕ
  pub liquidation_covered : List ℕ

abbrev pub is_empty {ℓ} : {A : Type ℓ} → List A → Bool
is_empty [] = true
is_empty (x ∷ xs) = false

abbrev pub member : ℕ → List ℕ → Bool
member n xs = any (λ x. n == x) xs

abbrev pub all_members : List ℕ → List ℕ → Bool
all_members [] covered = true
all_members (symbol ∷ symbols) covered = member symbol covered && all_members symbols covered

abbrev pub exposed : Exposure → Bool
exposed e = not (is_empty e.position_symbols) || ltb 0 e.working_orders || ltb 0 e.pending_submit

abbrev pub fully_covered : Exposure → Bool
fully_covered e =
    not (is_empty e.position_symbols)
    && e.working_orders == 0
    && e.pending_submit == 0
    && all_members e.position_symbols e.liquidation_covered

-- "roigen-flatten"
abbrev pub flatten_prefix : Text
flatten_prefix =
    114 ∷ 111 ∷ 105 ∷ 103 ∷ 101 ∷ 110 ∷ 45 ∷ 102 ∷ 108 ∷ 97 ∷ 116 ∷ 116 ∷ 101 ∷ 110 ∷ []

abbrev pub starts_with : Text → Text → Bool
starts_with [] text = true
starts_with (c ∷ prefix) [] = false
starts_with (c ∷ prefix) (d ∷ text) = c == d && starts_with prefix text

-- A missing client id reads as the empty text.
abbrev pub text_of : Option Text → Text
text_of none = []
text_of (some text) = text

abbrev pub is_liquidation : OpenOrder → Bool
is_liquidation order = starts_with flatten_prefix (text_of order.client_order_id)

abbrev pub is_pending_submit : StatusText → Bool
is_pending_submit (known OrderStatus.pending_submit) = true
is_pending_submit _ = false

abbrev pub count_pending_submit : ℕ → List LocalOrder → ℕ
count_pending_submit portfolio_id orders = length (
    select
      (λ order.
        order.portfolio_id == portfolio_id
        && is_pending_submit order.status
        && not (starts_with flatten_prefix (LocalOrder.client_order_id order)))
      orders)

abbrev pub exposure_of : ℕ → List BrokerPosition → List OpenOrder → List LocalOrder → Exposure
exposure_of portfolio_id positions open_orders orders = record {
  position_symbols =
      map BrokerPosition.symbol (select (λ p. not (abs (BrokerPosition.qty p) == 0)) positions);
  working_orders = length (select (λ order. not (is_liquidation order)) open_orders);
  pending_submit = count_pending_submit portfolio_id orders;
  liquidation_covered = map OpenOrder.symbol (select is_liquidation open_orders);
}

-- The open lots of a symbol.
abbrev pub evidence_for : ℕ → List Lot → ℕ → List Lot
evidence_for portfolio_id lots symbol =
    select (λ l. Lot.portfolio_id l == portfolio_id && l.symbol == symbol && ltb 0 l.qty_open) lots

-- No lot, or one opened before the session.
abbrev pub is_stale_symbol : ℕ → List Lot → ℕ → ℕ → Bool
is_stale_symbol portfolio_id lots rth_open symbol =
    let found = evidence_for portfolio_id lots symbol in
    is_empty found || any (λ l. ltb (Lot.opened_at l) rth_open) found

abbrev pub exposure_predates : ℕ → List Lot → ℕ → List ℕ → Bool
exposure_predates portfolio_id lots rth_open symbols =
    any (is_stale_symbol portfolio_id lots rth_open) symbols
