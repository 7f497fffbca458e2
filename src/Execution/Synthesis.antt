-- ===== src/Execution/Synthesis.antt =====
-- Missed-fill synthesis, backend/app/engine/execution/synthesis.py. The quotient of two decimals is
-- a parameter, as in Positions. A raised exception is `none`.
use roi_gen.Base.{
  ℕ, ◌+◌, Bool, true, false, ◌&&◌, Option, none, some, List, [], ◌∷◌, ℤ, pos, ◌+ℤ◌, ◌-ℤ◌, ◌*ℤ◌, leb,
  ltb, leb_ℤ, ◌==◌, if◌then◌else◌, find, any, sum_of, total_of,
}
use roi_gen.Models.Rows.{Order, Fill, FillKey, execution, span, noexec, Db}
use roi_gen.Execution.Lots.{LotFill, apply_fill_to_lots}
use roi_gen.Execution.Positions.{apply_fill_to_position}
pub mod Ledger
pub mod Frame
pub mod Price

-- What the fill rows of an order add up to.
abbrev pub filled_by : ℕ → List Fill → ℕ
filled_by o = sum_of (λ f. if f.order_id == o then f.qty else 0)

abbrev pub notional_by : ℕ → List Fill → ℤ
notional_by o = total_of (λ f. if f.order_id == o then f.price *ℤ pos f.qty else pos 0)

pub record AppliedLedger : Type 0 where
  pub qty : ℕ
  pub notional : ℤ

abbrev pub applied_ledger : Db → ℕ → AppliedLedger
applied_ledger db o = record { qty = filled_by o db.fills; notional = notional_by o db.fills }

-- `Fill.broker_fill_id == fill_key`
pub same_key : FillKey → FillKey → Bool
same_key (execution a) (execution b) = a == b
same_key (span t o c) (span u p d) = t == u && (o == p && c == d)
same_key (noexec o c) (noexec p d) = o == p && c == d
same_key _ _ = false

abbrev pub has_key : FillKey → Fill → Bool
has_key key f = elim f.broker_fill_id [ none ↦ false | some k ↦ same_key k key ]

abbrev pub recorded : FillKey → List Fill → Bool
recorded key = any (has_key key)

-- The two tags in use.
abbrev pub gap_tag : ℕ
gap_tag = 0

abbrev pub recon_tag : ℕ
recon_tag = 1

abbrev pub synthetic_fill_id : ℕ → ℕ → ℕ → FillKey
synthetic_fill_id tag order_id cumulative = span tag order_id cumulative

-- The row and the call that a booked fill makes, for the key that it is given.
abbrev pub fill_row : Order → FillKey → ℕ → ℤ → ℕ → ℕ → Fill
fill_row o key qty price occurred_at id = record {
  id = id;
  order_id = o.id;
  broker_fill_id = some key;
  qty = qty;
  price = price;
  occurred_at = occurred_at;
}

abbrev pub lot_fill : Order → ℕ → ℤ → ℕ → ℕ → LotFill
lot_fill o qty price occurred_at id = record {
  portfolio_id = o.portfolio_id;
  strategy_id = o.strategy_id;
  symbol = o.symbol;
  side = o.side;
  qty = qty;
  price = price;
  occurred_at = occurred_at;
  order_id = some o.id;
  fill_id = some id;
  record_unapplied = true;
}

abbrev pub add_fill : Order → FillKey → ℕ → ℤ → ℕ → Db → Db
add_fill o key qty price occurred_at db = record db {
  fills = fill_row o key qty price occurred_at db.next_id ∷ db.fills;
  next_id = db.next_id + 1;
}

module _ (divide : ℤ → ℕ → ℤ) where
  abbrev pub derived_price : ℕ → ℤ → AppliedLedger → ℕ → ℤ
  derived_price cum_qty avg applied span_qty =
      divide (pos cum_qty *ℤ avg -ℤ applied.notional) span_qty

  -- The body of `span_price` for a positive span.
  pub positive_span_price : ℕ → Option ℤ → AppliedLedger → ℕ → ℤ
  positive_span_price cum_qty none applied span_qty =
      if ltb 0 applied.qty then divide applied.notional applied.qty else pos 0
  positive_span_price cum_qty (some avg) applied span_qty =
      if applied.qty == 0
      then avg
      else if leb_ℤ (derived_price cum_qty avg applied span_qty) (pos 0)
      then avg
      else derived_price cum_qty avg applied span_qty

  unfoldable pub span_price : ℕ → Option ℤ → AppliedLedger → ℕ → Option ℤ
  span_price cum_qty cum_avg_price applied span_qty =
      if leb span_qty 0
      then none
      else some (positive_span_price cum_qty cum_avg_price applied span_qty)

  -- A fill row, its lots, and, where the caller wants it, its position: the tail of
  -- `synthesize_span` and of `_record_execution`.
  pub book_fill : Order → FillKey → ℕ → ℤ → ℕ → Bool → Db → Db
  book_fill o key qty price occurred_at apply_position db =
      let db' =
        (apply_fill_to_lots (lot_fill o qty price occurred_at db.next_id)
          (add_fill o key qty price occurred_at db)).1 in
      if apply_position
      then record db' {
        positions =
            apply_fill_to_position divide o.portfolio_id o.symbol o.side qty price db'.positions;
      }
      else db'

  pub synthesize_span : Order → ℕ → ℤ → ℕ → ℕ → Bool → Db → Db
  synthesize_span o span_qty price occurred_at tag apply_position db =
      let key = synthetic_fill_id tag o.id ((applied_ledger db o.id).qty + span_qty) in
      if recorded key db.fills
      then db
      else book_fill o key span_qty price occurred_at apply_position db
