-- ===== src/Execution/Lots/Absorbed.antt =====
-- The quantity that the lot tables hold for one fill: what its closes closed, what its lot was
-- opened with, and what is still parked.
use roi_gen.Base.{
  ℕ, ◌+◌, min, ◌≡◌, refl, ap, Bool, true, false, ◌&&◌, Option, none, some, List, [], ◌∷◌, arith,
  ◌==◌, if◌then◌else◌, column_is, sum_of, length,
}
use roi_gen.Models.Enums.{EventSource}
use roi_gen.Models.Rows.{Lot, LotClose, Event, EventLog, Db}
use roi_gen.Execution.Lots.{
  LotFill, Walk, consumed_lot, close_row, consume, walk, parked, new_lot, settle, open_lots,
  start_walk, apply_fill_to_lots,
}
use roi_gen.Execution.Lots.Rounds.{walk_inv}
use roi_gen.Execution.Lots.Stored.{sum_of-put_lot}
use roi_gen.Execution.Lots.Validity.{LedgerIsValid}
use roi_gen.Execution.Lots.Totals.{Balanced, consume-Balanced, start-Balanced}

abbrev pub closed_by : ℕ → List LotClose → ℕ
closed_by n = sum_of (λ c. if column_is c.fill_id n then c.qty else 0)

abbrev pub opened_by : ℕ → List Lot → ℕ
opened_by n = sum_of (λ l. if column_is l.entry_fill_id n then l.qty_orig else 0)

abbrev pub parked_qty : ℕ → Event → ℕ
parked_qty n (Event.unapplied_remainder p s side qty price at order fill superseded) =
    if column_is fill n then qty else 0
parked_qty n _ = 0

-- The anomaly rows that a companion row resolved, by portfolio and key.
abbrev pub Resolved : Type 0
Resolved = Option ℕ → ℕ → Bool

abbrev pub same_portfolio : Option ℕ → Option ℕ → Bool
same_portfolio p none = false
same_portfolio p (some q) = column_is p q

abbrev pub resolves : ℕ → Event → Bool
resolves i (Event.remainder_resolved k s applied pnl residual) = k == i
resolves i _ = false

abbrev pub resolve : Event → Option ℕ → Resolved → Resolved
resolve e p known q i = if resolves i e && same_portfolio p q then true else known q i

-- A row's key is its place in the log, of which the newest row is the head.
abbrev pub row_id : List EventLog → ℕ
row_id older = length older + 1

-- What the anomaly rows hold that no newer row resolves.
abbrev pub open_parked : ℕ → Resolved → List EventLog → ℕ
open_parked n known [] = 0
open_parked n known (e ∷ log) =
    (if known e.portfolio_id (row_id log) then 0 else parked_qty n e.event)
    + open_parked n (resolve e.event e.portfolio_id known) log

abbrev pub parked_by : ℕ → List EventLog → ℕ
parked_by n = open_parked n (λ q i. false)

-- A row of any other type than a parked remainder and its resolution.
abbrev pub Plain : Event → Type 0
Plain e =
    ((n : ℕ) → parked_qty n e ≡ 0) × ((p : Option ℕ) (known : Resolved) → resolve e p known ≡ known)

-- Such a row at the head of the log.
pub parked_by-Plain :
    (n : ℕ) (source : EventSource) (p s o : Option ℕ) (e : Event) (log : List EventLog)
    → Plain e
    → parked_by n (
        record { source = source; portfolio_id = p; strategy_id = s; order_id = o; event = e }
        ∷ log)
      ≡ parked_by n log
parked_by-Plain n source p s o e log (empty, still) =
    omega (arith, empty n, ap (λ r. open_parked n r log) (still p (λ q i. false)))

abbrev pub absorbed : ℕ → Db → ℕ
absorbed n db = closed_by n db.lot_closes + opened_by n db.lots + parked_by n db.event_log

abbrev pub share : ℕ → LotFill → ℕ → ℕ
share n a qty = if column_is a.fill_id n then qty else 0

record Absorbing (n : ℕ) (a : LotFill) (db : Db) (ls : List Lot) (w : Walk) : Type 0 where
  balanced : Balanced a db ls w
  closes : closed_by n w.db.lot_closes ≡ closed_by n db.lot_closes + share n a w.qty_closed
  lots : opened_by n w.db.lots ≡ opened_by n db.lots
  log : w.db.event_log ≡ db.event_log

consume-Absorbing :
    (n : ℕ) (a : LotFill) (db : Db) (l : Lot) (ls : List Lot) (w : Walk)
    → Absorbing n a db (l ∷ ls) w
    → Absorbing n a db ls (consume a l w)
unfolding consume
consume-Absorbing n a db l ls w h = record {
  balanced = unfold consume in consume-Balanced a db l ls w h.balanced;
  closes = unfold close_row in ground (arith, h.closes);
  lots =
      unfold consumed_lot in
      omega (
        arith,
        h.lots,
        sum_of-put_lot (λ x. if column_is x.entry_fill_id n then x.qty_orig else 0)
            (consumed_lot a l (min l.qty_open w.remaining)) l w.db.lots h.balanced.keys
            h.balanced.rest_stored.0,
      );
  log = h.log;
}

settle-absorbed :
    (n : ℕ) (a : LotFill) (db : Db) (s : Option ℕ) (w : Walk) (rest : List Lot)
    → a.record_unapplied ≡ true
    → Absorbing n a db rest w
    → absorbed n (settle a s w).1 ≡ absorbed n db + share n a a.qty
unfolding settle parked new_lot
settle-absorbed n a db none w rest r h =
    rw r (ground (arith, h.balanced.filled, h.closes, h.lots, ap (parked_by n) h.log))
settle-absorbed n a db (some s) w rest r h =
    ground (arith, h.balanced.filled, h.closes, h.lots, ap (parked_by n) h.log)

walk-Absorbing :
    (n : ℕ) (a : LotFill) (db : Db)
    → LedgerIsValid db
    → (rest : List Lot) × Absorbing n a db rest (walk a (open_lots a db) (start_walk a db))
walk-Absorbing n a db v =
    walk_inv (Absorbing n a db) a (λ l ls w h more. consume-Absorbing n a db l ls w h)
      (open_lots a db) (start_walk a db)
      record {
        balanced = start-Balanced a db v;
        closes = unfold start_walk in ground arith;
        lots = unfold start_walk in refl;
        log = unfold start_walk in refl;
      }

-- On a valid ledger, where remainders are parked, applying a fill adds its whole quantity to what
-- the tables hold for it, and nothing to what they hold for any other fill.
pub apply_fill_to_lots-absorbed :
    (n : ℕ) (a : LotFill) (db : Db)
    → LedgerIsValid db
    → a.record_unapplied ≡ true
    → absorbed n (apply_fill_to_lots a db).1 ≡ absorbed n db + share n a a.qty
unfolding apply_fill_to_lots
apply_fill_to_lots-absorbed n a db v r =
    let (rest, h) = walk-Absorbing n a db v in settle-absorbed n a db a.strategy_id _ rest r h

-- Where a fill without a strategy parks nothing, the tables gain its quantity less the remainder.
pub apply_fill_to_lots-unparked :
    (n : ℕ) (a : LotFill) (db : Db)
    → LedgerIsValid db
    → a.strategy_id ≡ none
    → a.record_unapplied ≡ false
    → let (r, db') = apply_fill_to_lots a db in
      (db'.event_log ≡ db.event_log)
      × (r.qty_closed + r.unapplied_qty ≡ a.qty)
      × (absorbed n db' + share n a r.unapplied_qty ≡ absorbed n db + share n a a.qty)
unfolding apply_fill_to_lots settle
apply_fill_to_lots-unparked n a db v s r =
    let (rest, h) = walk-Absorbing n a db v in
    rw (s, r) (ground (arith, h.balanced.filled, h.closes, h.lots, h.log, ap (parked_by n) h.log))
