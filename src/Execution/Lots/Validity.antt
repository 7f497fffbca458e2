-- ===== src/Execution/Lots/Validity.antt =====
-- The ledger invariant of the lot tables: each lot agrees with the `lot_closes` rows that refer
-- to it, in quantity, in profit and in the strategy that the rows are booked to.
use roi_gen.Base.{
  ℕ, ◌+◌, ◌≤◌, ◌<◌, min, ◌≡◌, ◌≢◌, refl, sym, true, Option, none, some, List, [], ◌∷◌, ℤ, pos,
  arith, ltb, ◌==◌, ==_iff, if◌then◌else◌, is_some, All, All-weaken, sum_of, total_of, Fresh,
  Fresh-above, Distinct, Bool-cases, inl, inr, subst, ◌∙◌, +ℤ_comm, zero_+ℤ,
}
use roi_gen.Models.Rows.{Lot, LotClose, Db}
use roi_gen.Execution.Lots.{
  LotFill, Walk, consumed_lot, close_row, consume, walk, new_lot, settle, start_walk, open_lots,
  apply_fill_to_lots,
}
use roi_gen.Execution.Lots.Order.{
  ids, open_lots-All, open_lots-Distinct, open_lots-match, matches-open,
}
use roi_gen.Execution.Lots.Rounds.{walk_inv, All-put_lot, ids-put_lot}

-- The quantity and the profit of the closes that refer to a lot.
abbrev pub closed_qty : ℕ → List LotClose → ℕ
closed_qty n = sum_of (λ c. if c.lot_id == n then c.qty else 0)

abbrev pub closed_pnl : ℕ → List LotClose → ℤ
closed_pnl n = total_of (λ c. if c.lot_id == n then c.realized_pnl else pos 0)

-- Each close of the lot is booked to the lot's own strategy.
abbrev pub Attributed : Lot → List LotClose → Type 0
Attributed l = All (λ c. c.lot_id ≡ l.id → c.strategy_id ≡ l.strategy_id)

pub record LotIsValid (closes : List LotClose) (next : ℕ) (l : Lot) : Type 0 where
  pub positive : 0 < l.qty_orig
  pub accounted : closed_qty l.id closes + l.qty_open ≡ l.qty_orig
  pub realized : l.realized_pnl ≡ closed_pnl l.id closes
  pub live : 0 < l.qty_open → l.closed_at ≡ none
  pub done : l.qty_open ≡ 0 → is_some l.closed_at ≡ true
  pub numbered : l.id < next
  pub attributed : Attributed l closes

pub record LedgerIsValid (db : Db) : Type 0 where
  pub lots_valid : All (LotIsValid db.lot_closes db.next_id) db.lots
  pub keys : Distinct (ids db.lots)
  pub closes_numbered : All (λ c. c.lot_id < db.next_id) db.lot_closes

-- A close of another lot changes nothing for a lot.
other_close :
    (c : LotClose) (closes : List LotClose) (next : ℕ) (l : Lot)
    → l.id ≢ c.lot_id
    → LotIsValid closes next l
    → LotIsValid (c ∷ closes) next l
other_close c closes next l ne v = record {
  positive = v.positive;
  accounted = ground (arith, v.accounted);
  realized = elim (Bool-cases (c.lot_id == l.id)) [
    | inl e ↦ absurd (ne (sym ((==_iff _ _).0 e)))
    | inr e ↦ rw e (v.realized ∙ sym (zero_+ℤ _))
  ];
  live = v.live;
  done = v.done;
  numbered = v.numbered;
  attributed = ((λ e. absurd (ne (sym e))), v.attributed);
}

-- The lot that a round consumes, against its close.
consumed-LotIsValid :
    (a : LotFill) (closes : List LotClose) (next n : ℕ) (l : Lot)
    → n ≤ l.qty_open
    → LotIsValid closes next l
    → 0 < l.qty_open
    → LotIsValid (close_row a l n ∷ closes) next (consumed_lot a l n)
unfolding consumed_lot close_row
consumed-LotIsValid a closes next n l le v op = record {
  positive = v.positive;
  accounted = ground (arith, v.accounted);
  realized = rw ((==_iff l.id l.id).1 refl) (rw v.realized (+ℤ_comm _ _));
  live = ground (arith, v.live op);
  done = ground arith;
  numbered = v.numbered;
  attributed = ((λ e. refl), v.attributed);
}

other_closes :
    (c : LotClose) (closes : List LotClose) (next : ℕ) (ls : List Lot)
    → Fresh c.lot_id (ids ls)
    → All (LotIsValid closes next) ls
    → All (LotIsValid (c ∷ closes) next) ls
other_closes c closes next [] f h = tt
other_closes c closes next (l ∷ ls) f h =
    (other_close c closes next l (λ e. f.0 (sym e)) h.0, other_closes c closes next ls f.1 h.1)

-- Between two rounds: the tables are valid, and so are the lots that are still to be consumed.
pub record Walking (ls : List Lot) (w : Walk) : Type 0 where
  pub ledger : LedgerIsValid w.db
  pub rest_valid : All (LotIsValid w.db.lot_closes w.db.next_id) ls
  pub rest_keys : Distinct (ids ls)
  pub rest_open : All (λ l. 0 < l.qty_open) ls

consume-Walking :
    (a : LotFill) (l : Lot) (ls : List Lot) (w : Walk)
    → Walking (l ∷ ls) w
    → Walking ls (consume a l w)
unfolding consume
consume-Walking a l ls w h =
    let n = min l.qty_open w.remaining in
    let c = close_row a l n in
    let closes = w.db.lot_closes in
    let next = w.db.next_id in
    let now_valid : LotIsValid (c ∷ closes) next (consumed_lot a l n) =
      consumed-LotIsValid a closes next n l (omega arith) h.rest_valid.0 h.rest_open.0 in
    record {
      ledger = record {
        lots_valid =
            unfold close_row consumed_lot in
            All-put_lot (LotIsValid closes next) _ _ w.db.lots now_valid
              (λ x ne v. other_close _ closes next x ne v) h.ledger.lots_valid;
        keys = subst Distinct (sym (ids-put_lot _ w.db.lots)) h.ledger.keys;
        closes_numbered = unfold close_row in (h.rest_valid.0.numbered, h.ledger.closes_numbered);
      };
      rest_valid = unfold close_row in other_closes _ closes next ls h.rest_keys.0 h.rest_valid.1;
      rest_keys = h.rest_keys.1;
      rest_open = h.rest_open.1;
    }

walk-Walking :
    (a : LotFill) (db : Db)
    → LedgerIsValid db
    → LedgerIsValid (walk a (open_lots a db) (start_walk a db)).db
unfolding start_walk
walk-Walking a db v =
    (walk_inv Walking a (λ l ls w h more. consume-Walking a l ls w h) (open_lots a db) _
      record {
        ledger = v;
        rest_valid = open_lots-All _ a db v.lots_valid;
        rest_keys = open_lots-Distinct a db v.keys;
        rest_open =
            All-weaken _ _ (open_lots a db) (λ l m. matches-open a l m) (open_lots-match a db);
      }).1.ledger

-- No close refers to a lot with a new key.
closed_qty_above : (n : ℕ) (cs : List LotClose) → All (λ c. c.lot_id < n) cs → closed_qty n cs ≡ 0
closed_qty_above n [] h = refl
closed_qty_above n (c ∷ cs) h = ground (arith, closed_qty_above n cs h.1)

closed_pnl_above :
    (n : ℕ) (cs : List LotClose) → All (λ c. c.lot_id < n) cs → closed_pnl n cs ≡ pos 0
closed_pnl_above n [] h = refl
closed_pnl_above n (c ∷ cs) h = elim (Bool-cases (c.lot_id == n)) [
  | inl e ↦ absurd (omega (arith, (==_iff c.lot_id n).0 e, h.0))
  | inr e ↦ rw e (zero_+ℤ _ ∙ closed_pnl_above n cs h.1)
]

Attributed-above : (l : Lot) (cs : List LotClose) → All (λ c. c.lot_id < l.id) cs → Attributed l cs
Attributed-above l [] h = tt
Attributed-above l (c ∷ cs) h = ((λ e. absurd (omega arith)), Attributed-above l cs h.1)

pub renumber : (cs : List LotClose) (n : ℕ) (l : Lot) → LotIsValid cs n l → LotIsValid cs (n + 1) l
renumber cs n l v = record {
  positive = v.positive;
  accounted = v.accounted;
  realized = v.realized;
  live = v.live;
  done = v.done;
  numbered = omega (arith, v.numbered);
  attributed = v.attributed;
}

new_lot-LotIsValid :
    (a : LotFill) (s n : ℕ) (db : Db)
    → LedgerIsValid db
    → 0 < n
    → LotIsValid db.lot_closes (db.next_id + 1) (new_lot a s n db)
unfolding new_lot
new_lot-LotIsValid a s n db v h = record {
  positive = h;
  accounted = omega (arith, closed_qty_above db.next_id db.lot_closes v.closes_numbered);
  realized = sym (closed_pnl_above db.next_id db.lot_closes v.closes_numbered);
  live = λ _. refl;
  done = λ e. absurd (omega arith);
  numbered = omega arith;
  attributed = Attributed-above (new_lot a s n db) db.lot_closes v.closes_numbered;
}

keys_below :
    (cs : List LotClose) (n : ℕ) (ls : List Lot)
    → All (LotIsValid cs n) ls
    → All (λ i. i < n) (ids ls)
keys_below cs n [] h = tt
keys_below cs n (l ∷ ls) h = (h.0.numbered, keys_below cs n ls h.1)

settle-LedgerIsValid :
    (a : LotFill) (s : Option ℕ) (w : Walk) → LedgerIsValid w.db → LedgerIsValid (settle a s w).1
unfolding settle
settle-LedgerIsValid a none w v = elim (Bool-cases (ltb 0 w.remaining)) [
  | inl e ↦ rw e (elim (Bool-cases a.record_unapplied) [
    | inl r ↦
        rw r
          (record { lots_valid = v.lots_valid; keys = v.keys; closes_numbered = v.closes_numbered })
    | inr r ↦ rw r v
  ])
  | inr e ↦ rw e v
]
settle-LedgerIsValid a (some s) w v = elim (Bool-cases (ltb 0 w.remaining)) [
  | inl e ↦ rw e (record {
    lots_valid = (
      new_lot-LotIsValid a s w.remaining w.db v (ground arith),
      All-weaken _ _ w.db.lots (renumber w.db.lot_closes w.db.next_id) v.lots_valid,
    );
    keys = unfold new_lot in (Fresh-above _ _ (keys_below _ _ w.db.lots v.lots_valid), v.keys);
    closes_numbered = All-weaken _ _ w.db.lot_closes (λ c h. omega arith) v.closes_numbered;
  })
  | inr e ↦ rw e v
]

-- Applying a fill to a valid ledger keeps it valid: for every lot, what its `lot_closes` rows
-- closed and what is still open add up to the quantity it was opened with, its realized profit is
-- the sum of the profits in those rows, it has a closing time exactly when nothing is open, and
-- every row is booked to the strategy of its own lot.
pub apply_fill_to_lots-LedgerIsValid :
    (a : LotFill) (db : Db) → LedgerIsValid db → LedgerIsValid (apply_fill_to_lots a db).1
unfolding apply_fill_to_lots
apply_fill_to_lots-LedgerIsValid a db v =
    settle-LedgerIsValid a a.strategy_id _ (walk-Walking a db v)
