-- ===== src/Execution/Lots/Order.antt =====
-- The order in which lots are consumed: what `order_lots` and the selection keep, and that the
-- result is sorted.
use roi_gen.Base.{
  ℕ, ◌<◌, ◌≡◌, ◌≢◌, sym, Bool, true, false, List, [], ◌∷◌, map, arith, if◌then◌else◌, select, All,
  All-select, Fresh, Distinct, Bool-cases, inl, inr,
}
use roi_gen.Models.Rows.{Lot, Db}
use roi_gen.Execution.Lots.{LotFill, matches, before, insert_lot, order_lots, open_lots}

abbrev pub ids : List Lot → List ℕ
ids = map (λ l. l.id)

-- Every lot may stand before all that follow it.
abbrev pub InOrder : List Lot → Type 0
InOrder [] = Unit
InOrder (l ∷ ls) = All (λ k. before l k ≡ true) ls × InOrder ls

before_total : (k l : Lot) → before k l ≡ false → before l k ≡ true
unfolding before
before_total k l h = ground arith

before_trans : (j k l : Lot) → before j k ≡ true → before k l ≡ true → before j l ≡ true
unfolding before
before_trans j k l p q = ground arith

pub All-insert_lot {κ} :
    (P : Lot → Type κ) (l : Lot) (ls : List Lot) → P l → All P ls → All P (insert_lot l ls)
unfolding insert_lot
All-insert_lot P l [] p h = (p, tt)
All-insert_lot P l (k ∷ ks) p h =
    elim (before l k) as (λ b. All P (if b then l ∷ k ∷ ks else k ∷ insert_lot l ks)) [
      | true ↦ (p, h)
      | false ↦ (h.0, All-insert_lot P l ks p h.1)
    ]

pub All-order_lots {κ} : (P : Lot → Type κ) (ls : List Lot) → All P ls → All P (order_lots ls)
unfolding order_lots
All-order_lots P [] h = tt
All-order_lots P (l ∷ ls) h = All-insert_lot P l (order_lots ls) h.0 (All-order_lots P ls h.1)

All-before_trans :
    (k l : Lot) (ls : List Lot)
    → before k l ≡ true
    → All (λ x. before l x ≡ true) ls
    → All (λ x. before k x ≡ true) ls
All-before_trans k l [] h a = tt
All-before_trans k l (x ∷ ls) h a = (before_trans k l x h a.0, All-before_trans k l ls h a.1)

insert_lot-InOrder : (l : Lot) (ls : List Lot) → InOrder ls → InOrder (insert_lot l ls)
unfolding insert_lot
insert_lot-InOrder l [] h = (tt, tt)
insert_lot-InOrder l (k ∷ ks) h = elim (Bool-cases (before l k)) [
  | inl first ↦ rw first ((first, All-before_trans l k ks first h.0), h)
  | inr later ↦ rw later (
    All-insert_lot (λ x. before k x ≡ true) l ks (before_total l k later) h.0,
    insert_lot-InOrder l ks h.1,
  )
]

order_lots-InOrder : (ls : List Lot) → InOrder (order_lots ls)
unfolding order_lots
order_lots-InOrder [] = tt
order_lots-InOrder (l ∷ ls) = insert_lot-InOrder l (order_lots ls) (order_lots-InOrder ls)

pub open_lots-InOrder : (a : LotFill) (db : Db) → InOrder (open_lots a db)
unfolding open_lots
open_lots-InOrder a db = order_lots-InOrder (select (matches a) db.lots)

-- Distinct keys stay distinct under selection and ordering.
Fresh-insert_lot :
    (n : ℕ) (l : Lot) (ls : List Lot)
    → n ≢ l.id
    → Fresh n (ids ls)
    → Fresh n (ids (insert_lot l ls))
unfolding insert_lot
Fresh-insert_lot n l [] p h = (p, tt)
Fresh-insert_lot n l (k ∷ ks) p h =
    elim (before l k) as (λ b. Fresh n (ids (if b then l ∷ k ∷ ks else k ∷ insert_lot l ks))) [
      | true ↦ (p, h)
      | false ↦ (h.0, Fresh-insert_lot n l ks p h.1)
    ]

Distinct-insert_lot :
    (l : Lot) (ls : List Lot)
    → Fresh l.id (ids ls)
    → Distinct (ids ls)
    → Distinct (ids (insert_lot l ls))
unfolding insert_lot
Distinct-insert_lot l [] p h = (tt, tt)
Distinct-insert_lot l (k ∷ ks) p h =
    elim (before l k) as (λ b. Distinct (ids (if b then l ∷ k ∷ ks else k ∷ insert_lot l ks))) [
      | true ↦ (p, h)
      | false ↦
          (Fresh-insert_lot k.id l ks (λ e. p.0 (sym e)) h.0, Distinct-insert_lot l ks p.1 h.1)
    ]

pub Fresh-order_lots : (n : ℕ) (ls : List Lot) → Fresh n (ids ls) → Fresh n (ids (order_lots ls))
unfolding order_lots
Fresh-order_lots n [] h = tt
Fresh-order_lots n (l ∷ ls) h = Fresh-insert_lot n l (order_lots ls) h.0 (Fresh-order_lots n ls h.1)

Distinct-order_lots : (ls : List Lot) → Distinct (ids ls) → Distinct (ids (order_lots ls))
unfolding order_lots
Distinct-order_lots [] h = tt
Distinct-order_lots (l ∷ ls) h =
    Distinct-insert_lot l (order_lots ls) (Fresh-order_lots l.id ls h.0)
      (Distinct-order_lots ls h.1)

pub Fresh-select :
    (p : Lot → Bool) (n : ℕ) (ls : List Lot) → Fresh n (ids ls) → Fresh n (ids (select p ls))
Fresh-select p n [] h = tt
Fresh-select p n (l ∷ ls) h =
    elim (p l) as (λ b. Fresh n (ids (if b then l ∷ select p ls else select p ls))) [
      | true ↦ (h.0, Fresh-select p n ls h.1)
      | false ↦ Fresh-select p n ls h.1
    ]

Distinct-select :
    (p : Lot → Bool) (ls : List Lot) → Distinct (ids ls) → Distinct (ids (select p ls))
Distinct-select p [] h = tt
Distinct-select p (l ∷ ls) h =
    elim (p l) as (λ b. Distinct (ids (if b then l ∷ select p ls else select p ls))) [
      | true ↦ (Fresh-select p l.id ls h.0, Distinct-select p ls h.1)
      | false ↦ Distinct-select p ls h.1
    ]

pub open_lots-Distinct :
    (a : LotFill) (db : Db) → Distinct (ids db.lots) → Distinct (ids (open_lots a db))
unfolding open_lots
open_lots-Distinct a db h =
    Distinct-order_lots (select (matches a) db.lots) (Distinct-select (matches a) db.lots h)

-- What holds of every lot, and what the selection tests, hold of every selected lot.
All-select_test : (p : Lot → Bool) (ls : List Lot) → All (λ l. p l ≡ true) (select p ls)
All-select_test p [] = tt
All-select_test p (l ∷ ls) = elim (Bool-cases (p l)) [
  | inl e ↦ rw e (e, All-select_test p ls)
  | inr e ↦ rw e (All-select_test p ls)
]

pub open_lots-All {κ} :
    (P : Lot → Type κ) (a : LotFill) (db : Db) → All P db.lots → All P (open_lots a db)
unfolding open_lots
open_lots-All P a db h = All-order_lots P _ (All-select P (matches a) db.lots h)

pub open_lots-match : (a : LotFill) (db : Db) → All (λ l. matches a l ≡ true) (open_lots a db)
unfolding open_lots
open_lots-match a db = All-order_lots _ _ (All-select_test (matches a) db.lots)

pub matches-open : (a : LotFill) (l : Lot) → matches a l ≡ true → 0 < l.qty_open
unfolding matches
matches-open a l h = ground arith
