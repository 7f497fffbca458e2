-- ===== src/Execution/TradeUpdates/Stored.antt =====
-- The rows of orders after an update: the transaction of `_process` in
-- backend/app/engine/execution/trade_updates.py.
use roi_gen.Base.{
  if_cases, ℕ, ◌≡◌, refl, sym, ap, subst, ◌∙◌, ◌&&◌, not, Option, none, some, List, [], ◌∷◌, ◌++◌,
  ℤ, All, All-append, All-weaken, is_some, Bool-cases, Option-cases, ◌⊎◌, inl, inr, if◌then◌else◌,
}
use mathlib.Core.List.{append_assoc}
use roi_gen.Models.Enums.{TransitionPlan, stale, terminal_conflict, StatusText}
use roi_gen.Models.Rows.{Order, Db, put_order}
use roi_gen.Execution.State.{BrokerOrder, apply_snapshot}
use roi_gen.Execution.Legs.{
  children, knows_broker_id, knows_client_id, persist_leg, persist_legs, persist_bracket_legs,
}
use roi_gen.Execution.TradeUpdates.{TradeUpdate}
use roi_gen.Execution.TradeUpdates.Process.{
  resurrect, is_failed, log_skipped, is_bracket, adopt_fetched, ensure_legs, ensure_bracket,
  apply_update,
}

-- The ids of a row are those of one of the legs.
pub IsLegOf : List BrokerOrder → Order → Type 0
IsLegOf [] row = ⊥
IsLegOf (leg ∷ legs) row =
    ((leg.client_order_id ≡ some row.client_order_id)
      × (row.broker_order_id ≡ some leg.broker_order_id))
    ⊎ IsLegOf legs row

-- Rows were added, each of them for one of the legs.
abbrev pub Adds : List BrokerOrder → List Order → List Order → Type 0
Adds legs old new = (rows : List Order) × (new ≡ rows ++ old) × All (IsLegOf legs) rows

persist_leg-Adds :
    (p : Order) (ex : List Order) (leg : BrokerOrder) (legs : List BrokerOrder) (db : Db) (n : ℕ)
    → Adds (leg ∷ legs) db.orders (persist_leg p ex leg leg.client_order_id db n).0.orders
unfolding persist_leg IsLegOf
persist_leg-Adds p ex leg legs db n = elim (Bool-cases (knows_broker_id ex leg.broker_order_id)) [
  | inl e ↦ rw e ([], refl, tt)
  | inr e ↦ elim (Option-cases leg.client_order_id) [
    | inl k ↦ rw (e, k) ([], refl, tt)
    | inr (c, k) ↦ elim (Bool-cases (knows_client_id ex c)) [
      | inl j ↦ rw (e, k, j) ([], refl, tt)
      | inr j ↦ rw (e, k, j) (_ ∷ [], refl, (inl (refl, refl), tt))
    ]
  ]
]

persist_legs-Adds :
    (p : Order) (ex : List Order) (legs : List BrokerOrder) (db : Db) (n : ℕ)
    → Adds legs db.orders (persist_legs p ex legs db n).0.orders
unfolding persist_legs IsLegOf
persist_legs-Adds p ex [] db n = ([], refl, tt)
persist_legs-Adds p ex (leg ∷ legs) db n =
    let after = persist_leg p ex leg leg.client_order_id db n in
    let (xs, one, own) = persist_leg-Adds p ex leg legs db n in
    let (ys, rest, others) = persist_legs-Adds p ex legs after.0 after.1 in
    (
      ys ++ xs,
      rest ∙ (ap (λ os. ys ++ os) one ∙ sym (append_assoc ys xs db.orders)),
      All-append _ ys xs (All-weaken _ _ ys (λ row h. inr h) others) own,
    )

log_skipped-orders :
    (plan : TransitionPlan) (before : StatusText) (o : Order) (u : TradeUpdate) (db : Db)
    → (log_skipped plan before o u db).orders ≡ db.orders
log_skipped-orders TransitionPlan.apply before o u db = refl
log_skipped-orders stale before o u db = refl
log_skipped-orders terminal_conflict before o u db = refl

pub resurrect-orders :
    (o : Order) (u : TradeUpdate) (db : Db) → (resurrect o u db).1.orders ≡ db.orders
unfolding resurrect
resurrect-orders o u db = elim (Bool-cases (is_failed o.status)) [
  | inl e ↦ rw e refl
  | inr e ↦ rw e refl
]

module _ (fetch : ℕ → Option (Option (List BrokerOrder))) where
  -- Rows were added only for legs that the broker gave for the order.
  abbrev pub AddsFetched : Order → List Order → List Order → Type 0
  AddsFetched o old new =
      (new ≡ old)
      ⊎ ((b : ℕ) × (legs : List BrokerOrder) × (o.broker_order_id ≡ some b)
          × (fetch b ≡ some (some legs))
          × Adds legs old new)

  adopt_fetched-Adds :
      (b : ℕ) (o : Order) (found : Option (Option (List BrokerOrder))) (db : Db)
      → o.broker_order_id ≡ some b
      → fetch b ≡ found
      → AddsFetched o db.orders (adopt_fetched fetch found o db).orders
  unfolding persist_bracket_legs
  adopt_fetched-Adds b o none db e f = inl refl
  adopt_fetched-Adds b o (some none) db e f = inl refl
  adopt_fetched-Adds b o (some (some legs)) db e f =
      inr (b, legs, e, f, persist_legs-Adds o (children o.id db.orders) legs db 0)

  ensure_legs-Adds :
      (o : Order) (b : ℕ) (db : Db)
      → o.broker_order_id ≡ some b
      → AddsFetched o db.orders (ensure_legs fetch o b db).orders
  unfolding ensure_legs
  ensure_legs-Adds o b db e =
      if_cases (λ (x : Db). AddsFetched o db.orders x.orders) _ _ _
        (λ bare. adopt_fetched-Adds b o (fetch b) db e refl) (λ has. inl refl)

  ensured :
      (o : Order) (found : Option ℕ) (db : Db)
      → o.broker_order_id ≡ found
      → AddsFetched o db.orders
          (elim found as (λ x. Db) [
            | none ↦ db
            | some b ↦
                if is_bracket o.order_class && not (is_some o.parent_order_id)
                then ensure_legs fetch o b db
                else db
          ]).orders
  ensured o none db e = inl refl
  ensured o (some b) db e =
      if_cases (λ (x : Db). AddsFetched o db.orders x.orders) _ _ _
        (λ parent. ensure_legs-Adds o b db e) (λ other. inl refl)

  ensure_bracket-Adds :
      (o : Order) (db : Db) → AddsFetched o db.orders (ensure_bracket fetch o db).orders
  unfolding ensure_bracket
  ensure_bracket-Adds o db = ensured o o.broker_order_id db refl

  pub apply_update-Adds :
      (divide : ℤ → ℕ → ℤ) (o : Order) (u : TradeUpdate) (db : Db)
      → let o' = (apply_snapshot o u.order).0 in
        AddsFetched o' (put_order o' db.orders) (apply_update fetch divide o u db).orders
  unfolding apply_update
  apply_update-Adds divide o u db =
      let (o', plan) = apply_snapshot o u.order in
      let stored : Db = record db { orders = put_order o' db.orders } in
      let logged = log_skipped plan o.status o' u stored in
      subst (λ os. AddsFetched o' os (ensure_bracket fetch o' logged).orders)
        (log_skipped-orders plan o.status o' u stored) (ensure_bracket-Adds o' logged)
