-- ===== src/Reconcile/Portfolio/Outcome.antt =====
-- What a whole run comes to, what an order that the broker does not know comes to, and the stream
-- after a run.
use roi_gen.Base.{
  ℕ, ◌+◌, ◌<◌, ◌≡◌, ◌⊎◌, refl, true, false, ◌&&◌, none, arith, Bool-cases, Option-cases, inl, inr,
}
use roi_gen.Models.Enums.{OrderStatus, known}
use roi_gen.Models.Rows.{Order, Db, put_order}
use roi_gen.Reconcile.Adopt.{refresh, awaits_submit, has_aged_out, handle_unknown}
use roi_gen.Reconcile.Grows.{Grows}

-- Where an order is not known to the broker.
abbrev pub Careful : Order → ℕ → Db → ℕ × Db → Type 0
Careful local now db (missing, db') =
    ((missing ≡ 0)
      × (awaits_submit local.status ≡ true)
      × (local.broker_order_id ≡ none)
      × (local.created_at + 120000000 < now)
      × (awaits_submit (refresh local db).status ≡ true)
      × (db'.orders
          ≡ put_order (record (refresh local db) { status = known OrderStatus.failed }) db.orders))
    ⊎ ((missing ≡ 1)
        × ((has_aged_out local now && awaits_submit (refresh local db).status) ≡ false)
        × (db'.orders ≡ db.orders))

aged_out :
    (local : Order) (now : ℕ)
    → has_aged_out local now ≡ true
    → (awaits_submit local.status ≡ true)
      × (local.broker_order_id ≡ none)
      × (local.created_at + 120000000 < now)
aged_out local now h = elim (Option-cases local.broker_order_id) [
  | inl e ↦ (ground (arith, h), e, ground (arith, h))
  | inr (b, e) ↦ absurd (ground (arith, h, e))
]

-- An order of unknown fate is marked failed only if it was read as a pending row without a broker
-- id past the grace and is still pending when it is read again under the lock. Then only that row
-- changes and nothing is counted missing; in every other case no order row changes and the order is
-- counted missing.
pub handle_unknown-Careful :
    (portfolio : ℕ) (local : Order) (now : ℕ) (db : Db)
    → Careful local now db (handle_unknown portfolio local now db)
unfolding handle_unknown
handle_unknown-Careful portfolio local now db = elim (Bool-cases (has_aged_out local now)) [
  | inr e ↦ rw e (inr (refl, refl, refl))
  | inl e ↦ elim (Bool-cases (awaits_submit (refresh local db).status)) [
    | inr k ↦ rw (e, k) (inr (refl, refl, refl))
    | inl k ↦
        let (pending, unsent, aged) = aged_out local now e in
        rw (e, k) (inl (refl, pending, unsent, aged, refl, refl))
  ]
]
