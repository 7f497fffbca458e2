-- ===== src/Execution/Legs/Adoption.antt =====
-- Adopting legs is idempotent: the nested order may be fetched again by any writer.
use roi_gen.Base.{
  ℕ, ◌≡◌, refl, Bool, true, false, ◌||◌, Option, none, some, List, [], ◌∷◌, arith, ==_iff, All,
  Bool-cases, inl, inr,
}
use roi_gen.Models.Rows.{Order, Db}
use roi_gen.Execution.State.{BrokerOrder}
use roi_gen.Execution.Legs.{
  children, knows_broker_id, knows_client_id, leg_row, add_order, persist_leg, persist_legs,
  persist_bracket_legs,
}

abbrev client_settled : List Order → Option ℕ → Bool
client_settled existing none = true
client_settled existing (some c) = knows_client_id existing c

abbrev settled_by : List Order → ℕ → Option ℕ → Bool
settled_by existing b client = knows_broker_id existing b || client_settled existing client

-- Nothing is left to do for a leg: it is known by either id, or has no client id to be stored under.
abbrev pub settled : List Order → BrokerOrder → Bool
settled existing leg = settled_by existing leg.broker_order_id leg.client_order_id

settled_by-cons :
    (o : Order) (ex : List Order) (b : ℕ) (client : Option ℕ)
    → settled_by ex b client ≡ true
    → settled_by (o ∷ ex) b client ≡ true
settled_by-cons o ex b none h = ground arith
settled_by-cons o ex b (some c) h = ground (arith, h)

skip_leg :
    (p : Order) (ex : List Order) (leg : BrokerOrder) (client : Option ℕ) (db : Db) (n : ℕ)
    → settled_by ex leg.broker_order_id client ≡ true
    → persist_leg p ex leg client db n ≡ (db, n)
unfolding persist_leg
skip_leg p ex leg none db n h = ground arith
skip_leg p ex leg (some c) db n h = ground (arith, h)

skip_legs :
    (p : Order) (ex : List Order) (legs : List BrokerOrder) (db : Db) (n : ℕ)
    → All (λ leg. settled ex leg ≡ true) legs
    → persist_legs p ex legs db n ≡ (db, n)
unfolding persist_legs
skip_legs p ex [] db n h = refl
skip_legs p ex (leg ∷ legs) db n h =
    rw (skip_leg p ex leg leg.client_order_id db n h.0) (skip_legs p ex legs db n h.1)

-- The children of a parent that knew a leg still know it.
abbrev Keeps : Order → Db → Db → Type 0
Keeps p db db' =
    (b : ℕ) (client : Option ℕ)
    → settled_by (children p.id db.orders) b client ≡ true
    → settled_by (children p.id db'.orders) b client ≡ true

add_order-Keeps :
    (p : Order) (leg : BrokerOrder) (c : ℕ) (db : Db)
    → Keeps p db (add_order (leg_row p leg c db.next_id db.now) db)
add_order-Keeps p leg c db b client h =
    rw ((==_iff p.id p.id).1 refl)
      (settled_by-cons (leg_row p leg c db.next_id db.now) (children p.id db.orders) b client h)

add_order-settled :
    (p : Order) (leg : BrokerOrder) (c : ℕ) (client : Option ℕ) (db : Db)
    → settled_by
        (children p.id (add_order (leg_row p leg c db.next_id db.now) db).orders)
        leg.broker_order_id
        client
      ≡ true
add_order-settled p leg c client db =
    rw ((==_iff p.id p.id).1 refl, (==_iff leg.broker_order_id leg.broker_order_id).1 refl) refl

persist_leg-Keeps :
    (p : Order) (ex : List Order) (leg : BrokerOrder) (client : Option ℕ) (db : Db) (n : ℕ)
    → Keeps p db (persist_leg p ex leg client db n).0
unfolding persist_leg
persist_leg-Keeps p ex leg none db n b cl h =
    elim (Bool-cases (knows_broker_id ex leg.broker_order_id)) [ inl e ↦ rw e h | inr e ↦ rw e h ]
persist_leg-Keeps p ex leg (some c) db n b cl h =
    elim (Bool-cases (knows_broker_id ex leg.broker_order_id)) [
      | inl e ↦ rw e h
      | inr e ↦ elim (Bool-cases (knows_client_id ex c)) [
        | inl k ↦ rw (e, k) h
        | inr k ↦ rw (e, k) (add_order-Keeps p leg c db b cl h)
      ]
    ]

-- After its round a leg is settled, if what the loop read still holds of the children.
persist_leg-settled :
    (p : Order) (ex : List Order) (leg : BrokerOrder) (client : Option ℕ) (db : Db) (n : ℕ)
    → (settled_by ex leg.broker_order_id client ≡ true
        → settled_by (children p.id db.orders) leg.broker_order_id client ≡ true)
    → settled_by
        (children p.id (persist_leg p ex leg client db n).0.orders)
        leg.broker_order_id
        client
      ≡ true
persist_leg-settled p ex leg none db n kept =
    persist_leg-Keeps p ex leg none db n leg.broker_order_id none (kept (ground arith))
persist_leg-settled p ex leg (some c) db n kept =
    elim (Bool-cases (settled_by ex leg.broker_order_id (some c))) [
      | inl e ↦ persist_leg-Keeps p ex leg (some c) db n leg.broker_order_id (some c) (kept e)
      | inr e ↦
          unfold persist_leg in
          rw
            (
              (let a : knows_broker_id ex leg.broker_order_id ≡ false = ground (arith, e) in a),
              (let b : knows_client_id ex c ≡ false = ground (arith, e) in b),
            )
            (add_order-settled p leg c (some c) db)
    ]

persist_legs-Keeps :
    (p : Order) (ex : List Order) (legs : List BrokerOrder) (db : Db) (n : ℕ)
    → Keeps p db (persist_legs p ex legs db n).0
unfolding persist_legs
persist_legs-Keeps p ex [] db n b cl h = h
persist_legs-Keeps p ex (leg ∷ legs) db n b cl h =
    persist_legs-Keeps p ex legs _ _ b cl
      (persist_leg-Keeps p ex leg leg.client_order_id db n b cl h)

persist_legs-settled :
    (p : Order) (ex : List Order) (legs : List BrokerOrder) (db : Db) (n : ℕ)
    → ((b : ℕ) (cl : Option ℕ)
        → settled_by ex b cl ≡ true
        → settled_by (children p.id db.orders) b cl ≡ true)
    → All (λ leg. settled (children p.id (persist_legs p ex legs db n).0.orders) leg ≡ true) legs
unfolding persist_legs
persist_legs-settled p ex [] db n kept = tt
persist_legs-settled p ex (leg ∷ legs) db n kept =
    let after = persist_leg p ex leg leg.client_order_id db n in
    (
      persist_legs-Keeps p ex legs after.0 after.1 leg.broker_order_id leg.client_order_id
          (persist_leg-settled p ex leg leg.client_order_id db n (kept _ _)),
      persist_legs-settled p ex legs after.0 after.1
          (λ b cl h. persist_leg-Keeps p ex leg leg.client_order_id db n b cl (kept b cl h)),
    )

-- After the legs of a bracket have been adopted, every leg with a client id is a child row of the
-- parent, by its broker id or its client id, and adopting the same legs again writes nothing.
pub persist_bracket_legs_idempotent :
    (p : Order) (legs : List BrokerOrder) (db : Db)
    → let db' = (persist_bracket_legs p legs db).0 in
      All (λ leg. settled (children p.id db'.orders) leg ≡ true) legs
      × (persist_bracket_legs p legs db' ≡ (db', 0))
unfolding persist_bracket_legs
persist_bracket_legs_idempotent p legs db =
    let done = persist_legs-settled p (children p.id db.orders) legs db 0 (λ b cl h. h) in
    let db' = (persist_legs p (children p.id db.orders) legs db 0).0 in
    (done, skip_legs p (children p.id db'.orders) legs db' 0 done)
