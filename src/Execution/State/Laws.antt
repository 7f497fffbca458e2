-- ===== src/Execution/State/Laws.antt =====
-- What any sequence of snapshots, from any of the writers, can and cannot do to an order row.
use roi_gen.Base.{ℕ, ◌≤◌, ◌≡◌, ◌↔◌, refl, true, false, none, some, List, [], ◌∷◌, arith}
use roi_gen.Models.Enums.{StatusText, OrderStatus, apply, terminal_conflict}
use roi_gen.Models.Rows.{Order}
use roi_gen.Execution.State.{is_absorbing, plan_transition, BrokerOrder, apply_snapshot}

-- The order row after the snapshots of a list, in order.
pub replay : Order → List BrokerOrder → Order
replay o [] = o
replay o (b ∷ bs) = replay (apply_snapshot o b).0 bs

-- The plan is `apply` exactly for a row that is not absorbing and a snapshot that does not lower
-- the cumulative quantity; an absorbing row always gives `terminal_conflict`.
plan_transition-apply_iff :
    (local_status : StatusText) (local incoming : ℕ) (status : OrderStatus)
    → ((plan_transition local_status local status incoming ≡ apply)
        ↔ ((is_absorbing local_status ≡ false) × (local ≤ incoming)))
      × ((plan_transition local_status local status incoming ≡ terminal_conflict)
          ↔ (is_absorbing local_status ≡ true))
unfolding plan_transition
plan_transition-apply_iff l a b s =
    ((λ h. ground arith, λ h. ground arith), (λ h. ground arith, λ h. ground arith))

snapshot-absorbed :
    (o : Order) (b : BrokerOrder)
    → is_absorbing o.status ≡ true
    → ((apply_snapshot o b).0.status ≡ o.status)
      × ((apply_snapshot o b).0.filled_qty ≡ o.filled_qty)
      × ((apply_snapshot o b).0.filled_avg_price ≡ o.filled_avg_price)
unfolding apply_snapshot
snapshot-absorbed o b h = rw (h, plan_transition) (refl, refl, refl)

-- Once a row is absorbed, no sequence of snapshots changes its status, its filled quantity or its
-- average price.
pub replay-absorbed :
    (o : Order) (bs : List BrokerOrder)
    → is_absorbing o.status ≡ true
    → ((replay o bs).status ≡ o.status)
      × ((replay o bs).filled_qty ≡ o.filled_qty)
      × ((replay o bs).filled_avg_price ≡ o.filled_avg_price)
unfolding replay
replay-absorbed o [] h = (refl, refl, refl)
replay-absorbed o (b ∷ bs) h =
    let s = snapshot-absorbed o b h in
    ground (arith, s.0, s.1, s.2, replay-absorbed (apply_snapshot o b).0 bs)

snapshot-grows : (o : Order) (b : BrokerOrder) → o.filled_qty ≤ (apply_snapshot o b).0.filled_qty
unfolding apply_snapshot
snapshot-grows o b = ground arith

-- The filled quantity of a row never falls under any sequence of snapshots.
filled_qty-replay : (o : Order) (bs : List BrokerOrder) → o.filled_qty ≤ (replay o bs).filled_qty
unfolding replay
filled_qty-replay o [] = omega arith
filled_qty-replay o (b ∷ bs) =
    omega (arith, snapshot-grows o b, filled_qty-replay (apply_snapshot o b).0 bs)

snapshot-broker_id :
    (o : Order) (b : BrokerOrder) (n : ℕ)
    → o.broker_order_id ≡ some n
    → (apply_snapshot o b).0.broker_order_id ≡ some n
unfolding apply_snapshot
snapshot-broker_id o b n h = ground arith

snapshot-broker_id_set :
    (o : Order) (b : BrokerOrder)
    → o.broker_order_id ≡ none
    → (apply_snapshot o b).0.broker_order_id ≡ some b.broker_order_id
unfolding apply_snapshot
snapshot-broker_id_set o b h = ground arith

replay-broker_id_kept :
    (o : Order) (bs : List BrokerOrder) (n : ℕ)
    → o.broker_order_id ≡ some n
    → (replay o bs).broker_order_id ≡ some n
unfolding replay
replay-broker_id_kept o [] n h = h
replay-broker_id_kept o (b ∷ bs) n h =
    replay-broker_id_kept (apply_snapshot o b).0 bs n (snapshot-broker_id o b n h)

-- The first snapshot gives a row without a broker id that of its order, whatever the plan; no
-- later snapshot changes it.
replay-broker_id :
    (o : Order) (b : BrokerOrder) (bs : List BrokerOrder)
    → o.broker_order_id ≡ none
    → (replay o (b ∷ bs)).broker_order_id ≡ some b.broker_order_id
unfolding replay
replay-broker_id o b bs h =
    replay-broker_id_kept _ bs b.broker_order_id (snapshot-broker_id_set o b h)
