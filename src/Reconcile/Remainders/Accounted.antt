-- ===== src/Reconcile/Remainders/Accounted.antt =====
-- What the companion rows say after a pass: each anomaly is resolved or has one more failed retry.
use roi_gen.Base.{
  ℕ, ◌+◌, ◌≤◌, ◌≡◌, ◌≢◌, ◌⊎◌, refl, sym, ◌∙◌, subst, Bool, true, ◌&&◌, not, List, [], ◌∷◌, arith,
  ltb, leb, if_cases, All, Fresh, Distinct, Bool-cases, inl, inr,
}
use roi_gen.Models.Rows.{EventLog, Db}
use roi_gen.Execution.Lots.{LotApplication, apply_fill_to_lots}
use roi_gen.Execution.Lots.Totals.{apply_fill_to_lots-strategy_less}
use roi_gen.Reconcile.Remainders.{
  Remainder, anomalies, has_resolution, failed_cycles, is_alerted, remainder_alert_cycles,
  retry_fill, log_applied, log_failed, log_retry, retry_one, retry_each, retry_unapplied_remainders,
}
use roi_gen.Reconcile.Remainders.Keys.{keys, anomalies-Distinct}

applied-log :
    (portfolio : ℕ) (m : Remainder) (db : Db)
    → (apply_fill_to_lots (retry_fill portfolio m) db).1.event_log ≡ db.event_log
applied-log portfolio m db =
    let h = (apply_fill_to_lots-strategy_less (retry_fill portfolio m) db refl).3 in
    ground (arith, h)

-- From one log to another, the companions of an anomaly are the same, or it is resolved or alerted.
record Quiet (portfolio : ℕ) (m : Remainder) (old new : List EventLog) : Type 0 where
  resolved :
      has_resolution portfolio m.anomaly_id old ≡ true
      → has_resolution portfolio m.anomaly_id new ≡ true
  failed : failed_cycles portfolio m.anomaly_id new ≡ failed_cycles portfolio m.anomaly_id old
  alerted :
      is_alerted portfolio m.anomaly_id old ≡ true → is_alerted portfolio m.anomaly_id new ≡ true

Quiet-refl : (portfolio : ℕ) (m : Remainder) (log : List EventLog) → Quiet portfolio m log log
Quiet-refl portfolio m log = record { resolved = λ h. h; failed = refl; alerted = λ h. h }

Quiet-then :
    {portfolio : ℕ} {m : Remainder} {a b c : List EventLog}
    → Quiet portfolio m a b
    → Quiet portfolio m b c
    → Quiet portfolio m a c
Quiet-then p q = record {
  resolved = λ h. q.resolved (p.resolved h);
  failed = q.failed ∙ p.failed;
  alerted = λ h. q.alerted (p.alerted h);
}

-- The pass has dealt with the anomaly.
abbrev pub Told : ℕ → List EventLog → Remainder → List EventLog → Type 0
Told portfolio before m log =
    (has_resolution portfolio m.anomaly_id log ≡ true)
    ⊎ ((failed_cycles portfolio m.anomaly_id log ≡ failed_cycles portfolio m.anomaly_id before + 1)
        × (3 ≤ failed_cycles portfolio m.anomaly_id log
            → is_alerted portfolio m.anomaly_id log ≡ true))

Told-Quiet :
    (portfolio : ℕ) (before : List EventLog) (m : Remainder) (a b : List EventLog)
    → Told portfolio before m a
    → Quiet portfolio m a b
    → Told portfolio before m b
Told-Quiet portfolio before m a b (inl h) q = inl (q.resolved h)
Told-Quiet portfolio before m a b (inr (h, k)) q =
    inr (q.failed ∙ h, λ many. q.alerted (k (omega (arith, many, q.failed))))

module _ (portfolio : ℕ) where
  log_applied-Quiet :
      (x m : Remainder) (r : LotApplication) (db : Db)
      → Quiet portfolio m db.event_log (log_applied portfolio x r db).event_log
  log_applied-Quiet x m r db = elim (Bool-cases (ltb 0 r.unapplied_qty)) [
    | inl e ↦ rw e (record { resolved = λ h. ground (arith, h); failed = refl; alerted = λ h. h })
    | inr e ↦ rw e (record { resolved = λ h. ground (arith, h); failed = refl; alerted = λ h. h })
  ]

  log_failed-Quiet :
      (x m : Remainder) (cycle : ℕ) (alerted : Bool) (db : Db)
      → x.anomaly_id ≢ m.anomaly_id
      → Quiet portfolio m db.event_log (log_failed portfolio x cycle alerted db).event_log
  log_failed-Quiet x m cycle alerted db ne =
      elim (Bool-cases (leb remainder_alert_cycles cycle && not alerted)) [
        | inl e ↦ rw e (record {
          resolved = λ h. h;
          failed = ground (arith, ne);
          alerted = λ h. ground (arith, h);
        })
        | inr e ↦ rw e (record { resolved = λ h. h; failed = ground (arith, ne); alerted = λ h. h })
      ]

  log_retry-Quiet :
      (before : List EventLog) (x m : Remainder) (count : ℕ) (r : LotApplication) (db : Db)
      → x.anomaly_id ≢ m.anomaly_id
      → Quiet portfolio m db.event_log (log_retry portfolio before x (r, db) count).1.event_log
  log_retry-Quiet before x m count r db ne =
      if_cases {A = ℕ × Db} (λ st. Quiet portfolio m db.event_log st.1.event_log)
        (ltb 0 r.qty_closed) _ _ (λ e. log_applied-Quiet x m r db)
        (λ e. log_failed-Quiet x m _ _ db ne)

  retry_one-Quiet :
      (before : List EventLog) (x m : Remainder) (count : ℕ) (db : Db)
      → x.anomaly_id ≢ m.anomaly_id
      → Quiet portfolio m db.event_log (retry_one portfolio before x (count, db)).1.event_log
  unfolding retry_one
  retry_one-Quiet before x m count db ne =
      let (r, db') = apply_fill_to_lots (retry_fill portfolio x) db in
      if_cases {A = ℕ × Db} (λ st. Quiet portfolio m db.event_log st.1.event_log)
        (has_resolution portfolio x.anomaly_id before) _ _
        (λ e. Quiet-refl portfolio m db.event_log)
        (λ e.
          Quiet-then
            (subst (Quiet portfolio m db.event_log) (sym (applied-log portfolio x db))
              (Quiet-refl portfolio m db.event_log))
            (log_retry-Quiet before x m count r db' ne))

  retry_each-Quiet :
      (before : List EventLog) (ms : List Remainder) (m : Remainder) (count : ℕ) (db : Db)
      → Fresh m.anomaly_id (keys ms)
      → Quiet portfolio m db.event_log (retry_each portfolio before ms (count, db)).1.event_log
  unfolding retry_each
  retry_each-Quiet before [] m count db f = Quiet-refl portfolio m db.event_log
  retry_each-Quiet before (x ∷ ms) m count db f =
      let (n, db') = retry_one portfolio before x (count, db) in
      Quiet-then (retry_one-Quiet before x m count db (λ e. f.0 (sym e)))
        (retry_each-Quiet before ms m n db' f.1)

  log_applied-Told :
      (before : List EventLog) (m : Remainder) (r : LotApplication) (db : Db)
      → Told portfolio before m (log_applied portfolio m r db).event_log
  log_applied-Told before m r db = elim (Bool-cases (ltb 0 r.unapplied_qty)) [
    | inl e ↦ rw e (inl (ground arith))
    | inr e ↦ rw e (inl (ground arith))
  ]

  log_failed-Told :
      (before : List EventLog) (m : Remainder) (db : Db)
      → Quiet portfolio m before db.event_log
      → Told portfolio before m
          (log_failed portfolio m
            (failed_cycles portfolio m.anomaly_id before + 1)
            (is_alerted portfolio m.anomaly_id before)
            db).event_log
  log_failed-Told before m db q =
      elim (Bool-cases (
        leb remainder_alert_cycles (failed_cycles portfolio m.anomaly_id before + 1)
        && not (is_alerted portfolio m.anomaly_id before))) [
          | inl e ↦ rw e (inr (ground (arith, q.failed), λ many. ground arith))
          | inr e ↦ rw e (
              inr (
                ground (arith, q.failed),
                λ many. elim (Bool-cases (is_alerted portfolio m.anomaly_id before)) [
                  | inl k ↦ q.alerted k
                  | inr k ↦ absurd (ground (arith, e, k, many, q.failed))
                ],
              ))
        ]

  retry_one-Told :
      (before : List EventLog) (m : Remainder) (count : ℕ) (db : Db)
      → Quiet portfolio m before db.event_log
      → Told portfolio before m (retry_one portfolio before m (count, db)).1.event_log
  unfolding retry_one
  retry_one-Told before m count db q =
      let (r, db') = apply_fill_to_lots (retry_fill portfolio m) db in
      if_cases {A = ℕ × Db} (λ st. Told portfolio before m st.1.event_log)
        (has_resolution portfolio m.anomaly_id before) _ _ (λ e. inl (q.resolved e))
        (λ e.
          if_cases {A = ℕ × Db} (λ st. Told portfolio before m st.1.event_log) (ltb 0 r.qty_closed)
            _ _ (λ k. log_applied-Told before m r db')
            (λ k.
              log_failed-Told before m db'
                (subst (Quiet portfolio m before) (sym (applied-log portfolio m db)) q)))

  unheard :
      (before : List EventLog) (m : Remainder) (ms : List Remainder) (count : ℕ) (db : Db)
      → Fresh m.anomaly_id (keys ms)
      → All (λ x. Quiet portfolio x before db.event_log) ms
      → All
          (λ x. Quiet portfolio x before (retry_one portfolio before m (count, db)).1.event_log)
          ms
  unheard before m [] count db f h = tt
  unheard before m (x ∷ ms) count db f h = (
    Quiet-then h.0 (retry_one-Quiet before m x count db f.0),
    unheard before m ms count db f.1 h.1,
  )

  All-Quiet : (log : List EventLog) (ms : List Remainder) → All (λ m. Quiet portfolio m log log) ms
  All-Quiet log [] = tt
  All-Quiet log (m ∷ ms) = (Quiet-refl portfolio m log, All-Quiet log ms)

  retry_each-Told :
      (before : List EventLog) (ms : List Remainder) (count : ℕ) (db : Db)
      → Distinct (keys ms)
      → All (λ m. Quiet portfolio m before db.event_log) ms
      → let log = (retry_each portfolio before ms (count, db)).1.event_log in
        All (λ m. Told portfolio before m log) ms
  unfolding retry_each
  retry_each-Told before [] count db d h = tt
  retry_each-Told before (m ∷ ms) count db d h =
      let (n, db') = retry_one portfolio before m (count, db) in
      (
        Told-Quiet portfolio before m db'.event_log _ (retry_one-Told before m count db h.0)
            (retry_each-Quiet before ms m n db' d.0),
        retry_each-Told before ms n db' d.1 (unheard before m ms count db d.0 h.1),
      )

  -- After a pass over the parked remainders, each anomaly of the portfolio is resolved, or it has
  -- exactly one more failed retry on record than before; where that makes three or more, an alert
  -- about it is on record.
  pub retry_unapplied_remainders-Told :
      (db : Db)
      → let log = (retry_unapplied_remainders portfolio db).1.event_log in
        All (λ m. Told portfolio db.event_log m log) (anomalies portfolio db.event_log)
  unfolding retry_unapplied_remainders
  retry_unapplied_remainders-Told db =
      retry_each-Told db.event_log (anomalies portfolio db.event_log) 0 db
        (anomalies-Distinct portfolio db.event_log)
        (All-Quiet db.event_log (anomalies portfolio db.event_log))
