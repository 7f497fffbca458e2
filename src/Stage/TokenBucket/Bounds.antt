-- ===== src/Stage/TokenBucket/Bounds.antt =====
-- What the bucket lets through, and that a request that waited long enough is let through.
use roi_gen.Base.{
  ℕ, ◌+◌, ◌-◌, ◌*◌, ◌≤◌, ◌<◌, ◌≡◌, refl, sym, ap, ◌∙◌, true, none, some, List, [], ◌∷◌, arith, ltb,
  leb, Bool-cases, Option-cases, inl, inr, subst,
}
use mathlib.Core.Option.{some-injective}
use roi_gen.Stage.TokenBucket.{TokenBucket, refill, acquire_loop}

-- From one bucket to another, `spent` units were taken: no more than there were and what accrued
-- between the two instants.
pub record Spends (spent : ℕ) (b b' : TokenBucket) : Type 0 where
  pub same_rate : b'.rate_per_minute ≡ b.rate_per_minute
  pub same_capacity : b'.capacity ≡ b.capacity
  pub onward : b.updated_at ≤ b'.updated_at
  pub covered :
      spent + b'.tokens + b.updated_at * b.rate_per_minute
      ≤ b.tokens + b'.updated_at * b.rate_per_minute
  pub full : b.tokens ≤ b.capacity → b'.tokens ≤ b'.capacity

accrued : (u now rate : ℕ) → u ≤ now → (now - u) * rate + u * rate ≡ now * rate
accrued u now rate h =
    let split : now ≡ (now - u) + u = omega (arith, h) in
    sym (ap (λ t. t * rate) split ∙ (omega arith))

nothing : (b : TokenBucket) → Spends 0 b b
nothing b = record {
  same_rate = refl;
  same_capacity = refl;
  onward = omega arith;
  covered = omega arith;
  full = λ h. h;
}

refill-Spends : (now : ℕ) (b : TokenBucket) → Spends 0 b (refill now b)
unfolding refill
refill-Spends now b = elim (Bool-cases (ltb b.updated_at now)) [
  | inr e ↦ rw e (record {
    same_rate = refl;
    same_capacity = refl;
    onward = omega arith;
    covered = omega arith;
    full = λ h. h;
  })
  | inl e ↦
      let later : b.updated_at ≤ now = ground (arith, e) in
      let gained = accrued b.updated_at now b.rate_per_minute later in
      rw e (record {
        same_rate = refl;
        same_capacity = refl;
        onward = later;
        covered = omega (arith, gained);
        full = λ h. omega arith;
      })
]

Spends-then : {m n : ℕ} {a b c : TokenBucket} → Spends m a b → Spends n b c → Spends (m + n) a c
Spends-then {m} {n} {a} {b} {c} p q = record {
  same_rate = q.same_rate ∙ p.same_rate;
  same_capacity = q.same_capacity ∙ p.same_capacity;
  onward = omega (arith, p.onward, q.onward);
  covered =
      let later : n + c.tokens + b.updated_at * a.rate_per_minute
          ≤ b.tokens + c.updated_at * a.rate_per_minute =
        subst (λ r. n + c.tokens + b.updated_at * r ≤ b.tokens + c.updated_at * r) p.same_rate
          q.covered in
      omega (arith, p.covered, later);
  full = λ h. q.full (p.full h);
}

Spends-after : {n : ℕ} {a b c : TokenBucket} → Spends 0 a b → Spends n b c → Spends n a c
Spends-after {n} {a} {b} {c} p q =
    let same : 0 + n ≡ n = omega arith in subst (λ k. Spends k a c) same (Spends-then p q)

acquire_loop-Spends :
    (wanted : ℕ) (clock : List ℕ) (b b' : TokenBucket)
    → acquire_loop wanted clock b ≡ some b'
    → Spends wanted b b'
unfolding acquire_loop
acquire_loop-Spends wanted [] b b' e = absurd (cc e)
acquire_loop-Spends wanted (now ∷ later) b b' e =
    let filled = refill now b in
    elim (Bool-cases (leb wanted filled.tokens)) [
      | inl enough ↦
          let taken : record filled { tokens = filled.tokens - wanted } ≡ b' =
            some-injective _ _ (rw enough at e) in
          let one : Spends wanted filled (record filled { tokens = filled.tokens - wanted }) =
            record {
              same_rate = refl;
              same_capacity = refl;
              onward = omega arith;
              covered = ground (arith, enough);
              full = λ h. omega (arith, h);
            } in
          subst (Spends wanted b) taken (Spends-after (refill-Spends now b) one)
      | inr short ↦
          Spends-after (refill-Spends now b)
            (acquire_loop-Spends wanted later filled b' (rw short at e))
    ]

-- Requests one after another, each with its readings of the clock; the units that were let through.
unfoldable pub acquire_all : List (ℕ × List ℕ) → TokenBucket → ℕ × TokenBucket
acquire_all [] b = (0, b)
acquire_all ((wanted, clock) ∷ rest) b = elim (acquire_loop wanted clock b) [
  | none ↦ (0, b)
  | some b' ↦ let (granted, last) = acquire_all rest b' in (wanted + granted, last)
]

-- Over any requests one after another, with any readings of the clock, the units that the bucket
-- lets through and those it still holds are no more than those it held and the rate times the
-- time that went by, and it never holds more than its capacity if it did not before.
pub acquire_all-Spends :
    (requests : List (ℕ × List ℕ)) (b : TokenBucket)
    → Spends (acquire_all requests b).0 b (acquire_all requests b).1
unfolding acquire_all
acquire_all-Spends [] b = nothing b
acquire_all-Spends ((wanted, clock) ∷ rest) b = elim (Option-cases (acquire_loop wanted clock b)) [
  | inl e ↦ rw (e, acquire_all) (nothing b)
  | inr (b', e) ↦
      rw (e, acquire_all)
        (Spends-then (acquire_loop-Spends wanted clock b b' e) (acquire_all-Spends rest b'))
]

refilled_enough :
    (wanted woken : ℕ) (b : TokenBucket)
    → wanted ≤ b.capacity
    → b.updated_at < woken
    → wanted ≤ b.tokens + (woken - b.updated_at) * b.rate_per_minute
    → leb wanted (refill woken b).tokens ≡ true
unfolding refill
refilled_enough wanted woken b fits later accrues =
    let on : ltb b.updated_at woken ≡ true = ground (arith, later) in
    rw on (ground (arith, fits, accrues))

-- A request within the capacity that has waited, after its first reading of the clock, until its
-- deficit has accrued is let through at its second reading at the latest.
pub acquire_loop-ends :
    (wanted now woken : ℕ) (b : TokenBucket)
    → wanted ≤ b.capacity
    → (refill now b).updated_at < woken
    → wanted ≤ (refill now b).tokens + (woken - (refill now b).updated_at) * b.rate_per_minute
    → (b' : TokenBucket) × (acquire_loop wanted (now ∷ woken ∷ []) b ≡ some b')
unfolding acquire_loop
acquire_loop-ends wanted now woken b fits later accrues =
    let filled = refill now b in
    let spent = refill-Spends now b in
    elim (Bool-cases (leb wanted filled.tokens)) [
      | inl enough ↦ (record filled { tokens = filled.tokens - wanted }, rw enough refl)
      | inr short ↦
          let refilled = refill woken filled in
          let full : leb wanted refilled.tokens ≡ true =
            refilled_enough wanted woken filled (omega (arith, fits, spent.same_capacity)) later (
              subst (λ r. wanted ≤ filled.tokens + (woken - filled.updated_at) * r)
                (sym spent.same_rate) accrues) in
          (record refilled { tokens = refilled.tokens - wanted }, rw (short, full) refl)
    ]
