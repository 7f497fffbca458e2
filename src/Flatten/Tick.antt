-- ===== src/Flatten/Tick.antt =====
-- What one tick of the flatten controller can do.
use roi_gen.Base.{
  ℕ, ◌+◌, ◌≡◌, ◌⊎◌, inl, inr, refl, ◌∙◌, Bool, true, false, not, ◌&&◌, ◌||◌, Option, none, some,
  List, ◌∷◌, ltb, arith, length, if_cases,
}
use roi_gen.Models.Rows.{Lot}
use roi_gen.Flatten.Exposure.{Exposure, exposed, fully_covered, member}
use roi_gen.Flatten.Controller.{
  Clock, Session, Controller, Reads, drive_kill_flatten, maybe_next_open_flatten, drive,
  post_close_check, session_rules, after_kill, sleep_toward, tick, close_of, driven, verify_flat,
  pruned, is_stale_exposure,
}

-- A rule publishes only into an open market, and touches the command log only on a clean read.
pub record Careful (clock : Clock) (first : Exposure) (c d : Controller) : Type 0 where
  pub in_session : (d.published ≡ c.published) ⊎ (clock.is_open ≡ true)
  pub verified : (d.log ≡ c.log) ⊎ (exposed first ≡ false)

-- The same of a rule's answer.
record CarefulRule (clock : Clock) (first : Exposure) (c : Controller) (r : Bool × Controller)
    : Type 0 where
  careful : Careful clock first c r.1

nothing :
    {clock : Clock} {first : Exposure} {c : Controller} (b : Bool)
    → CarefulRule clock first c (b, c)
nothing b = record { careful = record { in_session = inl refl; verified = inl refl } }

negated : (b : Bool) → not b ≡ true → b ≡ false
negated true h = absurd (grind arith)
negated false h = refl

first_disjunct : (b o : Bool) → not b || o ≡ false → b ≡ true
first_disjunct true o h = refl
first_disjunct false o h = absurd (grind arith)

opened : (clock : Clock) → not clock.is_open ≡ false → clock.is_open ≡ true
opened clock h = grind (arith, h)

verify_flat-published : (c : Controller) → (verify_flat c).published ≡ c.published
verify_flat-published c =
    if_cases (λ d. Controller.published d ≡ c.published) _ _ _ (λ e. refl) (λ e. refl)

drive_kill_flatten-Careful :
    (clock : Clock) (first : Exposure) (c : Controller)
    → CarefulRule clock first c (drive_kill_flatten clock first c)
drive_kill_flatten-Careful clock first c =
    if_cases (CarefulRule clock first c) (not (exposed first)) _ _
      (λ e. record {
        careful = record { in_session = inl (verify_flat-published c); verified = inr (clean e) };
      })
      (λ e.
        if_cases (CarefulRule clock first c) (not clock.is_open) _ _ (λ o. nothing false)
          (λ o.
            if_cases (CarefulRule clock first c) (fully_covered first) _ _ (λ f. nothing true)
              (λ f. record {
                careful = record { in_session = inr (opened clock o); verified = inl refl };
              })))
  where
    clean : not (exposed first) ≡ true → exposed first ≡ false
    clean h = negated (exposed first) h

maybe_next_open_flatten-Careful :
    (session : Session) (clock : Clock) (first second : Exposure) (lots : List Lot) (c : Controller)
    → CarefulRule clock first c (maybe_next_open_flatten session clock second lots c)
maybe_next_open_flatten-Careful session clock first second lots c =
    let P = CarefulRule clock first c in
    if_cases P (member session.trading_date c.next_open_fired) _ _ (λ e. nothing false)
      (λ e.
        if_cases P (not clock.is_open || ltb clock.timestamp (session.rth_open + 15000000)) _ _
          (λ o. nothing false)
          (λ o.
            if_cases P (not (exposed second)) _ _
              (λ x. record { careful = record { in_session = inl refl; verified = inl refl } })
              (λ x.
                if_cases P (not (is_stale_exposure session second lots c)) _ _
                  (λ t. record { careful = record { in_session = inl refl; verified = inl refl } })
                  (λ t.
                    if_cases P (fully_covered second) _ _ (λ f. nothing true)
                      (λ f. record {
                        careful = record {
                          in_session = inr (first_disjunct clock.is_open _ o);
                          verified = inl refl;
                        };
                      })))))

-- Two controllers that have published the same and share the command log.
abbrev SameOut : Controller → Controller → Type 0
SameOut c d = (d.published ≡ c.published) × (d.log ≡ c.log)

pruned-SameOut : (c : Controller) → SameOut c (pruned c)
pruned-SameOut c =
    if_cases (SameOut c) (ltb 30 (length c.post_close_checked)) _ _ (λ e. (refl, refl))
      (λ e. (refl, refl))

post_close_check-SameOut :
    (session : Session) (second : Exposure) (c : Controller)
    → SameOut c (post_close_check session second c)
post_close_check-SameOut session second c =
    let same =
      pruned-SameOut
        (record c { post_close_checked = session.trading_date ∷ c.post_close_checked }) in
    if_cases (SameOut c) (member session.trading_date c.post_close_checked) _ _ (λ e. (refl, refl))
      (λ e. if_cases (SameOut c) (exposed second) _ _ (λ x. same) (λ x. same))

SameOut-Careful :
    {clock : Clock} {first : Exposure} {c d : Controller} → SameOut c d → Careful clock first c d
SameOut-Careful s = record { in_session = inl s.0; verified = inl s.1 }

-- The same of an answer with a sleep.
record CarefulSleep (clock : Clock) (first : Exposure) (c : Controller) (r : ℕ × Controller)
    : Type 0 where
  careful : Careful clock first c r.1

driven-Careful :
    (clock : Clock) (first : Exposure) (c : Controller) (r : Bool × Controller) (sleep : ℕ)
    → CarefulRule clock first c r
    → CarefulSleep clock first c (driven r sleep)
driven-Careful clock first c (b, d) sleep k = record { careful = k.careful }

drive-Careful :
    (clock : Clock) (first second : Exposure) (c : Controller)
    → clock.is_open ≡ true
    → Careful clock first c (drive second c)
drive-Careful clock first second c o =
    if_cases (Careful clock first c) (not (exposed second) || fully_covered second) _ _
      (λ e. SameOut-Careful (refl, refl)) (λ e. record { in_session = inr o; verified = inl refl })

last_conjunct : (b o : Bool) → b && o ≡ true → o ≡ true
last_conjunct true o h = h
last_conjunct false o h = absurd (grind arith)

session_rules-Careful :
    (reads : Reads) (session : Session) (c : Controller)
    → CarefulSleep reads.clock reads.first c (session_rules reads session c)
session_rules-Careful reads session c =
    let clock = reads.clock in
    let now = clock.timestamp in
    let P = CarefulSleep clock reads.first c in
    if_cases P (ltb now session.rth_open) _ _
      (λ e. record { careful = SameOut-Careful (refl, refl) })
      (λ e.
        if_cases P (ltb (now + c.flatten_buffer) (close_of session clock)) _ _
          (λ w.
            driven-Careful clock reads.first c
              (maybe_next_open_flatten session clock reads.second reads.lots c) _
              (maybe_next_open_flatten-Careful session clock reads.first reads.second reads.lots c))
          (λ w.
            if_cases P (ltb now (close_of session clock) && clock.is_open) _ _
              (λ o. record {
                careful =
                    drive-Careful clock reads.first reads.second c
                      (last_conjunct _ clock.is_open o);
              })
              (λ o. record {
                careful = SameOut-Careful (post_close_check-SameOut session reads.second c);
              })))

Careful-trans :
    {clock : Clock} {first : Exposure} {c d e : Controller}
    → Careful clock first c d
    → Careful clock first d e
    → Careful clock first c e
Careful-trans h k = record {
  in_session = elim k.in_session [
    | inr o ↦ inr o
    | inl p ↦ elim h.in_session [ inr o ↦ inr o | inl q ↦ inl (p ∙ q) ]
  ];
  verified = elim k.verified [
    | inr o ↦ inr o
    | inl p ↦ elim h.verified [ inr o ↦ inr o | inl q ↦ inl (p ∙ q) ]
  ];
}

after_kill-Careful :
    (reads : Reads) (c : Controller) (r : Bool × Controller)
    → CarefulRule reads.clock reads.first c r
    → CarefulSleep reads.clock reads.first c (after_kill reads r)
after_kill-Careful reads c (true, d) k = record { careful = k.careful }
after_kill-Careful reads c (false, d) k =
    elim reads.session
      as (λ (o : Option Session). CarefulSleep reads.clock reads.first c (elim o [
        | none ↦ (sleep_toward reads.clock.timestamp reads.clock.next_open, d)
        | some session ↦ session_rules reads session d
      ])) [
        | none ↦ record { careful = k.careful }
        | some session ↦ record {
          careful = Careful-trans k.careful (session_rules-Careful reads session d).careful;
        }
      ]

-- Whatever a tick reads, it publishes a flatten only where the clock says that the market is open, and
-- touches the command log only where the first read of the exposure is clean.
pub tick-Careful :
    (reads : Reads) (c : Controller) → Careful reads.clock reads.first c (tick reads c).1
tick-Careful reads c =
    (after_kill-Careful reads c _ (
      if_cases (CarefulRule reads.clock reads.first c) c.switch.flattening _ _
        (λ e. drive_kill_flatten-Careful reads.clock reads.first c) (λ e. nothing false))).careful
