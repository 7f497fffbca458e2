-- ===== src/Risk/Verdict.antt =====
-- What an approval of `RiskEngine.evaluate` stands for: backend/app/engine/risk/engine.py.
use roi_gen.Base.{
  ℕ, ◌+◌, ◌*◌, ◌≤◌, ◌<◌, ◌≡◌, refl, sym, subst, true, false, Option, none, some, List, [], ◌∷◌, map,
  ℤ, pos, arith, All, select, select-empty, All-weaken, ◌⊎◌, ◌||◌, not, Bool, ◌*ℤ◌, ◌+ℤ◌, ◌-ℤ◌,
  ◌≤ℤ◌, ltb_ℤ, abs, Bool-cases, inl, inr,
}
use roi_gen.Models.Enums.{OrderType, OrderClass}
use roi_gen.Risk.Request.{OrderRequest, is_refused, validate, quantize_price}
use roi_gen.Risk.Controls.{
  SignalEvent, RiskState, RiskLimits, ControlCheck, size_position, loss_hit, is_entry_type, is_day,
  below_cap, cooled_down, drawdown_at_least,
}
use roi_gen.Risk.Engine.{
  RiskApproval, RiskDecision, is_failed_check, evaluated_checks, order_request_of, approved_with,
  decide, evaluate, mint_approval,
}
use roi_gen.Risk.Sizing.{
  Affordable, share_risk, budget, size_position-Affordable, Affordable-passed,
}

-- Of a limit on losses: it is off, or the result has not fallen to it.
abbrev Within : ℤ → ℤ → Type 0
Within limit observed = (limit ≤ℤ pos 0) ⊎ (pos 1 ≤ℤ observed +ℤ limit)

-- What must hold of the account, the session, the strategy and the signal for an entry. The shares
-- are those that the sizing finds.
pub record Cleared (limits : RiskLimits) (signal : SignalEvent) (state : RiskState) : Type 0 where
  pub armed : state.trading_halted ≡ false
  pub unblocked : (state.trading_blocked ≡ false) × (state.account_blocked ≡ false)
  pub entry_type : is_entry_type signal.order_type ≡ true
  pub for_day : is_day signal.time_in_force ≡ true
  pub regular : signal.extended_hours ≡ false
  pub in_session : state.market_open ≡ true
  pub before_cutoff : state.now + limits.flatten_buffer_minutes * 60000000 < state.next_close
  pub affordable :
      Affordable (share_risk signal) (budget state limits) (size_position signal state limits).qty
  -- The day's realized result of the strategy against a multiple of the risk of this entry, and the
  -- day's change of the equity against a percentage of it.
  pub strategy_loss :
      Within
        (limits.daily_loss_risk_multiple *ℤ (size_position signal state limits).risk_amount)
        (state.day_realized_pnl_strategy *ℤ pos 100000)
  pub portfolio_loss :
      Within
        (limits.daily_loss_limit_pct *ℤ state.equity)
        ((state.equity -ℤ state.last_equity) *ℤ pos 100000000)
  pub streak : state.consecutive_losses < limits.max_consecutive_losses
  pub above_water : drawdown_at_least state limits.drawdown_halt_pct ≡ false
  pub capped : below_cap state.strategy_max_positions state.open_positions_count ≡ true
  pub flat : state.strategy_open_qty ≡ 0
  pub cooled : cooled_down state.last_entry_at state.now limits.symbol_cooldown_seconds ≡ true
  -- The exposure with the entry, within the buying power times the factor.
  pub headroom :
      (pos (abs state.position_market_value)
          +ℤ (size_position signal state limits).qty *ℤ signal.entry_price)
        *ℤ pos 1000000
      ≤ℤ state.buying_power *ℤ limits.margin_headroom_factor

-- The request goes out as a bracket for the day with a stop, in regular hours.
pub record Protected (signal : SignalEvent) (request : OrderRequest) : Type 0 where
  pub bracket : request.order_class ≡ OrderClass.bracket
  pub stopped : request.stop_loss_stop_price ≡ some (quantize_price signal.stop_price)
  pub regular : request.extended_hours ≡ false
  pub for_day : is_day request.time_in_force ≡ true
  pub valid : validate request ≡ some request

-- The controls on the signal, with its sizing.
abbrev all_checks : RiskLimits → SignalEvent → RiskState → List ControlCheck
all_checks limits signal state =
    evaluated_checks signal state limits (size_position signal state limits)

-- The two outcomes of an evaluation.
pub data Verdict (limits : RiskLimits) (signal : SignalEvent) (state : RiskState)
    : Option RiskDecision → Type 0 where
  approved :
      (approval : RiskApproval) (request : OrderRequest)
      → Cleared limits signal state
      → Protected signal request
      → request.qty ≡ some approval.qty
      → Affordable (share_risk signal) (budget state limits) approval.qty
      → Verdict limits signal state (
          some (record {
            checks = all_checks limits signal state;
            approval = some approval;
            order_request = some request;
            reason = none;
          }))
  rejected :
      (failed : List ControlCheck) (first : ControlCheck)
      → select is_failed_check (all_checks limits signal state) ≡ first ∷ failed
      → ¬ Cleared limits signal state
      → Verdict limits signal state (
          some (record {
            checks = all_checks limits signal state;
            approval = none;
            order_request = none;
            reason = some (map ControlCheck.name (first ∷ failed));
          }))

passed : (check : ControlCheck) → is_failed_check check ≡ false → check.passed ≡ true
passed check h = grind (arith, h)

All-passed :
    (checks : List ControlCheck)
    → select is_failed_check checks ≡ []
    → All (λ c. c.passed ≡ true) checks
All-passed checks h = All-weaken _ _ checks passed (select-empty is_failed_check checks h)

neither : (a b : Bool) → not (a || b) ≡ true → (a ≡ false) × (b ≡ false)
neither false false h = (refl, refl)
neither false true h = absurd (cc h)
neither true b h = absurd (cc h)

both_off : (a b : Bool) → a ≡ false → b ≡ false → not (a || b) ≡ true
both_off a b h k = rw (h, k) refl

Within-unhit : (limit observed : ℤ) → loss_hit limit observed ≡ false → Within limit observed
Within-unhit limit observed h = elim (Bool-cases (ltb_ℤ (pos 0) limit)) [
  | inl e ↦ inr (ground (arith, h, e))
  | inr e ↦ inl (ground (arith, e))
]

unhit-Within : (limit observed : ℤ) → Within limit observed → loss_hit limit observed ≡ false
unhit-Within limit observed (inl off) = ground (arith, off)
unhit-Within limit observed (inr above) = ground (arith, above)

passed-select :
    (checks : List ControlCheck)
    → All (λ c. c.passed ≡ true) checks
    → select is_failed_check checks ≡ []
passed-select [] h = refl
passed-select (check ∷ checks) (ok, rest) = rw ok (passed-select checks rest)

module _ (limits : RiskLimits) (signal : SignalEvent) (state : RiskState) where
  checks-Cleared :
      All (λ c. c.passed ≡ true) (all_checks limits signal state) → Cleared limits signal state
  checks-Cleared
        (
          account,
          (
            entry,
            (
              day,
              (
                hours,
                (
                  session,
                  (size, (loss, (streak, (drawdown, (most, (flat, (cool, (room, rest)))))))),
                ),
              ),
            ),
          ),
        ) =
      record {
        armed = grind (arith, account);
        unblocked = (grind (arith, account), grind (arith, account));
        entry_type = entry;
        for_day = day;
        regular = grind (arith, hours);
        in_session = grind (arith, session);
        before_cutoff = grind (arith, session);
        affordable = size_position-Affordable signal state limits size;
        strategy_loss = Within-unhit _ _ (neither _ _ loss).0;
        portfolio_loss = Within-unhit _ _ (neither _ _ loss).1;
        streak = grind (arith, streak);
        above_water = grind (arith, drawdown);
        capped = most;
        flat = grind (arith, flat);
        cooled = cool;
        headroom = grind (arith, room);
      }

  Cleared-checks :
      Cleared limits signal state → All (λ c. c.passed ≡ true) (all_checks limits signal state)
  Cleared-checks c = (
    grind (arith, c.armed, c.unblocked),
    (
      c.entry_type,
      (
        c.for_day,
        (
          grind (arith, c.regular),
          (
            grind (arith, c.in_session, c.before_cutoff),
            (
              Affordable-passed signal state limits _ _ c.affordable,
              (
                both_off _ _ (unhit-Within _ _ c.strategy_loss) (unhit-Within _ _ c.portfolio_loss),
                (
                  grind (arith, c.streak),
                  (
                    grind (arith, c.above_water),
                    (
                      c.capped,
                      (grind (arith, c.flat), (c.cooled, (grind (arith, c.headroom), (refl, tt)))),
                    ),
                  ),
                ),
              ),
            ),
          ),
        ),
      ),
    ),
  )

  failed-Cleared :
      (first : ControlCheck) (failed : List ControlCheck)
      → select is_failed_check (all_checks limits signal state) ≡ first ∷ failed
      → ¬ Cleared limits signal state
  failed-Cleared first failed e c =
      let none_failed = passed-select (all_checks limits signal state) (Cleared-checks c) in
      absurd (cc (e, none_failed))

-- The request of a market or limit entry of at least one share is not refused.
request-accepted :
    (signal : SignalEvent) (order_type : OrderType) (shares id : ℕ)
    → is_entry_type order_type ≡ true
    → 1 ≤ shares
    → is_refused (
        order_request_of
          (record {
            signal_id = signal.signal_id;
            portfolio_id = signal.portfolio_id;
            strategy_id = signal.strategy_id;
            symbol = signal.symbol;
            side = signal.side;
            entry_price = signal.entry_price;
            stop_price = signal.stop_price;
            take_profit_price = signal.take_profit_price;
            order_type = order_type;
            time_in_force = signal.time_in_force;
            extended_hours = signal.extended_hours;
          })
          (pos shares)
          id)
      ≡ false
request-accepted signal OrderType.market shares id e h = grind arith
request-accepted signal OrderType.limit shares id e h = grind arith
request-accepted signal OrderType.stop shares id e h = absurd (grind arith)
request-accepted signal OrderType.stop_limit shares id e h = absurd (grind arith)
request-accepted signal OrderType.trailing_stop shares id e h = absurd (grind arith)

validate-accepted :
    (request : OrderRequest) → is_refused request ≡ false → validate request ≡ some request
validate-accepted request h = rw (h) refl

is_refused_at :
    (signal : SignalEvent) (id : ℕ) (qty : ℤ) (shares : ℕ)
    → qty ≡ pos shares
    → is_entry_type signal.order_type ≡ true
    → 1 ≤ shares
    → is_refused (order_request_of signal qty id) ≡ false
is_refused_at signal id qty shares e t h =
    rw (e) (request-accepted signal signal.order_type shares id t h)

decide-Verdict :
    (limits : RiskLimits) (signal : SignalEvent) (state : RiskState) (id now : ℕ)
    (failed : List ControlCheck)
    → let sizing = size_position signal state limits in
      let checks = all_checks limits signal state in
      select is_failed_check checks ≡ failed
      → Verdict limits signal state (decide signal state sizing id now checks failed)
decide-Verdict limits signal state id now (first ∷ failed) e =
    rejected failed first e (failed-Cleared limits signal state first failed e)
decide-Verdict limits signal state id now [] e =
    let sizing = size_position signal state limits in
    let checks = all_checks limits signal state in
    let clear = checks-Cleared limits signal state (All-passed checks e) in
    let request = order_request_of signal sizing.qty id in
    let accepted =
      is_refused_at signal id sizing.qty clear.affordable.shares clear.affordable.counted
        clear.entry_type clear.affordable.whole in
    let validated = validate-accepted request accepted in
    subst (λ o. Verdict limits signal state (approved_with signal state sizing id now checks o))
      (sym validated)
      (approved (mint_approval signal state sizing id now checks) request clear
        (record {
          bracket = refl;
          stopped = refl;
          regular = refl;
          for_day = clear.for_day;
          valid = validated;
        })
        refl clear.affordable)

-- Evaluating a signal always gives a decision. It approves exactly an entry for which every control
-- is met: the account, the session, the signal, the strategy's losses, positions and cooldown, the
-- day's loss limits, the drawdown, the margin headroom, and whole shares that the risk budget pays
-- for. An approval has a protected and valid request for those shares; a rejection names the
-- controls that failed.
pub evaluate-Verdict :
    (limits : RiskLimits) (signal : SignalEvent) (state : RiskState) (id now : ℕ)
    → Verdict limits signal state (evaluate limits signal state id now)
evaluate-Verdict limits signal state id now = decide-Verdict limits signal state id now _ refl
