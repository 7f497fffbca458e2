-- ===== src/Flatten/Controller.antt =====
-- The tick of the flatten controller: `_tick` and the standing rules that it drives, of
-- backend/app/engine/flatten_controller.py. A tick reads the exposure once for the kill switch and
-- once for the rules of the session, and the broker can answer differently.
use roi_gen.Base.{
  ℕ, ◌+◌, ◌-◌, min, Bool, true, false, not, ◌&&◌, ◌||◌, Option, none, some, List, [], ◌∷◌, ltb, leb,
  ◌==◌, if◌then◌else◌, find, select, length,
}
use roi_gen.Models.Rows.{Lot}
use roi_gen.Models.Commands.{Text}
use roi_gen.Kill.Switch.{CommandLog, KillSwitch, flatten_command_seq, mark_flatten_verified}
use roi_gen.Risk.Engine.{FlattenEvent, FlattenSource, kill_switch, scheduled_close, next_open}
use roi_gen.Flatten.Exposure.{Exposure, exposed, fully_covered, member, exposure_predates}

pub record Clock : Type 0 where
  pub timestamp : ℕ
  pub is_open : Bool
  pub next_open : ℕ
  pub next_close : ℕ

pub record Session : Type 0 where
  pub trading_date : ℕ
  pub rth_open : ℕ
  pub rth_close : ℕ

-- The rows that the controller writes to the event log.
pub data FlattenAudit : Type 0 where
  completed : Option ℕ → FlattenAudit
  session_flat : ℕ → FlattenAudit
  overnight_exposure : ℕ → Exposure → FlattenAudit

pub record Controller : Type 0 where
  pub portfolio_id : ℕ
  pub flatten_buffer : ℕ
  pub switch : KillSwitch
  pub log : CommandLog
  pub post_close_checked : List ℕ
  pub next_open_snapshot : Option (ℕ × Bool)
  pub next_open_fired : List ℕ
  pub published : List FlattenEvent
  pub audits : List FlattenAudit
  pub next_id : ℕ

-- What a tick reads: the clock, the session of the day, the two answers on the exposure, and lots.
pub record Reads : Type 0 where
  pub clock : Clock
  pub session : Option Session
  pub first : Exposure
  pub second : Exposure
  pub lots : List Lot

-- Sleeps are in halves of a microsecond.
abbrev pub tick_in_window : ℕ
tick_in_window = 60000000

abbrev pub sleep_toward : ℕ → ℕ → ℕ
sleep_toward now target =
    let remaining = target - now in
    if remaining == 0
    then tick_in_window
    else if ltb 1800000000 remaining
    then min 1800000000 remaining
    else min 240000000 (if leb remaining 2000000 then 2000000 else remaining)

abbrev pub publish : FlattenSource → Text → Option ℕ → Controller → Controller
publish source reason command_seq c = record c {
  published =
      record {
        flatten_id = c.next_id;
        portfolio_id = c.portfolio_id;
        reason = reason;
        source = source;
        command_seq = command_seq;
      }
      ∷ c.published;
  next_id = c.next_id + 1;
}

abbrev pub audit : FlattenAudit → Controller → Controller
audit row c = record c { audits = row ∷ c.audits }

-- `reason or "operator flatten"`
abbrev pub operator_flatten : Text
operator_flatten =
    111 ∷ 112 ∷ 101 ∷ 114 ∷ 97 ∷ 116 ∷ 111 ∷ 114 ∷ 32 ∷ 102 ∷ 108 ∷ 97 ∷ 116 ∷ 116 ∷ 101 ∷ 110 ∷ []

abbrev pub reason_or : Option Text → Text
reason_or none = operator_flatten
reason_or (some []) = operator_flatten
reason_or (some (c ∷ text)) = c ∷ text

-- The controller after `mark_flatten_verified`.
abbrev pub verify_flat : Controller → Controller
verify_flat c =
    let marked = mark_flatten_verified c.switch c.log (flatten_command_seq c.switch) in
    let c' = record c { switch = marked.switch; log = marked.log } in
    if marked.newly then audit (completed (flatten_command_seq c.switch)) c' else c'

abbrev pub drive_kill_flatten : Clock → Exposure → Controller → Bool × Controller
drive_kill_flatten clock exposure c =
    if not (exposed exposure)
    then (false, verify_flat c)
    else if not clock.is_open
    then (false, c)
    else if fully_covered exposure
    then (true, c)
    else (true, publish kill_switch (reason_or c.switch.reason) (flatten_command_seq c.switch) c)

abbrev pub mark_fired : ℕ → Controller → Controller
mark_fired date c = record c { next_open_fired = date ∷ c.next_open_fired }

-- The verdict of the pre-open snapshot of this date, or of the lots.
abbrev pub is_stale_exposure : Session → Exposure → List Lot → Controller → Bool
is_stale_exposure session exposure lots c =
    let by_lots =
      exposure_predates c.portfolio_id lots session.rth_open exposure.position_symbols in
    elim c.next_open_snapshot [
      | none ↦ by_lots
      | some (date, stale) ↦ if date == session.trading_date then stale else by_lots
    ]

-- "exposure predating session open (day-TIF protection is dead)"
abbrev pub predating_reason : Text
predating_reason =
    101 ∷ 120 ∷ 112 ∷ 111 ∷ 115 ∷ 117 ∷ 114 ∷ 101 ∷ 32 ∷ 112 ∷ 114 ∷ 101 ∷ 100 ∷ 97 ∷ 116 ∷ 105
    ∷ 110 ∷ 103 ∷ 32 ∷ 115 ∷ 101 ∷ 115 ∷ 115 ∷ 105 ∷ 111 ∷ 110 ∷ 32 ∷ 111 ∷ 112 ∷ 101 ∷ 110 ∷ 32
    ∷ 40 ∷ 100 ∷ 97 ∷ 121 ∷ 45 ∷ 84 ∷ 73 ∷ 70 ∷ 32 ∷ 112 ∷ 114 ∷ 111 ∷ 116 ∷ 101 ∷ 99 ∷ 116 ∷ 105
    ∷ 111 ∷ 110 ∷ 32 ∷ 105 ∷ 115 ∷ 32 ∷ 100 ∷ 101 ∷ 97 ∷ 100 ∷ 41 ∷ []

-- "mandatory close-window flatten"
abbrev pub close_window_reason : Text
close_window_reason =
    109 ∷ 97 ∷ 110 ∷ 100 ∷ 97 ∷ 116 ∷ 111 ∷ 114 ∷ 121 ∷ 32 ∷ 99 ∷ 108 ∷ 111 ∷ 115 ∷ 101 ∷ 45 ∷ 119
    ∷ 105 ∷ 110 ∷ 100 ∷ 111 ∷ 119 ∷ 32 ∷ 102 ∷ 108 ∷ 97 ∷ 116 ∷ 116 ∷ 101 ∷ 110 ∷ []

abbrev pub maybe_next_open_flatten :
    Session → Clock → Exposure → List Lot → Controller → Bool × Controller
maybe_next_open_flatten session clock exposure lots c =
    if member session.trading_date c.next_open_fired
    then (false, c)
    else if not clock.is_open || ltb clock.timestamp (session.rth_open + 15000000)
    then (false, c)
    else if not (exposed exposure)
    then (false, mark_fired session.trading_date c)
    else if not (is_stale_exposure session exposure lots c)
    then (false, mark_fired session.trading_date c)
    else if fully_covered exposure
    then (true, c)
    else (true, publish next_open predating_reason none c)

abbrev pub drive : Exposure → Controller → Controller
drive exposure c =
    if not (exposed exposure) || fully_covered exposure
    then c
    else publish scheduled_close close_window_reason none c

-- `sorted(dates)[-30]`: the date with 29 later ones.
abbrev pub cutoff_of : List ℕ → Option ℕ
cutoff_of dates = find (λ d. length (select (λ x. ltb d x) dates) == 29) dates

abbrev pub keep_from : Option ℕ → List ℕ → List ℕ
keep_from none dates = dates
keep_from (some cutoff) dates = select (leb cutoff) dates

-- The dates checked and fired, cut down to the last 30 once there are more.
abbrev pub pruned : Controller → Controller
pruned c =
    let cutoff = cutoff_of c.post_close_checked in
    if ltb 30 (length c.post_close_checked)
    then record c {
      post_close_checked = keep_from cutoff c.post_close_checked;
      next_open_fired = keep_from cutoff c.next_open_fired;
    }
    else c

abbrev pub post_close_check : Session → Exposure → Controller → Controller
post_close_check session exposure c =
    let checked =
      pruned (record c { post_close_checked = session.trading_date ∷ c.post_close_checked }) in
    if member session.trading_date c.post_close_checked
    then c
    else if exposed exposure
    then audit (overnight_exposure session.trading_date exposure) checked
    else audit (session_flat session.trading_date) checked

-- The close of the session: the live clock's, where it is open and earlier.
abbrev pub close_of : Session → Clock → ℕ
close_of session clock =
    if clock.is_open then min session.rth_close clock.next_close else session.rth_close

abbrev pub driven : Bool × Controller → ℕ → ℕ × Controller
driven (driving, c) sleep = (if driving then tick_in_window else sleep, c)

abbrev pub snapshot : Session → Exposure → Controller → Controller
snapshot session exposure c = record c {
  next_open_snapshot = some (session.trading_date, exposed exposure);
}

-- The rules of a session, after the kill switch.
abbrev pub session_rules : Reads → Session → Controller → ℕ × Controller
session_rules reads session c =
    let clock = reads.clock in
    let now = clock.timestamp in
    let rth_close = close_of session clock in
    if ltb now session.rth_open
    then (sleep_toward now session.rth_open, snapshot session reads.second c)
    else if ltb (now + c.flatten_buffer) rth_close
    then driven (maybe_next_open_flatten session clock reads.second reads.lots c)
        (sleep_toward now (rth_close - c.flatten_buffer))
    else if ltb now rth_close && clock.is_open
    then (tick_in_window, drive reads.second c)
    else (sleep_toward now clock.next_open, post_close_check session reads.second c)

abbrev pub after_kill : Reads → Bool × Controller → ℕ × Controller
after_kill reads (true, c) = (tick_in_window, c)
after_kill reads (false, c) = elim reads.session [
  | none ↦ (sleep_toward reads.clock.timestamp reads.clock.next_open, c)
  | some session ↦ session_rules reads session c
]

abbrev pub tick : Reads → Controller → ℕ × Controller
tick reads c =
    after_kill reads
      (if c.switch.flattening then drive_kill_flatten reads.clock reads.first c else (false, c))
