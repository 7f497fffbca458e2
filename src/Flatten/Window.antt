-- ===== src/Flatten/Window.antt =====
-- The watch window before the close: `_tick` of backend/app/engine/flatten_controller.py.
use roi_gen.Base.{◌+◌, ◌≤◌, ◌<◌, ◌≡◌, refl, Bool, true, false, some, ◌∷◌, ltb, arith, if_cases}
use roi_gen.Risk.Engine.{FlattenEvent}
use roi_gen.Flatten.Exposure.{Exposure, exposed, fully_covered}
use roi_gen.Flatten.Controller.{
  Clock, Session, Controller, Reads, drive_kill_flatten, session_rules, after_kill, tick, close_of,
  tick_in_window,
}

-- There is something to close, and no liquidation under way for all of it.
abbrev pub Unattended : Exposure → Type 0
Unattended e = (exposed e ≡ true) × (fully_covered e ≡ false)

-- One more flatten has been published.
abbrev pub Published : Controller → Controller → Type 0
Published c d = (event : FlattenEvent) × (d.published ≡ event ∷ c.published)

drive_kill_flatten-Published :
    (clock : Clock) (exposure : Exposure) (c : Controller)
    → clock.is_open ≡ true
    → Unattended exposure
    → let r = drive_kill_flatten clock exposure c in (r.0 ≡ true) × Published c r.1
drive_kill_flatten-Published clock exposure c o u = rw (u.0, o, u.1) (refl, (_, refl))

window_rules-Published :
    (reads : Reads) (session : Session) (c : Controller)
    → reads.clock.is_open ≡ true
    → ltb reads.clock.timestamp session.rth_open ≡ false
    → ltb (reads.clock.timestamp + c.flatten_buffer) (close_of session reads.clock) ≡ false
    → ltb reads.clock.timestamp (close_of session reads.clock) ≡ true
    → Unattended reads.second
    → ((session_rules reads session c).0 ≡ tick_in_window)
      × Published c (session_rules reads session c).1
window_rules-Published reads session c o a w l u = rw (a, w, l, o, u.0, u.1) (refl, (_, refl))

-- In the watch window of a session (the market open, the opening passed, less than the buffer left
-- before the close), a tick that reads unattended exposure, whether or not the kill switch drives a
-- flatten too, publishes exactly one flatten and wakes again at the pace of the window.
pub tick-window :
    (reads : Reads) (session : Session) (c : Controller)
    → reads.session ≡ some session
    → reads.clock.is_open ≡ true
    → session.rth_open ≤ reads.clock.timestamp
    → close_of session reads.clock ≤ reads.clock.timestamp + c.flatten_buffer
    → reads.clock.timestamp < close_of session reads.clock
    → Unattended reads.first
    → Unattended reads.second
    → ((tick reads c).0 ≡ tick_in_window) × Published c (tick reads c).1
tick-window reads session c s o a w l u v =
    if_cases
      (λ (r : Bool × Controller).
        ((after_kill reads r).0 ≡ tick_in_window) × Published c (after_kill reads r).1)
      c.switch.flattening _ _
      (λ e.
        driving (drive_kill_flatten reads.clock reads.first c)
          (drive_kill_flatten-Published reads.clock reads.first c o u))
      (λ e.
        rw (s)
          (window_rules-Published reads session c o (ground arith) (ground arith) (ground arith) v))
  where
    driving :
        (r : Bool × Controller)
        → (r.0 ≡ true) × Published c r.1
        → ((after_kill reads r).0 ≡ tick_in_window) × Published c (after_kill reads r).1
    driving (true, d) h = (refl, h.1)
    driving (false, d) h = absurd (grind (arith, h.0))
