-- ===== src/Flatten/Tests.antt =====
-- Runs of the flatten controller, and the theorems at those inputs.
use roi_gen.Base.{◌≡◌, refl, true, none, some, [], ◌∷◌, pos, negsuc, arith}
use roi_gen.Kill.Switch.{fresh_switch}
use roi_gen.Flatten.Exposure.{Exposure, exposure_of, flatten_prefix}
use roi_gen.Flatten.Controller.{Controller, Reads, tick, tick_in_window}
use roi_gen.Flatten.Tick.{Careful, tick-Careful}
use roi_gen.Flatten.Window.{Published, tick-window}

-- A position, the working leg of a bracket and a liquidation of another symbol.
abbrev exposure : Exposure
exposure =
    exposure_of 1 (record { symbol = 9; qty = negsuc 4 } ∷ record { symbol = 8; qty = pos 0 } ∷ [])
      (record { symbol = 9; client_order_id = none }
        ∷ record { symbol = 7; client_order_id = some flatten_prefix }
        ∷ [])
      []

exposure_test : exposure ≡ record {
  position_symbols = 9 ∷ [];
  working_orders = 1;
  pending_submit = 0;
  liquidation_covered = 7 ∷ [];
}
exposure_test = refl

-- Three minutes before the close, the buffer being five.
abbrev reads : Reads
reads = record {
  clock = record {
    timestamp = 900000000;
    is_open = true;
    next_open = 99000000000;
    next_close = 1080000000;
  };
  session = some (record { trading_date = 3; rth_open = 100; rth_close = 1080000000 });
  first = exposure;
  second = exposure;
  lots = [];
}

abbrev controller : Controller
controller = record {
  portfolio_id = 1;
  flatten_buffer = 300000000;
  switch = fresh_switch;
  log = record { rows = []; next_seq = 1 };
  post_close_checked = [];
  next_open_snapshot = none;
  next_open_fired = [];
  published = [];
  audits = [];
  next_id = 1;
}

tick-window_example :
    ((tick reads controller).0 ≡ tick_in_window) × Published controller (tick reads controller).1
tick-window_example =
    tick-window reads (record { trading_date = 3; rth_open = 100; rth_close = 1080000000 })
      controller refl refl (omega arith) (omega arith) (omega arith) (refl, refl) (refl, refl)

tick-Careful_example : Careful reads.clock reads.first controller (tick reads controller).1
tick-Careful_example = tick-Careful reads controller
