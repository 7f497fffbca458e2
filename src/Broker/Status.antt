-- ===== src/Broker/Status.antt =====
-- The status mapping of backend/app/brokers/alpaca/status.py.
use roi_gen.Base.{Bool, true, false, Option, none, some, ◌≡◌, refl}
use roi_gen.Models.Commands.{Text}
use roi_gen.Models.Enums.{OrderStatus, known}
use roi_gen.Execution.State.{is_absorbing, absorbing}

-- A raw status: one of the documented words, or any other text.
pub data StatusRaw : Type 0 where
  new accepted pending_new accepted_for_bidding partially_filled filled done_for_day : StatusRaw
  canceled expired replaced restated pending_cancel pending_replace pending_review : StatusRaw
  stopped rejected suspended calculated held : StatusRaw
  undocumented : Text → StatusRaw

-- `ALPACA_STATUS_MAP.get`
abbrev pub alpaca_status_map : StatusRaw → Option OrderStatus
alpaca_status_map StatusRaw.new = some OrderStatus.submitted
alpaca_status_map StatusRaw.accepted = some OrderStatus.accepted
alpaca_status_map StatusRaw.pending_new = some OrderStatus.submitted
alpaca_status_map StatusRaw.accepted_for_bidding = some OrderStatus.accepted
alpaca_status_map StatusRaw.partially_filled = some OrderStatus.partially_filled
alpaca_status_map StatusRaw.filled = some OrderStatus.filled
alpaca_status_map StatusRaw.done_for_day = some OrderStatus.done_for_day
alpaca_status_map StatusRaw.canceled = some OrderStatus.canceled
alpaca_status_map StatusRaw.expired = some OrderStatus.expired
alpaca_status_map StatusRaw.replaced = some OrderStatus.replaced
alpaca_status_map StatusRaw.restated = some OrderStatus.replaced
alpaca_status_map StatusRaw.pending_cancel = some OrderStatus.pending_cancel
alpaca_status_map StatusRaw.pending_replace = some OrderStatus.pending_replace
alpaca_status_map StatusRaw.pending_review = some OrderStatus.held
alpaca_status_map StatusRaw.stopped = some OrderStatus.stopped
alpaca_status_map StatusRaw.rejected = some OrderStatus.rejected
alpaca_status_map StatusRaw.suspended = some OrderStatus.suspended
alpaca_status_map StatusRaw.calculated = some OrderStatus.calculated
alpaca_status_map StatusRaw.held = some OrderStatus.held
alpaca_status_map (StatusRaw.undocumented text) = none

abbrev pub or_held : Option OrderStatus → OrderStatus
or_held none = OrderStatus.held
or_held (some status) = status

abbrev pub map_status : StatusRaw → OrderStatus
map_status raw = or_held (alpaca_status_map raw)

-- The words for an order that is over at the broker.
abbrev is_final_word : StatusRaw → Bool
is_final_word StatusRaw.filled = true
is_final_word StatusRaw.canceled = true
is_final_word StatusRaw.expired = true
is_final_word StatusRaw.replaced = true
is_final_word StatusRaw.restated = true
is_final_word StatusRaw.rejected = true
is_final_word _ = false

-- A raw broker status maps to an absorbing order status exactly when it is one of the words filled,
-- canceled, expired, replaced, restated and rejected; an undocumented text never does.
map_status-absorbing : (raw : StatusRaw) → is_absorbing (known (map_status raw)) ≡ is_final_word raw
unfolding is_absorbing absorbing
map_status-absorbing StatusRaw.new = refl
map_status-absorbing StatusRaw.accepted = refl
map_status-absorbing StatusRaw.pending_new = refl
map_status-absorbing StatusRaw.accepted_for_bidding = refl
map_status-absorbing StatusRaw.partially_filled = refl
map_status-absorbing StatusRaw.filled = refl
map_status-absorbing StatusRaw.done_for_day = refl
map_status-absorbing StatusRaw.canceled = refl
map_status-absorbing StatusRaw.expired = refl
map_status-absorbing StatusRaw.replaced = refl
map_status-absorbing StatusRaw.restated = refl
map_status-absorbing StatusRaw.pending_cancel = refl
map_status-absorbing StatusRaw.pending_replace = refl
map_status-absorbing StatusRaw.pending_review = refl
map_status-absorbing StatusRaw.stopped = refl
map_status-absorbing StatusRaw.rejected = refl
map_status-absorbing StatusRaw.suspended = refl
map_status-absorbing StatusRaw.calculated = refl
map_status-absorbing StatusRaw.held = refl
map_status-absorbing (StatusRaw.undocumented text) = refl
