-- ===== src/Lib.antt =====
-- A model of the trading engine of roi-gen, the Python code under backend/app.
--
-- The program. Strategies emit signals; the risk engine sizes and vets each one (engine/risk) and
-- is the only source of order approvals; the execution side submits orders and, from the broker's
-- trade updates, maintains order rows, fills, FIFO lots with a ledger of closes, and net
-- positions (engine/execution). Reconciliation adopts what a stream missed
-- (services/reconciliation.py). Operators halt, flatten and resume the engine through an
-- append-only command table (services/engine_commands.py), which a sweeper applies to the
-- engine's in-memory kill switch (engine/commands.py, engine/kill_switch.py); the flatten
-- controller drives the portfolio flat for the kill switch and before each close
-- (engine/flatten_controller.py).
--
-- The files, each with the code that it models, paths under backend/app:
--   Base: shared tests on numbers, integers, lists of rows.
--   Models/Enums, Models/Rows, Models/Commands: models/enums.py, trading.py, telemetry.py,
--     engine_command.py. Rows are records with the columns that the code reads or writes.
--   Execution/Lots: engine/execution/lots.py, `apply_fill_to_lots` (children: Order for the FIFO
--     order, Rounds for the loop, Validity, Stored, Frame, Fifo, Totals and Absorbed for laws).
--   Execution/State, Execution/Legs: state.py and apply.py: `plan_transition`, `apply_snapshot`,
--     `persist_bracket_legs`.
--   Execution/Positions: positions.py, `apply_fill_to_position`.
--   Execution/Synthesis: synthesis.py, `applied_ledger`, `span_price`, `synthesize_span`.
--   Execution/TradeUpdates: trade_updates.py, `TradeUpdateStage`: `process` is `_process`,
--     `locate` is `_locate`, `record_execution` is `_record_execution`, and so on.
--   Execution/Subscriber: the same file, `on_trade_update` and `RedisTradeUpdateSubscriber`, with a
--     relation of the states that arrivals, the release and other writers' commits reach.
--   Reconcile/Adopt, Reconcile/Orders, Reconcile/AllOrders, Reconcile/Positions,
--     Reconcile/Portfolio: services/reconciliation.py, one run as one transaction: `adopt_truth`
--     is `_adopt`, `recover` the body of the second loop of `_reconcile_orders`, `repair` the
--     sweep of ledger deficits. Rows read before the locks may be stale; the lookups of the
--     second step and those of the sweep are two arguments. Laws: Ledger, Grows, Steps, Complete,
--     Positions/Upsert, Positions/Mirror, Portfolio/Outcome.
--   Reconcile/Remainders: `_retry_unapplied_remainders` of the same file, which follows the sweep.
--     The key of an event row is its place in the log. Laws: Open and Keys for the anomalies that
--     are open, Balanced, Retried, Accounted.
--   Handler/Submit, Handler/Entry, Handler/Flatten, Handler/FlattenEvents:
--     engine/execution/handler.py. A World is the database with the calls of `submit_order` and
--     `cancel_order`; what the broker answers to each call, exceptions included, and what other
--     writers commit between the pending row and the lock are arguments. Laws: Submit/Calls,
--     Submit/Settles, Entry/Guarded, Flatten/Closes, Flatten/Reduces, FlattenEvents/Replay.
--   Stage/Bus, Stage/RiskStage, Stage/TokenBucket: engine/bus.py, engine/stage.py and
--     brokers/ratelimit.py. Stage/Cascade takes a signal through both stages.
--   Stage/FeedHealth, Stage/Gate: engine/feed_health.py, and the closure `halted` of engine_main.py
--     that both stages read.
--   Strategy/Probe: engine/strategies/probe.py, `on_bar` with its session bound.
--   Strategy/Runner, Strategy/Loader: engine/strategy.py, the registry of kinds and the routing of
--     events, and engine/loader.py.
--   Kill/Switch, Kill/Sweeper, Kill/Service: engine/kill_switch.py, engine/commands.py and
--     services/engine_commands.py; Kill/Guard/Reachable has them together as a step relation.
--   Risk/Request: brokers/dto.py `OrderRequest`, brokers/pricing.py. Risk/Controls, Risk/Engine,
--     Risk/State: engine/risk/controls.py, engine.py with approval.py, and state.py.
--   Flatten/Exposure, Flatten/Controller: engine/flatten_controller.py, one tick with its rules.
--   Broker/Status, Broker/Body, Broker/Payload, Broker/Transport: brokers/alpaca/status.py, and of
--     brokers/alpaca/rest.py the body of an order, the parsing of one, the error taxonomy and the
--     calls that place, look up and cancel an order. `submit_over_wire` is the handler's submission over that adapter.
--   Broker/Stream: brokers/alpaca/streams.py, the staleness clock, the watchdog and the health key of
--     the market data consumer; Broker/Stream/Heard reads that key with the engine's poll.
--   The Tests modules evaluate the definitions on concrete inputs.
--
-- Representation. A session is the record Db: its tables as lists of rows, a counter for the next
-- UUID, the transaction's clock. A handler is a function from Db to Db, a raised exception is
-- none or an error constructor, and an UPDATE of tracked objects writes the row by its key.
-- UUIDs, symbols and other opaque texts are numbers; operator texts are lists of code points.
-- Instants are microseconds. A Decimal is an integer in a fixed unit, small enough for every
-- value of the columns: quantities 10^-9 (the requests of the risk engine count whole shares),
-- prices and money 10^-6, lot profit 10^-15, percentages
-- 10^-6 and the products of these. So sums, products and comparisons are exact, as Python's
-- Decimal has them within its 28 digits; the rounding that a column does on write is not
-- modelled. The unique constraints on the ids of orders are checked by `flushed`, on the rows that
-- a transaction leaves. Quotients: the drawdown percentage is only compared, so its division is multiplied
-- out; the share count is cut off to a whole number, a floor; the average prices take the rounded
-- quotient of Decimal, which the parameter `divide` stands for. A status column is free text, a
-- member of its enumeration or anything else. Loops recurse on the rows that they read, or on
-- what the broker answers to each attempt; only `drain` of the bus is on fuel, and the weight of
-- the queue is enough.
--
-- Parameters: `divide` (Decimal division), `fetch` (the broker's answer to get_order),
-- `et_day_start` and `et` (the time zone database), the answers of the broker to the handler and
-- to reconciliation, what the HTTP client gives to a call, the classes that strategy kinds are
-- registered with, what other writers commit between the attempts of `_locate` (`meanwhile`), and, for the client ids of liquidations, `number_of`, `hex` and `lower`. Row
-- locks and the advisory lock are the serialization of the steps: each handler is one step,
-- except the sweep, whose read and write are two.
--
-- Not modelled: logging and the texts of audit entries; Redis, asyncio tasks and the HTTP client; the
-- adapter's reads of accounts, positions, the clock and the calendar, and the websockets of the
-- broker's streams; the cash and the buying power of an equity snapshot; the live loops around the bus, the
-- sweeper and the controller; and these parts of the program: the market data bridge, the API and
-- the CLI, the wiring of the process but for its halt composite, credentials and authentication.
pub mod Base
pub mod Models
pub mod Execution
pub mod Reconcile
pub mod Handler
pub mod Stage
pub mod Strategy
pub mod Kill
pub mod Risk
pub mod Flatten
pub mod Broker
