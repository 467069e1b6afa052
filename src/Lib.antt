-- ===== src/Lib.antt =====
-- The MetaTrader 5 trading engine (src/ of the repository): its risk core, and what feeds it and what it
-- keeps. A signal arrives on a socket thread and waits in the signal queue; one worker takes it to the
-- execution engine, which asks the risk engine. The risk engine runs eleven rules in order over three
-- trackers (daily loss, clusters of symbols, the equity throttle), and the first that rejects decides.
-- An approved signal is planned and sent to the broker, with retries. Trades live in the position store;
-- when one opens, the cascade moves the stops of earlier trades. Two polls
-- follow resting orders and open positions to their end. A hub of its own relays the frames of several
-- engines to dashboards, and their commands back.
--
-- The files, and the code that each is about:
--   Risk/Engine       src/risk/engine.py: RiskEngine.evaluate, with its loop, records and metrics
--   Risk/Rules        src/risk/rules.py: Memory (rules without a broker), Live (rules on a tick), All
--   Risk/LossTracker  src/risk/loss_tracker.py: the guards, the pause and the sizing
--   Risk/ClusterTracker  src/risk/cluster_tracker.py: groups of symbols that share a budget
--   Risk/EquityThrottle  src/risk/equity_throttle.py: the drawdown window and its switch
--   Signals/Queue     src/signals/queue.py: producers and the worker as interleaved steps
--   Signals/Consumer  src/signals/consumer.py, signal_types.py: from a raw message to the bus
--   Signals/Validator src/signals/signal_validator.py: the tests of an inbound signal
--   Execution/Engine  src/execution/engine.py: Gate (the checks and the reservation), Run (the plan, the
--                     order, the trade and the release); Execution/DailyLoss, what the poll tells it
--   Execution/Planner src/execution/planner.py, and src/utils/lot_calculator.py (Lots)
--   Execution/Orders  src/execution/order_manager.py: Market and Limit, with their retries
--   Positions         src/positions/store.py (Store), src/positions/sl_cascade.py (SlCascade),
--                     src/positions/pending_store.py and pending_manager.py (Pending)
--   Positions/Manager  src/positions/manager.py: Poll, Tp1, Breakeven, Closing, and Rescue (the emergency
--                     stop and the start)
--   Brokers           the calls of src/brokers/mt5/ that the others make, as an interface
--   Brokers/Mt5       src/brokers/mt5/: client.py (Client: the connection and the names of symbols), orders.py
--                     (Orders) and positions.py (Positions), over the MetaTrader 5 package as a parameter
--   Core/EventBus     src/core/event_bus.py: the listeners and the emission
--   Infra/Metrics     src/infra/metrics.py: counters, gauges and the ring of rejections
--   Utils             src/utils/symbol.py, src/utils/price.py, and the methods of texts (Text)
--   Domain, Config    src/domain/, src/config/settings.py: the records that the others read
--   Settings          src/config/settings.py: what the settings must satisfy, the merging of two files (Merge),
--                     the port of the monitoring
--   Strategies        src/strategies/: the router of signals to adapters
--   Hub               src/hub/: the slots of the brokers (State), the connections of the brokers (Internal) and
--                     the dashboards (Public)
--   Prelude           tests, lists, dicts (entries in insertion order) and the interface of floats
--   Examples          a number format, sample states, and each property at concrete values
--
-- A method that holds a lock from its first to its last line is one step from state to state, named as the
-- method; a call of the clock is an argument `now`, in Unix milliseconds. A message is a constructor with
-- the values formatted into it. Exceptions that the code lets through are constructors of an outcome.
--
-- Floats are an interface (Prelude/Floats): the operations round as they like, and the theorems name the
-- laws that they use, those that rounding to nearest keeps for values other than NaN. The time zone, the
-- broker and logarithms are parameters as well. Every loop is structural recursion, on a list or on
-- the attempts left (one and the configured retries), so that no fuel can run out; the worker's endless loop and the waiting for a pause to end are sequences of steps.
--
-- Not modelled: the MetaTrader 5 package, the database, logging, the sockets, the UI bridge and the wiring of
-- the application, which are input and output; the reading of the settings' files and the texts of the
-- errors; the fields of a signal's JSON (InboundSignal.from_dict is an argument of the consumer).
pub mod Prelude
pub mod Utils
pub mod Infra
pub mod Domain
pub mod Config
pub mod Brokers
pub mod Core
pub mod Execution
pub mod Positions
pub mod Signals
pub mod Risk
pub mod Settings
pub mod Strategies
pub mod Hub
pub mod Examples
