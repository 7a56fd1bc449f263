-- ===== src/Lib.antt =====
-- A verification library of Kometa, an automated trading platform: services that talk over a bus, of
-- which the risk gate is the only path from an order intent to the broker. A strategy's signal becomes
-- an intent, the gate's service judges it against the account (Risk), execution checks the gate's
-- signed decision before it places an order (Execution), and the lifecycle registry, which the
-- evaluator drives, decides which strategy versions may trade at all (Lifecycle); the gate reads its
-- map of stages.
--
-- Core models packages/core/src/autotrader/core: Core/Models the domain models (models.py), Core/Broker
-- the broker contract and currency rates (broker.py, fx.py), Core/Events the bus messages (events.py,
-- alerts.py), Core/Sessions the trading sessions and Risk/Events the calendar index
-- (indicators/sessions.py), Core/Ledger the hash-chained file (ledger.py), Core/Bus the in-memory
-- bus (bus.py), Core/Codec the shape of the two state files.
--
-- Risk models packages/risk/src/autotrader/risk: Risk/Config (config.py), Risk/State (state.py),
-- Risk/Exposure, Risk/Work, Risk/Checks and Risk/Gate (gate.py), Risk/Service (service.py).
--
-- Lifecycle models packages/lifecycle/src/autotrader/lifecycle: of registry.py, Lifecycle/Ladder its
-- tables and records, Lifecycle/Reasons the texts of a swap, Lifecycle/Registry its methods;
-- Lifecycle/Config the thresholds (config.py), Lifecycle/Stats the metrics (stats.py),
-- Lifecycle/Champion the swap test (champion.py), Lifecycle/Evaluator the methods of the evaluator
-- (evaluator.py: Shadow the stage without money, Money the stages with it, Challengers the review of
-- the challengers).
--
-- Execution models DecisionVerifier of core/signing.py (Execution/Verifier) and
-- packages/execution/src/autotrader/execution: journal.py and quotes.py (Execution/Journal,
-- Execution/Quotes), order_manager.py (Execution/Orders its prices, journal write and reports, Stops
-- the stops, Entries `execute`, Deals `sync_deals`, Ends expiry, halts and demotions; Views and
-- Requests the values that these build), reconcile.py (Execution/Reconcile), watchdog.py, service.py,
-- and bus_service.py (Execution/BusService), which takes the messages of the bus to the order manager
-- and publishes what its callbacks put into the outbox. Execution/World is what they share: the state,
-- the broker behind its adapter, and the log of what was done outside. Execution/Later, Kept, Steps and
-- Calls carry the proofs over every method and any sequence of calls.
--
-- A method is a function of the same name (a leading underscore is dropped) from its object's record to
-- its result and the record it leaves. What raises returns a Result, or the exception beside the state
-- that is left. Loops are structural recursion, so nothing needs fuel. Sequences of calls are lists of
-- operations (Risk/Gate/Halts, Lifecycle/Registry/Runs, Core/Ledger/Chain, Execution/Calls), and
-- sequences of messages lists of messages (Execution/BusService).
--
-- A method of the order manager takes the world to its outcome and the world it leaves, also when it
-- raises; between its awaits no other call runs. The broker is any adapter: what it answers, or that it
-- is not reached, and the clock, follow from a state that each question may change. A tracked order is
-- changed in place under its name, so two references to it are one order. An alert keeps its severity,
-- its kind and what it is about; a mismatch is without its text. Publishing on the bus does not fail.
--
-- The evaluator's trade data and execution's actions on a demotion are functions of what it asks, and
-- its clock one of the number of the reading. What numpy computes (bootstraps, standard deviations,
-- sums, maxima), the seeds that sha256 gives and the formatted numbers in a reason are parameters; of
-- the sums and maxima, what numpy documents is a hypothesis.
--
-- A Decimal is an exact rational (Decimal): the context's rounding to 28 digits is not modelled. A float
-- field holds the decimal that its text has, which is what the code computes with; the floats of the
-- lifecycle's statistics are exact rationals too, without their rounding. A datetime is its
-- microseconds since the first one that Python has, always in UTC. The reasons of a decision are
-- constructors with the values that the text shows. Ed25519, sha256, JSON, pydantic and the zone
-- database are parameters.
--
-- Not modelled: the allocator, whose proposals the gate sizes again, the engine, the delivery loop of
-- the bus and the Redis bus, the clients of the brokers, the clock reading in an alert, the service
-- that runs the evaluator on the bus, and the data, learning, validation, research and monitoring
-- packages, which are I/O or floating-point statistics for the most part.
pub mod Prelude
pub mod Decimal
pub mod Core
pub mod Risk
pub mod Lifecycle
pub mod Execution
