-- ===== src/Lib.antt =====
-- The control core of the trading agent in backend/app: what decides whether an order may be sent,
-- and what happens to it when it is.
--
-- How the parts work together. `ExecutionService` submits an order when the governor authorizes it,
-- the control plane has trading enabled and the market and the strategy not paused, no circuit
-- breaker is active, and the venue has the capabilities and an adapter. A circuit breaker that
-- triggers acts on the control plane: it disables trading, or changes the execution mode. The
-- control plane and the breakers share their state with other processes through Redis. Beside them
-- stand the mode manager, which turns health metrics into one of six system modes, the safety gate,
-- which tests limits before an execution, the state machine of live trading, the technical circuit
-- breaker that guards calls of services, and the sessions of ephemeral wallets. `TradeService`
-- turns a request into a trade: it asks the mode manager, the approval of `SafetyService`, the
-- safety gate and, for a market order, `ExecutionService`; a request has a session of the database,
-- which is rolled back on an exception. `ExitEngine` decides which open trades are to be closed.
-- Before that, `ValidationEngine` asks the risk service and the global risk guard, `PortfolioAllocator`
-- bounds the size, and the risk overlay says whether trading is stopped. The fills of the exchange are
-- polled, or restored by a reconciliation that the recovery of orders calls too; a fill changes its
-- order and the positions of `PortfolioService`, which the approval reads. The capital governor,
-- the admission of assets and the global risk guard each decide by limits of their own, and the
-- startup validation says with which settings the process runs at all.
--
-- Files and sources, all under backend/app:
--   Common: lists, dicts keyed by numbers, integers, Boolean tests and the library names that the other
--     files use.
--   Mode.Kind, Mode.Manager: core/system_mode.py (`SystemMode`, `ModeManager`).
--   Mode.Context: core/mode_context.py. Mode.Metrics: `_compute_mode_from_metrics`.
--   Mode.Decisions, Mode.Reach, Mode.Override: one evaluation, histories, the manual override.
--   Governance: domain/execution_authorization/models.py and
--     services/execution/governance/execution_governor.py.
--   Redis: the client of redis.py, as a record of commands over a state of the server.
--   Control: services/control/control_plane.py. Risk: services/risk/circuit_breakers.py.
--   Capability: domain/capabilities and services/capabilities (registry, resolver, validator).
--   Execution: services/execution/execution_service.py, services/execution/intent_factory.py,
--     exchanges/__init__.py, and the columns it reads of models/trade.py and models/exchange_order.py.
--   Execution.Signals: `execute_signal`, with domain/signals.
--   Circuit: core/circuit_breaker.py. Safety: services/safety/execution_safety_gate.py.
--   LiveTrading: services/live_trading_state_machine.py.
--   Wallet: services/wallet/session/manager.py, services/wallet/ephemeral_provider.py, domain/wallet.
--   Trades.Model, Trades.Service: services/trade_service.py, schemas/trade.py and `get_db` of database.py.
--   Validation: services/risk_service.py and services/validation_engine.py.
--   Allocator: services/portfolio_allocator.py. Overlay.Checks, Overlay.Run: services/risk_overlay.py.
--   Fills.Model: services/execution/fill_handler.py, models/exchange_order.py and models/fill.py.
--   Fills.Ingest: services/execution/fill_ingestion_service.py and workers/clob_fill_poller.py.
--   Fills.Reconcile: services/execution/reconciliation_service.py.
--   Fills.Recovery: services/recovery/order_recovery_service.py.
--   Alerts.Rules, Alerts.Service: services/alerts. Messages.Recovery: core/recovery.py.
--   Messages.Dedup: core/dedup.py. Guardian: services/strategy_guardian.py and the loop
--     `_periodic_strategy_guardian_eval` of main.py. Scheduler: services/scheduler/task_scheduler.py.
--   Exits.Model, Exits.Engine: services/exit_engine.py.
--   Approval: services/safety_service.py and models/safety.py.
--   Portfolio: services/portfolio_service.py, and `Position` of models/portfolio.py.
--   Exposure: services/global_risk_guard.py.
--   Capital: services/capital and domain/capital/models.py.
--   Admission: services/admission and domain/admission.
--   Startup: services/capabilities/startup_validation.py.
--   Market: the windows of replay/market_state.py.
--   DeadLetters: services/reliability/dead_letter_queue.py.
--   Incidents: services/incidents/incident_service.py.
--   Laws, Gaps, Decisions, Reach, Override, Books, Net, Requests, Windows, Replay, Cooldown, Caps,
--     Totals, Passing, Restored, Again, Counts, Silence, Retries, Scan, Stopped, Tracked,
--     Orders, Table, Rounds, Failing and Approval.Fills hold the proofs; Tests holds runs at concrete states.
--
-- Conventions. A method is a function of the state it reads to its result and the state it leaves;
-- a module-level object or cache that it writes is a field of that state. A clock is an argument,
-- in microseconds, milliseconds or seconds. Percentages and ratios are natural numbers in hundredths and
-- ten-thousandths, and money is in cents or in units of the eighth decimal, as each file says:
-- arithmetic in floating point is not modelled. An exception is `none`, or an `err` or `raised`
-- with its kind. Loops follow lists, but
-- for those over the keys of Redis in Messages.Dedup, which run on fuel: it is enough where the
-- iteration of the server ends. What runs outside the repository
-- is a parameter: the Redis server and its client library, the exchange behind an adapter, the
-- queries of the database, random sources, the signature and SHA-256. That the client decodes its
-- replies is the hypothesis `IsDecoding`, which redis.py asks for, and that `xpending` answers a `dict` is
-- `IsDict`. Other tasks that run between the
-- safety checks and the lock of a market are a function on the state.
--
-- Not modelled: metrics, logs and audit texts, the shadow and replay bookkeeping of the execution
-- service, ingestion and research services, the snapshots and correlations of the portfolio, the
-- features and regimes of the replay, the HTTP interface, the other workers and the frontend. Of the
-- validation and the allocation, which have modules of their own, `TradeService` takes any answer.
pub mod Common
pub mod Mode
pub mod Governance
pub mod Redis
pub mod Control
pub mod Risk
pub mod Capability
pub mod Execution
pub mod Circuit
pub mod Safety
pub mod Wallet
pub mod LiveTrading
pub mod Capital
pub mod Admission
pub mod Startup
pub mod Exposure
pub mod Portfolio
pub mod Approval
pub mod Trades
pub mod Exits
pub mod DeadLetters
pub mod Incidents
pub mod Market
pub mod Validation
pub mod Allocator
pub mod Overlay
pub mod Fills
pub mod Alerts
pub mod Messages
pub mod Guardian
pub mod Scheduler
pub mod Tests
