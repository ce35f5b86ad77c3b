-- ===== src/Fills.antt =====
-- Fills: `FillIngestionService`, `FillHandler` and `ReconciliationService` of backend/app/services/execution/,
-- the poll of backend/app/workers/clob_fill_poller.py and `OrderRecoveryService` of
-- backend/app/services/recovery/order_recovery_service.py. A fill changes its order, is added to the table of
-- fills, and changes the positions by `PortfolioService.upsert_from_fill`; what cannot be used is pushed to
-- the dead letters. Amounts and prices are in units of the eighth decimal and are not negative, and sides
-- are buy or sell. A new row of a position has the number of fills for its id.
pub mod Model
pub mod Ingest
pub mod Reconcile
pub mod Recovery
pub mod Books
pub mod Laws
pub mod Restored
pub mod Reach
pub mod Again
pub mod Counts
