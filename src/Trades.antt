-- ===== src/Trades.antt =====
-- `TradeService` of backend/app/services/trade_service.py, and the session of a request by `get_db` of
-- backend/app/database.py. The service asks the mode manager, the approval, the safety gate and the
-- execution service. Sizes and prices are in units of the eighth decimal, the confidence in
-- ten-thousandths. `ValidationEngine` and `PortfolioAllocator` are arguments: any answer of theirs is
-- considered. Metrics, log lines and the checks of `IntegrityService`, which only report, are not modelled,
-- nor is a row that another session adds between the query for a duplicate and the flush.
pub mod Model
pub mod Service
pub mod Laws
pub mod Requests
pub mod Stopped
