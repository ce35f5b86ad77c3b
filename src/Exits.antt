-- ===== src/Exits.antt =====
-- `ExitEngine` of backend/app/services/exit_engine.py. Prices and sizes are in units of the eighth
-- decimal and prices are at most 1; times are in seconds. A column of type `Numeric` is read as a
-- `Decimal`, and Python subtracts a `Decimal` from a `float` by raising a `TypeError`, so a price here
-- says which of the two it is. The tables of events and correlations are lists, the first in the order
-- of time. `close_trade_via_exit` is `close_trade` of Trades.Service and is not repeated.
pub mod Model
pub mod Engine
pub mod Laws
