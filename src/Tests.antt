-- ===== src/Tests.antt =====
-- Runs of the model at concrete inputs, and the theorems at inputs that meet their hypotheses.
mod Mode
mod Risk
mod Execution
mod Signals
mod Circuit
mod Safety
mod LiveTrading
mod Wallet
mod Capital
mod Exposure
mod Market
mod Portfolio
mod Approval
mod Trades
mod Incidents
mod DeadLetters
mod Exits
mod Validation
mod Allocator
mod Overlay
mod Fills
mod Alerts
mod Messages
mod Guardian
mod Scheduler
