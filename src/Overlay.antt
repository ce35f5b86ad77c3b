-- ===== src/Overlay.antt =====
-- `RiskOverlay` of backend/app/services/risk_overlay.py.
pub mod Checks
pub mod Run
pub mod Passing
pub mod Laws
