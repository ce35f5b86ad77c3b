-- ===== src/Mode.antt =====
-- The system modes and the mode manager: backend/app/core/system_mode.py and
-- backend/app/core/mode_context.py.
pub mod Kind
pub mod Context
pub mod Metrics
pub mod Manager
pub mod Decisions
pub mod Tracked
pub mod Reach
pub mod Override
