-- ===== src/Tests/Approval.antt =====
-- Approvals of backend/app/services/safety_service.py at concrete states.
use polymarket_agent.Common.{◌≡◌, ◌↔◌, ◌≤◌, ◌<◌, ◌+◌, ℕ, true, false, some, none, keep, length}
use polymarket_agent.Common.Int.{negsuc}
use polymarket_agent.Portfolio.{is_open}
use polymarket_agent.Approval.{
  Database, total_size, get_state, check_trade_approval, is_approved, consecutive_losses,
  update_daily_pnl,
}
use polymarket_agent.Approval.Laws.{is_quarantined, approved_iff}
use polymarket_agent.Tests.Portfolio.{table}

abbrev pub database : Database
database = record { safety = none; positions = table; latest_event = some 900 }

approved_iff_example :
    let open_positions = keep is_open table in
    (is_approved (check_trade_approval 1000 5 100 database).0 ≡ true) ↔ (
      ((get_state database).kill_switch_active ≡ false)
      × ((get_state database).circuit_breaker_active ≡ false)
      × (is_quarantined 5 database ≡ false)
      × (length open_positions < 20)
      × (total_size open_positions + 100 ≤ 5000000000000)
      × (consecutive_losses 5 table ≡ false)
      × ((t : ℕ) × (database.latest_event ≡ some t) × (1000 ≤ t + 1800)))
approved_iff_example = approved_iff 1000 5 100 database

-- a loss of 600
abbrev lost : Database
lost = update_daily_pnl (negsuc 59999999999) database
