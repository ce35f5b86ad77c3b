-- ===== src/Approval/Reach.antt =====
-- What every state of backend/app/services/safety_service.py satisfies, and what its approval answers
-- there.
use polymarket_agent.Common.{
  ◌≡◌, ◌+◌, ℕ, Bool, true, false, Option, none, some, List, arith, is_some,
}
use polymarket_agent.Common.Int.{ℤ}
use polymarket_agent.Portfolio.{Position}
use polymarket_agent.Approval.{
  Database, SafetyState, is_approved, ReasonText, member, max_loss, get_state, check_trade_approval,
  set_kill_switch, quarantine_strategy, update_daily_pnl,
}

-- The databases that the service's operations and changes of the other tables reach.
pub data Reach : Database → Type 0 where
  start :
      (ps : List Position) (t : Option ℕ)
      → Reach (record { safety = none; positions = ps; latest_event = t })
  checked :
      {db : Database} (now strategy_name size : ℕ)
      → Reach db
      → Reach (check_trade_approval now strategy_name size db).1
  switched :
      {db : Database} (active : Bool) (reason : Option ReasonText)
      → Reach db
      → Reach (set_kill_switch active reason db)
  quarantined :
      {db : Database} (strategy_name : ℕ) (quarantine : Bool)
      → Reach db
      → Reach (quarantine_strategy strategy_name quarantine db)
  booked : {db : Database} (change : ℤ) → Reach db → Reach (update_daily_pnl change db)
  traded :
      {db : Database} (ps : List Position) (t : Option ℕ)
      → Reach db
      → Reach (record db { positions = ps; latest_event = t })

-- a breaker without the kill switch is that of the daily loss
abbrev pub IsExplained : SafetyState → Type 0
IsExplained s =
    s.kill_switch_active ≡ false
    → s.circuit_breaker_active ≡ true
    → s.circuit_breaker_reason ≡ some (member max_loss)

explained : {db : Database} → Reach db → IsExplained (get_state db)
unfolding get_state check_trade_approval set_kill_switch quarantine_strategy update_daily_pnl
explained (start ps t) = ground arith
explained (checked now n size r) = ground (arith, explained r)
explained (switched a reason r) = ground (arith, explained r)
explained (quarantined n q r) = ground (arith, explained r)
explained (booked c r) = ground (arith, explained r)
explained (traded ps t r) = ground (arith, explained r)

-- In every state that the service reaches, `check_trade_approval` returns a result and does not raise:
-- the text of the breaker that it parses is the value of a member. A rejection changes nothing, and an
-- approval counts one.
pub check_trade_approval_returns :
    {db : Database} (now strategy_name size : ℕ)
    → Reach db
    → let (r, db') = check_trade_approval now strategy_name size db in
      (is_some r ≡ true)
      × (is_approved r ≡ false → db' ≡ db)
      × (is_approved r ≡ true → (get_state db').checks_passed ≡ (get_state db).checks_passed + 1)
unfolding get_state check_trade_approval
check_trade_approval_returns {db} now n size r = ground (arith, explained r)
