-- ===== src/Approval.antt =====
-- `SafetyService` of backend/app/services/safety_service.py: its state in the database, the approval of
-- a trade and the operations that change the state. Sizes and results are in units of the eighth
-- decimal and times in seconds. The table of positions is that of Portfolio, and the time of the
-- newest market event is part of the state.
pub mod Laws
pub mod Reach
pub mod Fills
use polymarket_agent.Common.{
  ℕ, ◌+◌, ◌==◌, Bool, true, false, Option, none, some, not, ◌&&◌, ◌||◌, List, [], ◌∷◌, ◌++◌, ltb,
  leb, if◌then◌else◌, keep, any, take, length, get_or,
}
use polymarket_agent.Common.Int.{ℤ, pos, pos_part, neg_part, ◌+ℤ◌}
use polymarket_agent.Portfolio.{Position, is_open}

pub data CircuitBreakerReason : Type 0 where
  max_loss max_positions max_exposure stale_data strategy_quarantine manual_kill
        consecutive_losses_reason :
      CircuitBreakerReason

-- The text in `circuit_breaker_reason`: the value of a member, or any other that is not empty.
pub data ReasonText : Type 0 where
  member : CircuitBreakerReason → ReasonText
  custom : ℕ → ReasonText

-- The text of a rejection.
pub data Rejection : Type 0 where
  kill_switch_is_active : Rejection
  circuit_breaker_active : ReasonText → Rejection
  strategy_is_quarantined : ℕ → Rejection
  max_open_positions_reached max_total_exposure_exceeded consecutive_losses_exceeded
        stale_market_data :
      Rejection

pub record SafetyCheckResult : Type 0 where
  pub approved : Bool
  pub reasons : List Rejection
  pub circuit_breaker : Option CircuitBreakerReason

-- The row of `SafetyState`.
pub record SafetyState : Type 0 where
  pub kill_switch_active : Bool
  pub circuit_breaker_active : Bool
  pub circuit_breaker_reason : Option ReasonText
  pub quarantined_strategies : List ℕ
  pub daily_pnl : ℤ
  pub checks_passed : ℕ

-- A database as the service sees it.
pub record Database : Type 0 where
  pub safety : Option SafetyState
  pub positions : List Position
  pub latest_event : Option ℕ

unfoldable pub max_open_positions : ℕ
max_open_positions = 20

unfoldable pub max_total_exposure : ℕ
max_total_exposure = 5000000000000

-- the limit is a loss of this
unfoldable pub max_daily_loss : ℕ
max_daily_loss = 50000000000

unfoldable pub max_consecutive_losses : ℕ
max_consecutive_losses = 5

-- `SafetyState(id=..., daily_pnl=0.0)`, with the defaults of its columns; `get_state` answers the same
-- where there is no row
unfoldable pub new_state : SafetyState
new_state = record {
  kill_switch_active = false;
  circuit_breaker_active = false;
  circuit_breaker_reason = none;
  quarantined_strategies = [];
  daily_pnl = pos 0;
  checks_passed = 0;
}

unfoldable pub get_state : Database → SafetyState
unfolding new_state
get_state db = get_or db.safety new_state

unfoldable pub change_state : (SafetyState → SafetyState) → Database → Database
unfolding get_state
change_state change db = record db { safety = some (change (get_state db)) }

abbrev pub total_size : List Position → ℕ
total_size [] = 0
total_size (p ∷ ps) = p.size + total_size ps

-- `order_by(desc(Position.closed_at))`, where NULL comes first
unfoldable pub is_newer : Position → Position → Bool
is_newer p q = elim p.closed_at [
  | none ↦ true
  | some t ↦ elim q.closed_at [ none ↦ false | some u ↦ leb u t ]
]

unfoldable pub insert_by_time : Position → List Position → List Position
unfolding is_newer
insert_by_time p [] = p ∷ []
insert_by_time p (q ∷ qs) =
    let rest = insert_by_time p qs in if is_newer p q then p ∷ q ∷ qs else q ∷ rest

unfoldable pub order_by_time : List Position → List Position
unfolding insert_by_time
order_by_time [] = []
order_by_time (p ∷ ps) = insert_by_time p (order_by_time ps)

abbrev pub has_strategy : ℕ → Position → Bool
has_strategy strategy_name p = elim p.strategy_name [ none ↦ false | some n ↦ n == strategy_name ]

unfoldable pub recent_trades : ℕ → List Position → List Position
unfolding order_by_time max_consecutive_losses
recent_trades strategy_name ps =
    take max_consecutive_losses
      (order_by_time (keep (λ p. has_strategy strategy_name p && not (is_open p)) ps))

-- `(p.realized_pnl or 0) <= 0`
abbrev pub is_loss : Position → Bool
is_loss p = pos_part (get_or p.realized_pnl (pos 0)) == 0

abbrev all_losses : List Position → Bool
all_losses [] = true
all_losses (p ∷ ps) = is_loss p && all_losses ps

unfoldable pub consecutive_losses : ℕ → List Position → Bool
unfolding recent_trades max_consecutive_losses
consecutive_losses strategy_name ps =
    let recent = recent_trades strategy_name ps in
    leb max_consecutive_losses (length recent) && all_losses recent

-- `_check_stale_data`: 30 minutes
unfoldable pub check_stale_data : ℕ → Option ℕ → Bool
check_stale_data now none = true
check_stale_data now (some t) = ltb (t + 1800) now

-- `_update_safety_state(approved=True)`
unfoldable pub update_safety_state : Database → Database
unfolding change_state
update_safety_state db = change_state (λ s. record s { checks_passed = s.checks_passed + 1 }) db

abbrev reject : Rejection → CircuitBreakerReason → Option SafetyCheckResult
reject why breaker =
    some (record { approved = false; reasons = why ∷ []; circuit_breaker = some breaker })

-- The rejection by a breaker. `CircuitBreakerReason(text)` raises a `ValueError` on a text that is the
-- value of no member, which is `none` here.
unfoldable pub reject_breaker : Option ReasonText → Option SafetyCheckResult
reject_breaker (some (member r)) = reject (circuit_breaker_active (member r)) r
reject_breaker _ = none

-- the first rejection of `check_trade_approval`, or the approval; `none` is a `ValueError`
unfoldable pub decide : ℕ → ℕ → ℕ → Database → Option SafetyCheckResult
unfolding get_state max_open_positions max_total_exposure consecutive_losses check_stale_data
    reject_breaker
decide now strategy_name size db =
    let state = get_state db in
    let open_positions = keep is_open db.positions in
    if state.kill_switch_active
    then reject kill_switch_is_active manual_kill
    else if state.circuit_breaker_active
    then reject_breaker state.circuit_breaker_reason
    else if any (λ s. s == strategy_name) state.quarantined_strategies
    then reject (strategy_is_quarantined strategy_name) strategy_quarantine
    else if leb max_open_positions (length open_positions)
    then reject max_open_positions_reached max_positions
    else if ltb max_total_exposure (total_size open_positions + size)
    then reject max_total_exposure_exceeded max_exposure
    else if consecutive_losses strategy_name db.positions
    then reject consecutive_losses_exceeded consecutive_losses_reason
    else if check_stale_data now db.latest_event
    then reject stale_market_data stale_data
    else some (record { approved = true; reasons = []; circuit_breaker = none })

abbrev pub is_approved : Option SafetyCheckResult → Bool
is_approved none = false
is_approved (some r) = r.approved

-- `check_trade_approval`; `strategy_name` is a name, and the confidence plays no part
unfoldable pub check_trade_approval : ℕ → ℕ → ℕ → Database → Option SafetyCheckResult × Database
unfolding decide update_safety_state
check_trade_approval now strategy_name size db =
    let result = decide now strategy_name size db in
    (result, if is_approved result then update_safety_state db else db)

unfoldable pub set_kill_switch : Bool → Option ReasonText → Database → Database
unfolding change_state
set_kill_switch active reason db =
    change_state
      (λ s. record s {
        kill_switch_active = active;
        circuit_breaker_active = active;
        circuit_breaker_reason = if active then some (get_or reason (member manual_kill)) else none;
      })
      db

-- `current.remove(name)`: the first
unfoldable pub remove_name : ℕ → List ℕ → List ℕ
remove_name n [] = []
remove_name n (m ∷ ms) = let rest = remove_name n ms in if m == n then ms else m ∷ rest

unfoldable pub quarantine_strategy : ℕ → Bool → Database → Database
unfolding change_state remove_name
quarantine_strategy strategy_name quarantine db =
    change_state
      (λ s.
        let current = s.quarantined_strategies in
        let present = any (λ n. n == strategy_name) current in
        record s {
          quarantined_strategies =
              if quarantine
              then (if present then current else current ++ strategy_name ∷ [])
              else remove_name strategy_name current;
        })
      db

-- `update_daily_pnl`; the change is a `Decimal` like the column: a `float` added to a result that was
-- stored would raise a `TypeError`
unfoldable pub update_daily_pnl : ℤ → Database → Database
unfolding change_state max_daily_loss
update_daily_pnl change db =
    change_state
      (λ s.
        let daily_pnl = s.daily_pnl +ℤ change in
        let breaks = leb max_daily_loss (neg_part daily_pnl) in
        record s {
          daily_pnl = daily_pnl;
          circuit_breaker_active = if breaks then true else s.circuit_breaker_active;
          circuit_breaker_reason =
              if breaks then some (member max_loss) else s.circuit_breaker_reason;
        })
      db
