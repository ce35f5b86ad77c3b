-- ===== src/Overlay/Checks.antt =====
-- The six checks of `RiskOverlay` in backend/app/services/risk_overlay.py. Times are in microseconds, and the clock is read once
-- in a check. Portfolio values are not negative and are in one unit, slippages in another. What the queries
-- answer is an argument.
use polymarket_agent.Common.{
  ℕ, ◌+◌, ◌-◌, ◌*◌, ◌==◌, Bool, false, Option, none, some, ◌&&◌, ◌||◌, List, [], ◌∷◌, ◌++◌, ltb,
  leb, if◌then◌else◌, get_or, keep, length, take, drop,
}
use polymarket_agent.Common.Int.{ℤ, pos, negsuc}

pub data Status : Type 0 where
  active reduced stopped market_data_unstable : Status

-- The reasons; the texts show the numbers that were compared too.
pub data Reason : Type 0 where
  initialized reset_reason no_snapshot_data drawdown_normal drawdown_above_12 drawdown_exceeds_20 :
      Reason
  consecutive_losses_normal losses_approaching_limit losses_exceed_10 : Reason
  no_recent_slippage slippage_normal slippage_spike : Reason
  liquidity_normal liquidity_collapse ws_active ws_stalled : Reason
  no_ws_messages_in_60s reconnect_storm throughput_collapse market_data_stable : Reason
  cooldown_expired all_checks_passed : Reason
  cooling_down_until : ℕ → Reason

pub record RiskState : Type 0 where
  pub status : Status
  pub reason : Reason
  pub cooldown_until : Option ℕ

-- The two columns of a `PortfolioSnapshot`, with 0 for NULL; the drawdown is (peak - current) / peak.
pub record Drawdown : Type 0 where
  pub peak : ℕ
  pub current : ℕ

pub record Overlay : Type 0 where
  pub state : RiskState
  pub portfolio_drawdown_curve : List Drawdown
  pub consecutive_losses : ℕ
  pub baseline_slippage : Option ℤ
  pub last_ws_timestamp : Option ℕ
  pub cooldown_end : Option ℕ
  pub reconnect_count : ℕ
  pub last_reconnect_reset : ℕ
  -- what was counted by `inc_trading_halt`, the last one first
  pub trading_halts : List Reason

-- What a check reads: the setting, the newest snapshot, the results of the closed trades with the newest one
-- first, the two averages, the times of the market's events, and whether the query of `_check_ws_stall`
-- raises.
pub record Readings : Type 0 where
  pub ws_stall_seconds : ℕ
  pub newest_snapshot : Option Drawdown
  pub closed_pnl : List ℤ
  pub average_slippage : Option ℤ
  pub recent_slippage : Option ℤ
  pub event_times : List ℕ
  pub query_fails : Bool

abbrev pub minutes : ℕ → ℕ
minutes n = n * 60000000

abbrev pub state_of : Status → Reason → Option ℕ → RiskState
state_of status reason cooldown = record {
  status = status;
  reason = reason;
  cooldown_until = cooldown;
}

-- a check that stops trading for some minutes
unfoldable pub stop_for : ℕ → ℕ → Reason → Overlay → RiskState × Overlay
stop_for n now why o = (
  state_of stopped why (some (now + minutes n)),
  record o { cooldown_end = some (now + minutes n) },
)

-- (peak - current) / peak is above a number of hundredths; it is 0 without a peak
unfoldable pub exceeds : ℕ → Drawdown → Bool
exceeds percent d = ltb 0 d.peak && ltb (percent * d.peak + 100 * d.current) (100 * d.peak)

unfoldable pub add_to_curve : Drawdown → List Drawdown → List Drawdown
add_to_curve d curve =
    let longer = curve ++ d ∷ [] in
    if ltb 100 (length longer) then drop (length longer - 100) longer else longer

-- `_check_drawdown`
unfoldable pub check_drawdown : ℕ → Option Drawdown → Overlay → RiskState × Overlay
unfolding exceeds add_to_curve stop_for
check_drawdown now none o = (state_of active no_snapshot_data none, o)
check_drawdown now (some d) o =
    let o' = record o { portfolio_drawdown_curve = add_to_curve d o.portfolio_drawdown_curve } in
    if exceeds 20 d
    then stop_for 60 now drawdown_exceeds_20 o'
    else if exceeds 12 d
    then (state_of reduced drawdown_above_12 none, o')
    else (state_of active drawdown_normal none, o')

-- the loop over the newest results
unfoldable pub leading_losses : List ℤ → ℕ
leading_losses [] = 0
leading_losses (p ∷ ps) = let rest = leading_losses ps in elim p [ pos n ↦ 0 | negsuc n ↦ 1 + rest ]

-- `_check_consecutive_losses`
unfoldable pub check_consecutive_losses : ℕ → List ℤ → Overlay → RiskState × Overlay
unfolding leading_losses stop_for
check_consecutive_losses now pnl o =
    let consecutive = leading_losses (take 10 pnl) in
    let o' = record o { consecutive_losses = consecutive } in
    if leb 10 consecutive
    then stop_for 120 now losses_exceed_10 o'
    else if leb 5 consecutive
    then (state_of reduced losses_approaching_limit none, o')
    else (state_of active consecutive_losses_normal none, o')

abbrev is_zero : ℤ → Bool
is_zero (pos n) = n == 0
is_zero (negsuc n) = false

-- `float(avg_slip) if avg_slip else 0.001`, where `usual` is the 0.001
unfoldable pub baseline_of : ℤ → Option ℤ → ℤ
baseline_of usual none = usual
baseline_of usual (some n) = if is_zero n then usual else n

-- `baseline > 0 and recent_slip > baseline * 3`
unfoldable pub spikes : ℤ → ℤ → Bool
spikes (pos b) (pos r) = ltb 0 b && ltb (b * 3) r
spikes _ _ = false

-- `_check_slippage_spike`
unfoldable pub check_slippage_spike : ℕ → ℤ → Readings → Overlay → RiskState × Overlay
unfolding baseline_of spikes stop_for
check_slippage_spike now usual env o =
    let baseline = get_or o.baseline_slippage (baseline_of usual env.average_slippage) in
    let o' = record o { baseline_slippage = some baseline } in
    elim env.recent_slippage [
      | none ↦ (state_of active no_recent_slippage none, o')
      | some recent ↦
          if spikes baseline recent
          then stop_for 30 now slippage_spike o'
          else (state_of active slippage_normal none, o')
    ]

-- the count of the events since a time before
unfoldable pub events_since : ℕ → ℕ → List ℕ → ℕ
events_since now before times = length (keep (λ t. leb now (t + before)) times)

-- `_check_liquidity_collapse`
unfoldable pub check_liquidity_collapse : ℕ → List ℕ → Overlay → RiskState × Overlay
unfolding stop_for
check_liquidity_collapse now times o =
    if ltb (events_since now (minutes 30) times) 5
    then stop_for 15 now liquidity_collapse o
    else (state_of active liquidity_normal none, o)

-- the conditions of `_check_ws_stall`
unfoldable pub is_stalled : ℕ → Readings → Option ℕ → Bool
is_stalled now env last =
    let no_events = env.query_fails || events_since now (minutes 10) env.event_times == 0 in
    let timed_out : Bool = elim last [
      | none ↦ false
      | some t ↦ ltb (t + env.ws_stall_seconds * 1000000) now
    ] in
    no_events || timed_out

-- `_check_ws_stall`
unfoldable pub check_ws_stall : ℕ → Readings → Overlay → RiskState × Overlay
unfolding is_stalled stop_for
check_ws_stall now env o =
    if is_stalled now env o.last_ws_timestamp
    then stop_for 5 now ws_stalled o
    else (state_of active ws_active none, o)

-- the reset of the count of reconnects after ten minutes
unfoldable pub refresh_reconnects : ℕ → Overlay → Overlay
refresh_reconnects now o =
    if ltb (o.last_reconnect_reset + minutes 10) now
    then record o { reconnect_count = 0; last_reconnect_reset = now }
    else o

unfoldable pub halt : Reason → Overlay → RiskState × Overlay
halt why o =
    (state_of market_data_unstable why none, record o { trading_halts = why ∷ o.trading_halts })

-- `_check_market_data_stability`
unfoldable pub check_market_data_stability : ℕ → List ℕ → Overlay → RiskState × Overlay
unfolding refresh_reconnects halt
check_market_data_stability now times o =
    let o' = refresh_reconnects now o in
    let events = events_since now (minutes 1) times in
    if events == 0
    then halt no_ws_messages_in_60s o'
    else if ltb 5 o'.reconnect_count
    then halt reconnect_storm o'
    else if ltb events 2
    then halt throughput_collapse o'
    else (state_of active market_data_stable none, o')
