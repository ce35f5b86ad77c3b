-- ===== src/Overlay/Laws.antt =====
-- What a check of backend/app/services/risk_overlay.py decides, against the conditions it looks at.
use polymarket_agent.Common.{
  ◌≡◌, ◌+◌, ℕ, Bool, false, none, some, ◌||◌, arith, if◌then◌else◌, ltb, ap, ◌∙◌, refl,
}
use polymarket_agent.Common.Int.{ℤ}
use polymarket_agent.Overlay.Checks.{
  Status, Overlay, Readings, active, reduced, stopped, market_data_unstable, events_since,
  is_stalled, refresh_reconnects, halt, minutes, check_market_data_stability,
}
use polymarket_agent.Overlay.Run.{
  from_market_data, from_stall, from_liquidity, from_slippage, from_losses, settle, check,
}
use polymarket_agent.Overlay.Passing.{
  in_drawdown, in_losses, in_spike, in_collapse, unless_lem, curved, counted, baseline,
  drawdown-IsCheck, losses-IsCheck, slippage-IsCheck, collapse-IsCheck, stall-IsCheck,
}

-- the reconnects that count: none, once ten minutes have passed since the last reset
abbrev pub recent_reconnects : ℕ → Overlay → ℕ
recent_reconnects now o =
    if ltb (o.last_reconnect_reset + minutes 10) now then 0 else o.reconnect_count

abbrev pub in_disorder : ℕ → Readings → Overlay → Bool
in_disorder now env o =
    ltb (events_since now (minutes 1) env.event_times) 2 || ltb 5 (recent_reconnects now o)

abbrev pub is_cooling : ℕ → Overlay → Bool
is_cooling now o = elim o.cooldown_end [ none ↦ false | some end ↦ ltb now end ]

-- the status once nothing stops trading
abbrev pub settled : ℕ → Readings → Overlay → Status
settled now env o =
    if in_disorder now env o
    then market_data_unstable
    else if is_cooling now o
    then reduced
    else active

from_market_data_lem :
    (now : ℕ) (usual : ℤ) (env : Readings) (previous : Status) (o : Overlay)
    → (from_market_data now usual env previous o).state.status ≡ settled now env o
unfolding from_market_data check_market_data_stability halt settle refresh_reconnects
from_market_data_lem now usual env previous o = ground arith

nested :
    (a b c d e : Bool) (x y : Status)
    → (if a then x else if b then x else if c then x else if d then x else if e then x else y)
      ≡ (if a || b || c || d || e then x else y)
nested a b c d e x y = ground arith

-- The status after a check is STOPPED exactly where one of five conditions holds: a drawdown of more than a
-- fifth, ten losses in a row, a slippage of more than three times the baseline, fewer than five events in
-- half an hour, or no events in ten minutes or a stalled feed. Otherwise it is MARKET_DATA_UNSTABLE where
-- fewer than two events came in a minute or there were more than five reconnects, REDUCED while the time to
-- cool down lasts, and else ACTIVE, whatever it was.
pub check_status :
    (now : ℕ) (usual : ℤ) (env : Readings) (o : Overlay)
    → (check now usual env o).state.status ≡ (
        if in_drawdown env
          || in_losses env
          || in_spike usual env o
          || in_collapse now env
          || is_stalled now env o.last_ws_timestamp
        then stopped
        else if in_disorder now env o
        then market_data_unstable
        else if is_cooling now o
        then reduced
        else active)
unfolding check from_losses from_slippage from_liquidity from_stall
check_status now usual env o =
    let o1 = curved env.newest_snapshot o in
    let o2 = counted env o1 in
    let o3 = baseline usual env o2 in
    let else_ = λ (b : Bool) (s : Status). if b then stopped else s in
    let rest1 = from_losses now usual env o.state.status in
    let rest2 = from_slippage now usual env o.state.status in
    let rest3 = from_liquidity now usual env o.state.status in
    let rest4 = from_stall now usual env o.state.status in
    let rest5 = from_market_data now usual env o.state.status in
    let last = from_market_data_lem now usual env o.state.status o3 in
    let stalls =
      unless_lem _ (is_stalled now env o3.last_ws_timestamp) o3 _ rest5 refl
        (stall-IsCheck now env o3)
      ∙ ap (else_ (is_stalled now env o.last_ws_timestamp)) last in
    let collapses =
      unless_lem _ (in_collapse now env) o3 _ rest4 refl (collapse-IsCheck now env o3)
      ∙ ap (else_ (in_collapse now env)) stalls in
    let spikes =
      unless_lem _ (in_spike usual env o2) o3 _ rest3 refl (slippage-IsCheck now usual env o2)
      ∙ ap (else_ (in_spike usual env o)) collapses in
    let loses =
      unless_lem _ (in_losses env) o2 _ rest2 refl (losses-IsCheck now env o1)
      ∙ ap (else_ (in_losses env)) spikes in
    unless_lem _ (in_drawdown env) o1 _ rest1 refl (drawdown-IsCheck now env o)
    ∙ (ap (else_ (in_drawdown env)) loses
        ∙ nested (in_drawdown env) (in_losses env) (in_spike usual env o) (in_collapse now env)
            (is_stalled now env o.last_ws_timestamp) stopped (settled now env o))
