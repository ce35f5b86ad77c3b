-- ===== src/Overlay/Passing.antt =====
-- When a check of backend/app/services/risk_overlay.py is passed, and what it leaves then.
use polymarket_agent.Common.{
  ◌≡◌, ℕ, Bool, true, false, Option, none, some, not, List, arith, if◌then◌else◌, ltb, leb, get_or,
  ap, ◌∙◌, refl, take,
}
use polymarket_agent.Common.Int.{ℤ}
use polymarket_agent.Overlay.Checks.{
  Status, RiskState, Overlay, Readings, Drawdown, stopped, stop_for, exceeds, add_to_curve,
  leading_losses, baseline_of, spikes, events_since, is_stalled, minutes, check_drawdown,
  check_consecutive_losses, check_slippage_spike, check_liquidity_collapse, check_ws_stall,
}
use polymarket_agent.Overlay.Run.{unless, is_stop, is_active}

-- what stops trading
abbrev pub is_deep : Option Drawdown → Bool
is_deep none = false
is_deep (some d) = exceeds 20 d

abbrev pub in_drawdown : Readings → Bool
in_drawdown env = is_deep env.newest_snapshot

abbrev pub in_losses : Readings → Bool
in_losses env = leb 10 (leading_losses (take 10 env.closed_pnl))

abbrev pub in_spike : ℤ → Readings → Overlay → Bool
in_spike usual env o = elim env.recent_slippage [
  | none ↦ false
  | some r ↦ spikes (get_or o.baseline_slippage (baseline_of usual env.average_slippage)) r
]

abbrev pub in_collapse : ℕ → Readings → Bool
in_collapse now env = ltb (events_since now (minutes 30) env.event_times) 5

-- A check stops trading where `b` holds, and else is passed with the overlay `o`.
pub record IsCheck (test : Status → Bool) (b : Bool) (o : Overlay) (r : RiskState × Overlay)
    : Type 0 where
  pub stops : b ≡ true → r.0.status ≡ stopped
  pub passes : b ≡ false → (test r.0.status ≡ false) × (r.1 ≡ o)

pub unless_lem :
    (test : Status → Bool) (b : Bool) (o : Overlay) (r : RiskState × Overlay)
    (rest : Overlay → Overlay)
    → test stopped ≡ true
    → IsCheck test b o r
    → (unless test r rest).state.status ≡ (if b then stopped else (rest o).state.status)
unless_lem test true o (state, o') rest t h =
    let e = h.stops refl in let k : test state.status ≡ true = ap test e ∙ t in rw k e
unless_lem test false o (state, o') rest t h =
    let (k, e) = h.passes refl in rw k (ap (λ (x : Overlay). (rest x).state.status) e)

abbrev pub add_snapshot : Option Drawdown → List Drawdown → List Drawdown
add_snapshot none curve = curve
add_snapshot (some d) curve = add_to_curve d curve

abbrev pub curved : Option Drawdown → Overlay → Overlay
curved d o = record o { portfolio_drawdown_curve = add_snapshot d o.portfolio_drawdown_curve }

drawdown_lem :
    (now : ℕ) (d : Option Drawdown) (o : Overlay)
    → IsCheck is_stop (is_deep d) (curved d o) (check_drawdown now d o)
unfolding check_drawdown stop_for
drawdown_lem now none o = record { stops = λ h. ground arith; passes = λ h. (refl, refl) }
drawdown_lem now (some d) o = record { stops = λ h. ground arith; passes = λ h. ground arith }

pub drawdown-IsCheck :
    (now : ℕ) (env : Readings) (o : Overlay)
    → IsCheck is_stop
        (in_drawdown env)
        (curved env.newest_snapshot o)
        (check_drawdown now env.newest_snapshot o)
drawdown-IsCheck now env o = drawdown_lem now env.newest_snapshot o

abbrev pub counted : Readings → Overlay → Overlay
counted env o = record o { consecutive_losses = leading_losses (take 10 env.closed_pnl) }

pub losses-IsCheck :
    (now : ℕ) (env : Readings) (o : Overlay)
    → IsCheck is_stop
        (in_losses env)
        (counted env o)
        (check_consecutive_losses now env.closed_pnl o)
unfolding check_consecutive_losses stop_for
losses-IsCheck now env o = record { stops = λ h. ground arith; passes = λ h. ground arith }

abbrev pub baseline : ℤ → Readings → Overlay → Overlay
baseline usual env o = record o {
  baseline_slippage = some (get_or o.baseline_slippage (baseline_of usual env.average_slippage));
}

pub slippage-IsCheck :
    (now : ℕ) (usual : ℤ) (env : Readings) (o : Overlay)
    → IsCheck is_stop
        (in_spike usual env o)
        (baseline usual env o)
        (check_slippage_spike now usual env o)
unfolding check_slippage_spike stop_for
slippage-IsCheck now usual env o = record { stops = λ h. ground arith; passes = λ h. ground arith }

pub collapse-IsCheck :
    (now : ℕ) (env : Readings) (o : Overlay)
    → IsCheck
        (λ s. not (is_active s))
        (in_collapse now env)
        o
        (check_liquidity_collapse now env.event_times o)
unfolding check_liquidity_collapse stop_for
collapse-IsCheck now env o = record { stops = λ h. ground arith; passes = λ h. ground arith }

pub stall-IsCheck :
    (now : ℕ) (env : Readings) (o : Overlay)
    → IsCheck
        (λ s. not (is_active s))
        (is_stalled now env o.last_ws_timestamp)
        o
        (check_ws_stall now env o)
unfolding check_ws_stall stop_for
stall-IsCheck now env o = record { stops = λ h. ground arith; passes = λ h. ground arith }
