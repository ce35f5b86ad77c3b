-- ===== src/LiveTrading/Laws.antt =====
-- Runs of backend/app/services/live_trading_state_machine.py.
use polymarket_agent.Common.{
  ℕ, ◌≡◌, ◌≢◌, ◌⊎◌, ◌↔◌, sym, inl, inr, false, ap, ◌∙◌, refl, true, false, Option, some, List, [],
  ◌∷◌, ◌++◌, arith, All,
}
use mathlib.Core.Path.{subst}
use polymarket_agent.LiveTrading.{
  TradingState, shadow, micro_live, reduced_risk, kill_switch, disabled, OverlayStatus, stopped,
  StateTransition, Machine, Facts, risk_overlay, forced, init, check_shadow_readiness,
  check_consecutive_losses, check_drawdown, next_state, evaluate, force_state, hard_caps,
}

-- The diagram of the states, with what each edge needs. A STOPPED overlay leads to the kill switch from every
-- state; else shadow, micro_live and reduced_risk move by their checks, and kill_switch and disabled are
-- final. An edge from a state to itself needs that no other edge applies.
pub data Edge (overlay : Option OverlayStatus) (f : Facts)
    : TradingState → TradingState → Type 0 where
  stop : {s : TradingState} → overlay ≡ some stopped → Edge overlay f s kill_switch
  promote :
      overlay ≢ some stopped → check_shadow_readiness f ≡ true → Edge overlay f shadow micro_live
  stay_shadow :
      overlay ≢ some stopped → check_shadow_readiness f ≡ false → Edge overlay f shadow shadow
  draw : overlay ≢ some stopped → check_drawdown f ≡ true → Edge overlay f micro_live kill_switch
  reduce :
      overlay ≢ some stopped
      → check_drawdown f ≡ false
      → check_consecutive_losses f ≡ true
      → Edge overlay f micro_live reduced_risk
  stay_live :
      overlay ≢ some stopped
      → check_drawdown f ≡ false
      → check_consecutive_losses f ≡ false
      → Edge overlay f micro_live micro_live
  lose :
      overlay ≢ some stopped
      → check_consecutive_losses f ≡ true
      → Edge overlay f reduced_risk kill_switch
  stay_reduced :
      overlay ≢ some stopped
      → check_consecutive_losses f ≡ false
      → Edge overlay f reduced_risk reduced_risk
  stay_killed : overlay ≢ some stopped → Edge overlay f kill_switch kill_switch
  stay_disabled : overlay ≢ some stopped → Edge overlay f disabled disabled

-- The history is a path: each entry starts where the one before it ended, and the last ends here.
abbrev pub IsPath : TradingState → List StateTransition → TradingState → Type 0
IsPath s [] t = s ≡ t
IsPath s (x ∷ xs) t = (x.from_state ≡ s) × IsPath x.to_state xs t

IsPath-append :
    (s t : TradingState) (xs : List StateTransition) (x : StateTransition)
    → IsPath s xs t
    → x.from_state ≡ t
    → IsPath s (xs ++ x ∷ []) x.to_state
IsPath-append s t [] x p e = ground arith
IsPath-append s t (y ∷ ys) x p e = (p.0, IsPath-append y.to_state t ys x p.1 e)

overlay-cases :
    (overlay : Option OverlayStatus) → (overlay ≡ some stopped) ⊎ (overlay ≢ some stopped)
overlay-cases overlay = ground arith

next_stopped :
    (s : TradingState) (overlay : Option OverlayStatus) (f : Facts)
    → overlay ≡ some stopped
    → next_state s overlay f ≡ kill_switch
unfolding next_state
next_stopped s overlay f h = ground arith

next-Edge :
    (s : TradingState) (overlay : Option OverlayStatus) (f : Facts)
    → overlay ≢ some stopped
    → Edge overlay f s (next_state s overlay f)
unfolding next_state
next-Edge s overlay f h = grind (
  arith,
  promote h,
  stay_shadow h,
  draw h,
  reduce h,
  stay_live h,
  lose h,
  stay_reduced h,
  stay_killed h,
  stay_disabled h,
)

-- an edge determines the state that follows
Edge-next :
    {s t : TradingState} (overlay : Option OverlayStatus) (f : Facts)
    → Edge overlay f s t
    → next_state s overlay f ≡ t
unfolding next_state
Edge-next overlay f (stop h) = ground arith
Edge-next overlay f (promote h a) = ground arith
Edge-next overlay f (stay_shadow h a) = ground arith
Edge-next overlay f (draw h a) = ground arith
Edge-next overlay f (reduce h a b) = ground arith
Edge-next overlay f (stay_live h a b) = ground arith
Edge-next overlay f (lose h a) = ground arith
Edge-next overlay f (stay_reduced h a) = ground arith
Edge-next overlay f (stay_killed h) = ground arith
Edge-next overlay f (stay_disabled h) = ground arith

status-evaluate :
    (overlay : Option OverlayStatus) (f : Facts) (m : Machine)
    → (evaluate overlay f m).status ≡ next_state m.status overlay f
unfolding evaluate
status-evaluate overlay f m = ground arith

-- An evaluation moves to a state exactly if the diagram has an edge to it: a STOPPED overlay leads to the kill
-- switch from every state; else shadow goes to micro_live when it is ready; micro_live goes to the kill switch
-- on a drawdown and, without one, to reduced_risk on losses in a row; reduced_risk goes to the kill switch on
-- losses in a row; and in every other case the state stays.
pub evaluate-Edge :
    (overlay : Option OverlayStatus) (f : Facts) (m : Machine) (t : TradingState)
    → ((evaluate overlay f m).status ≡ t) ↔ Edge overlay f m.status t
evaluate-Edge overlay f m t = (
  λ e.
      subst (λ x. Edge overlay f m.status x) (sym (status-evaluate overlay f m) ∙ e)
        (elim (overlay-cases overlay) [
          | inl h ↦
              subst (λ x. Edge overlay f m.status x) (sym (next_stopped m.status overlay f h))
                (stop h)
          | inr h ↦ next-Edge m.status overlay f h
        ]),
  λ d. status-evaluate overlay f m ∙ Edge-next overlay f d,
)

-- The two ways in which the machine moves.
pub data Move : Type 0 where
  tick : Option OverlayStatus → Facts → Move
  force : TradingState → ℕ → Move

unfoldable pub run : List Move → Machine → Machine
run [] m = m
run (tick overlay f ∷ ms) m = run ms (evaluate overlay f m)
run (force s why ∷ ms) m = run ms (force_state s why m)

abbrev pub IsTick : Move → Type 0
IsTick (tick overlay f) = Unit
IsTick (force s why) = ⊥

evaluate-IsPath :
    (s : TradingState) (overlay : Option OverlayStatus) (f : Facts) (m : Machine)
    → IsPath s m.transitions m.status
    → IsPath s (evaluate overlay f m).transitions (evaluate overlay f m).status
unfolding evaluate
evaluate-IsPath s overlay f m p =
    let x : StateTransition = record {
      from_state = m.status;
      to_state = next_state m.status overlay f;
      reason = risk_overlay overlay;
    } in
    ground (arith, IsPath-append s m.status m.transitions x p)

force_state-IsPath :
    (s target : TradingState) (why : ℕ) (m : Machine)
    → IsPath s m.transitions m.status
    → IsPath s (force_state target why m).transitions (force_state target why m).status
unfolding force_state
force_state-IsPath s target why m p =
    let x : StateTransition = record {
      from_state = m.status;
      to_state = target;
      reason = forced why;
    } in
    IsPath-append s m.status m.transitions x p refl

run-IsPath :
    (s : TradingState) (moves : List Move) (m : Machine)
    → IsPath s m.transitions m.status
    → IsPath s (run moves m).transitions (run moves m).status
unfolding run
run-IsPath s [] m p = p
run-IsPath s (tick overlay f ∷ ms) m p =
    run-IsPath s ms (evaluate overlay f m) (evaluate-IsPath s overlay f m p)
run-IsPath s (force t why ∷ ms) m p =
    run-IsPath s ms (force_state t why m) (force_state-IsPath s t why m p)

-- After any moves of a new machine its history is a path from shadow to its present state.
pub history-IsPath :
    (moves : List Move) → IsPath shadow (run moves init).transitions (run moves init).status
unfolding init
history-IsPath moves = run-IsPath shadow moves init refl

kill_switch_stays :
    (overlay : Option OverlayStatus) (f : Facts) (m : Machine)
    → m.status ≡ kill_switch
    → evaluate overlay f m ≡ m
unfolding evaluate
kill_switch_stays overlay f m k = ground arith

run_stays :
    (moves : List Move) (m : Machine) → All IsTick moves → m.status ≡ kill_switch → run moves m ≡ m
unfolding run
run_stays [] m h k = refl
run_stays (tick overlay f ∷ ms) m h k =
    ap (run ms) (kill_switch_stays overlay f m k) ∙ run_stays ms m h.1 k
run_stays (force s why ∷ ms) m h k = absurd h.0

-- The kill switch is final: without a forced state no run leaves it, adds to the history, or raises the
-- caps above no position and no trade size.
pub run-kill_switch :
    (moves : List Move) (m : Machine)
    → All IsTick moves
    → m.status ≡ kill_switch
    → (run moves m ≡ m)
      × ((hard_caps (run moves m).status).max_concurrent_positions ≡ 0)
      × ((hard_caps (run moves m).status).max_per_trade_pct ≡ 0)
unfolding hard_caps
run-kill_switch moves m h k = let e = run_stays moves m h k in rw (e, k) (refl, refl, refl)
