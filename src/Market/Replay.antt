-- ===== src/Market/Replay.antt =====
-- Replays of trades through backend/app/replay/market_state.py, against the windows that they mean.
use polymarket_agent.Common.{◌≡◌, ◌≤◌, ◌+◌, ℕ, refl, List, [], ◌∷◌, ◌++◌, arith, All, length}
use polymarket_agent.Market.{
  Stamped, Window, TradeEvent, init, subtract_old, drop_old, update_trade, replay,
}
use polymarket_agent.Market.Windows.{
  IsTimed, within, volume_of, stamps, drop_old-fresh, subtract_old_lem, subtract_old-append,
  total-stamps, fresh-append, fresh-stamps, within-within, within-IsTimed, IsSorted-append,
  All-append, below-stamps, stamps-IsSorted,
}

-- the time of the last trade
abbrev pub last_time : List TradeEvent → ℕ
last_time [] = 0
last_time (e ∷ es) = e.timestamp

last_time-le : (now : ℕ) (es : List TradeEvent) → IsTimed now es → last_time es ≤ now
last_time-le now [] p = omega arith
last_time-le now (e ∷ es) p = p.0

drop_old-stamps :
    (t x span t0 : ℕ) (es : List TradeEvent)
    → t0 ≤ t
    → IsTimed t es
    → drop_old t span (stamps (within t0 span es) ++ (t, x) ∷ [])
      ≡ stamps (within t span es) ++ (t, x) ∷ []
drop_old-stamps t x span t0 es p timed =
    let kept = within t0 span es in
    let k = within-IsTimed t0 span t es timed in
    let sorted =
      IsSorted-append 0 t x (stamps kept) (stamps-IsSorted t kept k) (below-stamps t kept k)
        (omega arith) in
    ground (
      arith,
      drop_old-fresh t span 0 (stamps kept ++ (t, x) ∷ []) sorted,
      fresh-append t span (stamps kept) ((t, x) ∷ []),
      fresh-stamps t span kept,
      within-within t0 t span es p,
    )

history_lem :
    (es : List TradeEvent)
    → IsTimed (last_time es) es
    → (replay es).volume_history ≡ stamps (within (last_time es) 300000 es)
unfolding replay init update_trade
history_lem [] p = refl
history_lem (e ∷ es) p = ground (
  arith,
  history_lem es,
  last_time-le e.timestamp es p.1,
  drop_old-stamps e.timestamp e.size 300000 (last_time es) es,
)

-- what is subtracted at a trade, from a window that holds just its history
subtract_new :
    (t x span t0 k : ℕ) (es : List TradeEvent) (w : Window)
    → t0 ≤ t
    → w.volume ≡ volume_of (within t0 span es)
    → w.count ≡ length (within t0 span es)
    → let w' = subtract_old t span (stamps (within t0 span es) ++ (t, x) ∷ []) w in
      (w'.volume ≡ volume_of (within t span es)) × (w'.count ≡ length (within t span es))
unfolding subtract_old
subtract_new t x span t0 k es w p v c =
    let kept = within t0 span es in
    ground (
      arith,
      subtract_old-append t span (stamps kept) ((t, x) ∷ []) w,
      subtract_old_lem t span (stamps kept) w,
      total-stamps kept,
      total-stamps (within t span es),
      fresh-stamps t span kept,
      within-within t0 t span es p,
    )

-- After trades at times that do not go back, the window of five minutes holds the volume and the number
-- of just those trades that are no more than five minutes older than the last one.
pub replay_window_5m :
    (es : List TradeEvent)
    → IsTimed (last_time es) es
    → let w = (replay es).window_5m in
      let recent = within (last_time es) 300000 es in
      (w.volume ≡ volume_of recent) × (w.count ≡ length recent)
unfolding replay init update_trade
replay_window_5m [] p = omega arith
replay_window_5m (e ∷ es) p = ground (
  arith,
  history_lem es,
  replay_window_5m es,
  last_time-le e.timestamp es p.1,
  subtract_new e.timestamp e.size 300000 (last_time es) 0 es (replay es).window_5m,
)

-- No trade comes more than ten minutes after the one before it.
abbrev pub IsBusy : List TradeEvent → Type 0
IsBusy [] = Unit
IsBusy (e ∷ []) = Unit
IsBusy (e ∷ f ∷ es) = (e.timestamp ≤ f.timestamp + 600000) × IsBusy (f ∷ es)

subtract_none :
    (t span : ℕ) (h : List Stamped) (w : Window)
    → All (λ y. t ≤ y.0 + span) h
    → subtract_old t span h w ≡ w
unfolding subtract_old
subtract_none t span [] w a = refl
subtract_none t span ((u, x) ∷ h) w a = ground (arith, subtract_none t span h w)

recent-stamps :
    (t t0 span : ℕ) (es : List TradeEvent)
    → t ≤ t0 + 600000
    → 900000 ≤ span
    → All (λ y. t ≤ y.0 + span) (stamps (within t0 300000 es))
recent-stamps t t0 span [] p q = tt
recent-stamps t t0 span (e ∷ es) p q =
    let ih = recent-stamps t t0 span es p q in
    ground (
      arith,
      All-append (λ y. t ≤ y.0 + span) (stamps (within t0 300000 es)) (e.timestamp, e.size) ih,
    )

subtract_busy :
    (t x t0 span : ℕ) (es : List TradeEvent) (w : Window)
    → t ≤ t0 + 600000
    → 900000 ≤ span
    → subtract_old t span (stamps (within t0 300000 es) ++ (t, x) ∷ []) w ≡ w
subtract_busy t x t0 span es w p q = subtract_none t span _ w (
    All-append (λ y. t ≤ y.0 + span) (stamps (within t0 300000 es)) (t, x)
      (recent-stamps t t0 span es p q) (omega arith))

abbrev pub HoldsAll : List TradeEvent → Window → Type 0
HoldsAll es w = (w.volume ≡ volume_of es) × (w.count ≡ length es)

-- As long as no trade comes more than ten minutes after the one before it, the four longer windows never
-- lose a trade: each holds the volume and the number of all trades since the start, however old.
pub replay_busy :
    (es : List TradeEvent)
    → IsTimed (last_time es) es
    → IsBusy es
    → let m = replay es in
      HoldsAll es m.window_15m
      × HoldsAll es m.window_1h
      × HoldsAll es m.window_4h
      × HoldsAll es m.window_24h
unfolding replay init update_trade
replay_busy [] p b = omega arith
replay_busy (e ∷ []) p b = ground arith
replay_busy (e ∷ f ∷ es) p b =
    let ih = replay_busy (f ∷ es) (omega arith, p.1.1) b.1 in
    ground (
      arith,
      history_lem (f ∷ es),
      subtract_busy e.timestamp e.size f.timestamp 900000 (f ∷ es) (replay (f ∷ es)).window_15m,
      subtract_busy e.timestamp e.size f.timestamp 3600000 (f ∷ es) (replay (f ∷ es)).window_1h,
      subtract_busy e.timestamp e.size f.timestamp 14400000 (f ∷ es) (replay (f ∷ es)).window_4h,
      subtract_busy e.timestamp e.size f.timestamp 86400000 (f ∷ es) (replay (f ∷ es)).window_24h,
    )
