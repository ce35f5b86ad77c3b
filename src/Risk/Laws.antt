-- ===== src/Risk/Laws.antt =====
-- When a breaker of backend/app/services/risk/circuit_breakers.py blocks, and what it does.
use Prim.Native.String.{String}
use polymarket_agent.Common.{
  ℕ, ◌+◌, ◌*◌, ◌<◌, ◌≡◌, ◌∙◌, ◌⊎◌, inl, refl, Bool, true, false, Option, none, some, ◌||◌, ◌&&◌,
  not, List, [], ◌∷◌, arith, map, keep, All, any, ltb,
}
use polymarket_agent.Redis.{Redis, IsDecoding, Wire, decode}
use polymarket_agent.Control.{Plane, set_trading_enabled, set_execution_mode}
use polymarket_agent.Risk.{
  BreakerName, loss_circuit, drift_breaker, Entry, CircuitBreaker, World, within, decoded_entry,
  triggered_remotely, is_triggered, trigger, evaluate, act, act_if, evaluate_all, get_active,
  active_name, field_of,
}

-- The breaker's own trigger is within its cooldown.
abbrev pub locally_active : ℕ → CircuitBreaker → Bool
locally_active now b = elim b.local_trigger [
  | none ↦ false
  | some e ↦ within now e.triggered_at b.cooldown
]

-- What one round of evaluation reports: the breakers whose check fails and that are not active.
abbrev pub fired_names : ℕ → List CircuitBreaker → List BreakerName
fired_names now bs =
    map (λ b. b.name) (keep (λ b. not (locally_active now b) && (b.check_fn now).0) bs)

-- Who blocks after such a round: the active breakers and those whose check fails.
abbrev pub blocking_names : ℕ → List CircuitBreaker → List BreakerName
blocking_names now bs =
    map (λ b. b.name) (keep (λ b. locally_active now b || (b.check_fn now).0) bs)

-- the breakers whose action is to disable trading
abbrev pub stops_trading : BreakerName → Bool
stops_trading loss_circuit = true
stops_trading drift_breaker = true
stops_trading _ = false

decoded_none :
    (val : Option (Option (Wire Entry)))
    → ((w : Wire Entry) → val ≡ some (some w) → decode w ≡ none)
    → decoded_entry val ≡ none
unfolding decoded_entry
decoded_none none h = refl
decoded_none (some none) h = refl
decoded_none (some (some w)) h = h w refl

module _ {S : Type 0} (r : Redis S Entry) (d : IsDecoding r) where
  -- With the decoding client of redis.py, no trigger that is stored in Redis is ever seen.
  pub triggered_remotely_decoding :
      (s : S) (now : ℕ) (b : CircuitBreaker) → triggered_remotely r s now b ≡ false
  unfolding triggered_remotely
  triggered_remotely_decoding s now b =
      let e = decoded_none (r.hget s (field_of b.name)) (d.hget_str s (field_of b.name)) in
      ground arith

  active_name_decoding : (s : S) (b : CircuitBreaker) → active_name r s b ≡ b.name
  unfolding active_name
  active_name_decoding s b =
      let e = decoded_none (r.hget s (field_of b.name)) (d.hget_str s (field_of b.name)) in
      ground arith

  is_triggered_local :
      (s : S) (now : ℕ) (b : CircuitBreaker) → (is_triggered r s now b).0 ≡ locally_active now b
  unfolding is_triggered
  is_triggered_local s now b = ground (arith, triggered_remotely_decoding s now b)

  is_triggered_fields :
      (s : S) (now : ℕ) (b : CircuitBreaker)
      → let b' = (is_triggered r s now b).1 in
        (b'.name ≡ b.name)
        × (b'.check_fn ≡ b.check_fn)
        × (b'.cooldown ≡ b.cooldown)
        × (locally_active now b' ≡ locally_active now b)
  unfolding is_triggered
  is_triggered_fields s now b = ground arith

  -- A breaker that triggers at `now` is triggered exactly until its cooldown has passed, whatever the
  -- state of Redis is then.
  pub is_triggered-trigger :
      (s : S) (now later : ℕ) (reason : String) (b : CircuitBreaker) (w : World S)
      → (is_triggered r s later (trigger r now reason b w).0).0
        ≡ ltb later (now + b.cooldown * 1000)
  unfolding trigger within
  is_triggered-trigger s now later reason b w =
      is_triggered_local s later (trigger r now reason b w).0

  evaluate_fired :
      (now : ℕ) (b : CircuitBreaker) (w : World S)
      → (evaluate r now b w).0 ≡ (not (locally_active now b) && (b.check_fn now).0)
  unfolding evaluate
  evaluate_fired now b w =
      ground
        (arith, is_triggered_local w.plane.redis now b, is_triggered_fields w.plane.redis now b)

  -- `evaluate_all` reports exactly the breakers that were not active and whose check fails, in the order
  -- of registration.
  pub evaluate_all_names :
      (now : ℕ) (bs : List CircuitBreaker) (w : World S)
      → (evaluate_all r now bs w).0 ≡ fired_names now bs
  unfolding evaluate_all
  evaluate_all_names now [] w = refl
  evaluate_all_names now (b ∷ bs) w = ground (
    arith,
    evaluate_fired now b w,
    evaluate_all_names now bs (act_if r (evaluate r now b w).0 b.name (evaluate r now b w).2),
  )

  evaluate_active :
      (now : ℕ) (b : CircuitBreaker) (w : World S)
      → 0 < b.cooldown
      → let b' = (evaluate r now b w).1 in
        (b'.name ≡ b.name) × (locally_active now b' ≡ (locally_active now b || (b.check_fn now).0))
  unfolding evaluate trigger within
  evaluate_active now b w h =
      ground
        (arith, is_triggered_local w.plane.redis now b, is_triggered_fields w.plane.redis now b)

  get_active_names :
      (s : S) (now : ℕ) (bs : List CircuitBreaker)
      → (get_active r s now bs).0 ≡ map (λ b. b.name) (keep (locally_active now) bs)
  unfolding get_active
  get_active_names s now [] = refl
  get_active_names s now (b ∷ bs) = ground (
    arith,
    is_triggered_local s now b,
    is_triggered_fields s now b,
    active_name_decoding s (is_triggered r s now b).1,
    get_active_names s now bs,
  )

  -- After a round of evaluation, and at the same time, `get_active` names every breaker that was active
  -- or whose check fails, and no other, provided that each cooldown is positive.
  pub get_active-evaluate_all :
      (now : ℕ) (bs : List CircuitBreaker) (w : World S) (s : S)
      → All (λ b. 0 < b.cooldown) bs
      → (get_active r s now (evaluate_all r now bs w).1).0 ≡ blocking_names now bs
  unfolding evaluate_all get_active
  get_active-evaluate_all now [] w s h = refl
  get_active-evaluate_all now (b ∷ bs) w s h = ground (
    arith,
    evaluate_active now b w h.0,
    is_triggered_local s now (evaluate r now b w).1,
    is_triggered_fields s now (evaluate r now b w).1,
    active_name_decoding s (is_triggered r s now (evaluate r now b w).1).1,
    get_active-evaluate_all now bs (act_if r (evaluate r now b w).0 b.name (evaluate r now b w).2) s
        h.1,
  )

  act_stops :
      (name : BreakerName) (p : Plane S)
      → p.trading_enabled ≡ false
      → (act r name p).trading_enabled ≡ false
  unfolding act set_trading_enabled set_execution_mode
  act_stops name p h = ground arith

  evaluate_world :
      (now : ℕ) (b : CircuitBreaker) (w : World S)
      → (evaluate r now b w).2.plane.trading_enabled ≡ w.plane.trading_enabled
  unfolding evaluate trigger
  evaluate_world now b w = ground arith

  act_if_stops :
      (fired : Bool) (name : BreakerName) (w : World S)
      → (w.plane.trading_enabled ≡ false) ⊎ ((fired ≡ true) × (stops_trading name ≡ true))
      → (act_if r fired name w).plane.trading_enabled ≡ false
  unfolding act_if set_trading_enabled set_execution_mode
  act_if_stops fired name w h = ground (arith, act_stops name w.plane)

  stays_stopped :
      (now : ℕ) (bs : List CircuitBreaker) (w : World S)
      → w.plane.trading_enabled ≡ false
      → (evaluate_all r now bs w).2.plane.trading_enabled ≡ false
  unfolding evaluate_all
  stays_stopped now [] w h = h
  stays_stopped now (b ∷ bs) w h = stays_stopped now bs _ (
      act_if_stops (evaluate r now b w).0 b.name (evaluate r now b w).2
        (inl (evaluate_world now b w ∙ h)))

  -- When the loss or the drift breaker is among those that a round reports, the round leaves trading
  -- disabled in the control plane.
  pub evaluate_all_stops :
      (now : ℕ) (bs : List CircuitBreaker) (w : World S)
      → any stops_trading (evaluate_all r now bs w).0 ≡ true
      → (evaluate_all r now bs w).2.plane.trading_enabled ≡ false
  unfolding evaluate_all
  evaluate_all_stops now [] w h = ground arith
  evaluate_all_stops now (b ∷ bs) w h = ground (
    arith,
    act_if_stops (evaluate r now b w).0 b.name (evaluate r now b w).2,
    stays_stopped now bs (act_if r (evaluate r now b w).0 b.name (evaluate r now b w).2),
    evaluate_all_stops now bs (act_if r (evaluate r now b w).0 b.name (evaluate r now b w).2),
  )
