-- ===== src/Control/Laws.antt =====
-- What a client of backend/app/services/control/control_plane.py can rely on, and what not.
use Prim.Native.String.{String}
use text.Mathlib.TextEquality.{eq_iff}
use polymarket_agent.Common.{
  ℕ, ◌≡◌, ◌≢◌, ◌⊎◌, inl, inr, Option-cases, get_or, refl, Bool, true, false, Option, none, some,
  List, [], ◌∷◌, arith, ◌==◌, if◌then◌else◌,
}
use polymarket_agent.Redis.{
  Redis, IsDecoding, Wire, str, bytes, decode, trading_key, execution_mode_key,
}
use polymarket_agent.Control.{
  Plane, decoded_mode, is_trading_enabled, set_trading_enabled, get_execution_mode,
  set_execution_mode, is_strategy_paused, pause_strategy, resume_strategy, is_market_paused,
  pause_market, resume_market, member, add, discard,
}

pub member-add :
    (x y : ℕ) (xs : List ℕ) → member y (add x xs) ≡ (if y == x then true else member y xs)
member-add x y xs = ground arith

pub member-discard :
    (x y : ℕ) (xs : List ℕ) → member y (discard x xs) ≡ (if y == x then false else member y xs)
member-discard x y [] = ground arith
member-discard x y (z ∷ zs) = ground (arith, member-discard x y zs)

-- What the outcome of setting a mode says of the mode.
abbrev pub Accepts : {S : Type 0} → String → Option (Plane S) → Type 0
Accepts mode none = (mode ≢ "paper") × (mode ≢ "live") × (mode ≢ "shadow")
Accepts mode (some p) =
    (p.execution_mode ≡ mode) × ((mode ≡ "paper") ⊎ ((mode ≡ "live") ⊎ (mode ≡ "shadow")))

decoded_local :
    (val : Option (Wire String)) (own : String)
    → ((w : Wire String) → val ≡ some w → decode w ≡ none)
    → (get_or (decoded_mode val) own ≡ own) ⊎ (get_or (decoded_mode val) own ≡ "paper")
unfolding decoded_mode
decoded_local none own h = inr refl
decoded_local (some (str t)) own h = ground arith
decoded_local (some (bytes t)) own h = let e = h (bytes t) refl in ground arith

module _ {S V : Type 0} (r : Redis S V) where
  -- Without Redis the flag that was set last is the one that is read.
  pub trading_enabled_offline :
      (p : Plane S) (enabled : Bool)
      → r.connected p.redis ≡ false
      → is_trading_enabled r (set_trading_enabled r p enabled) ≡ enabled
  unfolding is_trading_enabled set_trading_enabled
  trading_enabled_offline p enabled h = ground arith

  -- With the decoding client of redis.py, `is_trading_enabled` answers true whenever Redis does,
  -- whatever was set before.
  pub trading_enabled_online :
      (p : Plane S) (val : Option (Wire String))
      → IsDecoding r
      → r.connected p.redis ≡ true
      → r.get p.redis trading_key ≡ some val
      → is_trading_enabled r p ≡ true
  unfolding is_trading_enabled
  trading_enabled_online p none d c g = ground arith
  trading_enabled_online p (some (str t)) d c g = ground arith
  trading_enabled_online p (some (bytes t)) d c g =
      let e = d.get_str p.redis trading_key (bytes t) g in ground arith

  -- With the decoding client a mode is read from Redis only as the default: the answer is the local
  -- mode, or "paper".
  pub get_execution_mode_local :
      (p : Plane S)
      → IsDecoding r
      → (get_execution_mode r p ≡ p.execution_mode) ⊎ (get_execution_mode r p ≡ "paper")
  unfolding get_execution_mode
  get_execution_mode_local p d = elim (Option-cases (r.get p.redis execution_mode_key)) [
    | inl e ↦ ground arith
    | inr (val, e) ↦
        let h =
          decoded_local val p.execution_mode
            (λ w f. d.get_str p.redis execution_mode_key w (rw (e, f))) in
        ground arith
  ]

  -- A paused strategy reads as paused, with Redis or without, and so does a paused market; pausing one
  -- leaves paused what was paused in this process before.
  pub paused-pause :
      (p : Plane S) (id other : ℕ)
      → (is_strategy_paused r (pause_strategy r p id) id ≡ true)
        × (is_market_paused r (pause_market r p id) id ≡ true)
        × ((member other p.paused_strategies ≡ false)
            ⊎ (is_strategy_paused r (pause_strategy r p id) other ≡ true))
        × ((member other p.paused_markets ≡ false)
            ⊎ (is_market_paused r (pause_market r p id) other ≡ true))
  unfolding is_strategy_paused pause_strategy is_market_paused pause_market
  paused-pause p id other = grind (arith, member-add)

  -- Without Redis, a resumed strategy or market is not paused, and no other one changes.
  pub paused-resume :
      (p : Plane S) (id other : ℕ)
      → r.connected p.redis ≡ false
      → (is_strategy_paused r (resume_strategy r p id) other
          ≡ (if other == id then false else is_strategy_paused r p other))
        × (is_market_paused r (resume_market r p id) other
            ≡ (if other == id then false else is_market_paused r p other))
  unfolding is_strategy_paused resume_strategy is_market_paused resume_market
  paused-resume p id other h = grind (arith, member-discard)

  -- A mode is accepted exactly when it is one of the three, and an accepted one is the local mode.
  pub set_execution_mode_cases :
      (p : Plane S) (mode : String) → Accepts mode (set_execution_mode r p mode)
  unfolding set_execution_mode
  set_execution_mode_cases p mode =
      ground (arith, eq_iff mode "paper", eq_iff mode "live", eq_iff mode "shadow")
