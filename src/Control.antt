-- ===== src/Control.antt =====
-- `ControlPlane` of backend/app/services/control/control_plane.py. What the methods send to the
-- websocket manager and to the audit log is kept in order in `notices`. The methods that only list
-- the state (`get_paused_strategies`, `get_paused_markets`, `get_state`) are not modelled.
pub mod Laws
use Prim.Native.String.{String}
use text.Mathlib.Text.{◌==◌ as str_eq}
use polymarket_agent.Common.{
  ℕ, Bool, true, false, Option, none, some, not, ◌||◌, List, [], ◌∷◌, ◌++◌, ◌==◌, if◌then◌else◌,
  any, keep, get_or,
}
use polymarket_agent.Redis.{
  Redis, Wire, str, bytes, decode, trading_key, execution_mode_key, SetKey, paused_strategies_key,
  paused_markets_key,
}

pub data Change : Type 0 where
  trading_changed : Bool → Change
  mode_changed : String → Change
  strategy_paused strategy_resumed market_paused market_resumed : ℕ → Change

pub data Notice : Type 0 where
  broadcast audit : Change → Notice

pub record Plane (S : Type 0) : Type 0 where
  pub paused_strategies : List ℕ
  pub paused_markets : List ℕ
  pub trading_enabled : Bool
  pub execution_mode : String
  pub redis : S
  pub notices : List Notice

-- `ControlPlane()`
abbrev pub init : {S : Type 0} → S → Plane S
init s = record {
  paused_strategies = [];
  paused_markets = [];
  trading_enabled = true;
  execution_mode = "paper";
  redis = s;
  notices = [];
}

-- `x in s`, `s.add(x)` and `s.discard(x)` of a Python set
abbrev pub member : ℕ → List ℕ → Bool
member x xs = any (λ y. y == x) xs

abbrev pub add : ℕ → List ℕ → List ℕ
add x xs = if member x xs then xs else x ∷ xs

abbrev pub discard : ℕ → List ℕ → List ℕ
discard x xs = keep (λ y. not (y == x)) xs

-- `val != b"false"`: a `str` is never equal to `bytes`
not_false_bytes : Option (Wire String) → Bool
not_false_bytes none = true
not_false_bytes (some (str t)) = true
not_false_bytes (some (bytes t)) = not (str_eq t "false")

-- `(val or b"paper").decode()`: `none` is the exception
decoded_mode : Option (Wire String) → Option String
decoded_mode none = some "paper"
decoded_mode (some (str t)) = if str_eq t "" then some "paper" else none
decoded_mode (some (bytes t)) = if str_eq t "" then some "paper" else some t

-- `if r is not None: try: await write`
write : {S V : Type 0} → Redis S V → (S → S) → S → S
write r command s = if r.connected s then command s else s

module _ {S V : Type 0} (r : Redis S V) where
  unfoldable pub is_trading_enabled : Plane S → Bool
  unfolding not_false_bytes
  is_trading_enabled p =
      if r.connected p.redis
      then elim (r.get p.redis trading_key) [
        | none ↦ p.trading_enabled
        | some val ↦ not_false_bytes val
      ]
      else p.trading_enabled

  unfoldable pub set_trading_enabled : Plane S → Bool → Plane S
  unfolding write
  set_trading_enabled p enabled = record p {
    trading_enabled = enabled;
    redis = write r (λ s. r.set s trading_key (if enabled then "true" else "false")) p.redis;
    notices =
        p.notices ++ broadcast (trading_changed enabled) ∷ audit (trading_changed enabled) ∷ [];
  }

  unfoldable pub get_execution_mode : Plane S → String
  unfolding decoded_mode
  get_execution_mode p =
      if r.connected p.redis
      then elim (r.get p.redis execution_mode_key) [
        | none ↦ p.execution_mode
        | some val ↦ get_or (decoded_mode val) p.execution_mode
      ]
      else p.execution_mode

  -- `none` is the `ValueError` for a mode that is none of the three.
  unfoldable pub set_execution_mode : Plane S → String → Option (Plane S)
  unfolding write
  set_execution_mode p mode =
      if str_eq mode "paper" || (str_eq mode "live" || str_eq mode "shadow")
      then some (record p {
        execution_mode = mode;
        redis = write r (λ s. r.set s execution_mode_key mode) p.redis;
        notices = p.notices ++ broadcast (mode_changed mode) ∷ audit (mode_changed mode) ∷ [];
      })
      else none

  -- The second half of `is_strategy_paused` and of `is_market_paused`.
  paused_remotely : Plane S → SetKey → ℕ → Bool
  paused_remotely p key id =
      if r.connected p.redis then get_or (r.sismember p.redis key id) false else false

  unfoldable pub is_strategy_paused : Plane S → ℕ → Bool
  unfolding paused_remotely
  is_strategy_paused p id =
      if member id p.paused_strategies then true else paused_remotely p paused_strategies_key id

  unfoldable pub pause_strategy : Plane S → ℕ → Plane S
  unfolding write
  pause_strategy p id = record p {
    paused_strategies = add id p.paused_strategies;
    redis = write r (λ s. r.sadd s paused_strategies_key id) p.redis;
    notices = p.notices ++ broadcast (strategy_paused id) ∷ audit (strategy_paused id) ∷ [];
  }

  unfoldable pub resume_strategy : Plane S → ℕ → Plane S
  unfolding write
  resume_strategy p id = record p {
    paused_strategies = discard id p.paused_strategies;
    redis = write r (λ s. r.srem s paused_strategies_key id) p.redis;
    notices = p.notices ++ broadcast (strategy_resumed id) ∷ [];
  }

  unfoldable pub is_market_paused : Plane S → ℕ → Bool
  unfolding paused_remotely
  is_market_paused p id =
      if member id p.paused_markets then true else paused_remotely p paused_markets_key id

  unfoldable pub pause_market : Plane S → ℕ → Plane S
  unfolding write
  pause_market p id = record p {
    paused_markets = add id p.paused_markets;
    redis = write r (λ s. r.sadd s paused_markets_key id) p.redis;
    notices = p.notices ++ broadcast (market_paused id) ∷ [];
  }

  unfoldable pub resume_market : Plane S → ℕ → Plane S
  unfolding write
  resume_market p id = record p {
    paused_markets = discard id p.paused_markets;
    redis = write r (λ s. r.srem s paused_markets_key id) p.redis;
    notices = p.notices ++ broadcast (market_resumed id) ∷ [];
  }
