-- ===== src/Redis.antt =====
-- The Redis client that backend/app/redis.py builds, as the control plane and the circuit breakers
-- use it. The server and the library are outside the repository: what they do is a parameter.
use Prim.Native.String.{String}
use polymarket_agent.Common.{ℕ, Bool, Option, none, some, ◌≡◌}

-- A value in a reply: a Python `str`, or `bytes`.
pub data Wire (A : Type 0) : Type 0 where
  str bytes : A → Wire A

-- `value.decode()`: only `bytes` has it, and `none` is the `AttributeError` of a `str`
abbrev pub decode : {A : Type 0} → Wire A → Option A
decode (str a) = none
decode (bytes a) = some a

-- `TRADING_KEY` and `EXECUTION_MODE_KEY`
pub data Key : Type 0 where
  trading_key execution_mode_key : Key

-- `PAUSED_STRATEGIES_KEY` and `PAUSED_MARKETS_KEY`
pub data SetKey : Type 0 where
  paused_strategies_key paused_markets_key : SetKey

-- The commands, over the state `S` of the server and its connection. A read that raises is `none`.
-- A write gives the state after it, whether it raised or not, as the callers ignore that. The hash is
-- `CB_ACTIVE_KEY`, whose values are written by `str` and read by `eval`.
pub record Redis (S V : Type 0) : Type 0 where
  -- whether `get_redis` returns a client
  pub connected : S → Bool
  pub get : S → Key → Option (Option (Wire String))
  pub set : S → Key → String → S
  pub sismember : S → SetKey → ℕ → Option Bool
  pub sadd : S → SetKey → ℕ → S
  pub srem : S → SetKey → ℕ → S
  pub hget : S → ℕ → Option (Option (Wire V))
  pub hset : S → ℕ → V → S
  pub hdel : S → ℕ → S

-- `decode_responses=True`, which redis.py asks for: every value in a reply is a `str`.
pub record IsDecoding {S V : Type 0} (r : Redis S V) : Type 0 where
  pub get_str : (s : S) (k : Key) (w : Wire String) → r.get s k ≡ some (some w) → decode w ≡ none
  pub hget_str : (s : S) (n : ℕ) (w : Wire V) → r.hget s n ≡ some (some w) → decode w ≡ none
