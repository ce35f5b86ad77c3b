-- ===== src/Circuit.antt =====
-- `CircuitBreaker` of backend/app/core/circuit_breaker.py. Times are readings of `time.monotonic()` in
-- milliseconds. `window` and `recovery` are the two arguments in seconds, times 1000.
pub mod Laws
use polymarket_agent.Common.{
  ℕ, zero, suc, ◌+◌, ◌-◌, Bool, true, false, Option, none, some, not, ◌&&◌, List, [], ◌∷◌, ◌++◌,
  ltb, leb, if◌then◌else◌, length, keep,
}

pub data CircuitState : Type 0 where
  closed opened half_open : CircuitState

pub record Config : Type 0 where
  pub failure_threshold : ℕ
  pub window : ℕ
  pub recovery : ℕ

pub record Circuit : Type 0 where
  pub status : CircuitState
  pub failures : List ℕ
  pub last_open_time : Option ℕ
  pub total_opens : ℕ

unfoldable pub init : Circuit
init = record { status = closed; failures = []; last_open_time = none; total_opens = 0 }

unfoldable pub is_opened : CircuitState → Bool
is_opened opened = true
is_opened _ = false

-- `self._last_open_time and now - self._last_open_time >= recovery`: a time of 0 is false
recovered : Config → Option ℕ → ℕ → Bool
recovered c none now = false
recovered c (some zero) now = false
recovered c (some (suc t)) now = leb c.recovery (now - suc t)

-- The property `state`, which moves an open circuit on.
unfoldable pub state : Config → ℕ → Circuit → CircuitState × Circuit
unfolding is_opened recovered
state c now b =
    if is_opened b.status && recovered c b.last_open_time now
    then (half_open, record b { status = half_open })
    else (b.status, b)

-- the failures of the last `window`
unfoldable pub recent : Config → ℕ → List ℕ → List ℕ
recent c now ts = keep (λ t. ltb (now - t) c.window) ts

unfoldable pub record_failure : Config → ℕ → Circuit → Circuit
unfolding is_opened recent
record_failure c now b =
    let ts = recent c now b.failures ++ now ∷ [] in
    if leb c.failure_threshold (length ts) && not (is_opened b.status)
    then record {
      status = opened;
      failures = ts;
      last_open_time = some now;
      total_opens = b.total_opens + 1;
    }
    else record b { failures = ts }

unfoldable pub record_success : Circuit → Circuit
record_success b = elim b.status [ half_open ↦ record b { status = closed; failures = [] } | _ ↦ b ]

unfoldable pub reset : Circuit → Circuit
reset b = record b { status = closed; failures = [] }
