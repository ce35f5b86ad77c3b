-- ===== src/Risk.antt =====
-- The circuit breakers of backend/app/services/risk/circuit_breakers.py, over the control plane and
-- its Redis connection. Times are readings of `time.time()` in milliseconds, and every method runs at
-- one reading. What a breaker sends to the websocket manager and to the audit log is kept in `sent`.
-- `track_execution_failure` and `track_execution_latency` do nothing in the source.
pub mod Laws
use Prim.Native.String.{String}
use polymarket_agent.Common.{
  ℕ, ◌+◌, ◌*◌, Bool, true, false, Option, none, some, List, [], ◌∷◌, ◌++◌, ◌==◌, ltb, if◌then◌else◌,
}
use polymarket_agent.Redis.{Redis, Wire, decode}
use polymarket_agent.Control.{Plane, set_trading_enabled, set_execution_mode}

-- The names that `_get_action` knows, and any other.
pub data BreakerName : Type 0 where
  loss_circuit execution_failure latency_spike drift_breaker : BreakerName
  other : ℕ → BreakerName

-- the field of the Redis hash, and the way in which names are compared
unfoldable pub field_of : BreakerName → ℕ
field_of loss_circuit = 0
field_of execution_failure = 1
field_of latency_spike = 2
field_of drift_breaker = 3
field_of (other n) = 4 + n

-- The dict that `_trigger` builds; its ISO time stamp is not modelled.
pub record Entry : Type 0 where
  pub name : BreakerName
  pub reason : String
  pub triggered_at : ℕ
  pub cooldown : ℕ

-- `check_fn` is called at a time.
pub record CircuitBreaker : Type 0 where
  pub name : BreakerName
  pub check_fn : ℕ → Bool × String
  pub cooldown : ℕ
  pub local_trigger : Option Entry

pub data Message : Type 0 where
  triggered_broadcast triggered_audit : Entry → Message
  reset_broadcast reset_audit : BreakerName → Message

-- What the methods act on besides the breakers.
pub record World (S : Type 0) : Type 0 where
  pub plane : Plane S
  pub sent : List Message

-- `time.time() - triggered_at < cooldown`
unfoldable pub within : ℕ → ℕ → ℕ → Bool
within now triggered_at cooldown = ltb now (triggered_at + cooldown * 1000)

-- the entry that `eval(val.decode())` gives; `none` is an exception or no value
decoded_entry : Option (Option (Wire Entry)) → Option Entry
decoded_entry none = none
decoded_entry (some none) = none
decoded_entry (some (some w)) = decode w

module _ {S : Type 0} (r : Redis S Entry) where
  unfoldable pub triggered_remotely : S → ℕ → CircuitBreaker → Bool
  unfolding decoded_entry within
  triggered_remotely s now b =
      if r.connected s
      then elim (decoded_entry (r.hget s (field_of b.name))) [
        | none ↦ false
        | some e ↦ within now e.triggered_at b.cooldown
      ]
      else false

  -- `is_triggered` forgets a local trigger whose cooldown has passed.
  unfoldable pub is_triggered : S → ℕ → CircuitBreaker → Bool × CircuitBreaker
  unfolding within
  is_triggered s now b = elim b.local_trigger [
    | none ↦ (triggered_remotely s now b, b)
    | some e ↦
        if within now e.triggered_at b.cooldown
        then (true, b)
        else (triggered_remotely s now b, record b { local_trigger = none })
  ]

  entry_of : ℕ → String → CircuitBreaker → Entry
  entry_of now reason b = record {
    name = b.name;
    reason = reason;
    triggered_at = now;
    cooldown = b.cooldown;
  }

  -- `_trigger`
  unfoldable pub trigger : ℕ → String → CircuitBreaker → World S → CircuitBreaker × World S
  unfolding entry_of
  trigger now reason b w =
      let e = entry_of now reason b in
      (
        record b { local_trigger = some e },
        record w {
          plane = record w.plane {
            redis =
                if r.connected w.plane.redis
                then r.hset w.plane.redis (field_of b.name) e
                else w.plane.redis;
          };
          sent = w.sent ++ triggered_broadcast e ∷ triggered_audit e ∷ [];
        },
      )

  -- `evaluate`: the flag says whether this call triggered the breaker.
  unfoldable pub evaluate : ℕ → CircuitBreaker → World S → Bool × CircuitBreaker × World S
  evaluate now b w =
      let (active, b') = is_triggered w.plane.redis now b in
      let (fails, reason) = b.check_fn now in
      let (b'', w') = trigger now reason b' w in
      if active then (false, b', w) else if fails then (true, b'', w') else (false, b', w)

  unfoldable pub reset : CircuitBreaker → World S → CircuitBreaker × World S
  reset b w = (
    record b { local_trigger = none },
    record w {
      plane = record w.plane {
        redis =
            if r.connected w.plane.redis
            then r.hdel w.plane.redis (field_of b.name)
            else w.plane.redis;
      };
      sent = w.sent ++ reset_broadcast b.name ∷ reset_audit b.name ∷ [];
    },
  )

  or_same : Option (Plane S) → Plane S → Plane S
  or_same none p = p
  or_same (some p') p = p'

  -- `_get_action`, with the call of the action it gives
  unfoldable pub act : BreakerName → Plane S → Plane S
  unfolding or_same
  act loss_circuit p = set_trading_enabled r p false
  act execution_failure p = or_same (set_execution_mode r p "paper") p
  act latency_spike p = or_same (set_execution_mode r p "shadow") p
  act drift_breaker p = set_trading_enabled r p false
  act (other n) p = p

  -- `if result: action = ...; if action: await action(context)`
  unfoldable pub act_if : Bool → BreakerName → World S → World S
  unfolding act
  act_if fired name w = if fired then record w { plane = act name w.plane } else w

  -- `register`: a dict keeps the place of a name that it has
  unfoldable pub register : CircuitBreaker → List CircuitBreaker → List CircuitBreaker
  register b [] = b ∷ []
  register b (c ∷ cs) =
      let rest = register b cs in if field_of c.name == field_of b.name then b ∷ cs else c ∷ rest

  -- `evaluate_all`: the names of the breakers that triggered, in order, and what is left
  unfoldable pub evaluate_all :
      ℕ → List CircuitBreaker → World S → List BreakerName × List CircuitBreaker × World S
  unfolding evaluate
  evaluate_all now [] w = ([], [], w)
  evaluate_all now (b ∷ bs) w =
      let (fired, b', w') = evaluate now b w in
      let (names, bs', last) = evaluate_all now bs (act_if fired b.name w') in
      (if fired then b.name ∷ names else names, b' ∷ bs', last)

  -- the name in the entry that `get_active` gives for a triggered breaker: the stored one, or its own
  unfoldable pub active_name : S → CircuitBreaker → BreakerName
  unfolding decoded_entry
  active_name s b =
      if r.connected s
      then elim (decoded_entry (r.hget s (field_of b.name))) [ none ↦ b.name | some e ↦ e.name ]
      else b.name

  -- `get_active`: one entry for each triggered breaker, of which the callers use the names
  unfoldable pub get_active : S → ℕ → List CircuitBreaker → List BreakerName × List CircuitBreaker
  get_active s now [] = ([], [])
  get_active s now (b ∷ bs) =
      let (active, b') = is_triggered s now b in
      let (names, bs') = get_active s now bs in
      (if active then active_name s b' ∷ names else names, b' ∷ bs')

  unfoldable pub reset_all : List CircuitBreaker → World S → List CircuitBreaker × World S
  unfolding reset
  reset_all [] w = ([], w)
  reset_all (b ∷ bs) w =
      let (b', w') = reset b w in let (bs', last) = reset_all bs w' in (b' ∷ bs', last)

  unfoldable pub reset_one :
      BreakerName → List CircuitBreaker → World S → List CircuitBreaker × World S
  unfolding reset
  reset_one name [] w = ([], w)
  reset_one name (b ∷ bs) w =
      let (b', w') = reset b w in
      let (bs', last) = reset_one name bs w in
      if field_of b.name == field_of name then (b' ∷ bs, w') else (b ∷ bs', last)

-- `register_default_breakers`: the checks never fail
no_failure : ℕ → Bool × String
no_failure now = (false, "")

default_breaker : BreakerName → ℕ → CircuitBreaker
default_breaker name cooldown = record {
  name = name;
  check_fn = no_failure;
  cooldown = cooldown;
  local_trigger = none;
}

unfoldable pub default_breakers : List CircuitBreaker
unfolding default_breaker no_failure
default_breakers =
    default_breaker loss_circuit 600
    ∷ default_breaker execution_failure 300
    ∷ default_breaker latency_spike 300
    ∷ default_breaker drift_breaker 600
    ∷ []
