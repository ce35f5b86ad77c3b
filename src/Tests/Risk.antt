-- ===== src/Tests/Risk.antt =====
-- The control plane, the circuit breakers and the governor at concrete states, over a Redis whose
-- client decodes: every read gives the text "false", and the hash is empty.
use polymarket_agent.Common.{◌≡◌, refl, Bool, true, false, none, some, List, [], ◌∷◌, arith, any}
use polymarket_agent.Redis.{Redis, IsDecoding, str}
use polymarket_agent.Control.{
  Plane, is_trading_enabled, set_trading_enabled, get_execution_mode, set_execution_mode,
  is_strategy_paused, pause_strategy, resume_strategy, is_market_paused, pause_market,
  resume_market, member,
}
use polymarket_agent.Control
use polymarket_agent.Risk.{
  loss_circuit, latency_spike, Entry, CircuitBreaker, World, evaluate_all, get_active,
}
use polymarket_agent.Risk.Laws.{
  blocking_names, stops_trading, evaluate_all_names, get_active-evaluate_all,
}

abbrev pub memory : Bool → Redis (Unit {0}) Entry
memory up = record {
  connected = λ s. up;
  get = λ s k. some (some (str "false"));
  set = λ s k t. s;
  sismember = λ s k m. some false;
  sadd = λ s k m. s;
  srem = λ s k m. s;
  hget = λ s n. some none;
  hset = λ s n e. s;
  hdel = λ s n. s;
}

pub memory-IsDecoding : (up : Bool) → IsDecoding (memory up)
memory-IsDecoding up = record {
  get_str = λ s k w h. ground arith;
  hget_str = λ s n w h. ground arith;
}

abbrev pub world : World (Unit {0})
world = record { plane = Control.init tt; sent = [] }

abbrev pub failing : CircuitBreaker
failing = record {
  name = loss_circuit;
  check_fn = λ now. (true, "daily loss");
  cooldown = 600;
  local_trigger = none;
}

abbrev pub breakers : List CircuitBreaker
breakers = failing ∷ record failing { name = latency_spike; check_fn = λ now. (false, "") } ∷ []

get_active-evaluate_all_example :
    (get_active (memory true) tt 1000 (evaluate_all (memory true) 1000 breakers world).1).0
    ≡ blocking_names 1000 breakers
get_active-evaluate_all_example =
    get_active-evaluate_all (memory true) (memory-IsDecoding true) 1000 breakers world tt
      (omega arith)

loss_fired : any stops_trading (evaluate_all (memory true) 1000 breakers world).0 ≡ true
loss_fired = rw (evaluate_all_names (memory true) (memory-IsDecoding true) 1000 breakers world) refl
