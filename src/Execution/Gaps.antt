-- ===== src/Execution/Gaps.antt =====
-- What the checks of backend/app/services/execution/execution_service.py do not stop.
use Prim.Native.String.{String}
use polymarket_agent.Common.{ℕ, ◌≡◌, ◌≢◌, true, Option, some, arith}
use polymarket_agent.Redis.{Redis, IsDecoding, Wire, trading_key}
use polymarket_agent.Control.Laws.{trading_enabled_online}
use polymarket_agent.Risk.{Entry}
use polymarket_agent.Execution.{
  Settings, State, Trade, err, global_trading_disabled, kill_switch_engaged, check_safety,
  kill_switch_recheck,
}

module _ {S : Type 0} (r : Redis S Entry) (c : Settings) where
  -- With the decoding client of redis.py, and while Redis answers, neither check of the kill switch
  -- ever refuses: no flag that was set before stops an execution.
  pub kill_switch_online :
      (now : ℕ) (trade : Option Trade) (s : State S) (val : Option (Wire String))
      → IsDecoding r
      → r.connected s.world.plane.redis ≡ true
      → r.get s.world.plane.redis trading_key ≡ some val
      → ((check_safety r c now trade s).0 ≢ err global_trading_disabled)
        × ((kill_switch_recheck r c now trade s).0 ≢ err kill_switch_engaged)
  unfolding check_safety kill_switch_recheck
  kill_switch_online now trade s val d k g =
      let e = trading_enabled_online r s.world.plane val d k g in ground arith
