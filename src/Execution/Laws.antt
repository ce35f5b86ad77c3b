-- ===== src/Execution/Laws.antt =====
-- What the submission of an order in backend/app/services/execution/execution_service.py guarantees.
use polymarket_agent.Common.{
  ℕ, ◌≡◌, ◌≢◌, ◌⊎◌, Bool, true, false, Option, none, some, [], ◌∷◌, ◌++◌, any, arith, get_or, refl,
}
use polymarket_agent.Governance.{live, authorize_execution}
use polymarket_agent.Redis.{Redis}
use polymarket_agent.Control.{is_trading_enabled, is_market_paused}
use polymarket_agent.Risk.{Entry, get_active}
use polymarket_agent.Capability.{paper, is_valid, validate_intent, resolve}
use polymarket_agent.Execution.{
  Settings, State, Trade, ExecutionIntent, ExchangeOrder, ExecutionResult, External, ok,
  check_safety, kill_switch_recheck, validate_capabilities, submit_intent, create_trade_execution,
  close_trade_execution, order_for, intent_to_order, same_key, same_trade, has_adapter,
  create_from_trade, truthy_or, half, opposite,
}

module _ {S : Type 0} (r : Redis S Entry) (c : Settings) where
  pub check_safety_state :
      (now : ℕ) (trade : Option Trade) (s : State S)
      → let s' = (check_safety r c now trade s).1 in
        (s'.world ≡ s.world) × (s'.orders ≡ s.orders) × (s'.sent ≡ s.sent)
  unfolding check_safety
  check_safety_state now trade s = ground arith

  check_safety_authorized :
      (now : ℕ) (trade : Option Trade) (s : State S)
      → (check_safety r c now trade s).0 ≡ ok tt
      → authorize_execution c.governor_mode ≡ none
  unfolding check_safety
  check_safety_authorized now trade s h = ground arith

  recheck_state :
      (now : ℕ) (trade : Option Trade) (s : State S)
      → let s' = (kill_switch_recheck r c now trade s).1 in
        (s'.world ≡ s.world) × (s'.orders ≡ s.orders) × (s'.sent ≡ s.sent)
  unfolding kill_switch_recheck
  recheck_state now trade s = ground arith

  recheck_clear :
      (now : ℕ) (trade : Option Trade) (s : State S)
      → (kill_switch_recheck r c now trade s).0 ≡ ok tt
      → (is_trading_enabled r s.world.plane ≡ true)
        × ((get_active r s.world.plane.redis now s.breakers).0 ≡ [])
  unfolding kill_switch_recheck
  recheck_clear now trade s h = ground arith

  module _ (now later : ℕ) (meanwhile : State S → State S) (ext : External) where
    -- When `submit_intent` returns a result, the governor authorizes execution, the venue is valid and
    -- has an adapter, the intent has a transaction plan and can be written as JSON, and at the time at
    -- which the lock is held, after whatever other tasks did in between, trading is enabled and no
    -- breaker is active.
    pub submit_intent_ok :
        (intent : ExecutionIntent) (s : State S) (result : ExecutionResult)
        → (submit_intent r c now meanwhile later ext intent s).0 ≡ ok result
        → let held = meanwhile (check_safety r c now none s).1 in
          (authorize_execution c.governor_mode ≡ none)
          × (is_valid (validate_intent (resolve intent.venue)) ≡ true)
          × (has_adapter intent.venue ≡ true)
          × (intent.has_plan ≡ true)
          × (ext.dumps intent ≡ true)
          × (is_trading_enabled r held.world.plane ≡ true)
          × ((get_active r held.world.plane.redis later held.breakers).0 ≡ [])
    unfolding submit_intent validate_capabilities intent_to_order
    submit_intent_ok intent s result h = ground (
      arith,
      check_safety_authorized now none s,
      recheck_clear later none (meanwhile (check_safety r c now none s).1),
    )

    -- For an intent with a trade id, provided that other tasks do not touch the list of sent orders:
    -- either nothing is sent, or exactly the order of the intent is, and then it is in the session, its
    -- key was fresh there, its trade had no order there, and with the lock held trading was enabled and no breaker active.
    pub submit_intent_sent :
        (intent : ExecutionIntent) (id : ℕ) (s : State S)
        → intent.trade_id ≡ some id
        → (meanwhile (check_safety r c now none s).1).sent ≡ s.sent
        → let s' = (submit_intent r c now meanwhile later ext intent s).1 in
          let held = meanwhile (check_safety r c now none s).1 in
          let order = order_for later intent id in
          (s'.sent ≡ s.sent)
          ⊎ ((s'.sent ≡ s.sent ++ order ∷ [])
              × (s'.orders ≡ held.orders ++ order ∷ [])
              × (any (same_key order) held.orders ≡ false)
              × (any (same_trade order) held.orders ≡ false)
              × (is_trading_enabled r held.world.plane ≡ true)
              × ((get_active r held.world.plane.redis later held.breakers).0 ≡ []))
    unfolding submit_intent validate_capabilities intent_to_order
    submit_intent_sent intent id s e keep =
        let held = meanwhile (check_safety r c now none s).1 in
        ground (
          arith,
          check_safety_state now none s,
          recheck_state later none held,
          recheck_clear later none held,
        )

    -- When the governor is in live mode, nothing is sent and nothing returned: a submission changes no
    -- state at all.
    pub submit_intent-live :
        (intent : ExecutionIntent) (s : State S) (result : ExecutionResult)
        → c.governor_mode ≡ live
        → ((submit_intent r c now meanwhile later ext intent s).0 ≢ ok result)
          × ((submit_intent r c now meanwhile later ext intent s).1 ≡ s)
    unfolding submit_intent validate_capabilities check_safety authorize_execution
    submit_intent-live intent s result l = ground arith

    -- No trade execution ever returns a result, as a submission that succeeds is followed by a
    -- `NameError`; and provided that other tasks do not touch the list of sent orders, it sends nothing,
    -- or the one order of the trade, which then stays sent.
    pub create_trade_execution_err :
        (planned : Bool) (trade : Trade) (s : State S) (result : ExecutionResult)
        → ((t : State S) → (meanwhile t).sent ≡ t.sent)
        → let (outcome, s') = create_trade_execution r c now meanwhile later ext planned trade s in
          let intent = create_from_trade trade (get_or trade.trade_type paper) none none none in
          let order = order_for later intent trade.id in
          (outcome ≢ ok result) × ((s'.sent ≡ s.sent) ⊎ (s'.sent ≡ s.sent ++ order ∷ []))
    unfolding create_trade_execution create_from_trade order_for
    create_trade_execution_err planned trade s result w =
        let s' = (check_safety r c now (some trade) s).1 in
        let intent = create_from_trade trade (get_or trade.trade_type paper) none none none in
        ground (
          arith,
          check_safety_state now (some trade) s,
          check_safety_state now none s',
          w (check_safety r c now none s').1,
          submit_intent_sent (record intent { has_plan = true }) trade.id s' refl,
        )

    unplanned_sends_nothing :
        (intent : ExecutionIntent) (s : State S)
        → intent.has_plan ≡ false
        → (meanwhile (check_safety r c now none s).1).sent ≡ s.sent
        → (submit_intent r c now meanwhile later ext intent s).1.sent ≡ s.sent
    unfolding submit_intent validate_capabilities intent_to_order
    unplanned_sends_nothing intent s p w =
        let held = meanwhile (check_safety r c now none s).1 in
        ground (arith, check_safety_state now none s, recheck_state later none held)

    -- Closing a trade never sends an order and never returns a result, provided that other tasks do not
    -- touch the list of sent orders: its intent has no transaction plan, and the conversion to an order
    -- reads one.
    pub close_trade_execution_err :
        (original : Option ExchangeOrder) (exit_price : Option ℕ) (trade : Trade) (s : State S)
        (result : ExecutionResult)
        → ((t : State S) → (meanwhile t).sent ≡ t.sent)
        → let (outcome, s') =
            close_trade_execution r c now meanwhile later ext original exit_price trade s in
          (outcome ≢ ok result) × (s'.sent ≡ s.sent)
    unfolding close_trade_execution create_from_trade
    close_trade_execution_err none exit_price trade s result w =
        ground (arith, check_safety_state now (some trade) s)
    close_trade_execution_err (some original) exit_price trade s result w =
        let s' = (check_safety r c now (some trade) s).1 in
        let price = get_or exit_price (truthy_or original.filled_price half) in
        let intent =
          create_from_trade trade original.engine_type (some (opposite original.side))
            (some original.filled_size) (some price) in
        ground (
          arith,
          check_safety_state now (some trade) s,
          check_safety_state now none s',
          w (check_safety r c now none s').1,
          unplanned_sends_nothing intent s' refl,
        )

    -- A trade whose market is paused is refused at the first check, and nothing is sent.
    pub create_trade_execution-paused :
        (planned : Bool) (trade : Trade) (s : State S) (market : ℕ) (result : ExecutionResult)
        → trade.market_id ≡ some market
        → is_market_paused r s.world.plane market ≡ true
        → let (outcome, s') = create_trade_execution r c now meanwhile later ext planned trade s in
          (outcome ≢ ok result) × (s'.sent ≡ s.sent) × (s'.orders ≡ s.orders)
    unfolding create_trade_execution check_safety
    create_trade_execution-paused planned trade s market result m p = ground arith
