-- ===== src/Trades/Requests.antt =====
-- Requests to backend/app/api/trades.py, each with a service and a session of its own
-- (backend/app/database.py, `get_db`), and the table of trades between them.
use polymarket_agent.Common.{
  ◌≡◌, ◌≢◌, ◌≤◌, ◌+◌, ◌⊎◌, inl, inr, Bool-cases, ◌∙◌, ℕ, Bool, true, false, none, refl, List, [],
  ◌∷◌, ◌++◌, arith, keep, any, length, get_or, if◌then◌else◌,
}
use polymarket_agent.Redis.{Redis}
use polymarket_agent.Risk.{Entry}
use polymarket_agent.Capability.{paper}
use polymarket_agent.Execution.{State, Settings, External, create_from_trade, order_for}
use polymarket_agent.Trades.Model.{
  Environment, Store, TradeRow, TradeCreateRequest, TradeError, Outcome, returned, raised, holds,
  is_active,
}
use polymarket_agent.Trades.Service.{
  after, new_row, is_raised_again, admit, create_trade, close_trade, close_each,
  close_all_positions, in_session, after,
}
use polymarket_agent.Trades.Laws.{admit_state, execute_err, close_trade_err, create_trade_admits}

-- how many open or pending trades a market has on an outcome
abbrev pub held : ℕ → ℕ → List TradeRow → ℕ
held market outcome ts = length (keep (holds market outcome) ts)

abbrev pub IsUnique : List TradeRow → Type 0
IsUnique ts = (market outcome : ℕ) → held market outcome ts ≤ 1

held-append :
    (market outcome : ℕ) (ts : List TradeRow) (t : TradeRow)
    → held market outcome (ts ++ t ∷ [])
      ≡ held market outcome ts + (if holds market outcome t then 1 else 0)
held-append market outcome [] t = ground arith
held-append market outcome (u ∷ ts) t = ground (arith, held-append market outcome ts t)

held_none :
    (market outcome : ℕ) (ts : List TradeRow)
    → any (holds market outcome) ts ≡ false
    → held market outcome ts ≡ 0
held_none market outcome [] h = refl
held_none market outcome (t ∷ ts) h = ground (arith, held_none market outcome ts)

held-new_row :
    (env : Environment) (id market outcome : ℕ) (request : TradeCreateRequest)
    → holds market outcome (new_row env id request) ≡ true
    → (market ≡ request.market_id) × (outcome ≡ request.outcome)
unfolding holds new_row
held-new_row env id market outcome request h = ground arith

-- a result that leaves the table and the list of sent orders, and counts no more
abbrev pub IsNothing : {S : Type 0} → Store S → ℕ → Outcome ℕ × Store S → Type 0
IsNothing s count (outcome, s') =
    ((outcome ≡ returned count)
      ⊎ ((why : TradeError) × (outcome ≡ raised why) × (is_raised_again why ≡ true)))
    × (s'.trades ≡ s.trades)
    × (s'.execution.sent ≡ s.execution.sent)

after_none :
    {S : Type 0} (o : Outcome ℕ) (s' : Store S) (count : ℕ) (rest : ℕ → Outcome ℕ × Store S)
    (s : Store S)
    → ((x : ℕ) → o ≢ returned x)
    → IsNothing s count (rest count)
    → (s'.trades ≡ s.trades) × (s'.execution.sent ≡ s.execution.sent)
    → IsNothing s count (after o s' count rest)
unfolding after
after_none (returned x) s' count rest s n h e = absurd (n x refl)
after_none (raised why) s' count rest s n h e = elim (Bool-cases (is_raised_again why)) [
  | inl b ↦ ground arith
  | inr b ↦ ground arith
]

module _ {S : Type 0} (r : Redis S Entry) (c : Settings) (meanwhile : State S → State S) (later : ℕ)
    (ext : External) (env : Environment) (w : (t : State S) → (meanwhile t).sent ≡ t.sent) where
  -- A market has at most one open or pending trade on an outcome: `create_trade` keeps it so, provided
  -- that other tasks do not touch the list of sent orders.
  pub create_trade-IsUnique :
      (planned : Bool) (id : ℕ) (request : TradeCreateRequest) (s : Store S)
      → IsUnique s.trades
      → IsUnique (create_trade r c meanwhile later ext env planned id request s).1.trades
  create_trade-IsUnique planned id request s u market outcome =
      let row = new_row env id request in
      ground (
        arith,
        create_trade_admits r c meanwhile later ext env w planned id request s,
        u market outcome,
        held-append market outcome s.trades row,
        held_none market outcome s.trades,
        held-new_row env id market outcome request,
      )

  pub close_each_none :
      (ts : List TradeRow) (count : ℕ) (s : Store S)
      → IsNothing s count (close_each r c meanwhile later ext env ts count s)
  unfolding close_each
  close_each_none [] count s = ground arith
  close_each_none (t ∷ ts) count s =
      let (outcome, s') = close_trade r c meanwhile later ext env t.trade.id none s in
      let f = close_trade_err r c meanwhile later ext env w t.trade.id none s in
      let h = close_each_none ts count s' in
      after_none outcome s' count (λ n. close_each r c meanwhile later ext env ts n s') s f.0
        (h.0, h.1 ∙ f.1, h.2 ∙ f.2) (f.1, f.2)

  -- `close_all_positions` closes nothing: it returns 0 or raises a denied authorization again, the
  -- table is as before and nothing is sent, provided that other tasks do not touch the list of sent
  -- orders.
  pub close_all_positions_none :
      (s : Store S) → IsNothing s 0 (close_all_positions r c meanwhile later ext env s)
  unfolding close_all_positions
  close_all_positions_none s = close_each_none (keep is_active s.trades) 0 s

  -- A request for a market order leaves the tables of trades and of orders as they were, whatever was
  -- sent: the submission is followed by an exception, and the session is rolled back. Provided that
  -- other tasks do not touch the list of sent orders, that is nothing or the one order of the trade.
  pub in_session-create_trade :
      (planned : Bool) (id : ℕ) (request : TradeCreateRequest) (s : Store S)
      → request.is_market_order ≡ true
      → let (outcome, s') =
          in_session (create_trade r c meanwhile later ext env planned id request) s in
        let trade = (new_row env id request).trade in
        let intent = create_from_trade trade (get_or trade.trade_type paper) none none none in
        ((x : ℕ) → outcome ≢ returned x)
        × (s'.trades ≡ s.trades)
        × (s'.execution.orders ≡ s.execution.orders)
        × ((s'.execution.sent ≡ s.execution.sent)
            ⊎ (s'.execution.sent ≡ s.execution.sent ++ order_for later intent id ∷ []))
  unfolding in_session create_trade new_row
  in_session-create_trade planned id request s m =
      let s0 = record s { emergency_stopped = false } in
      let s' = (admit env request s0).1 in
      let row = new_row env id request in
      let s'' = record s' { trades = s'.trades ++ row ∷ [] } in
      ground (
        arith,
        admit_state env request s0,
        execute_err r c meanwhile later ext env w planned row.trade s'',
      )
