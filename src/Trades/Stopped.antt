-- ===== src/Trades/Stopped.antt =====
-- The emergency stop of a service of backend/app/services/trade_service.py, and what is called after it.
use polymarket_agent.Common.{
  ◌+◌, ap, ◌≡◌, ◌≢◌, ◌∙◌, ℕ, Bool, true, false, Option, none, inl, inr, Bool-cases, Option-cases,
  refl, List, [], ◌∷◌, arith, keep, All,
}
use polymarket_agent.Redis.{Redis}
use polymarket_agent.Risk.{Entry}
use polymarket_agent.Execution.{State, Settings, External}
use polymarket_agent.Trades.Model.{
  Environment, Store, TradeCreateRequest, TradeRow, Outcome, returned, raised, is_active,
}
use polymarket_agent.Trades.Service.{
  after, find_trade, is_raised_again, admit, create_trade, close_trade, close_each,
  close_all_positions, cancel_active, emergency_stop,
}
use polymarket_agent.Trades.Laws.{close_trade_err}
use polymarket_agent.Trades.Requests.{close_each_none}

cancel_active_lem : (ts : List TradeRow) → All (λ t. is_active t ≡ false) (cancel_active ts)
unfolding cancel_active is_active
cancel_active_lem [] = tt
cancel_active_lem (t ∷ ts) = ground (arith, cancel_active_lem ts)

-- A call of a service, with the time of the checks, the outside world and the environment that it meets.
pub data Call : Type 0 where
  creates : ℕ → External → Environment → Bool → ℕ → TradeCreateRequest → Call
  closes : ℕ → External → Environment → ℕ → Option ℕ → Call
  closes_all : ℕ → External → Environment → Call

-- A call that creates does not return.
abbrev pub IsRefused : Call × Outcome ℕ → Type 0
IsRefused (creates later ext env planned id request, outcome) = (x : ℕ) → outcome ≢ returned x
IsRefused (call, outcome) = Unit

-- the flag is set, and the table is as given
abbrev pub IsStopped : {S : Type 0} → List TradeRow → Store S → Type 0
IsStopped trades s = (s.emergency_stopped ≡ true) × (s.trades ≡ trades)

admit_stopped :
    {S : Type 0} (env : Environment) (request : TradeCreateRequest) (s : Store S)
    → s.emergency_stopped ≡ true
    → ((admit env request s).0 ≢ returned tt) × ((admit env request s).1 ≡ s)
unfolding admit
admit_stopped env request s h = ground arith

after_keeps :
    {S : Type 0} (o : Outcome ℕ) (s' : Store S) (count : ℕ) (rest : ℕ → Outcome ℕ × Store S)
    (b : Bool)
    → ((n : ℕ) → (rest n).1.emergency_stopped ≡ b)
    → s'.emergency_stopped ≡ b
    → (after o s' count rest).1.emergency_stopped ≡ b
unfolding after
after_keeps (returned x) s' count rest b h e = h (count + 1)
after_keeps (raised why) s' count rest b h e = elim (Bool-cases (is_raised_again why)) [
  | inl a ↦ ground arith
  | inr a ↦ ground (arith, h count)
]

module _ {S : Type 0} (r : Redis S Entry) (c : Settings) (meanwhile : State S → State S) where
  unfoldable pub do_call : Call → Store S → Outcome ℕ × Store S
  do_call (creates later ext env planned id request) s =
      create_trade r c meanwhile later ext env planned id request s
  do_call (closes later ext env id price) s = close_trade r c meanwhile later ext env id price s
  do_call (closes_all later ext env) s = close_all_positions r c meanwhile later ext env s

  -- calls one after the other, with their outcomes
  unfoldable pub do_calls : List Call → Store S → List (Call × Outcome ℕ) × Store S
  unfolding do_call
  do_calls [] s = ([], s)
  do_calls (call ∷ calls) s =
      let (outcome, s') = do_call call s in
      let (rest, last) = do_calls calls s' in ((call, outcome) ∷ rest, last)

module _ {S : Type 0} (r : Redis S Entry) (c : Settings) (meanwhile : State S → State S)
    (w : (t : State S) → (meanwhile t).sent ≡ t.sent) where
  create_stopped :
      (later : ℕ) (ext : External) (env : Environment) (planned : Bool) (id : ℕ)
      (request : TradeCreateRequest) (s : Store S)
      → s.emergency_stopped ≡ true
      → let (outcome, s') = create_trade r c meanwhile later ext env planned id request s in
        ((x : ℕ) → outcome ≢ returned x) × (s' ≡ s)
  unfolding create_trade
  create_stopped later ext env planned id request s h =
      ground (arith, admit_stopped env request s h)

  close_keeps :
      (later : ℕ) (ext : External) (env : Environment) (id : ℕ) (price : Option ℕ) (s : Store S)
      → (close_trade r c meanwhile later ext env id price s).1.emergency_stopped
        ≡ s.emergency_stopped
  unfolding close_trade
  close_keeps later ext env id price s = elim (Option-cases (find_trade id s.trades)) [
    | inl e ↦ ground arith
    | inr (t, e) ↦ ground arith
  ]

  close_each_keeps :
      (later : ℕ) (ext : External) (env : Environment) (ts : List TradeRow) (count : ℕ)
      (s : Store S)
      → (close_each r c meanwhile later ext env ts count s).1.emergency_stopped
        ≡ s.emergency_stopped
  unfolding close_each
  close_each_keeps later ext env [] count s = refl
  close_each_keeps later ext env (t ∷ ts) count s =
      let (outcome, s') = close_trade r c meanwhile later ext env t.trade.id none s in
      let k = close_keeps later ext env t.trade.id none s in
      after_keeps outcome s' count (λ n. close_each r c meanwhile later ext env ts n s')
        s.emergency_stopped (λ n. close_each_keeps later ext env ts n s' ∙ k) k

  do_call-IsStopped :
      (call : Call) (trades : List TradeRow) (s : Store S)
      → IsStopped trades s
      → let (outcome, s') = do_call r c meanwhile call s in
        IsRefused (call, outcome) × IsStopped trades s'
  unfolding do_call close_all_positions
  do_call-IsStopped (creates later ext env planned id request) trades s (h, e) =
      let (n, k) = create_stopped later ext env planned id request s h in
      (n, (ap (λ (x : Store S). x.emergency_stopped) k ∙ h, ap (λ (x : Store S). x.trades) k ∙ e))
  do_call-IsStopped (closes later ext env id price) trades s (h, e) =
      let f = close_trade_err r c meanwhile later ext env w id price s in
      (tt, (close_keeps later ext env id price s ∙ h, f.1 ∙ e))
  do_call-IsStopped (closes_all later ext env) trades s (h, e) =
      let active = keep is_active s.trades in
      let f = close_each_none r c meanwhile later ext env w active 0 s in
      (tt, (close_each_keeps later ext env active 0 s ∙ h, f.1 ∙ e))

  do_calls-IsStopped :
      (calls : List Call) (trades : List TradeRow) (s : Store S)
      → IsStopped trades s
      → let (results, s') = do_calls r c meanwhile calls s in
        All IsRefused results × IsStopped trades s'
  unfolding do_calls
  do_calls-IsStopped [] trades s h = (tt, h)
  do_calls-IsStopped (call ∷ calls) trades s h =
      let (n, k) = do_call-IsStopped call trades s h in
      let (ns, l) = do_calls-IsStopped calls trades (do_call r c meanwhile call s).1 k in
      ((n, ns), l)

  -- `emergency_stop` leaves no open or pending trade, and holds for the service: whatever is called on it
  -- afterwards, in any order and however often, of `create_trade`, `close_trade` and
  -- `close_all_positions`, no `create_trade` returns, the table stays as the stop left it, and the flag
  -- stays set. Provided that other tasks do not touch the list of sent orders.
  pub do_calls-emergency_stop :
      (calls : List Call) (s : Store S)
      → let stopped = emergency_stop s in
        let (results, s') = do_calls r c meanwhile calls stopped in
        All (λ t. is_active t ≡ false) stopped.trades
        × All IsRefused results
        × (s'.trades ≡ stopped.trades)
        × (s'.emergency_stopped ≡ true)
  unfolding emergency_stop
  do_calls-emergency_stop calls s =
      let (n, (f, t)) =
        do_calls-IsStopped calls (emergency_stop s).trades (emergency_stop s) (refl, refl) in
      (cancel_active_lem s.trades, n, t, f)
