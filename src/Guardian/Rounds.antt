-- ===== src/Guardian/Rounds.antt =====
-- The rounds of the loop `_periodic_strategy_guardian_eval` of backend/app/main.py.
use polymarket_agent.Common.{
  ◌≡◌, ℕ, ◌+◌, Bool, Option, none, some, true, false, not, List, [], ◌∷◌, arith, if◌then◌else◌,
  refl, map, any, keep, ap, sym, ◌∙◌, Bool-cases, inl, inr, is_some,
}
use polymarket_agent.Common.Dict.{Dict, insert}
use mathlib.Core.Path.{subst}
use polymarket_agent.Guardian.{
  Guardian, ConfigRecord, ClosedTrade, StrategyStatus, status_of, disabled_if, is_repeated,
  disable_strategy, kill_strategy, evaluate_strategy, evaluate_each, evaluate_all, guardian_round,
}
use polymarket_agent.Guardian.Table.{
  kills, after, is_stuck, map-disabled, map-unchanged, map-none, any_stuck-disabled,
}

negated : (b : Bool) → false ≡ not b → b ≡ true
negated true h = refl
negated false h = h

affirmed : (b : Bool) → true ≡ not b → b ≡ false
affirmed true h = h
affirmed false h = refl

disable_strategy-raised :
    (name : ℕ) (records : List ConfigRecord)
    → is_repeated name records ≡ true
    → disable_strategy name records ≡ none
unfolding disable_strategy
disable_strategy-raised name records u = rw u refl

disable_strategy-disabled :
    (name : ℕ) (records : List ConfigRecord)
    → is_repeated name records ≡ false
    → disable_strategy name records ≡ some (map (disabled_if name) records)
unfolding disable_strategy
disable_strategy-disabled name records u = rw u refl

module _ (average : List ℕ → ℕ) (recent : ℕ → List ClosedTrade) where
  -- what an evaluation of the strategies of some records makes of a table
  IsEvaluated :
      List ConfigRecord → List ConfigRecord → Guardian × Option (Dict StrategyStatus) → Type 0
  IsEvaluated table rs (g, answer) =
      (is_some answer ≡ not (any (is_stuck average recent table) rs))
      × (any (is_stuck average recent table) rs ≡ false
          → g.records ≡ map (after average recent rs) table)

  spared-IsEvaluated :
      (r : ConfigRecord) (rs table : List ConfigRecord)
      (out : Guardian × Option (Dict StrategyStatus))
      → kills average recent r.strategy_name ≡ false
      → IsEvaluated table rs out
      → IsEvaluated table (r ∷ rs) out
  unfolding IsEvaluated is_stuck
  spared-IsEvaluated r rs table out k (h, t) =
      (rw k h, λ q. t (ground (arith, q, k)) ∙ map-unchanged average recent rs r table k)

  disabled-IsEvaluated :
      (r : ConfigRecord) (rs table : List ConfigRecord)
      (out : Guardian × Option (Dict StrategyStatus))
      → kills average recent r.strategy_name ≡ true
      → is_repeated r.strategy_name table ≡ false
      → IsEvaluated (map (disabled_if r.strategy_name) table) rs out
      → IsEvaluated table (r ∷ rs) out
  unfolding IsEvaluated is_stuck
  disabled-IsEvaluated r rs table out k u (h, t) =
      let a = any_stuck-disabled average recent r.strategy_name table rs in
      (
        rw (k, u) (h ∙ ap not a),
        λ q. t (a ∙ ground (arith, q, k, u)) ∙ map-disabled average recent rs r table k,
      )

  raised-IsEvaluated :
      (r : ConfigRecord) (rs table : List ConfigRecord) (g : Guardian)
      → kills average recent r.strategy_name ≡ true
      → is_repeated r.strategy_name table ≡ true
      → IsEvaluated table (r ∷ rs) (g, none)
  unfolding IsEvaluated is_stuck
  raised-IsEvaluated r rs table g k u = (rw (k, u) refl, λ q. ground (arith, q, k, u))

  -- the status that the guardian finds for a record, and the guardian with it
  abbrev found : ConfigRecord → StrategyStatus
  found r = status_of average (recent r.strategy_name)

  abbrev cached : ConfigRecord → Guardian → Guardian
  cached r g = record g { cached_statuses = insert r.strategy_name (found r) g.cached_statuses }

  abbrev counted : Guardian → Guardian
  counted g = record g { kill_count = g.kill_count + 1 }

  abbrev killed_in : ConfigRecord → Guardian → Guardian
  killed_in r g = record {
    kill_count = g.kill_count + 1;
    cached_statuses = insert r.strategy_name (found r) g.cached_statuses;
    records = map (disabled_if r.strategy_name) g.records;
  }

  evaluate_strategy-spared :
      (r : ConfigRecord) (g : Guardian)
      → kills average recent r.strategy_name ≡ false
      → evaluate_strategy average recent r.strategy_name g ≡ (cached r g, some (found r))
  unfolding evaluate_strategy
  evaluate_strategy-spared r g k = rw k refl

  evaluate_strategy-kills :
      (r : ConfigRecord) (g : Guardian)
      → kills average recent r.strategy_name ≡ true
      → evaluate_strategy average recent r.strategy_name g
        ≡ kill_strategy r.strategy_name (found r) g
  unfolding evaluate_strategy
  evaluate_strategy-kills r g k = rw k refl

  -- `kill_strategy`, from what the update gives on
  abbrev killing :
      ConfigRecord → Guardian → Option (List ConfigRecord) → Guardian × Option StrategyStatus
  killing r g updated = elim updated [
    | none ↦ (counted g, none)
    | some records ↦ (
      record {
        kill_count = g.kill_count + 1;
        cached_statuses = insert r.strategy_name (found r) g.cached_statuses;
        records = records;
      },
      some (found r),
    )
  ]

  kill_strategy-raised :
      (r : ConfigRecord) (g : Guardian)
      → is_repeated r.strategy_name g.records ≡ true
      → kill_strategy r.strategy_name (found r) g ≡ (counted g, none)
  unfolding kill_strategy
  kill_strategy-raised r g u =
      ap (killing r g) (disable_strategy-raised r.strategy_name g.records u)

  kill_strategy-disabled :
      (r : ConfigRecord) (g : Guardian)
      → is_repeated r.strategy_name g.records ≡ false
      → kill_strategy r.strategy_name (found r) g ≡ (killed_in r g, some (found r))
  unfolding kill_strategy
  kill_strategy-disabled r g u =
      ap (killing r g) (disable_strategy-disabled r.strategy_name g.records u)

  -- the rest of the loop, from what the evaluation of a strategy gives on
  abbrev follow :
      ConfigRecord
      → List ConfigRecord
      → Dict StrategyStatus
      → Guardian × Option StrategyStatus
      → Guardian × Option (Dict StrategyStatus)
  follow r rs results (h, answer) = elim answer [
    | none ↦ (h, none)
    | some s ↦ evaluate_each average recent rs h (insert r.strategy_name s results)
  ]

  evaluate_each-follow :
      (r : ConfigRecord) (rs : List ConfigRecord) (g : Guardian) (results : Dict StrategyStatus)
      (out : Guardian × Option StrategyStatus)
      → evaluate_strategy average recent r.strategy_name g ≡ out
      → evaluate_each average recent (r ∷ rs) g results ≡ follow r rs results out
  unfolding evaluate_each
  evaluate_each-follow r rs g results out e = ap (follow r rs results) e

  each-IsEvaluated :
      (rs : List ConfigRecord) (g : Guardian) (results : Dict StrategyStatus)
      → IsEvaluated g.records rs (evaluate_each average recent rs g results)
  unfolding IsEvaluated evaluate_each
  each-IsEvaluated [] g results = (refl, λ q. map-none average recent g.records)
  each-IsEvaluated (r ∷ rs) g results =
      let results' = insert r.strategy_name (found r) results in
      let goes = evaluate_each-follow r rs g results in
      let P : Guardian × Option (Dict StrategyStatus) → Type 0 =
        λ out. IsEvaluated g.records (r ∷ rs) out in
      elim (Bool-cases (kills average recent r.strategy_name)) [
        | inl k ↦ elim (Bool-cases (is_repeated r.strategy_name g.records)) [
          | inl u ↦
              subst P
                (sym (
                  goes (counted g, none)
                    (evaluate_strategy-kills r g k ∙ kill_strategy-raised r g u)))
                (raised-IsEvaluated r rs g.records (counted g) k u)
          | inr u ↦
              subst P
                (sym (
                  goes (killed_in r g, some (found r))
                    (evaluate_strategy-kills r g k ∙ kill_strategy-disabled r g u)))
                (disabled-IsEvaluated r rs g.records
                  (evaluate_each average recent rs (killed_in r g) results') k u
                  (each-IsEvaluated rs (killed_in r g) results'))
        ]
        | inr k ↦
            subst P (sym (goes (cached r g, some (found r)) (evaluate_strategy-spared r g k))) (
              spared-IsEvaluated r rs g.records
                (evaluate_each average recent rs (cached r g) results') k
                (each-IsEvaluated rs (cached r g) results'))
      ]

  -- the table that is committed
  abbrev commit : List ConfigRecord → Guardian × Option (Dict StrategyStatus) → List ConfigRecord
  commit table (g, answer) = elim answer [ none ↦ table | some results ↦ g.records ]

  commit-IsEvaluated :
      (table rs : List ConfigRecord) (out : Guardian × Option (Dict StrategyStatus))
      → IsEvaluated table rs out
      → commit table out ≡ (
          if any (is_stuck average recent table) rs
          then table
          else map (after average recent rs) table)
  unfolding IsEvaluated
  commit-IsEvaluated table rs (g, none) (h, t) =
      rw (negated (any (is_stuck average recent table) rs) h) refl
  commit-IsEvaluated table rs (g, some results) (h, t) =
      let q = affirmed (any (is_stuck average recent table) rs) h in rw q (t q)

  -- Of any table of strategies, a round of the guardian keeps the table if an enabled record's strategy is to
  -- be disabled and stands in more than one record, and else it disables each record of an enabled strategy
  -- that is to be disabled and keeps the others.
  pub guardian_round_lem :
      (table : List ConfigRecord)
      → guardian_round average recent table ≡ (
          if any (is_stuck average recent table) (keep (λ r. r.enabled) table)
          then table
          else map (after average recent (keep (λ r. r.enabled) table)) table)
  unfolding guardian_round evaluate_all
  guardian_round_lem table =
      let g : Guardian = record { kill_count = 0; cached_statuses = []; records = table } in
      let rs = keep (λ r. r.enabled) table in
      commit-IsEvaluated table rs (evaluate_each average recent rs g []) (each-IsEvaluated rs g [])
