-- ===== src/Guardian/Table.antt =====
-- What a round of backend/app/services/strategy_guardian.py leaves in the table of strategies.
use polymarket_agent.Common.{
  ◌≡◌, ℕ, Bool, true, false, ◌&&◌, ◌==◌, List, [], ◌∷◌, arith, if◌then◌else◌, refl, map, any, keep,
  ap, Bool-cases, inl, inr, length, ltb,
}
use polymarket_agent.Guardian.{
  ConfigRecord, ClosedTrade, status_of, is_disabled, disabled_if, is_repeated,
}

equal_names : (a b : ℕ) → (a == b) ≡ true → a ≡ b
equal_names a b h = ground arith

named-disabled :
    (n m : ℕ) (rs : List ConfigRecord)
    → length (keep (λ r. r.strategy_name == n) (map (disabled_if m) rs))
      ≡ length (keep (λ r. r.strategy_name == n) rs)
unfolding disabled_if
named-disabled n m [] = refl
named-disabled n m (r ∷ rs) = ground (arith, named-disabled n m rs)

is_repeated-disabled :
    (n m : ℕ) (rs : List ConfigRecord) → is_repeated n (map (disabled_if m) rs) ≡ is_repeated n rs
unfolding is_repeated
is_repeated-disabled n m rs = ap (ltb 1) (named-disabled n m rs)

module _ (average : List ℕ → ℕ) (recent : ℕ → List ClosedTrade) where
  -- whether the guardian disables a strategy
  abbrev pub kills : ℕ → Bool
  kills name = is_disabled (status_of average (recent name)).status

  -- a record after an evaluation of the strategies of some records
  unfoldable pub after : List ConfigRecord → ConfigRecord → ConfigRecord
  after rs r =
      if any (λ x. x.strategy_name == r.strategy_name) rs && kills r.strategy_name
      then record r { enabled = false; is_disabled_lifecycle = true }
      else r

  -- whether the strategy of a record is to be disabled and stands in several records
  unfoldable pub is_stuck : List ConfigRecord → ConfigRecord → Bool
  unfolding is_repeated
  is_stuck table r = kills r.strategy_name && is_repeated r.strategy_name table

  kills-equal : (a b : ℕ) → (a == b) ≡ true → kills a ≡ kills b
  kills-equal a b h = ap kills (equal_names a b h)

  -- a row after the disabling of a strategy that the guardian disables
  after-disabled :
      (rs : List ConfigRecord) (x r : ConfigRecord)
      → kills x.strategy_name ≡ true
      → after rs (disabled_if x.strategy_name r) ≡ after (x ∷ rs) r
  unfolding after disabled_if
  after-disabled rs x r k = elim (Bool-cases (r.strategy_name == x.strategy_name)) [
    | inl h ↦ ground (arith, kills-equal r.strategy_name x.strategy_name h)
    | inr h ↦ ground arith
  ]

  pub map-disabled :
      (rs : List ConfigRecord) (x : ConfigRecord) (table : List ConfigRecord)
      → kills x.strategy_name ≡ true
      → map (after rs) (map (disabled_if x.strategy_name) table) ≡ map (after (x ∷ rs)) table
  map-disabled rs x [] k = refl
  map-disabled rs x (r ∷ table) k = rw (after-disabled rs x r k, map-disabled rs x table k) refl

  after-unchanged :
      (rs : List ConfigRecord) (x r : ConfigRecord)
      → kills x.strategy_name ≡ false
      → after rs r ≡ after (x ∷ rs) r
  unfolding after
  after-unchanged rs x r k = elim (Bool-cases (x.strategy_name == r.strategy_name)) [
    | inl h ↦ ground (arith, kills-equal x.strategy_name r.strategy_name h)
    | inr h ↦ ground arith
  ]

  pub map-unchanged :
      (rs : List ConfigRecord) (x : ConfigRecord) (table : List ConfigRecord)
      → kills x.strategy_name ≡ false
      → map (after rs) table ≡ map (after (x ∷ rs)) table
  map-unchanged rs x [] k = refl
  map-unchanged rs x (r ∷ table) k = rw (after-unchanged rs x r k, map-unchanged rs x table k) refl

  pub map-none : (table : List ConfigRecord) → table ≡ map (after []) table
  unfolding after
  map-none [] = refl
  map-none (r ∷ table) = ap (λ rs. r ∷ rs) (map-none table)

  pub any_stuck-disabled :
      (m : ℕ) (table rs : List ConfigRecord)
      → any (is_stuck (map (disabled_if m) table)) rs ≡ any (is_stuck table) rs
  unfolding is_stuck
  any_stuck-disabled m table [] = refl
  any_stuck-disabled m table (r ∷ rs) =
      rw (is_repeated-disabled r.strategy_name m table, any_stuck-disabled m table rs) refl
