-- ===== src/Allocator/Totals.antt =====
-- What `PortfolioAllocator` of backend/app/services/portfolio_allocator.py adds up for a strategy over many
-- allocations, and what the table has of it.
use polymarket_agent.Common.{
  ◌≡◌, ◌≤◌, ◌+◌, ◌==◌, ℕ, Option, none, some, List, [], ◌∷◌, arith, if◌then◌else◌, get_or, refl,
  All, sym, ap, ◌∙◌,
}
use polymarket_agent.Common.Dict.{Dict, lookup, insert, lookup-insert}
use polymarket_agent.Allocator.{
  Market, Request, Allocator, percent, total_of_strategy, allocated_size, allocate, reset,
  persist_allocation_state, restore_from_db,
}
use polymarket_agent.Allocator.Caps.{allocated_size_bounded}

-- each strategy has at most two fifths of the capital
unfoldable pub IsCapped : ℕ → Allocator → Type 0
IsCapped capital a = (s : ℕ) → total_of_strategy s a ≤ percent 40 capital

-- the row of each strategy that has a total holds what the column keeps of it
pub IsStored : (ℕ → ℕ) → Allocator → Type 0
IsStored kept a =
    (s : ℕ) → lookup s a.table ≡ elim (lookup s a.totals) [ none ↦ none | some n ↦ some (kept n) ]

module _ (kept : ℕ → ℕ) where
  -- calls of `allocate` on one allocator, each with what it reads
  unfoldable pub allocate_all : List (Market × Request) → Allocator → Allocator
  allocate_all [] a = a
  allocate_all ((env, r) ∷ calls) a = allocate_all calls (allocate kept env r a).1

  total-allocate :
      (env : Market) (r : Request) (a : Allocator) (s : ℕ)
      → total_of_strategy s (allocate kept env r a).1 ≡ (
          if s == r.strategy_name
          then total_of_strategy s a + allocated_size env r a
          else total_of_strategy s a)
  unfolding allocate persist_allocation_state total_of_strategy
  total-allocate env r a s =
      let n = get_or (lookup r.strategy_name a.totals) 0 + allocated_size env r a in
      ground (arith, lookup-insert s r.strategy_name n a.totals)

  IsCapped-allocate :
      (env : Market) (r : Request) (a : Allocator)
      → IsCapped env.paper_initial_capital a
      → IsCapped env.paper_initial_capital (allocate kept env r a).1
  unfolding IsCapped
  IsCapped-allocate env r a h s =
      ground (arith, total-allocate env r a s, allocated_size_bounded env r a, h s)

  table-allocate :
      (env : Market) (r : Request) (a : Allocator)
      → let n = total_of_strategy r.strategy_name a + allocated_size env r a in
        (allocate kept env r a).1 ≡ record {
          totals = insert r.strategy_name n a.totals;
          table = insert r.strategy_name (kept n) a.table;
        }
  unfolding allocate persist_allocation_state total_of_strategy
  table-allocate env r a =
      let n = get_or (lookup r.strategy_name a.totals) 0 + allocated_size env r a in
      ground (arith, lookup-insert r.strategy_name r.strategy_name n a.totals)

  row-insert :
      (k s n : ℕ) (totals table : Dict ℕ)
      → lookup s table ≡ elim (lookup s totals) [ none ↦ none | some m ↦ some (kept m) ]
      → lookup s (insert k (kept n) table)
        ≡ elim (lookup s (insert k n totals)) [ none ↦ none | some m ↦ some (kept m) ]
  row-insert k s n totals table h =
      lookup-insert s k (kept n) table
      ∙ sym (
          ap (λ (o : Option ℕ). elim o [ none ↦ none | some m ↦ some (kept m) ])
            (lookup-insert s k n totals)
          ∙ ground arith)

  IsStored-allocate :
      (env : Market) (r : Request) (a : Allocator)
      → IsStored kept a
      → IsStored kept (allocate kept env r a).1
  unfolding IsStored
  IsStored-allocate env r a h s =
      let n = total_of_strategy r.strategy_name a + allocated_size env r a in
      rw (table-allocate env r a) (row-insert r.strategy_name s n a.totals a.table (h s))

  -- However often an allocator is called, with whatever requests and tables, while the capital stays the same,
  -- no strategy gets more than two fifths of it, if none has more at the start.
  pub allocate_all-IsCapped :
      (capital : ℕ) (calls : List (Market × Request)) (a : Allocator)
      → All (λ x. x.0.paper_initial_capital ≡ capital) calls
      → IsCapped capital a
      → IsCapped capital (allocate_all calls a)
  unfolding allocate_all
  allocate_all-IsCapped capital [] a e h = h
  allocate_all-IsCapped capital ((env, r) ∷ calls) a e h =
      allocate_all-IsCapped capital calls (allocate kept env r a).1 e.1
        (rw (← e.0) (IsCapped-allocate env r a (rw e.0 h)))

  IsStored-allocate_all :
      (calls : List (Market × Request)) (a : Allocator)
      → IsStored kept a
      → IsStored kept (allocate_all calls a)
  unfolding allocate_all
  IsStored-allocate_all [] a h = h
  IsStored-allocate_all ((env, r) ∷ calls) a h =
      IsStored-allocate_all calls (allocate kept env r a).1 (IsStored-allocate env r a h)

  -- After any calls of an allocator that starts with an empty table, an allocator that is restored from the
  -- table has for each strategy what the column keeps of its total, if the column keeps 0 as it is.
  pub restore_from_db-allocate_all :
      (calls : List (Market × Request)) (s : ℕ)
      → kept 0 ≡ 0
      → let a = allocate_all calls (record { totals = []; table = [] }) in
        total_of_strategy s (restore_from_db (reset a)) ≡ kept (total_of_strategy s a)
  unfolding restore_from_db reset total_of_strategy IsStored
  restore_from_db-allocate_all calls s z =
      let a = allocate_all calls (record { totals = []; table = [] }) in
      ground (arith, IsStored-allocate_all calls (record { totals = []; table = [] }) (λ k. refl) s)

  -- A new allocator, which no table is read into, overwrites what the table has for the strategy.
  pub allocate_forgets :
      (env : Market) (r : Request) (table : Dict ℕ)
      → let fresh : Allocator = record { totals = []; table = table } in
        lookup r.strategy_name (allocate kept env r fresh).1.table
        ≡ some (kept (allocated_size env r fresh))
  unfolding total_of_strategy
  allocate_forgets env r table =
      let fresh : Allocator = record { totals = []; table = table } in
      let n = total_of_strategy r.strategy_name fresh + allocated_size env r fresh in
      rw (table-allocate env r fresh)
        (ground (arith, lookup-insert r.strategy_name r.strategy_name (kept n) table))
