-- ===== src/Exposure/Reach.antt =====
-- Runs of the trade table under backend/app/services/global_risk_guard.py. The guard counts a pending trade as
-- nothing until it is filled, so that a fill can come after further trades were approved.
use polymarket_agent.Common.{
  ◌≡◌, ◌≤◌, ◌*◌, ℕ, zero, suc, none, some, true, [], arith, List, ◌∷◌, All, keep, length, map, refl,
  Bool-cases, inl, inr, ◌+◌, if◌then◌else◌,
}
use polymarket_agent.Exposure.{
  GuardedTrade, GuardSettings, closed_trade, pending_trade, open_trade, compute_effective_limits,
  max_open_positions, is_live_trade, exposure_of, check_exposure,
}
use polymarket_agent.Exposure.Laws.{total_of, check_exposure_approved}

-- a trade of the table with the size and the price that were proposed for it
pub record Proposed : Type 0 where
  pub size : ℕ
  pub price : ℕ
  pub trade : GuardedTrade

-- the table
abbrev pub trades_of : List Proposed → List GuardedTrade
trades_of ps = map (λ p. p.trade) ps

-- the trade at a place is closed, or cancelled
unfoldable pub close_at : ℕ → List Proposed → List Proposed
close_at n [] = []
close_at zero (p ∷ ps) = record p { trade = record p.trade { status = closed_trade } } ∷ ps
close_at (suc n) (p ∷ ps) = p ∷ close_at n ps

-- the trade at a place is filled, in part or as a whole; a pending one is open then
unfoldable pub fill_at : ℕ → ℕ → ℕ → List Proposed → List Proposed
fill_at n size price [] = []
fill_at zero size price (p ∷ ps) =
    record p {
      trade = record p.trade {
        status = if is_live_trade p.trade then open_trade else p.trade.status;
        filled_size = some size;
        filled_price = some price;
      };
    }
    ∷ ps
fill_at (suc n) size price (p ∷ ps) = p ∷ fill_at n size price ps

-- an amount is no more than was proposed for the trade at a place
abbrev pub IsCovered : ℕ → ℕ → List Proposed → Type 0
IsCovered n amount [] = Unit
IsCovered zero amount (p ∷ ps) = amount ≤ p.size * p.price
IsCovered (suc n) amount (p ∷ ps) = IsCovered n amount ps

abbrev pub pending : ℕ → ℕ → ℕ → Proposed
pending market size price = record {
  size = size;
  price = price;
  trade = record {
    market_id = market;
    status = pending_trade;
    filled_size = none;
    filled_price = none;
  };
}

-- Tables in which every new trade was approved and is pending at first, and trades are filled and closed in any
-- order, at any time, each for no more than was proposed.
pub data Reach (c : GuardSettings) : List Proposed → Type 0 where
  empty : Reach c []
  opened :
      {ps : List Proposed} (market size price : ℕ)
      → Reach c ps
      → (check_exposure c (trades_of ps) market size price).approved ≡ true
      → Reach c (pending market size price ∷ ps)
  filled :
      {ps : List Proposed} (n size price : ℕ)
      → Reach c ps
      → IsCovered n (size * price) ps
      → Reach c (fill_at n size price ps)
  closed : {ps : List Proposed} (n : ℕ) → Reach c ps → Reach c (close_at n ps)

-- a trade whose exposure is no more than was proposed, and whose proposal was within the limit
abbrev IsSmall : GuardSettings → Proposed → Type 0
IsSmall c p =
    (p.size * p.price ≤ (compute_effective_limits c none).position_size)
    × (exposure_of p.trade ≤ p.size * p.price)

abbrev live : List Proposed → List GuardedTrade
live ps = keep is_live_trade (trades_of ps)

close_at-live : (n : ℕ) (ps : List Proposed) → length (live (close_at n ps)) ≤ length (live ps)
unfolding close_at is_live_trade
close_at-live n [] = omega arith
close_at-live zero (p ∷ ps) = ground arith
close_at-live (suc n) (p ∷ ps) = ground (arith, close_at-live n ps)

fill_at-live :
    (n size price : ℕ) (ps : List Proposed)
    → length (live (fill_at n size price ps)) ≡ length (live ps)
unfolding fill_at is_live_trade
fill_at-live n size price [] = refl
fill_at-live zero size price (p ∷ ps) = ground arith
fill_at-live (suc n) size price (p ∷ ps) = ground (arith, fill_at-live n size price ps)

close_at-IsSmall :
    (c : GuardSettings) (n : ℕ) (ps : List Proposed)
    → All (IsSmall c) ps
    → All (IsSmall c) (close_at n ps)
unfolding close_at exposure_of
close_at-IsSmall c n [] h = tt
close_at-IsSmall c zero (p ∷ ps) h = h
close_at-IsSmall c (suc n) (p ∷ ps) h = (h.0, close_at-IsSmall c n ps h.1)

fill_at-IsSmall :
    (c : GuardSettings) (n size price : ℕ) (ps : List Proposed)
    → IsCovered n (size * price) ps
    → All (IsSmall c) ps
    → All (IsSmall c) (fill_at n size price ps)
unfolding fill_at exposure_of
fill_at-IsSmall c n size price [] k h = tt
fill_at-IsSmall c zero size price (p ∷ ps) k h = ((h.0.0, ground arith), h.1)
fill_at-IsSmall c (suc n) size price (p ∷ ps) k h = (h.0, fill_at-IsSmall c n size price ps k h.1)

times : (n l : ℕ) → suc n * l ≡ n * l + l
times n l = grind arith

small_total :
    (c : GuardSettings) (n : ℕ) (ps : List Proposed)
    → All (IsSmall c) ps
    → length (live ps) ≤ n
    → total_of (live ps) ≤ n * (compute_effective_limits c none).position_size
small_total c n [] h l = omega arith
small_total c zero (p ∷ ps) h l = ground (arith, small_total c zero ps h.1)
small_total c (suc n) (p ∷ ps) h l = elim (Bool-cases (is_live_trade p.trade)) [
  | inl e ↦
      ground
        (arith, small_total c n ps h.1, times n (compute_effective_limits c none).position_size)
  | inr e ↦ ground (arith, small_total c (suc n) ps h.1)
]

tracked :
    {c : GuardSettings} {ps : List Proposed}
    → Reach c ps
    → All (IsSmall c) ps × (length (live ps) ≤ max_open_positions)
unfolding is_live_trade exposure_of
tracked empty = (tt, omega arith)
tracked {c} (opened {ps = ps} market size price r a) =
    let (h, l) = tracked r in
    let w = (check_exposure_approved c (trades_of ps) market size price).0 a in
    (((w.1, ground arith), h), ground arith)
tracked {c} (filled {ps = ps} n size price r k) =
    let (h, l) = tracked r in
    (fill_at-IsSmall c n size price ps k h, omega (arith, fill_at-live n size price ps))
tracked {c} (closed {ps = ps} n r) =
    let (h, l) = tracked r in (close_at-IsSmall c n ps h, omega (arith, close_at-live n ps))

-- If every trade was approved by the guard, and each is filled, whenever that is, for no more than was proposed
-- for it, then at most three trades are open or pending, and their exposure together is at most three
-- times the limit for a position.
pub Reach-IsWithin :
    {c : GuardSettings} {ps : List Proposed}
    → Reach c ps
    → (length (keep is_live_trade (trades_of ps)) ≤ 3)
      × (total_of (keep is_live_trade (trades_of ps))
          ≤ 3 * (compute_effective_limits c none).position_size)
Reach-IsWithin {c} {ps} r = let (h, l) = tracked r in (l, small_total c 3 ps h l)
