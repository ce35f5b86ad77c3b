-- ===== src/Market/Windows.antt =====
-- What the windows of backend/app/replay/market_state.py hold.
use mathlib.Core.List.{append-nil}
use polymarket_agent.Common.{
  length-append, ◌≡◌, ◌≤◌, ◌+◌, ◌-◌, ℕ, refl, List, [], ◌∷◌, ◌++◌, arith, All, keep, not, length,
}
use polymarket_agent.Market.{Stamped, Window, TradeEvent, is_older, subtract_old, drop_old}

-- Trades, the last one first, at times that do not go back and are no later than `now`.
abbrev pub IsTimed : ℕ → List TradeEvent → Type 0
IsTimed now [] = Unit
IsTimed now (e ∷ es) = (e.timestamp ≤ now) × IsTimed e.timestamp es

pub IsTimed-later : (t now : ℕ) (es : List TradeEvent) → t ≤ now → IsTimed t es → IsTimed now es
IsTimed-later t now [] p q = tt
IsTimed-later t now (e ∷ es) p q = ground arith

-- the trades that a window of some length holds at a time, as the code means it
abbrev pub within : ℕ → ℕ → List TradeEvent → List TradeEvent
within now span es = keep (λ e. not (is_older now span e.timestamp)) es

abbrev pub volume_of : List TradeEvent → ℕ
volume_of [] = 0
volume_of (e ∷ es) = e.size + volume_of es

-- a history in the order of time, no entry later than `now`
abbrev pub IsSorted : ℕ → List Stamped → Type 0
IsSorted low [] = Unit
IsSorted low ((t, x) ∷ h) = (low ≤ t) × IsSorted t h

abbrev pub total : List Stamped → ℕ
total [] = 0
total ((t, x) ∷ h) = x + total h

-- the part that is left, and the part that goes
abbrev pub fresh : ℕ → ℕ → List Stamped → List Stamped
fresh now span h = keep (λ x. not (is_older now span x.0)) h

pub fresh_all :
    (now span low : ℕ) (h : List Stamped) → now ≤ low + span → IsSorted low h → fresh now span h ≡ h
fresh_all now span low [] p s = refl
fresh_all now span low ((t, x) ∷ h) p s = ground (arith, fresh_all now span t h)

pub drop_old-fresh :
    (now span low : ℕ) (h : List Stamped) → IsSorted low h → drop_old now span h ≡ fresh now span h
unfolding drop_old
drop_old-fresh now span low [] s = refl
drop_old-fresh now span low ((t, x) ∷ h) s =
    ground (arith, drop_old-fresh now span t h, fresh_all now span t h)

-- A window that holds at least its history loses exactly what is old.
pub subtract_old_lem :
    (now span : ℕ) (h : List Stamped) (w : Window)
    → total h ≤ w.volume
    → length h ≤ w.count
    → let w' = subtract_old now span h w in
      (w'.volume + total h ≡ w.volume + total (fresh now span h))
      × (w'.count + length h ≡ w.count + length (fresh now span h))
unfolding subtract_old
subtract_old_lem now span [] w p q = omega arith
subtract_old_lem now span ((t, x) ∷ h) w p q = ground (
  arith,
  subtract_old_lem now span h w,
  subtract_old_lem now span h (record { volume = w.volume - x; count = w.count - 1 }),
)

pub subtract_old-append :
    (now span : ℕ) (h g : List Stamped) (w : Window)
    → subtract_old now span (h ++ g) w ≡ subtract_old now span g (subtract_old now span h w)
unfolding subtract_old
subtract_old-append now span [] g w = refl
subtract_old-append now span ((t, x) ∷ h) g w = subtract_old-append now span h g _

-- the volume history that some trades leave if none of them is dropped
abbrev pub stamps : List TradeEvent → List Stamped
stamps [] = []
stamps (e ∷ es) = stamps es ++ (e.timestamp, e.size) ∷ []

pub total-append : (h g : List Stamped) → total (h ++ g) ≡ total h + total g
total-append [] g = omega arith
total-append ((t, x) ∷ h) g = omega (arith, total-append h g)

pub total-stamps :
    (es : List TradeEvent) → (total (stamps es) ≡ volume_of es) × (length (stamps es) ≡ length es)
total-stamps [] = omega arith
total-stamps (e ∷ es) = omega (
  arith,
  total-append (stamps es) ((e.timestamp, e.size) ∷ []),
  length-append (stamps es) ((e.timestamp, e.size) ∷ []),
  total-stamps es,
)

pub fresh-append :
    (now span : ℕ) (h g : List Stamped)
    → fresh now span (h ++ g) ≡ fresh now span h ++ fresh now span g
fresh-append now span [] g = refl
fresh-append now span ((t, x) ∷ h) g = ground (arith, fresh-append now span h g)

pub fresh-stamps :
    (now span : ℕ) (es : List TradeEvent) → fresh now span (stamps es) ≡ stamps (within now span es)
fresh-stamps now span [] = refl
fresh-stamps now span (e ∷ es) = ground (
  arith,
  fresh-append now span (stamps es) ((e.timestamp, e.size) ∷ []),
  fresh-stamps now span es,
  append-nil (fresh now span (stamps es)),
)

pub within-within :
    (t0 t span : ℕ) (es : List TradeEvent)
    → t0 ≤ t
    → within t span (within t0 span es) ≡ within t span es
within-within t0 t span [] p = refl
within-within t0 t span (e ∷ es) p = ground (arith, within-within t0 t span es)

pub within-IsTimed :
    (t span now : ℕ) (es : List TradeEvent) → IsTimed now es → IsTimed now (within t span es)
within-IsTimed t span now [] p = tt
within-IsTimed t span now (e ∷ es) p = ground (
  arith,
  within-IsTimed t span e.timestamp es,
  within-IsTimed t span now es,
  IsTimed-later e.timestamp now es,
)

pub IsSorted-append :
    (low t x : ℕ) (h : List Stamped)
    → IsSorted low h
    → All (λ y. y.0 ≤ t) h
    → low ≤ t
    → IsSorted low (h ++ (t, x) ∷ [])
IsSorted-append low t x [] s a p = ground arith
IsSorted-append low t x ((u, y) ∷ h) s a p = ground (arith, IsSorted-append u t x h)

pub All-append :
    (P : Stamped → Type 0) (h : List Stamped) (y : Stamped) → All P h → P y → All P (h ++ y ∷ [])
All-append P [] y a p = (p, tt)
All-append P (x ∷ h) y a p = (a.0, All-append P h y a.1 p)

pub below-stamps :
    (now : ℕ) (es : List TradeEvent) → IsTimed now es → All (λ y. y.0 ≤ now) (stamps es)
below-stamps now [] p = tt
below-stamps now (e ∷ es) p =
    All-append (λ y. y.0 ≤ now) (stamps es) (e.timestamp, e.size)
      (below-stamps now es (IsTimed-later e.timestamp now es p.0 p.1)) p.0

pub stamps-IsSorted : (now : ℕ) (es : List TradeEvent) → IsTimed now es → IsSorted 0 (stamps es)
stamps-IsSorted now [] p = tt
stamps-IsSorted now (e ∷ es) p =
    IsSorted-append 0 e.timestamp e.size (stamps es) (stamps-IsSorted e.timestamp es p.1)
      (below-stamps e.timestamp es p.1) (omega arith)
