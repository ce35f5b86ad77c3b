-- ===== src/Mode/Kind.antt =====
-- `SystemMode` of backend/app/core/system_mode.py: the six modes and their order.
use polymarket_agent.Common.{ℕ, Bool, ◌==◌, ltb, leb, if◌then◌else◌}

pub data SystemMode : Type 0 where
  normal shadow degraded protected read_only emergency_stop : SystemMode

-- `_MODE_ORDER.index(m)`, which is also the place of `m` in `list(SystemMode)`
unfoldable pub index : SystemMode → ℕ
index normal = 0
index shadow = 1
index degraded = 2
index protected = 3
index read_only = 4
index emergency_stop = 5

-- `__ge__`, `__gt__`, `__le__` and `__lt__` compare the places
unfoldable pub ge : SystemMode → SystemMode → Bool
unfolding index
ge m n = leb (index n) (index m)

unfoldable pub gt : SystemMode → SystemMode → Bool
unfolding index
gt m n = ltb (index n) (index m)

unfoldable pub le : SystemMode → SystemMode → Bool
unfolding index
le m n = leb (index m) (index n)

unfoldable pub lt : SystemMode → SystemMode → Bool
unfolding index
lt m n = ltb (index m) (index n)

-- `m == n` of two members of the enumeration
unfoldable pub same : SystemMode → SystemMode → Bool
unfolding index
same m n = index m == index n

-- A dict keyed by modes, as a function.
unfoldable pub update {ℓ} : {A : Type ℓ} → SystemMode → A → (SystemMode → A) → SystemMode → A
unfolding same
update m v f k = if same k m then v else f k
