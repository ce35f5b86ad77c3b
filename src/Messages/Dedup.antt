-- ===== src/Messages/Dedup.antt =====
-- Duplicates of events, backend/app/core/dedup.py. A key of the cache has the time at which it expires.
use polymarket_agent.Common.{
  ℕ, zero, suc, ◌+◌, ◌==◌, Bool, false, Option, none, some, not, List, ltb, if◌then◌else◌, length,
  any, keep,
}

pub record DedupSettings : Type 0 where
  pub dedup_redis_enabled : Bool
  pub dedup_ttl_seconds : ℕ

-- The keys with the prefix, by the hash of the event, in a Redis that answers; `none` is one that does not.
abbrev pub Cache : Type 0
Cache = Option (ℕ → Option ℕ)

unfoldable pub is_live : ℕ → Option ℕ → Bool
is_live now none = false
is_live now (some expires) = ltb now expires

-- `is_duplicate_event`
unfoldable pub is_duplicate_event : DedupSettings → ℕ → ℕ → Cache → Bool
unfolding is_live
is_duplicate_event c now hash cache =
    if not c.dedup_redis_enabled
    then false
    else elim cache [ none ↦ false | some keys ↦ is_live now (keys hash) ]

-- `mark_event_processed`, with `setex`
unfoldable pub mark_event_processed : DedupSettings → ℕ → ℕ → Cache → Cache
mark_event_processed c now hash cache = if not c.dedup_redis_enabled then cache else elim cache [
  | none ↦ none
  | some keys ↦ some (λ h. if h == hash then some (now + c.dedup_ttl_seconds) else keys h)
]

-- `SCAN` for the keys with the prefix: a cursor to the next cursor and a page of keys
abbrev pub Scanner : Type 0
Scanner = ℕ → ℕ × List ℕ

-- the loop of `dedup_size`, `none` where the fuel does not suffice
unfoldable pub count_keys : Scanner → ℕ → ℕ → ℕ → Option ℕ
count_keys scan zero cursor count = none
count_keys scan (suc fuel) cursor count =
    let (next, keys) = scan cursor in
    let rest = count_keys scan fuel next (count + length keys) in
    if next == 0 then some (count + length keys) else rest

-- `dedup_size`, where -1 for a Redis that raises is not modelled
unfoldable pub dedup_size : Scanner → ℕ → Option ℕ
unfolding count_keys
dedup_size scan fuel = count_keys scan fuel 0 0

-- `delete(*keys)`
unfoldable pub delete : List ℕ → List ℕ → List ℕ
delete page keys = keep (λ k. not (any (λ p. p == k) page)) keys

-- the loop of `dedup_clear`: the number of keys that were deleted, and the keys that are left; a page depends on
-- the keys that are there
unfoldable pub clear_keys : (List ℕ → Scanner) → ℕ → ℕ → ℕ → List ℕ → Option (ℕ × List ℕ)
unfolding delete
clear_keys scan zero cursor deleted keys = none
clear_keys scan (suc fuel) cursor deleted keys =
    let (next, page) = scan keys cursor in
    let left = delete page keys in
    let rest = clear_keys scan fuel next (deleted + length page) left in
    if next == 0 then some (deleted + length page, left) else rest

-- `dedup_clear`
unfoldable pub dedup_clear : (List ℕ → Scanner) → ℕ → List ℕ → Option (ℕ × List ℕ)
unfolding clear_keys
dedup_clear scan fuel keys = clear_keys scan fuel 0 0 keys
