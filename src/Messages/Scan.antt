-- ===== src/Messages/Scan.antt =====
-- That the loops of backend/app/core/dedup.py end, and what they count; and how long an event is a duplicate.
use polymarket_agent.Common.{
  ◌≡◌, ◌≢◌, ◌≤◌, ◌<◌, ◌+◌, ◌==◌, ℕ, zero, suc, none, some, List, [], ◌∷◌, arith, if◌then◌else◌, ltb,
  length, ◌&&◌, is_some, Bool-cases, inl, inr, ap, ◌∙◌,
}
use polymarket_agent.Messages.Dedup.{
  DedupSettings, Cache, Scanner, is_live, is_duplicate_event, mark_event_processed, count_keys,
  dedup_size, clear_keys, delete,
}

-- The pages of an iteration from a cursor on: the last one is that whose next cursor is 0.
pub data Pages (scan : Scanner) : ℕ → List (List ℕ) → Type 0 where
  last_page : {cursor : ℕ} → (scan cursor).0 ≡ 0 → Pages scan cursor ((scan cursor).1 ∷ [])
  next_page :
      {cursor : ℕ} {pages : List (List ℕ)}
      → (scan cursor).0 ≢ 0
      → Pages scan (scan cursor).0 pages
      → Pages scan cursor ((scan cursor).1 ∷ pages)

abbrev pub total : List (List ℕ) → ℕ
total [] = 0
total (page ∷ pages) = length page + total pages

-- An iteration ends, as the server promises of a full one: each cursor but 0 is nearer to the end than the one
-- before.
abbrev pub IsEnding : Scanner → (ℕ → ℕ) → Type 0
IsEnding scan rank = (cursor : ℕ) → (scan cursor).0 ≢ 0 → rank (scan cursor).0 < rank cursor

module _ (scan : Scanner) where
  count_keys-Pages :
      (fuel count : ℕ) {cursor : ℕ} {pages : List (List ℕ)}
      → Pages scan cursor pages
      → length pages ≤ fuel
      → count_keys scan fuel cursor count ≡ some (count + total pages)
  unfolding count_keys
  count_keys-Pages zero count (last_page e) h = absurd (omega arith)
  count_keys-Pages zero count (next_page e p) h = absurd (omega arith)
  count_keys-Pages (suc fuel) count (last_page e) h = ground arith
  count_keys-Pages (suc fuel) count {cursor} (next_page e p) h =
      ground (arith, count_keys-Pages fuel (count + length (scan cursor).1) p (omega arith))

  -- the pages, with a bound on their number
  Pages-of :
      (rank : ℕ → ℕ) (bound cursor : ℕ)
      → IsEnding scan rank
      → rank cursor < bound
      → (pages : List (List ℕ)) × Pages scan cursor pages × (length pages ≤ bound)
  Pages-of rank zero cursor e h = absurd (omega arith)
  Pages-of rank (suc bound) cursor e h = elim (Bool-cases ((scan cursor).0 == 0)) [
    | inl k ↦ ((scan cursor).1 ∷ [], last_page (ground arith), omega arith)
    | inr k ↦
        let more : (scan cursor).0 ≢ 0 = λ z. ground arith in
        let (pages, p, l) = Pages-of rank bound (scan cursor).0 e (omega (arith, e cursor more)) in
        ((scan cursor).1 ∷ pages, next_page more p, omega (arith, l))
  ]

  -- The loop of `dedup_size` ends where the iteration of the server does: with a round for each step to its end
  -- it returns the number of keys on all pages.
  pub dedup_size-terminates :
      (rank : ℕ → ℕ)
      → IsEnding scan rank
      → (pages : List (List ℕ)) × Pages scan 0 pages
        × (dedup_size scan (rank 0 + 1) ≡ some (total pages))
  unfolding dedup_size
  dedup_size-terminates rank e =
      let (pages, p, l) = Pages-of rank (rank 0 + 1) 0 e (omega arith) in
      (pages, p, count_keys-Pages (rank 0 + 1) 0 p l ∙ ap some (omega arith))

-- The loop of `dedup_clear` ends too, whatever keys the pages have while keys are deleted.
pub clear_keys-terminates :
    (scan : List ℕ → Scanner) (rank : ℕ → ℕ)
    → ((keys : List ℕ) → IsEnding (scan keys) rank)
    → (fuel cursor deleted : ℕ) (keys : List ℕ) → rank cursor < fuel
    → clear_keys scan fuel cursor deleted keys ≢ none
unfolding clear_keys
clear_keys-terminates scan rank e zero cursor deleted keys h = absurd (omega arith)
clear_keys-terminates scan rank e (suc fuel) cursor deleted keys h =
    let page = (scan keys cursor).1 in
    let rest =
      clear_keys-terminates scan rank e fuel (scan keys cursor).0 (deleted + length page)
        (delete page keys) in
    ground (arith, e keys cursor, rest)

-- An event that is marked while Redis answers is a duplicate for the time to live and no longer, and marking it
-- does not make another event one; without Redis, or where the setting is off, no event is one.
pub is_duplicate_event-mark :
    (c : DedupSettings) (now later hash other : ℕ) (cache : Cache)
    → is_duplicate_event c later other (mark_event_processed c now hash cache) ≡ (
        if c.dedup_redis_enabled && is_some cache && other == hash
        then ltb later (now + c.dedup_ttl_seconds)
        else is_duplicate_event c later other cache)
unfolding is_duplicate_event mark_event_processed is_live
is_duplicate_event-mark c now later hash other none = ground arith
is_duplicate_event-mark c now later hash other (some keys) = ground arith
