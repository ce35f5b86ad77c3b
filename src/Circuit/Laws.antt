-- ===== src/Circuit/Laws.antt =====
-- When the circuit of backend/app/core/circuit_breaker.py opens, and how it closes again.
use polymarket_agent.Common.{
  ℕ, ◌+◌, ◌-◌, ◌≤◌, ◌<◌, ◌≡◌, ◌≢◌, ◌⊎◌, Option, none, some, [], ◌∷◌, ◌++◌, arith, leb, length,
  if◌then◌else◌, length-append,
}
use polymarket_agent.Circuit.{
  closed, opened, half_open, Config, Circuit, init, state, recent, record_failure, record_success,
  reset,
}

-- Calls in any order, at times that do not go back; the process starts after time 0.
pub data Reach (c : Config) : Circuit → ℕ → Type 0 where
  started : (now : ℕ) → 0 < now → Reach c init now
  failed :
      {b : Circuit} {t : ℕ} (now : ℕ) → Reach c b t → t ≤ now → Reach c (record_failure c now b) now
  succeeded : {b : Circuit} {t : ℕ} → Reach c b t → Reach c (record_success b) t
  read : {b : Circuit} {t : ℕ} (now : ℕ) → Reach c b t → t ≤ now → Reach c (state c now b).1 now
  cleared : {b : Circuit} {t : ℕ} → Reach c b t → Reach c (reset b) t

-- The time of the last opening is known, after the start and not in the future.
abbrev Opened : Option ℕ → ℕ → Type 0
Opened none now = ⊥
Opened (some t) now = (0 < t) × (t ≤ now)

pub record IsValid (b : Circuit) (now : ℕ) : Type 0 where
  pub after_start : 0 < now
  pub opened_once : (b.status ≡ closed) ⊎ (0 < b.total_opens)
  pub opened_known : (b.total_opens ≡ 0) ⊎ Opened b.last_open_time now

-- In every history a circuit that is open or half open has been opened, and the time of its last
-- opening is known, after the start and not in the future.
pub Reach-IsValid : {c : Config} {b : Circuit} {now : ℕ} → Reach c b now → IsValid b now
unfolding init record_failure record_success state reset
Reach-IsValid (started now h) = ground arith
Reach-IsValid (failed now r h) = let v = Reach-IsValid r in ground arith
Reach-IsValid (succeeded r) = let v = Reach-IsValid r in ground arith
Reach-IsValid (read now r h) = let v = Reach-IsValid r in ground arith
Reach-IsValid (cleared r) = let v = Reach-IsValid r in ground arith

module _ (c : Config) where
  -- A failure opens the circuit exactly when it was not open and this failure and the earlier ones
  -- within the window are at least as many as the threshold; then the opening is timed and counted.
  -- The failures that are kept are those within the window and this one.
  pub record_failure_opens :
      (now : ℕ) (b : Circuit)
      → b.status ≢ opened
      → let b' = record_failure c now b in
        let enough = leb c.failure_threshold (length (recent c now b.failures) + 1) in
        (b'.status ≡ (if enough then opened else b.status))
        × (b'.last_open_time ≡ (if enough then some now else b.last_open_time))
        × (b'.total_opens ≡ (if enough then b.total_opens + 1 else b.total_opens))
        × (b'.failures ≡ recent c now b.failures ++ now ∷ [])
  unfolding record_failure
  record_failure_opens now b h = ground (arith, length-append (recent c now b.failures) (now ∷ []))

  -- Before the recovery time has passed an open circuit stays open: a read and a success change
  -- nothing, and a failure counts no second opening.
  pub opened_stays :
      (now t : ℕ) (b : Circuit)
      → b.status ≡ opened
      → b.last_open_time ≡ some t
      → now - t < c.recovery
      → (record_success b ≡ b)
        × ((record_failure c now b).status ≡ opened)
        × ((record_failure c now b).total_opens ≡ b.total_opens)
        × ((record_failure c now b).last_open_time ≡ some t)
        × (state c now b ≡ (opened, b))
  unfolding record_success record_failure state
  opened_stays now t b h e early = ground arith

  -- In every history an open circuit reads as half open exactly when the recovery time since its
  -- opening has passed; a success after that read closes it with no failures left, and a success after an
  -- earlier read changes nothing.
  pub state-recovery :
      {b : Circuit} {s : ℕ} (now t : ℕ)
      → Reach c b s
      → b.status ≡ opened
      → b.last_open_time ≡ some t
      → ((state c now b).0 ≡ (if leb c.recovery (now - t) then half_open else opened))
        × (record_success (state c now b).1
            ≡ (if leb c.recovery (now - t) then record b { status = closed; failures = [] } else b))
  unfolding state record_success
  state-recovery {b} {s} now t r h e = let v = Reach-IsValid r in ground arith

  -- A failed probe need not open a half open circuit again: it stays half open as long as the failures
  -- within the window, this one included, are fewer than the threshold.
  pub record_failure-half_open :
      (now : ℕ) (b : Circuit)
      → b.status ≡ half_open
      → (record_failure c now b).status ≡ (
          if leb c.failure_threshold (length (recent c now b.failures) + 1)
          then opened
          else half_open)
  unfolding record_failure
  record_failure-half_open now b h =
      ground (arith, length-append (recent c now b.failures) (now ∷ []))
