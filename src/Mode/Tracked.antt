-- ===== src/Mode/Tracked.antt =====
-- When the mode of a manager was entered: what the methods of backend/app/core/system_mode.py keep of it.
use Prim.Native.String.{String}
use polymarket_agent.Common.{
  ℕ, ◌≤◌, ◌≡◌, refl, ◌⊎◌, Option, none, some, arith, if◌then◌else◌, sym, ap, Bool, ◌∙◌, inl, inr,
  Bool-cases, Option-cases, false,
}
use mathlib.Core.Path.{subst}
use polymarket_agent.Mode.Kind.{SystemMode, index, same, update}
use polymarket_agent.Mode.Metrics.{HealthMetrics, compute_mode_from_metrics}
use polymarket_agent.Mode.Manager.{
  Services, Manager, ModeSnapshot, init, check_override, request_mode, set_manual_override,
  StoredReply, payload, fails, absent, malformed, load_from_redis, hysteresis, evaluate_metrics,
  evaluate,
}
use polymarket_agent.Mode.Decisions.{
  same_iff, hysteresis_fresh, IsAutomatic, computed-IsAutomatic, evaluate_metrics_lem,
  hysteresis-IsAutomatic,
}

-- nothing was entered yet since the start
abbrev pub IsFresh : SystemMode → SystemMode → (SystemMode → Option ℕ) → Type 0
IsFresh first mode entry = (mode ≡ first) × ((m : SystemMode) → entry m ≡ none)

-- the mode is one that the metrics can call for, and was entered at a known time
abbrev pub IsEntered : SystemMode → (SystemMode → Option ℕ) → ℕ → Type 0
IsEntered mode entry now = IsAutomatic mode × (e : ℕ) × (entry mode ≡ some e) × (e ≤ now)

unfoldable pub IsTracked : SystemMode → SystemMode → (SystemMode → Option ℕ) → ℕ → Type 0
IsTracked first mode entry now = IsFresh first mode entry ⊎ IsEntered mode entry now

pub later-IsTracked :
    (first mode : SystemMode) (entry : SystemMode → Option ℕ) (t now : ℕ)
    → t ≤ now
    → IsTracked first mode entry t
    → IsTracked first mode entry now
unfolding IsTracked
later-IsTracked first mode entry t now h (inl f) = inl f
later-IsTracked first mode entry t now h (inr (a, e, k, l)) = inr (a, e, k, omega (arith, l))

pub same-IsTracked :
    (first : SystemMode) {mode mode' : SystemMode} {entry entry' : SystemMode → Option ℕ} (now : ℕ)
    → mode' ≡ mode
    → entry' ≡ entry
    → IsTracked first mode entry now
    → IsTracked first mode' entry' now
same-IsTracked first {mode} {entry' = entry'} now p q v =
    subst (λ m. IsTracked first m entry' now) (sym p)
      (subst (λ f. IsTracked first mode f now) (sym q) v)

entered_now :
    (next : SystemMode) (f : SystemMode → Option ℕ) (now : ℕ)
    → update next (some now) f next ≡ some now
unfolding update same index
entered_now next f now = ground arith

chosen : {A : Type 0} {b c : Bool} (x y : A) → b ≡ c → (if b then x else y) ≡ (if c then x else y)
chosen x y d = ap (λ (c : Bool). if c then x else y) d

entered-IsTracked :
    (first next : SystemMode) (f : SystemMode → Option ℕ) (now : ℕ)
    → IsAutomatic next
    → IsTracked first next (update next (some now) f) now
unfolding IsTracked
entered-IsTracked first next f now a = inr (a, now, entered_now next f now, omega arith)

moved-IsAutomatic :
    (first : SystemMode) (s : Manager) (t now : ℕ) (m : HealthMetrics)
    → IsTracked first s.mode s.entry_time t
    → let target = (compute_mode_from_metrics s.mode m).0 in
      let next = hysteresis s.mode target (s.entry_time s.mode) now in
      same next s.mode ≡ false → IsAutomatic next
unfolding IsTracked
moved-IsAutomatic first s t now m (inl f) d =
    let target = (compute_mode_from_metrics s.mode m).0 in
    subst IsAutomatic
      (sym (
        ap (λ o. hysteresis s.mode target o now) (f.1 s.mode) ∙ hysteresis_fresh s.mode target now))
      (computed-IsAutomatic s.mode m)
moved-IsAutomatic first s t now m (inr (a, e, k, l)) d =
    hysteresis-IsAutomatic s.mode (compute_mode_from_metrics s.mode m).0 (s.entry_time s.mode) now a
      (computed-IsAutomatic s.mode m)

evaluate_metrics-IsTracked :
    (first : SystemMode) (env : Services) (s : Manager) (t now : ℕ) (m : HealthMetrics)
    → t ≤ now
    → IsTracked first s.mode s.entry_time t
    → let s' = (evaluate_metrics env s now m).1 in IsTracked first s'.mode s'.entry_time now
evaluate_metrics-IsTracked first env s t now m h v =
    let target = (compute_mode_from_metrics s.mode m).0 in
    let next = hysteresis s.mode target (s.entry_time s.mode) now in
    let e = evaluate_metrics_lem env s now m in
    let moved = update next (some now) s.entry_time in
    elim (Bool-cases (same next s.mode)) [
      | inl d ↦
          same-IsTracked first now (e.1 ∙ same_iff next s.mode d)
            (e.2 ∙ chosen s.entry_time moved d)
            (later-IsTracked first s.mode s.entry_time t now h v)
      | inr d ↦
          same-IsTracked first now e.1 (e.2 ∙ chosen s.entry_time moved d)
            (entered-IsTracked first next s.entry_time now (moved-IsAutomatic first s t now m v d))
    ]

-- `evaluate` by the override that is in force
abbrev by_override :
    Services → Manager → ℕ → HealthMetrics → Option ModeSnapshot → SystemMode × Manager
by_override env s now m o = elim o [ some x ↦ (x.mode, s) | none ↦ evaluate_metrics env s now m ]

evaluate-cases :
    (env : Services) (s : Manager) (now : ℕ) (m : HealthMetrics)
    → let s' = check_override s now in
      ((evaluate env s now m).1 ≡ s')
      ⊎ ((evaluate env s now m).1 ≡ (evaluate_metrics env s' now m).1)
unfolding evaluate
evaluate-cases env s now m = elim (Option-cases (check_override s now).override) [
  | inl o ↦ inr (ap (λ x. (by_override env (check_override s now) now m x).1) o)
  | inr (x, o) ↦ inl (ap (λ x. (by_override env (check_override s now) now m x).1) o)
]

pub evaluate-IsTracked :
    (first : SystemMode) (env : Services) (s : Manager) (t now : ℕ) (m : HealthMetrics)
    → t ≤ now
    → IsTracked first s.mode s.entry_time t
    → let s' = (evaluate env s now m).1 in IsTracked first s'.mode s'.entry_time now
unfolding check_override
evaluate-IsTracked first env s t now m h v =
    let P : Manager → Type 0 = λ s'. IsTracked first s'.mode s'.entry_time now in
    elim (evaluate-cases env s now m) [
      | inl e ↦ subst P (sym e) (later-IsTracked first s.mode s.entry_time t now h v)
      | inr e ↦
          subst P (sym e) (evaluate_metrics-IsTracked first env (check_override s now) t now m h v)
    ]

pub override_kept :
    (env : Services) (s : Manager) (now : ℕ) (mode : SystemMode) (why operator : String) (ttl : ℕ)
    → let s' = set_manual_override env s now mode why operator ttl in
      (s'.mode ≡ s.mode) × (s'.entry_time ≡ s.entry_time)
unfolding set_manual_override
override_kept env s now mode why operator ttl = ground arith

pub requested_kept :
    (s : Manager) (now : ℕ) (target : SystemMode) (why source : String) (severity : ℕ)
    → let s' = request_mode s now target why source severity in
      (s'.mode ≡ s.mode) × (s'.entry_time ≡ s.entry_time)
unfolding request_mode
requested_kept s now target why source severity = ground arith

pub started-IsTracked :
    (reply : StoredReply) (now : ℕ)
    → let s = load_from_redis init reply in IsTracked s.mode s.mode s.entry_time now
unfolding IsTracked load_from_redis init
started-IsTracked (payload mode reason updated_at) now = inl (refl, λ m. refl)
started-IsTracked fails now = inl (refl, λ m. refl)
started-IsTracked absent now = inl (refl, λ m. refl)
started-IsTracked malformed now = inl (refl, λ m. refl)
