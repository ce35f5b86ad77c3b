-- ===== src/Safety/Laws.antt =====
-- What backend/app/services/safety/execution_safety_gate.py lets through, and what it counts.
use polymarket_agent.Common.{
  ℕ, suc, ◌+◌, ◌≤◌, ◌<◌, ◌≡◌, ◌↔◌, refl, Bool, true, false, List, [], ◌∷◌, arith, All, nonempty,
  length, ◌==◌, if◌then◌else◌, keep,
}
use polymarket_agent.Safety.{
  RiskFlag, ExecutionContext, Reason, shadow_approved, shadow_blocked, unset, flag_reasons,
  reasons_of, Gate, count_reasons, validate, base,
}

abbrev pub IsHarmless : RiskFlag → Type 0
IsHarmless (RiskFlag.other n) = Unit
IsHarmless _ = ⊥

-- The limits of the gate, written out: cents, ten-thousandths and tenths.
pub record IsWithinLimits (c : ExecutionContext) : Type 0 where
  pub size : c.position_size_eur ≤ 1000
  pub exposure : c.portfolio_exposure ≤ 1500
  pub drawdown : c.drawdown < 1500
  pub stability : 500 ≤ c.stability_score
  pub drift : c.drift_score < 500
  pub confidence : 6000 ≤ c.regime_confidence
  pub flags : All IsHarmless c.risk_flags

flags_clear : (fs : List RiskFlag) → flag_reasons fs ≡ [] → All IsHarmless fs
unfolding flag_reasons
flags_clear [] h = tt
flags_clear (f ∷ fs) h = ground (arith, flags_clear fs)

clear_flags : (fs : List RiskFlag) → All IsHarmless fs → flag_reasons fs ≡ []
unfolding flag_reasons
clear_flags [] h = refl
clear_flags (f ∷ fs) h = ground (arith, clear_flags fs)

within_limits : (c : ExecutionContext) → reasons_of c ≡ [] → IsWithinLimits c
unfolding reasons_of
within_limits c h = ground (arith, flags_clear c.risk_flags)

no_reasons : (c : ExecutionContext) → IsWithinLimits c → reasons_of c ≡ []
unfolding reasons_of
no_reasons c h = ground (arith, clear_flags c.risk_flags)

-- An execution is allowed exactly when the system is not in shadow mode and every limit holds: size,
-- exposure, drawdown, stability, drift, confidence and no blocking flag.
pub validate-allowed :
    (is_shadow : Bool) (c : ExecutionContext) (g : Gate)
    → ((validate is_shadow c g).0.allowed ≡ true) ↔ ((is_shadow ≡ false) × IsWithinLimits c)
unfolding validate
validate-allowed is_shadow c g = (
  λ h. (ground arith, within_limits c (ground arith)),
  λ h. let e = no_reasons c h.1 in ground arith,
)

-- Every call counts once, as blocked or as allowed, and returns all the reasons that were found. In
-- shadow mode the shadow decision approves exactly when no reason was found; otherwise it is not set.
pub validate_counts :
    (is_shadow : Bool) (c : ExecutionContext) (g : Gate)
    → let (d, g') = validate is_shadow c g in
      (g'.blocks_total + g'.allowed_total ≡ suc (g.blocks_total + g.allowed_total))
      × (d.reason ≡ reasons_of c)
      × (g'.allowed_total ≡ (if d.allowed then suc g.allowed_total else g.allowed_total))
      × (d.shadow_decision ≡ (
          if is_shadow
          then (if nonempty (reasons_of c) then shadow_blocked else shadow_approved)
          else unset))
unfolding validate
validate_counts is_shadow c g = ground arith

count_reasons_lem :
    (xs : List Reason) (counts : ℕ → ℕ) (k : ℕ)
    → count_reasons xs counts k ≡ length (keep (λ x. k == base x) xs) + counts k
unfolding count_reasons
count_reasons_lem [] counts k = omega arith
count_reasons_lem (x ∷ xs) counts k =
    ground (arith, count_reasons_lem xs (λ j. if j == base x then suc (counts j) else counts j) k)

-- The counter of each kind of reason grows by the number of reasons of that kind in the decision.
pub validate_reasons :
    (is_shadow : Bool) (c : ExecutionContext) (g : Gate) (k : ℕ)
    → let (d, g') = validate is_shadow c g in
      g'.block_reasons k ≡ length (keep (λ x. k == base x) d.reason) + g.block_reasons k
unfolding validate
validate_reasons is_shadow c g k =
    ground (arith, count_reasons_lem (reasons_of c) g.block_reasons k)
