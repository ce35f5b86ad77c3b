-- ===== src/Safety.antt =====
-- `ExecutionSafetyGate` of backend/app/services/safety/execution_safety_gate.py. The position size is in
-- cents, the exposure, the drawdown and the confidence in ten-thousandths, the scores in tenths; the
-- drift and the size may be negative in the source, where they pass as 0 does here.
pub mod Laws
use polymarket_agent.Common.{
  ℕ, suc, ◌+◌, Bool, true, false, not, ◌&&◌, List, [], ◌∷◌, ◌++◌, ltb, leb, ◌==◌, if◌then◌else◌,
  nonempty,
}

-- A risk flag in upper case: the four that the gate knows, and any other.
pub data RiskFlag : Type 0 where
  control_failure data_unavailable regime_unstable kill_switch_active : RiskFlag
  other : ℕ → RiskFlag

-- The limits and scores of the context; its identifiers and texts play no part.
pub record ExecutionContext : Type 0 where
  pub position_size_eur : ℕ
  pub portfolio_exposure : ℕ
  pub drawdown : ℕ
  pub regime_confidence : ℕ
  pub drift_score : ℕ
  pub stability_score : ℕ
  pub risk_flags : List RiskFlag

-- A reason by the text before its colon, with the value or the flag that it shows.
pub data Reason : Type 0 where
  position_size exposure drawdown_high stability_low drift_high regime_confidence_low : ℕ → Reason
  risk_flag : RiskFlag → Reason

pub data RiskLevel : Type 0 where
  low blocked : RiskLevel

pub data ShadowDecision : Type 0 where
  shadow_approved shadow_blocked unset : ShadowDecision

pub record ExecutionDecision : Type 0 where
  pub allowed : Bool
  pub reason : List Reason
  pub risk_level : RiskLevel
  pub shadow_decision : ShadowDecision

is_blocking : RiskFlag → Bool
is_blocking (other n) = false
is_blocking _ = true

-- `if test: reasons.append(reason)`, before the reasons that follow
given : Bool → Reason → List Reason → List Reason
given test why rest = if test then why ∷ rest else rest

unfoldable pub flag_reasons : List RiskFlag → List Reason
unfolding given is_blocking
flag_reasons [] = []
flag_reasons (f ∷ fs) = given (is_blocking f) (risk_flag f) (flag_reasons fs)

-- the reasons of `_evaluate`, in order
unfoldable pub reasons_of : ExecutionContext → List Reason
unfolding given
reasons_of c = given (ltb 1000 c.position_size_eur) (position_size c.position_size_eur) (
    given (ltb 1500 c.portfolio_exposure) (exposure c.portfolio_exposure) (
      given (leb 1500 c.drawdown) (drawdown_high c.drawdown) (
        given (ltb c.stability_score 500) (stability_low c.stability_score) (
          given (not (c.drift_score == 0) && leb 500 c.drift_score) (drift_high c.drift_score) (
            given (ltb c.regime_confidence 6000) (regime_confidence_low c.regime_confidence)
              (flag_reasons c.risk_flags))))))

-- `_evaluate`
unfoldable pub evaluate : ExecutionContext → List Reason × ShadowDecision
evaluate c =
    let reasons = reasons_of c in
    (reasons, if nonempty reasons then shadow_blocked else shadow_approved)

-- the text before the colon, which `_block_reasons` counts by
unfoldable pub base : Reason → ℕ
base (position_size n) = 0
base (exposure n) = 1
base (drawdown_high n) = 2
base (stability_low n) = 3
base (drift_high n) = 4
base (regime_confidence_low n) = 5
base (risk_flag f) = 6

pub record Gate : Type 0 where
  pub blocks_total : ℕ
  pub allowed_total : ℕ
  pub block_reasons : ℕ → ℕ

unfoldable pub reset_metrics : Gate
reset_metrics = record { blocks_total = 0; allowed_total = 0; block_reasons = λ k. 0 }

-- one more for each reason
unfoldable pub count_reasons : List Reason → (ℕ → ℕ) → ℕ → ℕ
unfolding base
count_reasons [] counts = counts
count_reasons (x ∷ xs) counts =
    count_reasons xs (λ k. if k == base x then suc (counts k) else counts k)

-- `validate`; `is_shadow` is what the mode manager answers, and false where there is none
unfoldable pub validate : Bool → ExecutionContext → Gate → ExecutionDecision × Gate
unfolding evaluate
validate is_shadow c g =
    let (reasons, decision) = evaluate c in
    let blocked_gate : Gate = record g {
      blocks_total = g.blocks_total + 1;
      block_reasons = count_reasons reasons g.block_reasons;
    } in
    if is_shadow
    then (
      record {
        allowed = false;
        reason = reasons;
        risk_level = if nonempty reasons then blocked else low;
        shadow_decision = decision;
      },
      blocked_gate,
    )
    else if nonempty reasons
    then (
      record { allowed = false; reason = reasons; risk_level = blocked; shadow_decision = unset },
      blocked_gate,
    )
    else (
      record { allowed = true; reason = []; risk_level = low; shadow_decision = unset },
      record g { allowed_total = g.allowed_total + 1 },
    )
