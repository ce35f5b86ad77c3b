-- ===== src/Admission/Laws.antt =====
-- What backend/app/services/admission admits, and what a replay of its decision accepts.
use polymarket_agent.Common.{
  ◌≡◌, ◌↔◌, ◌≤◌, ◌<◌, ◌+◌, ◌⊎◌, ℕ, true, false, refl, [], arith, All, any, ltb, List, ◌∷◌, some,
}
use polymarket_agent.Admission.{
  AssetSnapshot, sorted_reasons, calculate, AdmissionReceipt, Fingerprint, allow_simulation, block,
  min_market_cap, min_liquidity, max_holder_concentration, min_route_confidence, confidence,
  quality_reasons, new_receipt, admit_asset, replay_admission, admitted,
}

-- The thresholds of the market quality engine, written out.
pub record IsSound (s : AssetSnapshot) : Type 0 where
  pub cap : min_market_cap ≤ s.market_cap
  pub liquid : min_liquidity ≤ s.liquidity
  pub spread : All (λ p. p ≤ max_holder_concentration) s.holder_distribution
  pub aged : 7 ≤ s.asset_age_days
  pub routed : min_route_confidence ≤ confidence s

spread_iff :
    (ps : List ℕ)
    → (any (λ p. ltb max_holder_concentration p) ps ≡ false)
      ↔ All (λ p. p ≤ max_holder_concentration) ps
spread_iff [] = (λ h. tt, λ h. refl)
spread_iff (p ∷ ps) =
    let ih = spread_iff ps in (λ h. ground (arith, ih.0), λ h. ground (arith, ih.1))

module _ (snapshot_hash : AssetSnapshot → ℕ) (fingerprint : Fingerprint → ℕ) where
  -- A snapshot is admitted to simulation exactly when every threshold holds, it is blocked exactly when
  -- its market cap or its liquidity is too low, and its receipt holds for 150 slots.
  pub new_receipt_decision :
      (s : AssetSnapshot)
      → let receipt = new_receipt snapshot_hash fingerprint s in
        ((receipt.decision ≡ allow_simulation) ↔ IsSound s)
        × ((receipt.decision ≡ block)
            ↔ ((s.market_cap < min_market_cap) ⊎ (s.liquidity < min_liquidity)))
        × (receipt.valid_until_slot ≡ s.evaluation_slot + 150)
  unfolding new_receipt quality_reasons confidence
  new_receipt_decision s =
      let i = spread_iff s.holder_distribution in
      (
        (λ h. ground (arith, i.0), λ h. ground (arith, i.1)),
        (λ h. ground arith, λ h. ground arith),
        refl,
      )

  -- The replay of a new receipt over its own snapshot returns it unchanged. Provided that the
  -- fingerprint tells decisions apart, a replay over any snapshot accepts a receipt that bears the
  -- hash of a new one exactly if the snapshot, the version, the decision and, up to their order,
  -- the reasons are those of the new one.
  pub replay_admission-new_receipt :
      (s s' : AssetSnapshot) (stored : AdmissionReceipt)
      → ((a b : Fingerprint) → fingerprint a ≡ fingerprint b → a ≡ b)
      → let receipt = new_receipt snapshot_hash fingerprint s in
        stored.decision_hash ≡ receipt.decision_hash
        → (admit_asset snapshot_hash fingerprint s true (some receipt) ≡ admitted receipt)
          × ((admit_asset snapshot_hash fingerprint s' true (some stored) ≡ admitted stored) ↔ (
              (s' ≡ s)
              × (stored.policy_version ≡ receipt.policy_version)
              × (stored.decision ≡ receipt.decision)
              × (sorted_reasons stored.reasons ≡ sorted_reasons receipt.reasons)))
  unfolding new_receipt admit_asset replay_admission calculate
  replay_admission-new_receipt s s' stored injective e =
      let receipt = new_receipt snapshot_hash fingerprint s in
      let a : Fingerprint = record {
        snapshot = s;
        policy_version = receipt.policy_version;
        decision = receipt.decision;
        reasons = sorted_reasons receipt.reasons;
      } in
      let b : Fingerprint = record {
        snapshot = s';
        policy_version = stored.policy_version;
        decision = stored.decision;
        reasons = sorted_reasons stored.reasons;
      } in
      (ground arith, (λ h. ground (arith, injective a b), λ h. ground arith))
