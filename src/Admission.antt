-- ===== src/Admission.antt =====
-- Whether an asset may be planned with: backend/app/services/admission (admission_service.py,
-- market_quality_engine.py, policy.py) and backend/app/domain/admission (models.py, fingerprint.py).
-- Amounts and shares are in units of the eighth decimal. SHA-256 over the JSON texts of a snapshot and
-- of a decision is an argument; the random id of a receipt is not modelled.
pub mod Laws
use polymarket_agent.Common.{
  ℕ, ◌+◌, ◌*◌, Bool, true, false, Option, none, some, ◌||◌, List, [], ◌∷◌, ◌++◌, ◌==◌, ltb, leb,
  if◌then◌else◌, any, get_or, is_some, nonempty, not,
}

pub data MarketQualityDecision : Type 0 where
  approved quality_watch blocked : MarketQualityDecision

pub data AdmissionDecision : Type 0 where
  allow_simulation watch block : AdmissionDecision

pub data Reason : Type 0 where
  low_market_cap low_liquidity high_concentration new_asset low_route_confidence : Reason
  rejected_by_quality_engine missing_route : Reason

-- `route_snapshot` is `none` where the dict is empty, and else holds the entry for "confidence".
pub record AssetSnapshot : Type 0 where
  pub asset_id : ℕ
  pub market_cap : ℕ
  pub liquidity : ℕ
  pub holder_distribution : List ℕ
  pub asset_age_days : ℕ
  pub route_snapshot : Option (Option ℕ)
  pub evaluation_slot : ℕ

abbrev pub one : ℕ
one = 100000000

abbrev pub min_market_cap : ℕ
min_market_cap = 1000000 * one

abbrev pub min_liquidity : ℕ
min_liquidity = 50000 * one

abbrev pub max_holder_concentration : ℕ
max_holder_concentration = 25000000

abbrev pub min_route_confidence : ℕ
min_route_confidence = 80000000

-- `Decimal(str(route_snapshot.get("confidence", "0")))`
unfoldable pub confidence : AssetSnapshot → ℕ
confidence s = get_or (get_or s.route_snapshot none) 0

given : Bool → Reason → List Reason → List Reason
given test why rest = if test then why ∷ rest else rest

-- the reasons that `MarketQualityEngine.evaluate` collects
unfoldable pub quality_reasons : AssetSnapshot → List Reason
unfolding given confidence
quality_reasons s = given (ltb s.market_cap min_market_cap) low_market_cap (
    given (ltb s.liquidity min_liquidity) low_liquidity (
      given (any (λ p. ltb max_holder_concentration p) s.holder_distribution) high_concentration (
        given (ltb s.asset_age_days 7) new_asset
          (given (ltb (confidence s) min_route_confidence) low_route_confidence []))))

-- the place of the text of a reason in the alphabet
unfoldable pub reason_rank : Reason → ℕ
reason_rank high_concentration = 0
reason_rank low_liquidity = 1
reason_rank low_market_cap = 2
reason_rank low_route_confidence = 3
reason_rank missing_route = 4
reason_rank new_asset = 5
reason_rank rejected_by_quality_engine = 6

has_reason : Reason → List Reason → Bool
has_reason why reasons = any (λ r. reason_rank r == reason_rank why) reasons

-- `MarketQualityEngine.evaluate`
unfoldable pub evaluate : AssetSnapshot → MarketQualityDecision × List Reason
unfolding has_reason reason_rank quality_reasons
evaluate s =
    let reasons = quality_reasons s in
    if has_reason low_market_cap reasons || has_reason low_liquidity reasons
    then (blocked, reasons)
    else if nonempty reasons
    then (quality_watch, reasons)
    else (approved, [])

by_quality : MarketQualityDecision → AdmissionDecision
by_quality approved = allow_simulation
by_quality _ = watch

-- `AssetAdmissionPolicy.evaluate`; the capabilities are not read
unfoldable pub policy_evaluate :
    MarketQualityDecision → AssetSnapshot → AdmissionDecision × List Reason
unfolding by_quality
policy_evaluate blocked s = (block, rejected_by_quality_engine ∷ [])
policy_evaluate quality s =
    if is_some s.route_snapshot then (by_quality quality, []) else (watch, missing_route ∷ [])

insert_reason : Reason → List Reason → List Reason
insert_reason x [] = x ∷ []
insert_reason x (y ∷ ys) =
    let rest = insert_reason x ys in
    if reason_rank x == reason_rank y
    then y ∷ ys
    else if ltb (reason_rank x) (reason_rank y)
    then x ∷ y ∷ ys
    else y ∷ rest

-- `sorted(list(set(reasons)))`
unfoldable pub sorted_set : List Reason → List Reason
unfolding insert_reason
sorted_set [] = []
sorted_set (x ∷ xs) = insert_reason x (sorted_set xs)

pub record AdmissionReceipt : Type 0 where
  pub decision : AdmissionDecision
  pub decision_hash : ℕ
  pub asset_snapshot_hash : ℕ
  pub policy_version : ℕ
  pub reasons : List Reason
  pub created_slot : ℕ
  pub valid_until_slot : ℕ

put_reason : Reason → List Reason → List Reason
put_reason x [] = x ∷ []
put_reason x (y ∷ ys) =
    let rest = put_reason x ys in
    if leb (reason_rank x) (reason_rank y) then x ∷ y ∷ ys else y ∷ rest

-- `sorted(reasons)`
unfoldable pub sorted_reasons : List Reason → List Reason
unfolding put_reason
sorted_reasons [] = []
sorted_reasons (x ∷ xs) = put_reason x (sorted_reasons xs)

-- What the hash of a decision is over, with the reasons sorted.
pub record Fingerprint : Type 0 where
  pub snapshot : AssetSnapshot
  pub policy_version : ℕ
  pub decision : AdmissionDecision
  pub reasons : List Reason

pub data AdmissionError : Type 0 where
  receipt_required hash_mismatch expired : AdmissionError

pub data Outcome : Type 0 where
  admitted : AdmissionReceipt → Outcome
  refused : AdmissionError → Outcome

-- `POLICY_VERSION`: 23 stands for its text
abbrev pub version : ℕ
version = 23

is_expired : ℕ → Option AdmissionReceipt → Bool
is_expired slot none = false
is_expired slot (some receipt) = ltb receipt.valid_until_slot slot

module _ (snapshot_hash : AssetSnapshot → ℕ) (fingerprint : Fingerprint → ℕ) where
  -- `AdmissionFingerprint.calculate`
  unfoldable pub calculate : AssetSnapshot → ℕ → AdmissionDecision → List Reason → ℕ
  calculate s policy_version decision reasons = fingerprint (record {
    snapshot = s;
    policy_version = policy_version;
    decision = decision;
    reasons = sorted_reasons reasons;
  })

  -- the receipt for a snapshot, and its decision and reasons
  unfoldable pub new_receipt : AssetSnapshot → AdmissionReceipt
  unfolding evaluate policy_evaluate
  new_receipt s =
      let (quality, quality_reasons') = evaluate s in
      let (decision, policy_reasons) = policy_evaluate quality s in
      let all_reasons = sorted_set (quality_reasons' ++ policy_reasons) in
      record {
        decision = decision;
        decision_hash = calculate s version decision all_reasons;
        asset_snapshot_hash = snapshot_hash s;
        policy_version = version;
        reasons = all_reasons;
        created_slot = s.evaluation_slot;
        valid_until_slot = s.evaluation_slot + 150;
      }

  -- `_replay_admission`, with `AdmissionFingerprint.verify`
  unfoldable pub replay_admission : AssetSnapshot → AdmissionReceipt → Outcome
  replay_admission s stored =
      let recomputed = calculate s stored.policy_version stored.decision stored.reasons in
      if stored.decision_hash == recomputed then admitted stored else refused hash_mismatch

  replay_stored : AssetSnapshot → Option AdmissionReceipt → Outcome
  replay_stored s none = refused receipt_required
  replay_stored s (some stored) = replay_admission s stored

  -- `admit_asset`
  unfoldable pub admit_asset : AssetSnapshot → Bool → Option AdmissionReceipt → Outcome
  unfolding replay_stored is_expired
  admit_asset s is_replay stored =
      if is_replay
      then replay_stored s stored
      else if is_expired s.evaluation_slot stored
      then refused expired
      else admitted (new_receipt s)
