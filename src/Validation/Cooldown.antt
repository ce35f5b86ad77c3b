-- ===== src/Validation/Cooldown.antt =====
-- The cooldown of a market in backend/app/services/risk_service.py, and the loss of the day.
use polymarket_agent.Common.{
  ◌≡◌, ◌≤◌, ◌<◌, ◌+◌, ◌*◌, ℕ, true, false, Option, some, List, [], ◌∷◌, ◌++◌, arith, keep, get_or,
  All, refl,
}
use polymarket_agent.Common.Int.{ℤ}
use polymarket_agent.Validation.{
  RiskSettings, RiskTrade, SideName, is_recent, latest, check_cooldown, check_limits, validate_risk,
  microseconds_of_minute, rejected, accepted, size_of,
}

-- the latest change is at least that of each trade
latest_at_least :
    (c : RiskSettings) (now market : ℕ) (before : List RiskTrade) (t : RiskTrade)
    (after : List RiskTrade)
    → is_recent c now market t ≡ true
    → let newest = latest (keep (is_recent c now market) (before ++ t ∷ after)) in
      (newest ≡ some (get_or newest 0)) × (t.updated_at ≤ get_or newest 0)
unfolding latest
latest_at_least c now market [] t after h = ground arith
latest_at_least c now market (u ∷ before) t after h =
    ground (arith, latest_at_least c now market before t after h)

none_kept :
    (c : RiskSettings) (now market : ℕ) (trades : List RiskTrade)
    → All (λ t. is_recent c now market t ≡ false) trades
    → keep (is_recent c now market) trades ≡ []
none_kept c now market [] h = refl
none_kept c now market (t ∷ trades) h = ground (arith, none_kept c now market trades)

-- Once each trade of the market was created longer ago than the time to cool down, nothing remains of it.
pub cooldown_over :
    (c : RiskSettings) (now market : ℕ) (trades : List RiskTrade)
    → All (λ t. is_recent c now market t ≡ false) trades
    → check_cooldown c now trades market ≡ 0
unfolding check_cooldown latest
cooldown_over c now market trades h = ground (arith, none_kept c now market trades h)

cooldown_running :
    (c : RiskSettings) (now market : ℕ) (before : List RiskTrade) (t : RiskTrade)
    (after : List RiskTrade)
    → is_recent c now market t ≡ true
    → now + 1000000 ≤ t.updated_at + c.cooldown_minutes * microseconds_of_minute
    → 0 < check_cooldown c now (before ++ t ∷ after) market
unfolding check_cooldown
cooldown_running c now market before t after h k =
    ground (arith, latest_at_least c now market before t after h)

cooldown_rejects :
    (c : RiskSettings) (now : ℕ) (trades : List RiskTrade) (market size confidence : ℕ)
    → 0 < check_cooldown c now trades market
    → (check_limits c now trades market size confidence).approved ≡ false
unfolding check_limits rejected accepted
cooldown_rejects c now trades market size confidence h = ground arith

-- A trade keeps its market closed: until a second before the time to cool down has passed since the trade
-- was created, whatever its status is and whatever else the table holds, the risk service approves no
-- other trade in the market. The trade is not changed before it is created.
validate_risk_cooling :
    (c : RiskSettings) (now market : ℕ) (before : List RiskTrade) (t : RiskTrade)
    (after : List RiskTrade) (side : SideName) (size : Option ℤ) (confidence : Option ℕ)
    → t.guarded.market_id ≡ market
    → t.created_at ≤ t.updated_at
    → now + 1000000 ≤ t.created_at + c.cooldown_minutes * microseconds_of_minute
    → (validate_risk c now (before ++ t ∷ after) (some market) side size confidence).approved
      ≡ false
unfolding validate_risk rejected is_recent
validate_risk_cooling c now market before t after side size confidence m u k =
    let trades = before ++ t ∷ after in
    let recent : is_recent c now market t ≡ true = ground arith in
    let runs = cooldown_running c now market before t after recent (omega arith) in
    let rejects = cooldown_rejects c now trades market (size_of size) (get_or confidence 0) runs in
    ground (arith, rejects)
