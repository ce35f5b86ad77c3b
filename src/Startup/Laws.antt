-- ===== src/Startup/Laws.antt =====
-- What holds in a process that has started: backend/app/services/capabilities/startup_validation.py with
-- backend/app/services/execution/governance/execution_governor.py and
-- backend/app/services/capital/guard.py.
use polymarket_agent.Common.{
  ◌≡◌, ◌≢◌, ◌↔◌, ◌⊎◌, ℕ, true, none, refl, List, [], ◌∷◌, ◌++◌, arith, All,
}
use mathlib.Core.List.{append_assoc}
use polymarket_agent.Governance.{authorize_execution, authorize_rpc, authorize_capital}
use polymarket_agent.Capability.{Venue, polymarket, VenueCapability, has}
use polymarket_agent.Capital.{RiskReceipt, HashInput, block, enforce, is_block}
use polymarket_agent.Startup.{
  BootSettings, validate, is_listed, check_adapters, check_venues, validate_registry_integrity,
  validate_capability_coverage, validate_all,
}

-- In a process that starts, the governor in the mode of the settings authorizes execution and refuses
-- every write to the chain and every use of capital, and the guard with the settings of capital
-- leaves no receipt that is not blocked.
pub validate_safe :
    (c : BootSettings) (hash : HashInput → ℕ) (receipt : RiskReceipt)
    → validate c ≡ none
    → (authorize_execution c.execution_mode ≡ none)
      × (authorize_rpc c.execution_mode true ≢ none)
      × (authorize_capital c.execution_mode ≢ none)
      × ((enforce hash c.capital_enabled receipt).capital_decision ≡ block)
unfolding validate authorize_execution authorize_rpc authorize_capital enforce is_block
validate_safe c hash receipt h = ground arith

abbrev pub IsKnown : List Venue → Venue → Type 0
IsKnown venues v = is_listed v venues ≡ true

abbrev pub IsServed : List Venue → Venue → Type 0
IsServed adapters v = (is_listed v adapters ≡ true) ⊎ (v ≡ polymarket)

check_adapters_iff :
    (adapters venues : List Venue)
    → (check_adapters adapters venues ≡ none) ↔ All (IsKnown venues) adapters
unfolding check_adapters
check_adapters_iff [] venues = (λ h. tt, λ h. refl)
check_adapters_iff (a ∷ as') venues =
    let ih = check_adapters_iff as' venues in (λ h. ground (arith, ih.0), λ h. ground (arith, ih.1))

check_venues_iff :
    (adapters venues : List Venue)
    → (check_venues adapters venues ≡ none) ↔ All (IsServed adapters) venues
unfolding check_venues
check_venues_iff adapters [] = (λ h. tt, λ h. refl)
check_venues_iff adapters (v ∷ vs) =
    let ih = check_venues_iff adapters vs in (λ h. ground (arith, ih.0), λ h. ground (arith, ih.1))

has_append : (xs ys : List VenueCapability) (c : VenueCapability) → has (xs ++ c ∷ ys) c ≡ true
unfolding has
has_append [] ys c = ground arith
has_append (x ∷ xs) ys c = ground (arith, has_append xs ys c)

coverage_all :
    (before cs : List VenueCapability) → validate_capability_coverage (before ++ cs) cs ≡ none
unfolding validate_capability_coverage
coverage_all before [] = refl
coverage_all before (c ∷ cs) = ground (
  arith,
  has_append before cs c,
  coverage_all (before ++ c ∷ []) cs,
  append_assoc before (c ∷ []) cs,
)

-- The start passes the registries exactly when every venue with an adapter has capabilities, and every
-- venue with capabilities has an adapter or is polymarket; the coverage of the capabilities never
-- fails it.
pub validate_all_iff :
    (adapters venues : List Venue) (capabilities : List VenueCapability)
    → (validate_all adapters venues capabilities ≡ none)
      ↔ (All (IsKnown venues) adapters × All (IsServed adapters) venues)
unfolding validate_all validate_registry_integrity
validate_all_iff adapters venues capabilities =
    let a = check_adapters_iff adapters venues in
    let v = check_venues_iff adapters venues in
    let k = coverage_all [] capabilities in
    (λ h. ground (arith, a.0, v.0), λ h. ground (arith, a.1, v.1))
