-- ===== src/Startup.antt =====
-- What lets the process start: backend/app/services/capabilities/startup_validation.py, over the
-- settings of backend/app/config.py and the two registries. A registry is read for its keys.
pub mod Laws
use polymarket_agent.Common.{
  ℕ, suc, Bool, true, false, Option, none, some, not, ◌||◌, List, [], ◌∷◌, ◌==◌, if◌then◌else◌, any,
}
use polymarket_agent.Governance.{ExecutionMode, simulation, sandbox}
use polymarket_agent.Capability.{
  Venue, paper, live, polymarket, live_jupiter, unregistered, VenueCapability, has,
}

-- `settings`; the mode is one of the texts that `ExecutionMode` knows
pub record BootSettings : Type 0 where
  pub execution_mode : ExecutionMode
  pub strict_live_enabled : Bool
  pub capital_enabled : Bool

pub data Violation : Type 0 where
  invalid_execution_mode strict_live_must_be_off capital_must_be_off : Violation

-- `mode in ["simulation", "sandbox"]`
unfoldable pub is_bootable : ExecutionMode → Bool
is_bootable simulation = true
is_bootable sandbox = true
is_bootable _ = false

-- `StartupSafetyValidator.validate`: `none` is a return, `some` a `StartupSafetyViolation`
unfoldable pub validate : BootSettings → Option Violation
unfolding is_bootable
validate c =
    if not (is_bootable c.execution_mode)
    then some invalid_execution_mode
    else if c.strict_live_enabled
    then some strict_live_must_be_off
    else if c.capital_enabled
    then some capital_must_be_off
    else none

pub data RegistrationError : Type 0 where
  missing_capabilities missing_adapter : Venue → RegistrationError
  not_covered : VenueCapability → RegistrationError

-- the place of a venue, by which names are told apart
unfoldable pub venue_index : Venue → ℕ
venue_index paper = 0
venue_index live = 1
venue_index polymarket = 2
venue_index live_jupiter = 3
venue_index (unregistered n) = suc (suc (suc (suc n)))

-- `has(venue)`
unfoldable pub is_listed : Venue → List Venue → Bool
unfolding venue_index
is_listed v vs = any (λ w. venue_index w == venue_index v) vs

-- the first loop of `validate_registry_integrity`
unfoldable pub check_adapters : List Venue → List Venue → Option RegistrationError
check_adapters [] venues = none
check_adapters (a ∷ as') venues =
    let rest = check_adapters as' venues in
    if is_listed a venues then rest else some (missing_capabilities a)

is_polymarket : Venue → Bool
is_polymarket polymarket = true
is_polymarket _ = false

-- the second loop
unfoldable pub check_venues : List Venue → List Venue → Option RegistrationError
unfolding is_polymarket
check_venues adapters [] = none
check_venues adapters (v ∷ vs) =
    let rest = check_venues adapters vs in
    if is_listed v adapters || is_polymarket v then rest else some (missing_adapter v)

or_else : Option RegistrationError → Option RegistrationError → Option RegistrationError
or_else none next = next
or_else (some e) next = some e

-- `validate_registry_integrity`
unfoldable pub validate_registry_integrity : List Venue → List Venue → Option RegistrationError
unfolding or_else
validate_registry_integrity adapters venues =
    or_else (check_adapters adapters venues) (check_venues adapters venues)

-- `validate_capability_coverage`, of the list that `covered_capabilities` returns
unfoldable pub validate_capability_coverage :
    List VenueCapability → List VenueCapability → Option RegistrationError
validate_capability_coverage covered [] = none
validate_capability_coverage covered (c ∷ cs) =
    let rest = validate_capability_coverage covered cs in
    if has covered c then rest else some (not_covered c)

-- `validate_all`
unfoldable pub validate_all :
    List Venue → List Venue → List VenueCapability → Option RegistrationError
unfolding or_else
validate_all adapters venues all_capabilities =
    or_else (validate_registry_integrity adapters venues)
      (validate_capability_coverage all_capabilities all_capabilities)
