-- ===== src/Capability.antt =====
-- What a venue supports: backend/app/domain/capabilities/*.py, and
-- backend/app/services/capabilities/capability_registry.py, capability_resolver.py and
-- capability_validator.py (`validate_intent` and `validate_plan`).
use polymarket_agent.Common.{
  ℕ, ◌≡◌, Bool, false, List, [], ◌∷◌, ◌++◌, ◌==◌, arith, if◌then◌else◌, any, not, nonempty, ltb,
}

pub data VenueCapability : Type 0 where
  quote routing transaction_building simulation execution replay : VenueCapability
  portfolio_feedback market_resolution multi_hop partial_fill slippage_model : VenueCapability

capability_index : VenueCapability → ℕ
capability_index quote = 0
capability_index routing = 1
capability_index transaction_building = 2
capability_index simulation = 3
capability_index execution = 4
capability_index replay = 5
capability_index portfolio_feedback = 6
capability_index market_resolution = 7
capability_index multi_hop = 8
capability_index partial_fill = 9
capability_index slippage_model = 10

-- The venues that are registered by default, and any other name.
pub data Venue : Type 0 where
  paper live polymarket live_jupiter : Venue
  unregistered : ℕ → Venue

-- `CapabilityResolver.resolve`: the capabilities in the registry, or none
unfoldable pub resolve : Venue → List VenueCapability
resolve paper =
    quote ∷ routing ∷ transaction_building ∷ simulation ∷ execution ∷ market_resolution ∷ replay
    ∷ portfolio_feedback ∷ []
resolve live = quote ∷ routing ∷ transaction_building ∷ execution ∷ []
resolve polymarket =
    quote ∷ routing ∷ transaction_building ∷ execution ∷ market_resolution ∷ replay
    ∷ portfolio_feedback ∷ []
resolve live_jupiter =
    quote ∷ routing ∷ transaction_building ∷ simulation ∷ execution ∷ multi_hop ∷ slippage_model
    ∷ replay ∷ portfolio_feedback ∷ []
resolve (unregistered n) = []

-- `VenueCapabilities.has`
unfoldable pub has : List VenueCapability → VenueCapability → Bool
unfolding capability_index
has supports c = any (λ d. capability_index d == capability_index c) supports

-- `CapabilityReport`; its warnings are written by `validate_result` alone, which is not modelled.
pub record CapabilityReport : Type 0 where
  pub supported : List VenueCapability
  pub missing : List VenueCapability

abbrev pub is_valid : CapabilityReport → Bool
is_valid report = not (nonempty report.missing)

abbrev empty_report : CapabilityReport
empty_report = record { supported = []; missing = [] }

-- a check that reports its capability as supported or as missing
demand : List VenueCapability → VenueCapability → CapabilityReport → CapabilityReport
unfolding has
demand supports c report =
    if has supports c
    then record report { supported = report.supported ++ c ∷ [] }
    else record report { missing = report.missing ++ c ∷ [] }

-- a check that only reports support
note : List VenueCapability → VenueCapability → CapabilityReport → CapabilityReport
unfolding has
note supports c report =
    if has supports c then record report { supported = report.supported ++ c ∷ [] } else report

unfoldable pub validate_intent : List VenueCapability → CapabilityReport
unfolding demand note
validate_intent supports =
    note supports market_resolution (note supports replay (demand supports execution empty_report))

-- What `validate_plan` reads of a plan.
pub record PlanShape : Type 0 where
  pub has_route : Bool
  pub hops : ℕ
  pub has_instructions : Bool
  pub has_slippage : Bool

unfoldable pub validate_plan : List VenueCapability → PlanShape → CapabilityReport
unfolding demand note
validate_plan supports plan =
    let quoted = demand supports quote empty_report in
    let routed =
      if plan.has_route
      then (let direct = demand supports routing quoted in
          if ltb 1 plan.hops then demand supports multi_hop direct else direct)
      else quoted in
    let built =
      if plan.has_instructions then demand supports transaction_building routed else routed in
    if plan.has_slippage then note supports slippage_model built else built

-- An intent is valid at exactly the venues that support execution: all that are registered by default,
-- and no other.
pub validate_intent-resolve :
    (venue : Venue) (n : ℕ)
    → (is_valid (validate_intent (resolve venue)) ≡ has (resolve venue) execution)
      × (is_valid (validate_intent (resolve (unregistered n))) ≡ false)
unfolding validate_intent resolve has
validate_intent-resolve venue n = ground arith
