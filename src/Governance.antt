-- ===== src/Governance.antt =====
-- Who may do what in which execution mode: backend/app/domain/execution_authorization/models.py and
-- backend/app/services/execution/governance/execution_governor.py. The time stamp and the audit
-- record that `authorize` logs are not modelled, nor is the fingerprint that it copies into them.
pub mod Laws
use polymarket_agent.Common.{
  ℕ, Bool, true, false, Option, none, some, List, [], ◌∷◌, ◌&&◌, ◌==◌, if◌then◌else◌, any,
}

pub data ExecutionMode : Type 0 where
  disabled simulation sandbox live : ExecutionMode

pub data ExecutionPermission : Type 0 where
  build replay sign rpc_read rpc_simulate rpc_write capital_deploy : ExecutionPermission

pub data AuthorizationDecision : Type 0 where
  granted denied requires_approval : AuthorizationDecision

pub record ExecutionPolicy : Type 0 where
  pub mode : ExecutionMode
  pub allowed_permissions : List ExecutionPermission
  pub requires_explicit_approval : Bool

-- The two texts that `authorize` gives as a reason.
pub data DenialReason : Type 0 where
  explicit_approval_required : DenialReason
  not_allowed : ExecutionPermission → ExecutionMode → DenialReason

pub record ExecutionAuthorization : Type 0 where
  pub decision : AuthorizationDecision
  pub mode : ExecutionMode
  pub granted_permissions : List ExecutionPermission
  pub reason : Option DenialReason

-- the place of a permission in the enumeration, by which members are told apart
permission_index : ExecutionPermission → ℕ
permission_index build = 0
permission_index replay = 1
permission_index sign = 2
permission_index rpc_read = 3
permission_index rpc_simulate = 4
permission_index rpc_write = 5
permission_index capital_deploy = 6

-- `permission in permissions`
unfoldable pub allows : ExecutionPermission → List ExecutionPermission → Bool
unfolding permission_index
allows p ps = any (λ q. permission_index q == permission_index p) ps

is_granted : AuthorizationDecision → Bool
is_granted granted = true
is_granted _ = false

-- `ExecutionAuthorization.is_allowed`
unfoldable pub is_allowed : ExecutionAuthorization → ExecutionPermission → Bool
unfolding is_granted allows
is_allowed auth p = is_granted auth.decision && allows p auth.granted_permissions

-- `POLICIES`
unfoldable pub policies : ExecutionMode → ExecutionPolicy
policies disabled = record {
  mode = disabled;
  allowed_permissions = [];
  requires_explicit_approval = false;
}
policies simulation = record {
  mode = simulation;
  allowed_permissions = build ∷ replay ∷ rpc_read ∷ [];
  requires_explicit_approval = false;
}
policies sandbox = record {
  mode = sandbox;
  allowed_permissions = build ∷ replay ∷ sign ∷ rpc_read ∷ rpc_simulate ∷ [];
  requires_explicit_approval = false;
}
policies live = record {
  mode = live;
  allowed_permissions =
      build ∷ replay ∷ sign ∷ rpc_read ∷ rpc_simulate ∷ rpc_write ∷ capital_deploy ∷ [];
  requires_explicit_approval = true;
}

-- `ExecutionGovernor.authorize`
unfoldable pub authorize : ExecutionMode → ExecutionPermission → ExecutionAuthorization
unfolding policies allows
authorize mode permission =
    let policy = policies mode in
    if allows permission policy.allowed_permissions
    then (if policy.requires_explicit_approval
        then record {
          decision = requires_approval;
          mode = mode;
          granted_permissions = [];
          reason = some explicit_approval_required;
        }
        else record {
          decision = granted;
          mode = mode;
          granted_permissions = policy.allowed_permissions;
          reason = none;
        })
    else record {
      decision = denied;
      mode = mode;
      granted_permissions = [];
      reason = some (not_allowed permission mode);
    }

-- The shape of `authorize_execution`, `authorize_sign`, `authorize_rpc`, `authorize_simulate` and
-- `authorize_capital`: `none` is a return, `some` is an `ExecutionAuthorizationError`.
require : ExecutionMode → ExecutionPermission → Option (Option DenialReason)
unfolding authorize is_allowed
require mode permission =
    let auth = authorize mode permission in
    if is_allowed auth permission then none else some auth.reason

unfoldable pub authorize_execution : ExecutionMode → Option (Option DenialReason)
unfolding require
authorize_execution mode = require mode build

unfoldable pub authorize_sign : ExecutionMode → Option (Option DenialReason)
unfolding require
authorize_sign mode = require mode sign

unfoldable pub authorize_rpc : ExecutionMode → Bool → Option (Option DenialReason)
unfolding require
authorize_rpc mode write = require mode (if write then rpc_write else rpc_read)

unfoldable pub authorize_simulate : ExecutionMode → Option (Option DenialReason)
unfolding require
authorize_simulate mode = require mode rpc_simulate

unfoldable pub authorize_capital : ExecutionMode → Option (Option DenialReason)
unfolding require
authorize_capital mode = require mode capital_deploy
