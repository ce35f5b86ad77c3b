-- ===== src/Governance/Laws.antt =====
-- What the governor of backend/app/services/execution/governance/execution_governor.py lets through.
use polymarket_agent.Common.{◌≡◌, ◌↔◌, ◌≢◌, Bool, true, false, none, some, arith}
use polymarket_agent.Governance.{
  ExecutionMode, simulation, sandbox, live, ExecutionPermission, build, replay, sign, rpc_read,
  rpc_simulate, is_allowed, authorize, authorize_execution, authorize_sign, authorize_rpc,
  authorize_simulate, authorize_capital, explicit_approval_required, requires_approval,
}

-- The matrix of AUTHORIZATION_MATRIX.md as a relation: what each mode permits without approval.
pub data Permits : ExecutionMode → ExecutionPermission → Type 0 where
  simulation_build : Permits simulation build
  simulation_replay : Permits simulation replay
  simulation_read : Permits simulation rpc_read
  sandbox_build : Permits sandbox build
  sandbox_replay : Permits sandbox replay
  sandbox_sign : Permits sandbox sign
  sandbox_read : Permits sandbox rpc_read
  sandbox_simulate : Permits sandbox rpc_simulate

ruleset matrix = (
  simulation_build, simulation_replay, simulation_read, sandbox_build, sandbox_replay, sandbox_sign,
  sandbox_read, sandbox_simulate,
)

allowed-Permits :
    (mode : ExecutionMode) (p : ExecutionPermission)
    → is_allowed (authorize mode p) p ≡ true
    → Permits mode p
unfolding authorize is_allowed
allowed-Permits mode p h = grind (arith, matrix)

Permits-allowed :
    (mode : ExecutionMode) (p : ExecutionPermission)
    → Permits mode p
    → is_allowed (authorize mode p) p ≡ true
unfolding authorize is_allowed
Permits-allowed mode p simulation_build = ground arith
Permits-allowed mode p simulation_replay = ground arith
Permits-allowed mode p simulation_read = ground arith
Permits-allowed mode p sandbox_build = ground arith
Permits-allowed mode p sandbox_replay = ground arith
Permits-allowed mode p sandbox_sign = ground arith
Permits-allowed mode p sandbox_read = ground arith
Permits-allowed mode p sandbox_simulate = ground arith

-- The governor allows a permission exactly when the authorization matrix permits it without approval.
pub is_allowed_iff :
    (mode : ExecutionMode) (p : ExecutionPermission)
    → (is_allowed (authorize mode p) p ≡ true) ↔ Permits mode p
is_allowed_iff mode p = (allowed-Permits mode p, Permits-allowed mode p)

-- In live mode every permission asks for approval, and every guard of the governor raises: nothing
-- in the governor grants one.
pub authorize-live :
    (p : ExecutionPermission) (write : Bool)
    → ((authorize live p).decision ≡ requires_approval)
      × (is_allowed (authorize live p) p ≡ false)
      × (authorize_execution live ≡ some (some explicit_approval_required))
      × (authorize_sign live ≡ some (some explicit_approval_required))
      × (authorize_rpc live write ≡ some (some explicit_approval_required))
      × (authorize_simulate live ≡ some (some explicit_approval_required))
      × (authorize_capital live ≡ some (some explicit_approval_required))
unfolding authorize is_allowed authorize_execution authorize_sign authorize_rpc authorize_simulate
    authorize_capital
authorize-live p write = ground arith

-- No mode lets a write reach the chain or capital be deployed.
pub no_write_no_capital :
    (mode : ExecutionMode) → (authorize_rpc mode true ≢ none) × (authorize_capital mode ≢ none)
unfolding authorize_rpc authorize_capital
no_write_no_capital mode = ground arith
