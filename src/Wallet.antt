-- ===== src/Wallet.antt =====
-- Ephemeral wallet sessions: backend/app/services/wallet/session/manager.py,
-- backend/app/services/wallet/ephemeral_provider.py and backend/app/domain/wallet/session.py. Times are
-- readings of `time.time()` in milliseconds. The address of a new keypair and the id of a new session
-- come from random sources outside the repository, and are arguments. Keys are not looked into, and
-- the signature is an argument too.
pub mod Laws
use polymarket_agent.Common.{
  ℕ, ◌+◌, Bool, true, false, Option, none, some, ◌||◌, List, [], ◌∷◌, ltb, ◌==◌, if◌then◌else◌, any,
  is_some,
}
use polymarket_agent.Common.Dict.{Dict, lookup, insert, erase, contains}

pub data WalletCapabilityState : Type 0 where
  no_wallet simulation_only sign_only : WalletCapabilityState

-- The placeholder key of the wallet is always empty, and is left out.
pub record WalletSession : Type 0 where
  pub address : ℕ
  pub created_at : ℕ
  pub expires_at : ℕ
  pub capabilities : List WalletCapabilityState
  pub destroyed : Bool

-- `_keys` of the provider, address to key, and `_sessions`.
pub record Manager : Type 0 where
  pub max_session_ttl : ℕ
  pub keys : Dict ℕ
  pub sessions : Dict WalletSession

unfoldable pub init : ℕ → Manager
init ttl = record { max_session_ttl = ttl; keys = []; sessions = [] }

-- `WalletSession.is_expired`
unfoldable pub is_expired : ℕ → WalletSession → Bool
is_expired now s = ltb s.expires_at now

-- `create_session`, with `generate_keypair`
unfoldable pub create_session :
    ℕ → ℕ → ℕ → ℕ → List WalletCapabilityState → Manager → WalletSession × Manager
create_session now id address key capabilities m =
    let s : WalletSession = record {
      address = address;
      created_at = now;
      expires_at = now + m.max_session_ttl;
      capabilities = capabilities;
      destroyed = false;
    } in
    (s, record m { keys = insert address key m.keys; sessions = insert id s m.sessions })

destroy_found : ℕ → Option WalletSession → Manager → Manager
destroy_found id none m = m
destroy_found id (some s) m = record m {
  keys = erase s.address m.keys;
  sessions = erase id m.sessions;
}

-- `destroy_session`, with `EphemeralWalletProvider.destroy`
unfoldable pub destroy_session : ℕ → Manager → Manager
unfolding destroy_found
destroy_session id m = destroy_found id (lookup id m.sessions) m

get_found : ℕ → ℕ → Option WalletSession → Manager → Option WalletSession × Manager
get_found now id none m = (none, m)
get_found now id (some s) m =
    if is_expired now s
    then (none, destroy_session id m)
    else if s.destroyed
    then (none, m)
    else (some s, m)

unfoldable pub get_session : ℕ → ℕ → Manager → Option WalletSession × Manager
unfolding get_found is_expired
get_session now id m = get_found now id (lookup id m.sessions) m

-- the ids that `cleanup_expired` collects
unfoldable pub expired_ids : ℕ → Dict WalletSession → List ℕ
expired_ids now [] = []
expired_ids now ((id, s) ∷ d) =
    let rest = expired_ids now d in if ltb s.expires_at now || s.destroyed then id ∷ rest else rest

unfoldable pub destroy_all : List ℕ → Manager → Manager
destroy_all [] m = m
destroy_all (id ∷ ids) m = destroy_all ids (destroy_session id m)

unfoldable pub cleanup_expired : ℕ → Manager → Manager
cleanup_expired now m = destroy_all (expired_ids now m.sessions) m

unfoldable pub is_sign_only : WalletCapabilityState → Bool
is_sign_only sign_only = true
is_sign_only _ = false

can_sign : Option WalletSession → Bool
can_sign none = false
can_sign (some s) = any is_sign_only s.capabilities

unfoldable pub validate_session_for_signing : ℕ → ℕ → Manager → Bool × Manager
unfolding can_sign is_sign_only
validate_session_for_signing now id m =
    let (found, m') = get_session now id m in (can_sign found, m')

-- `EphemeralWalletProvider.sign`: `none` is the `ValueError` for an unknown address
unfoldable pub sign : (ℕ → ℕ) → ℕ → Manager → Option ℕ
sign hmac address m = elim (lookup address m.keys) [ none ↦ none | some key ↦ some (hmac key) ]
