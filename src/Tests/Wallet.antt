-- ===== src/Tests/Wallet.antt =====
-- Wallet sessions of backend/app/services/wallet/session/manager.py at a concrete manager.
use polymarket_agent.Common.{◌+◌, ◌≡◌, refl, none, some, [], ◌∷◌, ltb, if◌then◌else◌}
use polymarket_agent.Common.Dict.{lookup}
use polymarket_agent.Wallet.{
  sign_only, WalletSession, Manager, create_session, get_session, cleanup_expired, expired_ids,
  destroy_all,
}
use polymarket_agent.Wallet.Laws.{get_session-create}

abbrev empty : Manager
empty = record { max_session_ttl = 1800000; keys = []; sessions = [] }

abbrev session : WalletSession
session = (create_session 100 1 7 9 (sign_only ∷ []) empty).0

abbrev one : Manager
one = (create_session 100 1 7 9 (sign_only ∷ []) empty).1

found : lookup 1 one.sessions ≡ some session
unfolding create_session
found = refl

get_session-create_example :
    let over = ltb (100 + 1800000) 200 in
    let (found', m'') = get_session 200 1 one in
    (found' ≡ (if over then none else some session))
    × (lookup 1 m''.sessions ≡ (if over then none else some session))
    × (lookup 7 m''.keys ≡ (if over then none else some 9))
get_session-create_example = get_session-create 100 200 1 7 9 (sign_only ∷ []) empty

kept : lookup 1 (cleanup_expired 200 one).sessions ≡ some session
unfolding create_session cleanup_expired expired_ids destroy_all
kept = refl
