-- ===== src/Wallet/Laws.antt =====
-- Sessions of backend/app/services/wallet/session/manager.py end, and take their keys with them.
use polymarket_agent.Common.{
  ℕ, ◌+◌, ◌≤◌, ◌≡◌, ◌↔◌, refl, true, false, none, some, List, [], ◌∷◌, arith, if◌then◌else◌, ◌==◌,
  ltb, any,
}
use polymarket_agent.Common.Dict.{Dict, lookup, lookup-insert, lookup-erase}
use polymarket_agent.Wallet.{
  WalletCapabilityState, WalletSession, Manager, is_expired, create_session, destroy_session,
  get_session, expired_ids, destroy_all, is_sign_only, cleanup_expired,
  validate_session_for_signing, sign,
}

-- A new session is returned up to its lifetime, and from then on it is not, and it and the key of its
-- wallet are gone.
pub get_session-create :
    (now later id address key : ℕ) (capabilities : List WalletCapabilityState) (m : Manager)
    → let (s, m') = create_session now id address key capabilities m in
      let over = ltb (now + m.max_session_ttl) later in
      let (found, m'') = get_session later id m' in
      (found ≡ (if over then none else some s))
      × (lookup id m''.sessions ≡ (if over then none else some s))
      × (lookup address m''.keys ≡ (if over then none else some key))
unfolding get_session create_session destroy_session
get_session-create now later id address key capabilities m =
    grind (arith, lookup-insert, lookup-erase)

-- A destroyed session is gone, with the key of its wallet, which then signs nothing; every other session
-- and every other key stays.
pub destroy_session_lem :
    (id other address : ℕ) (s : WalletSession) (m : Manager) (hmac : ℕ → ℕ)
    → lookup id m.sessions ≡ some s
    → let m' = destroy_session id m in
      (lookup id m'.sessions ≡ none)
      × (sign hmac s.address m' ≡ none)
      × (lookup other m'.sessions ≡ (if other == id then none else lookup other m.sessions))
      × (sign hmac address m' ≡ (if address == s.address then none else sign hmac address m))
unfolding destroy_session sign
destroy_session_lem id other address s m hmac h = ground (
  arith,
  lookup-erase id id m.sessions,
  lookup-erase s.address s.address m.keys,
  lookup-erase other id m.sessions,
  lookup-erase address s.address m.keys,
)

-- what the ids in a list take out of the sessions
destroy_all_sessions :
    (ids : List ℕ) (id : ℕ) (m : Manager)
    → lookup id (destroy_all ids m).sessions
      ≡ (if any (λ j. id == j) ids then none else lookup id m.sessions)
unfolding destroy_all destroy_session
destroy_all_sessions [] id m = refl
destroy_all_sessions (j ∷ ids) id m =
    ground (arith, destroy_all_sessions ids id (destroy_session j m), lookup-erase id j m.sessions)

expired_ids_fresh :
    (now id : ℕ) (d : Dict WalletSession) (s : WalletSession)
    → lookup id d ≡ some s
    → is_expired now s ≡ true
    → any (λ j. id == j) (expired_ids now d) ≡ true
unfolding expired_ids is_expired
expired_ids_fresh now id [] s h e = ground arith
expired_ids_fresh now id ((i, t) ∷ d) s h e = ground (arith, expired_ids_fresh now id d s)

-- A clean-up leaves no expired session: whatever it leaves under an id was there and has not expired.
pub cleanup_expired_lem :
    (now id : ℕ) (m : Manager) (s : WalletSession)
    → lookup id (cleanup_expired now m).sessions ≡ some s
    → (lookup id m.sessions ≡ some s) × (is_expired now s ≡ false)
unfolding cleanup_expired
cleanup_expired_lem now id m s h = ground (
  arith,
  destroy_all_sessions (expired_ids now m.sessions) id m,
  expired_ids_fresh now id m.sessions s,
)

-- A session that is there may sign exactly when it has not expired, was not destroyed and has the
-- signing capability; the check destroys it when it has expired, and changes nothing otherwise.
pub validate_session_for_signing_lem :
    (now id : ℕ) (m : Manager) (s : WalletSession)
    → lookup id m.sessions ≡ some s
    → (((validate_session_for_signing now id m).0 ≡ true)
        ↔ ((now ≤ s.expires_at) × (s.destroyed ≡ false) × (any is_sign_only s.capabilities ≡ true)))
      × ((validate_session_for_signing now id m).1
          ≡ (if is_expired now s then destroy_session id m else m))
unfolding validate_session_for_signing get_session
validate_session_for_signing_lem now id m s h =
    ((λ v. ground arith, λ v. ground arith), ground arith)
