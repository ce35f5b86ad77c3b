-- ===== src/Incidents.antt =====
-- `IncidentService` of backend/app/services/incidents/incident_service.py: the incidents that a process
-- holds, those in Redis, the cap on the first, and the changes of one. Texts are numbers, but for the
-- status. Broadcasts, log lines and the audit trail are not modelled. The client of Redis decodes its
-- answers (backend/app/redis.py), so that a stored incident is read as a `str`.
pub mod Laws
use polymarket_agent.Common.{
  ℕ, ◌+◌, ◌==◌, Bool, true, false, Option, none, some, List, [], ◌∷◌, ◌++◌, ltb, leb, if◌then◌else◌,
  any, length,
}

pub data Status : Type 0 where
  open_incident investigating mitigated resolved : Status

pub record Incident : Type 0 where
  pub id : ℕ
  pub source_id : ℕ
  pub linked_alerts : List ℕ
  pub linked_trades : List ℕ
  pub status : Status
  pub created_at : ℕ
  pub updated_at : ℕ
  pub resolved_at : Option ℕ

-- `_local_incidents` in the order of its keys, and the hash in Redis, `none` where Redis is down
pub record Incidents : Type 0 where
  pub local : List Incident
  pub stored : Option (List Incident)

-- What `get` does; `attribute_error` is that of `raw.decode()` on a `str`.
pub data Found : Type 0 where
  found : Incident → Found
  missing attribute_error : Found

-- What a change of an incident does: it returns a truth value or raises.
pub data Answer : Type 0 where
  answers : Bool → Answer
  raises : Answer

unfoldable pub max_incidents : ℕ
max_incidents = 500

-- `d[incident["id"]] = incident`
unfoldable pub set : Incident → List Incident → List Incident
set i [] = i ∷ []
set i (j ∷ js) = let rest = set i js in if j.id == i.id then i ∷ js else j ∷ rest

unfoldable pub find : ℕ → List Incident → Option Incident
find id [] = none
find id (j ∷ js) = let rest = find id js in if j.id == id then some j else rest

unfoldable pub pop : ℕ → List Incident → List Incident
pop id [] = []
pop id (j ∷ js) = let rest = pop id js in if j.id == id then js else j ∷ rest

-- `min(..., key=created_at)`: the first of the oldest, where `j` is the first of all
unfoldable pub oldest : Incident → List Incident → Incident
oldest j [] = j
oldest j (k ∷ ks) = oldest (if ltb k.created_at j.created_at then k else j) ks

unfoldable pub evict : List Incident → List Incident
unfolding pop oldest max_incidents
evict [] = []
evict (j ∷ js) =
    if ltb max_incidents (length (j ∷ js)) then pop (oldest j js).id (j ∷ js) else j ∷ js

-- `_store`
unfoldable pub store : Incident → Incidents → Incidents
unfolding set evict
store i s = record {
  local = evict (set i s.local);
  stored = elim s.stored [ none ↦ none | some xs ↦ some (set i xs) ];
}

unfoldable pub new_incident : ℕ → ℕ → List ℕ → ℕ → Incident
new_incident id source_id linked_alerts now = record {
  id = id;
  source_id = source_id;
  linked_alerts = linked_alerts;
  linked_trades = [];
  status = open_incident;
  created_at = now;
  updated_at = now;
  resolved_at = none;
}

-- `create_from_alert`; `id` is a new id
unfoldable pub create_from_alert : ℕ → ℕ → ℕ → Incidents → Incidents
unfolding store new_incident
create_from_alert id now alert_id s = store (new_incident id alert_id (alert_id ∷ []) now) s

-- `create_from_breaker`
unfoldable pub create_from_breaker : ℕ → ℕ → ℕ → Incidents → Incidents
unfolding store new_incident
create_from_breaker id now name s = store (new_incident id name [] now) s

unfoldable pub get_stored : ℕ → Option (List Incident) → Found
unfolding find
get_stored id none = missing
get_stored id (some xs) = elim (find id xs) [ none ↦ missing | some i ↦ attribute_error ]

unfoldable pub get : ℕ → Incidents → Found
unfolding find get_stored
get id s = elim (find id s.local) [ none ↦ get_stored id s.stored | some i ↦ found i ]

unfoldable pub with_status : ℕ → Status → Incident → Incident
with_status now status i = record i {
  status = status;
  updated_at = now;
  resolved_at = elim status [ resolved ↦ some now | _ ↦ i.resolved_at ];
}

unfoldable pub store_status : ℕ → Option Status → Incident → Incidents → Answer × Incidents
unfolding with_status store
store_status now none i s = (answers false, s)
store_status now (some status) i s = (answers true, store (with_status now status i) s)

-- `update_status`; `none` is a text that is no status
unfoldable pub update_status : ℕ → ℕ → Option Status → Incidents → Answer × Incidents
unfolding get store_status
update_status now id status s = elim (get id s) [
  | missing ↦ (answers false, s)
  | attribute_error ↦ (raises, s)
  | found i ↦ store_status now status i s
]

-- `link_trade`
unfoldable pub link_trade : ℕ → ℕ → ℕ → Incidents → Answer × Incidents
unfolding get store
link_trade now id trade_id s = elim (get id s) [
  | missing ↦ (answers false, s)
  | attribute_error ↦ (raises, s)
  | found i ↦ (
    answers true,
    if any (λ t. t == trade_id) i.linked_trades
        then s
        else store (record i { linked_trades = i.linked_trades ++ trade_id ∷ []; updated_at = now })
            s,
  )
]

-- `link_alert`
unfoldable pub link_alert : ℕ → ℕ → ℕ → Incidents → Answer × Incidents
unfolding get store
link_alert now id alert_id s = elim (get id s) [
  | missing ↦ (answers false, s)
  | attribute_error ↦ (raises, s)
  | found i ↦ (
    answers true,
    if any (λ t. t == alert_id) i.linked_alerts
        then s
        else store (record i { linked_alerts = i.linked_alerts ++ alert_id ∷ []; updated_at = now })
            s,
  )
]
