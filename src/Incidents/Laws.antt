-- ===== src/Incidents/Laws.antt =====
-- What backend/app/services/incidents/incident_service.py keeps of the incidents.
use polymarket_agent.Common.{
  Option-cases, inl, inr, ◌++◌, ◌≡◌, ◌≤◌, ◌⊎◌, ℕ, suc, true, Option, none, some, refl, List, [],
  ◌∷◌, arith, length, is_some,
}
use polymarket_agent.Incidents.{
  Incident, Incidents, Status, open_incident, resolved, found, answers, max_incidents, set, find,
  pop, oldest, evict, store, create_from_alert, create_from_breaker, get, get_stored, with_status,
  store_status, update_status, link_trade, link_alert, new_incident,
}

-- The states that the operations reach from a process that holds nothing.
pub data Reach : Incidents → Type 0 where
  empty : (xs : Option (List Incident)) → Reach (record { local = []; stored = xs })
  alerted :
      {s : Incidents} (id now alert_id : ℕ) → Reach s → Reach (create_from_alert id now alert_id s)
  broken : {s : Incidents} (id now name : ℕ) → Reach s → Reach (create_from_breaker id now name s)
  updated :
      {s : Incidents} (now id : ℕ) (status : Option Status)
      → Reach s
      → Reach (update_status now id status s).1
  linked_trade :
      {s : Incidents} (now id trade_id : ℕ) → Reach s → Reach (link_trade now id trade_id s).1
  linked_alert :
      {s : Incidents} (now id alert_id : ℕ) → Reach s → Reach (link_alert now id alert_id s).1

length-set :
    (i : Incident) (js : List Incident)
    → (length (set i js) ≡ length js) ⊎ (length (set i js) ≡ suc (length js))
unfolding set
length-set i [] = ground arith
length-set i (j ∷ js) = ground (arith, length-set i js)

length-pop :
    (id : ℕ) (js : List Incident)
    → is_some (find id js) ≡ true
    → suc (length (pop id js)) ≡ length js
unfolding pop find
length-pop id [] h = ground arith
length-pop id (j ∷ js) h = ground (arith, length-pop id js)

find-oldest :
    (j : Incident) (js : List Incident)
    → ((oldest j js).id ≡ j.id) ⊎ (is_some (find (oldest j js).id js) ≡ true)
unfolding find oldest
find-oldest j [] = ground arith
find-oldest j (k ∷ ks) = ground (arith, find-oldest j ks, find-oldest k ks)

find_head :
    (id : ℕ) (j : Incident) (js : List Incident)
    → (id ≡ j.id) ⊎ (is_some (find id js) ≡ true)
    → is_some (find id (j ∷ js)) ≡ true
unfolding find
find_head id j js h = ground arith

length-evict : (js : List Incident) → length js ≤ 501 → length (evict js) ≤ 500
unfolding evict max_incidents
length-evict [] h = omega arith
length-evict (j ∷ js) h =
    let o = oldest j js in
    ground (arith, length-pop o.id (j ∷ js) (find_head o.id j js (find-oldest j js)))

length-store :
    (i : Incident) (s : Incidents) → length s.local ≤ 500 → length (store i s).local ≤ 500
unfolding store
length-store i s h = ground (arith, length-evict (set i s.local), length-set i s.local)

abbrev traded : ℕ → ℕ → Incident → Incident
traded now id i = record i { linked_trades = i.linked_trades ++ id ∷ []; updated_at = now }

abbrev alerting : ℕ → ℕ → Incident → Incident
alerting now id i = record i { linked_alerts = i.linked_alerts ++ id ∷ []; updated_at = now }

-- A process never holds more than 500 incidents.
pub held_incidents : {s : Incidents} → Reach s → length s.local ≤ 500
unfolding create_from_alert create_from_breaker update_status store_status link_trade link_alert
held_incidents (empty xs) = omega arith
held_incidents (alerted {s = s} id now alert_id r) =
    length-store (new_incident id alert_id (alert_id ∷ []) now) s (held_incidents r)
held_incidents (broken {s = s} id now name r) =
    length-store (new_incident id name [] now) s (held_incidents r)
held_incidents (updated {s = s} now id none r) = ground (arith, held_incidents r)
held_incidents (updated {s = s} now id (some status) r) = elim (Option-cases (find id s.local)) [
  | inl e ↦ ground (arith, held_incidents r)
  | inr (i, e) ↦ ground (arith, e, length-store (with_status now status i) s (held_incidents r))
]
held_incidents (linked_trade {s = s} now id trade_id r) = elim (Option-cases (find id s.local)) [
  | inl e ↦ ground (arith, held_incidents r)
  | inr (i, e) ↦
      ground (arith, e, held_incidents r, length-store (traded now trade_id i) s (held_incidents r))
]
held_incidents (linked_alert {s = s} now id alert_id r) = elim (Option-cases (find id s.local)) [
  | inl e ↦ ground (arith, held_incidents r)
  | inr (i, e) ↦
      ground
        (arith, e, held_incidents r, length-store (alerting now alert_id i) s (held_incidents r))
]

found_id : (id : ℕ) (js : List Incident) (i : Incident) → find id js ≡ some i → i.id ≡ id
unfolding find
found_id id [] i h = ground arith
found_id id (j ∷ js) i h = ground (arith, found_id id js i)

find-set :
    (i k : Incident) (js : List Incident)
    → find i.id js ≡ some k
    → (find i.id (set i js) ≡ some i) × (length (set i js) ≡ length js)
unfolding find set
find-set i k [] h = ground arith
find-set i k (j ∷ js) h = ground (arith, find-set i k js)

evict_few : (js : List Incident) → length js ≤ 500 → evict js ≡ js
unfolding evict max_incidents
evict_few [] h = refl
evict_few (j ∷ js) h = ground arith

get-store :
    (i k : Incident) (s : Incidents)
    → length s.local ≤ 500
    → find i.id s.local ≡ some k
    → get i.id (store i s) ≡ found i
unfolding get store
get-store i k s l h = ground (arith, find-set i k s.local h, evict_few (set i s.local))

get_found : (id : ℕ) (i : Incident) (s : Incidents) → get id s ≡ found i → find id s.local ≡ some i
unfolding get get_stored
get_found id i s h = ground arith

-- An incident that the process holds takes the status that `update_status` is given, from any status, and
-- `get` then gives it. One that is opened again after its resolution keeps the time of that.
pub get-update_status :
    {s : Incidents} (now later id : ℕ) (status again : Status) (i : Incident)
    → Reach s
    → get id s ≡ found i
    → let (answer, s') = update_status now id (some status) s in
      let (answer', s'') = update_status later id (some again) s' in
      (answer ≡ answers true)
      × (get id s' ≡ found (with_status now status i))
      × (answer' ≡ answers true)
      × (get id s'' ≡ found (with_status later again (with_status now status i)))
      × ((status ≡ resolved)
          → (again ≡ open_incident)
          → (with_status later again (with_status now status i)).resolved_at ≡ some now)
unfolding update_status store_status with_status
get-update_status {s} now later id status again i r h =
    let e = get_found id i s h in
    let l = held_incidents r in
    let j = with_status now status i in
    let s' = store j s in
    let g = get-store j i s l in
    ground (
      arith,
      found_id id s.local i e,
      g,
      get_found id j s',
      length-store j s l,
      get-store (with_status later again j) j s',
    )
