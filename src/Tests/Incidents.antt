-- ===== src/Tests/Incidents.antt =====
-- Incidents of backend/app/services/incidents/incident_service.py at a concrete state.
use polymarket_agent.Common.{◌≡◌, refl, none, [], ◌∷◌}
use polymarket_agent.Incidents.{Incident, Incidents, found, create_from_alert, get, new_incident}
use polymarket_agent.Incidents.Laws.{Reach, empty, alerted}

abbrev state : Incidents
state = create_from_alert 1 100 9 (record { local = []; stored = none })

abbrev incident : Incident
incident = new_incident 1 9 (9 ∷ []) 100

held : get 1 state ≡ found incident
unfolding get create_from_alert
held = refl

state-Reach : Reach state
state-Reach = alerted 1 100 9 (empty none)
