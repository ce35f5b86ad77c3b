-- ===== src/Tests/Circuit.antt =====
-- The circuit of backend/app/core/circuit_breaker.py at concrete histories.
use polymarket_agent.Common.{◌≡◌, ◌≢◌, refl, some, arith}
use polymarket_agent.Circuit.{opened, half_open, Config, Circuit, init, state, record_failure}
use polymarket_agent.Circuit.Laws.{Reach, started, failed}

abbrev config : Config
config = record { failure_threshold = 2; window = 60000; recovery = 30000 }

abbrev tripped : Circuit
tripped = record_failure config 1500 (record_failure config 1000 init)

tripped-Reach : Reach config tripped 1500
tripped-Reach = failed 1500 (failed 1000 (started 1 (omega arith)) (omega arith)) (omega arith)

tripped_lem : (tripped.status ≡ opened) × (tripped.last_open_time ≡ some 1500)
unfolding record_failure init
tripped_lem = (refl, refl)

abbrev probing : Circuit
probing = (state config 31500 tripped).1

-- After the recovery the old failures are still in the window, so one more opens the circuit again; a
-- minute later it would not.
probe_fails :
    ((record_failure config 31600 probing).status ≡ opened)
    × ((record_failure config 62000 probing).status ≡ half_open)
unfolding state record_failure init
probe_fails = (refl, refl)

probing_lem : probing.status ≡ half_open
unfolding state record_failure init
probing_lem = refl

init_ne : init.status ≢ opened
unfolding init
init_ne = ground arith
