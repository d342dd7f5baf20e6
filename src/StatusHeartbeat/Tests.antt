-- ===== src/StatusHeartbeat/Tests.antt =====
-- A heartbeat that is served, delayed and stopped.
use tankervision_pdb.Common.{
  true, false, ◌≡◌, refl, ◌+◌, ◌*◌, ◌%◌, ◌≤◌, if◌then◌else◌, List, [], ◌∷◌,
}
use tankervision_pdb.Common.Act.{◌>>=◌, call, continue, gets, modify, pure, stop_here}
use tankervision_pdb.BoardControl.Driver.{
  ask, tell, clear_error, require_ready, guard, fail, note_error,
}
use tankervision_pdb.BoardControl.Shutdown.{set_status_led}
use tankervision_pdb.BoardControl.Tests.{sim_rig, sim_clock, running}
use tankervision_pdb.StatusHeartbeat.{Beating, no_error, begin, led, now_ms, output_failed}
use tankervision_pdb.StatusHeartbeat.Cadence.{Event, serve, halted, busy, run, run-cadence}

abbrev idle : Beating sim_rig
idle = record {
  heartbeat = record {
    running = false;
    level = false;
    last_transition_at = 0;
    transitions = 0;
    error = no_error;
  };
  system = running false false;
}

begin_succeeds : (begin sim_rig idle).0 ≡ true
unfolding begin led now_ms output_failed set_status_led ◌>>=◌ call continue gets modify pure
    stop_here ask tell clear_error require_ready guard fail note_error
begin_succeeds = refl

abbrev events : List Event
events = serve ∷ busy 600 ∷ serve ∷ serve ∷ busy 1800 ∷ serve ∷ serve ∷ halted ∷ []

run-cadence_example :
    let t = run sim_rig events (begin sim_rig idle).1 in
    (500 * t.heartbeat.transitions + 5000 ≤ t.system.world.clock + 500)
    × (t.heartbeat.transitions % 2 ≡ (if t.heartbeat.level then 1 else 0))
run-cadence_example = run-cadence sim_rig sim_clock events idle begin_succeeds
