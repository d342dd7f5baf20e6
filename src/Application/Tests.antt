-- ===== src/Application/Tests.antt =====
-- An application on a desk: a fixed snapshot, a clock that stands, and the ports it was asked for.
use tankervision_pdb.Common.{
  ℕ, Bool, true, false, ◌≡◌, ◌⊎◌, inr, ◌==◌, if◌then◌else◌, List, [], ◌∷◌, replicate, refl, arith,
  codes, some, ◌++◌,
}
use tankervision_pdb.Common.Act.{after}
use tankervision_pdb.BoardHardware.State.{Port, HwResult, HardwareSnapshot, no_error, vbus}
use tankervision_pdb.BoardHardware.Tests.{tenths, sources}
use tankervision_pdb.PowerDelivery.Bus.{PdResult, PdError}
use tankervision_pdb.PowerManager.State.{Manager, fresh, running, power_off, cut_power}
use tankervision_pdb.Protocol.Request.{Request, empty_request, fingerprint, port_set}
use tankervision_pdb.Protocol.ReplayCache
use tankervision_pdb.Protocol.ReplayCache.{Reply, same, conflict}
use tankervision_pdb.Protocol.Replay.{IsSized}
use tankervision_pdb.Application.State.{Application, Parts, nothing_yet, response}
use tankervision_pdb.Application.Output.{respond}
use tankervision_pdb.Application.Handle.{handle, replayed}
use tankervision_pdb.Application.Actions.{service_action}
use tankervision_pdb.Application.Remembered.{handle_all}
use tankervision_pdb.Application.Replayed.{handle-repeated, last_body}
use tankervision_pdb.Application.Ports.{Allowed, handle-untouched}
use tankervision_pdb.Application.Release.{Lasting, service_action-released}
use tankervision_pdb.Common.{◌≤◌}
use tankervision_pdb.Common.Act.{◌>>=◌}
use tankervision_pdb.PowerManager.State.{Inputs}
use tankervision_pdb.PowerManager.Actions.{start, complete_action, request_full_reboot}
use tankervision_pdb.PowerManager.Tick.{
  tick, run_stages, note_pong, power_off_stage, settling_stage, main_loss_stage, deadline_stage,
  completion_stage, waiting_stage, supervise_stage, progress_stage, request_stage, act_stage,
}
use tankervision_pdb.PowerManager.Runs.{Call, ticked, completed, run, step, run-Inv}
use tankervision_pdb.Application.Output.{ask, main_present, main_from, hand_over}
use tankervision_pdb.Application.Loop.{
  supervise, carry_on, note_fault, report_phase, run_manager, budget_lost, status_valid, fault_seen,
  forget_received, status_in_time, note_phase, observation,
}
use tankervision_pdb.Application.Supervised.{supervise_sound}

record Desk : Type 0 where
  clock : ℕ
  is_busy : Bool
  ports : List Port
  let_go : Bool

abbrev desk_with : HardwareSnapshot tenths → Parts tenths
desk_with h = record {
  World = Desk;
  millis = λ w. (w.clock, w);
  restart = λ w. w;
  snapshot = λ w. h;
  busy = λ w. w.is_busy;
  result = λ w. HwResult.succeeded;
  error = λ w. no_error;
  start_reconcile = λ w. (true, w);
  start_prepare_charge = λ w. (true, w);
  start_enable_charge = λ w. (true, w);
  start_disable_charging = λ w. (true, w);
  start_restore_por = λ w. (true, w);
  start_port = λ p on w. (true, record w { ports = p ∷ w.ports });
  set_backup = λ on w. (true, w);
  release_backup_for_shutdown = λ w. (true, record w { let_go = true });
  pd_poll = λ on w. (true, w);
  pd_start_budget = λ w. (true, w);
  pd_cancel = λ w. w;
  pd_result = λ w. PdResult.succeeded;
  pd_error = λ w. PdError.no_error;
  pd_budget_valid = λ w. (true, w);
}

abbrev desk : Parts tenths
desk = desk_with sources

abbrev at_rest : Desk
at_rest = record { clock = 1000; is_busy = false; ports = []; let_go = false }

abbrev application_with :
    (h : HardwareSnapshot tenths) → Manager tenths → Desk → Application tenths (desk_with h)
application_with h m w = record {
  world = w;
  manager = m;
  replay = ReplayCache.empty;
  boot_id = codes "0000ABCD" ++ (0 ∷ []);
  last_error = nothing_yet;
  sent = [];
  sequence = 0;
  telemetry_count = 0;
  active_action = 7;
  action_at = 100;
  action_stage = 0;
  release_at = 0;
  ping_id = 0;
  ping_at = 0;
  last_pong_at = 0;
  shutdown_id = 0;
  last_shutdown_event = 0;
  external_request = 0;
  external_port = vbus;
  external_enabled = false;
  received_ack = false;
  received_ready = false;
  received_pong = false;
  pong_seen = false;
  released = false;
  dc_budget = false;
  charge_expected = false;
  charge_enabled_at = 0;
  shed_unbacked = false;
  cleanup_stage = 0;
  reported_phase = running;
}

abbrev application : Manager tenths → Desk → Application tenths desk
application = application_with sources

abbrev up : Application tenths desk
up = application (record (fresh tenths) { phase = running }) at_rest

abbrev waiting : Application tenths desk
waiting = application (fresh tenths) at_rest

abbrev port_request : ℕ → Request
port_request id = record empty_request {
  command = port_set;
  id = id;
  boot_id = codes "0000ABCD" ++ (0 ∷ []);
  port = codes "vbus" ++ replicate 20 0;
  enabled = true;
}

empty-IsSized : IsSized ReplayCache.empty
empty-IsSized = record { slots = refl; in_range = omega arith }

-- A port is commanded, a second request comes between, and the first is sent again.
handle-repeated_example :
    let t = after (handle tenths desk (port_request 5)) up in
    let u = handle_all (port_request 6 ∷ []) t in
    let m =
      if fingerprint (port_request 5) == fingerprint (port_request 5) then same else conflict in
    (y : Reply) × (last_body t ≡ some (response 5 y.ok y.code))
    × (handle tenths desk (port_request 5) u
        ≡ respond tenths desk 5 (replayed m y).ok (replayed m y).code u)
unfolding ReplayCache.find
handle-repeated_example =
    handle-repeated (port_request 5) (port_request 5) (port_request 6 ∷ []) up refl refl
      (omega arith) empty-IsSized refl refl (omega arith) (omega arith, tt)

handle-untouched_example :
    ((after (handle tenths desk (port_request 5)) waiting).world.ports ≡ [])
    ⊎ Allowed (port_request 5) waiting
handle-untouched_example =
    handle-untouched (λ w. w.ports ≡ []) (port_request 5) waiting
      (record { at_millis = λ w h. h; at_budget = λ w h. h }) refl

-- The board hangs, and 900 ms have passed.
abbrev cutting : Application tenths desk
cutting =
    application
      (record (fresh tenths) { phase = power_off; pending = record { kind = cut_power; id = 7 } })
      (record at_rest { is_busy = true })

let_go_lasts : Lasting desk (λ w. w.let_go ≡ true)
let_go_lasts = record { at_release = λ w. refl; at_millis = λ w h. h; at_restart = λ w h. h }

service_action-released_example :
    let u = after (service_action tenths desk) cutting in
    (u.released ≡ true) × ((false ≡ true) ⊎ (u.world.let_go ≡ true))
service_action-released_example =
    service_action-released cutting let_go_lasts refl refl (inr (omega arith))

-- The bank at 15 V, everything good.
abbrev good : Inputs tenths
good = record {
  status_valid = true;
  main_present = true;
  vcap_v = 150;
  boost_power_good = true;
  charge_fault = false;
  shutdown_ack = false;
  final_ready = false;
  jetson_pong = false;
}

abbrev calls : List (Call tenths)
calls = ticked 10000 good ∷ completed 1 true ∷ ticked 10100 good ∷ completed 2 true ∷ []

abbrev recent : HardwareSnapshot tenths
recent = record sources { at_ms = 10150; internal = record (sources.internal) { at_ms = 10150 } }

abbrev charging : Application tenths (desk_with recent)
charging =
    application_with recent (run tenths calls (start tenths 0 (fresh tenths)))
      (record { clock = 10200; is_busy = false; ports = []; let_go = false })

supervise_sound_example :
    (recent.internal.valid ≡ true)
    × (recent.boost_pg ≡ true)
    × (recent.charger_pg ≡ true)
    × (1300 ≤ recent.ts_mv)
    × (recent.ts_mv ≤ 2350)
unfolding run step start complete_action request_full_reboot tick run_stages note_pong
    power_off_stage settling_stage main_loss_stage deadline_stage completion_stage waiting_stage
    supervise_stage progress_stage request_stage act_stage supervise carry_on note_fault
    report_phase run_manager budget_lost status_valid main_present fault_seen forget_received ◌>>=◌
    status_in_time main_from ask note_phase hand_over observation
supervise_sound_example =
    supervise_sound charging refl (run-Inv tenths calls 0 (fresh tenths) (omega arith)) refl
