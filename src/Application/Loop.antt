-- ===== src/Application/Loop.antt =====
-- The supervision in `loopDeployment`: the observation for the manager, and the outputs that are shed
-- while the Jetson shuts down.
use tankervision_pdb.Common.{
  ℕ, Bool, false, not, Floats, ◌==◌, ◌&&◌, ◌||◌, leb, ltb, if◌then◌else◌, sub32, shr, low_bits,
}
use tankervision_pdb.Common.Act.{pure, gets, modify, ◌>>=◌, ◌>>◌}
use tankervision_pdb.BoardHardware.State.{ExpanderState, HardwareSnapshot, vbus, five_volt_vbus}
use tankervision_pdb.PowerManager.State.{Inputs, is_phase, shutdown_wait}
use tankervision_pdb.PowerManager.Tick.{tick}
use tankervision_pdb.Application.State.{
  Application, Parts, hardware, state_changed, charger_budget_unverified,
  charger_status_unavailable, charger_temperature_invalid, charger_power_good_lost,
  charger_control_invalid,
}
use tankervision_pdb.Application.Output.{
  Method, now, view, main_present, source_budget_valid, remember_error, hand_over,
}
use tankervision_pdb.Application.Outcomes.{hw_succeeded, try_operation}

module _ (F : Floats) (D : Parts F) where
  unfoldable pub ts_invalid : HardwareSnapshot F → Bool
  ts_invalid h = ltb h.ts_mv 1300 || ltb 2350 h.ts_mv

  unfoldable pub readings_fault : HardwareSnapshot F → Bool
  unfolding ts_invalid
  readings_fault h = not h.internal.valid || (not h.boost_pg || (not h.charger_pg || ts_invalid h))

  -- What the expander reads back is not what charging sets.
  unfoldable pub control_fault : ExpanderState → Bool
  control_fault r =
      not (r.config.low == 0xff)
      || (not (r.config.high_byte == 0xe0)
          || (not (r.polarity.low == 0)
              || (not (r.polarity.high_byte == 0)
                  || (not (low_bits r.output.high_byte 4 == 3)
                      || not (low_bits (shr r.physical_inputs 8) 4 == 3)))))

  -- Only a sample that was taken after CE was raised is compared.
  unfoldable pub control_due : HardwareSnapshot F → Application F D → Bool
  control_due h s = s.charge_expected && ltb (sub32 h.internal.at_ms s.charge_enabled_at) 0x80000000

  unfoldable pub status_in_time : HardwareSnapshot F → Method F D Bool
  status_in_time h = do t ← now F D; pure (leb (sub32 t h.at_ms) 350)

  unfoldable pub status_valid : HardwareSnapshot F → Method F D Bool
  status_valid h = if not h.main_selected || h.internal.valid then status_in_time h else pure false

  unfoldable pub budget_wrong : Method F D Bool
  budget_wrong = do valid ← source_budget_valid F D; pure (not valid)

  unfoldable pub budget_lost : Method F D Bool
  budget_lost = do s ← gets (λ s. s); if s.charge_expected then budget_wrong else pure false

  unfoldable pub observation : HardwareSnapshot F → Bool → Bool → Bool → Application F D → Inputs F
  unfolding readings_fault control_fault control_due
  observation h status main lost s = record {
    status_valid = status;
    main_present = main;
    vcap_v = h.vcap_v;
    boost_power_good = h.boost_pg;
    charge_fault = readings_fault h || (lost || (control_due h s && control_fault h.internal));
    shutdown_ack = s.received_ack;
    final_ready = s.received_ready;
    jetson_pong = s.received_pong;
  }

  unfoldable pub fault_text : HardwareSnapshot F → Bool → Method F D (Unit {0})
  fault_text h budget =
      if not budget
      then remember_error F D charger_budget_unverified
      else if ts_invalid h
      then remember_error F D charger_temperature_invalid
      else if not h.boost_pg || not h.charger_pg
      then remember_error F D charger_power_good_lost
      else remember_error F D charger_control_invalid

  unfoldable pub name_fault : HardwareSnapshot F → Method F D (Unit {0})
  name_fault h = do budget ← source_budget_valid F D; fault_text h budget

  unfoldable pub fault_seen : HardwareSnapshot F → Bool → Method F D (Unit {0})
  fault_seen h seen =
      if not seen
      then pure tt
      else if not h.internal.valid
      then remember_error F D charger_status_unavailable
      else name_fault h

  unfoldable pub note_fault : HardwareSnapshot F → Inputs F → Method F D (Unit {0})
  note_fault h i = do
    s ← gets (λ s. s)
    main ← if s.manager.charging_enabled_expected then main_present F D else pure false
    fault_seen h (main && i.charge_fault)

  unfoldable pub forget_received : Application F D → Application F D
  forget_received s = record s {
    received_ack = false;
    received_ready = false;
    received_pong = false;
  }

  unfoldable pub note_phase : Application F D → Method F D (Unit {0})
  note_phase s = do
    modify (λ t. record t {
      reported_phase = s.manager.phase;
      shutdown_id =
          if is_phase shutdown_wait s.manager.phase && t.shutdown_id == 0 then 1 else t.shutdown_id;
    })
    hand_over F D (state_changed s.manager.phase)

  unfoldable pub report_phase : Method F D (Unit {0})
  report_phase = do
    s ← gets (λ s. s)
    if is_phase s.manager.phase s.reported_phase then pure tt else note_phase s

  unfoldable pub run_manager : Inputs F → Method F D (Unit {0})
  run_manager i = do t ← now F D; modify (λ s. record s { manager = tick F t i s.manager })

  unfoldable pub carry_on : HardwareSnapshot F → Inputs F → Method F D (Unit {0})
  carry_on h i = do note_fault h i; modify forget_received; run_manager i; report_phase

  -- From the snapshot to the manager's tick and the message of a new phase.
  unfoldable pub supervise : Method F D (Unit {0})
  supervise = do
    h ← view F D D.snapshot
    status ← status_valid h
    main ← main_present F D
    lost ← budget_lost
    s ← gets (λ s. s)
    carry_on h (observation h status main lost s)

  abbrev pub go_to : ℕ → Method F D (Unit {0})
  go_to n = modify (λ s. record s { cleanup_stage = n })

  -- The last operation's failure is remembered.
  unfoldable pub check_result : Method F D (Unit {0})
  check_result = do
    done ← view F D (λ w. hw_succeeded (D.result w))
    e ← view F D D.error
    if done then pure tt else remember_error F D (hardware e)

  unfoldable pub charger_stopped : Method F D (Unit {0})
  charger_stopped = do
    done ← view F D (λ w. hw_succeeded (D.result w))
    e ← view F D D.error
    if done
        then modify (λ s. record s { charge_expected = false })
        else remember_error F D (hardware e)
    go_to 2

  unfoldable pub shed_vbus : Method F D (Unit {0})
  shed_vbus = do try_operation F D (D.start_port vbus false); go_to 3

  unfoldable pub shed_five_volt : Method F D (Unit {0})
  shed_five_volt = do check_result; try_operation F D (D.start_port five_volt_vbus false); go_to 4

  unfoldable pub finish_cleanup : Method F D (Unit {0})
  finish_cleanup = do check_result; go_to 5

  unfoldable pub cleanup_stage_of : ℕ → Bool → Method F D (Unit {0})
  cleanup_stage_of n shed =
      if n == 1
      then charger_stopped
      else if n == 2 && shed
      then shed_vbus
      else if n == 3
      then shed_five_volt
      else if n == 4
      then finish_cleanup
      else pure tt

  unfoldable pub note_shed : Inputs F → Application F D → Application F D
  note_shed i s = record s {
    shed_unbacked = s.shed_unbacked || (i.status_valid && not i.main_present);
  }

  -- While the Jetson shuts down: one stage at a time, each when the board is idle.
  unfoldable pub clean_up : Inputs F → Method F D (Unit {0})
  clean_up i = do
    modify (note_shed i)
    s ← gets (λ s. s)
    if D.busy s.world then pure tt else cleanup_stage_of s.cleanup_stage s.shed_unbacked
