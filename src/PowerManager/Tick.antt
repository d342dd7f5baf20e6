-- ===== src/PowerManager/Tick.antt =====
-- `PowerManager::tick` (PowerManager.cpp), cut at its early returns into stages that run in the
-- source's order. A stage says whether the tick returns there.
use tankervision_pdb.Common.{
  ℕ, Bool, true, false, not, Floats, ◌||◌, ◌&&◌, if◌then◌else◌, leb, sub32,
}
use tankervision_pdb.PowerManager.State.{
  Phase, is_phase, is_action, flag, Inputs, Manager, shutdown_ms, settling_ms, no_rise_ms,
  maximum_charge_ms, action_timeout_ms, prepare_timeout_ms, boost_pg_timeout_ms, significant_rise_v,
  charge_target_v, maximum_v, backup_arm_v, settling, charge_prepare, charging, jetson_starting,
  running, shutdown_wait, power_off, no_action, prepare_charging, enable_charging, stop_charging,
  arm_backup, enable_jetson, ping_jetson, cut_power, main_loss, status_unavailable, invalid_voltage,
  charger_fault, charge_no_rise, action_timed_out, boost_power_good_timeout, charge_overvoltage,
  charge_time_limit, main_unavailable_at_startup,
}
use tankervision_pdb.PowerManager.Actions.{
  issue_action, add_issue, leave_charging, start_shutdown, finish_action,
}

pub data Flow {ℓ} (A : Type ℓ) : Type ℓ where
  return_now : A → Flow A
  go_on : A → Flow A

infixl 5 ◌>>=◌
abbrev pub ◌>>=◌ {ℓ} : {A : Type ℓ} → Flow A → (A → Flow A) → Flow A
return_now s >>= k = return_now s
go_on s >>= k = k s

abbrev pub final {ℓ} : {A : Type ℓ} → Flow A → A
final (return_now s) = s
final (go_on s) = s

module _ (F : Floats) where
  open F use {Float, is_finite, le, lt, add, lit}

  unfoldable pub voltage_valid : Float → Bool
  voltage_valid v = is_finite v && le (lit 0 1) v

  -- The lines before the settling window.
  unfoldable pub note_inputs : Inputs F → Manager F → Manager F
  unfolding add_issue voltage_valid
  note_inputs i s =
      let t = if i.status_valid then s else add_issue F (flag status_unavailable) s in
      if i.status_valid && not (voltage_valid i.vcap_v)
      then add_issue F (flag invalid_voltage) t
      else t

  unfoldable pub note_pong : Inputs F → Manager F → Manager F
  note_pong i s = if i.jetson_pong then record s { jetson_pong_seen = true } else s

  -- `PowerOff` only collects the last result.
  unfoldable pub power_off_stage : ℕ → Inputs F → Manager F → Flow (Manager F)
  unfolding finish_action note_inputs
  power_off_stage now i s =
      if is_phase power_off s.phase
      then return_now (if s.completed then finish_action F s.completion_success now i s else s)
      else go_on (note_inputs i s)

  -- The ten-second settling window.
  unfoldable pub settling_stage : ℕ → Inputs F → Manager F → Flow (Manager F)
  unfolding add_issue
  settling_stage now i s =
      if is_phase settling s.phase
      then (if leb settling_ms (sub32 now s.phase_at)
          then go_on (
              let t = record s { phase = charge_prepare; phase_at = now } in
              if i.status_valid && not i.main_present
              then add_issue F (flag main_unavailable_at_startup) t
              else t)
          else return_now s)
      else go_on s

  -- Main loss starts the shutdown.
  unfoldable pub main_loss_stage : ℕ → Inputs F → Manager F → Manager F
  unfolding start_shutdown
  main_loss_stage now i s =
      if not (is_phase shutdown_wait s.phase) && i.status_valid && not i.main_present
      then start_shutdown F now main_loss s
      else s

  -- The deadline, ahead of all completions and timeouts.
  unfoldable pub deadline_stage : ℕ → Inputs F → Manager F → Flow (Manager F)
  unfolding issue_action
  deadline_stage now i s =
      if is_phase shutdown_wait s.phase
      then (let t = record s {
        shutdown_ack_seen = s.shutdown_ack_seen || i.shutdown_ack;
        final_ready_seen = s.final_ready_seen || i.final_ready;
      } in
          if leb shutdown_ms (sub32 now t.shutdown_at)
          then return_now (issue_action F cut_power now (record t { phase = power_off }))
          else go_on t)
      else go_on s

  -- The result of the pending action, or its timeout.
  unfoldable pub completion_stage : ℕ → Inputs F → Manager F → Manager F
  unfolding finish_action add_issue
  completion_stage now i s =
      let limit =
        if is_action prepare_charging s.pending.kind
        then prepare_timeout_ms
        else action_timeout_ms in
      if s.completed
      then finish_action F s.completion_success now i s
      else (if not (is_action no_action s.pending.kind) && leb limit (sub32 now s.pending_at)
          then finish_action F false now i (add_issue F (flag action_timed_out) s)
          else s)

  unfoldable pub waiting_stage : Manager F → Flow (Manager F)
  waiting_stage s = if is_phase shutdown_wait s.phase then return_now s else go_on s

  -- Whether the charging checks apply.
  unfoldable pub supervised : Manager F → Bool
  supervised s =
      is_phase charge_prepare s.phase && s.prepared
      || is_phase charging s.phase
      || s.charging_enabled_expected

  -- The charging checks, first match.
  unfoldable pub supervise_stage : Inputs F → Manager F → Manager F
  unfolding supervised leave_charging voltage_valid
  supervise_stage i s =
      if supervised s
      then (if not i.status_valid
          then leave_charging F (flag status_unavailable) s
          else if not (voltage_valid i.vcap_v)
          then leave_charging F (flag invalid_voltage) s
          else if le (maximum_v F) i.vcap_v
          then leave_charging F (flag charge_overvoltage) s
          else if (s.prepared || is_phase charging s.phase) && i.charge_fault
          then leave_charging F (flag charger_fault) s
          else if s.charging_enabled_expected && not i.boost_power_good
          then leave_charging F (flag charger_fault) s
          else if is_phase charging s.phase && lt (charge_target_v F) i.vcap_v
          then record s { maintenance = true; phase = jetson_starting }
          else s)
      else s

  -- The limits on the initial charge: its time, and the time without a significant rise.
  unfoldable pub progress_stage : ℕ → Inputs F → Manager F → Manager F
  unfolding leave_charging
  progress_stage now i s =
      if is_phase charging s.phase
      then (if leb maximum_charge_ms (sub32 now s.charge_at)
          then leave_charging F (flag charge_time_limit) s
          else (let t =
                if le (add s.progress_v (significant_rise_v F)) i.vcap_v
                then record s { progress_v = i.vcap_v; progress_at = now }
                else s in
              if leb no_rise_ms (sub32 now t.progress_at)
              then leave_charging F (flag charge_no_rise) t
              else t))
      else s

  -- A pending action ends the tick. Otherwise charger cleanup is next, then the one backup attempt.
  unfoldable pub request_stage : ℕ → Inputs F → Manager F → Flow (Manager F)
  unfolding issue_action voltage_valid
  request_stage now i s =
      if not (is_action no_action s.pending.kind)
      then return_now s
      else if (is_phase jetson_starting s.phase || is_phase running s.phase)
          && s.stop_needed
          && not s.stop_attempted
      then return_now (issue_action F stop_charging now (record s { stop_attempted = true }))
      else if (is_phase charging s.phase
            || is_phase jetson_starting s.phase
            || is_phase running s.phase)
          && not s.backup_attempted
          && i.status_valid
          && i.main_present
          && voltage_valid i.vcap_v
          && le (backup_arm_v F) i.vcap_v
          && le i.vcap_v (maximum_v F)
      then return_now (issue_action F arm_backup now (record s { backup_attempted = true }))
      else go_on s

  unfoldable pub prepare_step : ℕ → Inputs F → Manager F → Manager F
  unfolding issue_action leave_charging
  prepare_step now i s =
      if not s.prepared
      then issue_action F prepare_charging now s
      else if i.boost_power_good && not s.enable_charge_attempted
      then issue_action F enable_charging now (record s { enable_charge_attempted = true })
      else if leb boost_pg_timeout_ms (sub32 now s.phase_at)
      then (let t = leave_charging F (flag boost_power_good_timeout) s in
          issue_action F stop_charging now (record t { stop_attempted = true }))
      else s

  unfoldable pub jetson_step : ℕ → Manager F → Manager F
  unfolding issue_action
  jetson_step now s =
      if not s.jetson_attempted
      then issue_action F enable_jetson now (record s { jetson_attempted = true })
      else if not s.ping_attempted
      then issue_action F ping_jetson now (record s { ping_attempted = true })
      else s

  -- The `switch` at the end of `tick`.
  unfoldable pub phase_step : Phase → ℕ → Inputs F → Manager F → Manager F
  unfolding prepare_step jetson_step
  phase_step charge_prepare now i s = prepare_step now i s
  phase_step jetson_starting now i s = jetson_step now s
  phase_step _ now i s = s

  unfoldable pub act_stage : ℕ → Inputs F → Manager F → Flow (Manager F)
  unfolding phase_step
  act_stage now i s = go_on (phase_step s.phase now i s)

  unfoldable pub run_stages : ℕ → Inputs F → Manager F → Manager F
  run_stages now i s = final do
    a ← power_off_stage now i (note_pong i s)
    b ← settling_stage now i a
    d ← deadline_stage now i (main_loss_stage now i b)
    w ← waiting_stage (completion_stage now i d)
    r ← request_stage now i (progress_stage now i (supervise_stage i w))
    act_stage now i r

  unfoldable pub tick : ℕ → Inputs F → Manager F → Manager F
  unfolding run_stages
  tick now i s = if not s.begun then s else run_stages now i s
