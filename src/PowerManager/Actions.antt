-- ===== src/PowerManager/Actions.antt =====
-- The operations of `PowerManager` but for `tick` (PowerManager.cpp). A method that mutates the
-- object takes it last and returns the new one, beside what it returns in the source.
use tankervision_pdb.Common.{
  ℕ, Bool, true, false, not, Floats, ◌-◌, ◌==◌, ◌||◌, add32, if◌then◌else◌, bit_or, leb, sub32,
}
use tankervision_pdb.PowerManager.State.{
  Action, ShutdownReason, is_phase, is_action, is_no_reason, flag, no_pending, Inputs, Manager,
  fresh, shutdown_ms, charge_prepare, charging, jetson_starting, running, shutdown_wait, power_off,
  no_action, prepare_charging, enable_charging, stop_charging, arm_backup, enable_jetson,
  ping_jetson, request_jetson_shutdown, cut_power, full_reboot, charge_preparation_failed,
  charger_enable_failed, charge_stop_failed, backup_arm_failed, jetson_enable_failed,
  jetson_ping_failed, shutdown_request_failed, power_off_failed,
}

-- `if (++nextActionId_ == 0) ++nextActionId_`
unfoldable pub bump_id : ℕ → ℕ
bump_id n = if add32 n 1 == 0 then add32 (add32 n 1) 1 else add32 n 1

module _ (F : Floats) where
  -- The object is replaced by a fresh one that keeps the id counter.
  unfoldable pub start : ℕ → Manager F → Manager F
  start now s = record (fresh F) { next_action_id = s.next_action_id; begun = true; phase_at = now }

  unfoldable pub cancel_action : Manager F → Manager F
  cancel_action s = record s { pending = no_pending; completed = false }

  unfoldable pub issue_action : Action → ℕ → Manager F → Manager F
  unfolding cancel_action bump_id
  issue_action action now s =
      let id = bump_id s.next_action_id in
      record (cancel_action s) {
        next_action_id = id;
        pending = record { kind = action; id = id };
        pending_at = now;
      }

  unfoldable pub complete_action : ℕ → Bool → Manager F → Bool × Manager F
  complete_action id success s =
      if is_action no_action s.pending.kind || not (s.pending.id == id) || s.completed
      then (false, s)
      else (true, record s { completed = true; completion_success = success })

  unfoldable pub add_issue : ℕ → Manager F → Manager F
  add_issue mask s = record s { issues = bit_or s.issues mask }

  unfoldable pub leave_charging : ℕ → Manager F → Manager F
  unfolding cancel_action add_issue
  leave_charging issue s =
      let t = record (add_issue issue s) {
        jetson_attempted =
            if is_action enable_jetson s.pending.kind then false else s.jetson_attempted;
        ping_attempted = if is_action ping_jetson s.pending.kind then false else s.ping_attempted;
        backup_attempted =
            if is_action arm_backup s.pending.kind then false else s.backup_attempted;
      } in
      let u = cancel_action t in
      record u {
        phase =
            if is_phase charge_prepare u.phase || is_phase charging u.phase
            then jetson_starting
            else u.phase;
        charging_enabled_expected = false;
        maintenance = false;
        stop_needed = true;
        stop_attempted = false;
      }

  unfoldable pub start_shutdown : ℕ → ShutdownReason → Manager F → Manager F
  unfolding cancel_action issue_action
  start_shutdown now reason s = issue_action request_jetson_shutdown now (record (cancel_action s) {
    phase = shutdown_wait;
    shutdown_reason = reason;
    shutdown_at = now;
    shutdown_ack_seen = false;
    final_ready_seen = false;
    shutdown_request_sent = false;
    charging_enabled_expected = false;
    maintenance = false;
  })

  unfoldable pub request_full_reboot : ℕ → Manager F → Bool × Manager F
  unfolding start_shutdown
  request_full_reboot now s =
      if not s.begun || is_phase shutdown_wait s.phase || is_phase power_off s.phase
      then (false, s)
      else (true, start_shutdown now full_reboot s)

  -- The `switch` of `finishAction`, after the pending action has been cancelled.
  unfoldable pub apply_result : Action → Bool → ℕ → Inputs F → Manager F → Manager F
  unfolding leave_charging add_issue
  apply_result prepare_charging success now i s =
      if success
      then record s { prepared = true; phase_at = now }
      else leave_charging (flag charge_preparation_failed) s
  apply_result enable_charging success now i s =
      if success
      then record s {
        phase = charging;
        charging_enabled_expected = true;
        charge_at = now;
        progress_at = now;
        progress_v = i.vcap_v;
      }
      else leave_charging (flag charger_enable_failed) s
  apply_result stop_charging success now i s =
      record (if success then s else add_issue (flag charge_stop_failed) s) { stop_needed = false }
  apply_result arm_backup success now i s =
      let t = record s { backup_armed = success } in
      if success then t else add_issue (flag backup_arm_failed) t
  apply_result enable_jetson success now i s =
      let t = record s { jetson_enabled = success } in
      if success then t else add_issue (flag jetson_enable_failed) t
  apply_result ping_jetson success now i s =
      record (if success then s else add_issue (flag jetson_ping_failed) s) { phase = running }
  apply_result request_jetson_shutdown success now i s =
      let t = record s { shutdown_request_sent = success } in
      if success then t else add_issue (flag shutdown_request_failed) t
  apply_result cut_power success now i s =
      if success then s else add_issue (flag power_off_failed) s
  apply_result no_action success now i s = s

  unfoldable pub finish_action : Bool → ℕ → Inputs F → Manager F → Manager F
  unfolding cancel_action apply_result
  finish_action success now i s = apply_result s.pending.kind success now i (cancel_action s)

  pub shutdown_elapsed_ms : ℕ → Manager F → ℕ
  shutdown_elapsed_ms now s = if is_no_reason s.shutdown_reason then 0 else sub32 now s.shutdown_at

  -- The subtraction is made only where `elapsed < shutdown_ms`.
  pub shutdown_remaining_ms : ℕ → Manager F → ℕ
  unfolding shutdown_elapsed_ms
  shutdown_remaining_ms now s =
      if is_no_reason s.shutdown_reason || is_phase power_off s.phase
      then 0
      else (let elapsed = shutdown_elapsed_ms now s in
          if leb shutdown_ms elapsed then 0 else shutdown_ms - elapsed)
