-- ===== src/PowerManager/Names.antt =====
-- The names of phases, actions, issues and shutdown reasons that telemetry shows.
use Prim.Native.String.{String}
use tankervision_pdb.PowerManager.State.{
  Phase, settling, charge_prepare, charging, jetson_starting, running, shutdown_wait, power_off,
  Action, no_action, prepare_charging, enable_charging, stop_charging, arm_backup, enable_jetson,
  ping_jetson, request_jetson_shutdown, cut_power, ShutdownReason, no_reason, main_loss,
  full_reboot, Issue, status_unavailable, invalid_voltage, charge_preparation_failed,
  charger_enable_failed, charger_fault, charge_no_rise, charge_stop_failed, backup_arm_failed,
  jetson_enable_failed, jetson_ping_failed, shutdown_request_failed, power_off_failed,
  action_timed_out, boost_power_good_timeout, charge_overvoltage, charge_time_limit,
  main_unavailable_at_startup,
}

pub phase_name : Phase → String
phase_name settling = "SETTLING"
phase_name charge_prepare = "CHARGE_PREPARE"
phase_name charging = "CHARGING"
phase_name jetson_starting = "JETSON_STARTING"
phase_name running = "RUNNING"
phase_name shutdown_wait = "SHUTDOWN_WAIT"
phase_name power_off = "POWER_OFF"

pub action_name : Action → String
action_name no_action = "NONE"
action_name prepare_charging = "PREPARE_CHARGING"
action_name enable_charging = "ENABLE_CHARGING"
action_name stop_charging = "STOP_CHARGING"
action_name arm_backup = "ARM_BACKUP"
action_name enable_jetson = "ENABLE_JETSON"
action_name ping_jetson = "PING_JETSON"
action_name request_jetson_shutdown = "REQUEST_JETSON_SHUTDOWN"
action_name cut_power = "CUT_POWER"

pub issue_name : Issue → String
issue_name status_unavailable = "STATUS_UNAVAILABLE"
issue_name invalid_voltage = "INVALID_VOLTAGE"
issue_name charge_preparation_failed = "CHARGE_PREPARATION_FAILED"
issue_name charger_enable_failed = "CHARGER_ENABLE_FAILED"
issue_name charger_fault = "CHARGER_FAULT"
issue_name charge_no_rise = "CHARGE_NO_SIGNIFICANT_RISE"
issue_name charge_stop_failed = "CHARGE_STOP_FAILED"
issue_name backup_arm_failed = "BACKUP_ARM_FAILED"
issue_name jetson_enable_failed = "JETSON_ENABLE_FAILED"
issue_name jetson_ping_failed = "JETSON_PING_FAILED"
issue_name shutdown_request_failed = "SHUTDOWN_REQUEST_FAILED"
issue_name power_off_failed = "POWER_OFF_FAILED"
issue_name action_timed_out = "ACTION_TIMED_OUT"
issue_name boost_power_good_timeout = "BOOST_POWER_GOOD_TIMEOUT"
issue_name charge_overvoltage = "CHARGE_OVERVOLTAGE"
issue_name charge_time_limit = "CHARGE_TIME_LIMIT"
issue_name main_unavailable_at_startup = "MAIN_UNAVAILABLE_AT_STARTUP"

pub shutdown_reason_name : ShutdownReason → String
shutdown_reason_name no_reason = "NONE"
shutdown_reason_name main_loss = "MAIN_LOSS"
shutdown_reason_name full_reboot = "FULL_REBOOT"
