-- ===== src/PowerManager/State.antt =====
-- The enumerations, constants, inputs and fields of `PowerManager` (PowerManager.h).
use tankervision_pdb.Common.{ℕ, Bool, false, true, Floats, ◌^◌}

pub data Phase : Type 0 where
  settling charge_prepare charging jetson_starting running shutdown_wait power_off : Phase

pub data Action : Type 0 where
  no_action prepare_charging enable_charging stop_charging arm_backup : Action
  enable_jetson ping_jetson request_jetson_shutdown cut_power : Action

pub data ShutdownReason : Type 0 where
  no_reason main_loss full_reboot : ShutdownReason

-- `a == b` on `Phase`, of which the code compares one side with a constant.
abbrev pub is_phase : Phase → Phase → Bool
is_phase settling settling = true
is_phase charge_prepare charge_prepare = true
is_phase charging charging = true
is_phase jetson_starting jetson_starting = true
is_phase running running = true
is_phase shutdown_wait shutdown_wait = true
is_phase power_off power_off = true
is_phase _ _ = false

abbrev pub is_action : Action → Action → Bool
is_action no_action no_action = true
is_action prepare_charging prepare_charging = true
is_action enable_charging enable_charging = true
is_action stop_charging stop_charging = true
is_action arm_backup arm_backup = true
is_action enable_jetson enable_jetson = true
is_action ping_jetson ping_jetson = true
is_action request_jetson_shutdown request_jetson_shutdown = true
is_action cut_power cut_power = true
is_action _ _ = false

abbrev pub is_no_reason : ShutdownReason → Bool
is_no_reason no_reason = true
is_no_reason _ = false

-- `enum Issue`: one bit each, in the order of the header.
pub data Issue : Type 0 where
  status_unavailable invalid_voltage charge_preparation_failed charger_enable_failed : Issue
  charger_fault charge_no_rise charge_stop_failed backup_arm_failed jetson_enable_failed : Issue
  jetson_ping_failed shutdown_request_failed power_off_failed action_timed_out : Issue
  boost_power_good_timeout charge_overvoltage charge_time_limit : Issue
  main_unavailable_at_startup : Issue

abbrev pub issue_bit : Issue → ℕ
issue_bit status_unavailable = 0
issue_bit invalid_voltage = 1
issue_bit charge_preparation_failed = 2
issue_bit charger_enable_failed = 3
issue_bit charger_fault = 4
issue_bit charge_no_rise = 5
issue_bit charge_stop_failed = 6
issue_bit backup_arm_failed = 7
issue_bit jetson_enable_failed = 8
issue_bit jetson_ping_failed = 9
issue_bit shutdown_request_failed = 10
issue_bit power_off_failed = 11
issue_bit action_timed_out = 12
issue_bit boost_power_good_timeout = 13
issue_bit charge_overvoltage = 14
issue_bit charge_time_limit = 15
issue_bit main_unavailable_at_startup = 16

-- The enumerator's value, `1u << bit`.
abbrev pub flag : Issue → ℕ
flag x = 2 ^ issue_bit x

abbrev pub settling_ms : ℕ
settling_ms = 10000

abbrev pub no_rise_ms : ℕ
no_rise_ms = 10000

abbrev pub maximum_charge_ms : ℕ
maximum_charge_ms = 7200000

abbrev pub shutdown_ms : ℕ
shutdown_ms = 60000

abbrev pub action_timeout_ms : ℕ
action_timeout_ms = 5000

abbrev pub prepare_timeout_ms : ℕ
prepare_timeout_ms = 15000

abbrev pub boost_pg_timeout_ms : ℕ
boost_pg_timeout_ms = 2000

pub record PendingAction : Type 0 where
  pub kind : Action
  pub id : ℕ

abbrev pub no_pending : PendingAction
no_pending = record { kind = no_action; id = 0 }

module _ (F : Floats) where
  open F use {Float, lit}

  abbrev pub significant_rise_v : Float
  significant_rise_v = lit 10 2

  abbrev pub charge_target_v : Float
  charge_target_v = lit 200 1

  abbrev pub maximum_v : Float
  maximum_v = lit 210 1

  abbrev pub backup_arm_v : Float
  backup_arm_v = lit 100 1

  pub record Inputs : Type 0 where
    pub status_valid : Bool
    pub main_present : Bool
    pub vcap_v : Float
    pub boost_power_good : Bool
    pub charge_fault : Bool
    pub shutdown_ack : Bool
    pub final_ready : Bool
    pub jetson_pong : Bool

  pub record Manager : Type 0 where
    pub phase : Phase
    pub pending : PendingAction
    pub next_action_id : ℕ
    pub pending_at : ℕ
    pub issues : ℕ
    pub phase_at : ℕ
    pub charge_at : ℕ
    pub progress_at : ℕ
    pub shutdown_at : ℕ
    pub progress_v : Float
    pub shutdown_reason : ShutdownReason
    pub begun : Bool
    pub completed : Bool
    pub completion_success : Bool
    pub prepared : Bool
    pub enable_charge_attempted : Bool
    pub charging_enabled_expected : Bool
    pub maintenance : Bool
    pub stop_needed : Bool
    pub stop_attempted : Bool
    pub backup_attempted : Bool
    pub backup_armed : Bool
    pub jetson_attempted : Bool
    pub jetson_enabled : Bool
    pub ping_attempted : Bool
    pub jetson_pong_seen : Bool
    pub shutdown_ack_seen : Bool
    pub final_ready_seen : Bool
    pub shutdown_request_sent : Bool

  -- A `PowerManager` with its member initialisers.
  abbrev pub fresh : Manager
  fresh = record {
    phase = settling;
    pending = no_pending;
    next_action_id = 0;
    pending_at = 0;
    issues = 0;
    phase_at = 0;
    charge_at = 0;
    progress_at = 0;
    shutdown_at = 0;
    progress_v = lit 0 1;
    shutdown_reason = no_reason;
    begun = false;
    completed = false;
    completion_success = false;
    prepared = false;
    enable_charge_attempted = false;
    charging_enabled_expected = false;
    maintenance = false;
    stop_needed = false;
    stop_attempted = false;
    backup_attempted = false;
    backup_armed = false;
    jetson_attempted = false;
    jetson_enabled = false;
    ping_attempted = false;
    jetson_pong_seen = false;
    shutdown_ack_seen = false;
    final_ready_seen = false;
    shutdown_request_sent = false;
  }
