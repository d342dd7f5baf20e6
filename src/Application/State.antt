-- ===== src/Application/State.antt =====
-- The variables of `deployment/Application.cpp`, the messages it hands to the output queue, and the
-- parts it drives, as an interface.
use tankervision_pdb.Common.{ℕ, Bool, Floats, List}
use tankervision_pdb.BoardHardware.State.{HardwareSnapshot, HardwareError, HwResult, Port}
use tankervision_pdb.PowerDelivery.Bus.{PdResult, PdError}
use tankervision_pdb.PowerManager.State.{Manager, Phase, Action, ShutdownReason}
use tankervision_pdb.Protocol.Request.{Code}
use tankervision_pdb.Protocol.ReplayCache.{ReplayCache}

-- The texts of `lastError`.
pub data ErrorText : Type 0 where
  nothing_yet hardware_action_failed charger_budget_unverified : ErrorText
  jetson_budget_unverified port_budget_unverified backup_pg_timeout : ErrorText
  defaults_failed release_readback_failed charger_status_unavailable : ErrorText
  charger_temperature_invalid charger_power_good_lost charger_control_invalid : ErrorText
  hardware : HardwareError → ErrorText
  delivery : PdError → ErrorText

-- What the line of a message says behind its header; of telemetry, what does not come from `board`.
pub data Body : Type 0 where
  response : ℕ → Bool → Code → Body
  port_result : ℕ → Port → Bool → Bool → Code → Body
  shutdown_requested power_cut : ℕ → ShutdownReason → ℕ → ℕ → Body
  ping : ℕ → Body
  power_release : Bool → Body
  state_changed : Phase → Body
  telemetry : Phase → Action → ℕ → Bool → Bool → Body

-- The header's `seq` and `uptime_ms`.
pub record Message : Type 0 where
  pub seq : ℕ
  pub uptime_ms : ℕ
  pub body : Body

-- `BoardHardware`, `PowerDelivery`, the clock and the restart, as the application calls them.
pub record Parts (F : Floats) : Type 1 where
  pub World : Type 0
  pub millis : World → ℕ × World
  pub restart : World → World
  pub snapshot : World → HardwareSnapshot F
  pub busy : World → Bool
  pub result : World → HwResult
  pub error : World → HardwareError
  pub start_reconcile : World → Bool × World
  pub start_prepare_charge : World → Bool × World
  pub start_enable_charge : World → Bool × World
  pub start_disable_charging : World → Bool × World
  pub start_restore_por : World → Bool × World
  pub start_port : Port → Bool → World → Bool × World
  pub set_backup : Bool → World → Bool × World
  pub release_backup_for_shutdown : World → Bool × World
  pub pd_poll : Bool → World → Bool × World
  pub pd_start_budget : World → Bool × World
  pub pd_cancel : World → World
  pub pd_result : World → PdResult
  pub pd_error : World → PdError
  pub pd_budget_valid : World → Bool × World

module _ (F : Floats) (D : Parts F) where
  open D use {World}

  -- `sent` has what `output.enqueue` was given, the newest first.
  pub record Application : Type 0 where
    pub world : World
    pub manager : Manager F
    pub replay : ReplayCache
    pub boot_id : List ℕ
    pub last_error : ErrorText
    pub sent : List Message
    pub sequence : ℕ
    pub telemetry_count : ℕ
    pub active_action : ℕ
    pub action_at : ℕ
    pub action_stage : ℕ
    pub release_at : ℕ
    pub ping_id : ℕ
    pub ping_at : ℕ
    pub last_pong_at : ℕ
    pub shutdown_id : ℕ
    pub last_shutdown_event : ℕ
    pub external_request : ℕ
    pub external_port : Port
    pub external_enabled : Bool
    pub received_ack : Bool
    pub received_ready : Bool
    pub received_pong : Bool
    pub pong_seen : Bool
    pub released : Bool
    pub dc_budget : Bool
    pub charge_expected : Bool
    pub charge_enabled_at : ℕ
    pub shed_unbacked : Bool
    pub cleanup_stage : ℕ
    pub reported_phase : Phase
