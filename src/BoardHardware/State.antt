-- ===== src/BoardHardware/State.antt =====
-- The data of `BoardHardware`, and what it talks to: the two-wire bus of the expanders, the pins, the
-- analog inputs and the clock, as an interface. `World` is whatever these depend on.
use tankervision_pdb.Common.{ℕ, Bool, Floats, List}

pub data Port : Type 0 where
  vbus five_volt_vbus vbus_ss five_volt_ss : Port

pub data HwResult : Type 0 where
  idle running succeeded failed : HwResult

pub data Operation : Type 0 where
  no_operation reconcile prepare_charge enable_charge disable_charging port_change restore_por :
      Operation

-- The texts of `error_` with their values.
pub data HardwareError : Type 0 where
  no_error already_initialized wire_failed not_initialized busy_error por_refused : HardwareError
  select_failed short_read write_failed : ℕ → ℕ → ℕ → HardwareError
  enable_mismatch readback_mismatch por_failed : ℕ → HardwareError
  not_low : List ℕ → HardwareError
  rollback_failed : ℕ → List ℕ → HardwareError
  pg_timeout : ℕ → HardwareError
  invalid_reconcile not_reconciled main_invalid not_qualified invalid_prepare : HardwareError
  not_prepared backed_port_refused buck_refused invalid_port : HardwareError
  backup_refused sole_backup backup_readback led_readback : HardwareError

-- Two registers that are read together.
pub record Pair : Type 0 where
  pub low : ℕ
  pub high_byte : ℕ

pub record ExpanderState : Type 0 where
  pub valid : Bool
  pub at_ms : ℕ
  pub input : Pair
  pub output : Pair
  pub polarity : Pair
  pub config : Pair
  pub physical_inputs : ℕ

pub record IrqLine : Type 0 where
  pub falls : ℕ
  pub rises : ℕ

-- The bus, the pins, the analog inputs and the clock. `transmit` is `beginTransmission`, the bytes,
-- and `endTransmission` with the given stop.
pub record Board : Type 1 where
  pub World : Type 0
  pub millis : World → ℕ × World
  pub wire_begin : World → Bool × World
  pub set_timeout : ℕ → World → World
  pub transmit : ℕ → List ℕ → Bool → World → ℕ × World
  pub request_from : ℕ → ℕ → World → ℕ × World
  pub available : World → ℕ
  pub read_byte : World → ℕ × World
  pub digital_read : ℕ → World → Bool × World
  pub digital_write : ℕ → Bool → World → World
  pub gpio_set_level : ℕ → Bool → World → World
  pub pin_output : ℕ → World → World
  pub pin_input : ℕ → Bool → World → World
  pub analog_setup : ℕ → List ℕ → World → World
  pub attach_interrupt : ℕ → World → World
  pub analog_read : ℕ → World → ℕ × World
  pub analog_read_mv : ℕ → World → ℕ × World

module _ (F : Floats) where
  open F use {Float}

  pub record AnalogReading : Type 0 where
    pub gpio : ℕ
    pub raw : ℕ
    pub mv : ℕ
    pub current_a : Float

  pub record HardwareSnapshot : Type 0 where
    pub at_ms : ℕ
    pub valid : Bool
    pub internal : ExpanderState
    pub external : ExpanderState
    pub adc : List AnalogReading
    pub vcap_v : Float
    pub ts_mv : ℕ
    pub usb_pg : Bool
    pub dc_pg : Bool
    pub backup_pg : Bool
    pub charger_pg : Bool
    pub charger_stat : Bool
    pub boost_pg : Bool
    pub buck_pg : Bool
    pub ss_buck_pg : Bool
    pub ext_vbus_pg : Bool
    pub ext_5v_vbus_pg : Bool
    pub ext_ss_pg : Bool
    pub ext_5v_ss_pg : Bool
    pub jetson_on : Bool
    pub main_selected : Bool
    pub backup_enabled : Bool
    pub status_led : Bool
    pub boot_button_low : Bool
    pub internal_irq_low : Bool
    pub external_irq_low : Bool
    pub pd_irq_low : Bool
    -- The falls and the rises of the four lines: internal, external, mux, PD.
    pub irq_counts : List IrqLine

  pub record BoardHardware : Type 0 where
    pub snapshot : HardwareSnapshot
    pub monitoring : Bool
    pub reconciled : Bool
    pub prepared : Bool
    pub result : HwResult
    pub operation : Operation
    pub stage : ℕ
    pub port_mask : ℕ
    pub expected_internal : ℕ
    pub expected_external : ℕ
    pub port : Port
    pub port_enabled : Bool
    pub pg_timing : Bool
    pub stage_at : ℕ
    pub operation_at : ℕ
    pub pg_at : ℕ
    pub ce_off_at : ℕ
    pub ts_selected_at : ℕ
    pub error : HardwareError
    pub irq : List IrqLine

  module _ (B : Board) where
    open B use {World}

    pub record System : Type 0 where
      pub hw : BoardHardware
      pub world : World
