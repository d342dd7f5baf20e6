-- ===== src/BoardControl.antt =====
-- `Status` of firmware/board_control_test/BoardControl.h, and the driver's operations as an interface:
-- each may fail and changes the world, of which the clock is a part.
pub mod Driver
pub mod Reading
pub mod Setters
pub mod Shutdown
pub mod Start
pub mod Interface
mod Calm
mod Steady
pub mod Clock
mod Enables
mod Charging
mod BoostKept
mod PowerLoss
mod Baseline
mod BeginReady
mod WaitEnds
mod Backup
pub mod Calls
mod BackupSetters
mod BackupRuns
mod Unselected
pub mod Tests
use tankervision_pdb.Common.{ℕ, Bool, Floats, Option}

pub data Port : Type 0 where
  five_volt_vbus vbus supervised five_volt_supervised : Port

module _ (F : Floats) where
  open F use {Float}

  pub record Status : Type 0 where
    pub internal_inputs : ℕ
    pub internal_output_inputs : ℕ
    pub internal_outputs : ℕ
    pub external_inputs : ℕ
    pub external_output_inputs : ℕ
    pub external_outputs : ℕ
    pub usb_pg : Bool
    pub dc_pg : Bool
    pub backup_pg : Bool
    pub charger_pg : Bool
    pub charger_stat : Bool
    pub boost_pg : Bool
    pub buck_pg : Bool
    pub ss_buck_pg : Bool
    pub ext_vbus_pg : Bool
    pub ext_5v_vbus_pg : Bool
    pub ext_ss_pg : Bool
    pub ext_5v_ss_pg : Bool
    pub jetson_on : Bool
    pub main_selected : Bool
    pub vcap_v : Float
    pub ts_mv : ℕ

  pub record BoardControl : Type 1 where
    pub World : Type 0
    pub millis : World → ℕ × World
    pub read_status : World → Option Status × World
    pub all_off : World → Bool × World
    pub set_backup : Bool → World → Bool × World
    pub set_charge_high_current : Bool → World → Bool × World
    pub set_thermistor_override : Bool → World → Bool × World
    pub set_boost : Bool → World → Bool × World
    pub set_charger : Bool → World → Bool × World
    pub set_buck_5v : Bool → World → Bool × World
    pub set_port : Port → Bool → World → Bool × World
    pub set_jetson_button : Bool → World → Bool × World
    pub disable_charging_for_power_loss : World → Bool × World
    pub digital_read : ℕ → World → Bool × World
