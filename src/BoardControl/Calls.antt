-- ===== src/BoardControl/Calls.antt =====
-- Calls of the operations of `BoardControl`, one after another.
use tankervision_pdb.Common.{ℕ, Bool, Floats, List, [], ◌∷◌}
use tankervision_pdb.Common.Act.{after}
use tankervision_pdb.BoardControl.{Port}
use tankervision_pdb.BoardControl.Driver.{Rig, System}
use tankervision_pdb.BoardControl.Reading.{read_status, read_adc_mv}
use tankervision_pdb.BoardControl.Setters.{
  set_boost, set_buck_5v, set_charger, set_charge_high_current, set_thermistor_override, set_port,
}
use tankervision_pdb.BoardControl.Shutdown.{
  set_status_led, disable_charging_for_power_loss, set_jetson_button, set_backup, all_off,
}

-- The operations that may be called again and again.
pub data Op : Type 0 where
  boost buck_5v charger charge_high_current thermistor_override backup status_led : Bool → Op
  jetson_button : Bool → Op
  port : Port → Bool → Op
  power_loss off status : Op
  adc : ℕ → Op

unfoldable pub step : (F : Floats) (R : Rig) → Op → System R → System R
step F R (boost on) s = after (set_boost F R on) s
step F R (buck_5v on) s = after (set_buck_5v F R on) s
step F R (charger on) s = after (set_charger F R on) s
step F R (charge_high_current on) s = after (set_charge_high_current F R on) s
step F R (thermistor_override on) s = after (set_thermistor_override F R on) s
step F R (backup on) s = after (set_backup F R on) s
step F R (status_led on) s = after (set_status_led R on) s
step F R (jetson_button on) s = after (set_jetson_button F R on) s
step F R (port p on) s = after (set_port F R p on) s
step F R power_loss s = after (disable_charging_for_power_loss R) s
step F R off s = after (all_off F R) s
step F R status s = after (read_status F R) s
step F R (adc pin) s = after (read_adc_mv R pin) s

unfoldable pub run : (F : Floats) (R : Rig) → List Op → System R → System R
unfolding step
run F R [] s = s
run F R (o ∷ os) s = run F R os (step F R o s)
