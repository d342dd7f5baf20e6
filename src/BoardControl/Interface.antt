-- ===== src/BoardControl/Interface.antt =====
-- The driver as the board that its clients, the charger hold and the supercap transfer, drive.
use tankervision_pdb.Common.{Bool, true, false, Floats, none, some}
use tankervision_pdb.BoardControl.{BoardControl}
use tankervision_pdb.BoardControl.Driver.{Rig, System, Method}
use tankervision_pdb.BoardControl.Reading.{read_status}
use tankervision_pdb.BoardControl.Setters.{
  set_boost, set_buck_5v, set_charger, set_charge_high_current, set_thermistor_override, set_port,
}
use tankervision_pdb.BoardControl.Shutdown.{
  set_backup, set_jetson_button, disable_charging_for_power_loss, all_off,
}

module _ (F : Floats) (R : Rig) where
  -- A method that returns whether it succeeded.
  unfoldable pub succeeds : Method R (Unit {0}) → System R → Bool × System R
  succeeds m s = let (r, t) = m s in (elim r [ none ↦ false | some _ ↦ true ], t)

  -- A call of a pin or of the clock.
  unfoldable pub at_world :
      {A : Type 0} → (R.board.World → A × R.board.World) → System R → A × System R
  at_world f s = let (a, w) = f s.world in (a, record s { world = w })

  abbrev pub board_control : BoardControl F
  board_control = record {
    World = System R;
    millis = at_world R.board.millis;
    read_status = read_status F R;
    all_off = succeeds (all_off F R);
    set_backup = λ on. succeeds (set_backup F R on);
    set_charge_high_current = λ on. succeeds (set_charge_high_current F R on);
    set_thermistor_override = λ on. succeeds (set_thermistor_override F R on);
    set_boost = λ on. succeeds (set_boost F R on);
    set_charger = λ on. succeeds (set_charger F R on);
    set_buck_5v = λ on. succeeds (set_buck_5v F R on);
    set_port = λ p on. succeeds (set_port F R p on);
    set_jetson_button = λ on. succeeds (set_jetson_button F R on);
    disable_charging_for_power_loss = succeeds (disable_charging_for_power_loss R);
    digital_read = λ pin. at_world (R.board.digital_read pin);
  }
