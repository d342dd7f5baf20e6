-- ===== src/ChargerHold/Tests.antt =====
-- A board that works, and the hold on it.
use tankervision_pdb.Common.{
  if◌then◌else◌, ◌-◌, ℕ, true, false, Floats, ◌⊎◌, ◌+◌, ◌*◌, ◌^◌, ◌/◌, leb, ltb, some, arith, refl,
}
use tankervision_pdb.BoardControl.{Status, BoardControl}
use tankervision_pdb.ChargerHold.Hold.{stopped, starting, no_error, ChargerHold, System, service}
use tankervision_pdb.ChargerHold.Guards.{Tripped, Sampled, service-Sampled}

-- Tenths of a volt.
abbrev pub tenths : Floats
tenths = record {
  Float = ℕ;
  is_finite = λ _. true;
  le = leb;
  lt = ltb;
  add = λ x y. x + y;
  sub = λ x y. x - y;
  fmin = λ x y. if leb x y then x else y;
  fmax = λ x y. if leb x y then y else x;
  mul = λ x y. x * y / 10;
  div = λ x y. x * 10 / y;
  lit = λ n k. n * 10 / 10 ^ k;
  of_uint = λ n. n * 10;
  not_a_number = 0;
}

abbrev pub charging_status : Status tenths
charging_status = record {
  internal_inputs = 0;
  internal_output_inputs = 0x0b;
  internal_outputs = 0x0b;
  external_inputs = 0;
  external_output_inputs = 0;
  external_outputs = 0;
  usb_pg = true;
  dc_pg = false;
  backup_pg = false;
  charger_pg = true;
  charger_stat = true;
  boost_pg = true;
  buck_pg = false;
  ss_buck_pg = true;
  ext_vbus_pg = false;
  ext_5v_vbus_pg = false;
  ext_ss_pg = false;
  ext_5v_ss_pg = false;
  jetson_on = false;
  main_selected = true;
  vcap_v = 205;
  ts_mv = 1800;
}

-- The world is the clock.
abbrev board : BoardControl tenths
board = record {
  World = ℕ;
  millis = λ w. (w, w);
  read_status = λ w. (some charging_status, w);
  all_off = λ w. (true, w + 1);
  set_backup = λ b w. (true, w);
  set_charge_high_current = λ b w. (true, w);
  set_thermistor_override = λ b w. (true, w);
  set_boost = λ b w. (true, w);
  set_charger = λ b w. (true, w);
  set_buck_5v = λ b w. (true, w);
  set_port = λ p b w. (true, w);
  set_jetson_button = λ b w. (true, w);
  disable_charging_for_power_loss = λ w. (true, w);
  digital_read = λ p w. (true, w);
}

abbrev sample_hold : ChargerHold tenths board
sample_hold = record {
  state = starting;
  error = no_error;
  cleanup_ok = true;
  qualifying = true;
  started_at = 900;
  last_sample_at = 1000;
  stable_at = 950;
  samples = 3;
  max_gap_ms = 0;
  voltage = 205;
  min_v = 0;
  max_v = 0;
}

abbrev system : System tenths board
system = record { hold = sample_hold; world = 1100 }

service-Sampled_example :
    Sampled tenths board (some charging_status) (service tenths board system)
    ⊎ Tripped tenths board (service tenths board system)
service-Sampled_example = service-Sampled tenths board system refl (omega arith)

abbrev at_rest : System tenths board
at_rest = record { hold = record sample_hold { state = stopped }; world = 1100 }
