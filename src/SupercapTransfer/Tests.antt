-- ===== src/SupercapTransfer/Tests.antt =====
-- A run on a board whose main source is gone.
use tankervision_pdb.Common.{
  ℕ, true, false, Floats, ◌≡◌, ◌+◌, ◌-◌, ◌*◌, ◌/◌, ◌^◌, leb, ltb, if◌then◌else◌, [], ◌∷◌, some,
  refl,
}
use tankervision_pdb.BoardControl.{Status, BoardControl}
use tankervision_pdb.SupercapTransfer.State.{
  SupercapTransfer, System, backup, no_reason, no_error, main_timeout, is_cutoff, main_valid,
}
use tankervision_pdb.SupercapTransfer.Shutdown.{request_cutoff, loss_expired}
use tankervision_pdb.SupercapTransfer.Service.{
  service, take_sample, take_answer, judge, note_source, late_cutoff, cut_off_now, note_confirmed,
  on_backup,
}
use tankervision_pdb.SupercapTransfer.Cutoff.{Justified}
use tankervision_pdb.SupercapTransfer.Deadline.{service-Justified}
use tankervision_pdb.SupercapTransfer.Runs.{starts, serves, stops, run, run-cutoff}

-- Tenths of a volt.
abbrev tenths : Floats
tenths = record {
  Float = ℕ;
  is_finite = λ _. true;
  le = leb;
  lt = ltb;
  add = λ x y. x + y;
  sub = λ x y. x - y;
  fmin = λ x y. if leb x y then x else y;
  fmax = λ x y. if leb x y then y else x;
  mul = λ x y. x * y / 10;
  div = λ x y. x * 10 / y;
  lit = λ n k. n * 10 / 10 ^ k;
  of_uint = λ n. n * 10;
  not_a_number = 0;
}

abbrev lost_status : Status tenths
lost_status = record {
  internal_inputs = 0;
  internal_output_inputs = 0;
  internal_outputs = 0;
  external_inputs = 0;
  external_output_inputs = 0;
  external_outputs = 0;
  usb_pg = false;
  dc_pg = false;
  backup_pg = true;
  charger_pg = false;
  charger_stat = true;
  boost_pg = false;
  buck_pg = false;
  ss_buck_pg = true;
  ext_vbus_pg = false;
  ext_5v_vbus_pg = false;
  ext_ss_pg = false;
  ext_5v_ss_pg = false;
  jetson_on = false;
  main_selected = false;
  vcap_v = 150;
  ts_mv = 1800;
}

-- The world is the clock.
abbrev board : BoardControl tenths
board = record {
  World = ℕ;
  millis = λ w. (w, w);
  read_status = λ w. (some lost_status, w);
  all_off = λ w. (true, w);
  set_backup = λ b w. (true, w);
  set_charge_high_current = λ b w. (true, w);
  set_thermistor_override = λ b w. (true, w);
  set_boost = λ b w. (true, w);
  set_charger = λ b w. (true, w);
  set_buck_5v = λ b w. (true, w);
  set_port = λ p b w. (true, w);
  set_jetson_button = λ b w. (true, w);
  disable_charging_for_power_loss = λ w. (true, w);
  digital_read = λ p w. (true, w);
}

abbrev on_battery : SupercapTransfer tenths
on_battery = record {
  state = backup;
  cutoff_reason = no_reason;
  last_status = lost_status;
  error = no_error;
  status_valid = true;
  monitoring = true;
  backup_armed = true;
  backup_confirmed = true;
  reached_ready = true;
  loss_active = true;
  backup_ended = false;
  is_stopped = false;
  cleanup_ok = true;
  shutdown_pending = false;
  ce_off_verified = true;
  plateau = false;
  stat_low_seen = false;
  started_at = 0;
  last_sample_at = 20990;
  max_gap_ms = 0;
  samples = 1;
  first_loss_at = 1000;
  backup_confirmed_at = 1020;
  backup_ended_at = 0;
  source_loss_count = 1;
  ce_off_at = 1000;
  plateau_at = 0;
  stat_low_at = 0;
  plateau_min = 0;
  plateau_max = 0;
}

abbrev late : System tenths board
late = record { transfer = on_battery; world = 21000 }

-- Twenty seconds after the loss the service asks for the cutoff.
cut_off_late : is_cutoff (service tenths board late).1.transfer.state ≡ true
unfolding service take_sample take_answer judge note_source note_confirmed on_backup late_cutoff
    loss_expired cut_off_now request_cutoff main_valid
cut_off_late = refl

service-Justified_example : Justified (service tenths board late)
service-Justified_example = service-Justified late refl

run-cutoff_example :
    run tenths board
      (starts true ∷ serves ∷ stops ∷ [])
      (request_cutoff tenths board main_timeout 21000 late).1
    ≡ (request_cutoff tenths board main_timeout 21000 late).1
run-cutoff_example =
    run-cutoff tenths board (starts true ∷ serves ∷ stops ∷ []) main_timeout 21000 late
