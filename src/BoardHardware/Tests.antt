-- ===== src/BoardHardware/Tests.antt =====
-- A bus that records its frames, and the operations on it.
use tankervision_pdb.Common.{
  ◌⊎◌, if◌then◌else◌, ◌-◌, ℕ, Bool, true, false, not, Floats, ◌≡◌, ◌+◌, ◌*◌, ◌/◌, ◌^◌, ◌&&◌, leb,
  ltb, List, [], ◌∷◌, arith, refl, replicate,
}
use tankervision_pdb.Common.Act.{after}
use tankervision_pdb.BoardHardware.State.{
  Board, BoardHardware, System, Pair, ExpanderState, HardwareSnapshot, no_error, running, reconcile,
  vbus,
}
use tankervision_pdb.BoardHardware.Monitoring.{no_line}
use tankervision_pdb.BoardHardware.Service.{service}
use tankervision_pdb.BoardHardware.Pins.{set_backup}
use tankervision_pdb.BoardHardware.Quiet.{raises_ce, Watched}
use tankervision_pdb.BoardHardware.CeSafety.{service-Safe}
use tankervision_pdb.BoardHardware.Arming.{Unread, Armable, set_backup-armed}

-- Tenths of a volt.
abbrev pub tenths : Floats
tenths = record {
  Float = ℕ;
  is_finite = λ _. true;
  le = leb;
  lt = ltb;
  add = λ x y. x + y;
  sub = λ x y. x - y;
  fmin = λ x y. if leb x y then x else y;
  fmax = λ x y. if leb x y then y else x;
  mul = λ x y. x * y / 10;
  div = λ x y. x * 10 / y;
  lit = λ n k. n * 10 / 10 ^ k;
  of_uint = λ n. n * 10;
  not_a_number = 0;
}

record Bench : Type 0 where
  clock : ℕ
  frames : List (ℕ × List ℕ)

-- Every pin reads high, and every register reads as 0.
abbrev bench : Board
bench = record {
  World = Bench;
  millis = λ w. (w.clock, w);
  wire_begin = λ w. (true, w);
  set_timeout = λ n w. w;
  transmit = λ a bs stop w. (0, record w { frames = (a, bs) ∷ w.frames });
  request_from = λ a n w. (n, w);
  available = λ w. 2;
  read_byte = λ w. (0, w);
  digital_read = λ p w. (true, w);
  digital_write = λ p b w. w;
  gpio_set_level = λ p b w. w;
  pin_output = λ p w. w;
  pin_input = λ p b w. w;
  analog_setup = λ n ps w. w;
  attach_interrupt = λ p w. w;
  analog_read = λ p w. (0, w);
  analog_read_mv = λ p w. (0, w);
}

-- No recorded frame raises CE.
abbrev quiet : List (ℕ × List ℕ) → Bool
quiet [] = true
quiet ((a, bs) ∷ fs) = not (raises_ce a bs) && quiet fs

transmit-quiet :
    (a : ℕ) (bs : List ℕ) (fs : List (ℕ × List ℕ))
    → raises_ce a bs ≡ false
    → quiet fs ≡ true
    → quiet ((a, bs) ∷ fs) ≡ true
transmit-quiet a bs fs e h = ground arith

abbrev watched : Watched bench raises_ce
watched = record {
  Safe = λ w. quiet w.frames ≡ true;
  millis = λ w h. h;
  request_from = λ a n w h. h;
  read_byte = λ w h. h;
  digital_read = λ p w h. h;
  transmit = λ a bs stop w e h. transmit-quiet a bs w.frames e h;
}

abbrev blank : Pair
blank = record { low = 0; high_byte = 0 }

abbrev expander : ExpanderState
expander = record {
  valid = true;
  at_ms = 900;
  input = blank;
  output = blank;
  polarity = blank;
  config = blank;
  physical_inputs = 0;
}

abbrev pub sources : HardwareSnapshot tenths
sources = record {
  at_ms = 900;
  valid = true;
  internal = expander;
  external = expander;
  adc = [];
  vcap_v = 150;
  ts_mv = 1800;
  usb_pg = true;
  dc_pg = false;
  backup_pg = false;
  charger_pg = true;
  charger_stat = true;
  boost_pg = true;
  buck_pg = false;
  ss_buck_pg = true;
  ext_vbus_pg = false;
  ext_5v_vbus_pg = false;
  ext_ss_pg = false;
  ext_5v_ss_pg = false;
  jetson_on = false;
  main_selected = true;
  backup_enabled = false;
  status_led = false;
  boot_button_low = false;
  internal_irq_low = false;
  external_irq_low = false;
  pd_irq_low = false;
  irq_counts = [];
}

abbrev hardware : BoardHardware tenths
hardware = record {
  snapshot = sources;
  monitoring = true;
  reconciled = false;
  prepared = false;
  result = running;
  operation = reconcile;
  stage = 2;
  port_mask = 0;
  expected_internal = 0;
  expected_external = 0;
  port = vbus;
  port_enabled = false;
  pg_timing = false;
  stage_at = 0;
  operation_at = 0;
  pg_at = 0;
  ce_off_at = 0;
  ts_selected_at = 0;
  error = no_error;
  irq = replicate 4 no_line;
}

abbrev at_work : System tenths bench
at_work = record { hw = hardware; world = record { clock = 1000; frames = [] } }

service-Safe_example : watched.Safe (service tenths bench at_work).world
service-Safe_example = service-Safe watched at_work refl refl

unread : Unread bench (λ w. w.frames ≡ [])
unread = record { at_millis = λ w q. q; at_pin = λ p w q. q }

set_backup-armed_example :
    ((after (set_backup tenths bench true) at_work).world.frames ≡ [])
    ⊎ Armable tenths bench at_work
set_backup-armed_example = set_backup-armed tenths bench unread at_work refl
