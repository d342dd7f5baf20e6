-- ===== src/BoardHardware/Monitoring.antt =====
-- `beginMonitoring`, the interrupt handler and `poll`.
use tankervision_pdb.Common.{
  ℕ, zero, suc, Bool, true, false, not, Floats, ◌+◌, ◌/◌, ◌%◌, ◌^◌, ◌&&◌, if◌then◌else◌, List, [],
  ◌∷◌, get_or, set, u32, u8, Option, none, some, ltb,
}
use tankervision_pdb.Common.Act.{call, gets, modify, ◌>>=◌, ◌>>◌}
use tankervision_pdb.BoardHardware.Bits.{high}
use tankervision_pdb.BoardHardware.State.{
  Board, System, ExpanderState, IrqLine, AnalogReading, HardwareSnapshot, no_error,
  already_initialized, wire_failed, not_initialized, HwResult, failed,
}
use tankervision_pdb.BoardHardware.Registers.{
  Method, ask, tell, set_hw, fail, guard, read_expander, internal_address, external_address,
}

abbrev pub is_failed : HwResult → Bool
is_failed failed = true
is_failed _ = false

abbrev pub led_pin : ℕ
led_pin = 4

abbrev pub backup_pin : ℕ
backup_pin = 42

abbrev pub mux_pin : ℕ
mux_pin = 11

abbrev pub boot_pin : ℕ
boot_pin = 0

abbrev pub adc_pins : List ℕ
adc_pins = 1 ∷ 2 ∷ 3 ∷ 5 ∷ 6 ∷ 7 ∷ 8 ∷ 9 ∷ 10 ∷ []

abbrev pub irq_pins : List ℕ
irq_pins = 15 ∷ 16 ∷ 11 ∷ 39 ∷ []

abbrev pub no_line : IrqLine
no_line = record { falls = 0; rises = 0 }

-- A change of a line's level, counted by the level that it went to.
unfoldable pub count_edge : Bool → IrqLine → IrqLine
count_edge level l =
    if level then record l { rises = u32 (l.rises + 1) } else record l { falls = u32 (l.falls + 1) }

module _ (F : Floats) (B : Board) where
  open F use {Float, lit, of_uint, mul, div, not_a_number}
  open B use {World}

  -- The handler of line `k`, which may run between any two steps of the main loop.
  unfoldable pub on_interrupt : ℕ → Bool → System F B → System F B
  on_interrupt k level =
      set_hw F B (λ h. record h { irq = set h.irq k (count_edge level (get_or h.irq k no_line)) })

  abbrev pub attach_all : List ℕ → World → World
  attach_all [] w = w
  attach_all (p ∷ ps) w = attach_all ps (B.attach_interrupt p (B.pin_input p false w))

  -- The pins before the bus: the backup off, the LED off, the boot button with its pull-up.
  unfoldable pub setup_pins : World → World
  setup_pins w =
      let a =
        B.digital_write backup_pin false
          (B.pin_output backup_pin (B.gpio_set_level backup_pin false w)) in
      let b =
        B.digital_write led_pin true (B.pin_output led_pin (B.gpio_set_level led_pin true a)) in
      attach_all irq_pins (B.analog_setup 12 adc_pins (B.pin_input boot_pin true b))

  unfoldable pub clear_error : System F B → System F B
  clear_error = set_hw F B (λ h. record h { error = no_error })

  unfoldable pub begin_monitoring : Method F B (Unit {0})
  begin_monitoring = do
    modify clear_error
    hw ← gets (λ s. s.hw)
    guard F B (not hw.monitoring) already_initialized
    modify (tell F B setup_pins)
    done ← call (ask F B B.wire_begin)
    guard F B done wire_failed
    modify (tell F B (B.set_timeout 25))
    modify (set_hw F B (λ h. record h { monitoring = true }))

  -- A state that could not be read keeps its bytes and its time, and is marked invalid.
  abbrev pub refreshed : Option ExpanderState → ExpanderState → ExpanderState
  refreshed none old = record old { valid = false }
  refreshed (some new) old = new

  unfoldable pub refresh_internal : Option ExpanderState → HardwareSnapshot F → HardwareSnapshot F
  refresh_internal none t = record t { internal = refreshed none t.internal }
  refresh_internal (some e) t =
      let in_bits = u8 e.physical_inputs in
      record t {
        internal = refreshed (some e) t.internal;
        dc_pg = high in_bits 0;
        buck_pg = high in_bits 1;
        usb_pg = high in_bits 2;
        charger_pg = high in_bits 3;
        charger_stat = high in_bits 4;
        backup_pg = high in_bits 5;
        boost_pg = high in_bits 6;
        ss_buck_pg = high in_bits 7;
      }

  unfoldable pub refresh_external : Option ExpanderState → HardwareSnapshot F → HardwareSnapshot F
  refresh_external none t = record t { external = refreshed none t.external }
  refresh_external (some e) t =
      let in_bits = u8 e.physical_inputs in
      record t {
        external = refreshed (some e) t.external;
        jetson_on = high in_bits 0;
        ext_5v_ss_pg = high in_bits 1;
        ext_ss_pg = high in_bits 2;
        ext_vbus_pg = high in_bits 3;
        ext_5v_vbus_pg = high in_bits 4;
      }

  -- The sums of `n` conversions: raw counts, and millivolts.
  unfoldable pub convert : ℕ → ℕ → ℕ → ℕ → World → (ℕ × ℕ) × World
  convert zero pin raw mv w = ((raw, mv), w)
  convert (suc n) pin raw mv w =
      let (r, w1) = B.analog_read pin w in
      let (m, w2) = B.analog_read_mv pin w1 in convert n pin (u32 (raw + r)) (u32 (mv + m)) w2

  -- The average of `count` conversions, rounded to the nearest.
  abbrev pub rounded : ℕ → ℕ → ℕ
  rounded total count = u32 (total + count / 2) / count

  unfoldable pub read_analog : ℕ → ℕ → World → AnalogReading F × World
  unfolding convert
  read_analog i pin w =
      let count = if ltb i 2 then 16 else 8 in
      let (sums, w') = convert count pin 0 0 w in
      let (raw, mv) = sums in
      let volts = rounded mv count in
      (
        record {
          gpio = pin;
          raw = rounded raw count % 2 ^ 16;
          mv = volts;
          current_a = if ltb i 2 then not_a_number else div (of_uint volts) (lit 14842 2);
        },
        w',
      )

  unfoldable pub read_all : ℕ → List ℕ → World → List (AnalogReading F) × World
  unfolding read_analog
  read_all i [] w = ([], w)
  read_all i (p ∷ ps) w =
      let (r, w') = read_analog i p w in let (rs, w'') = read_all (i + 1) ps w' in (r ∷ rs, w'')

  abbrev pub no_reading : AnalogReading F
  no_reading = record { gpio = 0; raw = 0; mv = 0; current_a = lit 0 0 }

  unfoldable pub refresh_analog : List (AnalogReading F) → HardwareSnapshot F → HardwareSnapshot F
  refresh_analog rs t = record t {
    adc = rs;
    vcap_v = mul (of_uint (get_or rs 1 no_reading).mv) (lit 92 4);
    ts_mv = (get_or rs 0 no_reading).mv;
  }

  unfoldable pub refresh_pins : World → HardwareSnapshot F → HardwareSnapshot F × World
  refresh_pins w t =
      let (mux, w1) = B.digital_read mux_pin w in
      let (backup, w2) = B.digital_read backup_pin w1 in
      let (led, w3) = B.digital_read led_pin w2 in
      let (boot, w4) = B.digital_read boot_pin w3 in
      let (internal, w5) = B.digital_read 15 w4 in
      let (external, w6) = B.digital_read 16 w5 in
      let (pd, w7) = B.digital_read 39 w6 in
      (
        record t {
          main_selected = mux;
          backup_enabled = backup;
          status_led = led;
          boot_button_low = not boot;
          internal_irq_low = not internal;
          external_irq_low = not external;
          pd_irq_low = not pd;
        },
        w7,
      )

  -- What follows the two expanders in `poll`.
  unfoldable pub refresh_rest :
      Option ExpanderState → Option ExpanderState → System F B → System F B
  refresh_rest internal external s =
      let t = refresh_external external (refresh_internal internal s.hw.snapshot) in
      let (rs, w) = read_all 0 adc_pins s.world in
      let (u, w') = refresh_pins w (refresh_analog rs t) in
      let (now, w'') = B.millis w' in
      record s {
        hw = record (s.hw) { snapshot = record u { irq_counts = s.hw.irq; at_ms = now } };
        world = w'';
      }

  abbrev pub is_some_state : Option ExpanderState → Bool
  is_some_state none = false
  is_some_state (some _) = true

  unfoldable pub sample : System F B → Bool × System F B
  unfolding refresh_rest
  sample s =
      let (internal, t) = read_expander F B internal_address s in
      let (external, u) = read_expander F B external_address t in
      let v = refresh_rest internal external u in
      let ok = is_some_state internal && is_some_state external in
      (ok, set_hw F B (λ h. record h { snapshot = record (h.snapshot) { valid = ok } }) v)

  -- An error is kept only where the last operation has failed.
  unfoldable pub poll : System F B → Bool × System F B
  poll s =
      if not s.hw.monitoring
      then (false, (fail F B {A = Unit {0}} not_initialized s).1)
      else sample (if is_failed s.hw.result then s else clear_error s)
