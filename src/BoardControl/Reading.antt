-- ===== src/BoardControl/Reading.antt =====
-- `readStatus`, `readAdcMv` and `waitPg` of `BoardControl`.
use tankervision_pdb.Common.{
  ℕ, zero, suc, Bool, false, not, Floats, ◌-◌, ◌/◌, ◌==◌, ◌&&◌, ◌||◌, leb, if◌then◌else◌, u32_mod,
  add32, sub32,
}
use tankervision_pdb.Common.Act.{pure, ◌>>=◌, ◌>>◌}
use tankervision_pdb.BoardHardware.Bits.{high}
use tankervision_pdb.BoardControl.{Status}
use tankervision_pdb.BoardControl.Driver.{
  Rig, World, Method, Registers, Pg, boost_pg, buck_pg, vbus_pg, five_volt_vbus_pg, supervised_pg,
  five_volt_supervised_pg, backup_pg, not_an_adc_pin, main_lost_waiting, pg_not_stable, ask, tell,
  now, get_driver, clear_error, note_error, set_driver, fail, guard, require_ready, read_registers,
  validate, internal_address, external_address,
}

abbrev pub mux_pin : ℕ
mux_pin = 11

abbrev pub stable_pg_ms : ℕ
stable_pg_ms = 100

abbrev pub pg_timeout_ms : ℕ
pg_timeout_ms = 2000

abbrev pub wait_rounds : ℕ
wait_rounds = 201

abbrev pub adc_samples : ℕ
adc_samples = 16

abbrev pub is_adc_pin : ℕ → Bool
is_adc_pin pin = pin == 1 || (pin == 2 || (pin == 3 || (leb 5 pin && leb pin 10)))

-- `(sum + 8) / 16`
abbrev pub rounded : ℕ → ℕ
rounded sum = add32 sum 8 / 16

module _ (F : Floats) where
  open F use {lit, mul, div, of_uint}

  unfoldable pub main_present : Status F → Bool
  main_present s = s.main_selected && (s.usb_pg || s.dc_pg)

  unfoldable pub pg_good : Pg → Status F → Bool
  pg_good boost_pg s = s.boost_pg
  pg_good buck_pg s = s.buck_pg
  pg_good vbus_pg s = s.ext_vbus_pg
  pg_good five_volt_vbus_pg s = s.ext_5v_vbus_pg && s.buck_pg
  pg_good supervised_pg s = s.ext_ss_pg
  pg_good five_volt_supervised_pg s = s.ext_5v_ss_pg && s.ss_buck_pg
  pg_good backup_pg s = s.backup_pg

  unfoldable pub decode : Registers → Registers → Bool → ℕ → ℕ → Status F
  decode internal external mux vcap_mv ts_mv = record {
    internal_inputs = internal.input.low;
    internal_output_inputs = internal.input.high_byte;
    internal_outputs = internal.output.high_byte;
    external_inputs = external.input.low;
    external_output_inputs = external.input.high_byte;
    external_outputs = external.output.high_byte;
    usb_pg = high internal.input.low 2;
    dc_pg = high internal.input.low 0;
    backup_pg = high internal.input.low 5;
    charger_pg = high internal.input.low 3;
    charger_stat = high internal.input.low 4;
    boost_pg = high internal.input.low 6;
    buck_pg = high internal.input.low 1;
    ss_buck_pg = high internal.input.low 7;
    ext_vbus_pg = high external.input.low 3;
    ext_5v_vbus_pg = high external.input.low 4;
    ext_ss_pg = high external.input.low 2;
    ext_5v_ss_pg = high external.input.low 1;
    jetson_on = high external.input.low 0;
    main_selected = mux;
    vcap_v = mul (of_uint vcap_mv) (div (lit 92 1) (lit 1000 0));
    ts_mv = ts_mv;
  }

module _ (R : Rig) where
  unfoldable pub sum_samples : ℕ → ℕ → ℕ → World R → ℕ × World R
  sum_samples zero pin sum w = (sum, w)
  sum_samples (suc n) pin sum w =
      let (mv, v) = R.board.analog_read_mv pin w in sum_samples n pin (add32 sum mv) v

  -- Of a pin that is one.
  unfoldable pub sample_adc : ℕ → Method R ℕ
  sample_adc pin = do sum ← ask R (sum_samples adc_samples pin 0); pure (rounded sum)

  unfoldable pub refuse_pin : ℕ → Method R ℕ
  refuse_pin pin = do set_driver R (note_error R (not_an_adc_pin pin)); pure (u32_mod - 1)

  -- `UINT32_MAX` where the pin is none.
  unfoldable pub read_adc_mv : ℕ → Method R ℕ
  read_adc_mv pin = if is_adc_pin pin then sample_adc pin else refuse_pin pin

  -- The start of the run of good readings.
  unfoldable pub good_start : Bool → Bool → ℕ → Method R ℕ
  good_start good was_good since = if good && not was_good then now R else pure since

  unfoldable pub stable_for : Bool → ℕ → Method R Bool
  stable_for good since =
      if good then (do t ← now R; pure (leb stable_pg_ms (sub32 t since))) else pure false

module _ (F : Floats) (R : Rig) where
  unfoldable pub read_status_impl : Method R (Status F)
  read_status_impl = do
    internal ← read_registers R internal_address
    external ← read_registers R external_address
    d ← get_driver R
    validate R internal_address internal d.internal_outputs
    validate R external_address external d.external_outputs
    mux ← ask R (R.board.digital_read mux_pin)
    vcap_mv ← read_adc_mv R 2
    ts_mv ← read_adc_mv R 1
    pure (decode F internal external mux vcap_mv ts_mv)

  unfoldable pub read_status : Method R (Status F)
  read_status = do clear_error R; require_ready R; read_status_impl

  -- One round; `again` is the rest of the loop.
  unfoldable pub wait_round :
      (Bool → ℕ → Method R (Unit {0})) → Pg → Bool → Bool → ℕ → Method R (Unit {0})
  wait_round again pg require_main was_good good_since = do
    s ← read_status_impl
    guard R (not require_main || main_present F s) main_lost_waiting
    let good = pg_good F pg s
    since ← good_start R good was_good good_since
    done ← stable_for R good since
    if done then pure tt else (do tell R (R.delay 10); again good since)

  -- A round lasts at least 10 ms, so the loop ends by the clock before the fuel is used up.
  unfoldable pub wait_loop : ℕ → Pg → Bool → ℕ → ℕ → Bool → ℕ → Method R (Unit {0})
  wait_loop zero pg require_main timeout started was_good good_since =
      fail R (pg_not_stable pg timeout)
  wait_loop (suc n) pg require_main timeout started was_good good_since = do
    t ← now R
    if leb timeout (sub32 t started)
        then fail R (pg_not_stable pg timeout)
        else wait_round (wait_loop n pg require_main timeout started) pg require_main was_good
            good_since

  unfoldable pub wait_pg : Pg → Bool → Method R (Unit {0})
  wait_pg pg require_main = do
    started ← now R
    wait_loop wait_rounds pg require_main pg_timeout_ms started false 0
