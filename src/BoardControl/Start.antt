-- ===== src/BoardControl/Start.antt =====
-- `begin` of `BoardControl`, and its cleanup where it fails.
use tankervision_pdb.Common.{
  ℕ, Bool, true, false, not, if◌then◌else◌, List, [], ◌∷◌, bit_xor, Option, none, some,
}
use tankervision_pdb.Common.Act.{pure, stop_here, attempt, optional, ◌>>=◌, ◌>>◌}
use tankervision_pdb.BoardHardware.Bits.{high, lower, lower_all, raise_all, ce}
use tankervision_pdb.BoardHardware.State.{Pair}
use tankervision_pdb.BoardControl.Driver.{
  Rig, Method, Registers, Cleanup, off_verified, shutdown_incomplete, unknown_unchanged, cleanup,
  i2c_failed, retained_ce_high, retained, safe_baseline, cleaned_up, ask, tell, get_driver,
  set_driver, clear_error, guard, fail, read_pair, write_register, read_registers, validate,
  wait_for_charger_decay, stamp_charger_off, unused_inputs, internal_address, external_address,
}
use tankervision_pdb.BoardControl.Shutdown.{drive_low, backup_pin, led_pin}
use tankervision_pdb.BoardControl.Reading.{mux_pin}

abbrev pub adc_pins : List ℕ
adc_pins = 1 ∷ 2 ∷ 3 ∷ 5 ∷ 6 ∷ 7 ∷ 8 ∷ 9 ∷ 10 ∷ []

-- What `failInitialization` reports of U26 and of U43.
abbrev pub internal_result : Bool → Bool → Cleanup
internal_result true known = off_verified
internal_result false true = shutdown_incomplete
internal_result false false = unknown_unchanged

abbrev pub external_result : Bool → Cleanup
external_result true = off_verified
external_result false = shutdown_incomplete

module _ (R : Rig) where
  abbrev pub set_internal : ℕ → Method R (Unit {0})
  set_internal v = set_driver R (λ d. record d { internal_outputs = v })

  abbrev pub set_external : ℕ → Method R (Unit {0})
  set_external v = set_driver R (λ d. record d { external_outputs = v })

  unfoldable pub set_all : ℕ → List (ℕ × ℕ) → Method R (Unit {0})
  set_all address [] = pure tt
  set_all address ((reg, value) ∷ rest) = do
    write_register R address reg value
    set_all address rest

  -- The configuration in which every control is an output that is low.
  abbrev pub inputs_and_controls : List (ℕ × ℕ)
  inputs_and_controls = (6, 0xff) ∷ (7, unused_inputs) ∷ (4, 0) ∷ (5, 0) ∷ []

  unfoldable pub verify_zero : ℕ → Method R (Unit {0})
  verify_zero address = do r ← read_registers R address; validate R address r 0

  -- The configuration that drives CE, with its latch low already.
  abbrev pub driving_ce : Pair → ℕ
  driving_ce config = lower_all (raise_all config.high_byte (5 ∷ 6 ∷ 7 ∷ [])) (ce ∷ [])

  unfoldable pub ce_pin_low : Pair → Pair → Method R (Unit {0})
  ce_pin_low inputs polarity =
      if high (bit_xor inputs.high_byte polarity.high_byte) ce then stop_here else pure tt

  unfoldable pub force_ce : Pair → Method R (Unit {0})
  force_ce outputs = do
    set_internal outputs.high_byte
    write_register R internal_address 3 (lower outputs.high_byte ce)
    set_internal (lower outputs.high_byte ce)
    config ← read_pair R internal_address 6
    polarity ← read_pair R internal_address 4
    write_register R internal_address 7 (driving_ce config)
    inputs ← read_pair R internal_address 0
    ce_pin_low inputs polarity
    stamp_charger_off R

  -- U26 is written only where its latch could be read.
  unfoldable pub force_known_ce : Option Pair → Method R Bool
  force_known_ce none = pure false
  force_known_ce (some outputs) = attempt (force_ce outputs)

  unfoldable pub clear_external : Method R (Unit {0})
  clear_external = do
    set_all external_address ((3, 0) ∷ (2, 0) ∷ inputs_and_controls)
    set_external 0
    verify_zero external_address

  unfoldable pub clear_internal : Method R (Unit {0})
  clear_internal = do
    set_all internal_address ((3, 0) ∷ (2, 0) ∷ inputs_and_controls)
    set_internal 0
    verify_zero internal_address

  unfoldable pub clear_after_ce : Bool → Method R Bool
  clear_after_ce false = pure false
  clear_after_ce true = attempt (do wait_for_charger_decay R; clear_internal)

  unfoldable pub log_cleanup : Method R (Unit {0})
  log_cleanup = do
    d ← get_driver R
    if d.has_log then tell R (R.println (cleaned_up d.error)) else pure tt

  abbrev pub known : Option Pair → Bool
  known none = false
  known (some p) = true

  unfoldable pub fail_initialization : Method R (Unit {0})
  fail_initialization = do
    d ← get_driver R
    clear_error R
    set_driver R (λ d. record d { ready = false })
    outputs ← optional (read_pair R internal_address 2)
    ce_low ← force_known_ce outputs
    external_off ← attempt clear_external
    internal_off ← clear_after_ce ce_low
    set_driver R (λ e. record e {
      error =
          cleanup d.error (internal_result internal_off (known outputs))
            (external_result external_off);
    })
    log_cleanup

  unfoldable pub prepare_pins : Method R (Unit {0})
  prepare_pins = do
    drive_low R backup_pin
    drive_low R led_pin
    tell R (R.board.pin_input mux_pin false)
    tell R (R.board.pin_input 15 false)
    tell R (R.board.pin_input 16 false)
    tell R (R.board.analog_setup 12 adc_pins)

  -- CE is low and has decayed before anything else is changed.
  unfoldable pub settle_ce : Registers → Method R (Unit {0})
  settle_ce internal = do
    write_register R internal_address 6 0xff
    write_register R external_address 6 0xff
    d ← get_driver R
    write_register R internal_address 3 (lower d.internal_outputs ce)
    set_internal (lower d.internal_outputs ce)
    write_register R internal_address 7 (driving_ce internal.config)
    ce_pins ← read_pair R internal_address 0
    guard R (not (high (bit_xor ce_pins.high_byte internal.polarity.high_byte) ce)) retained_ce_high
    stamp_charger_off R
    wait_for_charger_decay R

  unfoldable pub settle_outputs : Method R (Unit {0})
  settle_outputs = do
    set_all external_address ((2, 0) ∷ (3, 0) ∷ inputs_and_controls)
    set_all internal_address ((2, 0) ∷ (3, 0) ∷ inputs_and_controls)
    set_internal 0
    set_external 0
    tell R (R.delay 2)
    internal ← read_registers R internal_address
    external ← read_registers R external_address
    validate R internal_address internal 0
    validate R external_address external 0

  unfoldable pub settle : Method R (Unit {0})
  settle = do
    internal ← read_registers R internal_address
    external ← read_registers R external_address
    tell R (R.println (retained internal_address internal))
    tell R (R.println (retained external_address external))
    set_internal internal.output.high_byte
    set_external external.output.high_byte
    settle_ce internal
    settle_outputs

  unfoldable pub finish_begin : Bool → Method R (Unit {0})
  finish_begin true = do
    set_driver R (λ d. record d { ready = true })
    tell R (R.println safe_baseline)
  finish_begin false = do fail_initialization; stop_here

  unfoldable pub settle_or_clean : Method R (Unit {0})
  settle_or_clean = do
    tell R (R.board.set_timeout 50)
    settled ← attempt settle
    finish_begin settled

  unfoldable pub begin : Method R (Unit {0})
  begin = do
    clear_error R
    set_driver R (λ d. record d { has_log = true; ready = false; backup_enabled = false })
    prepare_pins
    started ← ask R R.board.wire_begin
    if started then settle_or_clean else fail R i2c_failed
