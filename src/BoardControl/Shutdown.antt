-- ===== src/BoardControl/Shutdown.antt =====
-- The backup, the direct pins and the shutdown paths of `BoardControl`.
use tankervision_pdb.Common.{
  ℕ, Bool, true, false, not, Floats, ◌&&◌, ◌||◌, if◌then◌else◌, List, [], ◌∷◌, bit_xor, Option,
  none, some,
}
use tankervision_pdb.Common.Act.{pure, stop_here, attempt, optional, ◌>>=◌, ◌>>◌}
use tankervision_pdb.BoardHardware.Bits.{any_high, lower_all, raise_all, boost, ce}
use tankervision_pdb.BoardControl.{Status}
use tankervision_pdb.BoardControl.Driver.{
  Rig, Method, backup_pg, release_refused, arm_needs_main, arm_needs_voltage, backup_readback,
  backup_not_released, led_readback, latch_still_high, pin_still_high, preserved_backup, ask, tell,
  get_driver, set_driver, clear_error, guard, require_ready, read_pair, write_register,
  write_outputs, wait_for_charger_decay, stamp_charger_off, internal_address, external_address,
}
use tankervision_pdb.BoardControl.Reading.{main_present, read_status_impl, wait_pg}
use tankervision_pdb.BoardControl.Setters.{checked_status, switch_internal, switch_external}

abbrev pub backup_pin : ℕ
backup_pin = 42

abbrev pub led_pin : ℕ
led_pin = 4

abbrev pub same_bool : Bool → Bool → Bool
same_bool true b = b
same_bool false b = not b

module _ (R : Rig) where
  abbrev pub note_backup : Bool → Method R (Unit {0})
  note_backup enabled = set_driver R (λ d. record d { backup_enabled = enabled })

  -- The latch first, then the direction, then the level again.
  unfoldable pub drive_low : ℕ → Method R (Unit {0})
  drive_low pin = do
    tell R (R.board.gpio_set_level pin false)
    tell R (R.board.pin_output pin)
    tell R (R.board.digital_write pin false)

  unfoldable pub release_backup_for_shutdown : Method R (Unit {0})
  release_backup_for_shutdown = do
    clear_error R
    drive_low led_pin
    note_backup false
    drive_low backup_pin
    level ← ask R (R.board.digital_read backup_pin)
    guard R (not level) backup_not_released

  unfoldable pub set_status_led : Bool → Method R (Unit {0})
  set_status_led enabled = do
    clear_error R
    require_ready R
    tell R (R.board.digital_write led_pin enabled)
    level ← ask R (R.board.digital_read led_pin)
    guard R (same_bool level enabled) led_readback

  -- `verifyLow`
  unfoldable pub verify_low : List ℕ → Method R (Unit {0})
  verify_low mask = do
    actual ← read_pair R internal_address 2
    polarity ← read_pair R internal_address 4
    inputs ← read_pair R internal_address 0
    set_driver R (λ d. record d { internal_outputs = actual.high_byte })
    guard R (not (any_high actual.high_byte mask)) (latch_still_high mask)
    guard R (not (any_high (bit_xor inputs.high_byte polarity.high_byte) mask))
        (pin_still_high mask)

  -- The latch with the mask cleared, and its pins driven.
  unfoldable pub force_low : List ℕ → ℕ → Method R (Unit {0})
  force_low mask latch = do
    write_register R internal_address 3 (lower_all latch mask)
    set_driver R (λ d. record d { internal_outputs = lower_all latch mask })
    config ← read_pair R internal_address 6
    write_register R internal_address 7
        (lower_all (raise_all config.high_byte (5 ∷ 6 ∷ 7 ∷ [])) mask)

  unfoldable pub disable_charging_for_power_loss : Method R (Unit {0})
  disable_charging_for_power_loss = do
    clear_error R
    outputs ← read_pair R internal_address 2
    force_low (ce ∷ []) outputs.high_byte
    verify_low (ce ∷ [])
    stamp_charger_off R
    wait_for_charger_decay R
    verify_low (ce ∷ [])
    d ← get_driver R
    force_low (ce ∷ boost ∷ []) d.internal_outputs
    verify_low (ce ∷ boost ∷ [])

module _ (F : Floats) (R : Rig) where
  open F use {lit, lt}

  unfoldable pub set_jetson_button : Bool → Method R (Unit {0})
  set_jetson_button pressed = do s ← checked_status F R; switch_external F R pressed 4

  unfoldable pub may_switch : Bool → Status F → Method R (Unit {0})
  may_switch false s = do
    d ← get_driver R
    guard R (not d.backup_enabled || main_present F s) release_refused
  may_switch true s = do
    guard R (main_present F s) arm_needs_main
    guard R (not (lt s.vcap_v (lit 60 1) || lt (lit 210 1) s.vcap_v)) arm_needs_voltage

  unfoldable pub cut_backup : Method R (Unit {0})
  cut_backup = do tell R (R.board.digital_write backup_pin false); note_backup R false

  -- After a failed wait the arm is kept, unless a status read shows the main source.
  unfoldable pub disarm_if_main : Method R (Unit {0})
  disarm_if_main = do
    s ← read_status_impl F R
    if main_present F s then cut_backup else pure tt
    stop_here

  unfoldable pub await_backup : Method R (Unit {0})
  await_backup = do
    good ← attempt (wait_pg F R backup_pg true)
    if good then pure tt else disarm_if_main

  unfoldable pub drive_backup : Bool → Method R (Unit {0})
  drive_backup enabled = do
    tell R (R.board.digital_write backup_pin enabled)
    note_backup R enabled
    level ← ask R (R.board.digital_read backup_pin)
    guard R (same_bool level enabled) backup_readback
    if enabled then await_backup else pure tt

  unfoldable pub set_backup : Bool → Method R (Unit {0})
  set_backup enabled = do s ← checked_status F R; may_switch enabled s; drive_backup enabled

  unfoldable pub log_preserved : Method R (Unit {0})
  log_preserved = do
    d ← get_driver R
    if d.backup_enabled && d.has_log then tell R (R.println preserved_backup) else pure tt

  abbrev pub shows_main : Option (Status F) → Bool
  shows_main none = false
  shows_main (some s) = main_present F s

  abbrev pub is_read : Option (Status F) → Bool
  is_read none = false
  is_read (some s) = true

  -- What the last status read of `allOff` does with the backup.
  unfoldable pub settle_backup : Method R Bool
  settle_backup = do
    o ← optional (read_status_impl F R)
    if shows_main o then cut_backup else log_preserved
    pure (is_read o)

  unfoldable pub converters_off : Bool → Method R Bool
  converters_off true = attempt (do wait_for_charger_decay R; write_outputs R internal_address 0)
  converters_off false = pure false

  unfoldable pub all_off : Method R (Unit {0})
  all_off = do
    clear_error R
    require_ready R
    charger_off ← attempt (switch_internal F R false ce)
    if charger_off then stamp_charger_off R else pure tt
    ports_off ← attempt (write_outputs R external_address 0)
    off ← converters_off (charger_off && ports_off)
    tell R (R.board.digital_write led_pin false)
    valid ← settle_backup
    if charger_off && (ports_off && (off && valid)) then pure tt else stop_here
