-- ===== src/BoardControl/Driver.antt =====
-- The data of `BoardControl` (firmware/board_control_test/BoardControl.h), and its transactions with
-- the two expanders.
use tankervision_pdb.Common.{
  ℕ, zero, suc, Bool, true, false, ◌-◌, ◌==◌, ◌&&◌, leb, if◌then◌else◌, List, [], ◌∷◌, u8, sub32,
  low_bits,
}
use tankervision_pdb.Common.Act.{Act, pure, stop_here, call, gets, modify, ◌>>=◌, ◌>>◌}
use tankervision_pdb.BoardHardware.State.{Board, Pair}

abbrev pub internal_address : ℕ
internal_address = 0x20

abbrev pub external_address : ℕ
external_address = 0x21

abbrev pub unused_inputs : ℕ
unused_inputs = 0xe0

abbrev pub charger_decay_ms : ℕ
charger_decay_ms = 100

pub record Registers : Type 0 where
  pub input : Pair
  pub output : Pair
  pub polarity : Pair
  pub config : Pair

-- The converters and ports whose power good is awaited.
pub data Pg : Type 0 where
  boost_pg buck_pg vbus_pg five_volt_vbus_pg supervised_pg five_volt_supervised_pg backup_pg : Pg

-- What cleanup has achieved at an expander.
pub data Cleanup : Type 0 where
  off_verified shutdown_incomplete unknown_unchanged : Cleanup

-- The texts of `error_` with their values.
pub data DriverError : Type 0 where
  no_error begin_not_completed i2c_failed retained_ce_high : DriverError
  select_failed short_read write_failed : ℕ → ℕ → ℕ → DriverError
  direction_mismatch polarity_mismatch latch_mismatch pin_mismatch : ℕ → Registers → DriverError
  cleanup : DriverError → Cleanup → Cleanup → DriverError
  not_an_adc_pin : ℕ → DriverError
  main_lost_waiting : DriverError
  pg_not_stable : Pg → ℕ → DriverError
  charger_still_on boost_needs_main charger_before_boost port_still_on buck_needs_main : DriverError
  charger_needs_boost charger_inhibited charger_before_current charger_before_thermistor :
      DriverError
  unbacked_needs_main backed_needs_source release_refused arm_needs_main arm_needs_voltage :
      DriverError
  backup_readback backup_not_released led_readback : DriverError
  latch_still_high pin_still_high : List ℕ → DriverError

-- The lines of the log.
pub data Line : Type 0 where
  retained : ℕ → Registers → Line
  safe_baseline preserved_backup : Line
  cleaned_up : DriverError → Line

abbrev pub is_no_error : DriverError → Bool
is_no_error no_error = true
is_no_error _ = false

pub record Driver : Type 0 where
  pub error : DriverError
  pub has_log : Bool
  pub ready : Bool
  pub backup_enabled : Bool
  pub internal_outputs : ℕ
  pub external_outputs : ℕ
  pub charger_disabled_at : ℕ

-- The pins, the buses and the clock, with `delay` and the log.
pub record Rig : Type 1 where
  pub board : Board
  pub delay : ℕ → board.World → board.World
  pub println : Line → board.World → board.World

module _ (R : Rig) where
  abbrev pub World : Type 0
  World = R.board.World

  pub record System : Type 0 where
    pub driver : Driver
    pub world : World

  abbrev pub Method : Type 0 → Type 0
  Method = Act System

  -- A call of the rig, with a result and without one.
  unfoldable pub ask : {A : Type 0} → (World → A × World) → Method A
  unfolding call
  ask f = call (λ s. let (a, w) = f s.world in (a, record s { world = w }))

  unfoldable pub tell : (World → World) → Method (Unit {0})
  unfolding modify
  tell f = modify (λ s. record s { world = f s.world })

  abbrev pub now : Method ℕ
  now = ask R.board.millis

  abbrev pub set_driver : (Driver → Driver) → Method (Unit {0})
  set_driver f = modify (λ s. record s { driver = f s.driver })

  abbrev pub get_driver : Method Driver
  get_driver = gets (λ s. s.driver)

  unfoldable pub clear_error : Method (Unit {0})
  clear_error = set_driver (λ d. record d { error = no_error })

  -- The first error stays.
  unfoldable pub note_error : DriverError → Driver → Driver
  note_error e d = if is_no_error d.error then record d { error = e } else d

  unfoldable pub fail : {A : Type 0} → DriverError → Method A
  unfolding note_error
  fail e = do set_driver (note_error e); stop_here

  unfoldable pub guard : Bool → DriverError → Method (Unit {0})
  guard b e = if b then pure tt else fail e

  unfoldable pub require_ready : Method (Unit {0})
  require_ready = do d ← get_driver; guard d.ready begin_not_completed

  -- `while (Wire.available()) Wire.read();`: each read takes one byte off.
  unfoldable pub drain_loop : ℕ → World → World
  drain_loop zero w = w
  drain_loop (suc n) w =
      let rest = drain_loop n (R.board.read_byte w).1 in
      if R.board.available w == 0 then w else rest

  unfoldable pub drain : Method (Unit {0})
  drain = tell (λ w. drain_loop (R.board.available w) w)

  unfoldable pub take_pair : Method Pair
  take_pair = do
    first ← ask R.board.read_byte
    second ← ask R.board.read_byte
    pure (record { low = u8 first; high_byte = u8 second })

  unfoldable pub refuse_answer : DriverError → Method Pair
  refuse_answer e = do drain; fail e

  unfoldable pub take_answer : ℕ → ℕ → ℕ → Method Pair
  take_answer address reg count = do
    there ← gets (λ s. R.board.available s.world)
    if count == 2 && there == 2 then take_pair else refuse_answer (short_read address reg count)

  unfoldable pub read_pair : ℕ → ℕ → Method Pair
  read_pair address reg = do
    code ← ask (R.board.transmit address (reg ∷ []) false)
    guard (code == 0) (select_failed address reg code)
    count ← ask (R.board.request_from address 2)
    take_answer address reg count

  unfoldable pub write_register : ℕ → ℕ → ℕ → Method (Unit {0})
  write_register address reg value = do
    code ← ask (R.board.transmit address (reg ∷ value ∷ []) true)
    guard (code == 0) (write_failed address reg code)

  unfoldable pub read_registers : ℕ → Method Registers
  read_registers address = do
    input ← read_pair address 0
    output ← read_pair address 2
    polarity ← read_pair address 4
    config ← read_pair address 6
    pure (record { input = input; output = output; polarity = polarity; config = config })

  -- Directions, polarity, latch and pins are those of the expected outputs.
  unfoldable pub validate : ℕ → Registers → ℕ → Method (Unit {0})
  validate address r expected = do
    guard (r.config.low == 0xff && r.config.high_byte == unused_inputs)
        (direction_mismatch address r)
    guard (r.polarity.low == 0 && r.polarity.high_byte == 0) (polarity_mismatch address r)
    guard (r.output.low == 0 && r.output.high_byte == expected) (latch_mismatch address r)
    guard (low_bits r.input.high_byte 5 == low_bits expected 5) (pin_mismatch address r)

  abbrev pub expect : ℕ → ℕ → Driver → Driver
  expect address value d =
      if address == internal_address
      then record d { internal_outputs = value }
      else record d { external_outputs = value }

  unfoldable pub write_outputs : ℕ → ℕ → Method (Unit {0})
  write_outputs address value = do
    write_register address 3 value
    set_driver (expect address value)
    tell (R.delay 1)
    r ← read_registers address
    validate address r value

  unfoldable pub decay_rest : ℕ → Method (Unit {0})
  decay_rest elapsed =
      if leb charger_decay_ms elapsed then pure tt else tell (R.delay (charger_decay_ms - elapsed))

  unfoldable pub wait_for_charger_decay : Method (Unit {0})
  wait_for_charger_decay = do t ← now; d ← get_driver; decay_rest (sub32 t d.charger_disabled_at)

  unfoldable pub stamp_charger_off : Method (Unit {0})
  stamp_charger_off = do t ← now; set_driver (λ d. record d { charger_disabled_at = t })
