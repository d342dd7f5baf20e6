-- ===== src/BoardHardware/Pins.antt =====
-- The direct pins: `setBackup`, `setLed`, `releaseBackupForShutdown`.
use tankervision_pdb.Common.{ℕ, Bool, true, false, not, Floats, ◌&&◌, if◌then◌else◌}
use tankervision_pdb.Common.Act.{call, gets, modify, ◌>>=◌, ◌>>◌}
use tankervision_pdb.BoardHardware.State.{
  Board, System, HardwareError, not_initialized, backup_refused, sole_backup, backup_readback,
  led_readback,
}
use tankervision_pdb.BoardHardware.Registers.{Method, ask, tell, guard}
use tankervision_pdb.BoardHardware.Monitoring.{clear_error, backup_pin, led_pin}
use tankervision_pdb.BoardHardware.Operations.{same_bool, current_main}

module _ (F : Floats) (B : Board) where
  open F use {lit, lt, is_finite}
  open B use {World}

  -- A pin is written and read back.
  unfoldable pub drive : ℕ → Bool → HardwareError → Method F B (Unit {0})
  drive pin level e = do
    modify (tell F B (B.digital_write pin level))
    now_level ← call (ask F B (B.digital_read pin))
    guard F B (same_bool now_level level) e

  -- `enabled && (...)` and `!enabled && ...`, in this order, before GPIO42 is written.
  unfoldable pub may_arm : System F B → Bool × System F B
  may_arm s =
      let (main, t) = current_main F B s in
      (
        main
            && is_finite s.hw.snapshot.vcap_v
            && not (lt s.hw.snapshot.vcap_v (lit 10 0))
            && not (lt (lit 21 0) s.hw.snapshot.vcap_v),
        t,
      )

  unfoldable pub may_release : System F B → Bool × System F B
  may_release s =
      let (armed, t) = ask F B (B.digital_read backup_pin) s in
      if armed then current_main F B t else (true, t)

  unfoldable pub set_backup : Bool → Method F B (Unit {0})
  set_backup enabled = do
    modify (clear_error F B)
    hw ← gets (λ s. s.hw)
    guard F B hw.monitoring not_initialized
    allowed ← call (if enabled then may_arm else may_release)
    guard F B allowed (if enabled then backup_refused else sole_backup)
    drive backup_pin enabled backup_readback

  unfoldable pub set_led : Bool → Method F B (Unit {0})
  set_led enabled = do
    hw ← gets (λ s. s.hw)
    guard F B hw.monitoring not_initialized
    drive led_pin enabled led_readback

  -- No guard of any kind.
  unfoldable pub release_backup_for_shutdown : System F B → Bool × System F B
  release_backup_for_shutdown s =
      let t =
        tell F B
          (λ w.
            B.digital_write backup_pin false
              (B.pin_output backup_pin (B.gpio_set_level backup_pin false w)))
          s in
      let (level, u) = ask F B (B.digital_read backup_pin) t in (not level, u)
