-- ===== src/BoardControl/Backup.antt =====
-- The armed backup may be the only source: what may let go of it.
use tankervision_pdb.Common.{
  ℕ, Bool, true, false, Floats, ◌≡◌, refl, ◌⊎◌, inl, inr, List, some, arith, ◌∙◌,
}
use tankervision_pdb.Common.Act.{Keeps, Keeps-gets, Keeps-stop, Keeps-bind, Keeps-attempt, modify}
use tankervision_pdb.BoardControl.{Status}
use tankervision_pdb.BoardControl.Driver.{
  Rig, World, System, Method, Driver, DriverError, Line, set_driver, write_outputs,
  stamp_charger_off, expect,
}
use tankervision_pdb.BoardControl.Reading.{main_present, read_status_impl}
use tankervision_pdb.BoardControl.Setters.{
  switch_internal, switch_external, checked_status, charger_off, undo,
}
use tankervision_pdb.BoardControl.Shutdown.{led_pin}
use tankervision_pdb.BoardControl.Calm.{OnWorld}
use tankervision_pdb.BoardControl.Steady.{
  Steady, now-Steady, delay-Steady, clear_error-Steady, guard-Steady, require_ready-Steady,
  write_register-Steady, read_registers-Steady, validate-Steady, read_status_impl-Steady,
}

-- What every call of the rig leaves alone, but the ones that drive the backup's pin low, or make it
-- an output.
pub record Spared (R : Rig) (Q : World R → Type 0) : Type 0 where
  pub at_millis : (w : World R) → Q w → Q (R.board.millis w).1
  pub at_transmit :
      (a : ℕ) (bs : List ℕ) (stop : Bool) (w : World R) → Q w → Q (R.board.transmit a bs stop w).1
  pub at_request : (a n : ℕ) (w : World R) → Q w → Q (R.board.request_from a n w).1
  pub at_read : (w : World R) → Q w → Q (R.board.read_byte w).1
  pub at_pin : (p : ℕ) (w : World R) → Q w → Q (R.board.digital_read p w).1
  pub at_analog : (p : ℕ) (w : World R) → Q w → Q (R.board.analog_read_mv p w).1
  pub at_delay : (n : ℕ) (w : World R) → Q w → Q (R.delay n w)
  pub at_led : (on : Bool) (w : World R) → Q w → Q (R.board.digital_write led_pin on w)
  pub at_log : (l : Line) (w : World R) → Q w → Q (R.println l w)

pub record Armed {R : Rig} (Q : World R → Type 0) (s : System R) : Type 0 where
  pub armed : s.driver.backup_enabled ≡ true
  pub world : Q s.world

-- A status that was read while the backup was still armed and left alone shows the main source.
pub record MainSeen (F : Floats) (R : Rig) (Q : World R → Type 0) : Type 0 where
  pub state : System R
  pub status : Status F
  pub was_armed : Armed Q state
  pub was_read : (read_status_impl F R state).0 ≡ some status
  pub shows : main_present F status ≡ true

-- The backup is armed and left alone, or the main source was seen.
pub record Safe (F : Floats) {R : Rig} (Q : World R → Type 0) (s : System R) : Type 0 where
  pub verdict : Armed Q s ⊎ MainSeen F R Q

expect_backup :
    (R : Rig) (address value : ℕ) (d : Driver)
    → (expect R address value d).backup_enabled ≡ d.backup_enabled
expect_backup R address value d = ground arith

module _ (F : Floats) {R : Rig} {Q : World R → Type 0} (W : Spared R Q) where
  abbrev pub P : System R → Type 0
  P = Safe F Q

  pub seen : (s : System R) → MainSeen F R Q → P s
  seen s m = record { verdict = inr m }

  -- A step that keeps the arm is safe.
  still : (s t : System R) → (Armed Q s → Armed Q t) → P s → P t
  still s t h p = elim p.verdict [
    | inl a ↦ record { verdict = inl (h a) }
    | inr m ↦ record { verdict = inr m }
  ]

  pub on_world : (f : World R → World R) → ((w : World R) → Q w → Q (f w)) → OnWorld R P f
  on_world f h s p = still s _ (λ a. record { armed = a.armed; world = h s.world a.world }) p

  pub C : Steady R P
  C = record {
    at_error = λ e s p. still s _ (λ a. record { armed = a.armed; world = a.world }) p;
    at_millis = on_world _ W.at_millis;
    at_transmit = λ a bs stop. on_world _ (W.at_transmit a bs stop);
    at_request = λ a n. on_world _ (W.at_request a n);
    at_read = on_world _ W.at_read;
    at_pin = λ p. on_world _ (W.at_pin p);
    at_analog = λ p. on_world _ (W.at_analog p);
    at_delay = λ n. on_world _ (W.at_delay n);
  }

  pub driver-Safe :
      (f : Driver → Driver)
      → ((d : Driver) → (f d).backup_enabled ≡ d.backup_enabled)
      → Keeps P (set_driver R f)
  unfolding modify
  driver-Safe f h = record {
    holds = λ s p. still s _ (λ a. record { armed = h s.driver ∙ a.armed; world = a.world }) p;
  }

  pub stamp-Safe : Keeps P (stamp_charger_off R)
  unfolding stamp_charger_off
  stamp-Safe = Keeps-bind _ _ (now-Steady C) λ t. driver-Safe _ (λ _. refl)

  pub write_outputs-Safe : (address value : ℕ) → Keeps P (write_outputs R address value)
  unfolding write_outputs
  write_outputs-Safe address value = Keeps-bind _ _ (write_register-Steady C address 3 value) λ _.
      Keeps-bind _ _ (driver-Safe (expect R address value) (expect_backup R address value)) λ _.
        Keeps-bind _ _ (delay-Steady C 1) λ _.
          Keeps-bind _ _ (read_registers-Steady C address) λ r. validate-Steady C address r value

  pub internal-Safe : (on : Bool) (k : ℕ) → Keeps P (switch_internal F R on k)
  unfolding switch_internal
  internal-Safe on k = Keeps-bind _ _ (Keeps-gets _) λ d. write_outputs-Safe _ _

  pub external-Safe : (on : Bool) (k : ℕ) → Keeps P (switch_external F R on k)
  unfolding switch_external
  external-Safe on k = Keeps-bind _ _ (Keeps-gets _) λ d. write_outputs-Safe _ _

  pub checked-Safe : Keeps P (checked_status F R)
  unfolding checked_status
  checked-Safe =
      Keeps-bind _ _ (clear_error-Steady C)
        λ _. Keeps-bind _ _ (require_ready-Steady C) λ _. read_status_impl-Steady C F

  pub charger_off-Safe : (e : DriverError) → Keeps P (charger_off F R e)
  unfolding charger_off
  charger_off-Safe e = Keeps-bind _ _ (Keeps-gets _) λ d. guard-Steady C _ e

  pub undo-Safe : (b : Bool) (m : Method R (Unit {0})) → Keeps P m → Keeps P (undo F R b m)
  unfolding undo
  undo-Safe true m k = Keeps-bind _ _ (Keeps-attempt m k) λ _. Keeps-stop
  undo-Safe false m k = Keeps-stop
