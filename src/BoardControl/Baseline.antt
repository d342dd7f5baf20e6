-- ===== src/BoardControl/Baseline.antt =====
-- What `begin` knows of the board while it sets it up.
use tankervision_pdb.Common.{ℕ, Bool, true, false, ◌≡◌, List, [], ◌∷◌, some}
use tankervision_pdb.Common.Act.{Keeps, Keeps-pure, Keeps-gets, Keeps-bind, modify}
use tankervision_pdb.BoardControl.Driver.{
  Rig, World, Line, System, Registers, read_registers, safe_baseline, internal_address,
  external_address, stamp_charger_off,
}
use tankervision_pdb.BoardControl.Shutdown.{backup_pin, led_pin}
use tankervision_pdb.BoardControl.Start.{set_all, set_internal, set_external, settle_ce}
use tankervision_pdb.BoardControl.Steady.{
  Steady, read_pair-Steady, write_register-Steady, guard-Steady, now-Steady,
  wait_for_charger_decay-Steady,
}
use tankervision_pdb.BoardControl.Enables.{Valid}

-- The driver's view of the backup and of the latches.
pub record View {R : Rig} (Q : World R → Type 0) (armed : Bool) (s : System R) : Type 0 where
  pub held : Q s.world
  pub backup : s.driver.backup_enabled ≡ armed

pub record Half {R : Rig} (Q : World R → Type 0) (armed : Bool) (s : System R) : Type 0 where
  pub held : Q s.world
  pub backup : s.driver.backup_enabled ≡ armed
  pub internal : s.driver.internal_outputs ≡ 0

pub record Cleared {R : Rig} (Q : World R → Type 0) (armed : Bool) (s : System R) : Type 0 where
  pub held : Q s.world
  pub backup : s.driver.backup_enabled ≡ armed
  pub internal : s.driver.internal_outputs ≡ 0
  pub external : s.driver.external_outputs ≡ 0

-- Both expanders were read, one after the other, as driving nothing, and nothing was done since.
pub record AllLow {R : Rig} (s : System R) : Type 0 where
  pub origin : System R
  pub middle : System R
  pub internal : Registers
  pub external : Registers
  pub internal_read : read_registers R internal_address origin ≡ (some internal, middle)
  pub external_read : read_registers R external_address middle ≡ (some external, s)
  pub internal_valid : Valid internal 0
  pub external_valid : Valid external 0

-- The reads of the two expanders, and what is known of the registers.
pub record OneRead {R : Rig} (Q : World R → Type 0) (armed : Bool) (i : Registers) (s : System R)
    : Type 0 where
  pub cleared : Cleared Q armed s
  pub origin : System R
  pub read : read_registers R internal_address origin ≡ (some i, s)

pub record TwoRead {R : Rig} (Q : World R → Type 0) (armed : Bool) (i e : Registers) (s : System R)
    : Type 0 where
  pub cleared : Cleared Q armed s
  pub origin : System R
  pub middle : System R
  pub internal_read : read_registers R internal_address origin ≡ (some i, middle)
  pub external_read : read_registers R external_address middle ≡ (some e, s)

pub record OneValid {R : Rig} (Q : World R → Type 0) (armed : Bool) (i e : Registers) (s : System R)
    : Type 0 where
  pub reads : TwoRead Q armed i e s
  pub valid : Valid i 0

pub record Settled {R : Rig} (Q : World R → Type 0) (armed : Bool) (s : System R) : Type 0 where
  pub cleared : Cleared Q armed s
  pub low : AllLow s

pub record Outcome {R : Rig} (Q : World R → Type 0) (armed ok : Bool) (s : System R) : Type 0 where
  pub settled : ok ≡ true → Settled Q armed s

-- The driver is ready, knows both latches as 0 and the backup as released, and only the log was written
-- since the expanders were read.
pub record Ready {R : Rig} (Q : World R → Type 0) (armed : Bool) (s : System R) : Type 0 where
  pub held : Q s.world
  pub ready : s.driver.ready ≡ true
  pub backup : s.driver.backup_enabled ≡ armed
  pub internal : s.driver.internal_outputs ≡ 0
  pub external : s.driver.external_outputs ≡ 0
  pub verified : System R
  pub low : AllLow verified
  pub logged : s.world ≡ R.println safe_baseline verified.world

-- `Q` comes about where the backup's pin is set low, made an output and driven low, and every other
-- call of `begin` leaves it alone.
pub record PinLow (R : Rig) (Q : World R → Type 0) : Type 0 where
  pub at_drive :
      (w : World R)
      → Q (
          R.board.digital_write backup_pin false
            (R.board.pin_output backup_pin (R.board.gpio_set_level backup_pin false w)))
  pub at_led :
      (w : World R)
      → Q w
      → Q (
          R.board.digital_write led_pin false
            (R.board.pin_output led_pin (R.board.gpio_set_level led_pin false w)))
  pub at_input : (p : ℕ) (pull : Bool) (w : World R) → Q w → Q (R.board.pin_input p pull w)
  pub at_setup : (n : ℕ) (ps : List ℕ) (w : World R) → Q w → Q (R.board.analog_setup n ps w)
  pub at_wire : (w : World R) → Q w → Q (R.board.wire_begin w).1
  pub at_timeout : (n : ℕ) (w : World R) → Q w → Q (R.board.set_timeout n w)
  pub at_log : (l : Line) (w : World R) → Q w → Q (R.println l w)
  pub at_millis : (w : World R) → Q w → Q (R.board.millis w).1
  pub at_transmit :
      (a : ℕ) (bs : List ℕ) (stop : Bool) (w : World R) → Q w → Q (R.board.transmit a bs stop w).1
  pub at_request : (a n : ℕ) (w : World R) → Q w → Q (R.board.request_from a n w).1
  pub at_read : (w : World R) → Q w → Q (R.board.read_byte w).1
  pub at_pin : (p : ℕ) (w : World R) → Q w → Q (R.board.digital_read p w).1
  pub at_analog : (p : ℕ) (w : World R) → Q w → Q (R.board.analog_read_mv p w).1
  pub at_delay : (n : ℕ) (w : World R) → Q w → Q (R.delay n w)

module _ {R : Rig} {Q : World R → Type 0} (W : PinLow R Q) (b : Bool) where
  pub view : Steady R (View Q b)
  view = record {
    at_error = λ x s p. record { held = p.held; backup = p.backup };
    at_millis = λ s p. record { held = W.at_millis s.world p.held; backup = p.backup };
    at_transmit = λ a bs stop s p. record {
      held = W.at_transmit a bs stop s.world p.held;
      backup = p.backup;
    };
    at_request = λ a n s p. record { held = W.at_request a n s.world p.held; backup = p.backup };
    at_read = λ s p. record { held = W.at_read s.world p.held; backup = p.backup };
    at_pin = λ k s p. record { held = W.at_pin k s.world p.held; backup = p.backup };
    at_analog = λ k s p. record { held = W.at_analog k s.world p.held; backup = p.backup };
    at_delay = λ n s p. record { held = W.at_delay n s.world p.held; backup = p.backup };
  }

  moved : (s : System R) (w : World R) → Q w → Cleared Q b s → Cleared Q b (record s { world = w })
  moved s w q p = record {
    held = q;
    backup = p.backup;
    internal = p.internal;
    external = p.external;
  }

  pub cleared : Steady R (Cleared Q b)
  cleared = record {
    at_error = λ x s p. record {
      held = p.held;
      backup = p.backup;
      internal = p.internal;
      external = p.external;
    };
    at_millis = λ s p. moved s _ (W.at_millis s.world p.held) p;
    at_transmit = λ a bs stop s p. moved s _ (W.at_transmit a bs stop s.world p.held) p;
    at_request = λ a n s p. moved s _ (W.at_request a n s.world p.held) p;
    at_read = λ s p. moved s _ (W.at_read s.world p.held) p;
    at_pin = λ k s p. moved s _ (W.at_pin k s.world p.held) p;
    at_analog = λ k s p. moved s _ (W.at_analog k s.world p.held) p;
    at_delay = λ n s p. moved s _ (W.at_delay n s.world p.held) p;
  }

  pub set_all-View : (address : ℕ) (rs : List (ℕ × ℕ)) → Keeps (View Q b) (set_all R address rs)
  unfolding set_all
  set_all-View address [] = Keeps-pure tt
  set_all-View address ((reg, value) ∷ rest) =
      Keeps-bind _ _ (write_register-Steady view address reg value) λ _. set_all-View address rest

  pub set_internal-View : (v : ℕ) → Keeps (View Q b) (set_internal R v)
  unfolding modify
  set_internal-View v = record { holds = λ s p. record { held = p.held; backup = p.backup } }

  pub set_external-View : (v : ℕ) → Keeps (View Q b) (set_external R v)
  unfolding modify
  set_external-View v = record { holds = λ s p. record { held = p.held; backup = p.backup } }

  stamp_charger_off-View : Keeps (View Q b) (stamp_charger_off R)
  unfolding stamp_charger_off modify
  stamp_charger_off-View =
      Keeps-bind _ _ (now-Steady view)
        λ t. record { holds = λ s p. record { held = p.held; backup = p.backup } }

  pub settle_ce-View : (r : Registers) → Keeps (View Q b) (settle_ce R r)
  unfolding settle_ce
  settle_ce-View r = Keeps-bind _ _ (write_register-Steady view _ _ _) λ _.
      Keeps-bind _ _ (write_register-Steady view _ _ _) λ _. Keeps-bind _ _ (Keeps-gets _) λ d.
        Keeps-bind _ _ (write_register-Steady view _ _ _) λ _.
          Keeps-bind _ _ (set_internal-View _) λ _.
            Keeps-bind _ _ (write_register-Steady view _ _ _) λ _.
              Keeps-bind _ _ (read_pair-Steady view _ _) λ pins.
                Keeps-bind _ _ (guard-Steady view _ _)
                  λ _. Keeps-bind _ _ stamp_charger_off-View λ _. wait_for_charger_decay-Steady view
