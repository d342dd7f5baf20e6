-- ===== src/BoardControl/Clock.antt =====
-- What is asked of the clock of a rig: `millis` counts milliseconds modulo 2^32, no call turns the
-- clock back, and a delay lasts as long as asked for.
use tankervision_pdb.Common.{ℕ, Bool, ◌≡◌, ◌+◌, ◌%◌, ◌≤◌, List, arith, u32_mod}
use tankervision_pdb.Common.Act.{Keeps, Keeps-bind}
use tankervision_pdb.BoardControl.Driver.{Rig, World, System}
use tankervision_pdb.BoardControl.Shutdown.{set_status_led, led_pin}
use tankervision_pdb.BoardControl.Steady.{
  Steady, ask-Steady, tell-Steady, clear_error-Steady, require_ready-Steady, guard-Steady,
}

pub record Clock (R : Rig) : Type 0 where
  pub time : World R → ℕ
  pub counter : (w : World R) → (R.board.millis w).0 ≡ time (R.board.millis w).1 % u32_mod
  pub at_millis : (w : World R) → time w ≤ time (R.board.millis w).1
  pub at_transmit :
      (a : ℕ) (bs : List ℕ) (stop : Bool) (w : World R)
      → time w ≤ time (R.board.transmit a bs stop w).1
  pub at_request : (a n : ℕ) (w : World R) → time w ≤ time (R.board.request_from a n w).1
  pub at_read : (w : World R) → time w ≤ time (R.board.read_byte w).1
  pub at_pin : (p : ℕ) (w : World R) → time w ≤ time (R.board.digital_read p w).1
  pub at_analog : (p : ℕ) (w : World R) → time w ≤ time (R.board.analog_read_mv p w).1
  pub at_write : (p : ℕ) (on : Bool) (w : World R) → time w ≤ time (R.board.digital_write p on w)
  pub at_delay : (n : ℕ) (w : World R) → time w + n ≤ time (R.delay n w)

module _ {R : Rig} (C : Clock R) where
  -- The clock shows `n` or later.
  pub record Since (n : ℕ) (s : System R) : Type 0 where
    pub since : n ≤ C.time s.world

  later :
      {n : ℕ} (s : System R) (w : World R)
      → C.time s.world ≤ C.time w
      → Since n s
      → Since n (record s { world = w })
  later s w h p = let q = p.since in record { since = omega arith }

  pub Since-Steady : (n : ℕ) → Steady R (Since n)
  Since-Steady n = record {
    at_error = λ x s p. record { since = p.since };
    at_millis = λ s. later s _ (C.at_millis s.world);
    at_transmit = λ a bs stop s. later s _ (C.at_transmit a bs stop s.world);
    at_request = λ a m s. later s _ (C.at_request a m s.world);
    at_read = λ s. later s _ (C.at_read s.world);
    at_pin = λ k s. later s _ (C.at_pin k s.world);
    at_analog = λ k s. later s _ (C.at_analog k s.world);
    at_delay = λ m s. later s _ (let d = C.at_delay m s.world in omega arith);
  }

  pub set_status_led-Since : (n : ℕ) (on : Bool) → Keeps (Since n) (set_status_led R on)
  unfolding set_status_led
  set_status_led-Since n on =
      let S = Since-Steady n in
      Keeps-bind _ _ (clear_error-Steady S) λ _. Keeps-bind _ _ (require_ready-Steady S) λ _.
        Keeps-bind _ _
          (tell-Steady S (R.board.digital_write led_pin on)
            (λ s. later s _ (C.at_write led_pin on s.world)))
          λ _. Keeps-bind _ _ (ask-Steady S _ (S.at_pin led_pin)) λ _. guard-Steady S _ _
