-- ===== src/BoardControl/BoostKept.antt =====
-- What `disableChargingForPowerLoss` keeps of boost while it lowers CE alone.
use tankervision_pdb.Common.{ℕ, true, false, ◌≡◌, inl, inr, List, [], ◌∷◌, arith, ◌∙◌, Bool-cases}
use tankervision_pdb.Common.Act.{modify, Keeps, Keeps-bind}
use tankervision_pdb.BoardHardware.Bits.{boost, ce, high, lower_all}
use tankervision_pdb.BoardControl.Driver.{
  Rig, World, System, Driver, set_driver, write_register, internal_address, stamp_charger_off,
}
use tankervision_pdb.BoardControl.Shutdown.{verify_low, force_low}
use tankervision_pdb.BoardControl.Calm.{Calm, ask-Calm, now-Calm, guard-Calm, read_pair-Calm}

-- What every call of the cut keeps, but for a write that lowers boost at the latch of 0x20.
pub record BoostKept (R : Rig) (Q : World R → Type 0) : Type 0 where
  pub at_millis : (w : World R) → Q w → Q (R.board.millis w).1
  pub at_select : (a reg : ℕ) (w : World R) → Q w → Q (R.board.transmit a (reg ∷ []) false w).1
  pub at_request : (a n : ℕ) (w : World R) → Q w → Q (R.board.request_from a n w).1
  pub at_read : (w : World R) → Q w → Q (R.board.read_byte w).1
  pub at_delay : (n : ℕ) (w : World R) → Q w → Q (R.delay n w)
  pub at_config :
      (v : ℕ) (w : World R) → Q w → Q (R.board.transmit internal_address (7 ∷ v ∷ []) true w).1
  pub at_boost_on :
      (v : ℕ) (w : World R)
      → high v boost ≡ true
      → Q w
      → Q (R.board.transmit internal_address (3 ∷ v ∷ []) true w).1

-- Boost was off in the latch that was read first, or it was on and `Q` holds.
pub data Standing {W : Type 0} (Q : W → Type 0) (latch : ℕ) (w : W) : Type 0 where
  was_off : high latch boost ≡ false → Standing Q latch w
  still_on : high latch boost ≡ true → Q w → Standing Q latch w

module _ {W : Type 0} {Q : W → Type 0} where
  pub standing : (latch : ℕ) (w : W) → Q w → Standing Q latch w
  standing latch w q = elim (Bool-cases (high latch boost)) [
    | inl on ↦ still_on on q
    | inr off ↦ was_off off
  ]

  carry :
      {latch : ℕ} {v w : W}
      → (high latch boost ≡ true → Q v → Q w)
      → Standing Q latch v
      → Standing Q latch w
  carry h (was_off off) = was_off off
  carry h (still_on on q) = still_on on (h on q)

-- Clearing CE leaves boost.
high-lower_all-ce : (v : ℕ) → high (lower_all v (ce ∷ [])) boost ≡ high v boost
high-lower_all-ce v = ground arith

module _ {R : Rig} {Q : World R → Type 0} (K : BoostKept R Q) where
  pub record Held (s : System R) : Type 0 where
    pub held : Q s.world

  pub calm-Held : Calm R Held
  calm-Held = record {
    at_error = λ e s p. record { held = p.held };
    at_millis = λ s p. record { held = K.at_millis s.world p.held };
    at_select = λ a reg s p. record { held = K.at_select a reg s.world p.held };
    at_request = λ a n s p. record { held = K.at_request a n s.world p.held };
    at_read = λ s p. record { held = K.at_read s.world p.held };
    at_delay = λ n s p. record { held = K.at_delay n s.world p.held };
  }

  pub record Stands (latch : ℕ) (s : System R) : Type 0 where
    pub stands : Standing Q latch s.world

  moved :
      {latch : ℕ} (s : System R) (w : World R)
      → (high latch boost ≡ true → Q s.world → Q w)
      → Stands latch s
      → Stands latch (record s { world = w })
  moved s w h p = record { stands = carry h p.stands }

  pub calm : (latch : ℕ) → Calm R (Stands latch)
  calm latch = record {
    at_error = λ e s p. record { stands = p.stands };
    at_millis = λ s. moved s _ (λ on. K.at_millis s.world);
    at_select = λ a reg s. moved s _ (λ on. K.at_select a reg s.world);
    at_request = λ a n s. moved s _ (λ on. K.at_request a n s.world);
    at_read = λ s. moved s _ (λ on. K.at_read s.world);
    at_delay = λ n s. moved s _ (λ on. K.at_delay n s.world);
  }

  module _ (latch : ℕ) where
    first_write :
        Keeps (Stands latch) (write_register R internal_address 3 (lower_all latch (ce ∷ [])))
    unfolding write_register
    first_write =
        Keeps-bind _ _
          (ask-Calm (calm latch) _
            (λ s. moved s _ (λ on. K.at_boost_on _ s.world (high-lower_all-ce latch ∙ on))))
          λ code. guard-Calm (calm latch) _ _

    config_write : (v : ℕ) → Keeps (Stands latch) (write_register R internal_address 7 v)
    unfolding write_register
    config_write v =
        Keeps-bind _ _ (ask-Calm (calm latch) _ (λ s. moved s _ (λ on. K.at_config v s.world)))
          λ code. guard-Calm (calm latch) _ _

    driver-Stands : (f : Driver → Driver) → Keeps (Stands latch) (set_driver R f)
    unfolding modify
    driver-Stands f = record { holds = λ s p. record { stands = p.stands } }

    pub force_ce-Stands : Keeps (Stands latch) (force_low R (ce ∷ []) latch)
    unfolding force_low
    force_ce-Stands = Keeps-bind _ _ first_write λ _.
        Keeps-bind _ _ (driver-Stands _)
          λ _. Keeps-bind _ _ (read_pair-Calm (calm latch) _ _) λ config. config_write _

    pub verify_low-Stands : (mask : List ℕ) → Keeps (Stands latch) (verify_low R mask)
    unfolding verify_low
    verify_low-Stands mask =
        let C = calm latch in
        Keeps-bind _ _ (read_pair-Calm C _ _) λ _. Keeps-bind _ _ (read_pair-Calm C _ _) λ _.
          Keeps-bind _ _ (read_pair-Calm C _ _) λ _.
            Keeps-bind _ _ (driver-Stands _)
              λ _. Keeps-bind _ _ (guard-Calm C _ _) λ _. guard-Calm C _ _

    pub stamp-Stands : Keeps (Stands latch) (stamp_charger_off R)
    unfolding stamp_charger_off
    stamp-Stands = Keeps-bind _ _ (now-Calm (calm latch)) λ t. driver-Stands _
