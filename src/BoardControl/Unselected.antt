-- ===== src/BoardControl/Unselected.antt =====
-- A status that is read while the source selector is low does not show the main source.
use tankervision_pdb.Common.{ℕ, Bool, false, Floats, ◌≡◌, arith}
use tankervision_pdb.Common.Act.{Keeps-gets, pure, ◌>>=◌}
use tankervision_pdb.Common.Triples.{Triple, Triple-bind, Triple-keep, Triple-call, Triple-pure}
use tankervision_pdb.BoardControl.Driver.{
  Rig, World, System, Registers, ask, internal_address, external_address,
}
use tankervision_pdb.BoardControl.Reading.{
  main_present, decode, read_status_impl, mux_pin, read_adc_mv,
}
use tankervision_pdb.BoardControl.Steady.{
  Steady, read_registers-Steady, validate-Steady, read_adc_mv-Steady,
}
use tankervision_pdb.BoardControl.Backup.{Spared}
use tankervision_pdb.BoardControl.BackupRuns.{Blind}

record Under {R : Rig} (Q : World R → Type 0) (s : System R) : Type 0 where
  world : Q s.world

record Low {R : Rig} (Q : World R → Type 0) (mux : Bool) (s : System R) : Type 0 where
  world : Q s.world
  low : mux ≡ false

module _ (F : Floats) {R : Rig} {Q : World R → Type 0} (W : Spared R Q) where
  under : Steady R (Under Q)
  under = record {
    at_error = λ x s p. record { world = p.world };
    at_millis = λ s p. record { world = W.at_millis s.world p.world };
    at_transmit = λ a bs stop s p. record { world = W.at_transmit a bs stop s.world p.world };
    at_request = λ a n s p. record { world = W.at_request a n s.world p.world };
    at_read = λ s p. record { world = W.at_read s.world p.world };
    at_pin = λ k s p. record { world = W.at_pin k s.world p.world };
    at_analog = λ k s p. record { world = W.at_analog k s.world p.world };
    at_delay = λ n s p. record { world = W.at_delay n s.world p.world };
  }

  main_present-decode :
      (internal external : Registers) (mux : Bool) (v t : ℕ)
      → mux ≡ false
      → main_present F (decode F internal external mux v t) ≡ false
  unfolding main_present decode
  main_present-decode internal external mux v t e = ground arith

  -- What follows the read of the selector.
  rest_of :
      (internal external : Registers) (mux : Bool)
      → mux ≡ false
      → Triple
          (Under Q)
          (do v ← read_adc_mv R 2; t ← read_adc_mv R 1; pure (decode F internal external mux v t))
          (λ x _. main_present F x ≡ false)
  rest_of internal external mux low =
      Triple-bind _ _ (Triple-keep _ (read_adc_mv-Steady under 2)) λ v.
        Triple-bind _ _ (Triple-keep _ (read_adc_mv-Steady under 1))
          λ t. Triple-pure _ (λ s p. main_present-decode internal external mux v t low)

  read_status_impl-dark :
      ((w : World R) → Q w → (R.board.digital_read mux_pin w).0 ≡ false)
      → Triple (Under Q) (read_status_impl F R) (λ x _. main_present F x ≡ false)
  unfolding read_status_impl ask
  read_status_impl-dark dark =
      Triple-bind _ _ (Triple-keep _ (read_registers-Steady under internal_address)) λ i.
        Triple-bind _ _ (Triple-keep _ (read_registers-Steady under external_address)) λ e.
          Triple-bind _ _ (Triple-keep _ (Keeps-gets _)) λ d.
            Triple-bind _ _ (Triple-keep _ (validate-Steady under _ _ _)) λ _.
              Triple-bind _ _ (Triple-keep _ (validate-Steady under _ _ _)) λ _.
                Triple-bind {Q = Low Q} _ _
                  (Triple-call {Q = Low Q} _ (λ s p. record {
                    world = W.at_pin mux_pin s.world p.world;
                    low = dark s.world p.world;
                  }))
                  λ mux. record {
                    ensured = λ s p. (rest_of i e mux p.low).ensured s (record { world = p.world });
                  }

  -- While the source selector is low, no status shows the main source.
  pub selector-Blind :
      ((w : World R) → Q w → (R.board.digital_read mux_pin w).0 ≡ false) → Blind F R Q
  selector-Blind dark = record {
    hidden = λ s x a e. (read_status_impl-dark dark).ensured s (record { world = a.world }) x e;
  }
