-- ===== src/BoardControl/Steady.antt =====
-- What the transactions, the reads and the waits of `BoardControl` leave alone: a property that the
-- calls of the rig and a noted error keep.
use tankervision_pdb.Common.{
  ℕ, zero, suc, Bool, true, false, Floats, List, [], ◌∷◌, leb, sub32, add32,
}
use tankervision_pdb.Common.Act.{Keeps, Keeps-pure, Keeps-gets, Keeps-if, Keeps-bind}
use tankervision_pdb.BoardControl.Driver.{
  Rig, World, System, Method, DriverError, Registers, Pg, ask, tell, now, set_driver, note_error,
  clear_error, fail, guard, require_ready, read_pair, write_register, read_registers, validate,
  wait_for_charger_decay,
}
use tankervision_pdb.BoardControl.Reading.{
  sum_samples, sample_adc, refuse_pin, read_adc_mv, read_status_impl, good_start, stable_for,
  wait_round, wait_loop, wait_pg, adc_samples, is_adc_pin, pg_good,
}
use tankervision_pdb.BoardControl.Calm.{
  Calm, OnWorld, ask-Calm, tell-Calm, note_error-Calm, clear_error-Calm, fail-Calm, guard-Calm,
  read_pair-Calm, wait_for_charger_decay-Calm,
}

module _ (R : Rig) (P : System R → Type 0) where
  pub record Steady : Type 0 where
    pub at_error :
        (e : DriverError) (s : System R)
        → P s
        → P (record s { driver = record (s.driver) { error = e } })
    pub at_millis : OnWorld R P (λ w. (R.board.millis w).1)
    pub at_transmit :
        (a : ℕ) (bs : List ℕ) (stop : Bool) → OnWorld R P (λ w. (R.board.transmit a bs stop w).1)
    pub at_request : (a n : ℕ) → OnWorld R P (λ w. (R.board.request_from a n w).1)
    pub at_read : OnWorld R P (λ w. (R.board.read_byte w).1)
    pub at_pin : (p : ℕ) → OnWorld R P (λ w. (R.board.digital_read p w).1)
    pub at_analog : (p : ℕ) → OnWorld R P (λ w. (R.board.analog_read_mv p w).1)
    pub at_delay : (n : ℕ) → OnWorld R P (R.delay n)

module _ {R : Rig} {P : System R → Type 0} (C : Steady R P) where
  calm : Calm R P
  calm = record {
    at_error = C.at_error;
    at_millis = C.at_millis;
    at_select = λ a reg. C.at_transmit a (reg ∷ []) false;
    at_request = C.at_request;
    at_read = C.at_read;
    at_delay = C.at_delay;
  }

  pub ask-Steady :
      {A : Type 0} (f : World R → A × World R) → OnWorld R P (λ w. (f w).1) → Keeps P (ask R f)
  ask-Steady = ask-Calm calm

  pub tell-Steady : (f : World R → World R) → OnWorld R P f → Keeps P (tell R f)
  tell-Steady = tell-Calm calm

  pub now-Steady : Keeps P (now R)
  now-Steady = ask-Steady R.board.millis C.at_millis

  pub delay-Steady : (n : ℕ) → Keeps P (tell R (R.delay n))
  delay-Steady n = tell-Steady (R.delay n) (C.at_delay n)

  note_error-Steady : (e : DriverError) → Keeps P (set_driver R (note_error R e))
  note_error-Steady = note_error-Calm calm

  pub clear_error-Steady : Keeps P (clear_error R)
  clear_error-Steady = clear_error-Calm calm

  pub fail-Steady : (A : Type 0) (e : DriverError) → Keeps P (fail R {A = A} e)
  fail-Steady = fail-Calm calm

  pub guard-Steady : (b : Bool) (e : DriverError) → Keeps P (guard R b e)
  guard-Steady = guard-Calm calm

  pub require_ready-Steady : Keeps P (require_ready R)
  unfolding require_ready
  require_ready-Steady = Keeps-bind _ _ (Keeps-gets _) λ d. guard-Steady _ _

  pub read_pair-Steady : (address reg : ℕ) → Keeps P (read_pair R address reg)
  read_pair-Steady = read_pair-Calm calm

  pub write_register-Steady : (address reg value : ℕ) → Keeps P (write_register R address reg value)
  unfolding write_register
  write_register-Steady address reg value =
      Keeps-bind _ _ (ask-Steady _ (C.at_transmit address (reg ∷ value ∷ []) true))
        λ code. guard-Steady _ _

  pub read_registers-Steady : (address : ℕ) → Keeps P (read_registers R address)
  unfolding read_registers
  read_registers-Steady address = Keeps-bind _ _ (read_pair-Steady address 0) λ _.
      Keeps-bind _ _ (read_pair-Steady address 2) λ _.
        Keeps-bind _ _ (read_pair-Steady address 4)
          λ _. Keeps-bind _ _ (read_pair-Steady address 6) λ _. Keeps-pure _

  pub validate-Steady :
      (address : ℕ) (r : Registers) (expected : ℕ) → Keeps P (validate R address r expected)
  unfolding validate
  validate-Steady address r expected = Keeps-bind _ _ (guard-Steady _ _) λ _.
      Keeps-bind _ _ (guard-Steady _ _) λ _. Keeps-bind _ _ (guard-Steady _ _) λ _. guard-Steady _ _

  sum_samples-Steady : (n pin sum : ℕ) → OnWorld R P (λ w. (sum_samples R n pin sum w).1)
  unfolding sum_samples
  sum_samples-Steady zero pin sum s p = p
  sum_samples-Steady (suc n) pin sum s p =
      let (mv, w) = R.board.analog_read_mv pin s.world in
      sum_samples-Steady n pin (add32 sum mv) (record s { world = w }) (C.at_analog pin s p)

  pub read_adc_mv-Steady : (pin : ℕ) → Keeps P (read_adc_mv R pin)
  unfolding read_adc_mv sample_adc refuse_pin
  read_adc_mv-Steady pin =
      Keeps-if (is_adc_pin pin) _ _
        (Keeps-bind _ _ (ask-Steady _ (sum_samples-Steady adc_samples pin 0)) λ _. Keeps-pure _)
        (Keeps-bind _ _ (note_error-Steady _) λ _. Keeps-pure _)

  pub wait_for_charger_decay-Steady : Keeps P (wait_for_charger_decay R)
  wait_for_charger_decay-Steady = wait_for_charger_decay-Calm calm

  module _ (F : Floats) where
    pub read_status_impl-Steady : Keeps P (read_status_impl F R)
    unfolding read_status_impl
    read_status_impl-Steady = Keeps-bind _ _ (read_registers-Steady _) λ internal.
        Keeps-bind _ _ (read_registers-Steady _) λ external. Keeps-bind _ _ (Keeps-gets _) λ d.
          Keeps-bind _ _ (validate-Steady _ _ _) λ _. Keeps-bind _ _ (validate-Steady _ _ _) λ _.
            Keeps-bind _ _ (ask-Steady _ (C.at_pin _)) λ _.
              Keeps-bind _ _ (read_adc_mv-Steady _)
                λ _. Keeps-bind _ _ (read_adc_mv-Steady _) λ _. Keeps-pure _

    pub good_start-Steady :
        (good was_good : Bool) (since : ℕ) → Keeps P (good_start R good was_good since)
    unfolding good_start
    good_start-Steady good was_good since = Keeps-if _ _ _ now-Steady (Keeps-pure _)

    pub stable_for-Steady : (good : Bool) (since : ℕ) → Keeps P (stable_for R good since)
    unfolding stable_for
    stable_for-Steady good since =
        Keeps-if good _ _ (Keeps-bind _ _ now-Steady λ _. Keeps-pure _) (Keeps-pure _)

    pub wait_round-Steady :
        (again : Bool → ℕ → Method R (Unit {0}))
        → ((good : Bool) (since : ℕ) → Keeps P (again good since))
        → (pg : Pg) (require_main was_good : Bool) (good_since : ℕ)
        → Keeps P (wait_round F R again pg require_main was_good good_since)
    unfolding wait_round
    wait_round-Steady again each pg require_main was_good good_since =
        Keeps-bind _ _ read_status_impl-Steady λ s. Keeps-bind _ _ (guard-Steady _ _) λ _.
          Keeps-bind _ _ (good_start-Steady (pg_good F pg s) was_good good_since) λ since.
            Keeps-bind _ _ (stable_for-Steady (pg_good F pg s) since) λ done.
              Keeps-if done _ _ (Keeps-pure tt)
                (Keeps-bind _ _ (delay-Steady 10) λ _. each (pg_good F pg s) since)

    pub wait_loop-Steady :
        (n : ℕ) (pg : Pg) (require_main : Bool) (timeout started : ℕ) (was_good : Bool) (since : ℕ)
        → Keeps P (wait_loop F R n pg require_main timeout started was_good since)
    unfolding wait_loop
    wait_loop-Steady zero pg require_main timeout started was_good since = fail-Steady _ _
    wait_loop-Steady (suc n) pg require_main timeout started was_good since =
        Keeps-bind _ _ now-Steady λ t.
          Keeps-if (leb timeout (sub32 t started)) _ _ (fail-Steady _ _) (
            wait_round-Steady _ (wait_loop-Steady n pg require_main timeout started) pg require_main
              was_good since)

    pub wait_pg-Steady : (pg : Pg) (require_main : Bool) → Keeps P (wait_pg F R pg require_main)
    unfolding wait_pg
    wait_pg-Steady pg require_main =
        Keeps-bind _ _ now-Steady λ started. wait_loop-Steady _ pg require_main _ started false 0
