-- ===== src/BoardControl/Calm.antt =====
-- What the reads and the waits of `BoardControl` leave alone: a property that the clock, the delays, the
-- selection of a register, the reads of the bus and a noted error keep.
use tankervision_pdb.Common.{ℕ, zero, suc, Bool, false, ◌==◌, [], ◌∷◌, if_rule}
use tankervision_pdb.Common.Act.{
  Keeps, Keeps-pure, Keeps-gets, Keeps-stop, Keeps-if, Keeps-bind, call, modify,
}
use tankervision_pdb.BoardControl.Driver.{
  Rig, World, System, Driver, DriverError, ask, tell, now, set_driver, note_error, clear_error,
  fail, guard, drain_loop, drain, take_pair, refuse_answer, take_answer, read_pair, decay_rest,
  wait_for_charger_decay, no_error, is_no_error,
}

module _ (R : Rig) (P : System R → Type 0) where
  -- A call of the rig keeps `P`.
  abbrev pub OnWorld : (World R → World R) → Type 0
  OnWorld f = (s : System R) → P s → P (record s { world = f s.world })

  pub record Calm : Type 0 where
    pub at_error :
        (e : DriverError) (s : System R)
        → P s
        → P (record s { driver = record (s.driver) { error = e } })
    pub at_millis : OnWorld (λ w. (R.board.millis w).1)
    pub at_select : (a reg : ℕ) → OnWorld (λ w. (R.board.transmit a (reg ∷ []) false w).1)
    pub at_request : (a n : ℕ) → OnWorld (λ w. (R.board.request_from a n w).1)
    pub at_read : OnWorld (λ w. (R.board.read_byte w).1)
    pub at_delay : (n : ℕ) → OnWorld (R.delay n)

module _ {R : Rig} {P : System R → Type 0} (C : Calm R P) where
  pub ask-Calm :
      {A : Type 0} (f : World R → A × World R) → OnWorld R P (λ w. (f w).1) → Keeps P (ask R f)
  unfolding ask call
  ask-Calm f h = record { holds = h }

  pub tell-Calm : (f : World R → World R) → OnWorld R P f → Keeps P (tell R f)
  unfolding tell modify
  tell-Calm f h = record { holds = h }

  pub now-Calm : Keeps P (now R)
  now-Calm = ask-Calm R.board.millis C.at_millis

  pub delay-Calm : (n : ℕ) → Keeps P (tell R (R.delay n))
  delay-Calm n = tell-Calm (R.delay n) (C.at_delay n)

  pub note_error-Calm : (e : DriverError) → Keeps P (set_driver R (note_error R e))
  unfolding modify note_error
  note_error-Calm e = record {
    holds = λ s p.
        if_rule (λ (d : Driver). P (record s { driver = d })) (is_no_error s.driver.error)
          (λ _. C.at_error e s p) (λ _. p);
  }

  pub clear_error-Calm : Keeps P (clear_error R)
  unfolding clear_error modify
  clear_error-Calm = record { holds = λ s p. C.at_error no_error s p }

  pub fail-Calm : (A : Type 0) (e : DriverError) → Keeps P (fail R {A = A} e)
  unfolding fail
  fail-Calm A e = Keeps-bind _ _ (note_error-Calm e) λ _. Keeps-stop

  pub guard-Calm : (b : Bool) (e : DriverError) → Keeps P (guard R b e)
  unfolding guard
  guard-Calm b e = Keeps-if b _ _ (Keeps-pure tt) (fail-Calm _ e)

  drain_loop-Calm : (n : ℕ) → OnWorld R P (drain_loop R n)
  unfolding drain_loop
  drain_loop-Calm zero s p = p
  drain_loop-Calm (suc n) s p =
      if_rule (λ w. P (record s { world = w })) (R.board.available s.world == 0) (λ _. p)
        (λ _.
          drain_loop-Calm n (record s { world = (R.board.read_byte s.world).1 }) (C.at_read s p))

  drain-Calm : Keeps P (drain R)
  unfolding drain tell modify
  drain-Calm = record { holds = λ s p. drain_loop-Calm (R.board.available s.world) s p }

  take_pair-Calm : Keeps P (take_pair R)
  unfolding take_pair
  take_pair-Calm =
      Keeps-bind _ _ (ask-Calm _ C.at_read)
        λ _. Keeps-bind _ _ (ask-Calm _ C.at_read) λ _. Keeps-pure _

  take_answer-Calm : (address reg count : ℕ) → Keeps P (take_answer R address reg count)
  unfolding take_answer refuse_answer
  take_answer-Calm address reg count =
      Keeps-bind _ _ (Keeps-gets _)
        λ there. Keeps-if _ _ _ take_pair-Calm (Keeps-bind _ _ drain-Calm λ _. fail-Calm _ _)

  pub read_pair-Calm : (address reg : ℕ) → Keeps P (read_pair R address reg)
  unfolding read_pair
  read_pair-Calm address reg = Keeps-bind _ _ (ask-Calm _ (C.at_select address reg)) λ code.
      Keeps-bind _ _ (guard-Calm _ _) λ _.
        Keeps-bind _ _ (ask-Calm _ (C.at_request address 2))
          λ count. take_answer-Calm address reg count

  pub wait_for_charger_decay-Calm : Keeps P (wait_for_charger_decay R)
  unfolding wait_for_charger_decay decay_rest
  wait_for_charger_decay-Calm =
      Keeps-bind _ _ now-Calm
        λ t. Keeps-bind _ _ (Keeps-gets _) λ d. Keeps-if _ _ _ (Keeps-pure tt) (delay-Calm _)
