-- ===== src/BoardHardware/Quiet.antt =====
-- Which services may send a frame that raises CE.
use tankervision_pdb.Common.{
  ℕ, Bool, false, Floats, ◌≡◌, ◌≢◌, ◌==◌, ◌&&◌, ◌∙◌, List, [], ◌∷◌, refl, sym, Option, none, some,
  arith, if_rule,
}
use tankervision_pdb.Common.Act.{after, Keeps, Keeps-bind}
use tankervision_pdb.BoardHardware.Bits.{high, ce, high-lower-ce}
use tankervision_pdb.BoardHardware.State.{
  Board, BoardHardware, System, HardwareError, Operation, reconcile, prepare_charge, enable_charge,
  disable_charging, port_change, restore_por, no_operation,
}
use tankervision_pdb.BoardHardware.Registers.{
  Method, note_error, write_register, force_ce_low, expect, internal_address, external_address,
  unused_inputs,
}
use tankervision_pdb.BoardHardware.Closed.{
  Closed, modify-Keeps, fail-Keeps, millis-Keeps, read_pair-Keeps, write_register-Keeps,
  verify_control_low-Keeps,
}
use tankervision_pdb.BoardHardware.Operations.{
  advance, succeed, drop_external, withdraw_charge, undo, fail_operation, settled, or_fail,
  stop_failed,
}

-- The frame writes the internal control register with CE high.
abbrev pub raises_ce : ℕ → List ℕ → Bool
raises_ce a (r ∷ v ∷ []) = a == internal_address && r == 3 && high v ce
raises_ce a _ = false

not_ce_register : (a r v : ℕ) → r ≢ 3 → raises_ce a (r ∷ v ∷ []) ≡ false
not_ce_register a r v h = ground arith

pub ce_low : (a v : ℕ) → high v ce ≡ false → raises_ce a (3 ∷ v ∷ []) ≡ false
ce_low a v h = ground arith

-- A property of the world that only a bad frame may end: for instance that none was sent.
pub record Watched (B : Board) (bad : ℕ → List ℕ → Bool) : Type 1 where
  pub Safe : B.World → Type 0
  pub millis : (w : B.World) → Safe w → Safe (B.millis w).1
  pub request_from : (a n : ℕ) (w : B.World) → Safe w → Safe (B.request_from a n w).1
  pub read_byte : (w : B.World) → Safe w → Safe (B.read_byte w).1
  pub digital_read : (p : ℕ) (w : B.World) → Safe w → Safe (B.digital_read p w).1
  pub transmit :
      (a : ℕ) (bs : List ℕ) (stop : Bool) (w : B.World)
      → bad a bs ≡ false
      → Safe w
      → Safe (B.transmit a bs stop w).1

module _ {F : Floats} {B : Board} (W : Watched B raises_ce) (op : Operation) where
  pub record Held (s : System F B) : Type 0 where
    pub safe : W.Safe s.world
    pub same : s.hw.operation ≡ op

  note_error-Held : (e : HardwareError) (s : System F B) → Held s → Held (note_error F B e s)
  unfolding note_error
  note_error-Held e s h = record {
    safe = h.safe;
    same = if_rule (λ (k : BoardHardware F). k.operation ≡ op) _ (λ _. h.same) (λ _. h.same);
  }

  pub Held-Closed : Closed F B raises_ce Held
  Held-Closed = record {
    millis = λ s h. record { safe = W.millis s.world h.safe; same = h.same };
    request_from = λ a n s h. record { safe = W.request_from a n s.world h.safe; same = h.same };
    read_byte = λ s h. record { safe = W.read_byte s.world h.safe; same = h.same };
    digital_read = λ p s h. record { safe = W.digital_read p s.world h.safe; same = h.same };
    transmit =
        λ a bs stop s ok h. record { safe = W.transmit a bs stop s.world ok h.safe; same = h.same };
    selects = λ a r. refl;
    error = note_error-Held;
  }

  pub expect-Held : (a v : ℕ) (s : System F B) → Held s → Held (expect F B a v s)
  expect-Held a v s h = record {
    safe = h.safe;
    same = if_rule (λ (k : BoardHardware F). k.operation ≡ op) _ (λ _. h.same) (λ _. h.same);
  }

  pub write_other-Held : (a r v : ℕ) → r ≢ 3 → Keeps Held (write_register F B a r v)
  write_other-Held a r v h = write_register-Keeps Held-Closed a r v (not_ce_register a r v h)

  pub write_low-Held : (a v : ℕ) → high v ce ≡ false → Keeps Held (write_register F B a 3 v)
  write_low-Held a v h = write_register-Keeps Held-Closed a 3 v (ce_low a v h)

  pub advance-Held : (n : ℕ) → Keeps Held (advance F B n)
  unfolding advance
  advance-Held n =
      Keeps-bind _ _ (millis-Keeps Held-Closed)
        λ _. modify-Keeps Held-Closed _ (λ s h. record { safe = h.safe; same = h.same })

  pub succeed-Held : Keeps Held (succeed F B)
  unfolding succeed
  succeed-Held = modify-Keeps Held-Closed _ (λ s h. record { safe = h.safe; same = h.same })

  pub force_ce_low-Held : Keeps Held (force_ce_low F B)
  unfolding force_ce_low
  force_ce_low-Held = Keeps-bind _ _ (read_pair-Keeps Held-Closed internal_address 2) λ outputs.
      Keeps-bind _ _ (write_low-Held internal_address _ (high-lower-ce outputs.high_byte)) λ _.
        Keeps-bind _ _ (read_pair-Keeps Held-Closed internal_address 6) λ _.
          Keeps-bind _ _ (write_other-Held internal_address 7 _ (omega arith)) λ _.
            Keeps-bind _ _ (verify_control_low-Keeps Held-Closed expect-Held (ce ∷ [])) λ _.
              Keeps-bind _ _ (millis-Keeps Held-Closed)
                λ _. modify-Keeps Held-Closed _ (λ s h. record { safe = h.safe; same = h.same })

  drop_external-Held : Keeps Held (drop_external F B)
  unfolding drop_external
  drop_external-Held =
      Keeps-bind _ _ (write_low-Held external_address 0 refl)
        λ _. write_other-Held external_address 7 unused_inputs (omega arith)

  undo-Held : (o : Operation) (s : System F B) → o ≢ port_change → Held s → Held (undo F B o s)
  unfolding undo withdraw_charge
  undo-Held prepare_charge s n h =
      force_ce_low-Held.holds _ (record { safe = h.safe; same = h.same })
  undo-Held enable_charge s n h =
      force_ce_low-Held.holds _ (record { safe = h.safe; same = h.same })
  undo-Held port_change s n h = absurd (n refl)
  undo-Held reconcile s n h = drop_external-Held.holds s h
  undo-Held restore_por s n h = drop_external-Held.holds s h
  undo-Held no_operation s n h = h
  undo-Held disable_charging s n h = h

  -- What follows is about the operations other than a port's.
  module _ (other : op ≢ port_change) where
    pub fail_operation-Held : (s : System F B) → Held s → Held (fail_operation F B s)
    unfolding fail_operation
    fail_operation-Held s h =
        let k = undo-Held s.hw.operation s (λ e. other (sym h.same ∙ e)) h in
        record { safe = k.safe; same = k.same }

    settled-Held : (r : Option (Unit {0})) (s : System F B) → Held s → Held (settled F B r s)
    unfolding settled
    settled-Held none s h = fail_operation-Held s h
    settled-Held (some _) s h = h

    pub or_fail_at :
        (m : Method F B (Unit {0})) (s : System F B) → Held (after m s) → Held (or_fail F B m s)
    unfolding or_fail
    or_fail_at m s h = let (r, t) = m s in settled-Held r t h

    pub or_fail-Held :
        (m : Method F B (Unit {0}))
        → Keeps Held m
        → (s : System F B) → Held s
        → Held (or_fail F B m s)
    or_fail-Held m k s h = or_fail_at m s (k.holds s h)

    pub stop_failed-Held :
        (e : HardwareError) (s : System F B) → Held s → Held (stop_failed F B e s)
    unfolding stop_failed
    stop_failed-Held e s h = or_fail-Held _ (fail-Keeps Held-Closed (Unit {0}) e) s h
