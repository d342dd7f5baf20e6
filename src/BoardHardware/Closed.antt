-- ===== src/BoardHardware/Closed.antt =====
-- Predicates that the transactions keep: those that the calls of the world and the errors keep.
use tankervision_pdb.Common.{
  ℕ, zero, suc, Bool, true, false, Floats, ◌≡◌, ◌==◌, if◌then◌else◌, List, [], ◌∷◌,
}
use tankervision_pdb.Common.Act.{
  stop_here, call, modify, Keeps, Keeps-pure, Keeps-gets, Keeps-if, Keeps-bind,
}
use tankervision_pdb.BoardHardware.State.{Board, System, Pair, HardwareError}
use tankervision_pdb.BoardHardware.Registers.{
  ask, note_error, fail, guard, drain_loop, drain, take_pair, short_answer, read_answer, read_pair,
  write_register, read_expander, verify_operational, expect, write_control, verify_control_low,
  verify_por, internal_address, external_address,
}

-- `P` survives every call of the world, but for the frames that are `bad`, and every error.
pub record Closed (F : Floats) (B : Board) (bad : ℕ → List ℕ → Bool) (P : System F B → Type 0)
    : Type 0 where
  pub millis : (s : System F B) → P s → P (ask F B B.millis s).1
  pub request_from : (a n : ℕ) (s : System F B) → P s → P (ask F B (B.request_from a n) s).1
  pub read_byte : (s : System F B) → P s → P (ask F B B.read_byte s).1
  pub digital_read : (p : ℕ) (s : System F B) → P s → P (ask F B (B.digital_read p) s).1
  pub transmit :
      (a : ℕ) (bs : List ℕ) (stop : Bool) (s : System F B)
      → bad a bs ≡ false
      → P s
      → P (ask F B (B.transmit a bs stop) s).1
  pub selects : (a r : ℕ) → bad a (r ∷ []) ≡ false
  pub error : (e : HardwareError) (s : System F B) → P s → P (note_error F B e s)

module _ {F : Floats} {B : Board} {bad : ℕ → List ℕ → Bool} {P : System F B → Type 0}
    (c : Closed F B bad P) where
  pub ask-Keeps :
      {A : Type 0} (f : B.World → A × B.World)
      → ((s : System F B) → P s → P (ask F B f s).1)
      → Keeps P (call (ask F B f))
  unfolding call
  ask-Keeps f k = record { holds = k }

  pub modify-Keeps :
      (f : System F B → System F B) → ((s : System F B) → P s → P (f s)) → Keeps P (modify f)
  unfolding modify
  modify-Keeps f k = record { holds = k }

  pub fail-Keeps : (A : Type 0) (e : HardwareError) → Keeps P (fail F B {A = A} e)
  unfolding fail stop_here
  fail-Keeps A e = record { holds = λ s h. c.error e s h }

  pub guard-Keeps : (b : Bool) (e : HardwareError) → Keeps P (guard F B b e)
  unfolding guard
  guard-Keeps b e = Keeps-if b _ _ (Keeps-pure tt) (fail-Keeps (Unit {0}) e)

  pub millis-Keeps : Keeps P (call (ask F B B.millis))
  millis-Keeps = ask-Keeps B.millis c.millis

  drain_loop-Keeps :
      (n : ℕ) (s : System F B) → P s → P (record s { world = drain_loop F B n s.world })
  unfolding drain_loop
  drain_loop-Keeps zero s h = h
  drain_loop-Keeps (suc n) s h =
      elim (B.available s.world == 0)
        as (λ b.
          P (record s {
            world = if b then s.world else drain_loop F B n (B.read_byte s.world).1;
          })) [
            | true ↦ h
            | false ↦
                drain_loop-Keeps n (record s { world = (B.read_byte s.world).1 }) (c.read_byte s h)
          ]

  take_pair-Keeps : Keeps P (take_pair F B)
  unfolding take_pair
  take_pair-Keeps =
      Keeps-bind _ _ (ask-Keeps B.read_byte c.read_byte)
        λ _. Keeps-bind _ _ (ask-Keeps B.read_byte c.read_byte) λ _. Keeps-pure _

  short_answer-Keeps : (e : HardwareError) → Keeps P (short_answer F B e)
  unfolding short_answer drain
  short_answer-Keeps e =
      Keeps-bind _ _ (modify-Keeps _ (λ s h. drain_loop-Keeps _ s h)) λ _. fail-Keeps Pair e

  read_answer-Keeps : (a r n : ℕ) → Keeps P (read_answer F B a r n)
  unfolding read_answer
  read_answer-Keeps a r n =
      Keeps-bind _ _ (Keeps-gets _) λ _. Keeps-if _ _ _ take_pair-Keeps (short_answer-Keeps _)

  pub read_pair-Keeps : (a r : ℕ) → Keeps P (read_pair F B a r)
  unfolding read_pair
  read_pair-Keeps a r =
      Keeps-bind _ _ (ask-Keeps _ (λ s h. c.transmit a (r ∷ []) false s (c.selects a r) h)) λ _.
        Keeps-bind _ _ (guard-Keeps _ _)
          λ _. Keeps-bind _ _ (ask-Keeps _ (c.request_from a 2)) λ n. read_answer-Keeps a r n

  pub write_register-Keeps :
      (a r v : ℕ) → bad a (r ∷ v ∷ []) ≡ false → Keeps P (write_register F B a r v)
  unfolding write_register
  write_register-Keeps a r v ok =
      Keeps-bind _ _ (ask-Keeps _ (λ s h. c.transmit a (r ∷ v ∷ []) true s ok h))
        λ _. guard-Keeps _ _

  pub read_expander-Keeps : (a : ℕ) → Keeps P (read_expander F B a)
  unfolding read_expander
  read_expander-Keeps a = Keeps-bind _ _ (read_pair-Keeps a 0) λ _.
      Keeps-bind _ _ (read_pair-Keeps a 2) λ _.
        Keeps-bind _ _ (read_pair-Keeps a 4) λ _.
          Keeps-bind _ _ (read_pair-Keeps a 6) λ _. Keeps-bind _ _ millis-Keeps λ _. Keeps-pure _

  pub verify_operational-Keeps : Keeps P (verify_operational F B)
  unfolding verify_operational
  verify_operational-Keeps = Keeps-bind _ _ (read_expander-Keeps internal_address) λ _.
      Keeps-bind _ _ (read_expander-Keeps external_address) λ _.
        Keeps-bind _ _ (Keeps-gets _) λ _. Keeps-bind _ _ (guard-Keeps _ _) λ _. guard-Keeps _ _

  pub verify_por-Keeps : (a : ℕ) → Keeps P (verify_por F B a)
  unfolding verify_por
  verify_por-Keeps a = Keeps-bind _ _ (read_expander-Keeps a) λ _. guard-Keeps _ _

  -- Predicates that do not look at the expected latches.
  module _ (free : (a v : ℕ) (s : System F B) → P s → P (expect F B a v s)) where
    pub write_control-Keeps :
        (a v : ℕ) → bad a (3 ∷ v ∷ []) ≡ false → Keeps P (write_control F B a v)
    unfolding write_control
    write_control-Keeps a v ok = Keeps-bind _ _ (write_register-Keeps a 3 v ok) λ _.
        Keeps-bind _ _ (modify-Keeps _ (free a v))
          λ _. Keeps-bind _ _ (read_expander-Keeps a) λ _. guard-Keeps _ _

    pub verify_control_low-Keeps : (mask : List ℕ) → Keeps P (verify_control_low F B mask)
    unfolding verify_control_low
    verify_control_low-Keeps mask = Keeps-bind _ _ (read_pair-Keeps internal_address 2) λ outputs.
        Keeps-bind _ _ (read_pair-Keeps internal_address 4) λ _.
          Keeps-bind _ _ (read_pair-Keeps internal_address 0) λ _.
            Keeps-bind _ _ (modify-Keeps _ (free internal_address outputs.high_byte))
              λ _. guard-Keeps _ _
