-- ===== src/BoardControl/Enables.antt =====
-- What `setCharger` and `disableChargingForPowerLoss` have verified where they succeed.
use tankervision_pdb.Common.{
  ℕ, Bool, true, false, ◌≡◌, refl, some, arith, sym, subst, ap, ◌∙◌, low_bits,
}
use tankervision_pdb.Common.Act.{Act, pure, continue, modify, after, stop_here, ◌>>=◌, ◌>>◌}
use tankervision_pdb.Common.Triples.{Triple, Triple-bind, Triple-keep, Triple-modify}
use tankervision_pdb.BoardControl.Driver.{
  Rig, System, Method, DriverError, Registers, guard, fail, validate, read_registers, write_outputs,
  unused_inputs, internal_address,
}
use tankervision_pdb.BoardControl.Steady.{
  Steady, write_register-Steady, read_registers-Steady, delay-Steady,
}

-- The two latches as the driver has them.
pub record Latched {R : Rig} (i e : ℕ) (s : System R) : Type 0 where
  pub internal : s.driver.internal_outputs ≡ i
  pub external : s.driver.external_outputs ≡ e

-- The directions, the polarity, the latch and the pins of an expander that drives `v`.
pub record Valid (r : Registers) (v : ℕ) : Type 0 where
  pub directions : (r.config.low ≡ 0xff) × (r.config.high_byte ≡ unused_inputs)
  pub polarity : (r.polarity.low ≡ 0) × (r.polarity.high_byte ≡ 0)
  pub latch : (r.output.low ≡ 0) × (r.output.high_byte ≡ v)
  pub pins : low_bits r.input.high_byte 5 ≡ low_bits v 5

-- The last thing done was a read of the registers, and they are those of an expander that drives `v`.
pub record Confirmed (R : Rig) (address v : ℕ) (s : System R) : Type 0 where
  pub origin : System R
  pub registers : Registers
  pub was_read : read_registers R address origin ≡ (some registers, s)
  pub valid : Valid registers v

pub guard_passed :
    (R : Rig) (b : Bool) (e : DriverError) (s : System R) (u : Unit {0})
    → (guard R b e s).0 ≡ some u
    → (b ≡ true) × (guard R b e s ≡ (some tt, s))
unfolding guard fail stop_here modify ◌>>=◌ continue pure
guard_passed R true e s u h = (refl, refl)
guard_passed R false e s u h = cc

-- What follows a guard in a method that succeeds starts where the guard stood.
pub guard_then :
    (R : Rig) (b : Bool) (e : DriverError) {A : Type 0} (k : Method R A) (s : System R) (a : A)
    → ((guard R b e >> k) s).0 ≡ some a
    → (b ≡ true) × ((guard R b e >> k) s ≡ k s)
unfolding guard fail stop_here modify ◌>>=◌ continue pure
guard_then R true e k s a h = (refl, refl)
guard_then R false e k s a h = cc

-- A call that returns `a`, with the state behind it.
pub returned :
    {S A : Type 0} (m : Act S A) (s : S) (a : A) → (m s).0 ≡ some a → m s ≡ (some a, after m s)
returned m s a h = ap (λ o. (o, after m s)) h

pub validate-Valid :
    (R : Rig) (address : ℕ) (r : Registers) (v : ℕ) (s : System R)
    → (validate R address r v s).0 ≡ some tt
    → Valid r v × (validate R address r v s ≡ (some tt, s))
unfolding validate
validate-Valid R address r v s h =
    let (d, one) = guard_then R _ _ _ s tt h in
    let h = ap (λ z. z.0) (sym one) ∙ h in
    let (q, two) = guard_then R _ _ _ s tt h in
    let h = ap (λ z. z.0) (sym two) ∙ h in
    let (l, three) = guard_then R _ _ _ s tt h in
    let h = ap (λ z. z.0) (sym three) ∙ h in
    let (n, four) = guard_passed R _ _ s tt h in
    (
      record {
        directions = ground arith;
        polarity = ground arith;
        latch = ground arith;
        pins = ground arith;
      },
      one ∙ (two ∙ (three ∙ four)),
    )

module _ {R : Rig} where
  pub Latched-Steady : (i e : ℕ) → Steady R (Latched i e)
  Latched-Steady i e = record {
    at_error = λ x s p. record { internal = p.internal; external = p.external };
    at_millis = λ s p. record { internal = p.internal; external = p.external };
    at_transmit = λ a bs stop s p. record { internal = p.internal; external = p.external };
    at_request = λ a n s p. record { internal = p.internal; external = p.external };
    at_read = λ s p. record { internal = p.internal; external = p.external };
    at_pin = λ k s p. record { internal = p.internal; external = p.external };
    at_analog = λ k s p. record { internal = p.internal; external = p.external };
    at_delay = λ n s p. record { internal = p.internal; external = p.external };
  }

  record Read (P : System R → Type 0) (address : ℕ) (r : Registers) (s : System R) : Type 0 where
    pub kept : P s
    pub origin : System R
    pub was_read : read_registers R address origin ≡ (some r, s)

  -- The latch is the driver's, and was read back.
  pub record Driven (i e : ℕ) (s : System R) : Type 0 where
    pub latched : Latched i e s
    pub confirmed : Confirmed R internal_address i s

  pub write_outputs-Driven :
      (v i e : ℕ) → Triple (Latched i e) (write_outputs R internal_address v) (λ _. Driven v e)
  unfolding write_outputs
  write_outputs-Driven v i e =
      let C = Latched-Steady v e in
      Triple-bind _ _ (Triple-keep _ (write_register-Steady (Latched-Steady i e) _ _ _)) λ _.
        Triple-bind {Q = λ _. Latched v e} _ _
          (Triple-modify _ (λ s p. record { internal = refl; external = p.external }))
          λ _. Triple-bind _ _ (Triple-keep _ (delay-Steady C 1)) λ _.
            Triple-bind {Q = Read (Latched v e) internal_address} _ _
              (record {
                ensured = λ s p r x. record {
                  kept = (read_registers-Steady C internal_address).holds s p;
                  origin = s;
                  was_read = returned (read_registers R internal_address) s r x;
                };
              })
              λ r. record {
                ensured = λ s p a x.
                    let (valid, same) = validate-Valid R internal_address r v s x in
                    subst (Driven v e) (ap (λ z. z.1) (sym same)) (record {
                      latched = p.kept;
                      confirmed = record {
                        origin = p.origin;
                        registers = r;
                        was_read = p.was_read;
                        valid = valid;
                      };
                    });
              }
