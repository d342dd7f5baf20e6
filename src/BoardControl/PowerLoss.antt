-- ===== src/BoardControl/PowerLoss.antt =====
-- What has been verified where `disableChargingForPowerLoss` succeeds.
use tankervision_pdb.Common.{
  ℕ, Bool, true, false, ◌≡◌, refl, List, [], ◌∷◌, some, arith, sym, subst, ◌∙◌, bit_xor, ap,
}
use tankervision_pdb.Common.Act.{modify, after, bind_split, continue, gets, ◌>>=◌, ◌>>◌}
use tankervision_pdb.Common.Triples.{Triple, Triple-bind, Triple-keep}
use tankervision_pdb.BoardHardware.Bits.{boost, ce, any_high}
use tankervision_pdb.BoardHardware.State.{Pair}
use tankervision_pdb.BoardControl.Driver.{
  Rig, World, System, DriverError, get_driver, clear_error, no_error, guard, read_pair,
  internal_address, stamp_charger_off, wait_for_charger_decay,
}
use tankervision_pdb.BoardControl.Calm.{read_pair-Calm, wait_for_charger_decay-Calm}
use tankervision_pdb.BoardControl.BoostKept.{
  BoostKept, Standing, standing, Stands, calm-Held, calm, force_ce-Stands, verify_low-Stands,
  stamp-Stands,
}
use tankervision_pdb.BoardControl.Shutdown.{verify_low, force_low, disable_charging_for_power_loss}
use tankervision_pdb.BoardControl.Enables.{guard_then, guard_passed, returned}

-- CE, or CE and boost: the latch and the pins were read low, by the last thing done.
pub record ReadLow (R : Rig) (mask : List ℕ) (s : System R) : Type 0 where
  pub origin : System R
  pub latch_state : System R
  pub polarity_state : System R
  pub input_state : System R
  pub actual : Pair
  pub polarity : Pair
  pub inputs : Pair
  pub latch_read : read_pair R internal_address 2 origin ≡ (some actual, latch_state)
  pub polarity_read : read_pair R internal_address 4 latch_state ≡ (some polarity, polarity_state)
  pub input_read : read_pair R internal_address 0 polarity_state ≡ (some inputs, input_state)
  pub noted : s ≡ record input_state {
    driver = record (input_state.driver) { internal_outputs = actual.high_byte };
  }
  pub latch_low : any_high actual.high_byte mask ≡ false
  pub pins_low : any_high (bit_xor inputs.high_byte polarity.high_byte) mask ≡ false

-- Two guards in a row.
both_passed :
    (R : Rig) (b c : Bool) (d e : DriverError) (s : System R)
    → ((guard R b d >> guard R c e) s).0 ≡ some tt
    → (b ≡ true) × (c ≡ true) × ((guard R b d >> guard R c e) s ≡ (some tt, s))
both_passed R b c d e s h =
    let (left, same) = guard_then R b d (guard R c e) s tt h in
    let (right, done) = guard_passed R c e s tt (ap (λ z. z.0) (sym same) ∙ h) in
    (left, right, same ∙ done)

verify_low-ReadLow :
    (R : Rig) (mask : List ℕ) (s : System R)
    → (verify_low R mask s).0 ≡ some tt
    → ReadLow R mask (after (verify_low R mask) s)
unfolding verify_low modify ◌>>=◌ continue
verify_low-ReadLow R mask s h =
    let read = read_pair R internal_address in
    let (actual, one, rest, first) = bind_split (read 2) _ s tt h in
    let (polarity, two, rest, second) = bind_split (read 4) _ _ tt rest in
    let (inputs, three, rest, third) = bind_split (read 0) _ _ tt rest in
    let (low, pins, fourth) = both_passed R _ _ _ _ _ rest in
    subst (ReadLow R mask) (ap (λ z. z.1) (sym (first ∙ (second ∙ (third ∙ fourth))))) (record {
      origin = s;
      latch_state = after (read 2) s;
      polarity_state = after (read 4) (after (read 2) s);
      input_state = after (read 0) (after (read 4) (after (read 2) s));
      actual = actual;
      polarity = polarity;
      inputs = inputs;
      latch_read = returned (read 2) s actual one;
      polarity_read = returned (read 4) _ polarity two;
      input_read = returned (read 0) _ inputs three;
      noted = refl;
      latch_low = ground arith;
      pins_low = ground arith;
    })

-- CE was read low, and what holds of boost so far.
record Lowered {R : Rig} {Q : World R → Type 0} (K : BoostKept R Q) (latch : ℕ) (s : System R)
    : Type 0 where
  pub low : ReadLow R (ce ∷ []) s
  pub stands : Stands K latch s

-- The latch that was read first; CE was read low while boost still stood; what follows is the rest of
-- the cut, and at its end CE and boost were read low.
pub record PowerCut {R : Rig} (Q : World R → Type 0) (start t : System R) : Type 0 where
  pub outputs : Pair
  pub read_first : (read_pair R internal_address 2 start).0 ≡ some outputs
  pub middle : System R
  pub standing : Standing Q outputs.high_byte middle.world
  pub charger_low : ReadLow R (ce ∷ []) middle
  pub cut :
      (force_low R (ce ∷ boost ∷ []) middle.driver.internal_outputs
          >> verify_low R (ce ∷ boost ∷ []))
        middle
      ≡ (some tt, t)
  pub both_low : ReadLow R (ce ∷ boost ∷ []) t

abbrev pub error_cleared : {R : Rig} → System R → System R
error_cleared s = record s { driver = record (s.driver) { error = no_error } }

module _ {R : Rig} {Q : World R → Type 0} (K : BoostKept R Q) (start : System R) (o : Pair) where
  cut-PowerCut :
      (read_pair R internal_address 2 start).0 ≡ some o
      → Triple
          (Lowered K o.high_byte)
          (do
            d ← get_driver R
            force_low R (ce ∷ boost ∷ []) d.internal_outputs
            verify_low R (ce ∷ boost ∷ []))
          (λ _. PowerCut Q start)
  unfolding gets ◌>>=◌ continue
  cut-PowerCut read = record {
    ensured = λ s p u h.
        let force = force_low R (ce ∷ boost ∷ []) s.driver.internal_outputs in
        let verify = verify_low R (ce ∷ boost ∷ []) in
        let (a, one, rest, same) = bind_split force (λ _. verify) s u h in
        record {
          outputs = o;
          read_first = read;
          middle = s;
          standing = p.stands.stands;
          charger_low = p.low;
          cut = returned (force >> verify) s u h;
          both_low =
              subst (ReadLow R (ce ∷ boost ∷ [])) (ap (λ z. z.1) (sym same))
                (verify_low-ReadLow R (ce ∷ boost ∷ []) _ rest);
        };
  }

  lower-PowerCut :
      (read_pair R internal_address 2 start).0 ≡ some o
      → Triple
          (Stands K o.high_byte)
          (do
            force_low R (ce ∷ []) o.high_byte
            verify_low R (ce ∷ [])
            stamp_charger_off R
            wait_for_charger_decay R
            verify_low R (ce ∷ [])
            d ← get_driver R
            force_low R (ce ∷ boost ∷ []) d.internal_outputs
            verify_low R (ce ∷ boost ∷ []))
          (λ _. PowerCut Q start)
  lower-PowerCut read =
      let l = o.high_byte in
      Triple-bind _ _ (Triple-keep _ (force_ce-Stands K l)) λ _.
        Triple-bind _ _ (Triple-keep _ (verify_low-Stands K l (ce ∷ []))) λ _.
          Triple-bind _ _ (Triple-keep _ (stamp-Stands K l)) λ _.
            Triple-bind _ _ (Triple-keep _ (wait_for_charger_decay-Calm (calm K l))) λ _.
              Triple-bind {Q = λ _. Lowered K l} _ _
                (record {
                  ensured = λ s p u h. record {
                    low = verify_low-ReadLow R (ce ∷ []) s h;
                    stands = (verify_low-Stands K l (ce ∷ [])).holds s p;
                  };
                })
                λ _. cut-PowerCut read

-- Whatever state the driver is in, ready or not: where `disableChargingForPowerLoss` succeeds, CE was
-- read low at its latch and its pin, and up to then, where boost was on in the latch that was read
-- first, no write has lowered it: whatever every other call keeps still holds. Only then CE and boost
-- were driven low, and the last thing done was to read both low at the latch and the pins.
pub disable_charging_for_power_loss-PowerCut :
    (R : Rig) (Q : World R → Type 0) (s : System R)
    → BoostKept R Q
    → Q s.world
    → (disable_charging_for_power_loss R s).0 ≡ some tt
    → PowerCut Q (error_cleared s) (after (disable_charging_for_power_loss R) s)
unfolding disable_charging_for_power_loss clear_error modify ◌>>=◌ continue
disable_charging_for_power_loss-PowerCut R Q s K q h =
    let read = read_pair R internal_address 2 in
    let (o, one, rest, same) = bind_split read _ (error_cleared s) tt h in
    subst (PowerCut Q (error_cleared s)) (ap (λ z. z.1) (sym same)) (
      (lower-PowerCut K (error_cleared s) o one).ensured _
        (record {
          stands =
              standing o.high_byte _
                ((read_pair-Calm (calm-Held K) internal_address 2).holds (error_cleared s)
                  (record { held = q })).held;
        })
        tt rest)
