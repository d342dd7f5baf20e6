-- ===== src/BoardControl/Charging.antt =====
-- What has been verified where `setCharger(true)` succeeds.
use tankervision_pdb.Common.{
  ℕ, Bool, true, false, not, Floats, ◌≡◌, refl, ◌&&◌, some, arith, sym, subst, ◌∙◌, ap,
}
use tankervision_pdb.Common.Act.{modify, after, bind_some, bind_value, continue, gets, ◌>>=◌, ◌>>◌}
use tankervision_pdb.Common.Triples.{Triple}
use tankervision_pdb.BoardHardware.Bits.{high, raise, boost, ce}
use tankervision_pdb.BoardControl.{Status}
use tankervision_pdb.BoardControl.Driver.{
  Rig, System, charger_inhibited, no_error, clear_error, require_ready, guard, write_outputs,
  internal_address,
}
use tankervision_pdb.BoardControl.Reading.{main_present, read_status_impl}
use tankervision_pdb.BoardControl.Setters.{
  switch_internal, start_charger, set_charger_impl, set_charger,
}
use tankervision_pdb.BoardControl.Steady.{read_status_impl-Steady}
use tankervision_pdb.BoardControl.Enables.{
  Latched, Latched-Steady, Driven, guard_then, write_outputs-Driven,
}

and_all : (a b c : Bool) → a && (b && c) ≡ true → (a ≡ true) × (b ≡ true) × (c ≡ true)
and_all true true true h = (refl, refl, refl)
and_all true true false h = cc
and_all true false c h = cc
and_all false b c h = cc

module _ (F : Floats) (R : Rig) where
  open F use {lit, lt}

  -- The status that is read in the state `o` allows the charger with the latch `i`.
  pub record Chargeable (i : ℕ) (o : System R) : Type 0 where
    pub status : Status F
    pub was_read : (read_status_impl F R o).0 ≡ some status
    pub main : main_present F status ≡ true
    pub boost_on : high i boost ≡ true
    pub boost_good : status.boost_pg ≡ true
    pub below_limit : lt (lit 210 1) status.vcap_v ≡ false

  pub record Charging (o : System R) (i e : ℕ) (s : System R) : Type 0 where
    pub driven : Driven (raise i ce) e s
    pub chargeable : Chargeable i o

  switch-Driven :
      (i e k : ℕ) (s : System R)
      → Latched i e s
      → (switch_internal F R true k s).0 ≡ some tt
      → Driven (raise i k) e (after (switch_internal F R true k) s)
  unfolding switch_internal gets ◌>>=◌ continue
  switch-Driven i e k s p x =
      subst
        (λ v.
          Driven v e
            (after (write_outputs R internal_address (raise s.driver.internal_outputs k)) s))
        (ap (λ v. raise v k) p.internal)
        ((write_outputs-Driven (raise s.driver.internal_outputs k) i e).ensured s p tt x)

  start_charger-Charging :
      (o : System R) (i e : ℕ) (x : Status F)
      → (read_status_impl F R o).0 ≡ some x
      → Triple (Latched i e) (start_charger F R x) (λ _. Charging o i e)
  unfolding start_charger gets ◌>>=◌ continue
  start_charger-Charging o i e x read = record {
    ensured = λ s p u h.
        let (m, same) =
          guard_then R (main_present F x && (high s.driver.internal_outputs boost && x.boost_pg)) _
            (guard R (not (lt (lit 210 1) x.vcap_v)) charger_inhibited
              >> switch_internal F R true ce)
            s u h in
        let h = ap (λ z. z.0) (sym same) ∙ h in
        let (l, again) = guard_then R (not (lt (lit 210 1) x.vcap_v)) charger_inhibited _ s u h in
        let h = ap (λ z. z.0) (sym again) ∙ h in
        let (main, on, good) = and_all _ _ _ m in
        subst (Charging o i e) (ap (λ z. z.1) (sym (same ∙ again))) (record {
          driven = switch-Driven i e ce s p h;
          chargeable = record {
            status = x;
            was_read = read;
            main = main;
            boost_on = subst (λ v. high v boost ≡ true) p.internal on;
            boost_good = good;
            below_limit = ground arith;
          };
        });
  }

  abbrev pub cleared : System R → System R
  cleared s = record s { driver = record (s.driver) { error = no_error } }

  -- Where `setCharger(true)` succeeds, the status that it read first shows the main source, boost
  -- enabled with its power good, and no more than 21 V; CE is added to the latch, the other outputs
  -- are as before, and the last thing done was to read the latch, its pins, directions and polarity
  -- back as that.
  pub set_charger-Charging :
      (s : System R)
      → (set_charger F R true s).0 ≡ some tt
      → Charging
          (cleared s)
          s.driver.internal_outputs
          s.driver.external_outputs
          (after (set_charger F R true) s)
  unfolding set_charger clear_error modify require_ready gets ◌>>=◌ continue set_charger_impl
  set_charger-Charging s h =
      let o = cleared s in
      let (ready, same) = guard_then R o.driver.ready _ (set_charger_impl F R true) o tt h in
      let h = ap (λ z. z.0) (sym same) ∙ h in
      let (x, read, rest) = bind_some (read_status_impl F R) _ o tt h in
      let p =
        (read_status_impl-Steady
            (Latched-Steady s.driver.internal_outputs s.driver.external_outputs) F).holds
          o (record { internal = refl; external = refl }) in
      let go = bind_value (read_status_impl F R) (start_charger F R) o x read in
      subst (Charging o s.driver.internal_outputs s.driver.external_outputs)
        (ap (λ z. z.1) (sym (same ∙ go)))
        ((start_charger-Charging o _ _ x read).ensured _ p tt rest)
