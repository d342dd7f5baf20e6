-- ===== src/BoardControl/BackupRuns.antt =====
-- No operation of `BoardControl` but the final release lets go of an armed backup unseen.
use tankervision_pdb.Common.{
  ℕ, Bool, true, false, Floats, ◌≡◌, refl, inl, inr, ◌&&◌, List, [], ◌∷◌, Option, none, some, arith,
  if_rule,
}
use tankervision_pdb.Common.Act.{
  Keeps-pure, Keeps-gets, Keeps-stop, Keeps-if, Keeps-bind, Keeps-bind_from, Keeps-attempt,
  Keeps-optional, pure, continue, after, optional, stop_here, gets, ◌>>=◌,
}
use tankervision_pdb.Common.Triples.{Triple, Triple-bind, Triple-keep}
use tankervision_pdb.BoardControl.{Status}
use tankervision_pdb.BoardControl.Driver.{Rig, World, System, Method, tell, guard, fail}
use tankervision_pdb.BoardControl.Reading.{main_present, read_status_impl, read_status}
use tankervision_pdb.BoardControl.Setters.{checked_status, set_buck_5v, set_charger}
use tankervision_pdb.BoardControl.Shutdown.{
  led_pin, set_status_led, verify_low, force_low, disable_charging_for_power_loss,
  set_jetson_button, may_switch, drive_backup, set_backup, log_preserved, shows_main, settle_backup,
  converters_off, all_off,
}
use tankervision_pdb.BoardControl.Steady.{
  ask-Steady, tell-Steady, clear_error-Steady, guard-Steady, require_ready-Steady, read_pair-Steady,
  write_register-Steady, read_adc_mv-Steady, wait_for_charger_decay-Steady, read_status_impl-Steady,
}
use tankervision_pdb.BoardControl.Backup.{
  Spared, MainSeen, Armed, P, seen, on_world, C, driver-Safe, stamp-Safe, write_outputs-Safe,
  internal-Safe, external-Safe, checked-Safe,
}
use tankervision_pdb.BoardControl.Calls.{
  Op, boost, buck_5v, charger, charge_high_current, thermistor_override, backup, status_led,
  jetson_button, port, power_loss, off, status, adc, step, run,
}
use tankervision_pdb.BoardControl.BackupSetters.{
  K, set_boost-Safe, set_buck_impl-Safe, begun-Safe, set_charger_impl-Safe,
  set_charge_high_current-Safe, set_thermistor_override-Safe, set_port-Safe,
}

module _ (F : Floats) {R : Rig} {Q : World R → Type 0} (W : Spared R Q) where
  -- Once the main source was seen, nothing more is claimed.
  seen_rule : {A : Type 0} → MainSeen F R Q → (m : Method R A) → K F W m
  seen_rule x m = record { holds = λ s _. seen F W (after m s) x }

  led-Safe : (on : Bool) → K F W (tell R (R.board.digital_write led_pin on))
  led-Safe on = tell-Steady (C F W) _ (on_world F W _ (W.at_led on))

  set_status_led-Safe : (on : Bool) → K F W (set_status_led R on)
  unfolding set_status_led
  set_status_led-Safe on = begun-Safe F W _ (
      Keeps-bind _ _ (led-Safe on)
        λ _. Keeps-bind _ _ (ask-Steady (C F W) _ ((C F W).at_pin _)) λ _. guard-Steady (C F W) _ _)

  set_jetson_button-Safe : (on : Bool) → K F W (set_jetson_button F R on)
  unfolding set_jetson_button
  set_jetson_button-Safe on = Keeps-bind _ _ (checked-Safe F W) λ s. external-Safe F W _ _

  verify_low-Safe : (mask : List ℕ) → K F W (verify_low R mask)
  unfolding verify_low
  verify_low-Safe mask = Keeps-bind _ _ (read_pair-Steady (C F W) _ _) λ _.
      Keeps-bind _ _ (read_pair-Steady (C F W) _ _) λ _.
        Keeps-bind _ _ (read_pair-Steady (C F W) _ _) λ _.
          Keeps-bind _ _ (driver-Safe F W _ (λ _. refl))
            λ _. Keeps-bind _ _ (guard-Steady (C F W) _ _) λ _. guard-Steady (C F W) _ _

  force_low-Safe : (mask : List ℕ) (latch : ℕ) → K F W (force_low R mask latch)
  unfolding force_low
  force_low-Safe mask latch = Keeps-bind _ _ (write_register-Steady (C F W) _ _ _) λ _.
      Keeps-bind _ _ (driver-Safe F W _ (λ _. refl))
        λ _. Keeps-bind _ _ (read_pair-Steady (C F W) _ _) λ _. write_register-Steady (C F W) _ _ _

  power_loss-Safe : K F W (disable_charging_for_power_loss R)
  unfolding disable_charging_for_power_loss
  power_loss-Safe = Keeps-bind _ _ (clear_error-Steady (C F W)) λ _.
      Keeps-bind _ _ (read_pair-Steady (C F W) _ _) λ _. Keeps-bind _ _ (force_low-Safe _ _) λ _.
        Keeps-bind _ _ (verify_low-Safe _) λ _. Keeps-bind _ _ (stamp-Safe F W) λ _.
          Keeps-bind _ _ (wait_for_charger_decay-Steady (C F W)) λ _.
            Keeps-bind _ _ (verify_low-Safe _) λ _.
              Keeps-bind _ _ (Keeps-gets _)
                λ _. Keeps-bind _ _ (force_low-Safe _ _) λ _. verify_low-Safe _

  log_preserved-Safe : K F W (log_preserved F R)
  unfolding log_preserved
  log_preserved-Safe =
      Keeps-bind _ _ (Keeps-gets _)
        λ d. Keeps-if _ _ _ (tell-Steady (C F W) _ (on_world F W _ (W.at_log _))) (Keeps-pure tt)

  shown :
      (s : System R) (o : Option (Status F))
      → Armed Q s
      → (optional (read_status_impl F R) s).0 ≡ some o
      → shows_main F R o ≡ true
      → MainSeen F R Q
  unfolding optional
  shown s none a e m = cc
  shown s (some x) a e m = record { state = s; status = x; was_armed = a; was_read = cc; shows = m }

  settle_backup-Safe : K F W (settle_backup F R)
  unfolding settle_backup
  settle_backup-Safe =
      Keeps-bind_from _ _ (Keeps-optional _ (read_status_impl-Steady (C F W) F)) λ s o p e q.
        (Keeps-bind _ _
            (if_rule (λ (m : Method R (Unit {0})). K F W m) (shows_main F R o)
              (λ m. seen_rule (elim p.verdict [ inl a ↦ shown s o a e m | inr x ↦ x ]) _)
              (λ _. log_preserved-Safe))
            λ _. Keeps-pure _).holds
          _ q

  converters_off-Safe : (b : Bool) → K F W (converters_off F R b)
  unfolding converters_off
  converters_off-Safe true =
      Keeps-attempt _
        (Keeps-bind _ _ (wait_for_charger_decay-Steady (C F W)) λ _. write_outputs-Safe F W _ _)
  converters_off-Safe false = Keeps-pure false

  all_off-Safe : K F W (all_off F R)
  unfolding all_off
  all_off-Safe = begun-Safe F W _ (
      Keeps-bind _ _ (Keeps-attempt _ (internal-Safe F W _ _)) λ low.
        Keeps-bind _ _ (Keeps-if low _ _ (stamp-Safe F W) (Keeps-pure tt)) λ _.
          Keeps-bind _ _ (Keeps-attempt _ (write_outputs-Safe F W _ _)) λ ports.
            Keeps-bind _ _ (converters_off-Safe (low && ports)) λ down.
              Keeps-bind _ _ (led-Safe false) λ _. Keeps-bind _ _ settle_backup-Safe λ valid.
                Keeps-if (low && (ports && (down && valid))) _ _ (Keeps-pure tt) Keeps-stop)

  -- An armed backup is let go only where the status shows the main source, and arming needs it too.
  may_switch-MainSeen :
      (on : Bool) (x : Status F) (s u : System R)
      → (read_status_impl F R s).0 ≡ some x
      → Armed Q s
      → (may_switch F R on x u).0 ≡ some tt
      → Armed Q u
      → MainSeen F R Q
  unfolding may_switch guard fail stop_here pure gets ◌>>=◌ continue
  may_switch-MainSeen false x s u r b e a = record {
    state = s;
    status = x;
    was_armed = b;
    was_read = r;
    shows = ground (arith, a.armed);
  }
  may_switch-MainSeen true x s u r b e a = record {
    state = s;
    status = x;
    was_armed = b;
    was_read = r;
    shows = ground arith;
  }

  may_switch-Safe : (on : Bool) (x : Status F) → K F W (may_switch F R on x)
  unfolding may_switch
  may_switch-Safe false x = Keeps-bind _ _ (Keeps-gets _) λ d. guard-Steady (C F W) _ _
  may_switch-Safe true x = Keeps-bind _ _ (guard-Steady (C F W) _ _) λ _. guard-Steady (C F W) _ _

  -- The status that an operation checks was read in some state.
  record ReadIn (x : Status F) : Type 0 where
    pub origin : System R
    pub was_safe : P F W origin
    pub was_read : (read_status_impl F R origin).0 ≡ some x

  checked-ReadIn : Triple (P F W) (checked_status F R) (λ x _. ReadIn x)
  unfolding checked_status
  checked-ReadIn = Triple-bind _ _ (Triple-keep _ (clear_error-Steady (C F W))) λ _.
      Triple-bind _ _ (Triple-keep _ (require_ready-Steady (C F W)))
        λ _. record { ensured = λ s p x e. record { origin = s; was_safe = p; was_read = e } }

  set_backup-Safe : (on : Bool) → K F W (set_backup F R on)
  unfolding set_backup
  set_backup-Safe on = Keeps-bind_from _ _ (checked-Safe F W) λ s x p e q.
      let r = checked-ReadIn.ensured s p x e in
      (Keeps-bind_from (may_switch F R on x) (λ _. drive_backup F R on) (may_switch-Safe on x)
          λ u a v f w.
            let m : MainSeen F R Q = elim v.verdict [
              | inl now_armed ↦ (elim r.was_safe.verdict [
                | inl armed ↦ may_switch-MainSeen on x r.origin u r.was_read armed f now_armed
                | inr m ↦ m
              ])
              | inr m ↦ m
            ] in
            (seen_rule m (drive_backup F R on)).holds _ w).holds
        _ q

  step-Safe : (o : Op) (s : System R) → P F W s → P F W (step F R o s)
  unfolding step set_buck_5v set_charger read_status
  step-Safe (boost on) s p = (set_boost-Safe F W on).holds s p
  step-Safe (buck_5v on) s p = (begun-Safe F W _ (set_buck_impl-Safe F W on)).holds s p
  step-Safe (charger on) s p = (begun-Safe F W _ (set_charger_impl-Safe F W on)).holds s p
  step-Safe (charge_high_current on) s p = (set_charge_high_current-Safe F W on).holds s p
  step-Safe (thermistor_override on) s p = (set_thermistor_override-Safe F W on).holds s p
  step-Safe (backup on) s p = (set_backup-Safe on).holds s p
  step-Safe (status_led on) s p = (set_status_led-Safe on).holds s p
  step-Safe (jetson_button on) s p = (set_jetson_button-Safe on).holds s p
  step-Safe (port x on) s p = (set_port-Safe F W x on).holds s p
  step-Safe power_loss s p = power_loss-Safe.holds s p
  step-Safe off s p = all_off-Safe.holds s p
  step-Safe status s p = (begun-Safe F W _ (read_status_impl-Steady (C F W) F)).holds s p
  step-Safe (adc pin) s p = (read_adc_mv-Steady (C F W) pin).holds s p

  run-Safe : (os : List Op) (s : System R) → P F W s → P F W (run F R os s)
  unfolding run
  run-Safe [] s p = p
  run-Safe (o ∷ os) s p = run-Safe os (step F R o s) (step-Safe o s p)

-- While an armed backup is left alone and `Q` holds, no status that is read shows the main source.
pub record Blind (F : Floats) (R : Rig) (Q : World R → Type 0) : Type 0 where
  pub hidden :
      (s : System R) (x : Status F)
      → Armed Q s
      → (read_status_impl F R s).0 ≡ some x
      → main_present F x ≡ false

-- As long as a condition on the world, which the calls of the rig keep other than those on the backup's
-- pin, lets no status that is read show the main source, an armed backup stays armed and the
-- condition true over any sequence of operations other than `begin` and the final release.
pub run-armed :
    (F : Floats) (R : Rig) (Q : World R → Type 0) (os : List Op) (s : System R)
    → Spared R Q
    → Blind F R Q
    → s.driver.backup_enabled ≡ true
    → Q s.world
    → let t = run F R os s in (t.driver.backup_enabled ≡ true) × Q t.world
run-armed F R Q os s W b armed q =
    elim (run-Safe F W os s
      (record { verdict = inl (record { armed = armed; world = q }) })).verdict [
        | inl a ↦ (a.armed, a.world)
        | inr m ↦ absurd (
            let hidden = b.hidden m.state m.status m.was_armed m.was_read in
            let shown = m.shows in cc)
      ]
