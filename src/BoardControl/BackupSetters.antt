-- ===== src/BoardControl/BackupSetters.antt =====
-- The setters of `BoardControl` keep an armed backup.
use tankervision_pdb.Common.{Bool, true, Floats, ◌&&◌}
use tankervision_pdb.Common.Act.{
  Keeps, Keeps-pure, Keeps-gets, Keeps-if, Keeps-bind, Keeps-attempt, ◌>>=◌, ◌>>◌,
}
use tankervision_pdb.BoardControl.{Port}
use tankervision_pdb.BoardControl.Driver.{
  Rig, World, Method, DriverError, clear_error, require_ready, wait_for_charger_decay,
}
use tankervision_pdb.BoardControl.Setters.{
  checked_status, charger_off, stop_boost, drop_boost, roll_back_boost, start_boost, set_boost,
  stop_buck, roll_back_buck, start_buck, set_buck_impl, start_charger, stop_charger,
  set_charger_impl, set_charge_high_current, set_thermistor_override, source_for, is_unbacked,
  is_five_volt_vbus, roll_back_port, open_port, enable_port, set_port,
}
use tankervision_pdb.BoardControl.Steady.{
  delay-Steady, clear_error-Steady, guard-Steady, require_ready-Steady,
  wait_for_charger_decay-Steady, read_status_impl-Steady, wait_pg-Steady,
}
use tankervision_pdb.BoardControl.Backup.{
  Spared, P, C, stamp-Safe, internal-Safe, external-Safe, checked-Safe, charger_off-Safe, undo-Safe,
}

module _ (F : Floats) {R : Rig} {Q : World R → Type 0} (W : Spared R Q) where
  abbrev pub K : {A : Type 0} → Method R A → Type 0
  K m = Keeps (P F W) m

  drop_boost-Safe : K (drop_boost F R)
  unfolding drop_boost
  drop_boost-Safe =
      Keeps-bind _ _ (stamp-Safe F W)
        λ _. Keeps-bind _ _ (wait_for_charger_decay-Steady (C F W)) λ _. internal-Safe F W _ _

  pub set_boost-Safe : (on : Bool) → K (set_boost F R on)
  unfolding set_boost start_boost stop_boost roll_back_boost
  set_boost-Safe on = Keeps-bind _ _ (checked-Safe F W) λ s.
      Keeps-if on _ _
        (Keeps-bind _ _ (guard-Steady (C F W) _ _) λ _. Keeps-bind _ _ (Keeps-gets _) λ d.
          Keeps-bind _ _ (guard-Steady (C F W) _ _) λ _. Keeps-bind _ _ (internal-Safe F W _ _) λ _.
            Keeps-bind _ _ (Keeps-attempt _ (wait_pg-Steady (C F W) F _ _)) λ good.
              Keeps-if good _ _ (Keeps-pure tt) (
                Keeps-bind _ _ (Keeps-attempt _ (internal-Safe F W _ _))
                  λ low. undo-Safe F W low _ drop_boost-Safe))
        (Keeps-bind _ _ (charger_off-Safe F W _)
          λ _. Keeps-bind _ _ (wait_for_charger_decay-Steady (C F W)) λ _. internal-Safe F W _ _)

  pub set_buck_impl-Safe : (on : Bool) → K (set_buck_impl F R on)
  unfolding set_buck_impl start_buck stop_buck roll_back_buck
  set_buck_impl-Safe on = Keeps-bind _ _ (read_status_impl-Steady (C F W) F) λ s.
      Keeps-if on _ _
        (Keeps-bind _ _ (guard-Steady (C F W) _ _) λ _. Keeps-bind _ _ (internal-Safe F W _ _) λ _.
          Keeps-bind _ _ (Keeps-attempt _ (wait_pg-Steady (C F W) F _ _)) λ good.
            Keeps-if good _ _ (Keeps-pure tt) (
              Keeps-bind _ _ (Keeps-attempt _ (external-Safe F W _ _))
                λ low. undo-Safe F W low _ (internal-Safe F W _ _)))
        (Keeps-bind _ _ (Keeps-gets _)
          λ d. Keeps-bind _ _ (guard-Steady (C F W) _ _) λ _. internal-Safe F W _ _)

  -- What is cleared and checked before an operation.
  pub begun-Safe : {A : Type 0} (m : Method R A) → K m → K (do clear_error R; require_ready R; m)
  begun-Safe m k =
      Keeps-bind _ _ (clear_error-Steady (C F W))
        λ _. Keeps-bind _ _ (require_ready-Steady (C F W)) λ _. k

  pub set_charger_impl-Safe : (on : Bool) → K (set_charger_impl F R on)
  unfolding set_charger_impl start_charger stop_charger
  set_charger_impl-Safe on = Keeps-bind _ _ (read_status_impl-Steady (C F W) F) λ s.
      Keeps-if on _ _
        (Keeps-bind _ _ (Keeps-gets _) λ d.
          Keeps-bind _ _ (guard-Steady (C F W) _ _)
            λ _. Keeps-bind _ _ (guard-Steady (C F W) _ _) λ _. internal-Safe F W _ _)
        (Keeps-bind _ _ (internal-Safe F W _ _) λ _. stamp-Safe F W)

  quiet_charger-Safe :
      (e : DriverError) (m : Method R (Unit {0}))
      → K m
      → K (do s ← checked_status F R; charger_off F R e; wait_for_charger_decay R; m)
  quiet_charger-Safe e m k = Keeps-bind _ _ (checked-Safe F W) λ s.
      Keeps-bind _ _ (charger_off-Safe F W e)
        λ _. Keeps-bind _ _ (wait_for_charger_decay-Steady (C F W)) λ _. k

  pub set_charge_high_current-Safe : (on : Bool) → K (set_charge_high_current F R on)
  unfolding set_charge_high_current
  set_charge_high_current-Safe on = quiet_charger-Safe _ _ (internal-Safe F W _ _)

  pub set_thermistor_override-Safe : (on : Bool) → K (set_thermistor_override F R on)
  unfolding set_thermistor_override
  set_thermistor_override-Safe on =
      quiet_charger-Safe _ _ (Keeps-bind _ _ (internal-Safe F W _ _) λ _. delay-Steady (C F W) _)

  open_port-Safe : (p : Port) (started : Bool) → K (open_port F R p started)
  unfolding open_port roll_back_port
  open_port-Safe p started = Keeps-bind _ _ (external-Safe F W _ _) λ _.
      Keeps-bind _ _ (Keeps-attempt _ (wait_pg-Steady (C F W) F _ _)) λ good.
        Keeps-if good _ _ (Keeps-pure tt) (
          Keeps-bind _ _ (Keeps-attempt _ (external-Safe F W _ _))
            λ low. undo-Safe F W (low && started) _ (internal-Safe F W _ _))

  pub set_port-Safe : (p : Port) (on : Bool) → K (set_port F R p on)
  unfolding set_port enable_port source_for
  set_port-Safe p on = Keeps-bind _ _ (checked-Safe F W) λ s.
      Keeps-if on _ _
        (Keeps-bind _ _
          (Keeps-if (is_unbacked p) _ _ (guard-Steady (C F W) _ _) (guard-Steady (C F W) _ _))
          λ _. Keeps-bind _ _ (Keeps-gets _) λ d.
            Keeps-bind _ _
              (Keeps-if (is_five_volt_vbus p) _ _ (set_buck_impl-Safe true) (Keeps-pure tt))
              λ _. open_port-Safe p _)
        (external-Safe F W _ _)
