-- ===== src/SupercapTransfer/Cutoff.antt =====
-- The reasons for a cutoff, from the charging checks up to the deadline.
use tankervision_pdb.Common.{
  ℕ, Bool, true, false, not, Floats, ◌≡◌, ◌⊎◌, inl, inr, ◌∙◌, refl, sym, ap, subst, ◌≤◌, ◌&&◌, ◌||◌,
  leb, if◌then◌else◌, if_rule, sub32, arith,
}
use tankervision_pdb.BoardControl.{Status, BoardControl}
use tankervision_pdb.SupercapTransfer.State.{
  SupercapTransfer, System, fault, main_timeout, low_voltage, TransferError, of_board, ask, update,
  is_fault, is_cutoff, is_charging, is_ready, main_return_grace_ms, main_valid, cutoff_v, zero_v,
  trip_v, arm_v, charge_timeout_ms, stat_low_ms, charge_timeout, enables_changed, thermistor,
  stat_low, invalid_voltage, overvoltage, backed_pg_fell, backup_pg_lost,
}
use tankervision_pdb.SupercapTransfer.Shutdown.{request_cutoff, raise_fault, loss_expired}
use tankervision_pdb.SupercapTransfer.Charge.{
  finish, hold_plateau, near_full, plateau_step, recharge_step, arm_step, stat_step, charge_step,
  enables_expected, ts_valid,
}
use tankervision_pdb.SupercapTransfer.Service.{cut_off_now, check_status, late_cutoff}
use tankervision_pdb.SupercapTransfer.Core.{core, Has, raise_fault-Has}

module _ (F : Floats) (B : BoardControl F) where
  hold_plateau-going :
      (now : ℕ) (t : Status F) (h : SupercapTransfer F)
      → is_cutoff h.state ≡ false
      → is_cutoff (hold_plateau F B now t h).state ≡ false
  unfolding hold_plateau
  hold_plateau-going now t h e = ground arith

module _ {F : Floats} {B : BoardControl F} where
  open F use {le, lt, is_finite}

  -- The main source has been lost for 20 s or more, by a reading of the clock.
  pub record TimedOut (s : System F B) : Type 0 where
    reason : s.transfer.cutoff_reason ≡ main_timeout
    lost : s.transfer.loss_active ≡ true
    before : B.World
    late : main_return_grace_ms ≤ sub32 (B.millis before).0 s.transfer.first_loss_at

  -- The last status shows no valid main source, and 7 V or less on the armed backup.
  pub record RunDown (s : System F B) : Type 0 where
    reason : s.transfer.cutoff_reason ≡ low_voltage
    main : main_valid F s.transfer.last_status ≡ false
    armed : s.transfer.backup_armed ≡ true
    low : le s.transfer.last_status.vcap_v (cutoff_v F) ≡ true

  -- The run goes on, or the cutoff has one of the two reasons.
  pub record Justified (r : Bool × System F B) : Type 0 where
    pub why : (is_cutoff r.1.transfer.state ≡ false) ⊎ TimedOut r.1 ⊎ RunDown r.1

  -- The run goes on, and the last status is `t`.
  pub record Live (t : Status F) (s : System F B) : Type 0 where
    pub going : is_cutoff s.transfer.state ≡ false
    pub status : s.transfer.last_status ≡ t

  pub Has-Live : (t : Status F) (s u : System F B) → Has (core s.transfer) u → Live t s → Live t u
  unfolding core
  Has-Live t s u h l = let e = h.same in ground arith

  raise_fault-state :
      (e : TransferError) (s : System F B) → (raise_fault F B e s).1.transfer.state ≡ fault
  unfolding core
  raise_fault-state e s =
      let h = raise_fault-Has (core s.transfer) e s (record { same = refl }) in
      ap (λ c. c.state) h.same

  pub raise_fault-going :
      (e : TransferError) (s : System F B)
      → is_cutoff (raise_fault F B e s).1.transfer.state ≡ false
  raise_fault-going e s = let h = raise_fault-state e s in ground arith

  pub raise_fault-Live :
      (e : TransferError) (t : Status F) (s : System F B)
      → Live t s
      → Live t (raise_fault F B e s).1
  unfolding core
  raise_fault-Live e t s l =
      let h = raise_fault-Has (core s.transfer) e s (record { same = refl }) in
      let q = h.same in ground arith

  finish-going :
      (b : Bool) (s : System F B)
      → is_cutoff s.transfer.state ≡ false
      → is_cutoff (finish F B b s).1.transfer.state ≡ false
  unfolding finish
  finish-going b s h = ground arith

  plateau_step-going :
      (now : ℕ) (t : Status F) (b : Bool) (s : System F B)
      → is_cutoff s.transfer.state ≡ false
      → is_cutoff (plateau_step F B now t b s).1.transfer.state ≡ false
  unfolding plateau_step
  plateau_step-going now t b s h =
      let P = λ (r : Bool × System F B). is_cutoff r.1.transfer.state ≡ false in
      let f = λ (k : SupercapTransfer F).
        if near_full F B t then hold_plateau F B now t k else record k { plateau = false } in
      let u = update F B f s in
      let k : is_cutoff u.transfer.state ≡ false =
        if_rule (λ (x : SupercapTransfer F). is_cutoff x.state ≡ false) (near_full F B t)
          (λ _. hold_plateau-going F B now t s.transfer h) (λ _. h) in
      if_rule P (not (is_charging s.transfer.state)) (λ _. finish-going b s h)
        λ _.
          if_rule P
            (is_charging u.transfer.state
              && leb charge_timeout_ms (sub32 now u.transfer.started_at))
            (λ _. raise_fault-going charge_timeout u) (λ _. finish-going b u k)

  recharge_step-going :
      (now : ℕ) (t : Status F) (b : Bool) (s : System F B)
      → is_cutoff s.transfer.state ≡ false
      → is_cutoff (recharge_step F B now t b s).1.transfer.state ≡ false
  unfolding recharge_step
  recharge_step-going now t b s h = plateau_step-going now t b _ (ground arith)

  arm_step-going :
      (now : ℕ) (t : Status F) (b : Bool) (s : System F B)
      → is_cutoff s.transfer.state ≡ false
      → is_cutoff (arm_step F B now t b s).1.transfer.state ≡ false
  unfolding arm_step
  arm_step-going now t b s h =
      let P = λ (r : Bool × System F B). is_cutoff r.1.transfer.state ≡ false in
      let (armed, u) = ask F B (B.set_backup true) s in
      let (level, x) = ask F B (B.digital_read 42) u in
      let y = update F B (λ k. record k { backup_armed = level }) x in
      if_rule P (not s.transfer.backup_armed && le (arm_v F) t.vcap_v)
        (λ _.
          if_rule P armed (λ _. recharge_step-going now t b y h)
            (λ _. raise_fault-going of_board y))
        (λ _. recharge_step-going now t b s h)

  stat_step-going :
      (now : ℕ) (t : Status F) (b : Bool) (s : System F B)
      → is_cutoff s.transfer.state ≡ false
      → is_cutoff (stat_step F B now t b s).1.transfer.state ≡ false
  unfolding stat_step
  stat_step-going now t b s h =
      let P = λ (r : Bool × System F B). is_cutoff r.1.transfer.state ≡ false in
      let u =
        if s.transfer.stat_low_seen
        then s
        else update F B (λ k. record k { stat_low_seen = true; stat_low_at = now }) s in
      let k : is_cutoff u.transfer.state ≡ false =
        if_rule (λ (x : System F B). is_cutoff x.transfer.state ≡ false) s.transfer.stat_low_seen
          (λ _. h) (λ _. h) in
      if_rule P (not t.charger_stat)
        (λ _.
          if_rule P (leb stat_low_ms (sub32 now u.transfer.stat_low_at))
            (λ _. raise_fault-going stat_low u) (λ _. arm_step-going now t b u k))
        (λ _. arm_step-going now t b _ h)

  charge_step-going :
      (now : ℕ) (t : Status F) (b : Bool) (s : System F B)
      → is_cutoff s.transfer.state ≡ false
      → is_cutoff (charge_step F B now t b s).1.transfer.state ≡ false
  unfolding charge_step
  charge_step-going now t b s h =
      let P = λ (r : Bool × System F B). is_cutoff r.1.transfer.state ≡ false in
      if_rule P (not (is_charging s.transfer.state || is_ready s.transfer.state))
        (λ _. finish-going b s h)
        λ _.
          if_rule P (not (enables_expected F B t)) (λ _. raise_fault-going enables_changed s)
            λ _.
              if_rule P (not (ts_valid F B t)) (λ _. raise_fault-going thermistor s)
                (λ _. stat_step-going now t b s h)

  run_down :
      (t : Status F) (main : Bool) (s : System F B)
      → Live t s
      → main_valid F t ≡ main
      → (not main && s.transfer.backup_armed && le t.vcap_v (cutoff_v F)) ≡ true
      → RunDown (cut_off_now F B low_voltage s).1
  unfolding cut_off_now request_cutoff
  run_down t main s l m e =
      let q = l.status in
      record {
        reason = refl;
        main = ap (main_valid F) q ∙ (m ∙ ground arith);
        armed = ground arith;
        low = ap (λ (x : Status F). le x.vcap_v (cutoff_v F)) q ∙ ground arith;
      }

  fault-Justified : (e : TransferError) (s : System F B) → Justified (raise_fault F B e s)
  fault-Justified e s = record { why = inl (raise_fault-going e s) }

  pub check_status-Justified :
      (now : ℕ) (t : Status F) (s : System F B)
      → Live t s
      → Justified (check_status F B now t (main_valid F t) s)
  unfolding check_status
  check_status-Justified now t s l =
      let P = Justified in
      let h = s.transfer in
      if_rule P (not (is_finite t.vcap_v) || lt t.vcap_v (zero_v F))
        (λ _. fault-Justified invalid_voltage s)
        λ _.
          if_rule P (le (trip_v F) t.vcap_v && not (is_fault h.state))
            (λ _. fault-Justified overvoltage s)
            λ _.
              if_rule P (not (main_valid F t) && h.backup_armed && le t.vcap_v (cutoff_v F))
                (λ e. record { why = inr (inr (run_down t (main_valid F t) s l refl e)) })
                λ _.
                  if_rule P (not t.ss_buck_pg && not (is_fault h.state))
                    (λ _. fault-Justified backed_pg_fell s)
                    λ _.
                      if_rule P (h.backup_armed && not t.backup_pg && not (is_fault h.state))
                        (λ _. fault-Justified backup_pg_lost s)
                        (λ _. record {
                          why = inl (charge_step-going now t (main_valid F t) s l.going);
                        })

  -- The deadline, with the clock that was read for it.
  record Expired (s : System F B) : Type 0 where
    lost : s.transfer.loss_active ≡ true
    late : main_return_grace_ms ≤ sub32 (B.millis s.world).0 s.transfer.first_loss_at

  loss_expired_lem : (s : System F B) → (loss_expired F B s).0 ≡ true → Expired s
  unfolding loss_expired
  loss_expired_lem s e = ground arith

  loss_expired-core : (s : System F B) → (loss_expired F B s).1.transfer ≡ s.transfer
  unfolding loss_expired
  loss_expired-core s =
      if_rule (λ (r : Bool × System F B). r.1.transfer ≡ s.transfer) s.transfer.loss_active
        (λ _. refl) (λ _. refl)

  timed_out :
      (s t : System F B)
      → Expired s
      → t.transfer ≡ s.transfer
      → TimedOut (cut_off_now F B main_timeout t).1
  unfolding cut_off_now request_cutoff
  timed_out s t x e = record {
    reason = refl;
    lost = ap (λ (h : SupercapTransfer F). h.loss_active) e ∙ x.lost;
    before = s.world;
    late =
        subst
          (λ (h : SupercapTransfer F).
            main_return_grace_ms ≤ sub32 (B.millis s.world).0 h.first_loss_at)
          (sym e) x.late;
  }

  pub late_cutoff-Justified :
      (next : System F B → Bool × System F B) (s : System F B)
      → ((t : System F B) → t.transfer ≡ s.transfer → Justified (next t))
      → Justified (late_cutoff F B next s)
  unfolding late_cutoff
  late_cutoff-Justified next s k =
      let (late, t) = loss_expired F B s in
      if_rule Justified late
        (λ e. record {
          why = inr (inl (timed_out s t (loss_expired_lem s e) (loss_expired-core s)));
        })
        (λ _. k t (loss_expired-core s))
