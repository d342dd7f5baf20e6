-- ===== src/PowerManager/Requests.antt =====
-- Under which inputs a tick asks for the charger and for the backup.
use tankervision_pdb.Common.{ℕ, true, false, Floats, ◌≡◌, ◌≢◌, ◌⊎◌, arith, inl, inr, refl}
use tankervision_pdb.PowerManager.State.{
  PendingAction, Inputs, Manager, maximum_v, backup_arm_v, charge_prepare, enable_charging,
  arm_backup,
}
use tankervision_pdb.PowerManager.Tick.{
  return_now, go_on, power_off_stage, settling_stage, main_loss_stage, deadline_stage,
  completion_stage, waiting_stage, supervise_stage, progress_stage, request_stage, phase_step, tick,
  voltage_valid, note_pong,
}
use tankervision_pdb.PowerManager.Stages.{tick_rule}
use tankervision_pdb.PowerManager.ChargeSafety.{Healthy}

module _ (F : Floats) (now : ℕ) (i : Inputs F) where
  open F use {Float, le}

  -- The inputs under which the backup may be armed.
  pub record Armable : Type 0 where
    pub status : i.status_valid ≡ true
    pub main : i.main_present ≡ true
    pub voltage : voltage_valid F i.vcap_v ≡ true
    pub above_minimum : le (backup_arm_v F) i.vcap_v ≡ true
    pub below_maximum : le i.vcap_v (maximum_v F) ≡ true

  module _ (old : PendingAction) where
    -- Nothing new, or an action that needs no condition.
    abbrev Plain : Manager F → Type 0
    Plain t =
        (t.pending ≡ old) ⊎ ((t.pending.kind ≢ enable_charging) × (t.pending.kind ≢ arm_backup))

    abbrev pub Justified : Manager F → Type 0
    Justified t =
        (t.pending ≡ old)
        ⊎ ((t.pending.kind ≡ enable_charging → Healthy F i × (t.prepared ≡ true))
            × (t.pending.kind ≡ arm_backup → Armable))

    -- Past the charging checks, a prepared manager has passed them.
    record Checked (t : Manager F) : Type 0 where
      plain : Plain t
      status : t.phase ≡ charge_prepare → t.prepared ≡ true → i.status_valid ≡ true
      voltage : t.phase ≡ charge_prepare → t.prepared ≡ true → voltage_valid F i.vcap_v ≡ true
      below_maximum :
          t.phase ≡ charge_prepare → t.prepared ≡ true → le (maximum_v F) i.vcap_v ≡ false
      no_fault : t.phase ≡ charge_prepare → t.prepared ≡ true → i.charge_fault ≡ false

    main_loss_stage-Plain : (s : Manager F) → Plain s → Plain (main_loss_stage F now i s)
    unfolding main_loss_stage
    main_loss_stage-Plain s p = ground arith

    completion_stage-Plain : (s : Manager F) → Plain s → Plain (completion_stage F now i s)
    unfolding completion_stage
    completion_stage-Plain s p = ground arith

    supervise_stage-Checked : (s : Manager F) → Plain s → Checked (supervise_stage F i s)
    unfolding supervise_stage
    supervise_stage-Checked s p = ground arith

    progress_stage-Checked : (s : Manager F) → Checked s → Checked (progress_stage F now i s)
    unfolding progress_stage
    progress_stage-Checked s p = ground arith

    request_stage-Checked :
        (s t : Manager F) → Checked s → request_stage F now i s ≡ go_on t → Checked t
    unfolding request_stage
    request_stage-Checked s t p e = ground arith

    request_stage-Justified :
        (s t : Manager F) → Checked s → request_stage F now i s ≡ return_now t → Justified t
    unfolding request_stage
    request_stage-Justified s t p e = ground arith

    phase_step-Justified : (t : Manager F) → Checked t → Justified (phase_step F t.phase now i t)
    unfolding phase_step
    phase_step-Justified t p = ground arith

    power_off_stage-Plain :
        (s t : Manager F)
        → Plain s
        → (power_off_stage F now i s ≡ return_now t) ⊎ (power_off_stage F now i s ≡ go_on t)
        → Plain t
    unfolding power_off_stage
    power_off_stage-Plain s t p e = ground arith

    settling_stage-Plain :
        (s t : Manager F)
        → Plain s
        → (settling_stage F now i s ≡ return_now t) ⊎ (settling_stage F now i s ≡ go_on t)
        → Plain t
    unfolding settling_stage
    settling_stage-Plain s t p e = ground arith

    deadline_stage-Plain :
        (s t : Manager F)
        → Plain s
        → (deadline_stage F now i s ≡ return_now t) ⊎ (deadline_stage F now i s ≡ go_on t)
        → Plain t
    unfolding deadline_stage
    deadline_stage-Plain s t p e = ground arith

    waiting_stage-Plain :
        (s t : Manager F)
        → Plain s
        → (waiting_stage F s ≡ return_now t) ⊎ (waiting_stage F s ≡ go_on t)
        → Plain t
    unfolding waiting_stage
    waiting_stage-Plain s t p e = ground arith

    note_pong-Plain : (s : Manager F) → Plain s → Plain (note_pong F i s)
    unfolding note_pong
    note_pong-Plain s p = ground arith

    plain : (t : Manager F) → Plain t → Justified t
    plain t p = ground arith

    pub tick_rule-Justified :
        (s : Manager F) → s.begun ≡ true → Plain s → Justified (tick F now i s)
    tick_rule-Justified = tick_rule F now i {P = Plain} {R = Checked} {Q = Justified} (record {
      at_pong = note_pong-Plain;
      at_power_off = λ s t p e. plain t (power_off_stage-Plain s t p (inl e));
      past_power_off = λ s t p e. power_off_stage-Plain s t p (inr e);
      at_settling = λ s t p e. plain t (settling_stage-Plain s t p (inl e));
      past_settling = λ s t p e. settling_stage-Plain s t p (inr e);
      past_main_loss = main_loss_stage-Plain;
      at_deadline = λ s t p e. plain t (deadline_stage-Plain s t p (inl e));
      past_deadline = λ s t p e. deadline_stage-Plain s t p (inr e);
      past_completion = completion_stage-Plain;
      at_waiting = λ s t p e. plain t (waiting_stage-Plain s t p (inl e));
      past_waiting = λ s t p e. waiting_stage-Plain s t p (inr e);
      past_supervise = supervise_stage-Checked;
      past_progress = progress_stage-Checked;
      at_request = request_stage-Justified;
      at_step = λ s t p e. phase_step-Justified t (request_stage-Checked s t p e);
    })

  tick-Justified : (s : Manager F) → s.begun ≡ true → Justified s.pending (tick F now i s)
  tick-Justified s b = tick_rule-Justified s.pending s b (inl refl)

  -- A tick asks for the charger only when preparation has succeeded, and only if this tick's
  -- status, voltage, charger and boost inputs are all good.
  pub tick-enable_charging :
      (s : Manager F)
      → s.begun ≡ true
      → (tick F now i s).pending.kind ≡ enable_charging
      → (tick F now i s).pending ≢ s.pending
      → Healthy F i × ((tick F now i s).prepared ≡ true)
  tick-enable_charging s b k new = ground (arith, tick-Justified s b)

  -- A tick asks to arm the backup only with a valid status, the main supply present, and a valid
  -- capacitor voltage from the arming threshold to the maximum.
  pub tick-arm_backup :
      (s : Manager F)
      → s.begun ≡ true
      → (tick F now i s).pending.kind ≡ arm_backup
      → (tick F now i s).pending ≢ s.pending
      → Armable
  tick-arm_backup s b k new = ground (arith, tick-Justified s b)
