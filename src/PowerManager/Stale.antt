-- ===== src/PowerManager/Stale.antt =====
-- Completions: `completeAction` takes one result for each action, and none for a replaced one.
use tankervision_pdb.Common.{
  ℕ, Bool, true, false, Floats, ◌<◌, ◌≡◌, ◌≢◌, ◌↔◌, ◌⊎◌, arith, u32_mod, inl, inr, refl,
}
use tankervision_pdb.PowerManager.State.{
  PendingAction, Inputs, Manager, shutdown_wait, no_action, charging, jetson_starting,
  request_jetson_shutdown,
}
use tankervision_pdb.PowerManager.Rules.{supervise_rule}
use tankervision_pdb.PowerManager.Tick.{
  return_now, go_on, power_off_stage, settling_stage, main_loss_stage, deadline_stage,
  completion_stage, waiting_stage, supervise_stage, progress_stage, request_stage, phase_step, tick,
  note_pong,
}
use tankervision_pdb.PowerManager.Stages.{tick_rule}
use tankervision_pdb.PowerManager.Invariant.{Inv}
use tankervision_pdb.PowerManager.Actions.{complete_action, bump_id, leave_charging}

bump_id-ne : (n : ℕ) → n < u32_mod → bump_id n ≢ n
unfolding bump_id
bump_id-ne n h = ground arith

bump_id-ne_zero : (n : ℕ) → bump_id n ≢ 0
unfolding bump_id
bump_id-ne_zero n = ground arith

module _ (F : Floats) where
  -- A completion is accepted exactly when its id is that of the pending action and no completion
  -- was accepted for it before.
  pub complete_action-accepts :
      (id : ℕ) (ok : Bool) (s : Manager F)
      → ((complete_action F id ok s).0 ≡ true)
        ↔ ((s.pending.kind ≢ no_action) × (s.pending.id ≡ id) × (s.completed ≡ false))
  unfolding complete_action
  complete_action-accepts id ok s = ground arith

  -- An accepted completion is recorded once: a second one is refused and changes nothing, and a refused one never changes anything.
  pub complete_action-once :
      (id jd : ℕ) (ok ko : Bool) (s : Manager F)
      → (complete_action F id ok s).0 ≡ true
      → let t = (complete_action F id ok s).1 in
        (t.completed ≡ true)
        × (t.completion_success ≡ ok)
        × (t.pending ≡ s.pending)
        × (complete_action F jd ko t ≡ (false, t))
  unfolding complete_action
  complete_action-once id jd ok ko s h = ground arith

module _ (F : Floats) (now : ℕ) (i : Inputs F) where
  module _ (old : PendingAction) (n : ℕ) where
    -- The action is the old one or gone, or a shutdown has just been started.
    abbrev Traced : Manager F → Type 0
    Traced t =
        ((t.next_action_id ≡ n) × ((t.pending ≡ old) ⊎ (t.pending.kind ≡ no_action)))
        ⊎ ((t.next_action_id ≡ bump_id n)
            × (t.phase ≡ shutdown_wait)
            × (t.shutdown_at ≡ now)
            × (((t.pending.id ≡ bump_id n) × (t.pending.kind ≡ request_jetson_shutdown))
                ⊎ (t.pending.kind ≡ no_action)))

    abbrev Ends : Manager F → Type 0
    Ends t = (t.pending ≡ old) ⊎ (t.pending.kind ≡ no_action) ⊎ (t.pending.id ≡ bump_id n)

    note_pong-Traced : (s : Manager F) → Traced s → Traced (note_pong F i s)
    unfolding note_pong
    note_pong-Traced s p = ground arith

    power_off_stage-Traced :
        (s t : Manager F) → Traced s → power_off_stage F now i s ≡ go_on t → Traced t
    unfolding power_off_stage
    power_off_stage-Traced s t p e = ground arith

    power_off_stage-Ends :
        (s t : Manager F) → Traced s → power_off_stage F now i s ≡ return_now t → Ends t
    unfolding power_off_stage
    power_off_stage-Ends s t p e = ground arith

    settling_stage-Traced :
        (s t : Manager F) → Traced s → settling_stage F now i s ≡ go_on t → Traced t
    unfolding settling_stage
    settling_stage-Traced s t p e = ground arith

    settling_stage-Ends :
        (s t : Manager F) → Traced s → settling_stage F now i s ≡ return_now t → Ends t
    unfolding settling_stage
    settling_stage-Ends s t p e = ground arith

    main_loss_stage-Traced : (s : Manager F) → Traced s → Traced (main_loss_stage F now i s)
    unfolding main_loss_stage
    main_loss_stage-Traced s p = ground arith

    deadline_stage-Traced :
        (s t : Manager F) → Traced s → deadline_stage F now i s ≡ go_on t → Traced t
    unfolding deadline_stage
    deadline_stage-Traced s t p e = ground arith

    deadline_stage-Ends :
        (s t : Manager F) → Traced s → deadline_stage F now i s ≡ return_now t → Ends t
    unfolding deadline_stage
    deadline_stage-Ends s t p e = ground arith

    completion_stage-Traced : (s : Manager F) → Traced s → Traced (completion_stage F now i s)
    unfolding completion_stage
    completion_stage-Traced s p = ground arith

    waiting_stage-Traced :
        (s t : Manager F)
        → Traced s
        → (waiting_stage F s ≡ return_now t) ⊎ (waiting_stage F s ≡ go_on t)
        → Traced t
    unfolding waiting_stage
    waiting_stage-Traced s t p e = ground arith

    leave_charging-Traced : (m : ℕ) (s : Manager F) → Traced s → Traced (leave_charging F m s)
    unfolding leave_charging
    leave_charging-Traced m s p = ground arith

    qualified-Traced :
        (s : Manager F)
        → Traced s
        → s.phase ≡ charging
        → Traced (record s { maintenance = true; phase = jetson_starting })
    qualified-Traced s p c = ground arith

    supervise_stage-Traced : (s : Manager F) → Traced s → Traced (supervise_stage F i s)
    supervise_stage-Traced s p =
        supervise_rule F Traced i s p (λ m. leave_charging-Traced m s p) (qualified-Traced s p)

    progress_stage-Traced : (s : Manager F) → Traced s → Traced (progress_stage F now i s)
    unfolding progress_stage
    progress_stage-Traced s p = ground arith

    request_stage-Traced :
        (s t : Manager F) → Traced s → request_stage F now i s ≡ go_on t → Traced t
    unfolding request_stage
    request_stage-Traced s t p e = ground arith

    request_stage-Ends :
        (s t : Manager F) → Traced s → request_stage F now i s ≡ return_now t → Ends t
    unfolding request_stage
    request_stage-Ends s t p e = ground arith

    phase_step-Ends : (s : Manager F) → Traced s → Ends (phase_step F s.phase now i s)
    unfolding phase_step
    phase_step-Ends s p = ground arith

    Traced-Ends : (t : Manager F) → Traced t → Ends t
    Traced-Ends t p = ground arith

    tick-Ends : (s : Manager F) → s.begun ≡ true → Traced s → Ends (tick F now i s)
    tick-Ends = tick_rule F now i {P = Traced} {R = Traced} {Q = Ends} (record {
      at_pong = note_pong-Traced;
      at_power_off = power_off_stage-Ends;
      past_power_off = power_off_stage-Traced;
      at_settling = settling_stage-Ends;
      past_settling = settling_stage-Traced;
      past_main_loss = main_loss_stage-Traced;
      at_deadline = deadline_stage-Ends;
      past_deadline = deadline_stage-Traced;
      past_completion = completion_stage-Traced;
      at_waiting = λ s t p e. Traced-Ends t (waiting_stage-Traced s t p (inl e));
      past_waiting = λ s t p e. waiting_stage-Traced s t p (inr e);
      past_supervise = supervise_stage-Traced;
      past_progress = progress_stage-Traced;
      at_request = request_stage-Ends;
      at_step = λ s t p e. phase_step-Ends t (request_stage-Traced s t p e);
    })

  -- When a tick has replaced or cancelled the pending action, a late result under the old id is refused, and changes nothing.
  pub tick-stale :
      (ok : Bool) (s : Manager F)
      → s.begun ≡ true
      → Inv F s
      → (tick F now i s).pending ≢ s.pending
      → complete_action F s.pending.id ok (tick F now i s) ≡ (false, tick F now i s)
  unfolding complete_action
  tick-stale ok s b v new = ground (
    arith,
    tick-Ends s.pending s.next_action_id s b (inl (refl, inl refl)),
    bump_id-ne s.next_action_id,
    bump_id-ne_zero s.next_action_id,
  )
