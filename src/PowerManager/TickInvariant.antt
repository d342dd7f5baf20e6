-- ===== src/PowerManager/TickInvariant.antt =====
-- The stages of `tick`, and `tick`, keep the invariant of the manager.
use tankervision_pdb.Common.{ℕ, true, false, Floats, ◌≡◌, arith, inl, inr}
use tankervision_pdb.PowerManager.State.{Inputs, Manager, no_action}
use tankervision_pdb.PowerManager.Tick.{
  return_now, go_on, final, power_off_stage, settling_stage, deadline_stage, waiting_stage,
  supervise_stage, progress_stage, request_stage, phase_step, tick, note_pong,
}
use tankervision_pdb.PowerManager.Stages.{tick_rule, final_of}
use tankervision_pdb.PowerManager.Invariant.{
  Inv, charges, finish_action-Inv, note_inputs-Inv, settling_stage-Inv, main_loss_stage-Inv,
  deadline_stage-Inv, completion_stage-Inv, supervise_stage-Inv, progress_stage-Inv,
  request_stage-Inv, phase_step-Inv,
}

module _ (F : Floats) where
  open F use {Float, le}

  pub power_off_stage-Inv :
      (now : ℕ) (i : Inputs F) (s : Manager F) → Inv F s → Inv F (final (power_off_stage F now i s))
  unfolding power_off_stage
  power_off_stage-Inv now i s v =
      ground (arith, finish_action-Inv F s.completion_success now i s v, note_inputs-Inv F i s v)

  -- What the tick keeps of the state that a stage passes on.
  pub note_pong-Inv : (i : Inputs F) (s : Manager F) → Inv F s → Inv F (note_pong F i s)
  unfolding note_pong
  note_pong-Inv i s v = ground arith

  pub request_stage-idle :
      (now : ℕ) (i : Inputs F) (s : Manager F) {t : Manager F}
      → request_stage F now i s ≡ go_on t
      → t.pending.kind ≡ no_action
  unfolding request_stage
  request_stage-idle now i s h = ground arith

  waiting_stage-Inv : (s : Manager F) → Inv F s → Inv F (final (waiting_stage F s))
  unfolding waiting_stage
  waiting_stage-Inv s v = ground arith

  settling_quiet :
      (now : ℕ) (i : Inputs F) (s : Manager F) {t : Manager F}
      → settling_stage F now i s ≡ return_now t
      → charges t.phase ≡ false
  unfolding settling_stage
  settling_quiet now i s h = ground arith

  power_off_quiet :
      (now : ℕ) (i : Inputs F) (s : Manager F) {t : Manager F}
      → Inv F s
      → power_off_stage F now i s ≡ return_now t
      → charges t.phase ≡ false
  unfolding power_off_stage
  power_off_quiet now i s v h = ground arith

  deadline_quiet :
      (now : ℕ) (i : Inputs F) (s : Manager F) {t : Manager F}
      → deadline_stage F now i s ≡ return_now t
      → charges t.phase ≡ false
  unfolding deadline_stage
  deadline_quiet now i s h = ground arith

  waiting_quiet :
      (s : Manager F) {t : Manager F} → waiting_stage F s ≡ return_now t → charges t.phase ≡ false
  unfolding waiting_stage
  waiting_quiet s h = ground arith

  -- A property of ticks whose early returns are all in phases without charging.
  pub late_rule :
      (now : ℕ) (i : Inputs F) {R Q : Manager F → Type 0}
      → ((t : Manager F) → Inv F t → charges t.phase ≡ false → Q t)
      → ((s : Manager F) → Inv F s → R (supervise_stage F i s))
      → ((s : Manager F) → R s → R (progress_stage F now i s))
      → ((s t : Manager F) → R s → request_stage F now i s ≡ return_now t → Q t)
      → ((s t : Manager F)
          → R s
          → request_stage F now i s ≡ go_on t
          → Q (phase_step F t.phase now i t))
      → (s : Manager F) → s.begun ≡ true
      → Inv F s
      → Q (tick F now i s)
  late_rule now i early supervised progressed requested stepped s =
      tick_rule F now i {P = Inv F}
        (record {
          at_pong = note_pong-Inv i;
          at_power_off = λ s t v e.
              early t (final_of (Inv F) _ (power_off_stage-Inv now i s v) t (inl e))
                (power_off_quiet now i s v e);
          past_power_off = λ s t v e. final_of (Inv F) _ (power_off_stage-Inv now i s v) t (inr e);
          at_settling = λ s t v e.
              early t (final_of (Inv F) _ (settling_stage-Inv F now i s v) t (inl e))
                (settling_quiet now i s e);
          past_settling = λ s t v e. final_of (Inv F) _ (settling_stage-Inv F now i s v) t (inr e);
          past_main_loss = main_loss_stage-Inv F now i;
          at_deadline = λ s t v e.
              early t (final_of (Inv F) _ (deadline_stage-Inv F now i s v) t (inl e))
                (deadline_quiet now i s e);
          past_deadline = λ s t v e. final_of (Inv F) _ (deadline_stage-Inv F now i s v) t (inr e);
          past_completion = completion_stage-Inv F now i;
          at_waiting = λ s t v e.
              early t (final_of (Inv F) _ (waiting_stage-Inv s v) t (inl e)) (waiting_quiet s e);
          past_waiting = λ s t v e. final_of (Inv F) _ (waiting_stage-Inv s v) t (inr e);
          past_supervise = supervised;
          past_progress = progressed;
          at_request = requested;
          at_step = stepped;
        })
        s

  -- A tick keeps the invariant, on every branch.
  pub tick-Inv :
      (now : ℕ) (i : Inputs F) (s : Manager F) → s.begun ≡ true → Inv F s → Inv F (tick F now i s)
  tick-Inv now i =
      late_rule now i {R = Inv F} (λ t v quiet. v) (supervise_stage-Inv F i)
        (progress_stage-Inv F now i)
        (λ s t v e. final_of (Inv F) _ (request_stage-Inv F now i s v) t (inl e))
        (λ s t v e.
          phase_step-Inv F now i t (request_stage-idle now i s e)
            (final_of (Inv F) _ (request_stage-Inv F now i s v) t (inr e)))
