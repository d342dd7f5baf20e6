-- ===== src/PowerManager/Once.antt =====
-- What no tick undoes: that the manager has begun, and that the charger has been asked for.
use tankervision_pdb.Common.{ℕ, true, Floats, ◌≡◌, ◌≢◌, ◌⊎◌, arith}
use tankervision_pdb.PowerManager.State.{Action, Inputs, Manager, enable_charging}
use tankervision_pdb.PowerManager.Actions.{leave_charging}
use tankervision_pdb.PowerManager.Rules.{supervise_rule}
use tankervision_pdb.PowerManager.Tick.{
  final, power_off_stage, settling_stage, main_loss_stage, deadline_stage, completion_stage,
  supervise_stage, progress_stage, request_stage, phase_step, tick, note_pong,
}
use tankervision_pdb.PowerManager.Stages.{tick-keeps}

module _ (F : Floats) where
  abbrev Begun : Manager F → Type 0
  Begun s = s.begun ≡ true

  -- The charger has been asked for. Where that is pending, `k` was asked for under the id `n`.
  abbrev pub Attempted : Action → ℕ → Manager F → Type 0
  Attempted k n s =
      (s.enable_charge_attempted ≡ true)
      × ((s.pending.kind ≢ enable_charging) ⊎ ((k ≡ enable_charging) × (s.pending.id ≡ n)))

module _ (F : Floats) (now : ℕ) (i : Inputs F) where
  leave_charging-Attempted :
      (k : Action) (n : ℕ) (m : ℕ) (s : Manager F)
      → Attempted F k n s
      → Attempted F k n (leave_charging F m s)
  unfolding leave_charging
  leave_charging-Attempted k n m s p = ground arith

  leave_charging-Begun : (m : ℕ) (s : Manager F) → Begun F s → Begun F (leave_charging F m s)
  unfolding leave_charging
  leave_charging-Begun m s p = p

  note_pong-Begun : (s : Manager F) → Begun F s → Begun F (note_pong F i s)
  unfolding note_pong
  note_pong-Begun s p = ground arith

  power_off_stage-Begun : (s : Manager F) → Begun F s → Begun F (final (power_off_stage F now i s))
  unfolding power_off_stage
  power_off_stage-Begun s p = ground arith

  settling_stage-Begun : (s : Manager F) → Begun F s → Begun F (final (settling_stage F now i s))
  unfolding settling_stage
  settling_stage-Begun s p = ground arith

  main_loss_stage-Begun : (s : Manager F) → Begun F s → Begun F (main_loss_stage F now i s)
  unfolding main_loss_stage
  main_loss_stage-Begun s p = ground arith

  deadline_stage-Begun : (s : Manager F) → Begun F s → Begun F (final (deadline_stage F now i s))
  unfolding deadline_stage
  deadline_stage-Begun s p = ground arith

  completion_stage-Begun : (s : Manager F) → Begun F s → Begun F (completion_stage F now i s)
  unfolding completion_stage
  completion_stage-Begun s p = ground arith

  supervise_stage-Begun : (s : Manager F) → Begun F s → Begun F (supervise_stage F i s)
  supervise_stage-Begun s p =
      supervise_rule F (Begun F) i s p (λ m. leave_charging-Begun m s p) (λ c. p)

  progress_stage-Begun : (s : Manager F) → Begun F s → Begun F (progress_stage F now i s)
  unfolding progress_stage
  progress_stage-Begun s p = ground arith

  request_stage-Begun : (s : Manager F) → Begun F s → Begun F (final (request_stage F now i s))
  unfolding request_stage
  request_stage-Begun s p = ground arith

  phase_step-Begun : (s : Manager F) → Begun F s → Begun F (phase_step F s.phase now i s)
  unfolding phase_step
  phase_step-Begun s p = ground arith

  note_pong-Attempted :
      (k : Action) (n : ℕ) (s : Manager F) → Attempted F k n s → Attempted F k n (note_pong F i s)
  unfolding note_pong
  note_pong-Attempted k n s p = ground arith

  power_off_stage-Attempted :
      (k : Action) (n : ℕ) (s : Manager F)
      → Attempted F k n s
      → Attempted F k n (final (power_off_stage F now i s))
  unfolding power_off_stage
  power_off_stage-Attempted k n s p = ground arith

  settling_stage-Attempted :
      (k : Action) (n : ℕ) (s : Manager F)
      → Attempted F k n s
      → Attempted F k n (final (settling_stage F now i s))
  unfolding settling_stage
  settling_stage-Attempted k n s p = ground arith

  main_loss_stage-Attempted :
      (k : Action) (n : ℕ) (s : Manager F)
      → Attempted F k n s
      → Attempted F k n (main_loss_stage F now i s)
  unfolding main_loss_stage
  main_loss_stage-Attempted k n s p = ground arith

  deadline_stage-Attempted :
      (k : Action) (n : ℕ) (s : Manager F)
      → Attempted F k n s
      → Attempted F k n (final (deadline_stage F now i s))
  unfolding deadline_stage
  deadline_stage-Attempted k n s p = ground arith

  completion_stage-Attempted :
      (k : Action) (n : ℕ) (s : Manager F)
      → Attempted F k n s
      → Attempted F k n (completion_stage F now i s)
  unfolding completion_stage
  completion_stage-Attempted k n s p = ground arith

  supervise_stage-Attempted :
      (k : Action) (n : ℕ) (s : Manager F)
      → Attempted F k n s
      → Attempted F k n (supervise_stage F i s)
  supervise_stage-Attempted k n s p =
      supervise_rule F (Attempted F k n) i s p (λ m. leave_charging-Attempted k n m s p) (λ c. p)

  progress_stage-Attempted :
      (k : Action) (n : ℕ) (s : Manager F)
      → Attempted F k n s
      → Attempted F k n (progress_stage F now i s)
  unfolding progress_stage
  progress_stage-Attempted k n s p = ground arith

  request_stage-Attempted :
      (k : Action) (n : ℕ) (s : Manager F)
      → Attempted F k n s
      → Attempted F k n (final (request_stage F now i s))
  unfolding request_stage
  request_stage-Attempted k n s p = ground arith

  phase_step-Attempted :
      (k : Action) (n : ℕ) (s : Manager F)
      → Attempted F k n s
      → Attempted F k n (phase_step F s.phase now i s)
  unfolding phase_step
  phase_step-Attempted k n s p = ground arith

  pub tick-begun_kept : (s : Manager F) → s.begun ≡ true → (tick F now i s).begun ≡ true
  tick-begun_kept s b =
      tick-keeps F now i {P = Begun F}
        (record {
          pong = note_pong-Begun;
          power_off_stage = power_off_stage-Begun;
          settling_stage = settling_stage-Begun;
          main_loss_stage = main_loss_stage-Begun;
          deadline_stage = deadline_stage-Begun;
          completion_stage = completion_stage-Begun;
          supervise_stage = supervise_stage-Begun;
          progress_stage = progress_stage-Begun;
          request_stage = request_stage-Begun;
          phase_step = phase_step-Begun;
        })
        s b b

  pub tick-charge_once :
      (k : Action) (n : ℕ) (s : Manager F)
      → s.begun ≡ true
      → Attempted F k n s
      → Attempted F k n (tick F now i s)
  tick-charge_once k n = tick-keeps F now i {P = Attempted F k n} (record {
    pong = note_pong-Attempted k n;
    power_off_stage = power_off_stage-Attempted k n;
    settling_stage = settling_stage-Attempted k n;
    main_loss_stage = main_loss_stage-Attempted k n;
    deadline_stage = deadline_stage-Attempted k n;
    completion_stage = completion_stage-Attempted k n;
    supervise_stage = supervise_stage-Attempted k n;
    progress_stage = progress_stage-Attempted k n;
    request_stage = request_stage-Attempted k n;
    phase_step = phase_step-Attempted k n;
  })
