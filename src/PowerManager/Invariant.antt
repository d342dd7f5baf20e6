-- ===== src/PowerManager/Invariant.antt =====
-- What holds of a `PowerManager` between calls.
use tankervision_pdb.Common.{refl, ℕ, Bool, true, false, Floats, ◌<◌, ◌≡◌, ◌≢◌, arith, u32_mod}
use tankervision_pdb.PowerManager.State.{
  Phase, Action, ShutdownReason, Inputs, Manager, settling, charge_prepare, charging,
  jetson_starting, running, shutdown_wait, power_off, no_action, prepare_charging, enable_charging,
  stop_charging, arm_backup, enable_jetson, ping_jetson, request_jetson_shutdown, cut_power,
  no_reason,
}
use tankervision_pdb.PowerManager.Actions.{
  add_issue, start, leave_charging, start_shutdown, finish_action, complete_action,
  request_full_reboot,
}
use tankervision_pdb.PowerManager.Rules.{supervise_rule, progress_rule, completion_rule, note_rule}
use tankervision_pdb.PowerManager.Tick.{
  final, note_inputs, settling_stage, main_loss_stage, deadline_stage, completion_stage,
  supervise_stage, progress_stage, request_stage, phase_step, prepare_step, jetson_step,
}

-- The actions that may be pending in each phase.
abbrev pub allowed : Phase → Action → Bool
allowed _ no_action = true
allowed charge_prepare prepare_charging = true
allowed charge_prepare enable_charging = true
allowed charging arm_backup = true
allowed jetson_starting stop_charging = true
allowed jetson_starting arm_backup = true
allowed jetson_starting enable_jetson = true
allowed jetson_starting ping_jetson = true
allowed running stop_charging = true
allowed running arm_backup = true
allowed shutdown_wait request_jetson_shutdown = true
allowed power_off cut_power = true
allowed _ _ = false

-- The phases in which the charger may be expected on.
abbrev pub charges : Phase → Bool
charges charging = true
charges jetson_starting = true
charges running = true
charges _ = false

abbrev pub shuts_down : Phase → Bool
shuts_down shutdown_wait = true
shuts_down power_off = true
shuts_down _ = false

module _ (F : Floats) where
  pub record Inv (s : Manager F) : Type 0 where
    pub pending_allowed : allowed s.phase s.pending.kind ≡ true
    pub pending_numbered :
        s.pending.kind ≢ no_action → (s.pending.id ≡ s.next_action_id) × (s.pending.id ≢ 0)
    pub none_numbered : s.pending.kind ≡ no_action → s.pending.id ≡ 0
    pub completed_pending : s.completed ≡ true → s.pending.kind ≢ no_action
    pub id_in_range : s.next_action_id < u32_mod
    pub expected_phase : s.charging_enabled_expected ≡ true → charges s.phase ≡ true
    pub charging_expected : s.phase ≡ charging → s.charging_enabled_expected ≡ true
    pub expected_prepared : s.charging_enabled_expected ≡ true → s.prepared ≡ true
    pub enable_prepared : s.pending.kind ≡ enable_charging → s.prepared ≡ true
    pub maintenance_expected : s.maintenance ≡ true → s.charging_enabled_expected ≡ true
    pub reason_phase : s.shutdown_reason ≢ no_reason → shuts_down s.phase ≡ true
    pub phase_reason : shuts_down s.phase ≡ true → s.shutdown_reason ≢ no_reason
    pub ping_after_enable : s.ping_attempted ≡ true → s.jetson_attempted ≡ true
    pub ping_pending : s.pending.kind ≡ ping_jetson → s.ping_attempted ≡ true
    pub enable_pending :
        s.pending.kind ≡ enable_jetson → (s.jetson_attempted ≡ true) × (s.ping_attempted ≡ false)
    pub running_started : s.phase ≡ running → s.ping_attempted ≡ true
    pub enabled_attempted : s.jetson_enabled ≡ true → s.jetson_attempted ≡ true
    pub enabled_once : s.jetson_enabled ≡ true → s.pending.kind ≢ enable_jetson
    pub settling_idle : s.phase ≡ settling → s.prepared ≡ false

  pub start-Inv : (now : ℕ) (s : Manager F) → s.next_action_id < u32_mod → Inv (start F now s)
  unfolding start
  start-Inv now s h = ground arith

  issues-Inv : (x : ℕ) (s : Manager F) → Inv s → Inv (record s { issues = x })
  issues-Inv x s v = ground arith

  qualified-Inv :
      (s : Manager F)
      → Inv s
      → s.phase ≡ charging
      → Inv (record s { maintenance = true; phase = jetson_starting })
  qualified-Inv s v p = ground arith

  risen-Inv :
      (now : ℕ) (i : Inputs F) (s : Manager F)
      → Inv s
      → Inv (record s { progress_v = i.vcap_v; progress_at = now })
  risen-Inv now i s v = ground arith

  pub leave_charging-Inv : (m : ℕ) (s : Manager F) → Inv s → Inv (leave_charging F m s)
  unfolding leave_charging
  leave_charging-Inv m s v = ground arith

  pub start_shutdown-Inv :
      (now : ℕ) (r : ShutdownReason) (s : Manager F)
      → r ≢ no_reason
      → Inv s
      → Inv (start_shutdown F now r s)
  unfolding start_shutdown
  start_shutdown-Inv now r s h v = ground arith

  pub complete_action-Inv :
      (id : ℕ) (ok : Bool) (s : Manager F) → Inv s → Inv (complete_action F id ok s).1
  unfolding complete_action
  complete_action-Inv id ok s v = ground arith

  pub request_full_reboot-Inv :
      (now : ℕ) (s : Manager F) → Inv s → Inv (request_full_reboot F now s).1
  unfolding request_full_reboot
  request_full_reboot-Inv now s v = ground arith

  pub finish_action-Inv :
      (ok : Bool) (now : ℕ) (i : Inputs F) (s : Manager F)
      → Inv s
      → Inv (finish_action F ok now i s)
  unfolding finish_action
  finish_action-Inv ok now i s v = ground arith

  pub note_inputs-Inv : (i : Inputs F) (s : Manager F) → Inv s → Inv (note_inputs F i s)
  note_inputs-Inv i s v = note_rule F Inv i s (λ x. issues-Inv x s v)

  pub settling_stage-Inv :
      (now : ℕ) (i : Inputs F) (s : Manager F) → Inv s → Inv (final (settling_stage F now i s))
  unfolding settling_stage
  settling_stage-Inv now i s v = ground arith

  pub main_loss_stage-Inv :
      (now : ℕ) (i : Inputs F) (s : Manager F) → Inv s → Inv (main_loss_stage F now i s)
  unfolding main_loss_stage
  main_loss_stage-Inv now i s v = ground arith

  pub deadline_stage-Inv :
      (now : ℕ) (i : Inputs F) (s : Manager F) → Inv s → Inv (final (deadline_stage F now i s))
  unfolding deadline_stage
  deadline_stage-Inv now i s v = ground arith

  pub completion_stage-Inv :
      (now : ℕ) (i : Inputs F) (s : Manager F) → Inv s → Inv (completion_stage F now i s)
  unfolding add_issue
  completion_stage-Inv now i s v =
      completion_rule F Inv now i s v (λ ok. finish_action-Inv ok now i s v)
        (finish_action-Inv false now i _ (issues-Inv _ s v))

  pub supervise_stage-Inv : (i : Inputs F) (s : Manager F) → Inv s → Inv (supervise_stage F i s)
  supervise_stage-Inv i s v =
      supervise_rule F Inv i s v (λ m. leave_charging-Inv m s v) (qualified-Inv s v)

  pub progress_stage-Inv :
      (now : ℕ) (i : Inputs F) (s : Manager F) → Inv s → Inv (progress_stage F now i s)
  progress_stage-Inv now i s v =
      let w = risen-Inv now i s v in
      progress_rule F Inv now i s v (w, λ m. leave_charging-Inv m _ w)
        (λ m. leave_charging-Inv m s v)

  pub request_stage-Inv :
      (now : ℕ) (i : Inputs F) (s : Manager F) → Inv s → Inv (final (request_stage F now i s))
  unfolding request_stage
  request_stage-Inv now i s v = ground arith

  prepare_step-Inv :
      (now : ℕ) (i : Inputs F) (s : Manager F)
      → s.phase ≡ charge_prepare
      → s.pending.kind ≡ no_action
      → Inv s
      → Inv (prepare_step F now i s)
  unfolding prepare_step
  prepare_step-Inv now i s p k v = ground arith

  jetson_step-Inv :
      (now : ℕ) (s : Manager F)
      → s.phase ≡ jetson_starting
      → s.pending.kind ≡ no_action
      → Inv s
      → Inv (jetson_step F now s)
  unfolding jetson_step
  jetson_step-Inv now s p k v = ground arith

  phase_step_at :
      (p : Phase) (now : ℕ) (i : Inputs F) (s : Manager F)
      → s.phase ≡ p
      → s.pending.kind ≡ no_action
      → Inv s
      → Inv (phase_step F p now i s)
  unfolding phase_step
  phase_step_at charge_prepare now i s p k v = prepare_step-Inv now i s p k v
  phase_step_at jetson_starting now i s p k v = jetson_step-Inv now s p k v
  phase_step_at _ now i s p k v = v

  pub phase_step-Inv :
      (now : ℕ) (i : Inputs F) (s : Manager F)
      → s.pending.kind ≡ no_action
      → Inv s
      → Inv (phase_step F s.phase now i s)
  phase_step-Inv now i s k v = phase_step_at s.phase now i s refl k v
