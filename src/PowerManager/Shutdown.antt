-- ===== src/PowerManager/Shutdown.antt =====
-- How the stages of a tick act on a manager that waits for the Jetson to shut down.
use tankervision_pdb.Common.{ℕ, true, Floats, ◌<◌, ◌≤◌, ◌≡◌, arith, sub32, ◌||◌}
use tankervision_pdb.PowerManager.State.{
  Inputs, Manager, shutdown_wait, power_off, shutdown_ms, cut_power,
}
use tankervision_pdb.PowerManager.Tick.{
  go_on, note_inputs, power_off_stage, note_pong, settling_stage, main_loss_stage, deadline_stage,
  completion_stage, waiting_stage, tick, run_stages,
}
use tankervision_pdb.PowerManager.Invariant.{Inv, allowed}

module _ (F : Floats) where
  -- What is known of a waiting manager when the tick has noted its inputs.
  entry : Inputs F → Manager F → Manager F
  unfolding note_pong note_inputs
  entry i s = note_inputs F i (note_pong F i s)

  entry-keeps :
      (i : Inputs F) (s : Manager F)
      → ((entry i s).phase ≡ s.phase)
        × ((entry i s).pending ≡ s.pending)
        × ((entry i s).shutdown_at ≡ s.shutdown_at)
        × ((entry i s).shutdown_reason ≡ s.shutdown_reason)
        × ((entry i s).shutdown_ack_seen ≡ s.shutdown_ack_seen)
        × ((entry i s).final_ready_seen ≡ s.final_ready_seen)
  unfolding entry
  entry-keeps i s = ground arith

  latched : Inputs F → Manager F → Manager F
  latched i s = record s {
    shutdown_ack_seen = s.shutdown_ack_seen || i.shutdown_ack;
    final_ready_seen = s.final_ready_seen || i.final_ready;
  }

  power_off_stage-wait :
      (now : ℕ) (i : Inputs F) (s : Manager F)
      → s.phase ≡ shutdown_wait
      → power_off_stage F now i (note_pong F i s) ≡ go_on (entry i s)
  unfolding power_off_stage note_pong entry
  power_off_stage-wait now i s p = ground arith

  settling_stage-wait :
      (now : ℕ) (i : Inputs F) (s : Manager F)
      → s.phase ≡ shutdown_wait
      → settling_stage F now i s ≡ go_on s
  unfolding settling_stage
  settling_stage-wait now i s p = ground arith

  main_loss_stage-wait :
      (now : ℕ) (i : Inputs F) (s : Manager F)
      → s.phase ≡ shutdown_wait
      → main_loss_stage F now i s ≡ s
  unfolding main_loss_stage
  main_loss_stage-wait now i s p = ground arith

  deadline_stage-wait :
      (now : ℕ) (i : Inputs F) (s : Manager F)
      → s.phase ≡ shutdown_wait
      → sub32 now s.shutdown_at < shutdown_ms
      → deadline_stage F now i s ≡ go_on (latched i s)
  unfolding deadline_stage latched
  deadline_stage-wait now i s p h = ground arith

  completion_stage-wait :
      (now : ℕ) (i : Inputs F) (s : Manager F)
      → s.phase ≡ shutdown_wait
      → allowed s.phase s.pending.kind ≡ true
      → let t = completion_stage F now i s in
        (t.phase ≡ s.phase)
        × (t.shutdown_at ≡ s.shutdown_at)
        × (t.shutdown_reason ≡ s.shutdown_reason)
        × (t.shutdown_ack_seen ≡ s.shutdown_ack_seen)
        × (t.final_ready_seen ≡ s.final_ready_seen)
  unfolding completion_stage
  completion_stage-wait now i s p a = ground arith

  tick-wait_eq :
      (now : ℕ) (i : Inputs F) (s : Manager F)
      → s.begun ≡ true
      → s.phase ≡ shutdown_wait
      → sub32 now s.shutdown_at < shutdown_ms
      → allowed s.phase s.pending.kind ≡ true
      → tick F now i s ≡ completion_stage F now i (latched i (entry i s))
  unfolding tick run_stages waiting_stage latched
  tick-wait_eq now i s b p h a = ground (
    arith,
    power_off_stage-wait now i s,
    entry-keeps i s,
    settling_stage-wait now i (entry i s),
    main_loss_stage-wait now i (entry i s),
    deadline_stage-wait now i (entry i s),
    completion_stage-wait now i (latched i (entry i s)),
  )

  pub tick-waiting :
      (now : ℕ) (i : Inputs F) (s : Manager F)
      → Inv F s
      → s.begun ≡ true
      → s.phase ≡ shutdown_wait
      → sub32 now s.shutdown_at < shutdown_ms
      → let t = tick F now i s in
        (t.phase ≡ shutdown_wait)
        × (t.shutdown_at ≡ s.shutdown_at)
        × (t.shutdown_reason ≡ s.shutdown_reason)
        × (t.shutdown_ack_seen ≡ (s.shutdown_ack_seen || i.shutdown_ack))
        × (t.final_ready_seen ≡ (s.final_ready_seen || i.final_ready))
  unfolding latched
  tick-waiting now i s v b p h = ground (
    arith,
    tick-wait_eq now i s,
    v.pending_allowed,
    entry-keeps i s,
    completion_stage-wait now i (latched i (entry i s)),
  )

  -- `PowerOff` only records the result of its one action.
  pub tick-power_off :
      (now : ℕ) (i : Inputs F) (s : Manager F)
      → Inv F s
      → s.begun ≡ true
      → s.phase ≡ power_off
      → let t = tick F now i s in
        (t.phase ≡ power_off)
        × (t.shutdown_at ≡ s.shutdown_at)
        × (t.shutdown_reason ≡ s.shutdown_reason)
  unfolding tick run_stages note_pong power_off_stage
  tick-power_off now i s v b p = ground (arith, v.pending_allowed)

  pub tick-deadline :
      (now : ℕ) (i : Inputs F) (s : Manager F)
      → s.begun ≡ true
      → s.phase ≡ shutdown_wait
      → shutdown_ms ≤ sub32 now s.shutdown_at
      → let t = tick F now i s in
        (t.phase ≡ power_off)
        × (t.pending.kind ≡ cut_power)
        × (t.shutdown_at ≡ s.shutdown_at)
        × (t.shutdown_reason ≡ s.shutdown_reason)
  unfolding tick run_stages deadline_stage
  tick-deadline now i s b p h = ground (
    arith,
    power_off_stage-wait now i s,
    entry-keeps i s,
    settling_stage-wait now i (entry i s),
    main_loss_stage-wait now i (entry i s),
  )
