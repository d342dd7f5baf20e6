-- ===== src/Application/Output.antt =====
-- The helpers of `deployment/Application.cpp`: the sources, and the messages.
use tankervision_pdb.Common.{
  ℕ, Bool, false, not, Floats, ◌==◌, ◌&&◌, ◌||◌, ◌-◌, leb, if◌then◌else◌, ◌∷◌, add32, sub32,
}
use tankervision_pdb.Common.Act.{Act, pure, call, gets, modify, ◌>>=◌, ◌>>◌}
use tankervision_pdb.BoardHardware.State.{HardwareSnapshot}
use tankervision_pdb.PowerManager.State.{
  Manager, ShutdownReason, shutdown_ms, power_off, is_phase, is_no_reason,
}
use tankervision_pdb.Protocol.Request.{Code}
use tankervision_pdb.Application.State.{
  Application, Parts, Body, ErrorText, response, port_result, shutdown_requested, ping, telemetry,
}

module _ (F : Floats) (D : Parts F) where
  open D use {World}

  abbrev pub Method : Type 0 → Type 0
  Method = Act (Application F D)

  -- A call of the parts, with a result and without one.
  unfoldable pub ask : {A : Type 0} → (World → A × World) → Method A
  unfolding call
  ask f = call (λ s. let (a, w) = f s.world in (a, record s { world = w }))

  unfoldable pub tell : (World → World) → Method (Unit {0})
  unfolding modify
  tell f = modify (λ s. record s { world = f s.world })

  abbrev pub now : Method ℕ
  now = ask D.millis

  abbrev pub view : {A : Type 0} → (World → A) → Method A
  view f = gets (λ s. f s.world)

  unfoldable pub main_in_time : HardwareSnapshot F → ℕ → Bool
  main_in_time h t =
      leb (sub32 t h.internal.at_ms) 350 && (h.main_selected && (h.usb_pg || h.dc_pg))

  unfoldable pub main_from : HardwareSnapshot F → Method Bool
  unfolding main_in_time
  main_from h = do t ← now; pure (main_in_time h t)

  unfoldable pub main_present : Method Bool
  main_present = do h ← view D.snapshot; if h.internal.valid then main_from h else pure false

  unfoldable pub budget_of : HardwareSnapshot F → Method Bool
  budget_of h =
      if h.usb_pg && not h.dc_pg
      then ask D.pd_budget_valid
      else gets (λ s. h.dc_pg && (not h.usb_pg && s.dc_budget))

  unfoldable pub source_budget_valid : Method Bool
  source_budget_valid = do
    present ← main_present
    h ← view D.snapshot
    if present then budget_of h else pure false

  -- `header`, the fields and `finish`.
  unfoldable pub hand_over : Body → Method (Unit {0})
  hand_over b = do
    t ← now
    modify (λ s.
        let n = add32 s.sequence 1 in
        record s { sequence = n; sent = record { seq = n; uptime_ms = t; body = b } ∷ s.sent })

  abbrev pub remember_error : ErrorText → Method (Unit {0})
  remember_error e = modify (λ s. record s { last_error = e })

  abbrev pub respond : ℕ → Bool → Code → Method (Unit {0})
  respond id ok code = hand_over (response id ok code)

  unfoldable pub finish_port : Bool → Code → Application F D → Method (Unit {0})
  finish_port ok code s = do
    hand_over (port_result s.external_request s.external_port s.external_enabled ok code)
    modify (λ t. record t { external_request = 0 })

  unfoldable pub answer_port : Bool → Code → Method (Unit {0})
  answer_port ok code = do
    s ← gets (λ s. s)
    if s.external_request == 0 then pure tt else finish_port ok code s

  unfoldable pub shutdown_remaining : ℕ → Manager F → ℕ
  shutdown_remaining t m =
      let elapsed = if is_no_reason m.shutdown_reason then 0 else sub32 t m.shutdown_at in
      if is_no_reason m.shutdown_reason || (is_phase power_off m.phase || leb shutdown_ms elapsed)
      then 0
      else shutdown_ms - elapsed

  -- `shutdownFields` in a message of its own.
  unfoldable pub shutdown_message : (ℕ → ShutdownReason → ℕ → ℕ → Body) → ℕ → Method (Unit {0})
  shutdown_message f t = do
    s ← gets (λ s. s)
    hand_over (
        f s.shutdown_id s.manager.shutdown_reason (add32 s.manager.shutdown_at shutdown_ms)
          (shutdown_remaining t s.manager))

  unfoldable pub notify_shutdown : Method (Unit {0})
  notify_shutdown = do
    t ← now
    modify (λ s. record s {
      shutdown_id = if s.shutdown_id == 0 then 1 else s.shutdown_id;
      last_shutdown_event = t;
    })
    u ← now
    shutdown_message shutdown_requested u

  abbrev pub next_ping : ℕ → ℕ
  next_ping n = if add32 n 1 == 0 then 1 else add32 n 1

  unfoldable pub ping_jetson : Method (Unit {0})
  ping_jetson = do
    t ← now
    modify (λ s. record s { ping_at = t; ping_id = next_ping s.ping_id })
    s ← gets (λ s. s)
    hand_over (ping s.ping_id)

  -- `telemetry`: the clock, its counter, the header with the clock and the sequence, the two looks at
  -- the budget, and the message.
  unfoldable pub report : Method (Unit {0})
  report = do
    t ← now
    modify (λ s. record s { telemetry_count = add32 s.telemetry_count 1 })
    u ← now
    modify (λ s. record s { sequence = add32 s.sequence 1 })
    valid ← source_budget_valid
    again ← source_budget_valid
    modify (λ s.
        let b = telemetry s.manager.phase s.manager.pending.kind s.manager.issues valid again in
        record s { sent = record { seq = s.sequence; uptime_ms = u; body = b } ∷ s.sent })
