-- ===== src/Application/Actions.antt =====
-- `serviceAction`: the manager's pending action, carried out and reported back.
use tankervision_pdb.Common.{
  ℕ, Bool, true, false, not, Floats, ◌==◌, ◌&&◌, ◌||◌, leb, if◌then◌else◌, sub32,
}
use tankervision_pdb.Common.Act.{pure, gets, modify, ◌>>=◌, ◌>>◌}
use tankervision_pdb.BoardHardware.State.{vbus_ss}
use tankervision_pdb.PowerDelivery.Reading.{requested_ma}
use tankervision_pdb.PowerManager.State.{
  Action, PendingAction, is_action, no_action, prepare_charging, enable_charging, stop_charging,
  arm_backup, enable_jetson, ping_jetson, request_jetson_shutdown, cut_power,
}
use tankervision_pdb.Protocol.Request.{ok, hardware_error, shutting_down}
use tankervision_pdb.Application.State.{
  Application, Parts, ErrorText, charger_budget_unverified, jetson_budget_unverified,
  backup_pg_timeout, defaults_failed, release_readback_failed, power_cut, power_release,
}
use tankervision_pdb.Application.Output as Output
use tankervision_pdb.Application.Output.{
  Method, ask, tell, now, view, main_present, source_budget_valid, remember_error, hand_over,
  answer_port, shutdown_message, notify_shutdown,
}
use tankervision_pdb.Application.Outcomes.{
  hw_succeeded, pd_succeeded, pd_failed, action_succeeded, action_failed, hardware_failed,
  delivery_failed, report_result, report_if_idle, started, set_stage, try_operation,
}

abbrev pub configured_dc_budget_ma : ℕ
configured_dc_budget_ma = 3000

abbrev pub final_cleanup_ms : ℕ
final_cleanup_ms = 750

abbrev pub restart_delay_ms : ℕ
restart_delay_ms = 250

abbrev pub backup_pg_ms : ℕ
backup_pg_ms = 2000

module _ (F : Floats) (D : Parts F) where
  unfoldable pub prepare_board : Method F D (Unit {0})
  prepare_board = do set_stage F D 2; started F D D.start_prepare_charge (pure tt)

  unfoldable pub begin_budget : Method F D (Unit {0})
  begin_budget = do
    accepted ← ask F D D.pd_start_budget
    if accepted then set_stage F D 1 else delivery_failed F D

  unfoldable pub ask_budget : Method F D (Unit {0})
  ask_budget = do
    main ← main_present F D
    h ← view F D D.snapshot
    read ← ask F D (D.pd_poll (main && h.usb_pg))
    if read then begin_budget else delivery_failed F D

  unfoldable pub choose_source : Method F D (Unit {0})
  choose_source = do
    main ← main_present F D
    h ← view F D D.snapshot
    let dc = main && (h.dc_pg && (not h.usb_pg && leb requested_ma configured_dc_budget_ma))
    modify (λ s. record s { dc_budget = dc })
    if dc then prepare_board else ask_budget

  unfoldable pub after_reconcile : Method F D (Unit {0})
  after_reconcile = do
    r ← view F D D.result
    if hw_succeeded r then choose_source else hardware_failed F D

  unfoldable pub after_budget : Method F D (Unit {0})
  after_budget = do
    valid ← source_budget_valid F D
    if valid then prepare_board else action_failed F D charger_budget_unverified

  unfoldable pub await_budget : Method F D (Unit {0})
  await_budget = do
    r ← view F D D.pd_result
    let failing = if pd_failed r then delivery_failed F D else pure tt
    if pd_succeeded r then after_budget else failing

  unfoldable pub prepare_stage : ℕ → Bool → Method F D (Unit {0})
  prepare_stage n busy =
      if n == 0 && not busy
      then after_reconcile
      else if n == 1
      then await_budget
      else if n == 2 && not busy
      then report_result F D
      else pure tt

  unfoldable pub prepare_on : Method F D (Unit {0})
  prepare_on = do s ← gets (λ s. s); prepare_stage s.action_stage (D.busy s.world)

  unfoldable pub serve_prepare : Bool → Method F D (Unit {0})
  serve_prepare first = if first then started F D D.start_reconcile prepare_on else prepare_on

  -- An action that needs the budget of the source.
  unfoldable pub with_budget : ErrorText → (D.World → Bool × D.World) → Method F D (Unit {0})
  with_budget e f = do
    valid ← source_budget_valid F D
    if valid then started F D f (report_if_idle F D) else action_failed F D e

  unfoldable pub serve_enable : Bool → Method F D (Unit {0})
  serve_enable first =
      if first
      then with_budget charger_budget_unverified D.start_enable_charge
      else report_if_idle F D

  unfoldable pub stop_first : Method F D (Unit {0})
  stop_first = do
    answer_port F D false hardware_error
    started F D D.start_disable_charging (report_if_idle F D)

  unfoldable pub serve_stop : Bool → Method F D (Unit {0})
  serve_stop first = if first then stop_first else report_if_idle F D

  unfoldable pub serve_jetson : Bool → Method F D (Unit {0})
  serve_jetson first =
      if first
      then with_budget jetson_budget_unverified (D.start_port vbus_ss true)
      else report_if_idle F D

  unfoldable pub await_backup : ℕ → Method F D (Unit {0})
  await_backup t = do
    s ← gets (λ s. s)
    let h = D.snapshot s.world
    let late = leb backup_pg_ms (sub32 t s.action_at)
    let waiting = if late then action_failed F D backup_pg_timeout else pure tt
    if h.internal.valid && h.backup_pg then action_succeeded F D else waiting

  unfoldable pub serve_backup : Bool → ℕ → Method F D (Unit {0})
  serve_backup first t =
      if first then started F D (D.set_backup true) (await_backup t) else await_backup t

  unfoldable pub serve_ping : Method F D (Unit {0})
  serve_ping = do Output.ping_jetson F D; action_succeeded F D

  unfoldable pub begin_shutdown : Method F D (Unit {0})
  begin_shutdown = do
    tell F D D.pd_cancel
    answer_port F D false shutting_down
    notify_shutdown F D
    try_operation F D D.start_disable_charging
    modify (λ s. record s { cleanup_stage = 1 })

  unfoldable pub serve_shutdown : Bool → Method F D (Unit {0})
  serve_shutdown first = do if first then begin_shutdown else pure tt; action_succeeded F D

  unfoldable pub begin_cut : ℕ → Method F D (Unit {0})
  begin_cut t = do
    tell F D D.pd_cancel
    answer_port F D false shutting_down
    shutdown_message F D power_cut t
    try_operation F D D.start_restore_por

  unfoldable pub release : Method F D (Unit {0})
  release = do
    restored ← view F D (λ w. hw_succeeded (D.result w))
    if restored then pure tt else remember_error F D defaults_failed
    hand_over F D (power_release restored)
    t ← now F D
    modify (λ s. record s { released = true; release_at = t })
    low ← ask F D D.release_backup_for_shutdown
    if low then pure tt else remember_error F D release_readback_failed

  unfoldable pub may_release : ℕ → Application F D → Bool
  may_release t s =
      not s.released && (not (D.busy s.world) || leb final_cleanup_ms (sub32 t s.action_at))

  unfoldable pub restart_late : Application F D → Method F D (Unit {0})
  restart_late s = do
    t ← now F D
    if leb restart_delay_ms (sub32 t s.release_at) then tell F D D.restart else pure tt

  unfoldable pub restart_if_released : Method F D (Unit {0})
  restart_if_released = do s ← gets (λ s. s); if s.released then restart_late s else pure tt

  unfoldable pub serve_cut : Bool → ℕ → Method F D (Unit {0})
  serve_cut first t = do
    if first then begin_cut t else pure tt
    may ← gets (may_release t)
    if may then release else pure tt
    restart_if_released

  -- The `switch`.
  unfoldable pub dispatch : Action → Bool → ℕ → Method F D (Unit {0})
  dispatch no_action first t = pure tt
  dispatch prepare_charging first t = serve_prepare first
  dispatch enable_charging first t = serve_enable first
  dispatch stop_charging first t = serve_stop first
  dispatch arm_backup first t = serve_backup first t
  dispatch enable_jetson first t = serve_jetson first
  dispatch ping_jetson first t = serve_ping
  dispatch request_jetson_shutdown first t = serve_shutdown first
  dispatch cut_power first t = serve_cut first t

  -- Without an action, the end of an operation that a request has started F D is answered.
  unfoldable pub answer_idle : Method F D (Unit {0})
  answer_idle = do
    s ← gets (λ s. s)
    let done = hw_succeeded (D.result s.world)
    let pending = not (s.external_request == 0) && not (D.busy s.world)
    if pending then answer_port F D done (if done then ok else hardware_error) else pure tt

  unfoldable pub begin_action : ℕ → ℕ → Application F D → Application F D
  begin_action id t s = record s { active_action = id; action_at = t; action_stage = 0 }

  -- A new action starts its clock and its stages.
  unfoldable pub serve : PendingAction → ℕ → Method F D (Unit {0})
  serve a t = do
    first ← gets (λ s. not (a.id == s.active_action))
    if first then modify (begin_action a.id t) else pure tt
    dispatch a.kind first t

  unfoldable pub service_action : Method F D (Unit {0})
  service_action = do
    s ← gets (λ s. s)
    t ← now F D
    if is_action no_action s.manager.pending.kind then answer_idle else serve s.manager.pending t
