-- ===== src/Application/Handle.antt =====
-- `handle`: what a request changes, and the one reply it gets.
use tankervision_pdb.Common.{
  ℕ, Bool, true, false, not, Floats, ◌==◌, ◌&&◌, ◌||◌, leb, if◌then◌else◌, List, [], ◌∷◌, sub32,
  Option, none, some, c_str, bytes_eq, codes,
}
use tankervision_pdb.Common.Act.{pure, gets, modify, ◌>>=◌, ◌>>◌}
use tankervision_pdb.BoardHardware.State.{Port, vbus, five_volt_vbus, vbus_ss, five_volt_ss}
use tankervision_pdb.PowerManager.State.{is_phase, running, shutdown_wait, power_off}
use tankervision_pdb.PowerManager.Actions.{request_full_reboot}
use tankervision_pdb.Protocol.Request.{
  Request, Command, Code, status, pong, shutdown_ack, shutdown_ready, port_set, reboot, ok,
  accepted, bad_request, id_conflict, stale_boot, stale_ping, stale_shutdown, shutting_down,
  invalid_port, reserved_port, not_ready, busy, hardware_error,
}
use tankervision_pdb.Protocol.ReplayCache.{Match, new, same, Reply, no_reply, lookup, remember}
use tankervision_pdb.Application.State.{Application, Parts, hardware, port_budget_unverified}
use tankervision_pdb.Application.Output.{
  Method, ask, now, view, main_present, source_budget_valid, remember_error, respond, report,
}

abbrev pub pong_fresh_ms : ℕ
pong_fresh_ms = 10000

abbrev pub is_status : Command → Bool
is_status status = true
is_status _ = false

-- The commands that the replay cache remembers.
abbrev pub is_mutation : Command → Bool
is_mutation port_set = true
is_mutation reboot = true
is_mutation _ = false

abbrev pub is_reserved : Port → Bool
is_reserved vbus_ss = true
is_reserved _ = false

abbrev pub port_name : Port → List ℕ
port_name vbus = codes "vbus"
port_name five_volt_vbus = codes "5v_vbus"
port_name vbus_ss = codes "vbus_ss"
port_name five_volt_ss = codes "5v_ss"

-- The loop over the ports: the last that has the name.
unfoldable pub scan_ports : List ℕ → List Port → Option Port → Option Port
scan_ports text [] found = found
scan_ports text (p ∷ ps) found =
    scan_ports text ps (if bytes_eq text (port_name p) then some p else found)

unfoldable pub port_named : List ℕ → Option Port
unfolding scan_ports
port_named text = scan_ports text (vbus ∷ five_volt_vbus ∷ vbus_ss ∷ five_volt_ss ∷ []) none

-- What is answered to a request that the replay cache knows.
abbrev pub replayed : Match → Reply → Reply
replayed same y = y
replayed _ y = record { ok = false; code = id_conflict }

module _ (F : Floats) (D : Parts F) where
  abbrev pub refuse : Code → Method F D Reply
  refuse c = pure (record { ok = false; code = c })

  abbrev pub accept : Code → Method F D Reply
  accept c = pure (record { ok = true; code = c })

  unfoldable pub note_pong : Method F D Reply
  note_pong = do
    t ← now F D
    modify (λ s. record s { received_pong = true; pong_seen = true; last_pong_at = t })
    accept ok

  unfoldable pub pong_in_time : Method F D Reply
  pong_in_time = do
    t ← now F D
    s ← gets (λ s. s)
    if leb pong_fresh_ms (sub32 t s.ping_at) then refuse stale_ping else note_pong

  unfoldable pub take_pong : Request → Method F D Reply
  take_pong r = do
    s ← gets (λ s. s)
    if s.ping_id == 0 || not (r.ping_id == s.ping_id) then refuse stale_ping else pong_in_time

  unfoldable pub current_shutdown : Request → Application F D → Bool
  current_shutdown r s =
      not (s.shutdown_id == 0)
      && (r.shutdown_id == s.shutdown_id && is_phase shutdown_wait s.manager.phase)

  unfoldable pub take_shutdown : (Application F D → Application F D) → Request → Method F D Reply
  take_shutdown note r = do
    s ← gets (λ s. s)
    if current_shutdown r s then modify note >> accept ok else refuse stale_shutdown

  unfoldable pub ask_reboot : Method F D Reply
  ask_reboot = do
    t ← now F D
    s ← gets (λ s. s)
    let (done, m) = request_full_reboot F t s.manager
    modify (λ s. record s {
      manager = m;
      shutdown_id = if done && s.shutdown_id == 0 then 1 else s.shutdown_id;
    })
    if done then accept accepted else refuse shutting_down

  unfoldable pub note_port : Port → Request → Method F D Reply
  note_port p r = do
    modify
        (λ s. record s { external_request = r.id; external_port = p; external_enabled = r.enabled })
    accept accepted

  unfoldable pub port_failed : Method F D Reply
  port_failed = do e ← view F D D.error; remember_error F D (hardware e); refuse hardware_error

  unfoldable pub command_port : Port → Request → Method F D Reply
  command_port p r = do
    started ← ask F D (D.start_port p r.enabled)
    if started then note_port p r else port_failed

  unfoldable pub no_budget : Method F D Reply
  no_budget = do remember_error F D port_budget_unverified; refuse not_ready

  unfoldable pub with_budget : Port → Request → Method F D Reply
  with_budget p r = do
    valid ← source_budget_valid F D
    if valid then command_port p r else no_budget

  unfoldable pub with_main : Port → Request → Method F D Reply
  with_main p r = do
    main ← main_present F D
    if not main
        then refuse shutting_down
        else if r.enabled
        then with_budget p r
        else command_port p r

  unfoldable pub if_idle : Port → Request → Method F D Reply
  if_idle p r = do
    s ← gets (λ s. s)
    if D.busy s.world || not (s.external_request == 0) then refuse busy else with_main p r

  unfoldable pub if_running : Port → Request → Method F D Reply
  if_running p r = do
    s ← gets (λ s. s)
    if is_phase running s.manager.phase then if_idle p r else refuse not_ready

  unfoldable pub set_port : Option Port → Request → Method F D Reply
  set_port none r = refuse invalid_port
  set_port (some p) r = if is_reserved p then refuse reserved_port else if_running p r

  unfoldable pub mutate : Command → Request → Method F D Reply
  mutate reboot r = ask_reboot
  mutate port_set r = set_port (port_named (c_str r.port)) r
  mutate _ r = refuse bad_request

  unfoldable pub unless_stopping : Request → Method F D Reply
  unless_stopping r = do
    s ← gets (λ s. s)
    let stopping = is_phase shutdown_wait s.manager.phase || is_phase power_off s.manager.phase
    if stopping then refuse shutting_down else mutate r.command r

  unfoldable pub carry_out : Command → Request → Method F D Reply
  carry_out pong r = take_pong r
  carry_out shutdown_ack r = take_shutdown (λ s. record s { received_ack = true }) r
  carry_out shutdown_ready r = take_shutdown (λ s. record s { received_ready = true }) r
  carry_out _ r = unless_stopping r

  unfoldable pub decide : Request → Method F D Reply
  decide r = do
    s ← gets (λ s. s)
    let current = bytes_eq (c_str r.boot_id) (c_str s.boot_id)
    if current then carry_out r.command r else refuse stale_boot

  unfoldable pub keep_reply : Request → Reply → Method F D (Unit {0})
  keep_reply r y =
      if is_mutation r.command
      then modify (λ s. record s { replay = remember r y s.replay })
      else pure tt

  unfoldable pub handle_new : Request → Method F D (Unit {0})
  handle_new r = do y ← decide r; keep_reply r y; respond F D r.id y.ok y.code

  -- Only the commands that change something look at the cache.
  unfoldable pub known : Request → Application F D → Match × Reply
  known r s = if is_mutation r.command then lookup r no_reply s.replay else (new, no_reply)

  unfoldable pub reply_by : Request → Match × Reply → Method F D (Unit {0})
  reply_by r (new, y) = handle_new r
  reply_by r (m, y) = respond F D r.id (replayed m y).ok (replayed m y).code

  unfoldable pub handle : Request → Method F D (Unit {0})
  handle r = do
    m ← gets (known r)
    if is_status r.command then respond F D r.id true ok >> report F D else reply_by r m
