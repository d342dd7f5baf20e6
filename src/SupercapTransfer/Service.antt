-- ===== src/SupercapTransfer/Service.antt =====
-- `service`, `start` and `stop`.
use tankervision_pdb.Common.{
  ℕ, Bool, true, false, not, Floats, ◌+◌, ◌==◌, ◌&&◌, ◌||◌, ltb, leb, if◌then◌else◌, List, [], ◌∷◌,
  Option, none, some, sub32, u32,
}
use tankervision_pdb.BoardControl.{Status, BoardControl}
use tankervision_pdb.SupercapTransfer.State.{
  SupercapTransfer, System, ask, update, stopped, charging, backup, returned, CutoffReason,
  no_reason, main_timeout, low_voltage, no_error, of_board, budget_missing, source_invalid,
  start_voltage, start_thermistor, loss_shutdown, loss_unarmed, invalid_voltage, overvoltage,
  backed_pg_fell, backup_pg_lost, stop_unverified, is_fault, is_cutoff, is_charging, is_ready,
  sample_ms, main_return_grace_ms, trip_v, cutoff_v, zero_v, main_valid,
}
use tankervision_pdb.SupercapTransfer.Shutdown.{
  request_cutoff, clear_external_outputs, begin_shutdown, finish_shutdown, raise_fault,
  loss_expired,
}
use tankervision_pdb.SupercapTransfer.Charge.{ts_valid, charge_step}

abbrev pub same_bool : Bool → Bool → Bool
same_bool true b = b
same_bool false b = not b

module _ (F : Floats) (B : BoardControl F) where
  open F use {le, lt, is_finite}
  open B use {World}

  unfoldable pub cut_off_now : CutoffReason → System F B → Bool × System F B
  cut_off_now reason s = let (now, t) = ask F B B.millis s in request_cutoff F B reason now t

  unfoldable pub start_loss : ℕ → System F B → System F B
  start_loss now = update F B (λ h. record h {
    loss_active = true;
    source_loss_count = u32 (h.source_loss_count + 1);
    first_loss_at = now;
    backup_confirmed = false;
    backup_confirmed_at = 0;
    backup_ended_at = 0;
    backup_ended = false;
    plateau = false;
    state = if not (is_fault h.state) && not h.is_stopped then backup else h.state;
  })

  unfoldable pub note_loss : ℕ → System F B → System F B
  note_loss now s =
      let (down, t) = begin_shutdown F B (start_loss now s) in
      let u = if down then t else (raise_fault F B loss_shutdown t).1 in
      if u.transfer.backup_armed then u else (raise_fault F B loss_unarmed u).1

  unfoldable pub on_backup : Status F → SupercapTransfer F → Bool
  on_backup t h = not t.main_selected && t.backup_pg && t.ss_buck_pg && h.backup_armed

  unfoldable pub note_confirmed : ℕ → Status F → System F B → System F B
  note_confirmed now t = update F B (λ h.
      if h.loss_active && on_backup t h && not h.backup_confirmed
      then record h { backup_confirmed = true; backup_confirmed_at = now }
      else h)

  unfoldable pub note_return : ℕ → System F B → System F B
  note_return now = update F B (λ h. record h {
    loss_active = false;
    backup_ended_at = if h.backup_confirmed && not h.backup_ended then now else h.backup_ended_at;
    backup_ended = if h.backup_confirmed && not h.backup_ended then true else h.backup_ended;
    state = if not (is_fault h.state) && not h.is_stopped then returned else h.state;
  })

  -- The checks after the source and the shutdown, in their order.
  unfoldable pub check_status : ℕ → Status F → Bool → System F B → Bool × System F B
  check_status now t main s =
      let h = s.transfer in
      if not (is_finite t.vcap_v) || lt t.vcap_v (zero_v F)
      then raise_fault F B invalid_voltage s
      else if le (trip_v F) t.vcap_v && not (is_fault h.state)
      then raise_fault F B overvoltage s
      else if not main && h.backup_armed && le t.vcap_v (cutoff_v F)
      then cut_off_now low_voltage s
      else if not t.ss_buck_pg && not (is_fault h.state)
      then raise_fault F B backed_pg_fell s
      else if h.backup_armed && not t.backup_pg && not (is_fault h.state)
      then raise_fault F B backup_pg_lost s
      else charge_step F B now t main s

  -- The cutoff at the deadline, before and after a step of the shutdown.
  unfoldable pub finish_step : System F B → System F B
  finish_step s = let (now, t) = ask F B B.millis s in (finish_shutdown F B now t).1

  unfoldable pub late_cutoff : (System F B → Bool × System F B) → System F B → Bool × System F B
  late_cutoff next s =
      let (late, t) = loss_expired F B s in if late then cut_off_now main_timeout t else next t

  unfoldable pub note_source : ℕ → Status F → System F B → System F B
  note_source now t s =
      let main = main_valid F t in
      let a = if not main && not s.transfer.loss_active then note_loss now s else s in
      let b = note_confirmed now t a in
      if b.transfer.loss_active && main then note_return now b else b

  unfoldable pub judge : ℕ → Status F → System F B → Bool × System F B
  judge now t s =
      late_cutoff (λ u. late_cutoff (check_status now t (main_valid F t)) (finish_step u))
        (note_source now t s)

  -- A status that cannot be read is a fault; the shutdown is tried again.
  unfoldable pub unread : System F B → Bool × System F B
  unread s =
      late_cutoff (λ u. late_cutoff (λ v. (false, v)) (finish_step (raise_fault F B of_board u).1))
        s

  unfoldable pub take_answer : ℕ → Option (Status F) → System F B → Bool × System F B
  take_answer now none s = unread (update F B (λ h. record h { status_valid = false }) s)
  take_answer now (some t) s = judge now t (
      update F B
        (λ h. record h { last_status = t; status_valid = true; samples = u32 (h.samples + 1) }) s)

  unfoldable pub take_sample : ℕ → System F B → Bool × System F B
  take_sample now s =
      let gap = sub32 now s.transfer.last_sample_at in
      let t =
        update F B
          (λ h. record h {
            max_gap_ms = if not (h.samples == 0) && ltb h.max_gap_ms gap then gap else h.max_gap_ms;
            last_sample_at = now;
          })
          s in
      let (answer, u) = ask F B B.read_status t in take_answer now answer u

  unfoldable pub service : System F B → Bool × System F B
  service s =
      if not s.transfer.monitoring
      then (not (is_fault s.transfer.state), s)
      else (let (now, t) = ask F B B.millis s in
          let due =
            s.transfer.loss_active
            && leb main_return_grace_ms (sub32 now s.transfer.first_loss_at) in
          if ltb (sub32 now s.transfer.last_sample_at) sample_ms && not due
          then (not (is_fault s.transfer.state), t)
          else take_sample now t)

  unfoldable pub begin_run : System F B → Bool × System F B
  begin_run s =
      let (now, t) = ask F B B.millis s in
      service (
        update F B
          (λ h. record h {
            state = charging;
            monitoring = true;
            started_at = now;
            last_sample_at = sub32 now sample_ms;
            samples = 0;
            max_gap_ms = 0;
            first_loss_at = 0;
            backup_confirmed_at = 0;
            backup_ended_at = 0;
            source_loss_count = 0;
            loss_active = false;
            backup_confirmed = false;
            reached_ready = false;
            backup_ended = false;
            cutoff_reason = no_reason;
            plateau = false;
            stat_low_seen = false;
          })
          t)

  unfoldable pub enable_charger : System F B → Bool × System F B
  enable_charger s =
      let (on, t) = ask F B (B.set_charger true) s in
      if on then begin_run t else raise_fault F B of_board t

  unfoldable pub check_thermistor : Option (Status F) → System F B → Bool × System F B
  check_thermistor none s = raise_fault F B of_board s
  check_thermistor (some t) s =
      let u = update F B (λ h. record h { last_status = t }) s in
      if ts_valid F B t then enable_charger u else raise_fault F B start_thermistor u

  -- The calls of a chain of `||` on failures: the first failure skips the rest.
  abbrev pub in_turn : List (System F B → Bool × System F B) → System F B → Bool × System F B
  in_turn [] s = (true, s)
  in_turn (f ∷ fs) s =
      let (ok, t) = f s in let rest = in_turn fs t in if ok then rest else (false, t)

  unfoldable pub setup : System F B → Bool × System F B
  setup = in_turn (
      ask F B (B.set_charger false)
      ∷ clear_external_outputs F B
      ∷ ask F B (B.set_buck_5v false)
      ∷ ask F B (B.set_boost false)
      ∷ ask F B (B.set_charge_high_current false)
      ∷ ask F B (B.set_thermistor_override false)
      ∷ ask F B (B.set_boost true)
      ∷ [])

  unfoldable pub prepare : System F B → Bool × System F B
  prepare s =
      let (ok, t) = setup s in
      if ok
      then (let (answer, u) = ask F B B.read_status t in check_thermistor answer u)
      else raise_fault F B of_board t

  unfoldable pub check_start : Option (Status F) → System F B → Bool × System F B
  check_start none s = raise_fault F B of_board s
  check_start (some t) s =
      let u = update F B (λ h. record h { last_status = t; status_valid = true }) s in
      if not (main_valid F t) || same_bool t.usb_pg t.dc_pg || not t.ss_buck_pg
      then raise_fault F B source_invalid u
      else if not (is_finite t.vcap_v) || lt t.vcap_v (zero_v F) || le (trip_v F) t.vcap_v
      then raise_fault F B start_voltage u
      else prepare u

  unfoldable pub start : Bool → System F B → Bool × System F B
  start budget_validated s =
      let h = s.transfer in
      if is_cutoff h.state
      then (false, s)
      else if is_charging h.state || is_ready h.state
      then (true, s)
      else if h.shutdown_pending
      then (false, s)
      else (let t =
            update F B (λ k. record k { error = no_error; is_stopped = false; cleanup_ok = true })
              s in
          if not budget_validated
          then raise_fault F B budget_missing t
          else (let (answer, u) = ask F B B.read_status t in check_start answer u))

  -- The backup is released only while the main source is valid.
  unfoldable pub release_backup : Bool → Option (Status F) → System F B → Bool × System F B
  release_backup ok none s = (false, update F B (λ h. record h { status_valid = false }) s)
  release_backup ok (some t) s =
      let u = update F B (λ h. record h { last_status = t; status_valid = true }) s in
      if main_valid F t && u.transfer.backup_armed
      then (let (released, x) = ask F B (B.set_backup false) u in
          (
            released && ok,
            update F B (λ h. record h { backup_armed = if released then false else h.backup_armed })
                x,
          ))
      else (ok, u)

  unfoldable pub stop : System F B → Bool × System F B
  stop s =
      if is_cutoff s.transfer.state
      then (false, s)
      else (let t =
            update F B
              (λ h. record h {
                is_stopped = true;
                state = stopped;
                plateau = false;
                monitoring = true;
              })
              s in
          let (down, u) = begin_shutdown F B t in
          let (answer, x) = ask F B B.read_status u in
          let (ok, y) = release_backup down answer x in
          if ok then (true, y) else raise_fault F B stop_unverified y)
