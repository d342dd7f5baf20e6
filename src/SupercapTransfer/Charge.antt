-- ===== src/SupercapTransfer/Charge.antt =====
-- What is supervised while charging. Each step goes on to the next, or returns.
use tankervision_pdb.Common.{
  ℕ, Bool, true, false, not, Floats, ◌==◌, ◌&&◌, ◌||◌, leb, if◌then◌else◌, sub32, low_bits,
}
use tankervision_pdb.BoardControl.{Status, BoardControl}
use tankervision_pdb.SupercapTransfer.State.{
  SupercapTransfer, System, ask, update, of_board, enables_changed, thermistor, stat_low,
  charge_timeout, charging, ready, is_charging, is_ready, is_fault, charging_outputs, ts_min_mv,
  ts_max_mv, stat_low_ms, plateau_ms, charge_timeout_ms, arm_v, full_min_v, full_max_v,
  plateau_span_v,
}
use tankervision_pdb.SupercapTransfer.Shutdown.{raise_fault}

module _ (F : Floats) (B : BoardControl F) where
  open F use {le, lt, sub, fmin, fmax}

  unfoldable pub enables_expected : Status F → Bool
  enables_expected t =
      t.boost_pg
      && t.charger_pg
      && t.internal_outputs == charging_outputs
      && low_bits t.internal_output_inputs 5 == charging_outputs
      && t.external_outputs == 0
      && low_bits t.external_output_inputs 5 == 0

  abbrev pub ts_valid : Status F → Bool
  ts_valid t = leb ts_min_mv t.ts_mv && leb t.ts_mv ts_max_mv

  -- The end of `service`: a stopped run with nothing left to watch is not monitored any more.
  unfoldable pub finish : Bool → System F B → Bool × System F B
  finish main s =
      let h = s.transfer in
      let idle = h.is_stopped && not h.backup_armed && not h.shutdown_pending && main in
      (
        not (is_fault h.state),
        if idle then update F B (λ k. record k { monitoring = false }) s else s,
      )

  -- A sample near the full voltage: the plateau starts, starts again, or has lasted.
  unfoldable pub hold_plateau : ℕ → Status F → SupercapTransfer F → SupercapTransfer F
  hold_plateau now t h =
      let v = t.vcap_v in
      let a =
        if h.plateau
        then h
        else record h { plateau = true; plateau_at = now; plateau_min = v; plateau_max = v } in
      let b = record a { plateau_min = fmin a.plateau_min v; plateau_max = fmax a.plateau_max v } in
      let c =
        if lt (plateau_span_v F) (sub b.plateau_max b.plateau_min)
        then record b { plateau_at = now; plateau_min = v; plateau_max = v }
        else b in
      if leb plateau_ms (sub32 now c.plateau_at) && c.backup_armed && t.backup_pg
      then record c { state = ready; reached_ready = true }
      else c

  unfoldable pub near_full : Status F → Bool
  near_full t = le (full_min_v F) t.vcap_v && le t.vcap_v (full_max_v F) && t.charger_stat

  unfoldable pub plateau_step : ℕ → Status F → Bool → System F B → Bool × System F B
  plateau_step now t main s =
      if not (is_charging s.transfer.state)
      then finish main s
      else (let u =
            update F B
              (λ h. if near_full t then hold_plateau now t h else record h { plateau = false }) s in
          if is_charging u.transfer.state && leb charge_timeout_ms (sub32 now u.transfer.started_at)
          then raise_fault F B charge_timeout u
          else finish main u)

  unfoldable pub recharge_step : ℕ → Status F → Bool → System F B → Bool × System F B
  recharge_step now t main s = plateau_step now t main (
      if is_ready s.transfer.state && lt t.vcap_v (full_min_v F)
      then update F B (λ h. record h { state = charging; plateau = false }) s
      else s)

  -- The backup is armed by its pin, whatever the driver says of the call.
  unfoldable pub arm_step : ℕ → Status F → Bool → System F B → Bool × System F B
  arm_step now t main s =
      if not s.transfer.backup_armed && le (arm_v F) t.vcap_v
      then (let (armed, u) = ask F B (B.set_backup true) s in
          let (level, x) = ask F B (B.digital_read 42) u in
          let y = update F B (λ h. record h { backup_armed = level }) x in
          if armed then recharge_step now t main y else raise_fault F B of_board y)
      else recharge_step now t main s

  unfoldable pub stat_step : ℕ → Status F → Bool → System F B → Bool × System F B
  stat_step now t main s =
      if not t.charger_stat
      then (let u =
            if s.transfer.stat_low_seen
            then s
            else update F B (λ h. record h { stat_low_seen = true; stat_low_at = now }) s in
          if leb stat_low_ms (sub32 now u.transfer.stat_low_at)
          then raise_fault F B stat_low u
          else arm_step now t main u)
      else arm_step now t main (update F B (λ h. record h { stat_low_seen = false }) s)

  unfoldable pub charge_step : ℕ → Status F → Bool → System F B → Bool × System F B
  charge_step now t main s =
      if not (is_charging s.transfer.state || is_ready s.transfer.state)
      then finish main s
      else if not (enables_expected t)
      then raise_fault F B enables_changed s
      else if not (ts_valid t)
      then raise_fault F B thermistor s
      else stat_step now t main s
