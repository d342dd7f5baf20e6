-- ===== src/SupercapTransfer/Shutdown.antt =====
-- The shutdown in steps, the fault and the cutoff.
use tankervision_pdb.Common.{
  ℕ, Bool, true, false, not, Floats, ◌&&◌, ltb, leb, if◌then◌else◌, sub32,
}
use tankervision_pdb.BoardControl.{
  BoardControl, five_volt_vbus, vbus, supervised, five_volt_supervised,
}
use tankervision_pdb.SupercapTransfer.State.{
  System, ask, update, CutoffReason, TransferError, is_no_error, fault, cutoff, decay_ms,
  main_return_grace_ms,
}

module _ (F : Floats) (B : BoardControl F) where
  unfoldable pub request_cutoff : CutoffReason → ℕ → System F B → Bool × System F B
  request_cutoff reason now s = (
    true,
    update F B
        (λ t. record t {
          backup_ended_at =
              if t.backup_confirmed && not t.backup_ended then now else t.backup_ended_at;
          backup_ended = if t.backup_confirmed && not t.backup_ended then true else t.backup_ended;
          cutoff_reason = reason;
          state = cutoff;
          monitoring = false;
        })
        s,
  )

  -- Every port is turned off, also where another could not be.
  unfoldable pub clear_external_outputs : System F B → Bool × System F B
  clear_external_outputs s =
      let (a, s1) = ask F B (B.set_port five_volt_vbus false) s in
      let (b, s2) = ask F B (B.set_port vbus false) s1 in
      let (c, s3) = ask F B (B.set_port supervised false) s2 in
      let (d, s4) = ask F B (B.set_port five_volt_supervised false) s3 in
      let (e, s5) = ask F B (B.set_jetson_button false) s4 in (e && (d && (c && (b && a))), s5)

  -- The time is noted where CE is verified off.
  unfoldable pub note_ce : Bool × System F B → System F B
  note_ce (off, s) =
      let t = update F B (λ h. record h { ce_off_verified = off }) s in
      let (now, u) = ask F B B.millis t in
      if off then update F B (λ h. record h { ce_off_at = now }) u else t

  -- CE off, by the driver or else by its emergency path.
  unfoldable pub drop_ce : System F B → System F B
  drop_ce s =
      let (off, t) = ask F B (B.set_charger false) s in
      note_ce (if off then (true, t) else ask F B B.disable_charging_for_power_loss t)

  unfoldable pub begin_shutdown : System F B → Bool × System F B
  begin_shutdown s =
      let t = drop_ce (update F B (λ h. record h { shutdown_pending = true }) s) in
      let (off, u) = clear_external_outputs t in
      let ok = t.transfer.ce_off_verified && off in
      (ok, update F B (λ h. record h { cleanup_ok = ok }) u)

  unfoldable pub drop_supplies : System F B → Bool × System F B
  drop_supplies s =
      let (off, t) = clear_external_outputs s in
      let (buck, u) = ask F B (B.set_buck_5v false) t in
      let (boost, v) = ask F B (B.set_boost false) u in
      let ok = boost && (buck && off) in
      (
        ok,
        update F B
            (λ h. record h {
              cleanup_ok = ok;
              shutdown_pending = if ok then false else h.shutdown_pending;
            })
            v,
      )

  unfoldable pub finish_shutdown : ℕ → System F B → Bool × System F B
  finish_shutdown now s =
      if not s.transfer.shutdown_pending
      then (s.transfer.cleanup_ok, s)
      else if not s.transfer.ce_off_verified
      then (false, update F B (λ h. record h { cleanup_ok = false }) (drop_ce s))
      else if ltb (sub32 now s.transfer.ce_off_at) decay_ms
      then (s.transfer.cleanup_ok, s)
      else drop_supplies s

  unfoldable pub latch_fault : TransferError → System F B → System F B
  latch_fault e = update F B (λ h. record h {
    error = if is_no_error h.error then e else h.error;
    state = fault;
    plateau = false;
    monitoring = true;
  })

  unfoldable pub raise_fault : TransferError → System F B → Bool × System F B
  raise_fault e s =
      let t = latch_fault e s in
      (false, if t.transfer.shutdown_pending then t else (begin_shutdown t).1)

  -- The grace has passed since the loss. The clock is read only during one.
  unfoldable pub loss_expired : System F B → Bool × System F B
  loss_expired s =
      if s.transfer.loss_active
      then (let (now, t) = ask F B B.millis s in
          (leb main_return_grace_ms (sub32 now s.transfer.first_loss_at), t))
      else (false, s)
