-- ===== src/SupercapTransfer/Deadline.antt =====
-- Why a service ends in a cutoff.
use tankervision_pdb.Common.{
  ℕ, false, not, Floats, ◌≡◌, inl, ◌∙◌, refl, ap, ◌&&◌, leb, ltb, if◌then◌else◌, if_rule, sub32,
  arith, Option, none, some,
}
use tankervision_pdb.BoardControl.{Status, BoardControl}
use tankervision_pdb.SupercapTransfer.State.{
  SupercapTransfer, System, of_board, loss_shutdown, loss_unarmed, ask, is_cutoff,
  main_return_grace_ms, sample_ms, main_valid,
}
use tankervision_pdb.SupercapTransfer.Shutdown.{begin_shutdown, raise_fault}
use tankervision_pdb.SupercapTransfer.Service.{
  start_loss, note_loss, note_confirmed, note_return, finish_step, note_source, judge, unread,
  take_answer, take_sample, service,
}
use tankervision_pdb.SupercapTransfer.Core.{core, begin_shutdown-Has, finish_shutdown-Has}
use tankervision_pdb.SupercapTransfer.Cutoff.{
  Live, Has-Live, raise_fault-going, raise_fault-Live, Justified, check_status-Justified,
  late_cutoff-Justified,
}

module _ {F : Floats} {B : BoardControl F} where
  begin_shutdown-Live : (t : Status F) (s : System F B) → Live t s → Live t (begin_shutdown F B s).1
  begin_shutdown-Live t s l =
      Has-Live t s _ (begin_shutdown-Has (core s.transfer) s (record { same = refl })) l

  start_loss-Live :
      (t : Status F) (now : ℕ) (s : System F B) → Live t s → Live t (start_loss F B now s)
  unfolding start_loss
  start_loss-Live t now s l =
      let e = l.status in let g = l.going in record { going = ground arith; status = e }

  note_loss-Live :
      (t : Status F) (now : ℕ) (s : System F B) → Live t s → Live t (note_loss F B now s)
  unfolding note_loss
  note_loss-Live t now s l =
      let (down, u) = begin_shutdown F B (start_loss F B now s) in
      let k = begin_shutdown-Live t _ (start_loss-Live t now s l) in
      let v = if down then u else (raise_fault F B loss_shutdown u).1 in
      let m : Live t v =
        if_rule (Live t) down (λ _. k) (λ _. raise_fault-Live loss_shutdown t u k) in
      if_rule (Live t) v.transfer.backup_armed (λ _. m) (λ _. raise_fault-Live loss_unarmed t v m)

  note_confirmed-Live :
      (t : Status F) (now : ℕ) (s : System F B) → Live t s → Live t (note_confirmed F B now t s)
  unfolding note_confirmed
  note_confirmed-Live t now s l = let e = l.status in let g = l.going in ground arith

  note_return-Live :
      (t : Status F) (now : ℕ) (s : System F B) → Live t s → Live t (note_return F B now s)
  unfolding note_return
  note_return-Live t now s l =
      let e = l.status in let g = l.going in record { going = ground arith; status = e }

  note_source-Live :
      (t : Status F) (now : ℕ) (s : System F B) → Live t s → Live t (note_source F B now t s)
  unfolding note_source
  note_source-Live t now s l =
      let lost = not (main_valid F t) && not s.transfer.loss_active in
      let a = if lost then note_loss F B now s else s in
      let k : Live t a = if_rule (Live t) lost (λ _. note_loss-Live t now s l) (λ _. l) in
      let b = note_confirmed F B now t a in
      let m = note_confirmed-Live t now a k in
      if_rule (Live t) (b.transfer.loss_active && main_valid F t) (λ _. note_return-Live t now b m)
        (λ _. m)

  finish_step-Live : (t : Status F) (s : System F B) → Live t s → Live t (finish_step F B s)
  unfolding finish_step
  finish_step-Live t s l =
      Has-Live t s _ (finish_shutdown-Has (core s.transfer) _ _ (record { same = refl })) l

  transfer-Live : (t : Status F) (s u : System F B) → u.transfer ≡ s.transfer → Live t s → Live t u
  transfer-Live t s u e l = record {
    going = ap (λ (h : SupercapTransfer F). is_cutoff h.state) e ∙ l.going;
    status = ap (λ (h : SupercapTransfer F). h.last_status) e ∙ l.status;
  }

  judge-Justified :
      (now : ℕ) (t : Status F) (s : System F B) → Live t s → Justified (judge F B now t s)
  unfolding judge
  judge-Justified now t s l =
      let m = note_source-Live t now s l in
      late_cutoff-Justified _ _ λ u e. late_cutoff-Justified _ _ λ v e'.
        check_status-Justified now t v
          (transfer-Live t _ v e' (finish_step-Live t u (transfer-Live t _ u e m)))

  unread-Justified :
      (s : System F B) → is_cutoff s.transfer.state ≡ false → Justified (unread F B s)
  unfolding unread
  unread-Justified s g = late_cutoff-Justified _ s λ u e.
      let f = (raise_fault F B of_board u).1 in
      let t = f.transfer.last_status in
      let k : Live t f = record { going = raise_fault-going of_board u; status = refl } in
      late_cutoff-Justified _ _ λ v e'.
        let m = transfer-Live t _ v e' (finish_step-Live t f k) in record { why = inl m.going }

  take_answer-Justified :
      (now : ℕ) (a : Option (Status F)) (s : System F B)
      → is_cutoff s.transfer.state ≡ false
      → Justified (take_answer F B now a s)
  unfolding take_answer
  take_answer-Justified now none s g = unread-Justified _ g
  take_answer-Justified now (some t) s g =
      judge-Justified now t _ (record { going = g; status = refl })

  -- A service that is not in the cutoff already ends in one for one of two reasons: the main source
  -- has been lost for 20 s or more by the clock, or the last status shows no valid main source and
  -- 7 V or less while the backup is armed.
  pub service-Justified :
      (s : System F B) → is_cutoff s.transfer.state ≡ false → Justified (service F B s)
  unfolding service take_sample
  service-Justified s g =
      let (now, t) = ask F B B.millis s in
      let due =
        s.transfer.loss_active && leb main_return_grace_ms (sub32 now s.transfer.first_loss_at) in
      if_rule Justified (not s.transfer.monitoring) (λ _. record { why = inl g })
        λ _.
          if_rule Justified (ltb (sub32 now s.transfer.last_sample_at) sample_ms && not due)
            (λ _. record { why = inl g }) (λ _. take_answer-Justified now _ _ g)
