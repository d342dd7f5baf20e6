-- ===== src/SupercapTransfer/Core.antt =====
-- What the shutdown and the faults leave alone.
use tankervision_pdb.Common.{ℕ, Bool, true, false, not, Floats, ◌≡◌, refl, ap, ltb, if_rule, sub32}
use tankervision_pdb.BoardControl.{Status, BoardControl}
use tankervision_pdb.SupercapTransfer.State.{
  SupercapTransfer, System, TransferState, CutoffReason, TransferError, fault, ask, decay_ms,
}
use tankervision_pdb.SupercapTransfer.Shutdown.{
  clear_external_outputs, note_ce, drop_ce, begin_shutdown, drop_supplies, finish_shutdown,
  latch_fault, raise_fault,
}

module _ (F : Floats) where
  pub record Core : Type 0 where
    pub state : TransferState
    pub cutoff_reason : CutoffReason
    pub last_status : Status F
    pub loss_active : Bool
    pub first_loss_at : ℕ
    pub backup_armed : Bool
    pub is_stopped : Bool

module _ {F : Floats} where
  unfoldable pub core : SupercapTransfer F → Core F
  core h = record {
    state = h.state;
    cutoff_reason = h.cutoff_reason;
    last_status = h.last_status;
    loss_active = h.loss_active;
    first_loss_at = h.first_loss_at;
    backup_armed = h.backup_armed;
    is_stopped = h.is_stopped;
  }

  module _ {B : BoardControl F} where
    -- The state `t` has the core `k`.
    pub record Has (k : Core F) (t : System F B) : Type 0 where
      pub same : core t.transfer ≡ k

    clear-core : (s : System F B) → (clear_external_outputs F B s).1.transfer ≡ s.transfer
    unfolding clear_external_outputs
    clear-core s = refl

    note_ce-Has :
        (k : Core F) (off : Bool) (s : System F B) → Has k s → Has k (note_ce F B (off, s))
    unfolding note_ce core
    note_ce-Has k true s h = record { same = h.same }
    note_ce-Has k false s h = record { same = h.same }

    drop_ce-Has : (k : Core F) (s : System F B) → Has k s → Has k (drop_ce F B s)
    unfolding drop_ce
    drop_ce-Has k s h =
        let (off, t) = ask F B (B.set_charger false) s in
        let (off', u) = ask F B B.disable_charging_for_power_loss t in
        if_rule (λ (r : Bool × System F B). Has k (note_ce F B r)) off
          (λ _. note_ce-Has k true t (record { same = h.same }))
          (λ _. note_ce-Has k off' u (record { same = h.same }))

    pub begin_shutdown-Has :
        (k : Core F) (s : System F B) → Has k s → Has k (begin_shutdown F B s).1
    unfolding begin_shutdown core clear_external_outputs
    begin_shutdown-Has k s h =
        let p =
          drop_ce-Has k (record s { transfer = record (s.transfer) { shutdown_pending = true } })
            (record { same = h.same }) in
        record { same = p.same }

    pub finish_shutdown-Has :
        (k : Core F) (now : ℕ) (s : System F B) → Has k s → Has k (finish_shutdown F B now s).1
    unfolding finish_shutdown drop_supplies core clear_external_outputs
    finish_shutdown-Has k now s h =
        let P = λ (r : Bool × System F B). Has k r.1 in
        if_rule P (not s.transfer.shutdown_pending) (λ _. h)
          λ _.
            if_rule P (not s.transfer.ce_off_verified)
              (λ _. let p = drop_ce-Has k s h in record { same = p.same })
              λ _.
                if_rule P (ltb (sub32 now s.transfer.ce_off_at) decay_ms) (λ _. h)
                  (λ _. record { same = h.same })

    pub raise_fault-Has :
        (k : Core F) (e : TransferError) (s : System F B)
        → Has k s
        → Has (record k { state = fault }) (raise_fault F B e s).1
    unfolding raise_fault latch_fault core
    raise_fault-Has k e s h =
        let j = record k { state = fault } in
        let t = latch_fault F B e s in
        let p : Has j t = record {
          same = ap {A = Core F} {B = Core F} (λ c. record c { state = fault }) h.same;
        } in
        if_rule (Has j) t.transfer.shutdown_pending (λ _. p) (λ _. begin_shutdown-Has j t p)
