-- ===== src/BoardHardware/Arming.antt =====
-- What `setBackup` asks for before it drives its pin.
use tankervision_pdb.Common.{
  ℕ, Bool, true, false, Floats, ◌≡◌, ◌≢◌, ◌⊎◌, inl, inr, ◌&&◌, ◌≤◌, refl, arith, if_rule, sub32,
}
use tankervision_pdb.Common.Act.{after, pure, call, gets, modify, continue, stop_here, ◌>>=◌, ◌>>◌}
use tankervision_pdb.BoardHardware.State.{
  Board, System, HardwareError, not_initialized, backup_refused, backup_readback,
}
use tankervision_pdb.BoardHardware.Registers.{Method, guard, fail, note_error}
use tankervision_pdb.BoardHardware.Monitoring.{clear_error, backup_pin, mux_pin}
use tankervision_pdb.BoardHardware.Operations.{fresh_internal, current_main, fresh_ms}
use tankervision_pdb.BoardHardware.Pins.{drive, may_arm, set_backup}

-- The clock and the pins can be read without a change.
pub record Unread (B : Board) (Q : B.World → Type 0) : Type 0 where
  pub at_millis : (w : B.World) → Q w → Q (B.millis w).1
  pub at_pin : (p : ℕ) (w : B.World) → Q w → Q (B.digital_read p w).1

module _ (F : Floats) (B : Board) where
  open F use {lit, lt, is_finite}

  -- The state allows the backup: a selected main source with exactly one power good, the backed buck,
  -- a voltage from 10 V to 21 V, in a snapshot of at most 350 ms by the clock.
  pub record Armable (s : System F B) : Type 0 where
    pub monitoring : s.hw.monitoring ≡ true
    pub valid : s.hw.snapshot.internal.valid ≡ true
    pub recent : sub32 (B.millis s.world).0 s.hw.snapshot.internal.at_ms ≤ fresh_ms
    pub selected : s.hw.snapshot.main_selected ≡ true
    pub selected_now : (B.digital_read mux_pin (B.millis s.world).1).0 ≡ true
    pub buck : s.hw.snapshot.ss_buck_pg ≡ true
    pub one_source : s.hw.snapshot.usb_pg ≢ s.hw.snapshot.dc_pg
    pub finite : is_finite s.hw.snapshot.vcap_v ≡ true
    pub least : lt s.hw.snapshot.vcap_v (lit 10 0) ≡ false
    pub most : lt (lit 21 0) s.hw.snapshot.vcap_v ≡ false

  record Verdict (Q : B.World → Type 0) (s t : System F B) : Type 0 where
    verdict : Q t.world ⊎ Armable s

  guard_after :
      (P : System F B → Type 0) (b : Bool) (e : HardwareError) (k : Method F B (Unit {0}))
      (s : System F B)
      → (b ≡ true → P (after k s))
      → P (record s { hw = (note_error F B e s).hw })
      → P (after (guard F B b e >> k) s)
  unfolding guard fail modify stop_here pure ◌>>=◌ continue note_error
  guard_after P true e k s yes_case no_case = yes_case refl
  guard_after P false e k s yes_case no_case = no_case

  armable :
      (s : System F B)
      → s.hw.monitoring ≡ true
      → (may_arm F B (clear_error F B s)).0 ≡ true
      → Armable s
  unfolding may_arm current_main fresh_internal clear_error
  armable s m e = record {
    monitoring = m;
    valid = ground arith;
    recent = ground arith;
    selected = ground arith;
    selected_now = ground arith;
    buck = ground arith;
    one_source = ground arith;
    finite = ground arith;
    least = ground arith;
    most = ground arith;
  }

  module _ {Q : B.World → Type 0} (U : Unread B Q) where
    abbrev Kept : Bool × System F B → Type 0
    Kept r = Q r.1.world

    fresh_internal-Kept : (s : System F B) → Q s.world → Kept (fresh_internal F B s)
    unfolding fresh_internal
    fresh_internal-Kept s q =
        if_rule Kept s.hw.snapshot.internal.valid (λ _. U.at_millis s.world q) (λ _. q)

    may_arm-Kept : (s : System F B) → Q s.world → Q (may_arm F B s).1.world
    unfolding may_arm current_main
    may_arm-Kept s q =
        let t = (fresh_internal F B s).1 in
        let k = fresh_internal-Kept s q in
        if_rule Kept ((fresh_internal F B s).0 && s.hw.snapshot.main_selected)
          (λ _. U.at_pin mux_pin t.world k) (λ _. k)

    -- Arming the backup leaves alone whatever reading the clock and the pins leaves alone, so it drives
    -- no pin, unless the state that it starts from allows the backup: monitored, with a valid
    -- internal expander in a snapshot of at most 350 ms, the main source selected there and on the
    -- pin, exactly one power good, the backed buck, and a finite voltage from 10 V to 21 V.
    pub set_backup-armed :
        (s : System F B) → Q s.world → Q (after (set_backup F B true) s).world ⊎ Armable s
    unfolding set_backup clear_error modify gets call ◌>>=◌ continue note_error
    set_backup-armed s q =
        let u = clear_error F B s in
        let t = (may_arm F B u).1 in
        let rest : Method F B (Unit {0}) = (do
          allowed ← call (may_arm F B)
          guard F B allowed backup_refused
          drive F B backup_pin true backup_readback) in
        (guard_after (Verdict Q s) s.hw.monitoring not_initialized rest u
          (λ on.
            guard_after (Verdict Q s) (may_arm F B u).0 backup_refused
              (drive F B backup_pin true backup_readback) t
              (λ may. record { verdict = inr (armable s on may) })
              (record { verdict = inl (may_arm-Kept u q) }))
          (record { verdict = inl q })).verdict
