-- ===== src/BoardHardware/Reconcile.antt =====
-- The stages of `startReconcile`, `startRestorePor` and `startDisableCharging`.
use tankervision_pdb.Common.{
  ℕ, Bool, true, false, Floats, ◌==◌, ◌&&◌, leb, if◌then◌else◌, [], ◌∷◌, sub32,
}
use tankervision_pdb.Common.Act.{gets, modify, ◌>>=◌, ◌>>◌}
use tankervision_pdb.BoardHardware.Bits.{lower_all, boost, ce}
use tankervision_pdb.BoardHardware.State.{
  Board, System, Pair, Operation, reconcile, por_refused, invalid_reconcile,
}
use tankervision_pdb.BoardHardware.Registers.{
  Method, ask, set_hw, fail, guard, read_pair, write_register, verify_operational,
  verify_control_low, force_ce_low, verify_por, internal_address, external_address, unused_inputs,
}
use tankervision_pdb.BoardHardware.Operations.{decay_ms, advance, succeed, or_fail}

abbrev pub is_reconcile : Operation → Bool
is_reconcile reconcile = true
is_reconcile _ = false

abbrev pub all_inputs : Pair → Bool
all_inputs p = p.low == 0xff && p.high_byte == 0xff

module _ (F : Floats) (B : Board) where
  open F use {lit, lt, is_finite}
  open B use {World}

  -- The time since CE went off.
  unfoldable pub decayed : System F B → Bool × System F B
  decayed s = let (now, t) = ask F B B.millis s in (leb decay_ms (sub32 now s.hw.ce_off_at), t)

  unfoldable pub lower_external : Method F B (Unit {0})
  lower_external = do
    verify_control_low F B (ce ∷ [])
    write_register F B external_address 3 0
    advance F B 2

  unfoldable pub both : ℕ → ℕ → ℕ → Method F B (Unit {0})
  both reg value next = do
    write_register F B internal_address reg value
    write_register F B external_address reg value
    advance F B next

  unfoldable pub clear_polarity : Method F B (Unit {0})
  clear_polarity = do
    write_register F B internal_address 4 0
    write_register F B internal_address 5 0
    write_register F B external_address 4 0
    write_register F B external_address 5 0
    advance F B 7

  unfoldable pub force_first : ℕ → Method F B (Unit {0})
  force_first next = do force_ce_low F B; advance F B next

  unfoldable pub mark_reconciled : Method F B (Unit {0})
  mark_reconciled = do modify (set_hw F B (λ h. record h { reconciled = true })); succeed F B

  unfoldable pub finish_reconcile : Operation → Method F B (Unit {0})
  finish_reconcile op = do
    modify (set_hw F B (λ h. record h { expected_internal = 0; expected_external = 0 }))
    verify_operational F B
    if is_reconcile op then mark_reconciled else advance F B 8

  -- The HIGH latches only after both configurations read as inputs.
  unfoldable pub restore_latches : Method F B (Unit {0})
  restore_latches = do
    in_config ← read_pair F B internal_address 6
    ext_config ← read_pair F B external_address 6
    guard F B (all_inputs in_config && all_inputs ext_config) por_refused
    write_register F B internal_address 2 0xff
    write_register F B internal_address 3 0xff
    write_register F B external_address 2 0xff
    write_register F B external_address 3 0xff
    advance F B 10

  unfoldable pub finish_por : Method F B (Unit {0})
  finish_por = do verify_por F B internal_address; verify_por F B external_address; succeed F B

  unfoldable pub lower_internal : Method F B (Unit {0})
  lower_internal = do write_register F B internal_address 3 0; advance F B 3

  -- The stages of `startReconcile` and `startRestorePor`, but the wait in the second.
  unfoldable pub reconcile_stage : ℕ → Operation → Method F B (Unit {0})
  reconcile_stage stage op =
      if stage == 2
      then lower_internal
      else if stage == 3
      then both 6 0xff 4
      else if stage == 4
      then both 2 0 5
      else if stage == 5
      then both 7 unused_inputs 6
      else if stage == 6
      then clear_polarity
      else if stage == 7
      then finish_reconcile op
      else if stage == 8
      then both 7 0xff 9
      else if stage == 9
      then restore_latches
      else if stage == 10
      then finish_por
      else fail F B invalid_reconcile

  unfoldable pub service_reconcile : System F B → System F B
  service_reconcile s =
      if s.hw.stage == 0
      then or_fail F B (force_first 1)
          (set_hw F B (λ h. record h { reconciled = false; prepared = false }) s)
      else if s.hw.stage == 1
      then (let (off, t) = decayed s in if off then or_fail F B lower_external t else t)
      else or_fail F B (reconcile_stage s.hw.stage s.hw.operation) s

  unfoldable pub remove_supply : Method F B (Unit {0})
  remove_supply = do
    verify_control_low F B (ce ∷ [])
    hw ← gets (λ s. s.hw)
    write_register F B internal_address 3 (lower_all hw.expected_internal (ce ∷ boost ∷ []))
    verify_control_low F B (ce ∷ boost ∷ [])
    succeed F B

  unfoldable pub service_disable : System F B → System F B
  service_disable s =
      let t = set_hw F B (λ h. record h { prepared = false }) s in
      if t.hw.stage == 0
      then or_fail F B (force_first 1) t
      else (let (off, u) = decayed t in if off then or_fail F B remove_supply u else u)
