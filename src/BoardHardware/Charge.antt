-- ===== src/BoardHardware/Charge.antt =====
-- The stages of `startPrepareCharge` and `startEnableCharge`.
use tankervision_pdb.Common.{
  ℕ, Bool, true, false, not, Floats, ◌==◌, ◌&&◌, leb, ltb, if◌then◌else◌, [], ◌∷◌, sub32,
}
use tankervision_pdb.Common.Act.{call, gets, modify, after, ◌>>=◌, ◌>>◌}
use tankervision_pdb.BoardHardware.Bits.{
  high, any_high, lower_all, raise, boost, ce, high_current, ts_override,
}
use tankervision_pdb.BoardHardware.State.{
  Board, BoardHardware, System, HardwareSnapshot, not_qualified, invalid_prepare, not_prepared,
}
use tankervision_pdb.BoardHardware.Registers.{
  Method, ask, set_hw, write_control, verify_operational, verify_control_low, internal_address,
}
use tankervision_pdb.BoardHardware.Operations.{
  ts_settle_ms, fresh_internal, advance, succeed, or_fail, stop_failed, wait_pg,
}
use tankervision_pdb.BoardHardware.Reconcile.{decayed, force_first}

module _ (F : Floats) (B : Board) where
  open F use {lit, lt, is_finite}
  open B use {World}

  unfoldable pub check_first : Method F B (Unit {0})
  check_first = do verify_operational F B; force_first F B 1

  unfoldable pub select_profile : Method F B (Unit {0})
  select_profile = do
    verify_control_low F B (ce ∷ [])
    hw ← gets (λ s. s.hw)
    write_control F B internal_address
        (lower_all hw.expected_internal (ce ∷ high_current ∷ ts_override ∷ []))
    advance F B 2

  unfoldable pub boost_from : ℕ → Method F B (Unit {0})
  boost_from expected = do
    write_control F B internal_address (raise expected boost)
    now ← call (ask F B B.millis)
    modify (set_hw F B (λ h. record h { ts_selected_at = now }))
    advance F B 3

  unfoldable pub start_boost : Method F B (Unit {0})
  start_boost = do hw ← gets (λ s. s.hw); boost_from hw.expected_internal

  unfoldable pub qualify : Method F B (Unit {0})
  qualify = do
    verify_operational F B
    verify_control_low F B (ce ∷ high_current ∷ ts_override ∷ [])
    modify (set_hw F B (λ h. record h { prepared = true }))
    succeed F B

  -- The real thermistor within its window, and both supplies good.
  abbrev pub supply_good : HardwareSnapshot F → Bool
  supply_good t = t.boost_pg && t.charger_pg && leb 1300 t.ts_mv && leb t.ts_mv 2350

  unfoldable pub await_supply : System F B → System F B
  await_supply s =
      let (now, t) = ask F B B.millis s in
      if ltb (sub32 now s.hw.ts_selected_at) ts_settle_ms
      then t
      else if supply_good s.hw.snapshot
      then or_fail F B qualify t
      else (let (later, u) = ask F B B.millis t in
          if leb 2000 (sub32 later s.hw.stage_at) then stop_failed F B not_qualified u else u)

  -- A wait for a power good, and what follows it.
  unfoldable pub await_pg : Bool → Method F B (Unit {0}) → System F B → System F B
  await_pg good next s = let (done, t) = wait_pg F B good 2000 s in if done then after next t else t

  unfoldable pub await_boost : System F B → System F B
  await_boost s =
      let (fresh, t) = fresh_internal F B s in
      await_pg (fresh && s.hw.snapshot.boost_pg) (advance F B 4) t

  unfoldable pub service_prepare : System F B → System F B
  service_prepare s =
      if s.hw.stage == 0
      then or_fail F B check_first (set_hw F B (λ h. record h { prepared = false }) s)
      else if s.hw.stage == 1
      then (let (off, t) = decayed F B s in if off then or_fail F B select_profile t else t)
      else if s.hw.stage == 2
      then or_fail F B start_boost s
      else if s.hw.stage == 3
      then await_boost s
      else if s.hw.stage == 4
      then await_supply s
      else stop_failed F B invalid_prepare s

  -- What has to hold for CE to go high.
  unfoldable pub may_enable : BoardHardware F → Bool
  may_enable h =
      h.prepared
      && supply_good h.snapshot
      && is_finite h.snapshot.vcap_v
      && not (F.le (lit 21 0) h.snapshot.vcap_v)
      && not (any_high h.expected_internal (ce ∷ high_current ∷ ts_override ∷ []))
      && high h.expected_internal boost

  unfoldable pub raise_ce : Method F B (Unit {0})
  raise_ce = do
    verify_operational F B
    hw ← gets (λ s. s.hw)
    write_control F B internal_address (raise hw.expected_internal ce)
    succeed F B

  unfoldable pub service_enable : System F B → System F B
  service_enable s =
      if may_enable s.hw then or_fail F B raise_ce s else stop_failed F B not_prepared s
