-- ===== src/BoardHardware/QuietStages.antt =====
-- The stages that never raise CE, and the service.
use tankervision_pdb.Common.{
  ℕ, Bool, true, false, Floats, ◌≡◌, ◌≢◌, ◌⊎◌, inl, inr, ◌==◌, ◌&&◌, if◌then◌else◌, List, [], ◌∷◌,
  refl, arith, if_rule, leb, ltb, sub32,
}
use tankervision_pdb.Common.Act.{Keeps, Keeps-gets, Keeps-if, Keeps-bind, gets_rule}
use tankervision_pdb.BoardHardware.Bits.{
  high, ce, boost, high_current, ts_override, high-lower_all_charge, high-lower_all-boost,
  high-raise-boost,
}
use tankervision_pdb.BoardHardware.State.{
  Board, System, Operation, port_change, pg_timeout, not_qualified, invalid_prepare, not_prepared,
}
use tankervision_pdb.BoardHardware.Registers.{
  Method, ask, set_hw, internal_address, external_address, unused_inputs, verify_control_low,
  write_control,
}
use tankervision_pdb.BoardHardware.Closed.{
  Closed, modify-Keeps, fail-Keeps, millis-Keeps, verify_operational-Keeps, verify_por-Keeps,
  write_control-Keeps, verify_control_low-Keeps,
}
use tankervision_pdb.BoardHardware.Operations.{
  or_fail, fresh_internal, current_main, time_good, check_deadline, wait_pg, ts_settle_ms,
}
use tankervision_pdb.BoardHardware.Monitoring.{mux_pin}
use tankervision_pdb.BoardHardware.Reconcile.{
  decayed, lower_external, both, clear_polarity, force_first, mark_reconciled, finish_reconcile,
  finish_por, lower_internal, reconcile_stage, service_reconcile, remove_supply, service_disable,
}
use tankervision_pdb.BoardHardware.Charge.{
  check_first, select_profile, start_boost, boost_from, qualify, await_supply, supply_good,
  await_pg, await_boost, service_prepare, may_enable, service_enable,
}
use tankervision_pdb.BoardHardware.Quiet.{
  raises_ce, ce_low, Watched, Held, Held-Closed, expect-Held, write_other-Held, write_low-Held,
  advance-Held, succeed-Held, force_ce_low-Held, or_fail_at, or_fail-Held, stop_failed-Held,
}

module _ {F : Floats} {B : Board} (W : Watched B raises_ce) (op : Operation) where
  abbrev P : System F B → Type 0
  P = Held W op

  abbrev C : Closed F B raises_ce P
  C = Held-Closed W op

  low-Held : (mask : List ℕ) → Keeps P (verify_control_low F B mask)
  low-Held = verify_control_low-Keeps C (expect-Held W op)

  both-Held : (r v n : ℕ) → r ≢ 3 → Keeps P (both F B r v n)
  unfolding both
  both-Held r v n h =
      Keeps-bind _ _ (write_other-Held W op internal_address r v h)
        λ _. Keeps-bind _ _ (write_other-Held W op external_address r v h) λ _. advance-Held W op n

  lower_external-Held : Keeps P (lower_external F B)
  unfolding lower_external
  lower_external-Held =
      Keeps-bind _ _ (low-Held (ce ∷ []))
        λ _. Keeps-bind _ _ (write_low-Held W op external_address 0 refl) λ _. advance-Held W op 2

  lower_internal-Held : Keeps P (lower_internal F B)
  unfolding lower_internal
  lower_internal-Held =
      Keeps-bind _ _ (write_low-Held W op internal_address 0 refl) λ _. advance-Held W op 3

  clear_polarity-Held : Keeps P (clear_polarity F B)
  unfolding clear_polarity
  clear_polarity-Held =
      Keeps-bind _ _ (write_other-Held W op internal_address 4 0 (omega arith)) λ _.
        Keeps-bind _ _ (write_other-Held W op internal_address 5 0 (omega arith)) λ _.
          Keeps-bind _ _ (write_other-Held W op external_address 4 0 (omega arith)) λ _.
            Keeps-bind _ _ (write_other-Held W op external_address 5 0 (omega arith))
              λ _. advance-Held W op 7

  force_first-Held : (n : ℕ) → Keeps P (force_first F B n)
  unfolding force_first
  force_first-Held n = Keeps-bind _ _ (force_ce_low-Held W op) λ _. advance-Held W op n

  mark_reconciled-Held : Keeps P (mark_reconciled F B)
  unfolding mark_reconciled
  mark_reconciled-Held =
      Keeps-bind _ _ (modify-Keeps C _ (λ s h. record { safe = h.safe; same = h.same }))
        λ _. succeed-Held W op

  finish_reconcile-Held : (o : Operation) → Keeps P (finish_reconcile F B o)
  unfolding finish_reconcile
  finish_reconcile-Held o =
      Keeps-bind _ _ (modify-Keeps C _ (λ s h. record { safe = h.safe; same = h.same })) λ _.
        Keeps-bind _ _ (verify_operational-Keeps C)
          λ _. Keeps-if _ _ _ mark_reconciled-Held (advance-Held W op 8)

  finish_por-Held : Keeps P (finish_por F B)
  unfolding finish_por
  finish_por-Held =
      Keeps-bind _ _ (verify_por-Keeps C internal_address)
        λ _. Keeps-bind _ _ (verify_por-Keeps C external_address) λ _. succeed-Held W op

  -- Every stage but the one that restores the latches.
  reconcile_stage-Held : (n : ℕ) (o : Operation) → n ≢ 9 → Keeps P (reconcile_stage F B n o)
  unfolding reconcile_stage
  reconcile_stage-Held n o h = Keeps-if _ _ _ lower_internal-Held (
      Keeps-if _ _ _ (both-Held 6 0xff 4 (omega arith)) (
        Keeps-if _ _ _ (both-Held 2 0 5 (omega arith)) (
          Keeps-if _ _ _ (both-Held 7 unused_inputs 6 (omega arith)) (
            Keeps-if _ _ _ clear_polarity-Held (
              Keeps-if _ _ _ (finish_reconcile-Held o) (
                Keeps-if _ _ _ (both-Held 7 0xff 9 (omega arith)) (
                  if_rule (Keeps P) (n == 9) (λ e. absurd (h (ground arith)))
                    λ _. Keeps-if _ _ _ finish_por-Held (fail-Keeps C (Unit {0}) _))))))))

  remove_supply-Held : Keeps P (remove_supply F B)
  unfolding remove_supply
  remove_supply-Held = Keeps-bind _ _ (low-Held (ce ∷ [])) λ _. Keeps-bind _ _ (Keeps-gets _) λ hw.
      Keeps-bind _ _
        (write_low-Held W op internal_address _ (high-lower_all-boost hw.expected_internal))
        λ _. Keeps-bind _ _ (low-Held (ce ∷ boost ∷ [])) λ _. succeed-Held W op

  check_first-Held : Keeps P (check_first F B)
  unfolding check_first
  check_first-Held = Keeps-bind _ _ (verify_operational-Keeps C) λ _. force_first-Held 1

  control-Held : (v : ℕ) → high v ce ≡ false → Keeps P (write_control F B internal_address v)
  control-Held v h =
      write_control-Keeps C (expect-Held W op) internal_address v (ce_low internal_address v h)

  select_profile-Held : Keeps P (select_profile F B)
  unfolding select_profile
  select_profile-Held = Keeps-bind _ _ (low-Held (ce ∷ [])) λ _. Keeps-bind _ _ (Keeps-gets _) λ hw.
      Keeps-bind _ _ (control-Held _ (high-lower_all_charge hw.expected_internal))
        λ _. advance-Held W op 2

  qualify-Held : Keeps P (qualify F B)
  unfolding qualify
  qualify-Held = Keeps-bind _ _ (verify_operational-Keeps C) λ _.
      Keeps-bind _ _ (low-Held (ce ∷ high_current ∷ ts_override ∷ [])) λ _.
        Keeps-bind _ _ (modify-Keeps C _ (λ s h. record { safe = h.safe; same = h.same }))
          λ _. succeed-Held W op

  boost_from-Held : (v : ℕ) → high v ce ≡ false → Keeps P (boost_from F B v)
  unfolding boost_from
  boost_from-Held v h = Keeps-bind _ _ (control-Held _ (high-raise-boost v h)) λ _.
      Keeps-bind _ _ (millis-Keeps C) λ _.
        Keeps-bind _ _ (modify-Keeps C _ (λ s k. record { safe = k.safe; same = k.same }))
          λ _. advance-Held W op 3

  fresh_internal-Held : (s : System F B) → P s → P (fresh_internal F B s).1
  unfolding fresh_internal
  fresh_internal-Held s h =
      if_rule (λ (r : Bool × System F B). P r.1) s.hw.snapshot.internal.valid (λ _. C.millis s h)
        (λ _. h)

  pub current_main-Held : (s : System F B) → P s → P (current_main F B s).1
  unfolding current_main
  current_main-Held s h =
      let (fresh, t) = fresh_internal F B s in
      let k = fresh_internal-Held s h in
      if_rule (λ (r : Bool × System F B). P r.1) (fresh && s.hw.snapshot.main_selected)
        (λ _. C.digital_read mux_pin t k) (λ _. k)

  decayed-Held : (s : System F B) → P s → P (decayed F B s).1
  unfolding decayed
  decayed-Held s h = C.millis s h

  time_good-Held : (s : System F B) → P s → P (time_good F B s)
  unfolding time_good
  time_good-Held s h =
      let k = C.millis s h in
      if_rule P s.hw.pg_timing (λ _. h) (λ _. record { safe = k.safe; same = k.same })

  module _ (other : op ≢ port_change) where
    start_boost-Held :
        (s : System F B)
        → high s.hw.expected_internal ce ≡ false
        → P s
        → P (or_fail F B (start_boost F B) s)
    unfolding start_boost
    start_boost-Held s e h = or_fail_at W op other _ s (
        gets_rule P (λ (t : System F B). t.hw) (λ hw. boost_from F B hw.expected_internal) s
          ((boost_from-Held s.hw.expected_internal e).holds s h))

    check_deadline-Held : (n : ℕ) (s : System F B) → P s → P (check_deadline F B n s).1
    unfolding check_deadline
    check_deadline-Held n s h =
        if_rule P _ (λ _. stop_failed-Held W op other (pg_timeout n) _ (C.millis s h))
          (λ _. C.millis s h)

    wait_pg-Held : (b : Bool) (n : ℕ) (s : System F B) → P s → P (wait_pg F B b n s).1
    unfolding wait_pg
    wait_pg-Held true n s h =
        if_rule (λ (r : Bool × System F B). P r.1) _ (λ _. C.millis _ (time_good-Held s h))
          (λ _. check_deadline-Held n _ (C.millis _ (time_good-Held s h)))
    wait_pg-Held false n s h = check_deadline-Held n _ (record { safe = h.safe; same = h.same })

    await_pg-Held :
        (b : Bool) (next : Method F B (Unit {0}))
        → Keeps P next
        → (s : System F B) → P s
        → P (await_pg F B b next s)
    unfolding await_pg
    await_pg-Held b next k s h =
        let t = wait_pg-Held b 2000 s h in if_rule P _ (λ _. k.holds _ t) (λ _. t)

    await_boost-Held : (s : System F B) → P s → P (await_boost F B s)
    unfolding await_boost
    await_boost-Held s h = await_pg-Held _ _ (advance-Held W op 4) _ (fresh_internal-Held s h)

    await_supply-Held : (s : System F B) → P s → P (await_supply F B s)
    unfolding await_supply
    await_supply-Held s h =
        let (now, t) = ask F B B.millis s in
        let (later, u) = ask F B B.millis t in
        let k = C.millis s h in
        if_rule P (ltb (sub32 now s.hw.ts_selected_at) ts_settle_ms) (λ _. k)
          λ _.
            if_rule P (supply_good F B s.hw.snapshot)
              (λ _. or_fail-Held W op other _ qualify-Held t k)
              λ _.
                if_rule P (leb 2000 (sub32 later s.hw.stage_at))
                  (λ _. stop_failed-Held W op other not_qualified u (C.millis t k))
                  (λ _. C.millis t k)

    -- The operation goes on where CE was low, and is left for this call where it was not yet time.
    timed-Held :
        (m : Method F B (Unit {0}))
        → Keeps P m
        → (s : System F B) → P s
        → P (let (off, t) = decayed F B s in if off then or_fail F B m t else t)
    timed-Held m k s h =
        let (off, t) = decayed F B s in
        if_rule P off (λ _. or_fail-Held W op other m k t (decayed-Held s h))
          (λ _. decayed-Held s h)

    start_boost_at :
        (s : System F B)
        → (s.hw.stage ≢ 2) ⊎ (high s.hw.expected_internal ce ≡ false)
        → (s.hw.stage == 2) ≡ true
        → P s
        → P (or_fail F B (start_boost F B) s)
    start_boost_at s (inl n) e h = absurd (n (ground arith))
    start_boost_at s (inr l) e h = start_boost-Held s l h

    pub service_prepare-Held :
        (s : System F B)
        → (s.hw.stage ≢ 2) ⊎ (high s.hw.expected_internal ce ≡ false)
        → P s
        → P (service_prepare F B s)
    unfolding service_prepare
    service_prepare-Held s low h =
        let t = set_hw F B (λ k. record k { prepared = false }) s in
        if_rule P (s.hw.stage == 0)
          (λ _.
            or_fail-Held W op other _ check_first-Held t (record { safe = h.safe; same = h.same }))
          λ _.
            if_rule P (s.hw.stage == 1) (λ _. timed-Held _ select_profile-Held s h)
              λ _.
                if_rule P (s.hw.stage == 2) (λ e. start_boost_at s low e h)
                  λ _.
                    if_rule P (s.hw.stage == 3) (λ _. await_boost-Held s h)
                      λ _.
                        if_rule P (s.hw.stage == 4) (λ _. await_supply-Held s h)
                          (λ _. stop_failed-Held W op other invalid_prepare s h)

    pub service_reconcile-Held :
        (s : System F B) → s.hw.stage ≢ 9 → P s → P (service_reconcile F B s)
    unfolding service_reconcile
    service_reconcile-Held s n h =
        let t = set_hw F B (λ k. record k { reconciled = false; prepared = false }) s in
        if_rule P (s.hw.stage == 0)
          (λ _.
            or_fail-Held W op other _ (force_first-Held 1) t
              (record { safe = h.safe; same = h.same }))
          λ _.
            if_rule P (s.hw.stage == 1) (λ _. timed-Held _ lower_external-Held s h)
              λ _. or_fail-Held W op other _ (reconcile_stage-Held s.hw.stage s.hw.operation n) s h

    pub service_disable-Held : (s : System F B) → P s → P (service_disable F B s)
    unfolding service_disable
    service_disable-Held s h =
        let t = set_hw F B (λ k. record k { prepared = false }) s in
        let k : P t = record { safe = h.safe; same = h.same } in
        if_rule P (s.hw.stage == 0) (λ _. or_fail-Held W op other _ (force_first-Held 1) t k)
          (λ _. timed-Held _ remove_supply-Held t k)

    pub service_enable-Held :
        (s : System F B) → may_enable F B s.hw ≡ false → P s → P (service_enable F B s)
    unfolding service_enable
    service_enable-Held s e h =
        if_rule P (may_enable F B s.hw) (λ t. absurd (ground arith))
          (λ _. stop_failed-Held W op other not_prepared s h)
