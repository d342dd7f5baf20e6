-- ===== src/BoardHardware/CeSafety.antt =====
-- A service raises CE only where its operation may.
use tankervision_pdb.Common.{
  Bool, true, false, not, Floats, ◌≡◌, ◌≢◌, ◌==◌, ◌&&◌, refl, ap, sym, ◌∙◌, arith, if_rule, subst,
}
use tankervision_pdb.BoardHardware.Bits.{high, ce}
use tankervision_pdb.BoardHardware.State.{
  Board, BoardHardware, System, Operation, reconcile, prepare_charge, enable_charge,
  disable_charging, port_change, restore_por, no_operation, main_invalid, not_reconciled,
}
use tankervision_pdb.BoardHardware.Operations.{fresh_internal, current_main, is_running}
use tankervision_pdb.BoardHardware.Charge.{may_enable}
use tankervision_pdb.BoardHardware.Service.{
  service_allowed, needs_main, service_enabling, dispatch, service,
}
use tankervision_pdb.BoardHardware.Quiet.{raises_ce, Watched, Held, stop_failed-Held}
use tankervision_pdb.BoardHardware.QuietStages.{
  service_prepare-Held, service_reconcile-Held, service_disable-Held, service_enable-Held,
  current_main-Held,
}

module _ (F : Floats) (B : Board) where
  -- Where an operation may raise CE.
  abbrev pub may_raise : Operation → BoardHardware F → Bool
  may_raise enable_charge h = may_enable F B h
  may_raise prepare_charge h = h.stage == 2 && high h.expected_internal ce
  may_raise reconcile h = h.stage == 9
  may_raise restore_por h = h.stage == 9
  may_raise port_change h = true
  may_raise disable_charging h = false
  may_raise no_operation h = false

module _ {F : Floats} {B : Board} where
  fresh_internal-hw : (s : System F B) → (fresh_internal F B s).1.hw ≡ s.hw
  unfolding fresh_internal
  fresh_internal-hw s =
      if_rule (λ (r : Bool × System F B). r.1.hw ≡ s.hw) s.hw.snapshot.internal.valid (λ _. refl)
        (λ _. refl)

  pub current_main-hw : (s : System F B) → (current_main F B s).1.hw ≡ s.hw
  unfolding current_main
  current_main-hw s =
      if_rule (λ (r : Bool × System F B). r.1.hw ≡ s.hw)
        ((fresh_internal F B s).0 && s.hw.snapshot.main_selected) (λ _. fresh_internal-hw s)
        (λ _. fresh_internal-hw s)

  module _ (W : Watched B raises_ce) where
    allowed-Held :
        (op : Operation) (s : System F B)
        → may_raise F B op s.hw ≡ false
        → Held W op s
        → Held W op (service_allowed F B op s)
    unfolding service_allowed
    allowed-Held prepare_charge s e h =
        service_prepare-Held W prepare_charge (λ d. cc) s (ground arith) h
    allowed-Held enable_charge s e h = service_enable-Held W enable_charge (λ d. cc) s e h
    allowed-Held port_change s e h = cc
    allowed-Held no_operation s e h = h
    allowed-Held reconcile s e h = h
    allowed-Held disable_charging s e h = h
    allowed-Held restore_por s e h = h

    enabling-Held :
        (op : Operation) (s : System F B)
        → op ≢ port_change
        → may_raise F B op s.hw ≡ false
        → Held W op s
        → Held W op (service_enabling F B s)
    unfolding service_enabling
    enabling-Held op s n e h =
        let (main, t) = current_main F B s in
        let k = current_main-Held W op s h in
        let keep : (o : Operation) → op ≡ o → Held W op (service_allowed F B o t) = λ o q.
          subst (λ x. Held W op (service_allowed F B x t)) q
            (allowed-Held op t (ap (may_raise F B op) (current_main-hw s) ∙ e) k) in
        if_rule (Held W op) (not s.hw.reconciled) (λ _. stop_failed-Held W op n not_reconciled s h)
          λ _.
            if_rule (Held W op) (needs_main F B s.hw)
              (λ _.
                if_rule (Held W op) main (λ _. keep s.hw.operation (sym h.same))
                  (λ _. stop_failed-Held W op n main_invalid t k))
              λ _.
                subst (λ x. Held W op (service_allowed F B x s)) (sym h.same)
                  (allowed-Held op s e h)

    dispatch-Held :
        (op : Operation) (s : System F B)
        → may_raise F B op s.hw ≡ false
        → Held W op s
        → Held W op (dispatch F B op s)
    unfolding dispatch
    dispatch-Held reconcile s e h = service_reconcile-Held W reconcile (λ d. cc) s (ground arith) h
    dispatch-Held restore_por s e h =
        service_reconcile-Held W restore_por (λ d. cc) s (ground arith) h
    dispatch-Held disable_charging s e h = service_disable-Held W disable_charging (λ d. cc) s h
    dispatch-Held port_change s e h = cc
    dispatch-Held prepare_charge s e h = enabling-Held prepare_charge s (λ d. cc) e h
    dispatch-Held enable_charge s e h = enabling-Held enable_charge s (λ d. cc) e h
    dispatch-Held no_operation s e h = enabling-Held no_operation s (λ d. cc) e h

    -- Whatever the bus answers, a running service raises CE only for a port change, for an enabling
    -- of the charger that is prepared and within its limits, for a preparation in its third stage with
    -- CE already expected high, or in the stage that restores the latches. In every other state, what
    -- only a frame that raises CE can end still holds afterwards.
    pub service-Safe :
        (s : System F B)
        → (is_running s.hw.result && may_raise F B s.hw.operation s.hw) ≡ false
        → W.Safe s.world
        → W.Safe (service F B s).world
    unfolding service
    service-Safe s e h =
        if_rule (λ (t : System F B). W.Safe t.world) (is_running s.hw.result)
          (λ r.
            (dispatch-Held s.hw.operation s (ground arith) (record { safe = h; same = refl })).safe)
          (λ _. h)
