-- ===== src/Application/Quiet.antt =====
-- The parts of `handle` that only read the clock and the budget.
use tankervision_pdb.Common.{Floats}
use tankervision_pdb.Common.Act.{Keeps, Keeps-pure, Keeps-gets, Keeps-if, Keeps-bind, call, modify}
use tankervision_pdb.Protocol.Request.{Request}
use tankervision_pdb.Protocol.ReplayCache.{Reply}
use tankervision_pdb.Application.State.{Application, Parts, Body}
use tankervision_pdb.Application.Output.{
  ask, main_from, main_present, budget_of, source_budget_valid, hand_over, report,
}
use tankervision_pdb.Application.Handle.{
  note_pong, pong_in_time, take_pong, take_shutdown, ask_reboot, keep_reply,
}

-- What reading the clock and the budget do not change.
pub record Passive {F : Floats} (D : Parts F) (Q : D.World → Type 0) : Type 0 where
  pub at_millis : (w : D.World) → Q w → Q (D.millis w).1
  pub at_budget : (w : D.World) → Q w → Q (D.pd_budget_valid w).1

module _ {F : Floats} {D : Parts F} where
  module _ {Q : D.World → Type 0} (W : Passive D Q) where
    pub record At (s : Application F D) : Type 0 where
      pub world : Q s.world

    pub ask-At :
        {A : Type 0} (f : D.World → A × D.World)
        → ((w : D.World) → Q w → Q (f w).1)
        → Keeps At (ask F D f)
    unfolding ask call
    ask-At f h = record { holds = λ s p. record { world = h s.world p.world } }

    pub modify-At :
        (f : Application F D → Application F D)
        → ((s : Application F D) → At s → At (f s))
        → Keeps At (modify f)
    unfolding modify
    modify-At f h = record { holds = h }

    now-At : Keeps At (ask F D D.millis)
    now-At = ask-At D.millis W.at_millis

    pub main_present-At : Keeps At (main_present F D)
    unfolding main_present main_from
    main_present-At =
        Keeps-bind _ _ (Keeps-gets _)
          λ h. Keeps-if _ _ _ (Keeps-bind _ _ now-At λ _. Keeps-pure _) (Keeps-pure _)

    pub source_budget_valid-At : Keeps At (source_budget_valid F D)
    unfolding source_budget_valid budget_of
    source_budget_valid-At = Keeps-bind _ _ main_present-At λ _.
        Keeps-bind _ _ (Keeps-gets _)
          λ h. Keeps-if _ _ _ (Keeps-if _ _ _ (ask-At _ W.at_budget) (Keeps-gets _)) (Keeps-pure _)

    pub hand_over-At : (b : Body) → Keeps At (hand_over F D b)
    unfolding hand_over
    hand_over-At b = Keeps-bind _ _ now-At λ _. modify-At _ (λ s p. record { world = p.world })

    pub report-At : Keeps At (report F D)
    unfolding report
    report-At = Keeps-bind _ _ now-At λ _.
        Keeps-bind _ _ (modify-At _ (λ s p. record { world = p.world })) λ _.
          Keeps-bind _ _ now-At λ _.
            Keeps-bind _ _ (modify-At _ (λ s p. record { world = p.world })) λ _.
              Keeps-bind _ _ source_budget_valid-At λ _.
                Keeps-bind _ _ source_budget_valid-At
                  λ _. modify-At _ (λ s p. record { world = p.world })

    pub take_pong-At : (r : Request) → Keeps At (take_pong F D r)
    unfolding take_pong pong_in_time note_pong
    take_pong-At r = Keeps-bind _ _ (Keeps-gets _) λ _. Keeps-if _ _ _ (Keeps-pure _) (
        Keeps-bind _ _ now-At λ _. Keeps-bind _ _ (Keeps-gets _) λ _.
          Keeps-if _ _ _ (Keeps-pure _) (
            Keeps-bind _ _ now-At λ _.
              Keeps-bind _ _ (modify-At _ (λ s p. record { world = p.world })) λ _. Keeps-pure _))

    pub take_shutdown-At :
        (note : Application F D → Application F D) (r : Request)
        → ((s : Application F D) → At s → At (note s))
        → Keeps At (take_shutdown F D note r)
    unfolding take_shutdown
    take_shutdown-At note r h =
        Keeps-bind _ _ (Keeps-gets _)
          λ _. Keeps-if _ _ _ (Keeps-bind _ _ (modify-At note h) λ _. Keeps-pure _) (Keeps-pure _)

    pub ask_reboot-At : Keeps At (ask_reboot F D)
    unfolding ask_reboot
    ask_reboot-At = Keeps-bind _ _ now-At λ _. Keeps-bind _ _ (Keeps-gets _) λ _.
        Keeps-bind _ _ (modify-At _ (λ s p. record { world = p.world }))
          λ _. Keeps-if _ _ _ (Keeps-pure _) (Keeps-pure _)

    pub keep_reply-At : (r : Request) (y : Reply) → Keeps At (keep_reply F D r y)
    unfolding keep_reply
    keep_reply-At r y =
        Keeps-if _ _ _ (modify-At _ (λ s p. record { world = p.world })) (Keeps-pure _)
