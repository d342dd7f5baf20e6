-- ===== src/Application/Cached.antt =====
-- No step of `handle` but the last looks after the replay cache: the rest leaves it alone, and none
-- stops early.
use tankervision_pdb.Common.{Floats, ◌≡◌, refl, ◌∙◌, Option, none, some}
use tankervision_pdb.Common.Act.{Ends, Ends-pure, Ends-gets, Ends-if, Ends-bind, call, modify}
use tankervision_pdb.Application.State.{Application, Parts, Body}
use tankervision_pdb.Application.Output.{
  ask, main_from, main_present, budget_of, source_budget_valid, hand_over, report,
}
use tankervision_pdb.Application.Handle.{
  note_pong, pong_in_time, take_pong, take_shutdown, ask_reboot, note_port, port_failed,
  command_port, no_budget, with_budget, with_main, if_idle, if_running, set_port, mutate,
  unless_stopping, carry_out, decide,
}
use tankervision_pdb.BoardHardware.State.{Port}
use tankervision_pdb.Protocol.Request.{
  Request, Command, status, pong, shutdown_ack, shutdown_ready, port_set, reboot, unknown,
}
use tankervision_pdb.Protocol.ReplayCache.{ReplayCache}

module _ {F : Floats} {D : Parts F} where
  -- The replay cache is `c`.
  pub record Cached (c : ReplayCache) (s : Application F D) : Type 0 where
    pub same_cache : s.replay ≡ c

  module _ (c : ReplayCache) where
    abbrev P : Application F D → Type 0
    P = Cached c

    modify-Cached :
        (f : Application F D → Application F D)
        → ((s : Application F D) → (f s).replay ≡ s.replay)
        → Ends P (modify f)
    unfolding modify
    modify-Cached f h = record {
      ends = λ s p. record {
        value = tt;
        outcome = refl;
        kept = record { same_cache = h s ∙ p.same_cache };
      };
    }

    ask-Cached : {A : Type 0} (f : D.World → A × D.World) → Ends P (ask F D f)
    unfolding ask call
    ask-Cached f = record {
      ends = λ s p. record {
        value = (f s.world).0;
        outcome = refl;
        kept = record { same_cache = p.same_cache };
      };
    }

    main_present-Cached : Ends P (main_present F D)
    unfolding main_present main_from
    main_present-Cached =
        Ends-bind _ _ (Ends-gets _)
          λ h. Ends-if _ _ _ (Ends-bind _ _ (ask-Cached _) λ _. Ends-pure _) (Ends-pure _)

    source_budget_valid-Cached : Ends P (source_budget_valid F D)
    unfolding source_budget_valid budget_of
    source_budget_valid-Cached = Ends-bind _ _ main_present-Cached λ _.
        Ends-bind _ _ (Ends-gets _)
          λ h. Ends-if _ _ _ (Ends-if _ _ _ (ask-Cached _) (Ends-gets _)) (Ends-pure _)

    take_pong-Cached : (r : Request) → Ends P (take_pong F D r)
    unfolding take_pong pong_in_time note_pong
    take_pong-Cached r = Ends-bind _ _ (Ends-gets _) λ _. Ends-if _ _ _ (Ends-pure _) (
        Ends-bind _ _ (ask-Cached _) λ _. Ends-bind _ _ (Ends-gets _) λ _.
          Ends-if _ _ _ (Ends-pure _) (
            Ends-bind _ _ (ask-Cached _)
              λ _. Ends-bind _ _ (modify-Cached _ (λ _. refl)) λ _. Ends-pure _))

    take_shutdown-Cached :
        (note : Application F D → Application F D) (r : Request)
        → ((s : Application F D) → (note s).replay ≡ s.replay)
        → Ends P (take_shutdown F D note r)
    unfolding take_shutdown
    take_shutdown-Cached note r h =
        Ends-bind _ _ (Ends-gets _)
          λ _. Ends-if _ _ _ (Ends-bind _ _ (modify-Cached note h) λ _. Ends-pure _) (Ends-pure _)

    ask_reboot-Cached : Ends P (ask_reboot F D)
    unfolding ask_reboot
    ask_reboot-Cached = Ends-bind _ _ (ask-Cached _) λ _. Ends-bind _ _ (Ends-gets _) λ _.
        Ends-bind _ _ (modify-Cached _ (λ _. refl)) λ _. Ends-if _ _ _ (Ends-pure _) (Ends-pure _)

    command_port-Cached : (p : Port) (r : Request) → Ends P (command_port F D p r)
    unfolding command_port note_port port_failed
    command_port-Cached p r = Ends-bind _ _ (ask-Cached _) λ _.
        Ends-if _ _ _ (Ends-bind _ _ (modify-Cached _ (λ _. refl)) λ _. Ends-pure _) (
          Ends-bind _ _ (Ends-gets _)
            λ _. Ends-bind _ _ (modify-Cached _ (λ _. refl)) λ _. Ends-pure _)

    with_main-Cached : (p : Port) (r : Request) → Ends P (with_main F D p r)
    unfolding with_main with_budget no_budget
    with_main-Cached p r = Ends-bind _ _ main_present-Cached λ _. Ends-if _ _ _ (Ends-pure _) (
        Ends-if _ _ _
          (Ends-bind _ _ source_budget_valid-Cached λ _.
            Ends-if _ _ _ (command_port-Cached p r)
              (Ends-bind _ _ (modify-Cached _ (λ _. refl)) λ _. Ends-pure _))
          (command_port-Cached p r))

    set_port-Cached : (o : Option Port) (r : Request) → Ends P (set_port F D o r)
    unfolding set_port if_running if_idle
    set_port-Cached none r = Ends-pure _
    set_port-Cached (some p) r = Ends-if _ _ _ (Ends-pure _) (
        Ends-bind _ _ (Ends-gets _) λ _.
          Ends-if _ _ _
            (Ends-bind _ _ (Ends-gets _) λ _. Ends-if _ _ _ (Ends-pure _) (with_main-Cached p r))
            (Ends-pure _))

    mutate-Cached : (k : Command) (r : Request) → Ends P (mutate F D k r)
    unfolding mutate
    mutate-Cached reboot r = ask_reboot-Cached
    mutate-Cached port_set r = set_port-Cached _ r
    mutate-Cached status r = Ends-pure _
    mutate-Cached pong r = Ends-pure _
    mutate-Cached shutdown_ack r = Ends-pure _
    mutate-Cached shutdown_ready r = Ends-pure _
    mutate-Cached unknown r = Ends-pure _

    unless_stopping-Cached : (r : Request) → Ends P (unless_stopping F D r)
    unfolding unless_stopping
    unless_stopping-Cached r =
        Ends-bind _ _ (Ends-gets _) λ _. Ends-if _ _ _ (Ends-pure _) (mutate-Cached r.command r)

    carry_out-Cached : (k : Command) (r : Request) → Ends P (carry_out F D k r)
    unfolding carry_out
    carry_out-Cached pong r = take_pong-Cached r
    carry_out-Cached shutdown_ack r = take_shutdown-Cached _ r (λ _. refl)
    carry_out-Cached shutdown_ready r = take_shutdown-Cached _ r (λ _. refl)
    carry_out-Cached reboot r = unless_stopping-Cached r
    carry_out-Cached port_set r = unless_stopping-Cached r
    carry_out-Cached status r = unless_stopping-Cached r
    carry_out-Cached unknown r = unless_stopping-Cached r

    pub decide-Cached : (r : Request) → Ends P (decide F D r)
    unfolding decide
    decide-Cached r =
        Ends-bind _ _ (Ends-gets _) λ _. Ends-if _ _ _ (carry_out-Cached r.command r) (Ends-pure _)

    pub hand_over-Cached : (b : Body) → Ends P (hand_over F D b)
    unfolding hand_over
    hand_over-Cached b = Ends-bind _ _ (ask-Cached _) λ _. modify-Cached _ (λ _. refl)

    pub report-Cached : Ends P (report F D)
    unfolding report
    report-Cached = Ends-bind _ _ (ask-Cached _) λ _.
        Ends-bind _ _ (modify-Cached _ (λ _. refl)) λ _. Ends-bind _ _ (ask-Cached _) λ _.
          Ends-bind _ _ (modify-Cached _ (λ _. refl)) λ _.
            Ends-bind _ _ source_budget_valid-Cached
              λ _. Ends-bind _ _ source_budget_valid-Cached λ _. modify-Cached _ (λ _. refl)
