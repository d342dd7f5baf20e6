-- ===== src/Application/Supervised.antt =====
-- What the application has read when the manager still expects the charger on.
use tankervision_pdb.Common.{
  Bool, true, false, not, Floats, ◌≡◌, ◌≤◌, ◌||◌, refl, arith, sym, subst, some, none, Option, ◌∙◌,
}
use tankervision_pdb.Common.Act.{
  Keeps, Keeps-pure, Keeps-gets, Keeps-if, Keeps-bind, Ends, Ends-pure, Ends-gets, Ends-if,
  Ends-bind, Ended, after-continue, call, continue, after, modify, ◌>>=◌, gets_rule,
}
use tankervision_pdb.BoardHardware.State.{HardwareSnapshot}
use tankervision_pdb.PowerManager.State.{Manager, Inputs}
use tankervision_pdb.PowerManager.Tick.{tick}
use tankervision_pdb.PowerManager.Invariant.{Inv}
use tankervision_pdb.PowerManager.ChargeSafety.{tick-Healthy}
use tankervision_pdb.Application.State.{
  Application, Parts, ErrorText, Body, charger_budget_unverified, charger_temperature_invalid,
  charger_power_good_lost, charger_control_invalid, charger_status_unavailable,
}
use tankervision_pdb.Application.Output.{
  Method, ask, now, main_from, main_present, budget_of, source_budget_valid, remember_error,
  hand_over,
}
use tankervision_pdb.Application.Loop.{
  ts_invalid, readings_fault, status_in_time, status_valid, budget_wrong, budget_lost, observation,
  fault_text, name_fault, fault_seen, note_fault, forget_received, note_phase, report_phase,
  run_manager, carry_on, supervise,
}

module _ {F : Floats} {D : Parts F} where
  value_rule :
      {A B : Type 0} {P : Application F D → Type 0} (Q : Application F D → Type 0)
      (k : A → Method F D B) (o : Option A) (u : Application F D)
      → Ended P (o, u)
      → ((a : A) (t : Application F D) → P t → Q (after (k a) t))
      → Q (after (continue k o) u)
  unfolding continue
  value_rule Q k none u e rest = cc
  value_rule Q k (some a) u e rest = rest a u e.kept

  -- One step that returns, and what the rest makes of the state that it ends in.
  ends_rule :
      {A B : Type 0} {P : Application F D → Type 0} (Q : Application F D → Type 0)
      (m : Method F D A) (k : A → Method F D B) (s : Application F D)
      → Ends P m
      → P s
      → ((a : A) (t : Application F D) → P t → Q (after (k a) t))
      → Q (after (m >>= k) s)
  unfolding ◌>>=◌
  ends_rule Q m k s e p rest = value_rule Q k (m s).0 (m s).1 (e.ends s p) rest

  kept_on :
      {A B : Type 0} {P : Application F D → Type 0} (m : Method F D A) (k : A → Method F D B)
      (s : Application F D)
      → P (after m s)
      → ((a : A) → Keeps P (k a))
      → P (after (m >>= k) s)
  unfolding ◌>>=◌
  kept_on m k s p each = after-continue k each (m s).0 (m s).1 p

  module _ (g : Manager F) where
    record Managed (s : Application F D) : Type 0 where
      pub same : s.manager ≡ g

    ask-Managed : {A : Type 0} (f : D.World → A × D.World) → Ends Managed (ask F D f)
    unfolding ask call
    ask-Managed f = record {
      ends =
          λ s p. record { value = (f s.world).0; outcome = refl; kept = record { same = p.same } };
    }

    modify-Managed :
        (f : Application F D → Application F D)
        → ((s : Application F D) → (f s).manager ≡ s.manager)
        → Ends Managed (modify f)
    unfolding modify
    modify-Managed f h = record {
      ends = λ s p. record { value = tt; outcome = refl; kept = record { same = h s ∙ p.same } };
    }

    main_present-Managed : Ends Managed (main_present F D)
    unfolding main_present main_from
    main_present-Managed =
        Ends-bind _ _ (Ends-gets _)
          λ _. Ends-if _ _ _ (Ends-bind _ _ (ask-Managed _) λ _. Ends-pure _) (Ends-pure _)

    source_budget_valid-Managed : Ends Managed (source_budget_valid F D)
    unfolding source_budget_valid budget_of
    source_budget_valid-Managed = Ends-bind _ _ main_present-Managed λ _.
        Ends-bind _ _ (Ends-gets _)
          λ _. Ends-if _ _ _ (Ends-if _ _ _ (ask-Managed _) (Ends-gets _)) (Ends-pure _)

    status_valid-Managed : (h : HardwareSnapshot F) → Ends Managed (status_valid F D h)
    unfolding status_valid status_in_time
    status_valid-Managed h =
        Ends-if _ _ _ (Ends-bind _ _ (ask-Managed _) λ _. Ends-pure _) (Ends-pure _)

    budget_lost-Managed : Ends Managed (budget_lost F D)
    unfolding budget_lost budget_wrong
    budget_lost-Managed = Ends-bind _ _ (Ends-gets _) λ _.
        Ends-if _ _ _ (Ends-bind _ _ source_budget_valid-Managed λ _. Ends-pure _) (Ends-pure _)

    error-Managed : (e : ErrorText) → Ends Managed (remember_error F D e)
    error-Managed e = modify-Managed _ (λ _. refl)

    fault_text-Managed : (h : HardwareSnapshot F) (b : Bool) → Ends Managed (fault_text F D h b)
    unfolding fault_text
    fault_text-Managed h b = Ends-if (not b) _ _ (error-Managed charger_budget_unverified) (
        Ends-if (ts_invalid F D h) _ _ (error-Managed charger_temperature_invalid) (
          Ends-if (not h.boost_pg || not h.charger_pg) _ _ (error-Managed charger_power_good_lost)
            (error-Managed charger_control_invalid)))

    name_fault-Managed : (h : HardwareSnapshot F) → Ends Managed (name_fault F D h)
    unfolding name_fault
    name_fault-Managed h = Ends-bind _ _ source_budget_valid-Managed λ b. fault_text-Managed h b

    fault_seen-Managed : (h : HardwareSnapshot F) (b : Bool) → Ends Managed (fault_seen F D h b)
    unfolding fault_seen
    fault_seen-Managed h b = Ends-if (not b) _ _ (Ends-pure tt) (
        Ends-if (not h.internal.valid) _ _ (error-Managed charger_status_unavailable)
          (name_fault-Managed h))

    note_fault-Managed : (h : HardwareSnapshot F) (i : Inputs F) → Ends Managed (note_fault F D h i)
    unfolding note_fault
    note_fault-Managed h i = Ends-bind _ _ (Ends-gets _) λ _.
        Ends-bind _ _ (Ends-if _ _ _ main_present-Managed (Ends-pure _)) λ _. fault_seen-Managed h _

  -- Where the charger is expected on, the readings show no fault.
  record Watched (h : HardwareSnapshot F) (s : Application F D) : Type 0 where
    pub sound : s.manager.charging_enabled_expected ≡ true → readings_fault F D h ≡ false

  now-Watched : (h : HardwareSnapshot F) → Keeps (Watched h) (now F D)
  unfolding ask call
  now-Watched h = record { holds = λ s w. record { sound = w.sound } }

  modify-Watched :
      (h : HardwareSnapshot F) (f : Application F D → Application F D)
      → ((s : Application F D) → (f s).manager ≡ s.manager)
      → Keeps (Watched h) (modify f)
  unfolding modify
  modify-Watched h f e = record {
    holds = λ s w. record {
      sound =
          subst (λ g. g.charging_enabled_expected ≡ true → readings_fault F D h ≡ false) (sym (e s))
            w.sound;
    };
  }

  hand_over-Watched : (h : HardwareSnapshot F) (b : Body) → Keeps (Watched h) (hand_over F D b)
  unfolding hand_over
  hand_over-Watched h b = Keeps-bind _ _ (now-Watched h) λ _. modify-Watched h _ (λ _. refl)

  note_phase-Watched :
      (h : HardwareSnapshot F) (s : Application F D) → Keeps (Watched h) (note_phase F D s)
  unfolding note_phase
  note_phase-Watched h s =
      Keeps-bind _ _ (modify-Watched h _ (λ _. refl)) λ _. hand_over-Watched h _

  report_phase-Watched : (h : HardwareSnapshot F) → Keeps (Watched h) (report_phase F D)
  unfolding report_phase
  report_phase-Watched h =
      Keeps-bind _ _ (Keeps-gets _) λ s. Keeps-if _ _ _ (Keeps-pure tt) (note_phase-Watched h s)

  module _ (g : Manager F) (b : g.begun ≡ true) (v : Inv F g) where
    run_manager-Watched :
        (h : HardwareSnapshot F) (i : Inputs F) (t : Application F D)
        → (i.charge_fault ≡ false → readings_fault F D h ≡ false)
        → Managed g t
        → Watched h (after (run_manager F D i) t)
    unfolding run_manager ask call modify ◌>>=◌ continue
    run_manager-Watched h i t sees m = record {
      sound = λ on.
          sees
            (tick-Healthy F (D.millis t.world).0 i g b v (
              subst (λ q. (tick F (D.millis t.world).0 i q).charging_enabled_expected ≡ true) m.same
                on)).no_fault;
    }

    carry_on-Watched :
        (h : HardwareSnapshot F) (i : Inputs F) (t : Application F D)
        → (i.charge_fault ≡ false → readings_fault F D h ≡ false)
        → Managed g t
        → Watched h (after (carry_on F D h i) t)
    unfolding carry_on forget_received
    carry_on-Watched h i t sees m =
        ends_rule (Watched h) _ _ t (note_fault-Managed g h i) m λ _ u mu.
          ends_rule (Watched h) _ _ u (modify-Managed g (forget_received F D) (λ _. refl)) mu
            λ _ x mx.
              kept_on {P = Watched h} (run_manager F D i) _ x (run_manager-Watched h i x sees mx)
                λ _. report_phase-Watched h

    observation-sees :
        (h : HardwareSnapshot F) (status main lost : Bool) (s : Application F D)
        → (observation F D h status main lost s).charge_fault ≡ false
        → readings_fault F D h ≡ false
    unfolding observation
    observation-sees h status main lost s e = ground arith

    supervise-Watched :
        (s : Application F D)
        → s.manager ≡ g
        → Watched (D.snapshot s.world) (after (supervise F D) s)
    unfolding supervise
    supervise-Watched s m =
        let h = D.snapshot s.world in
        gets_rule (Watched h) (λ s. D.snapshot s.world) _ s
          (ends_rule (Watched h) _ _ s (status_valid-Managed g h) (record { same = m })
            λ status t mt. ends_rule (Watched h) _ _ t (main_present-Managed g) mt λ main u mu.
              ends_rule (Watched h) _ _ u (budget_lost-Managed g) mu λ lost x mx.
                gets_rule (Watched h) (λ s. s) _ x
                  (carry_on-Watched h _ x (observation-sees h status main lost x) mx))

  -- The manager still expects the charger on after a round only if, in the snapshot that the round began
  -- with, the internal expander was valid and had the power good of the boost and of the charger, with the thermistor
  -- between 1300 mV and 2350 mV.
  pub supervise_sound :
      (s : Application F D)
      → s.manager.begun ≡ true
      → Inv F s.manager
      → (after (supervise F D) s).manager.charging_enabled_expected ≡ true
      → let h = D.snapshot s.world in
        (h.internal.valid ≡ true)
        × (h.boost_pg ≡ true)
        × (h.charger_pg ≡ true)
        × (1300 ≤ h.ts_mv)
        × (h.ts_mv ≤ 2350)
  unfolding readings_fault ts_invalid
  supervise_sound s b v on =
      let e = (supervise-Watched s.manager b v s refl).sound on in ground (arith, e)
