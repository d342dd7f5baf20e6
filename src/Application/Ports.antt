-- ===== src/Application/Ports.antt =====
-- When a request reaches the board.
use tankervision_pdb.Common.{
  Bool, true, false, not, Floats, ◌≡◌, ◌⊎◌, inl, inr, ◌==◌, ◌||◌, refl, arith, Option, none, some,
  if_rule, c_str, bytes_eq,
}
use tankervision_pdb.Common.Act.{
  Keeps, Keeps-pure, Keeps-bind, after-continue, pure, continue, after, gets, ◌>>=◌, ◌>>◌,
}
use tankervision_pdb.BoardHardware.State.{Port}
use tankervision_pdb.PowerManager.State.{is_phase, running, shutdown_wait, power_off}
use tankervision_pdb.Protocol.Request.{
  Request, Command, status, pong, shutdown_ack, shutdown_ready, port_set, reboot, unknown, ok,
}
use tankervision_pdb.Protocol.ReplayCache.{Match, Reply, new, same, conflict}
use tankervision_pdb.Application.State.{Application, Parts}
use tankervision_pdb.Application.Output.{Method, main_present, source_budget_valid, respond, report}
use tankervision_pdb.Application.Handle.{
  no_budget, with_budget, with_main, if_idle, if_running, set_port, mutate, unless_stopping,
  carry_out, decide, handle_new, known, reply_by, handle, is_status, is_reserved, port_named,
}
use tankervision_pdb.Application.Quiet.{
  Passive, At, modify-At, main_present-At, source_budget_valid-At, hand_over-At, report-At,
  take_pong-At, take_shutdown-At, ask_reboot-At, keep_reply-At,
}

module _ {F : Floats} {D : Parts F} where
  -- The conditions on which a request may start an operation on a port of the board.
  pub record Allowed (r : Request) (s : Application F D) : Type 0 where
    pub port : Port
    pub command : r.command ≡ port_set
    pub named : port_named (c_str r.port) ≡ some port
    pub unreserved : is_reserved port ≡ false
    pub this_boot : bytes_eq (c_str r.boot_id) (c_str s.boot_id) ≡ true
    pub phase : is_phase running s.manager.phase ≡ true
    pub idle : D.busy s.world ≡ false
    pub none_pending : (s.external_request == 0) ≡ true
    pub main : (main_present F D s).0 ≡ some true
    pub budget :
        (r.enabled ≡ false) ⊎ ((source_budget_valid F D (main_present F D s).1).0 ≡ some true)

  module _ {Q : D.World → Type 0} (W : Passive D Q) where
    -- The world is as before for `Q`, or the request was allowed.
    record Guarded (r : Request) (s : Application F D) (t : Application F D) : Type 0 where
      pub verdict : At W t ⊎ Allowed r s

    module _ (r : Request) (s : Application F D) (p : At W s) where
      kept_rule : {A : Type 0} (m : Method F D A) → Keeps (At W) m → Guarded r s (after m s)
      kept_rule m k = record { verdict = inl (k.holds s p) }

      bind_rule :
          {A B : Type 0} (m : Method F D A) (k : A → Method F D B)
          → Guarded r s (after m s)
          → ((a : A) → Keeps (At W) (k a))
          → Guarded r s (after (m >>= k) s)
      unfolding ◌>>=◌
      bind_rule m k g each = elim g.verdict [
        | inl h ↦ record { verdict = inl (after-continue k each (m s).0 (m s).1 h) }
        | inr h ↦ record { verdict = inr h }
      ]

      granted : (t : Application F D) → Allowed r s → Guarded r s t
      granted t a = record { verdict = inr a }

      -- A Boolean answer that the rest goes by.
      answer_rule :
          {A : Type 0} (k : Bool → Method F D A) (o : Option Bool) (t : Application F D)
          → At W t
          → Keeps (At W) (k false)
          → (o ≡ some true → Guarded r s (after (k true) t))
          → Guarded r s (after (continue k o) t)
      unfolding continue
      answer_rule k none t q no_case yes_case = record { verdict = inl q }
      answer_rule k (some false) t q no_case yes_case = record { verdict = inl (no_case.holds t q) }
      answer_rule k (some true) t q no_case yes_case = yes_case refl

      no_budget-At : Keeps (At W) (no_budget F D)
      unfolding no_budget
      no_budget-At =
          Keeps-bind _ _ (modify-At W _ (λ s p. record { world = p.world })) λ _. Keeps-pure _

      with_main-Guarded :
          (port : Port)
          → ((main_present F D s).0 ≡ some true
              → (r.enabled ≡ false)
                ⊎ ((source_budget_valid F D (main_present F D s).1).0 ≡ some true)
              → Allowed r s)
          → Guarded r s (after (with_main F D port r) s)
      unfolding with_main with_budget ◌>>=◌
      with_main-Guarded port make =
          let t = (main_present F D s).1 in
          let q = (main_present-At W).holds s p in
          answer_rule _ (main_present F D s).0 t q (Keeps-pure _) λ e.
            if_rule (λ (m : Method F D Reply). Guarded r s (after m t)) r.enabled
              (λ _.
                answer_rule _ (source_budget_valid F D t).0 (source_budget_valid F D t).1
                  ((source_budget_valid-At W).holds t q) no_budget-At
                  (λ v. granted _ (make e (inr v))))
              (λ off. granted _ (make e (inl off)))

      abbrev Verdict : Method F D Reply → Type 0
      Verdict m = Guarded r s (after m s)

      stays : Guarded r s s
      stays = record { verdict = inl p }

      set_port-Guarded :
          (o : Option Port)
          → port_named (c_str r.port) ≡ o
          → r.command ≡ port_set
          → bytes_eq (c_str r.boot_id) (c_str s.boot_id) ≡ true
          → Verdict (set_port F D o r)
      unfolding set_port if_running if_idle ◌>>=◌ gets continue pure
      set_port-Guarded none named k b = stays
      set_port-Guarded (some port) named k b =
          if_rule Verdict (is_reserved port) (λ _. stays)
            λ u.
              if_rule Verdict (is_phase running s.manager.phase)
                (λ f.
                  if_rule Verdict (D.busy s.world || not (s.external_request == 0)) (λ _. stays)
                    (λ i. with_main-Guarded port λ m v. record {
                      port = port;
                      command = k;
                      named = named;
                      unreserved = u;
                      this_boot = b;
                      phase = f;
                      idle = ground (arith, i);
                      none_pending = ground (arith, i);
                      main = m;
                      budget = v;
                    }))
                (λ _. stays)

      mutate-Guarded :
          (k : Command)
          → r.command ≡ k
          → bytes_eq (c_str r.boot_id) (c_str s.boot_id) ≡ true
          → Verdict (mutate F D k r)
      unfolding mutate pure
      mutate-Guarded reboot e b = kept_rule _ (ask_reboot-At W)
      mutate-Guarded port_set e b = set_port-Guarded _ refl e b
      mutate-Guarded status e b = stays
      mutate-Guarded pong e b = stays
      mutate-Guarded shutdown_ack e b = stays
      mutate-Guarded shutdown_ready e b = stays
      mutate-Guarded unknown e b = stays

      unless_stopping-Guarded :
          bytes_eq (c_str r.boot_id) (c_str s.boot_id) ≡ true → Verdict (unless_stopping F D r)
      unfolding unless_stopping ◌>>=◌ gets continue pure
      unless_stopping-Guarded b =
          if_rule Verdict
            (is_phase shutdown_wait s.manager.phase || is_phase power_off s.manager.phase)
            (λ _. stays) (λ _. mutate-Guarded r.command refl b)

      carry_out-Guarded :
          (k : Command)
          → bytes_eq (c_str r.boot_id) (c_str s.boot_id) ≡ true
          → Verdict (carry_out F D k r)
      unfolding carry_out
      carry_out-Guarded pong b = kept_rule _ (take_pong-At W r)
      carry_out-Guarded shutdown_ack b =
          kept_rule _ (take_shutdown-At W _ r (λ s p. record { world = p.world }))
      carry_out-Guarded shutdown_ready b =
          kept_rule _ (take_shutdown-At W _ r (λ s p. record { world = p.world }))
      carry_out-Guarded reboot b = unless_stopping-Guarded b
      carry_out-Guarded port_set b = unless_stopping-Guarded b
      carry_out-Guarded status b = unless_stopping-Guarded b
      carry_out-Guarded unknown b = unless_stopping-Guarded b

      decide-Guarded : Verdict (decide F D r)
      unfolding decide ◌>>=◌ gets continue pure
      decide-Guarded =
          if_rule Verdict (bytes_eq (c_str r.boot_id) (c_str s.boot_id))
            (λ b. carry_out-Guarded r.command b) (λ _. stays)

      reply_by-Guarded : (m : Match × Reply) → Guarded r s (after (reply_by F D r m) s)
      unfolding reply_by handle_new
      reply_by-Guarded (new, y) =
          bind_rule _ _ decide-Guarded
            λ z. Keeps-bind _ _ (keep_reply-At W r z) λ _. hand_over-At W _
      reply_by-Guarded (same, y) = kept_rule _ (hand_over-At W _)
      reply_by-Guarded (conflict, y) = kept_rule _ (hand_over-At W _)

      handle-Guarded : Guarded r s (after (handle F D r) s)
      unfolding handle ◌>>=◌ gets continue
      handle-Guarded =
          if_rule (λ (m : Method F D (Unit {0})). Guarded r s (after m s)) (is_status r.command)
            (λ _.
              kept_rule (respond F D r.id true ok >> report F D)
                (Keeps-bind _ _ (hand_over-At W _) λ _. report-At W))
            (λ _. reply_by-Guarded (known F D r s))

  -- A request that is handled leaves alone whatever reading the clock and the PD budget leave alone,
  -- unless it names a port other than the Jetson's in this boot, while the system runs, the board is
  -- idle, no earlier request waits for its port, and the main source is there, and, to enable the
  -- port, the source's budget is valid.
  pub handle-untouched :
      (Q : D.World → Type 0) (r : Request) (s : Application F D)
      → Passive D Q
      → Q s.world
      → Q (after (handle F D r) s).world ⊎ Allowed r s
  handle-untouched Q r s W q = elim (handle-Guarded W r s (record { world = q })).verdict [
    | inl h ↦ inl h.world
    | inr a ↦ inr a
  ]
