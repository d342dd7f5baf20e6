-- ===== src/PowerManager/Stages.antt =====
-- The rule that carries a property through the stages of `tick`, early returns included.
use tankervision_pdb.Common.{ℕ, true, Floats, ◌≡◌, ◌⊎◌, arith, inl, inr, refl, sym, ap, subst}
use tankervision_pdb.PowerManager.State.{Inputs, Manager}
use tankervision_pdb.PowerManager.Tick.{
  Flow, return_now, go_on, final, ◌>>=◌, power_off_stage, settling_stage, main_loss_stage,
  deadline_stage, completion_stage, waiting_stage, supervise_stage, progress_stage, request_stage,
  phase_step, act_stage, tick, run_stages, note_pong,
}

-- The rule for a stage: what it returns early has the property, and so has what the rest makes of
-- the state that it passes on.
pub final_bind {ℓ κ} :
    {A : Type ℓ} (Q : A → Type κ) (m : Flow A) (k : A → Flow A)
    → ((s : A) → m ≡ return_now s → Q s)
    → ((s : A) → m ≡ go_on s → Q (final (k s)))
    → Q (final (m >>= k))
final_bind Q (return_now s) k stop next = stop s refl
final_bind Q (go_on s) k stop next = next s refl

-- What holds of where a stage ends holds of what it returns or passes on.
pub final_of {ℓ κ} :
    {A : Type ℓ} (Q : A → Type κ) (m : Flow A)
    → Q (final m)
    → (t : A) → (m ≡ return_now t) ⊎ (m ≡ go_on t)
    → Q t
final_of Q (return_now s) q t (inl e) = subst Q (ap final e) q
final_of Q (return_now s) q t (inr e) = cc
final_of Q (go_on s) q t (inl e) = cc
final_of Q (go_on s) q t (inr e) = subst Q (ap final e) q

module _ (F : Floats) (now : ℕ) (i : Inputs F) where
  -- A property of ticks by stages: `P` up to the charging checks, `R` from there to the last stage,
  -- and `Q` of every state in which the tick ends.
  pub record TickRule {ℓ} (P R Q : Manager F → Type ℓ) : Type ℓ where
    pub at_pong : (s : Manager F) → P s → P (note_pong F i s)
    pub at_power_off : (s t : Manager F) → P s → power_off_stage F now i s ≡ return_now t → Q t
    pub past_power_off : (s t : Manager F) → P s → power_off_stage F now i s ≡ go_on t → P t
    pub at_settling : (s t : Manager F) → P s → settling_stage F now i s ≡ return_now t → Q t
    pub past_settling : (s t : Manager F) → P s → settling_stage F now i s ≡ go_on t → P t
    pub past_main_loss : (s : Manager F) → P s → P (main_loss_stage F now i s)
    pub at_deadline : (s t : Manager F) → P s → deadline_stage F now i s ≡ return_now t → Q t
    pub past_deadline : (s t : Manager F) → P s → deadline_stage F now i s ≡ go_on t → P t
    pub past_completion : (s : Manager F) → P s → P (completion_stage F now i s)
    pub at_waiting : (s t : Manager F) → P s → waiting_stage F s ≡ return_now t → Q t
    pub past_waiting : (s t : Manager F) → P s → waiting_stage F s ≡ go_on t → P t
    pub past_supervise : (s : Manager F) → P s → R (supervise_stage F i s)
    pub past_progress : (s : Manager F) → R s → R (progress_stage F now i s)
    pub at_request : (s t : Manager F) → R s → request_stage F now i s ≡ return_now t → Q t
    pub at_step :
        (s t : Manager F)
        → R s
        → request_stage F now i s ≡ go_on t
        → Q (phase_step F t.phase now i t)

  pub tick-begun : (s : Manager F) → s.begun ≡ true → tick F now i s ≡ run_stages F now i s
  unfolding tick
  tick-begun s b = ground arith

  pub tick_rule {ℓ} :
      {P R Q : Manager F → Type ℓ}
      → TickRule P R Q
      → (s : Manager F) → s.begun ≡ true
      → P s
      → Q (tick F now i s)
  unfolding run_stages act_stage
  tick_rule {Q = Q} r s b p = rw (tick-begun s b) (
      final_bind Q _ _ (λ t e. r.at_power_off _ t (r.at_pong s p) e)
        λ a ea.
          let pa = r.past_power_off _ a (r.at_pong s p) ea in
          final_bind Q _ _ (λ t e. r.at_settling a t pa e)
            λ b eb.
              let pb = r.past_main_loss b (r.past_settling a b pa eb) in
              final_bind Q _ _ (λ t e. r.at_deadline _ t pb e)
                λ d ed.
                  let pd = r.past_completion d (r.past_deadline _ d pb ed) in
                  final_bind Q _ _ (λ t e. r.at_waiting _ t pd e)
                    λ w ew.
                      let pw = r.past_progress _ (r.past_supervise w (r.past_waiting _ w pd ew)) in
                      final_bind Q _ _ (λ t e. r.at_request _ t pw e) λ u eu. r.at_step _ u pw eu)

  -- A property that every stage keeps.
  pub record Kept {ℓ} (P : Manager F → Type ℓ) : Type ℓ where
    pub pong : (s : Manager F) → P s → P (note_pong F i s)
    pub power_off_stage : (s : Manager F) → P s → P (final (power_off_stage F now i s))
    pub settling_stage : (s : Manager F) → P s → P (final (settling_stage F now i s))
    pub main_loss_stage : (s : Manager F) → P s → P (main_loss_stage F now i s)
    pub deadline_stage : (s : Manager F) → P s → P (final (deadline_stage F now i s))
    pub completion_stage : (s : Manager F) → P s → P (completion_stage F now i s)
    pub supervise_stage : (s : Manager F) → P s → P (supervise_stage F i s)
    pub progress_stage : (s : Manager F) → P s → P (progress_stage F now i s)
    pub request_stage : (s : Manager F) → P s → P (final (request_stage F now i s))
    pub phase_step : (s : Manager F) → P s → P (phase_step F s.phase now i s)

  waiting_stage-same :
      (s t : Manager F) → (waiting_stage F s ≡ return_now t) ⊎ (waiting_stage F s ≡ go_on t) → t ≡ s
  unfolding waiting_stage
  waiting_stage-same s t e = ground arith

  pub tick-keeps :
      {P : Manager F → Type 0}
      → Kept P
      → (s : Manager F) → s.begun ≡ true
      → P s
      → P (tick F now i s)
  tick-keeps {P = P} k = tick_rule {P = P} {R = P} {Q = P} (record {
    at_pong = k.pong;
    at_power_off = λ s t p e. final_of P _ (k.power_off_stage s p) t (inl e);
    past_power_off = λ s t p e. final_of P _ (k.power_off_stage s p) t (inr e);
    at_settling = λ s t p e. final_of P _ (k.settling_stage s p) t (inl e);
    past_settling = λ s t p e. final_of P _ (k.settling_stage s p) t (inr e);
    past_main_loss = k.main_loss_stage;
    at_deadline = λ s t p e. final_of P _ (k.deadline_stage s p) t (inl e);
    past_deadline = λ s t p e. final_of P _ (k.deadline_stage s p) t (inr e);
    past_completion = k.completion_stage;
    at_waiting = λ s t p e. subst P (sym (waiting_stage-same s t (inl e))) p;
    past_waiting = λ s t p e. subst P (sym (waiting_stage-same s t (inr e))) p;
    past_supervise = k.supervise_stage;
    past_progress = k.progress_stage;
    at_request = λ s t p e. final_of P _ (k.request_stage s p) t (inl e);
    at_step = λ s t p e. k.phase_step t (final_of P _ (k.request_stage s p) t (inr e));
  })
