-- ===== src/PowerManager/ChargeSafety.antt =====
-- What the inputs are when a tick lets charging begin or go on.
use tankervision_pdb.Common.{ℕ, true, false, Floats, ◌≡◌, ◌⊎◌, arith, inl, inr}
use tankervision_pdb.PowerManager.State.{Inputs, Manager, maximum_v}
use tankervision_pdb.PowerManager.Tick.{
  return_now, go_on, final, supervise_stage, progress_stage, request_stage, phase_step, tick,
  voltage_valid,
}
use tankervision_pdb.PowerManager.TickInvariant.{late_rule}
use tankervision_pdb.PowerManager.Stages.{final_of}
use tankervision_pdb.PowerManager.Invariant.{Inv}

module _ (F : Floats) where
  open F use {Float, le}

  -- The inputs under which the charger may be expected on.
  pub record Healthy (i : Inputs F) : Type 0 where
    pub status : i.status_valid ≡ true
    pub voltage : voltage_valid F i.vcap_v ≡ true
    pub below_maximum : le (maximum_v F) i.vcap_v ≡ false
    pub no_fault : i.charge_fault ≡ false
    pub boost_good : i.boost_power_good ≡ true

  pub supervise_stage-Healthy :
      (i : Inputs F) (s : Manager F)
      → Inv F s
      → (supervise_stage F i s).charging_enabled_expected ≡ true
      → Healthy i
  unfolding supervise_stage
  supervise_stage-Healthy i s v h = ground arith

  progress_stage-expected :
      (now : ℕ) (i : Inputs F) (s : Manager F)
      → (progress_stage F now i s).charging_enabled_expected ≡ true
      → s.charging_enabled_expected ≡ true
  unfolding progress_stage
  progress_stage-expected now i s h = ground arith

  request_stage-expected :
      (now : ℕ) (i : Inputs F) (s : Manager F)
      → (final (request_stage F now i s)).charging_enabled_expected ≡ true
      → s.charging_enabled_expected ≡ true
  unfolding request_stage
  request_stage-expected now i s h = ground arith

  phase_step-expected :
      (now : ℕ) (i : Inputs F) (s : Manager F)
      → (phase_step F s.phase now i s).charging_enabled_expected ≡ true
      → s.charging_enabled_expected ≡ true
  unfolding phase_step
  phase_step-expected now i s h = ground arith

  -- After any tick, the charger is expected on only if this tick's inputs are healthy.
  pub tick-Healthy :
      (now : ℕ) (i : Inputs F) (s : Manager F)
      → s.begun ≡ true
      → Inv F s
      → (tick F now i s).charging_enabled_expected ≡ true
      → Healthy i
  tick-Healthy now i s =
      late_rule F now i {R = Watched} {Q = Watched} (λ t v quiet on. cc (v.expected_phase on))
        (supervise_stage-Healthy i) (λ s r on. r (progress_stage-expected now i s on))
        (λ s t r e on. r (passed s t (inl e) on))
        (λ s t r e on. r (passed s t (inr e) (phase_step-expected now i t on))) s
    where
      Watched : Manager F → Type 0
      Watched t = t.charging_enabled_expected ≡ true → Healthy i

      passed :
          (s t : Manager F)
          → (request_stage F now i s ≡ return_now t) ⊎ (request_stage F now i s ≡ go_on t)
          → t.charging_enabled_expected ≡ true
          → s.charging_enabled_expected ≡ true
      passed s t e =
          final_of (λ u. u.charging_enabled_expected ≡ true → s.charging_enabled_expected ≡ true) _
            (request_stage-expected now i s) t e
