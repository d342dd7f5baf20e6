-- ===== src/PowerManager/ChargeOnce.antt =====
-- The charger is asked for once.
use tankervision_pdb.Common.{ℕ, true, Floats, ◌≡◌, ◌≢◌, ◌⊎◌, inl, inr, refl, arith, List, [], ◌∷◌}
use tankervision_pdb.PowerManager.State.{
  Action, Manager, no_action, prepare_charging, enable_charging, stop_charging, arm_backup,
  enable_jetson, ping_jetson, request_jetson_shutdown, cut_power,
}
use tankervision_pdb.PowerManager.Actions.{complete_action, request_full_reboot}
use tankervision_pdb.PowerManager.Runs.{Call, ticked, completed, reboot, step, run, step-begun}
use tankervision_pdb.PowerManager.Once.{tick-charge_once, Attempted}

asked_or_not : (k : Action) → (k ≢ enable_charging) ⊎ (k ≡ enable_charging)
asked_or_not no_action = inl (λ e. cc)
asked_or_not prepare_charging = inl (λ e. cc)
asked_or_not enable_charging = inr refl
asked_or_not stop_charging = inl (λ e. cc)
asked_or_not arm_backup = inl (λ e. cc)
asked_or_not enable_jetson = inl (λ e. cc)
asked_or_not ping_jetson = inl (λ e. cc)
asked_or_not request_jetson_shutdown = inl (λ e. cc)
asked_or_not cut_power = inl (λ e. cc)

module _ (F : Floats) (k : Action) (n : ℕ) where
  step-Attempted :
      (c : Call F) (s : Manager F)
      → s.begun ≡ true
      → Attempted F k n s
      → Attempted F k n (step F c s)
  unfolding step complete_action request_full_reboot
  step-Attempted (ticked now i) s b a = tick-charge_once F now i k n s b a
  step-Attempted (completed id ok) s b a = ground arith
  step-Attempted (reboot now) s b a = ground arith

  run-Attempted :
      (cs : List (Call F)) (s : Manager F)
      → s.begun ≡ true
      → Attempted F k n s
      → Attempted F k n (run F cs s)
  unfolding run
  run-Attempted [] s b a = a
  run-Attempted (c ∷ cs) s b a =
      run-Attempted cs (step F c s) (step-begun F c s b) (step-Attempted c s b a)

-- Once the charger has been asked for, the only request to enable it that any further calls can leave
-- pending is the one that was pending then, under the same id: another one is never made, whether
-- the first succeeds, fails, is replaced or runs out.
pub run-charge_once :
    (F : Floats) (cs : List (Call F)) (s : Manager F)
    → s.begun ≡ true
    → s.enable_charge_attempted ≡ true
    → (run F cs s).pending.kind ≡ enable_charging
    → (s.pending.kind ≡ enable_charging) × ((run F cs s).pending.id ≡ s.pending.id)
run-charge_once F cs s b a pending =
    let start : (s.pending.kind ≢ enable_charging)
        ⊎ ((s.pending.kind ≡ enable_charging) × (s.pending.id ≡ s.pending.id)) =
      elim (asked_or_not s.pending.kind) [ inl other ↦ inl other | inr same ↦ inr (same, refl) ] in
    elim (run-Attempted F s.pending.kind s.pending.id cs s b (a, start)).1 [
      | inl other ↦ absurd (other pending)
      | inr same ↦ same
    ]
