-- ===== src/PowerManager/Rules.antt =====
-- Proof rules for the longer stages of a tick: what to show of a property for the stage to have it.
use tankervision_pdb.Common.{
  ℕ, Bool, true, false, not, Floats, ◌≡◌, ◌||◌, ◌&&◌, if_rule, if◌then◌else◌, leb, sub32, arith,
}
use tankervision_pdb.PowerManager.State.{
  is_phase, flag, Inputs, Manager, no_rise_ms, maximum_charge_ms, maximum_v, charge_target_v,
  significant_rise_v, charging, jetson_starting, Phase, status_unavailable, invalid_voltage,
  charge_no_rise, action_timed_out,
}
use tankervision_pdb.PowerManager.Actions.{leave_charging, finish_action, add_issue}
use tankervision_pdb.PowerManager.Tick.{
  supervise_stage, supervised, progress_stage, completion_stage, note_inputs, voltage_valid,
}

is_charging : (p : Phase) (b : Bool) → (is_phase charging p && b) ≡ true → p ≡ charging
is_charging p b h = ground arith

module _ (F : Floats) (P : Manager F → Type 0) where
  open F use {le, lt, add}

  -- The charging checks end in `leaveCharging`, in qualification, or change nothing.
  pub supervise_rule :
      (i : Inputs F) (s : Manager F)
      → P s
      → ((m : ℕ) → P (leave_charging F m s))
      → (s.phase ≡ charging → P (record s { maintenance = true; phase = jetson_starting }))
      → P (supervise_stage F i s)
  unfolding supervise_stage
  supervise_rule i s p leave qualify =
      if_rule P (supervised F s)
        (λ _.
          if_rule P (not i.status_valid) (λ _. leave _)
            λ _.
              if_rule P (not (voltage_valid F i.vcap_v)) (λ _. leave _)
                λ _.
                  if_rule P (le (maximum_v F) i.vcap_v) (λ _. leave _)
                    λ _.
                      if_rule P ((s.prepared || is_phase charging s.phase) && i.charge_fault)
                        (λ _. leave _)
                        λ _.
                          if_rule P (s.charging_enabled_expected && not i.boost_power_good)
                            (λ _. leave _)
                            λ _.
                              if_rule P
                                (is_phase charging s.phase && lt (charge_target_v F) i.vcap_v)
                                (λ e. qualify (is_charging s.phase _ e)) (λ _. p))
        (λ _. p)

  pub progress_rule :
      (now : ℕ) (i : Inputs F) (s : Manager F)
      → P s
      → (let t = record s { progress_v = i.vcap_v; progress_at = now } in
          P t × ((m : ℕ) → P (leave_charging F m t)))
      → ((m : ℕ) → P (leave_charging F m s))
      → P (progress_stage F now i s)
  unfolding progress_stage
  progress_rule now i s p r leave =
      if_rule P (is_phase charging s.phase)
        (λ _.
          if_rule P (leb maximum_charge_ms (sub32 now s.charge_at)) (λ _. leave _)
            λ _. kept (le (add s.progress_v (significant_rise_v F)) i.vcap_v))
        (λ _. p)
    where
      kept :
          (b : Bool)
          → P (
              let t = if b then record s { progress_v = i.vcap_v; progress_at = now } else s in
              if leb no_rise_ms (sub32 now t.progress_at)
              then leave_charging F (flag charge_no_rise) t
              else t)
      kept true = if_rule P (leb no_rise_ms (sub32 now now)) (λ _. r.1 _) (λ _. r.0)
      kept false = if_rule P (leb no_rise_ms (sub32 now s.progress_at)) (λ _. leave _) (λ _. p)

  pub completion_rule :
      (now : ℕ) (i : Inputs F) (s : Manager F)
      → P s
      → ((ok : Bool) → P (finish_action F ok now i s))
      → P (finish_action F false now i (add_issue F (flag action_timed_out) s))
      → P (completion_stage F now i s)
  unfolding completion_stage
  completion_rule now i s p done late =
      if_rule P s.completed (λ _. done s.completion_success) λ _. if_rule P _ (λ _. late) (λ _. p)

  pub note_rule :
      (i : Inputs F) (s : Manager F)
      → ((x : ℕ) → P (record s { issues = x }))
      → P (note_inputs F i s)
  unfolding note_inputs add_issue
  note_rule i s p = noted i.status_valid (i.status_valid && not (voltage_valid F i.vcap_v))
    where
      noted :
          (b c : Bool)
          → P (
              let t = if b then s else add_issue F (flag status_unavailable) s in
              if c then add_issue F (flag invalid_voltage) t else t)
      noted true true = p _
      noted true false = p s.issues
      noted false true = p _
      noted false false = p _
