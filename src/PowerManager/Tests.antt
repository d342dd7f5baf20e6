-- ===== src/PowerManager/Tests.antt =====
-- The policy on concrete inputs. Voltages are numbers of tenths of a millivolt, so that every
-- literal of the policy is exact.
use tankervision_pdb.Common.{
  if◌then◌else◌, ◌-◌, ℕ, true, false, Floats, ◌+◌, ◌-◌, ◌*◌, ◌/◌, ◌^◌, ◌≡◌, leb, ltb, List, [], ◌∷◌,
  arith, refl,
}
use tankervision_pdb.PowerManager.State.{
  Inputs, Manager, fresh, charging, power_off, enable_charging, full_reboot,
}
use tankervision_pdb.PowerManager.Actions.{start, complete_action, request_full_reboot}
use tankervision_pdb.PowerManager.Tick.{
  note_pong, power_off_stage, settling_stage, main_loss_stage, deadline_stage, completion_stage,
  waiting_stage, supervise_stage, progress_stage, request_stage, act_stage, tick, run_stages,
}
use tankervision_pdb.PowerManager.Invariant.{Inv}
use tankervision_pdb.PowerManager.Runs.{
  Call, ticked, completed, reboot, step, run, Good, run-Good, start-Good, run-Inv,
}
use tankervision_pdb.PowerManager.ChargeSafety.{Healthy, tick-Healthy}
use tankervision_pdb.PowerManager.Requests.{Armable, tick-enable_charging, tick-arm_backup}
use tankervision_pdb.PowerManager.ChargeOnce.{run-charge_once}
use tankervision_pdb.PowerManager.Stale.{complete_action-once, tick-stale}
use tankervision_pdb.PowerManager.Deadline.{run-deadline, any_past, past_deadline}

abbrev scaled : Floats
scaled = record {
  Float = ℕ;
  is_finite = λ v. true;
  le = leb;
  lt = ltb;
  add = ◌+◌;
  sub = λ x y. x - y;
  fmin = λ x y. if leb x y then x else y;
  fmax = λ x y. if leb x y then y else x;
  mul = λ a b. a * b / 10000;
  div = λ a b. a * 10000 / b;
  lit = λ n k. n * 10 ^ (4 - k);
  of_uint = λ n. n * 10000;
  not_a_number = 0;
}

-- Main supply good, the bank at `v`.
abbrev good : ℕ → Inputs scaled
good v = record {
  status_valid = true;
  main_present = true;
  vcap_v = v;
  boost_power_good = true;
  charge_fault = false;
  shutdown_ack = false;
  final_ready = false;
  jetson_pong = false;
}

abbrev begun_state : Manager scaled
begun_state = start scaled 0 (fresh scaled)

begun_state-Good : Good scaled begun_state
begun_state-Good = start-Good scaled 0 (fresh scaled) (omega arith)

-- Settled, prepared, and the charger asked for.
abbrev preparing : List (Call scaled)
preparing = ticked 10000 (good 120000) ∷ completed 1 true ∷ []

abbrev enabling : List (Call scaled)
enabling = ticked 10000 (good 120000) ∷ completed 1 true ∷ ticked 10100 (good 120000) ∷ []

abbrev charging_calls : List (Call scaled)
charging_calls =
    ticked 10000 (good 120000)
    ∷ completed 1 true
    ∷ ticked 10100 (good 120000)
    ∷ completed 2 true
    ∷ []

abbrev shutting : List (Call scaled)
shutting = reboot 100 ∷ []

charging_phase :
    (run scaled
      (ticked 10000 (good 120000)
        ∷ completed 1 true
        ∷ ticked 10100 (good 120000)
        ∷ completed 2 true
        ∷ ticked 10200 (good 120000)
        ∷ [])
      begun_state).phase
    ≡ charging
unfolding run step start complete_action request_full_reboot tick run_stages note_pong
    power_off_stage settling_stage main_loss_stage deadline_stage completion_stage waiting_stage
    supervise_stage progress_stage request_stage act_stage
charging_phase = refl

run-Inv_example : Inv scaled (run scaled charging_calls begun_state)
run-Inv_example = run-Inv scaled charging_calls 0 (fresh scaled) (omega arith)

tick-Healthy_example : Healthy scaled (good 120000)
unfolding run step start complete_action request_full_reboot tick run_stages note_pong
    power_off_stage settling_stage main_loss_stage deadline_stage completion_stage waiting_stage
    supervise_stage progress_stage request_stage act_stage
tick-Healthy_example =
    tick-Healthy scaled 10200 (good 120000) (run scaled charging_calls begun_state) refl
      (run-Inv scaled charging_calls 0 (fresh scaled) (omega arith)) refl

tick-enable_charging_example :
    Healthy scaled (good 120000)
    × ((tick scaled 10100 (good 120000) (run scaled preparing begun_state)).prepared ≡ true)
unfolding run step start complete_action request_full_reboot tick run_stages note_pong
    power_off_stage settling_stage main_loss_stage deadline_stage completion_stage waiting_stage
    supervise_stage progress_stage request_stage act_stage
tick-enable_charging_example =
    tick-enable_charging scaled 10100 (good 120000) (run scaled preparing begun_state) refl refl
      (λ e. cc e)

tick-arm_backup_example : Armable scaled 10200 (good 120000)
unfolding run step start complete_action request_full_reboot tick run_stages note_pong
    power_off_stage settling_stage main_loss_stage deadline_stage completion_stage waiting_stage
    supervise_stage progress_stage request_stage act_stage
tick-arm_backup_example =
    tick-arm_backup scaled 10200 (good 120000) (run scaled charging_calls begun_state) refl refl
      (λ e. cc e)

abbrev asked : Manager scaled
asked =
    run scaled (ticked 10000 (good 120000) ∷ completed 1 true ∷ ticked 10100 (good 120000) ∷ [])
      begun_state

run-charge_once_example :
    (asked.pending.kind ≡ enable_charging)
    × ((run scaled (ticked 10150 (good 120000) ∷ []) asked).pending.id ≡ asked.pending.id)
unfolding run step start complete_action request_full_reboot tick run_stages note_pong
    power_off_stage settling_stage main_loss_stage deadline_stage completion_stage waiting_stage
    supervise_stage progress_stage request_stage act_stage
run-charge_once_example =
    run-charge_once scaled (ticked 10150 (good 120000) ∷ []) asked refl refl refl

run-deadline_example :
    let t =
      run scaled
        (ticked 60099 (good 120000) ∷ completed 1 true ∷ ticked 60100 (good 120000) ∷ [])
        (run scaled shutting begun_state) in
    (t.phase ≡ power_off) × (t.shutdown_at ≡ 100) × (t.shutdown_reason ≡ full_reboot)
unfolding run step start complete_action request_full_reboot any_past past_deadline
run-deadline_example =
    run-deadline scaled
      (ticked 60099 (good 120000) ∷ completed 1 true ∷ ticked 60100 (good 120000) ∷ [])
      (run scaled shutting begun_state) (run-Good scaled shutting begun_state begun_state-Good) refl

complete_action-once_example :
    let t = (complete_action scaled 1 true (run scaled shutting begun_state)).1 in
    (t.completed ≡ true)
    × (t.completion_success ≡ true)
    × (t.pending ≡ (run scaled shutting begun_state).pending)
    × (complete_action scaled 1 false t ≡ (false, t))
unfolding run step start complete_action request_full_reboot
complete_action-once_example =
    complete_action-once scaled 1 1 true false (run scaled shutting begun_state) refl

tick-stale_example :
    complete_action scaled
      (run scaled enabling begun_state).pending.id
      true
      (tick scaled 20000 (good 220000) (run scaled enabling begun_state))
    ≡ (false, tick scaled 20000 (good 220000) (run scaled enabling begun_state))
unfolding run step start complete_action request_full_reboot tick run_stages note_pong
    power_off_stage settling_stage main_loss_stage deadline_stage completion_stage waiting_stage
    supervise_stage progress_stage request_stage act_stage
tick-stale_example =
    tick-stale scaled 20000 (good 220000) true (run scaled enabling begun_state) refl
      (run-Good scaled enabling begun_state begun_state-Good).inv (λ e. cc e)
