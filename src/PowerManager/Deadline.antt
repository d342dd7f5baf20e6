-- ===== src/PowerManager/Deadline.antt =====
-- The shutdown over every sequence of calls: it is irrevocable, and ends by its first deadline.
use tankervision_pdb.Common.{
  ℕ, Bool, false, Floats, ◌≡◌, arith, leb, if◌then◌else◌, sub32, ◌||◌, refl, List, [], ◌∷◌,
}
use tankervision_pdb.PowerManager.State.{Phase, Manager, shutdown_wait, power_off, shutdown_ms}
use tankervision_pdb.PowerManager.Actions.{complete_action, request_full_reboot}
use tankervision_pdb.PowerManager.Runs.{Call, ticked, completed, reboot, step, run, Good, step-Good}
use tankervision_pdb.PowerManager.Shutdown.{tick-deadline, tick-waiting, tick-power_off}

module _ (F : Floats) where
  -- Whether a tick comes at or past the deadline of a shutdown that started at `at`. The clock is
  -- a `uint32_t`, and so is the difference.
  unfoldable pub past_deadline : ℕ → Call F → Bool
  past_deadline at (ticked now i) = leb shutdown_ms (sub32 now at)
  past_deadline at (completed id ok) = false
  past_deadline at (reboot now) = false

  unfoldable pub any_past : ℕ → List (Call F) → Bool
  any_past at [] = false
  any_past at (c ∷ cs) = past_deadline at c || any_past at cs

  -- The phase of a shutdown after a call.
  abbrev next_phase : Phase → ℕ → Call F → Phase
  next_phase p at c = if past_deadline at c then power_off else p

  step-waiting :
      (c : Call F) (s : Manager F)
      → Good F s
      → s.phase ≡ shutdown_wait
      → let t = step F c s in
        (t.phase ≡ (if past_deadline s.shutdown_at c then power_off else shutdown_wait))
        × (t.shutdown_at ≡ s.shutdown_at)
        × (t.shutdown_reason ≡ s.shutdown_reason)
  unfolding step past_deadline complete_action request_full_reboot
  step-waiting (ticked now i) s g p =
      ground (arith, g.on, g.inv, tick-deadline F now i s, tick-waiting F now i s)
  step-waiting (completed id ok) s g p = ground arith
  step-waiting (reboot now) s g p = ground arith

  step-power_off :
      (c : Call F) (s : Manager F)
      → Good F s
      → s.phase ≡ power_off
      → let t = step F c s in
        (t.phase ≡ power_off)
        × (t.shutdown_at ≡ s.shutdown_at)
        × (t.shutdown_reason ≡ s.shutdown_reason)
  unfolding step complete_action request_full_reboot
  step-power_off (ticked now i) s g p = tick-power_off F now i s g.inv g.on p
  step-power_off (completed id ok) s g p = ground arith
  step-power_off (reboot now) s g p = ground arith

  -- Power-off is final: no sequence of calls leaves it, or changes the shutdown's start or reason.
  pub run-power_off :
      (cs : List (Call F)) (s : Manager F)
      → Good F s
      → s.phase ≡ power_off
      → let t = run F cs s in
        (t.phase ≡ power_off)
        × (t.shutdown_at ≡ s.shutdown_at)
        × (t.shutdown_reason ≡ s.shutdown_reason)
  unfolding run
  run-power_off [] s g p = (p, refl, refl)
  run-power_off (c ∷ cs) s g p =
      ground (arith, step-power_off c s g p, run-power_off cs (step F c s) (step-Good F c s g))

  -- From the wait of a shutdown, whatever calls follow, the phase is still the wait until the first
  -- tick at or past the deadline and power-off from then on, and the shutdown's start and reason
  -- stay. The manager is one that calls after `begin` have led to.
  pub run-deadline :
      (cs : List (Call F)) (s : Manager F)
      → Good F s
      → s.phase ≡ shutdown_wait
      → let t = run F cs s in
        (t.phase ≡ (if any_past s.shutdown_at cs then power_off else shutdown_wait))
        × (t.shutdown_at ≡ s.shutdown_at)
        × (t.shutdown_reason ≡ s.shutdown_reason)
  unfolding run any_past
  run-deadline [] s g p = (p, refl, refl)
  run-deadline (c ∷ cs) s g p = ground (
    arith,
    step-waiting c s g p,
    run-power_off cs (step F c s) (step-Good F c s g),
    run-deadline cs (step F c s) (step-Good F c s g),
  )
