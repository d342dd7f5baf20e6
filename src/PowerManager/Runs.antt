-- ===== src/PowerManager/Runs.antt =====
-- Sequences of calls on a `PowerManager`, in any order, and the shutdown over them.
use tankervision_pdb.Common.{ℕ, Bool, true, Floats, ◌<◌, ◌≡◌, arith, u32_mod, refl, List, [], ◌∷◌}
use tankervision_pdb.PowerManager.State.{Inputs, Manager}
use tankervision_pdb.PowerManager.Actions.{start, complete_action, request_full_reboot}
use tankervision_pdb.PowerManager.Tick.{tick}
use tankervision_pdb.PowerManager.Invariant.{
  Inv, start-Inv, complete_action-Inv, request_full_reboot-Inv,
}
use tankervision_pdb.PowerManager.TickInvariant.{tick-Inv}
use tankervision_pdb.PowerManager.Once.{tick-begun_kept}

module _ (F : Floats) where
  pub data Call : Type 0 where
    ticked : ℕ → Inputs F → Call
    completed : ℕ → Bool → Call
    reboot : ℕ → Call

  unfoldable pub step : Call → Manager F → Manager F
  step (ticked now i) s = tick F now i s
  step (completed id ok) s = (complete_action F id ok s).1
  step (reboot now) s = (request_full_reboot F now s).1

  unfoldable pub run : List Call → Manager F → Manager F
  run [] s = s
  run (c ∷ cs) s = run cs (step c s)

  -- Every operation keeps `begun`: it is needed for the ticks.
  pub record Good (s : Manager F) : Type 0 where
    pub on : s.begun ≡ true
    pub inv : Inv F s

  pub step-begun : (c : Call) (s : Manager F) → s.begun ≡ true → (step c s).begun ≡ true
  unfolding step complete_action request_full_reboot
  step-begun (ticked now i) s b = tick-begun_kept F now i s b
  step-begun (completed id ok) s b = ground arith
  step-begun (reboot now) s b = ground arith

  pub step-Good : (c : Call) (s : Manager F) → Good s → Good (step c s)
  unfolding step
  step-Good (ticked now i) s g = record {
    on = step-begun (ticked now i) s g.on;
    inv = tick-Inv F now i s g.on g.inv;
  }
  step-Good (completed id ok) s g = record {
    on = step-begun (completed id ok) s g.on;
    inv = complete_action-Inv F id ok s g.inv;
  }
  step-Good (reboot now) s g = record {
    on = step-begun (reboot now) s g.on;
    inv = request_full_reboot-Inv F now s g.inv;
  }

  pub run-Good : (cs : List Call) (s : Manager F) → Good s → Good (run cs s)
  unfolding run
  run-Good [] s g = g
  run-Good (c ∷ cs) s g = run-Good cs (step c s) (step-Good c s g)

  pub start-Good : (now : ℕ) (s : Manager F) → s.next_action_id < u32_mod → Good (start F now s)
  unfolding start
  start-Good now s h = record { on = refl; inv = start-Inv F now s h }

  -- Whatever calls follow `begin`, the invariant holds.
  pub run-Inv :
      (cs : List Call) (now : ℕ) (s : Manager F)
      → s.next_action_id < u32_mod
      → Inv F (run cs (start F now s))
  run-Inv cs now s h = (run-Good cs (start F now s) (start-Good now s h)).inv
