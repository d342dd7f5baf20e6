-- ===== src/SupercapTransfer/Runs.antt =====
-- Calls after a cutoff.
use tankervision_pdb.Common.{ℕ, Bool, Floats, ◌≡◌, refl, List, [], ◌∷◌}
use tankervision_pdb.BoardControl.{BoardControl}
use tankervision_pdb.SupercapTransfer.State.{System, CutoffReason}
use tankervision_pdb.SupercapTransfer.Shutdown.{request_cutoff}
use tankervision_pdb.SupercapTransfer.Service.{start, service, stop}

-- The public methods that change the object.
pub data Call : Type 0 where
  starts : Bool → Call
  serves stops : Call

module _ (F : Floats) (B : BoardControl F) where
  unfoldable pub step : Call → System F B → System F B
  step (starts validated) s = (start F B validated s).1
  step serves s = (service F B s).1
  step stops s = (stop F B s).1

  unfoldable pub run : List Call → System F B → System F B
  unfolding step
  run [] s = s
  run (c ∷ cs) s = run cs (step c s)

  -- After a requested cutoff no sequence of calls changes the object, nor reaches the board: only
  -- the application can go on from there.
  pub run-cutoff :
      (cs : List Call) (why : CutoffReason) (now : ℕ) (s : System F B)
      → run cs (request_cutoff F B why now s).1 ≡ (request_cutoff F B why now s).1
  unfolding run start service stop request_cutoff
  run-cutoff [] why now s = refl
  run-cutoff (starts validated ∷ cs) why now s = run-cutoff cs why now s
  run-cutoff (serves ∷ cs) why now s = run-cutoff cs why now s
  run-cutoff (stops ∷ cs) why now s = run-cutoff cs why now s
