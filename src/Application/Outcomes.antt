-- ===== src/Application/Outcomes.antt =====
-- `actionDone`, and how the steps of an action end in it.
use tankervision_pdb.Common.{ℕ, Bool, true, false, not, Floats, ◌&&◌, if◌then◌else◌}
use tankervision_pdb.Common.Act.{pure, gets, modify, ◌>>=◌, ◌>>◌}
use tankervision_pdb.BoardHardware.State.{HwResult, no_error}
use tankervision_pdb.PowerDelivery.Bus.{PdResult, PdError}
use tankervision_pdb.PowerManager.State.{is_action, enable_charging, stop_charging}
use tankervision_pdb.PowerManager.Actions.{complete_action}
use tankervision_pdb.Application.State.{
  Application, Parts, ErrorText, nothing_yet, hardware, delivery, hardware_action_failed,
}
use tankervision_pdb.Application.Output.{Method, ask, now, view, remember_error}

abbrev pub hw_succeeded : HwResult → Bool
hw_succeeded HwResult.succeeded = true
hw_succeeded _ = false

abbrev pub pd_succeeded : PdResult → Bool
pd_succeeded PdResult.succeeded = true
pd_succeeded _ = false

abbrev pub pd_failed : PdResult → Bool
pd_failed PdResult.failed = true
pd_failed _ = false

-- No text, or the empty one.
abbrev pub is_blank : ErrorText → Bool
is_blank nothing_yet = true
is_blank (hardware no_error) = true
is_blank (delivery PdError.no_error) = true
is_blank _ = false

module _ (F : Floats) (D : Parts F) where
  unfoldable pub note_charge_on : Method F D (Unit {0})
  note_charge_on = do
    t ← now F D
    modify (λ s. record s { charge_expected = true; charge_enabled_at = t })

  unfoldable pub note_charge_off : Application F D → Application F D
  note_charge_off s = record s {
    charge_expected = s.charge_expected && not (is_action stop_charging s.manager.pending.kind);
  }

  abbrev pub report_back : Bool → Application F D → Application F D
  report_back done s = record s { manager = (complete_action F s.active_action done s.manager).1 }

  unfoldable pub action_succeeded : Method F D (Unit {0})
  action_succeeded = do
    s ← gets (λ s. s)
    if is_action enable_charging s.manager.pending.kind then note_charge_on else pure tt
    modify note_charge_off
    modify (report_back true)

  unfoldable pub action_failed : ErrorText → Method F D (Unit {0})
  action_failed e = do
    remember_error F D (if is_blank e then hardware_action_failed else e)
    modify (report_back false)

  -- `actionDone(false, board.error())`, and with the error of `pd`.
  unfoldable pub hardware_failed : Method F D (Unit {0})
  hardware_failed = do e ← view F D D.error; action_failed (hardware e)

  unfoldable pub delivery_failed : Method F D (Unit {0})
  delivery_failed = do e ← view F D D.pd_error; action_failed (delivery e)

  -- `actionDone(board.result() == Succeeded, board.error())`
  unfoldable pub report_result : Method F D (Unit {0})
  report_result = do
    r ← view F D D.result
    if hw_succeeded r then action_succeeded else hardware_failed

  unfoldable pub report_if_idle : Method F D (Unit {0})
  report_if_idle = do b ← view F D D.busy; if b then pure tt else report_result

  -- An operation that is started first; a refusal is the action's failure.
  unfoldable pub started :
      (D.World → Bool × D.World) → Method F D (Unit {0}) → Method F D (Unit {0})
  started f rest = do accepted ← ask F D f; if accepted then rest else hardware_failed

  abbrev pub set_stage : ℕ → Method F D (Unit {0})
  set_stage n = modify (λ s. record s { action_stage = n })

  -- An operation whose refusal is only remembered.
  unfoldable pub try_operation : (D.World → Bool × D.World) → Method F D (Unit {0})
  try_operation f = do
    accepted ← ask F D f
    e ← view F D D.error
    if accepted then pure tt else remember_error F D (hardware e)
