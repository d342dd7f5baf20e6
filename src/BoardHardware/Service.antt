-- ===== src/BoardHardware/Service.antt =====
-- `service`: at most one stage of the operation that is running.
use tankervision_pdb.Common.{Bool, true, false, not, Floats, ◌&&◌, ◌||◌, if◌then◌else◌}
use tankervision_pdb.BoardHardware.State.{
  Board, BoardHardware, System, Operation, reconcile, prepare_charge, enable_charge,
  disable_charging, port_change, restore_por, not_reconciled, main_invalid,
}
use tankervision_pdb.BoardHardware.Operations.{is_running, current_main, stop_failed}
use tankervision_pdb.BoardHardware.Reconcile.{service_reconcile, service_disable}
use tankervision_pdb.BoardHardware.Charge.{service_prepare, service_enable}
use tankervision_pdb.BoardHardware.Ports.{service_port, is_unbacked}

abbrev pub is_charging : Operation → Bool
is_charging prepare_charge = true
is_charging enable_charge = true
is_charging _ = false

abbrev pub is_port_change : Operation → Bool
is_port_change port_change = true
is_port_change _ = false

module _ (F : Floats) (B : Board) where
  open F use {lit, lt, is_finite}
  open B use {World}

  -- The operations that enable something, once they may.
  unfoldable pub service_allowed : Operation → System F B → System F B
  service_allowed prepare_charge s = service_prepare F B s
  service_allowed enable_charge s = service_enable F B s
  service_allowed port_change s = service_port F B s
  service_allowed _ s = s

  unfoldable pub needs_main : BoardHardware F → Bool
  needs_main h =
      is_charging h.operation
      || (is_port_change h.operation && h.port_enabled && is_unbacked h.port)

  unfoldable pub service_enabling : System F B → System F B
  service_enabling s =
      if not s.hw.reconciled
      then stop_failed F B not_reconciled s
      else if needs_main s.hw
      then (let (main, t) = current_main F B s in
          if main then service_allowed s.hw.operation t else stop_failed F B main_invalid t)
      else service_allowed s.hw.operation s

  unfoldable pub dispatch : Operation → System F B → System F B
  dispatch reconcile s = service_reconcile F B s
  dispatch restore_por s = service_reconcile F B s
  dispatch disable_charging s = service_disable F B s
  dispatch _ s = service_enabling s

  unfoldable pub service : System F B → System F B
  service s = if is_running s.hw.result then dispatch s.hw.operation s else s
