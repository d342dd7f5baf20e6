-- ===== src/BoardHardware/Ports.antt =====
-- The stages of `startPort`.
use tankervision_pdb.Common.{
  ℕ, Bool, true, false, not, Floats, ◌==◌, ◌&&◌, ◌||◌, leb, if◌then◌else◌, Option, none, some,
  sub32,
}
use tankervision_pdb.Common.Act.{pure, stop_here, gets, ◌>>=◌, ◌>>◌}
use tankervision_pdb.BoardHardware.Bits.{high, raise, lower, buck}
use tankervision_pdb.BoardHardware.State.{
  Board, BoardHardware, System, HardwareSnapshot, Port, vbus, five_volt_vbus, vbus_ss, five_volt_ss,
  backed_port_refused, buck_refused, invalid_port,
}
use tankervision_pdb.BoardHardware.Registers.{
  Method, ask, write_control, verify_operational, internal_address, external_address,
}
use tankervision_pdb.BoardHardware.Monitoring.{backup_pin}
use tankervision_pdb.BoardHardware.Operations.{
  is_j8, fresh_ms, fresh_internal, current_main, advance, succeed, or_fail, stop_failed,
}
use tankervision_pdb.BoardHardware.Charge.{await_pg}

abbrev pub is_unbacked : Port → Bool
is_unbacked vbus = true
is_unbacked five_volt_vbus = true
is_unbacked _ = false

module _ (F : Floats) (B : Board) where
  open F use {lit, lt, is_finite}
  open B use {World}

  -- The source of a backed port: the main, or the backup while it is the selected one.
  unfoldable pub backed_source : System F B → Bool × System F B
  backed_source s =
      let (fresh, t) = fresh_internal F B s in
      if not fresh || not s.hw.snapshot.ss_buck_pg
      then (false, t)
      else (let (main, u) = current_main F B t in
          if main
          then (true, u)
          else if not s.hw.snapshot.main_selected && s.hw.snapshot.backup_pg
          then ask F B (B.digital_read backup_pin) u
          else (false, u))

  unfoldable pub lower_port : Port → ℕ → Method F B (Unit {0})
  lower_port p k = do
    hw ← gets (λ s. s.hw)
    write_control F B external_address (lower hw.expected_external k)
    if is_j8 p then advance F B 5 else succeed F B

  unfoldable pub start_buck : Method F B (Unit {0})
  start_buck = do
    hw ← gets (λ s. s.hw)
    write_control F B internal_address (raise hw.expected_internal buck)
    advance F B 1

  unfoldable pub port_start : BoardHardware F → Method F B (Unit {0})
  port_start h =
      if not h.port_enabled
      then lower_port h.port h.port_mask
      else if is_j8 h.port
      then start_buck
      else advance F B 2

  unfoldable pub first_port_stage : Method F B (Unit {0})
  first_port_stage = do verify_operational F B; hw ← gets (λ s. s.hw); port_start hw

  unfoldable pub raise_port : Method F B (Unit {0})
  raise_port = do
    hw ← gets (λ s. s.hw)
    write_control F B external_address (raise hw.expected_external hw.port_mask)
    advance F B 3

  abbrev pub port_good : Port → HardwareSnapshot F → Bool
  port_good vbus t = t.ext_vbus_pg
  port_good five_volt_vbus t = t.ext_5v_vbus_pg && t.buck_pg
  port_good vbus_ss t = t.ext_ss_pg
  port_good five_volt_ss t = t.ext_5v_ss_pg && t.ss_buck_pg

  unfoldable pub await_port : System F B → System F B
  await_port s =
      if s.hw.snapshot.external.valid
      then (let (now, t) = ask F B B.millis s in
          await_pg F B
            (leb (sub32 now s.hw.snapshot.external.at_ms) fresh_ms
              && port_good s.hw.port s.hw.snapshot)
            (succeed F B) t)
      else await_pg F B false (succeed F B) s

  unfoldable pub stop_buck : Method F B (Unit {0})
  stop_buck = do
    hw ← gets (λ s. s.hw)
    if high hw.expected_external 0 then stop_here else pure tt
    write_control F B internal_address (lower hw.expected_internal buck)
    succeed F B

  -- A failure of either part is reported as the buck's, if nothing was reported before.
  unfoldable pub buck_settled : Option (Unit {0}) → System F B → System F B
  buck_settled none s = stop_failed F B buck_refused s
  buck_settled (some _) s = s

  unfoldable pub service_buck : System F B → System F B
  unfolding buck_settled
  service_buck s = let (r, t) = stop_buck s in buck_settled r t

  unfoldable pub await_buck : System F B → System F B
  await_buck s =
      let (fresh, t) = fresh_internal F B s in
      await_pg F B (fresh && s.hw.snapshot.buck_pg) (advance F B 2) t

  unfoldable pub port_stage : System F B → System F B
  port_stage s =
      if s.hw.stage == 0
      then or_fail F B first_port_stage s
      else if s.hw.stage == 1
      then await_buck s
      else if s.hw.stage == 2
      then or_fail F B raise_port s
      else if s.hw.stage == 3
      then await_port s
      else if s.hw.stage == 5
      then service_buck s
      else stop_failed F B invalid_port s

  unfoldable pub service_port : System F B → System F B
  service_port s =
      if s.hw.port_enabled && not (is_unbacked s.hw.port)
      then (let (ok, t) = backed_source s in
          if ok then port_stage t else stop_failed F B backed_port_refused t)
      else port_stage s
