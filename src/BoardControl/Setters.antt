-- ===== src/BoardControl/Setters.antt =====
-- The setters of the converters, the charger and the ports of `BoardControl`.
use tankervision_pdb.Common.{ℕ, Bool, true, false, not, Floats, ◌&&◌, ◌||◌, if◌then◌else◌}
use tankervision_pdb.Common.Act.{pure, stop_here, attempt, ◌>>=◌, ◌>>◌}
use tankervision_pdb.BoardHardware.Bits.{
  high, raise, lower, boost, ce, high_current, ts_override, buck,
}
use tankervision_pdb.BoardControl.{
  Status, Port, vbus, five_volt_vbus, supervised, five_volt_supervised,
}
use tankervision_pdb.BoardControl.Driver.{
  Rig, Method, Pg, boost_pg, buck_pg, vbus_pg, five_volt_vbus_pg, supervised_pg,
  five_volt_supervised_pg, DriverError, charger_still_on, boost_needs_main, charger_before_boost,
  port_still_on, buck_needs_main, charger_needs_boost, charger_inhibited, charger_before_current,
  charger_before_thermistor, unbacked_needs_main, backed_needs_source, tell, get_driver,
  clear_error, guard, require_ready, write_outputs, wait_for_charger_decay, stamp_charger_off,
  internal_address, external_address,
}
use tankervision_pdb.BoardControl.Reading.{main_present, read_status_impl, wait_pg}

abbrev pub ts_override_settle_ms : ℕ
ts_override_settle_ms = 100

abbrev pub ts_ntc_settle_ms : ℕ
ts_ntc_settle_ms = 500

-- The latch with the bit set or cleared.
abbrev pub switched : Bool → ℕ → ℕ → ℕ
switched on k v = if on then raise v k else lower v k

abbrev pub port_bit : Port → ℕ
port_bit vbus = 1
port_bit five_volt_vbus = 0
port_bit supervised = 2
port_bit five_volt_supervised = 3

abbrev pub port_pg : Port → Pg
port_pg vbus = vbus_pg
port_pg five_volt_vbus = five_volt_vbus_pg
port_pg supervised = supervised_pg
port_pg five_volt_supervised = five_volt_supervised_pg

abbrev pub is_five_volt_vbus : Port → Bool
is_five_volt_vbus five_volt_vbus = true
is_five_volt_vbus _ = false

abbrev pub is_unbacked : Port → Bool
is_unbacked vbus = true
is_unbacked five_volt_vbus = true
is_unbacked _ = false

module _ (F : Floats) (R : Rig) where
  open F use {lit, lt}

  -- `writeOutputs` with the bit of an expander's present latch set or cleared.
  unfoldable pub switch_internal : Bool → ℕ → Method R (Unit {0})
  switch_internal on k = do
    d ← get_driver R
    write_outputs R internal_address (switched on k d.internal_outputs)

  unfoldable pub switch_external : Bool → ℕ → Method R (Unit {0})
  switch_external on k = do
    d ← get_driver R
    write_outputs R external_address (switched on k d.external_outputs)

  -- What a setter begins with.
  unfoldable pub checked_status : Method R (Status F)
  checked_status = do clear_error R; require_ready R; read_status_impl F R

  unfoldable pub charger_off : DriverError → Method R (Unit {0})
  charger_off e = do d ← get_driver R; guard R (not (high d.internal_outputs ce)) e

  -- A rollback whose own result does not count.
  unfoldable pub undo : Bool → Method R (Unit {0}) → Method R (Unit {0})
  undo true m = do attempt m; stop_here
  undo false m = stop_here

  unfoldable pub stop_boost : Method R (Unit {0})
  stop_boost = do
    charger_off charger_still_on
    wait_for_charger_decay R
    switch_internal false boost

  unfoldable pub drop_boost : Method R (Unit {0})
  drop_boost = do stamp_charger_off R; wait_for_charger_decay R; switch_internal false boost

  -- CE goes low first; boost stays where that fails.
  unfoldable pub roll_back_boost : Method R (Unit {0})
  roll_back_boost = do low ← attempt (switch_internal false ce); undo low drop_boost

  unfoldable pub start_boost : Status F → Method R (Unit {0})
  start_boost s = do
    guard R (main_present F s) boost_needs_main
    d ← get_driver R
    guard R (high d.internal_outputs boost || not (high d.internal_outputs ce)) charger_before_boost
    switch_internal true boost
    good ← attempt (wait_pg F R boost_pg true)
    if good then pure tt else roll_back_boost

  unfoldable pub set_boost : Bool → Method R (Unit {0})
  set_boost enabled = do s ← checked_status; if enabled then start_boost s else stop_boost

  unfoldable pub stop_buck : Method R (Unit {0})
  stop_buck = do
    d ← get_driver R
    guard R (not (high d.external_outputs 0)) port_still_on
    switch_internal false buck

  -- A port that the buck supplies is disconnected before it.
  unfoldable pub roll_back_buck : Method R (Unit {0})
  roll_back_buck = do off ← attempt (switch_external false 0); undo off (switch_internal false buck)

  unfoldable pub start_buck : Status F → Method R (Unit {0})
  start_buck s = do
    guard R (main_present F s) buck_needs_main
    switch_internal true buck
    good ← attempt (wait_pg F R buck_pg true)
    if good then pure tt else roll_back_buck

  unfoldable pub set_buck_impl : Bool → Method R (Unit {0})
  set_buck_impl enabled = do s ← read_status_impl F R; if enabled then start_buck s else stop_buck

  unfoldable pub set_buck_5v : Bool → Method R (Unit {0})
  set_buck_5v enabled = do clear_error R; require_ready R; set_buck_impl enabled

  unfoldable pub start_charger : Status F → Method R (Unit {0})
  start_charger s = do
    d ← get_driver R
    guard R (main_present F s && (high d.internal_outputs boost && s.boost_pg)) charger_needs_boost
    guard R (not (lt (lit 210 1) s.vcap_v)) charger_inhibited
    switch_internal true ce

  unfoldable pub stop_charger : Method R (Unit {0})
  stop_charger = do switch_internal false ce; stamp_charger_off R

  unfoldable pub set_charger_impl : Bool → Method R (Unit {0})
  set_charger_impl enabled = do
    s ← read_status_impl F R
    if enabled then start_charger s else stop_charger

  unfoldable pub set_charger : Bool → Method R (Unit {0})
  set_charger enabled = do clear_error R; require_ready R; set_charger_impl enabled

  unfoldable pub set_charge_high_current : Bool → Method R (Unit {0})
  set_charge_high_current enabled = do
    s ← checked_status
    charger_off charger_before_current
    wait_for_charger_decay R
    switch_internal enabled high_current

  unfoldable pub set_thermistor_override : Bool → Method R (Unit {0})
  set_thermistor_override enabled = do
    s ← checked_status
    charger_off charger_before_thermistor
    wait_for_charger_decay R
    switch_internal enabled ts_override
    tell R (R.delay (if enabled then ts_override_settle_ms else ts_ntc_settle_ms))

  unfoldable pub source_for : Port → Status F → Method R (Unit {0})
  source_for p s =
      if is_unbacked p
      then guard R (main_present F s) unbacked_needs_main
      else guard R (s.ss_buck_pg && (main_present F s || (not s.main_selected && s.backup_pg)))
          backed_needs_source

  -- The buck is dropped too where this call has started it.
  unfoldable pub roll_back_port : Port → Bool → Method R (Unit {0})
  roll_back_port p started = do
    off ← attempt (switch_external false (port_bit p))
    undo (off && started) (switch_internal false buck)

  unfoldable pub open_port : Port → Bool → Method R (Unit {0})
  open_port p started = do
    switch_external true (port_bit p)
    good ← attempt (wait_pg F R (port_pg p) (is_unbacked p))
    if good then pure tt else roll_back_port p started

  unfoldable pub enable_port : Port → Status F → Method R (Unit {0})
  enable_port p s = do
    source_for p s
    d ← get_driver R
    if is_five_volt_vbus p then set_buck_impl true else pure tt
    open_port p (is_five_volt_vbus p && not (high d.internal_outputs buck))

  unfoldable pub set_port : Port → Bool → Method R (Unit {0})
  set_port p enabled = do
    s ← checked_status
    if enabled then enable_port p s else switch_external false (port_bit p)
