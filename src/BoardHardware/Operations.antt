-- ===== src/BoardHardware/Operations.antt =====
-- How an operation begins, waits, fails and ends.
use tankervision_pdb.Common.{
  ℕ, Bool, true, false, not, Floats, ◌&&◌, ◌||◌, leb, if◌then◌else◌, [], ◌∷◌, Option, none, some,
  sub32, bit_xor,
}
use tankervision_pdb.Common.Act.{pure, call, gets, modify, after, ◌>>=◌, ◌>>◌}
use tankervision_pdb.BoardHardware.Bits.{any_high, lower_all, buck}
use tankervision_pdb.BoardHardware.State.{
  Board, System, Port, vbus, five_volt_vbus, vbus_ss, five_volt_ss, HardwareError, HwResult,
  running, succeeded, failed, Operation, no_operation, reconcile, prepare_charge, enable_charge,
  disable_charging, port_change, restore_por, not_initialized, busy_error, rollback_failed,
  pg_timeout,
}
use tankervision_pdb.BoardHardware.Registers.{
  Method, ask, set_hw, fail, guard, read_pair, write_register, force_ce_low, expect,
  internal_address, external_address, unused_inputs,
}
use tankervision_pdb.BoardHardware.Monitoring.{clear_error, mux_pin}

abbrev pub decay_ms : ℕ
decay_ms = 100

abbrev pub ts_settle_ms : ℕ
ts_settle_ms = 500

abbrev pub fresh_ms : ℕ
fresh_ms = 350

abbrev pub is_running : HwResult → Bool
is_running running = true
is_running _ = false

abbrev pub same_bool : Bool → Bool → Bool
same_bool true b = b
same_bool false b = not b

-- The bit of the port in the external control register.
abbrev pub port_bit : Port → ℕ
port_bit vbus = 1
port_bit five_volt_vbus = 0
port_bit vbus_ss = 2
port_bit five_volt_ss = 3

abbrev pub is_j8 : Port → Bool
is_j8 five_volt_vbus = true
is_j8 _ = false

module _ (F : Floats) (B : Board) where
  open B use {World}

  unfoldable pub fresh_internal : System F B → Bool × System F B
  fresh_internal s =
      if s.hw.snapshot.internal.valid
      then (let (now, t) = ask F B B.millis s in
          (leb (sub32 now s.hw.snapshot.internal.at_ms) fresh_ms, t))
      else (false, s)

  -- The selected main source with exactly one power good, in a fresh snapshot and on the pin.
  unfoldable pub current_main : System F B → Bool × System F B
  unfolding fresh_internal
  current_main s =
      let (fresh, t) = fresh_internal s in
      if fresh && s.hw.snapshot.main_selected
      then (let (mux, u) = ask F B (B.digital_read mux_pin) t in
          (
            mux
                && not (same_bool s.hw.snapshot.usb_pg s.hw.snapshot.dc_pg)
                && s.hw.snapshot.ss_buck_pg,
            u,
          ))
      else (false, t)

  unfoldable pub reset_stage : Operation → ℕ → System F B → System F B
  reset_stage op now = set_hw F B (λ h. record h {
    operation = op;
    result = running;
    stage = 0;
    operation_at = now;
    stage_at = now;
    pg_timing = false;
  })

  unfoldable pub begin_operation : Operation → Bool → Method F B (Unit {0})
  begin_operation op preempt = do
    busy ← gets (λ s. is_running s.hw.result)
    modify (clear_error F B)
    guard F B (not (busy && not preempt)) busy_error
    hw ← gets (λ s. s.hw)
    guard F B hw.monitoring not_initialized
    now ← call (ask F B B.millis)
    modify (reset_stage op now)

  abbrev pub start_reconcile : Method F B (Unit {0})
  start_reconcile = begin_operation reconcile false

  abbrev pub start_prepare_charge : Method F B (Unit {0})
  start_prepare_charge = begin_operation prepare_charge false

  abbrev pub start_enable_charge : Method F B (Unit {0})
  start_enable_charge = begin_operation enable_charge false

  abbrev pub start_disable_charging : Method F B (Unit {0})
  start_disable_charging = begin_operation disable_charging true

  abbrev pub start_restore_por : Method F B (Unit {0})
  start_restore_por = begin_operation restore_por true

  unfoldable pub start_port : Port → Bool → Method F B (Unit {0})
  start_port p enabled = do
    begin_operation port_change false
    modify (set_hw F B (λ h. record h { port = p; port_mask = port_bit p; port_enabled = enabled }))

  unfoldable pub advance : ℕ → Method F B (Unit {0})
  advance next = do
    now ← call (ask F B B.millis)
    modify (set_hw F B (λ h. record h { stage = next; stage_at = now; pg_timing = false }))

  unfoldable pub succeed : Method F B (Unit {0})
  succeed = modify (set_hw F B (λ h. record h { result = succeeded }))

  -- The rollback of a port: the actual latch with one bit lowered, and nothing else.
  unfoldable pub clear_actual : ℕ → ℕ → Method F B (Unit {0})
  clear_actual address k = do
    output ← read_pair F B address 2
    write_register F B address 3 (lower_all output.high_byte (k ∷ []))
    now_output ← read_pair F B address 2
    polarity ← read_pair F B address 4
    input ← read_pair F B address 0
    modify (expect F B address now_output.high_byte)
    guard F B
        (not (
          any_high now_output.high_byte (k ∷ [])
          || any_high (bit_xor input.high_byte polarity.high_byte) (k ∷ [])))
        (rollback_failed address (k ∷ []))

  unfoldable pub roll_back : Port → ℕ → Method F B (Unit {0})
  roll_back p mask = do
    clear_actual external_address mask
    if is_j8 p then clear_actual internal_address buck else pure tt

  -- The outer ports go off even where CE could not be verified.
  unfoldable pub drop_external : Method F B (Unit {0})
  drop_external = do
    write_register F B external_address 3 0
    write_register F B external_address 7 unused_inputs

  unfoldable pub withdraw_charge : System F B → System F B
  withdraw_charge s = after (force_ce_low F B) (set_hw F B (λ h. record h { prepared = false }) s)

  -- What is undone depends on the operation that fails.
  unfoldable pub undo : Operation → System F B → System F B
  undo prepare_charge s = withdraw_charge s
  undo enable_charge s = withdraw_charge s
  undo port_change s = if s.hw.port_enabled then after (roll_back s.hw.port s.hw.port_mask) s else s
  undo reconcile s = after drop_external s
  undo restore_por s = after drop_external s
  undo no_operation s = s
  undo disable_charging s = s

  unfoldable pub fail_operation : System F B → System F B
  fail_operation s = set_hw F B (λ h. record h { result = failed }) (undo s.hw.operation s)

  -- A method whose failure fails the operation.
  unfoldable pub settled : Option (Unit {0}) → System F B → System F B
  settled none s = fail_operation s
  settled (some _) s = s

  unfoldable pub or_fail : Method F B (Unit {0}) → System F B → System F B
  unfolding settled
  or_fail m s = let (r, t) = m s in settled r t

  unfoldable pub stop_failed : HardwareError → System F B → System F B
  stop_failed e s = or_fail (fail F B e) s

  unfoldable pub time_good : System F B → System F B
  time_good s =
      if s.hw.pg_timing
      then s
      else (let (now, t) = ask F B B.millis s in
          set_hw F B (λ h. record h { pg_timing = true; pg_at = now }) t)

  unfoldable pub check_deadline : ℕ → System F B → Bool × System F B
  check_deadline timeout_ms s =
      let (now, t) = ask F B B.millis s in
      (
        false,
        if leb timeout_ms (sub32 now t.hw.stage_at)
            then stop_failed (pg_timeout timeout_ms) t
            else t,
      )

  -- A power good has to stay for 100 ms, within `timeout_ms` of the stage's start.
  unfoldable pub wait_pg : Bool → ℕ → System F B → Bool × System F B
  wait_pg good timeout_ms s =
      if good
      then (let t = time_good s in
          let (now, u) = ask F B B.millis t in
          if leb 100 (sub32 now u.hw.pg_at) then (true, u) else check_deadline timeout_ms u)
      else check_deadline timeout_ms (set_hw F B (λ h. record h { pg_timing = false }) s)
