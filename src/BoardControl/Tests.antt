-- ===== src/BoardControl/Tests.antt =====
-- Two expanders, a clock and pins that answer, and calls of the driver on them.
use tankervision_pdb.Common.{
  ℕ, Bool, true, false, ◌≡◌, ◌⊎◌, refl, ◌+◌, ◌-◌, ◌%◌, ◌==◌, ◌&&◌, ◌≤◌, if◌then◌else◌, List, [],
  ◌∷◌, some, arith, sym, subst, u32_mod,
}
use tankervision_pdb.Common.Act.{
  attempt, after, ◌>>=◌, call, continue, gets, modify, pure, stop_here,
}
use tankervision_pdb.BoardHardware.State.{Board}
use tankervision_pdb.BoardHardware.Tests.{tenths}
use tankervision_pdb.BoardControl.Driver.{
  Rig, System, no_error, boost_pg, internal_address, stamp_charger_off, wait_for_charger_decay,
  decay_rest, write_outputs, ask, tell, clear_error, require_ready, guard, fail, note_error, drain,
  drain_loop, refuse_answer, take_answer, take_pair, read_pair, write_register, read_registers,
  validate,
}
use tankervision_pdb.BoardControl.Reading.{
  read_status_impl, read_adc_mv, sample_adc, sum_samples, main_present, decode, wait_loop, wait_pg,
  pg_timeout_ms,
}
use tankervision_pdb.BoardControl.Setters.{
  set_charger, set_charger_impl, start_charger, switch_internal,
}
use tankervision_pdb.BoardControl.Shutdown.{
  backup_pin, drive_low, disable_charging_for_power_loss, force_low, verify_low,
}
use tankervision_pdb.BoardControl.Start.{
  begin, prepare_pins, settle_or_clean, settle, settle_ce, settle_outputs, set_all, finish_begin,
}
use tankervision_pdb.BoardControl.Baseline.{PinLow, Ready}
use tankervision_pdb.BoardControl.BeginReady.{begin-Ready}
use tankervision_pdb.BoardControl.Calls.{Op, boost, charger, backup, power_loss, off, run}
use tankervision_pdb.BoardControl.Clock.{Clock}
use tankervision_pdb.BoardControl.Backup.{Spared}
use tankervision_pdb.BoardControl.BackupRuns.{run-armed}
use tankervision_pdb.BoardControl.Unselected.{selector-Blind}
use tankervision_pdb.BoardControl.Charging.{Charging, cleared, set_charger-Charging}
use tankervision_pdb.BoardHardware.Bits.{boost as boost_bit, high}
use tankervision_pdb.BoardControl.BoostKept.{BoostKept}
use tankervision_pdb.BoardControl.PowerLoss.{
  error_cleared, PowerCut, disable_charging_for_power_loss-PowerCut,
}
use tankervision_pdb.BoardControl.WaitEnds.{wait_pg-rounds}

-- The register and the bytes of the current transaction, the two latches, the source selector, and GPIO42.
pub record Sim : Type 0 where
  pub clock : ℕ
  pub address : ℕ
  pub reg : ℕ
  pub left : ℕ
  pub internal : ℕ
  pub external : ℕ
  pub main : Bool
  pub backup_pin_high : Bool

abbrev first : List ℕ → ℕ
first [] = 0
first (b ∷ _) = b

abbrev second : List ℕ → ℕ → ℕ
second (_ ∷ b ∷ _) n = b
second _ n = n

-- USB, boost and the supercapacitors' buck are good; the pins follow the latch.
abbrev low_byte : Sim → ℕ
low_byte w =
    if w.reg == 0
    then (if w.address == internal_address then 0xc4 else 0)
    else if w.reg == 6
    then 0xff
    else 0

abbrev high_byte : Sim → ℕ
high_byte w =
    let latch = if w.address == internal_address then w.internal else w.external in
    if w.reg == 6 then 0xe0 else (if w.reg == 4 then 0 else latch)

abbrev sim : Board
sim = record {
  World = Sim;
  millis = λ w. (w.clock % u32_mod, w);
  wire_begin = λ w. (true, w);
  set_timeout = λ n w. w;
  transmit = λ a bs stop w. (
    0,
    record w {
      address = a;
      reg = first bs;
      internal =
          if a == internal_address && first bs == 3 then second bs w.internal else w.internal;
      external =
          if a == internal_address
          then w.external
          else (if first bs == 3 then second bs w.external else w.external);
    },
  );
  request_from = λ a n w. (n, record w { left = n });
  available = λ w. w.left;
  read_byte =
      λ w. (if w.left == 2 then low_byte w else high_byte w, record w { left = w.left - 1 });
  digital_read = λ p w. (w.main, w);
  digital_write =
      λ p b w. record w { backup_pin_high = if p == backup_pin then b else w.backup_pin_high };
  gpio_set_level = λ p b w. w;
  pin_output = λ p w. w;
  pin_input = λ p b w. w;
  analog_setup = λ n ps w. w;
  attach_interrupt = λ p w. w;
  analog_read = λ p w. (0, w);
  analog_read_mv = λ p w. (1800, w);
}

abbrev pub sim_rig : Rig
sim_rig = record {
  board = sim;
  delay = λ n w. record w { clock = w.clock + n };
  println = λ l w. w;
}

abbrev pub sim_clock : Clock sim_rig
sim_clock = record {
  time = λ w. w.clock;
  counter = λ w. refl;
  at_millis = λ w. omega arith;
  at_transmit = λ a bs stop w. omega arith;
  at_request = λ a n w. omega arith;
  at_read = λ w. omega arith;
  at_pin = λ p w. omega arith;
  at_analog = λ p w. omega arith;
  at_write = λ p on w. omega arith;
  at_delay = λ n w. omega arith;
}

-- Boost is on, and the main source is there or not.
abbrev pub running : Bool → Bool → System sim_rig
running armed main = record {
  driver = record {
    error = no_error;
    has_log = false;
    ready = true;
    backup_enabled = armed;
    internal_outputs = 1;
    external_outputs = 0;
    charger_disabled_at = 0;
  };
  world = record {
    clock = 5000;
    address = 0;
    reg = 0;
    left = 0;
    internal = 1;
    external = 0;
    main = main;
    backup_pin_high = armed;
  };
}

set_charger_succeeds : (set_charger tenths sim_rig true (running false true)).0 ≡ some tt
unfolding set_charger set_charger_impl start_charger switch_internal read_status_impl read_adc_mv
    sample_adc sum_samples main_present decode write_outputs ◌>>=◌ call continue gets modify pure
    stop_here ask tell clear_error require_ready guard fail note_error drain drain_loop
    refuse_answer take_answer take_pair read_pair write_register read_registers validate
set_charger_succeeds = refl

power_loss_succeeds : (disable_charging_for_power_loss sim_rig (running true false)).0 ≡ some tt
unfolding disable_charging_for_power_loss force_low verify_low stamp_charger_off
    wait_for_charger_decay decay_rest ◌>>=◌ call continue gets modify pure stop_here ask tell
    clear_error require_ready guard fail note_error drain drain_loop refuse_answer take_answer
    take_pair read_pair write_register read_registers validate
power_loss_succeeds = refl

dark : Spared sim_rig (λ w. w.main ≡ false)
dark = record {
  at_millis = λ w q. q;
  at_transmit = λ a bs stop w q. q;
  at_request = λ a n w q. q;
  at_read = λ w q. q;
  at_pin = λ p w q. q;
  at_analog = λ p w q. q;
  at_delay = λ n w q. q;
  at_led = λ on w q. q;
  at_log = λ l w q. q;
}

-- Without the main source the backup stays armed.
abbrev attempts : List Op
attempts = backup false ∷ boost true ∷ charger true ∷ power_loss ∷ off ∷ backup false ∷ []

run-armed_example :
    let t = run tenths sim_rig attempts (running true false) in
    (t.driver.backup_enabled ≡ true) × (t.world.main ≡ false)
run-armed_example =
    run-armed tenths sim_rig (λ w. w.main ≡ false) attempts (running true false) dark
      (selector-Blind tenths dark (λ w low. low)) refl refl

set_charger-Charging_example :
    Charging tenths sim_rig
      (cleared tenths sim_rig (running false true))
      1
      0
      (after (set_charger tenths sim_rig true) (running false true))
set_charger-Charging_example =
    set_charger-Charging tenths sim_rig (running false true) set_charger_succeeds

-- Boost is on in the latch of 0x20.
record Boosted (w : Sim) : Type 0 where
  pub on : high w.internal boost_bit ≡ true

selected : (a reg n : ℕ) → (if a == internal_address && reg == 3 then n else n) ≡ n
selected a reg n = ground arith

sim-Boosted : BoostKept sim_rig Boosted
sim-Boosted = record {
  at_millis = λ w q. q;
  at_select = λ a reg w q. record {
    on = subst (λ v. high v boost_bit ≡ true) (sym (selected a reg w.internal)) q.on;
  };
  at_request = λ a n w q. record { on = q.on };
  at_read = λ w q. record { on = q.on };
  at_delay = λ n w q. record { on = q.on };
  at_config = λ v w q. record { on = q.on };
  at_boost_on = λ v w h q. record { on = h };
}

disable_charging_for_power_loss-PowerCut_example :
    PowerCut Boosted
      (error_cleared (running true false))
      (after (disable_charging_for_power_loss sim_rig) (running true false))
disable_charging_for_power_loss-PowerCut_example =
    disable_charging_for_power_loss-PowerCut sim_rig Boosted (running true false) sim-Boosted
      (record { on = refl }) power_loss_succeeds

wait_pg-rounds_example :
    (wait_loop tenths sim_rig 500 boost_pg true pg_timeout_ms 5000 false 0 (running false true)
      ≡ wait_pg tenths sim_rig boost_pg true (running false true))
    ⊎ (5000 + u32_mod
        ≤ (after (wait_pg tenths sim_rig boost_pg true) (running false true)).world.clock)
unfolding ask
wait_pg-rounds_example =
    wait_pg-rounds tenths sim_rig sim_clock boost_pg true 500 (running false true) (omega arith)

begin_succeeds : (begin sim_rig (running true true)).0 ≡ some tt
unfolding begin prepare_pins drive_low settle_or_clean settle settle_ce settle_outputs set_all
    finish_begin stamp_charger_off wait_for_charger_decay decay_rest attempt ◌>>=◌ call continue
    gets modify pure stop_here ask tell clear_error require_ready guard fail note_error drain
    drain_loop refuse_answer take_answer take_pair read_pair write_register read_registers validate
begin_succeeds = refl

-- GPIO42 is low.
record Low42 (w : Sim) : Type 0 where
  pub low : w.backup_pin_high ≡ false

sim_low : PinLow sim_rig Low42
sim_low = record {
  at_drive = λ w. record { low = refl };
  at_led = λ w q. record { low = q.low };
  at_input = λ p pull w q. q;
  at_setup = λ n ps w q. q;
  at_wire = λ w q. q;
  at_timeout = λ n w q. q;
  at_log = λ l w q. q;
  at_millis = λ w q. q;
  at_transmit = λ a bs stop w q. record { low = q.low };
  at_request = λ a n w q. record { low = q.low };
  at_read = λ w q. record { low = q.low };
  at_pin = λ p w q. q;
  at_analog = λ p w q. q;
  at_delay = λ n w q. record { low = q.low };
}

begin-Ready_example : Ready Low42 false (after (begin sim_rig) (running true true))
begin-Ready_example = begin-Ready sim_rig Low42 (running true true) sim_low begin_succeeds
