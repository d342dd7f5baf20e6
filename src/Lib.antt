-- ===== src/Lib.antt =====
-- A model of the deployment firmware of the TankerVision power distribution board, and proofs about
-- it. The firmware runs one loop on an ESP32: it polls the board, feeds one observation to the
-- policy, carries out the action that the policy asks for, and talks JSON lines over USB with the
-- Jetson that it powers. Of the bench firmware, the driver of the board, the capture of the expanders'
-- interrupts, the heartbeat of the LED, a measurement mode of the charger and the supervised transfer
-- between the sources are modelled.
--
-- PowerManager (firmware/deployment/PowerManager.{h,cpp}): the policy. PowerManager/State.antt has
--   its enumerations, constants, inputs and fields; Actions.antt the operations `begin` (start),
--   `completeAction`, `requestFullReboot`, `leaveCharging`, `startShutdown`, `finishAction`;
--   Tick.antt has `tick`, cut at its early returns into stages in the source's order. A method takes
--   the object last and returns the new one. The proofs go by stages: Stages.antt has the rules,
--   Invariant.antt and TickInvariant.antt the invariant, Runs.antt any sequence of calls.
-- Protocol (firmware/deployment/Protocol.{h,cpp}): Framer.antt the framer, Lexer.antt and Parser.antt
--   the parser, Request.antt the request and its fingerprint, ReplayCache.antt the cache. A C string
--   is the list of its bytes, a pointer the rest of the string, an array a list of its size. The loop
--   of `parse` takes one more round of fuel than the line has bytes; Total.antt shows it is enough.
-- UsbOutput (firmware/deployment/JsonOutput.h): Message.antt the message buffer, Queue.antt the output
--   queue. What `vsnprintf` formats and what the USB port answers are arguments.
-- PowerDelivery (firmware/deployment/PowerDelivery.{h,cpp}): Reading.antt has `PdReading`, `sensible`
--   and the bytes of a word; Bus.antt the transactions `read` and `write`; Budget.antt `begin`
--   (start_bus), `poll`, `startBudget`, `service`, `cancel`, `budgetValid`; Contract.antt is about one
--   service, Runs.antt about a start and any number of them. `TwoWire` and `millis` are
--   the interface `Wire`, whose state is any type, and no law of it is used: the theorems hold for
--   every answer of the bus. A method that returns early is in the monad `M`. `begin_bus` of `Wire`
--   stands for `setTimeOut` and `begin`, and the text of an error is a constructor.
-- BoardHardware (firmware/deployment/BoardHardware.{h,cpp}): State.antt has the data and the interface
--   `Board` of the bus, the pins, the analog inputs and the clock; Bits.antt the bits of a register;
--   Registers.antt the transactions and what is verified through them; Monitoring.antt
--   `beginMonitoring`, the interrupt handler and `poll`; Operations.antt how an operation begins,
--   waits and fails; Reconcile.antt, Charge.antt and Ports.antt its stages, which Service.antt selects;
--   Pins.antt `setBackup`, `setLed`, `releaseBackupForShutdown`. A mask is the list of its bits. A
--   method that returns early is in the monad `Act` of Common/Act.antt. Closed.antt, Quiet.antt and
--   QuietStages.antt show what the transactions and the stages keep, and Arming.antt what arming the
--   backup does.
-- Application (firmware/deployment/Application.cpp): State.antt has the variables, the messages, and
--   the interface `Parts` of what the application drives: `BoardHardware`, `PowerDelivery`, the clock
--   and the restart. Output.antt has `mainPresent`, `sourceBudgetValid` and what is sent, Handle.antt
--   `handle`, which takes its requests from the model of Protocol, and Outcomes.antt `actionDone`
--   and Actions.antt `serviceAction`, which report to the model of PowerManager. Loop.antt has the supervision in
--   `loopDeployment` (supervise), with the manager's tick, and the cleanup during a shutdown (clean_up).
--   A message is a value, not its text.
--   Cached.antt and Remembered.antt show what a request does to the replay cache, Quiet.antt which
--   parts of `handle` only read the clock and the budget; Ports.antt, Replayed.antt, Release.antt and
--   Supervised.antt have the proofs.
-- BoardControl (firmware/board_control_test/BoardControl.{h,cpp}): the bench driver. BoardControl.antt
--   has `Status` and the driver's operations as an interface; what is proved of its clients holds
--   whatever it answers. Driver.antt has the data and the transactions, over the interface `Rig` of
--   the bus, the pins, the clock, `delay` and the log; Reading.antt `readStatus`, `readAdcMv` and
--   `waitPg`; Setters.antt the converters, the charger and the ports; Shutdown.antt the backup, the
--   LED, the button and the shutdown paths; Start.antt `begin` and its cleanup. Interface.antt fills
--   the clients' interface with them, Calls.antt has sequences of calls. A method that fails returns
--   early, with the first error kept as a constructor and its values, not as a text of 160 bytes.
--   `waitPg` gets 201 rounds of at least 10 ms for its 2 s, and what is left over without rounds fails
--   like the timeout; WaitEnds.antt is about further rounds. Calm.antt, Steady.antt, BoostKept.antt, Backup.antt,
--   BackupSetters.antt and Baseline.antt show what the transactions and the setters keep, Enables.antt,
--   Charging.antt, PowerLoss.antt and BeginReady.antt what was verified where they succeed, Clock.antt
--   what is asked of a clock, and Unselected.antt when no status shows the main source.
-- ChargerHold (firmware/board_control_test/ChargerHold.{h,cpp}): Hold.antt has `start`, `service`,
--   `stop` and `trip`, Guards.antt the proofs.
-- SupercapTransfer (firmware/board_control_test/SupercapTransfer.{h,cpp}): State.antt has the object
--   and its observers, Shutdown.antt the shutdown, the fault and the cutoff, Charge.antt the checks
--   while charging, Service.antt `start`, `service`, `stop`. `service` is cut into steps that go on to
--   the next or return. Core.antt shows what a shutdown leaves alone.
-- ExpanderInterrupts (firmware/board_control_test/ExpanderInterrupts.{h,cpp}): ExpanderInterrupts.antt
--   has every operation. A critical section is one step, and gets the levels and the time that it
--   reads; the runs of `onEdge` between two of them are lists, so every interleaving is covered.
-- StatusHeartbeat (firmware/board_control_test/StatusHeartbeat.{h,cpp}): StatusHeartbeat.antt has every
--   operation, on the model of BoardControl, whose Clock.antt says what is asked of a clock.
-- Common: shared names, machine words with their wrap-around, lists with native indices, and the
--   interface `Floats` that stands for the compiler's `float`.
--
-- Times are `uint32_t` milliseconds, and every difference of times is taken modulo 2^32, as in the
-- source. Floating point is a parameter: the proofs use no law of it.
--
-- Not modelled: the text of telemetry; `receive`, setup and the periods of the loop in
-- Application.cpp; the bench applications and their diagnostics; Arduino,
-- FreeRTOS and the USB stack, the Python client, and the hardware files.
pub mod Common
pub mod PowerManager
pub mod Protocol
pub mod UsbOutput
pub mod PowerDelivery
pub mod BoardHardware
pub mod Application
pub mod BoardControl
pub mod ChargerHold
pub mod SupercapTransfer
pub mod ExpanderInterrupts
pub mod StatusHeartbeat
