-- ===== src/StatusHeartbeat.antt =====
-- The heartbeat of the status LED (firmware/board_control_test/StatusHeartbeat.h and .cpp), over the
-- driver of the board.
mod Cadence
mod Tests
use tankervision_pdb.Common.{
  ℕ, Bool, true, false, not, Option, none, some, ltb, if◌then◌else◌, add32, sub32,
}
use tankervision_pdb.Common.Act.{after}
use tankervision_pdb.BoardControl.Driver.{Rig, System, DriverError, is_no_error}
use tankervision_pdb.BoardControl.Shutdown.{set_status_led}

abbrev pub half_period_ms : ℕ
half_period_ms = 500

-- The text of `error_`: empty, the driver's, or its own.
pub data HeartbeatError : Type 0 where
  no_error led_failed : HeartbeatError
  board_error : DriverError → HeartbeatError

pub record StatusHeartbeat : Type 0 where
  pub running : Bool
  pub level : Bool
  pub last_transition_at : ℕ
  pub transitions : ℕ
  pub error : HeartbeatError

abbrev pub is_clear : HeartbeatError → Bool
is_clear no_error = true
is_clear _ = false

abbrev pub is_done : Option (Unit {0}) → Bool
is_done none = false
is_done (some _) = true

module _ (R : Rig) where
  pub record Beating : Type 0 where
    pub heartbeat : StatusHeartbeat
    pub system : System R

  -- `board_.setStatusLed`
  unfoldable pub led : Bool → Beating → Bool × Beating
  led on s = let (o, t) = set_status_led R on s.system in (is_done o, record s { system = t })

  unfoldable pub now_ms : Beating → ℕ × Beating
  now_ms s =
      let (n, w) = R.board.millis s.system.world in
      (n, record s { system = record (s.system) { world = w } })

  unfoldable pub output_failed : Beating → Bool × Beating
  output_failed s =
      let e = s.system.driver.error in
      (
        false,
        record s {
          heartbeat = record (s.heartbeat) {
            running = false;
            error = if is_no_error e then led_failed else board_error e;
          };
        },
      )

  abbrev pub halt : Beating → Beating
  halt s = record s { heartbeat = record (s.heartbeat) { running = false } }

  unfoldable pub begin : Beating → Bool × Beating
  unfolding led now_ms output_failed
  begin s =
      let (ok, t) = led false (halt s) in
      let (n, u) = now_ms t in
      if ok
      then (
        true,
        record u {
          heartbeat = record {
            running = true;
            level = false;
            last_transition_at = n;
            transitions = 0;
            error = no_error;
          };
        },
      )
      else output_failed t

  unfoldable pub toggle : Beating → Bool × Beating
  unfolding led now_ms output_failed
  toggle s =
      let next = not s.heartbeat.level in
      let (ok, t) = led next s in
      let (n, u) = now_ms t in
      if ok
      then (
        true,
        record u {
          heartbeat = record (u.heartbeat) {
            level = next;
            transitions = add32 u.heartbeat.transitions 1;
            last_transition_at = n;
          };
        },
      )
      else output_failed t

  unfoldable pub service : Beating → Bool × Beating
  unfolding now_ms toggle
  service s =
      let (n, t) = now_ms s in
      let early = ltb (sub32 n s.heartbeat.last_transition_at) half_period_ms in
      if s.heartbeat.running
      then (if early then (true, t) else toggle t)
      else (is_clear s.heartbeat.error, s)

  unfoldable pub stop : Beating → Bool × Beating
  unfolding led output_failed
  stop s =
      let (ok, t) = led false (halt s) in
      let h = t.heartbeat in
      if ok
      then (
        true,
        record t {
          heartbeat = record h {
            transitions = if h.level then add32 h.transitions 1 else h.transitions;
            level = false;
            error = no_error;
          };
        },
      )
      else output_failed t
