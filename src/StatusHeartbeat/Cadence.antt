-- ===== src/StatusHeartbeat/Cadence.antt =====
-- How often the heartbeat can have toggled the LED.
use tankervision_pdb.Common.{
  ℕ, Bool, true, false, not, ◌≡◌, refl, ◌+◌, ◌*◌, ◌%◌, ◌≤◌, ◌||◌, ltb, if◌then◌else◌, if_rule, List,
  [], ◌∷◌, arith, u32_mod, add32, sub32,
}
use tankervision_pdb.BoardControl.Driver.{Rig, System, World}
use tankervision_pdb.BoardControl.Clock.{Clock, set_status_led-Since}
use tankervision_pdb.StatusHeartbeat.{
  Beating, no_error, half_period_ms, led, now_ms, output_failed, halt, begin, toggle, service, stop,
}

-- What the main loop does: it serves the heartbeat, stops it, or is busy for a time.
pub data Event : Type 0 where
  serve halted : Event
  busy : ℕ → Event

unfoldable pub run : (R : Rig) → List Event → Beating R → Beating R
run R [] s = s
run R (serve ∷ es) s = run R es (service R s).1
run R (halted ∷ es) s = run R es (stop R s).1
run R (busy n ∷ es) s =
    run R es (record s { system = record (s.system) { world = R.delay n s.system.world } })

-- The reading `n` is 500 ms after the reading at `b`, so at least that much time has passed.
elapsed_lem :
    (a b m l : ℕ)
    → b ≤ a
    → m ≡ a % u32_mod
    → l ≡ b % u32_mod
    → ltb (sub32 m l) half_period_ms ≡ false
    → b + 500 ≤ a
elapsed_lem a b m l h count stamp e = ground arith

-- `edge` is the time of the last transition while the heartbeat runs.
record Paced {R : Rig} (C : Clock R) (origin : ℕ) (s : Beating R) : Type 0 where
  edge : ℕ
  paced :
      500 * s.heartbeat.transitions + origin
      ≤ edge + (if s.heartbeat.running || s.heartbeat.level then 0 else 500)
  past : edge ≤ C.time s.system.world
  stamped : s.heartbeat.running ≡ true → s.heartbeat.last_transition_at ≡ edge % u32_mod
  parity : s.heartbeat.transitions % 2 ≡ (if s.heartbeat.level then 1 else 0)

module _ {R : Rig} (C : Clock R) where
  abbrev time_of : Beating R → ℕ
  time_of s = C.time s.system.world

  led-later : (on : Bool) (s : Beating R) → time_of s ≤ time_of (led R on s).1
  unfolding led
  led-later on s =
      ((set_status_led-Since C (C.time s.system.world) on).holds s.system
        (record { since = omega arith })).since

  now_ms-later : (s : Beating R) → time_of s ≤ time_of (now_ms R s).1
  unfolding now_ms
  now_ms-later s = C.at_millis s.system.world

  now_ms-counter : (s : Beating R) → (now_ms R s).0 ≡ time_of (now_ms R s).1 % u32_mod
  unfolding now_ms
  now_ms-counter s = C.counter s.system.world

  -- A later state of the driver.
  abbrev Paced-later :
      (n : ℕ) (s : Beating R) (t : System R)
      → time_of s ≤ C.time t.world
      → Paced C n s
      → Paced C n (record s { system = t })
  Paced-later n s t h p =
      let past = p.past in
      record {
        edge = p.edge;
        paced = p.paced;
        past = omega arith;
        stamped = p.stamped;
        parity = p.parity;
      }

  -- A fault stops the heartbeat.
  output_failed-Paced : (n : ℕ) (s : Beating R) → Paced C n s → Paced C n (output_failed R s).1
  unfolding output_failed
  output_failed-Paced n s p =
      let a = p.paced in
      record {
        edge = p.edge;
        paced = ground arith;
        past = p.past;
        stamped = λ e. cc;
        parity = p.parity;
      }

  halt-Paced : (n : ℕ) (s : Beating R) → Paced C n s → Paced C n (halt R s)
  halt-Paced n s p =
      let a = p.paced in
      record {
        edge = p.edge;
        paced = ground arith;
        past = p.past;
        stamped = λ e. cc;
        parity = p.parity;
      }

  toggled-Paced :
      (n m : ℕ) (w : World R) (s : Beating R) (p : Paced C n s)
      → s.heartbeat.running ≡ true
      → p.edge + 500 ≤ C.time w
      → m ≡ C.time w % u32_mod
      → Paced C n (record {
        heartbeat = record (s.heartbeat) {
          level = not s.heartbeat.level;
          transitions = add32 s.heartbeat.transitions 1;
          last_transition_at = m;
        };
        system = record (s.system) { world = w };
      })
  toggled-Paced n m w s p on h e =
      let a = p.paced in
      let b = p.parity in
      record {
        edge = C.time w;
        paced = ground arith;
        past = omega arith;
        stamped = λ _. e;
        parity = ground arith;
      }

  toggle-Paced :
      (n : ℕ) (s : Beating R) (p : Paced C n s)
      → s.heartbeat.running ≡ true
      → p.edge + 500 ≤ time_of s
      → Paced C n (toggle R s).1
  unfolding toggle
  toggle-Paced n s p on h =
      let next = not s.heartbeat.level in
      let t = (led R next s).1 in
      let later = led-later next s in
      let again = now_ms-later t in
      if_rule (λ (r : Bool × Beating R). Paced C n r.1) (led R next s).0
        (λ _.
          toggled-Paced n _ (now_ms R t).1.system.world t (Paced-later n s t.system later p) on
            (omega arith) (now_ms-counter t))
        (λ _. output_failed-Paced n t (Paced-later n s t.system later p))

  service-Paced : (n : ℕ) (s : Beating R) → Paced C n s → Paced C n (service R s).1
  unfolding service
  service-Paced n s p =
      let t = (now_ms R s).1 in
      let m = (now_ms R s).0 in
      let later = now_ms-later s in
      let count = now_ms-counter s in
      let q = Paced-later n s t.system later p in
      if_rule (λ (r : Bool × Beating R). Paced C n r.1) s.heartbeat.running
        (λ on.
          let stamp = p.stamped on in
          let past = p.past in
          if_rule (λ (r : Bool × Beating R). Paced C n r.1)
            (ltb (sub32 m s.heartbeat.last_transition_at) half_period_ms) (λ _. q)
            (λ late.
              toggle-Paced n t q on
                (elapsed_lem (time_of t) p.edge m _ (omega arith) count stamp late)))
        (λ _. p)

  stopped-Paced :
      (n : ℕ) (s : Beating R)
      → s.heartbeat.running ≡ false
      → Paced C n s
      → Paced C n (record s {
        heartbeat = record (s.heartbeat) {
          transitions =
              if s.heartbeat.level
              then add32 s.heartbeat.transitions 1
              else s.heartbeat.transitions;
          level = false;
          error = no_error;
        };
      })
  stopped-Paced n s off p =
      let a = p.paced in
      let b = p.parity in
      record {
        edge = p.edge;
        paced = ground arith;
        past = p.past;
        stamped = λ e. cc;
        parity = ground arith;
      }

  stop-Paced : (n : ℕ) (s : Beating R) → Paced C n s → Paced C n (stop R s).1
  unfolding stop
  stop-Paced n s p =
      let t = (led R false (halt R s)).1 in
      let q = Paced-later n (halt R s) t.system (led-later false (halt R s)) (halt-Paced n s p) in
      if_rule (λ (r : Bool × Beating R). Paced C n r.1) (led R false (halt R s)).0
        (λ _. stopped-Paced n t refl q) (λ _. output_failed-Paced n t q)

  run-Paced : (n : ℕ) (es : List Event) (s : Beating R) → Paced C n s → Paced C n (run R es s)
  unfolding run
  run-Paced n [] s p = p
  run-Paced n (serve ∷ es) s p = run-Paced n es _ (service-Paced n s p)
  run-Paced n (halted ∷ es) s p = run-Paced n es _ (stop-Paced n s p)
  run-Paced n (busy m ∷ es) s p =
      let d = C.at_delay m s.system.world in run-Paced n es _ (Paced-later n s _ (omega arith) p)

  begin-Paced : (s : Beating R) → (begin R s).0 ≡ true → Paced C (time_of s) (begin R s).1
  unfolding begin output_failed
  begin-Paced s h =
      let t = (led R false (halt R s)).1 in
      let later = led-later false (halt R s) in
      let again = now_ms-later t in
      if_rule (λ (r : Bool × Beating R). r.0 ≡ true → Paced C (time_of s) r.1)
        (led R false (halt R s)).0
        (λ _ _. record {
          edge = time_of (now_ms R t).1;
          paced = omega arith;
          past = omega arith;
          stamped = λ _. now_ms-counter t;
          parity = refl;
        })
        (λ _ e. cc) h

-- After a `begin` that succeeded, whatever is served, stopped and passed: 500 ms for each
-- transition, except one for the last stop, have passed since `begin` was called, however often the
-- 32-bit counter of the clock has wrapped around; and the LED's level is the parity of the
-- transitions.
pub run-cadence :
    (R : Rig) (C : Clock R) (es : List Event) (s : Beating R)
    → (begin R s).0 ≡ true
    → let t = run R es (begin R s).1 in
      (500 * t.heartbeat.transitions + C.time s.system.world ≤ C.time t.system.world + 500)
      × (t.heartbeat.transitions % 2 ≡ (if t.heartbeat.level then 1 else 0))
run-cadence R C es s h =
    let p = run-Paced C (C.time s.system.world) es (begin R s).1 (begin-Paced C s h) in
    let a = p.paced in let b = p.past in (ground arith, p.parity)
