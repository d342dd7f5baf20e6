-- ===== src/ChargerHold/Guards.antt =====
-- What a sample has to show for the charger to stay on, and what a failure does.
use tankervision_pdb.Common.{
  ℕ, Bool, true, false, Floats, ◌≡◌, ◌⊎◌, inl, inr, refl, ap, if◌then◌else◌, ◌≤◌, ◌+◌, ◌%◌, ◌^◌,
  arith, Option, none, some, sub32, Bool-cases,
}
use tankervision_pdb.BoardControl.{Status, BoardControl}
use tankervision_pdb.ChargerHold.Hold.{
  stopped, starting, holding, fault, HoldError, active, poll_ms, System, trip, guarded, regulated,
  no_error, begin_hold, setup, cleared, qualify, note_regulated, update, overvoltage, guard_failed,
  qualification_timeout, regulation_failed, of_board, starting_step, holding_step, judge,
  judge_answer, take_sample, service, stop, start,
}

module _ (F : Floats) (B : BoardControl F) where
  open F use {lit, lt, is_finite}
  open B use {World}

  -- The object has failed, and its last call was the one that turns everything off.
  pub record Tripped (r : Bool × System F B) : Type 0 where
    result : r.0 ≡ false
    state : r.1.hold.state ≡ fault
    before : World
    last_call : (r.1.hold.cleanup_ok, r.1.world) ≡ B.all_off before

  trip-Tripped : (e : HoldError) (s : System F B) → Tripped (trip F B e s)
  unfolding trip
  trip-Tripped e s = record { result = refl; state = refl; before = s.world; last_call = refl }

  -- A sample under which charging goes on.
  pub record Passed (t : Status F) (r : Bool × System F B) : Type 0 where
    result : r.0 ≡ true
    finite : is_finite t.vcap_v ≡ true
    below_trip : lt (lit 215 1) t.vcap_v ≡ false
    guards : guarded F B t ≡ true
    still_active : active r.1.hold.state ≡ true
    held : (r.1.hold.state ≡ starting) ⊎ ((r.1.hold.state ≡ holding) × (regulated F B t ≡ true))

  -- The driver answered with a status, and it has passed.
  pub record Sampled (answer : Option (Status F)) (r : Bool × System F B) : Type 0 where
    status : Status F
    answered : answer ≡ some status
    passed : Passed status r

  abbrev Judged : Status F → Bool × System F B → Type 0
  Judged t r = Passed t r ⊎ Tripped r

  record Going (t : Status F) (r : Bool × System F B) : Type 0 where
    result : r.0 ≡ true
    still_active : active r.1.hold.state ≡ true
    held : (r.1.hold.state ≡ starting) ⊎ ((r.1.hold.state ≡ holding) × (regulated F B t ≡ true))

  note_regulated_lem :
      (now : ℕ) (t : Status F) (s : System F B)
      → s.hold.state ≡ starting
      → ((note_regulated F B now t s).hold.state ≡ starting)
        ⊎ (((note_regulated F B now t s).hold.state ≡ holding) × (regulated F B t ≡ true))
  unfolding note_regulated qualify
  note_regulated_lem now t s e = ground arith

  starting_step_lem :
      (now : ℕ) (t : Status F) (s : System F B)
      → s.hold.state ≡ starting
      → Going t (starting_step F B now t s) ⊎ Tripped (starting_step F B now t s)
  unfolding starting_step
  starting_step_lem now t s e =
      let u = note_regulated F B now t s in
      ground (arith, note_regulated_lem now t s e, trip-Tripped qualification_timeout u)

  holding_step_lem :
      (t : Status F) (s : System F B)
      → s.hold.state ≡ holding
      → Going t (holding_step F B t s) ⊎ Tripped (holding_step F B t s)
  unfolding holding_step
  holding_step_lem t s e = ground (arith, trip-Tripped regulation_failed s)

  noted : Status F → System F B → System F B
  noted t s =
      update F B (λ h. record h { voltage = t.vcap_v; samples = (h.samples + 1) % 2 ^ 32 }) s

  judge_lem :
      (now : ℕ) (t : Status F) (s : System F B)
      → active s.hold.state ≡ true
      → Judged t (judge F B now t s)
  unfolding judge noted
  judge_lem now t s a =
      let u = noted t s in
      ground (
        arith,
        trip-Tripped overvoltage u,
        trip-Tripped guard_failed u,
        starting_step_lem now t u,
        holding_step_lem t u,
      )

  judge_answer_lem :
      (now : ℕ) (o : Option (Status F)) (s : System F B)
      → active s.hold.state ≡ true
      → Sampled o (judge_answer F B now o s) ⊎ Tripped (judge_answer F B now o s)
  unfolding judge_answer
  judge_answer_lem now none s a = inr (trip-Tripped of_board s)
  judge_answer_lem now (some t) s a = elim (judge_lem now t s a) [
    | inl p ↦ inl (record { status = t; answered = refl; passed = p })
    | inr q ↦ inr q
  ]

  take_sample_lem :
      (now : ℕ) (s : System F B)
      → active s.hold.state ≡ true
      → Sampled (B.read_status s.world).0 (take_sample F B now s) ⊎ Tripped (take_sample F B now s)
  unfolding take_sample
  take_sample_lem now s a = judge_answer_lem now (B.read_status s.world).0 _ a

  -- Twenty milliseconds or more after the last sample, an active hold reads the status: either it
  -- answers and the reading is finite, below the trip voltage and within the guards, the hold stays
  -- active and `holding` only if the reading is regulated, or the hold fails and turns everything off.
  pub service-Sampled :
      (s : System F B)
      → active s.hold.state ≡ true
      → poll_ms ≤ sub32 (B.millis s.world).0 s.hold.last_sample_at
      → Sampled (B.read_status (B.millis s.world).1).0 (service F B s) ⊎ Tripped (service F B s)
  unfolding service
  service-Sampled s a h =
      let (now, w) = B.millis s.world in
      ground (arith, take_sample_lem now (record s { world = w }) a)

  service-active :
      (s : System F B)
      → active s.hold.state ≡ true
      → (((service F B s).0 ≡ true) × (active (service F B s).1.hold.state ≡ true))
        ⊎ Tripped (service F B s)
  unfolding service
  service-active s a =
      let (now, w) = B.millis s.world in
      elim (take_sample_lem now (record s { world = w }) a) [
        | inl p ↦ (let r = p.passed.result in let b = p.passed.still_active in ground arith)
        | inr q ↦ ground arith
      ]

  begin_hold-active :
      (s : System F B)
      → (((begin_hold F B s).0 ≡ true) × (active (begin_hold F B s).1.hold.state ≡ true))
        ⊎ Tripped (begin_hold F B s)
  unfolding begin_hold
  begin_hold-active s = service-active _ refl

  -- `start` ends with success and an active hold, or with failure after everything was turned off.
  pub start-active :
      (s : System F B)
      → (((start F B s).0 ≡ true) × (active (start F B s).1.hold.state ≡ true))
        ⊎ Tripped (start F B s)
  unfolding start
  start-active s =
      let t = update F B (cleared F B) (record s { world = (setup F B s.world).1 }) in
      ground (arith, begin_hold-active t, trip-Tripped of_board t)

  -- `stop` turns everything off: it ends as stopped and without an error where that worked, and as
  -- failed where it did not.
  pub stop_lem :
      (s : System F B)
      → (((stop F B s).0 ≡ true)
          × ((stop F B s).1.hold.state ≡ stopped)
          × ((stop F B s).1.hold.error ≡ no_error)
          × ((stop F B s).1.world ≡ (B.all_off s.world).1))
        ⊎ Tripped (stop F B s)
  unfolding stop
  stop_lem s = elim (Bool-cases (B.all_off s.world).0) [
    | inl e ↦ ground arith
    | inr e ↦ inr (record {
      result = e;
      state = ap (λ b. if b then stopped else fault) e;
      before = s.world;
      last_call = refl;
    })
  ]
