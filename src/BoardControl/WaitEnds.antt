-- ===== src/BoardControl/WaitEnds.antt =====
-- The rounds of `waitPg` are enough: more of them make no difference.
use tankervision_pdb.Common.{
  ℕ, zero, suc, Bool, true, false, not, Floats, ◌≡◌, refl, ◌⊎◌, inl, inr, ◌+◌, ◌*◌, ◌-◌, ◌%◌, ◌≤◌,
  leb, if◌then◌else◌, Option, none, some, arith, subst, sym, u32_mod, sub32, ◌||◌,
}
use tankervision_pdb.Common.Act.{Act, Keeps, Keeps-if, after, call, continue, ◌>>=◌}
use tankervision_pdb.BoardControl.Driver.{
  Rig, System, Method, Pg, ask, tell, now, fail, guard, pg_not_stable, main_lost_waiting,
}
use tankervision_pdb.BoardControl.Reading.{
  main_present, pg_good, read_status_impl, good_start, stable_for, wait_round, wait_loop, wait_pg,
  wait_rounds, pg_timeout_ms,
}
use tankervision_pdb.BoardControl.Steady.{
  guard-Steady, fail-Steady, wait_round-Steady, read_status_impl-Steady, good_start-Steady,
  stable_for-Steady, now-Steady,
}
use tankervision_pdb.BoardControl.Clock.{Clock, Since, Since-Steady}

-- From a state in which `P` holds the two methods do the same, or the second ends in a state in `D`.
record Agree {S A : Type 0} (P D : S → Type 0) (f g : Act S A) : Type 0 where
  agreed : (s : S) → P s → (f s ≡ g s) ⊎ D (after g s)

Agree-after :
    {S A B : Type 0} {Q D : S → Type 0} (f g : A → Act S B)
    → ((a : A) → Agree Q D (f a) (g a))
    → (o : Option A) (u : S) → Q u
    → (continue f o u ≡ continue g o u) ⊎ D (continue g o u).1
unfolding continue
Agree-after f g each none u q = inl refl
Agree-after f g each (some a) u q = (each a).agreed u q

module _ {S : Type 0} {P D : S → Type 0} where
  Agree-same : {A : Type 0} (f : Act S A) → Agree P D f f
  Agree-same f = record { agreed = λ s p. inl refl }

  Agree-if :
      {A : Type 0} (b : Bool) (m f g : Act S A)
      → Agree P D f g
      → Agree P D (if b then m else f) (if b then m else g)
  Agree-if true m f g h = Agree-same m
  Agree-if false m f g h = h

  Agree-bind :
      {A B : Type 0} {Q : S → Type 0} (first : Act S A) (f g : A → Act S B)
      → ((s : S) → P s → Q (after first s))
      → ((a : A) → Agree Q D (f a) (g a))
      → Agree P D (first >>= f) (first >>= g)
  unfolding ◌>>=◌
  Agree-bind first f g k each = record {
    agreed = λ s p. Agree-after f g each (first s).0 (first s).1 (k s p);
  }

module _ (F : Floats) (R : Rig) (C : Clock R) (origin : ℕ) where
  -- The wait has taken 2^32 ms.
  record Overrun (s : System R) : Type 0 where
    overrun : origin + u32_mod ≤ C.time s.world

  delayed : (n : ℕ) (s : System R) → Since C n s → Since C (n + 10) (after (tell R (R.delay 10)) s)
  unfolding tell
  delayed n s p = let d = C.at_delay 10 s.world in let q = p.since in record { since = omega arith }

  wait_round-Agree :
      (n : ℕ) (f g : Bool → ℕ → Method R (Unit {0}))
      → ((good : Bool) (since : ℕ) → Agree (Since C (n + 10)) Overrun (f good since) (g good since))
      → (pg : Pg) (require_main was_good : Bool) (since : ℕ)
      → Agree
          (Since C n)
          Overrun
          (wait_round F R f pg require_main was_good since)
          (wait_round F R g pg require_main was_good since)
  unfolding wait_round
  wait_round-Agree n f g each pg require_main was_good since =
      let S = Since-Steady C n in
      Agree-bind (read_status_impl F R) _ _ (read_status_impl-Steady S F).holds λ s.
        Agree-bind (guard R (not require_main || main_present F s) main_lost_waiting) _ _
          (guard-Steady S _ _).holds
          λ _.
            Agree-bind (good_start R (pg_good F pg s) was_good since) _ _
              (good_start-Steady S F _ _ _).holds
              λ since.
                Agree-bind (stable_for R (pg_good F pg s) since) _ _
                  (stable_for-Steady S F _ _).holds
                  λ done. Agree-if done _ _ _ (
                    Agree-bind (tell R (R.delay 10)) _ _ (delayed n)
                      λ _. each (pg_good F pg s) since)

  module _ (pg : Pg) (require_main : Bool) where
    abbrev rounds : ℕ → ℕ → Bool → ℕ → Method R (Unit {0})
    rounds n started was_good since =
        wait_loop F R n pg require_main pg_timeout_ms started was_good since

    late_or_over :
        (started t : ℕ)
        → started ≡ origin % u32_mod
        → origin + pg_timeout_ms ≤ t
        → (leb pg_timeout_ms (sub32 (t % u32_mod) started) ≡ true) ⊎ (origin + u32_mod ≤ t)
    late_or_over started t e h = ground arith

    -- Where the clock ends both, they are the same.
    ended :
        (b : Bool) (m f g : Method R (Unit {0})) (s : System R)
        → b ≡ true
        → (if b then m else f) s ≡ (if b then m else g) s
    ended true m f g s h = refl
    ended false m f g s h = cc

    body-Since :
        (was_good : Bool) (since : ℕ) (late : Bool)
        → Keeps (Since C (origin + u32_mod)) (
            if late
            then fail R (pg_not_stable pg pg_timeout_ms)
            else wait_round F R
                (λ _ _. fail R (pg_not_stable pg pg_timeout_ms))
                pg
                require_main
                was_good
                since)
    body-Since was_good since late =
        let S = Since-Steady C (origin + u32_mod) in
        Keeps-if late _ _ (fail-Steady S _ _)
          (wait_round-Steady S F _ (λ _ _. fail-Steady S _ _) pg require_main was_good since)

    -- The last round that is given ends by the clock, so nothing of the other rounds is done.
    last_round :
        (m : ℕ) (was_good : Bool) (since started : ℕ) (s : System R)
        → started ≡ origin % u32_mod
        → origin + pg_timeout_ms ≤ C.time s.world
        → (rounds (suc m) started was_good since s ≡ rounds 1 started was_good since s)
          ⊎ Overrun (after (rounds 1 started was_good since) s)
    unfolding wait_loop ◌>>=◌ continue ask call
    last_round m was_good since started s e h =
        let w = (R.board.millis s.world).1 in
        let late = leb pg_timeout_ms (sub32 (R.board.millis s.world).0 started) in
        let past = C.at_millis s.world in
        elim (late_or_over started (C.time w) e (omega arith)) [
          | inl q ↦ inl (
              ended late _ _ _ _ (
                subst (λ x. leb pg_timeout_ms (sub32 x started) ≡ true) (sym (C.counter s.world))
                  q))
          | inr o ↦
              (let p : Since C (origin + u32_mod) (record s { world = w }) = record { since = o } in
                let q = (body-Since was_good since late).holds _ p in
                inr (record { overrun = q.since }))
        ]

    rounds-Agree :
        (n m : ℕ) (was_good : Bool) (since started : ℕ)
        → n ≤ m
        → started ≡ origin % u32_mod
        → Agree
            (Since C (origin + (pg_timeout_ms - n * 10)))
            Overrun
            (rounds (suc m) started was_good since)
            (rounds (suc n) started was_good since)
    unfolding wait_loop
    rounds-Agree zero m was_good since started h e = record {
      agreed = λ s p. let q = p.since in last_round m was_good since started s e (omega arith);
    }
    rounds-Agree (suc n) zero was_good since started h e = absurd (omega arith)
    rounds-Agree (suc n) (suc m) was_good since started h e =
        Agree-bind (now R) _ _ (now-Steady (Since-Steady C _)).holds λ t.
          Agree-if (leb pg_timeout_ms (sub32 t started)) _ _ _ (
            wait_round-Agree (origin + (pg_timeout_ms - suc n * 10)) (rounds (suc m) started)
              (rounds (suc n) started)
              (λ good since. record {
                agreed = λ s p.
                    let q = p.since in
                    (rounds-Agree n m good since started (omega arith) e).agreed s
                      (record { since = omega arith });
              })
              pg require_main was_good since)

-- However many rounds from 201 on are allowed, the wait for a power good does the same, unless it
-- takes 2^32 ms.
pub wait_pg-rounds :
    (F : Floats) (R : Rig) (C : Clock R) (pg : Pg) (require_main : Bool) (n : ℕ) (s : System R)
    → wait_rounds ≤ n
    → let u = after (now R) s in
      let started = (R.board.millis s.world).0 in
      (wait_loop F R n pg require_main pg_timeout_ms started false 0 u
        ≡ wait_pg F R pg require_main s)
      ⊎ (C.time s.world + u32_mod ≤ C.time (after (wait_pg F R pg require_main) s).world)
unfolding wait_pg ◌>>=◌ continue ask call
wait_pg-rounds F R C pg require_main zero s h = absurd (omega arith)
wait_pg-rounds F R C pg require_main (suc m) s h =
    let w = (R.board.millis s.world).1 in
    let origin = C.time w in
    let past = C.at_millis s.world in
    elim ((rounds-Agree F R C origin pg require_main 200 m false 0 (R.board.millis s.world).0
        (omega arith) (C.counter s.world)).agreed
      (record s { world = w }) (record { since = omega arith })) [
        | inl same ↦ inl same
        | inr o ↦ inr (let q = o.overrun in omega arith)
      ]
