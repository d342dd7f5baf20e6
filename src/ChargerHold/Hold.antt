-- ===== src/ChargerHold/Hold.antt =====
-- The methods of `ChargerHold`.
use tankervision_pdb.Common.{
  ℕ, Bool, true, false, not, Floats, ◌+◌, ◌%◌, ◌^◌, ◌==◌, ◌&&◌, ◌||◌, leb, ltb, if◌then◌else◌, List,
  [], ◌∷◌, Option, none, some, sub32, low_bits,
}
use tankervision_pdb.BoardControl.{Status, BoardControl}

pub data HoldState : Type 0 where
  stopped starting holding fault : HoldState

-- The texts of `error_`; `of_board` is the driver's own.
pub data HoldError : Type 0 where
  no_error of_board overvoltage guard_failed qualification_timeout regulation_failed : HoldError

abbrev pub is_fault : HoldState → Bool
is_fault fault = true
is_fault _ = false

abbrev pub is_starting : HoldState → Bool
is_starting starting = true
is_starting _ = false

abbrev pub active : HoldState → Bool
active starting = true
active holding = true
active _ = false

abbrev pub poll_ms : ℕ
poll_ms = 20

abbrev pub startup_ms : ℕ
startup_ms = 2000

abbrev pub stable_ms : ℕ
stable_ms = 100

-- Boost, CE and the fixed TS divider.
abbrev pub outputs : ℕ
outputs = 0x0b

module _ (F : Floats) (B : BoardControl F) where
  open F use {Float, lit, lt, is_finite}
  open B use {World}

  abbrev pub zero_v : Float
  zero_v = lit 0 0

  pub record ChargerHold : Type 0 where
    pub state : HoldState
    pub error : HoldError
    pub cleanup_ok : Bool
    pub qualifying : Bool
    pub started_at : ℕ
    pub last_sample_at : ℕ
    pub stable_at : ℕ
    pub samples : ℕ
    pub max_gap_ms : ℕ
    pub voltage : Float
    pub min_v : Float
    pub max_v : Float

  pub record System : Type 0 where
    pub hold : ChargerHold
    pub world : World

  abbrev pub update : (ChargerHold → ChargerHold) → System → System
  update f s = record s { hold = f s.hold }

  unfoldable pub trip : HoldError → System → Bool × System
  trip e s =
      let (ok, w) = B.all_off s.world in
      (
        false,
        record { hold = record (s.hold) { error = e; state = fault; cleanup_ok = ok }; world = w },
      )

  -- The guard on the sources and on the enables.
  unfoldable pub guarded : Status F → Bool
  guarded t =
      t.main_selected
      && (t.usb_pg || t.dc_pg)
      && t.ss_buck_pg
      && t.boost_pg
      && t.charger_pg
      && t.internal_outputs == outputs
      && low_bits t.internal_output_inputs 5 == outputs
      && t.external_outputs == 0
      && low_bits t.external_output_inputs 5 == 0

  unfoldable pub regulated : Status F → Bool
  regulated t =
      F.le (lit 198 1) t.vcap_v
      && F.le t.vcap_v (lit 214 1)
      && t.charger_stat
      && not t.backup_pg
      && not t.buck_pg
      && not t.ext_vbus_pg
      && not t.ext_5v_vbus_pg
      && not t.ext_ss_pg
      && not t.ext_5v_ss_pg

  -- A regulated sample while starting: after 100 ms of them the state is `holding`.
  unfoldable pub qualify : ℕ → Status F → ChargerHold → ChargerHold
  qualify now t h =
      let g = if h.qualifying then h else record h { stable_at = now; qualifying = true } in
      if leb stable_ms (sub32 now g.stable_at)
      then record g { state = holding; min_v = t.vcap_v; max_v = t.vcap_v }
      else g

  unfoldable pub note_regulated : ℕ → Status F → System → System
  note_regulated now t s =
      if regulated t
      then update (qualify now t) s
      else update (λ h. record h { qualifying = false }) s

  unfoldable pub starting_step : ℕ → Status F → System → Bool × System
  starting_step now t s =
      let u = note_regulated now t s in
      if is_starting u.hold.state && leb startup_ms (sub32 now u.hold.started_at)
      then trip qualification_timeout u
      else (true, u)

  unfoldable pub holding_step : Status F → System → Bool × System
  holding_step t s = if not (regulated t) then trip regulation_failed s else (
    true,
    update
        (λ h. record h {
          min_v = if lt t.vcap_v h.min_v then t.vcap_v else h.min_v;
          max_v = if lt h.max_v t.vcap_v then t.vcap_v else h.max_v;
        })
        s,
  )

  unfoldable pub judge : ℕ → Status F → System → Bool × System
  judge now t s =
      let u = update (λ h. record h { voltage = t.vcap_v; samples = (h.samples + 1) % 2 ^ 32 }) s in
      if not (is_finite t.vcap_v) || lt (lit 215 1) t.vcap_v
      then trip overvoltage u
      else if not (guarded t)
      then trip guard_failed u
      else if is_starting u.hold.state
      then starting_step now t u
      else holding_step t u

  unfoldable pub judge_answer : ℕ → Option (Status F) → System → Bool × System
  judge_answer now none s = trip of_board s
  judge_answer now (some t) s = judge now t s

  unfoldable pub take_sample : ℕ → System → Bool × System
  take_sample now s =
      let gap = sub32 now s.hold.last_sample_at in
      let note = not (s.hold.samples == 0) && ltb s.hold.max_gap_ms gap in
      let h = record (s.hold) {
        max_gap_ms = if note then gap else s.hold.max_gap_ms;
        last_sample_at = now;
      } in
      let (answer, w) = B.read_status s.world in
      judge_answer now answer (record { hold = h; world = w })

  unfoldable pub service : System → Bool × System
  service s =
      if not (active s.hold.state)
      then (not (is_fault s.hold.state), s)
      else (let (now, w) = B.millis s.world in
          let t = record s { world = w } in
          if ltb (sub32 now s.hold.last_sample_at) poll_ms then (true, t) else take_sample now t)

  -- Calls joined by `||` on their failures: the first failure skips the rest.
  abbrev pub in_turn : List (World → Bool × World) → World → Bool × World
  in_turn [] w = (true, w)
  in_turn (f ∷ fs) w =
      let (ok, w') = f w in let rest = in_turn fs w' in if ok then rest else (false, w')

  unfoldable pub begin_hold : System → Bool × System
  begin_hold s =
      let (now, w) = B.millis s.world in
      service (record {
        hold = record (s.hold) {
          state = starting;
          started_at = now;
          last_sample_at = sub32 now poll_ms;
        };
        world = w;
      })

  -- The calls before the start, in the source's order.
  unfoldable pub setup : World → Bool × World
  setup w =
      in_turn
        (B.all_off
          ∷ B.set_backup false
          ∷ B.set_charge_high_current false
          ∷ B.set_thermistor_override true
          ∷ B.set_boost true
          ∷ B.set_charger true
          ∷ [])
        w

  abbrev pub cleared : ChargerHold → ChargerHold
  cleared h = record h {
    error = no_error;
    samples = 0;
    max_gap_ms = 0;
    voltage = zero_v;
    min_v = zero_v;
    max_v = zero_v;
    qualifying = false;
    cleanup_ok = true;
  }

  unfoldable pub start : System → Bool × System
  start s =
      if active s.hold.state
      then (true, s)
      else (let (ok, w) = setup s.world in
          let t = update cleared (record s { world = w }) in
          if ok then begin_hold t else trip of_board t)

  unfoldable pub stop : System → Bool × System
  stop s =
      let (ok, w) = B.all_off s.world in
      (
        ok,
        record {
          hold = record (s.hold) {
            state = if ok then stopped else fault;
            cleanup_ok = ok;
            error = if ok then no_error else of_board;
          };
          world = w;
        },
      )
