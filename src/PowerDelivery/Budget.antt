-- ===== src/PowerDelivery/Budget.antt =====
-- The methods of `PowerDelivery`.
use tankervision_pdb.Common.{
  ℕ, Bool, true, false, not, ◌+◌, ◌*◌, ◌/◌, ◌^◌, ◌==◌, ◌&&◌, ◌||◌, leb, ltb, if◌then◌else◌, List,
  [], ◌∷◌, ◌++◌, replicate, low_bits, get_or, sub32, Option, none, some,
}
use tankervision_pdb.PowerDelivery.Reading.{
  PdReading, sensible, object_position, operating_ma, requested_ma, le, put,
}
use tankervision_pdb.PowerDelivery.Bus.{
  Wire, PdResult, idle, running, succeeded, failed, no_error, bus_begin_failed, source_unverified,
  budget_timeout, PowerDelivery, System, M, continue, pure, asks, read, write,
}

abbrev pub is_running : PdResult → Bool
is_running running = true
is_running _ = false

abbrev pub is_succeeded : PdResult → Bool
is_succeeded succeeded = true
is_succeeded _ = false

-- The contract is the one that the budget was started on, at the requested current.
unfoldable pub matches : PowerDelivery → PdReading → Bool
matches d r =
    sensible r
    && r.pdo == d.original_pdo
    && object_position r == d.original_object
    && leb requested_ma (operating_ma r)

-- The sink request: a signature, two fixed objects of 5 V and 20 V, and padding.
abbrev pub payload : List ℕ
payload =
    0x50 ∷ 0x4b ∷ 0x4e ∷ 0x53 ∷ []
    ++ put (2 ^ 28 + 100 * 2 ^ 10 + 90)
    ++ put (400 * 2 ^ 10 + requested_ma / 10)
    ++ replicate 20 0

module _ (W : Wire) where
  infixl 5 ◌>>=◌
  abbrev ◌>>=◌ : {A B : Type 0} → M W A → (A → M W B) → M W B
  ◌>>=◌ m f s = continue W f (m s)

  abbrev pub update : (PowerDelivery → PowerDelivery) → System W → System W
  update f s = record s { pd = f s.pd }

  unfoldable pub start_bus : System W → Bool × System W
  start_bus s =
      let (done, w) = W.begin_bus s.world in
      let d = record (s.pd) { begun = done } in
      (done, record { pd = if done then d else record d { error = bus_begin_failed }; world = w })

  -- The registers in the order in which `poll` reads them, and the reading that they make.
  unfoldable pub sample : M W PdReading
  sample = do
    mode ← read W 0x0000 1
    silicon ← read W 0x0002 2
    versions ← read W 0x0010 16
    status ← read W 0x1008 4
    type_c ← read W 0x100c 1
    pdo ← read W 0x1010 4
    rdo ← read W 0x1014 4
    interrupt ← read W 0x0006 1
    response ← read W 0x1400 4
    now ← asks W W.millis
    pure W (record {
      valid = true;
      at_ms = now;
      status = le status;
      pdo = le pdo;
      rdo = le rdo;
      response = le response;
      mode = get_or mode 0 0;
      type_c = get_or type_c 0 0;
      interrupt = get_or interrupt 0 0;
      versions = versions;
      silicon = get_or silicon 0 0 + get_or silicon 1 0 * 2 ^ 8;
    })

  -- What `poll` does with a sample: only a whole one replaces the reading.
  unfoldable pub keep_sample : Option PdReading × System W → Bool × System W
  keep_sample (none, s) = (false, s)
  keep_sample (some r, s) = (true, update (λ d. record d { reading = r }) s)

  unfoldable pub poll : Bool → System W → Bool × System W
  poll usb_main_present s =
      let t = update (λ d. record d { reading = record (d.reading) { valid = false } }) s in
      if not t.pd.begun || not usb_main_present then (false, t) else keep_sample (sample t)

  unfoldable pub refuse_budget : System W → Bool × System W
  refuse_budget s = (false, update (λ d. record d { error = source_unverified }) s)

  -- The source is verified: the contract is kept, and a request is written if it is not yet the one
  -- wanted.
  unfoldable pub begin_budget : System W → Bool × System W
  begin_budget s =
      let r = s.pd.reading in
      let d = record (s.pd) { original_pdo = r.pdo; original_object = object_position r } in
      let writes = not (matches d r) in
      let (now, w) = W.millis s.world in
      (
        true,
        record {
          pd = record d {
            wrote = writes;
            response_ok = not writes;
            stable = false;
            stage = if writes then 0 else 2;
            start_at = now;
            sample_at = sub32 now 25;
            result = running;
          };
          world = w;
        },
      )

  unfoldable pub start_budget : System W → Bool × System W
  start_budget s =
      let t = update (λ d. record d { error = no_error; result = failed }) s in
      if not t.pd.begun || not t.pd.reading.valid
      then refuse_budget t
      else (let (now, w) = W.millis t.world in
          let u = record t { world = w } in
          if ltb 1500 (sub32 now u.pd.reading.at_ms) || not (sensible u.pd.reading)
          then refuse_budget u
          else begin_budget u)

  -- What `service` does after a write: the next stage, or failure.
  unfoldable pub note_write : ℕ → Option (Unit {0}) × System W → System W
  note_write next (none, t) = update (λ d. record d { result = failed }) t
  note_write next (some _, t) = update (λ d. record d { stage = next }) t

  abbrev pub write_stage : ℕ → List ℕ → ℕ → System W → System W
  write_stage address bytes next s = note_write next (write W address bytes s)

  -- The contract matches: it has to stay so for 500 ms. The clock is read again for each use.
  unfoldable pub hold : System W → System W
  hold s =
      let (first, w) = W.millis s.world in
      let t =
        if s.pd.stable
        then s
        else record { pd = record (s.pd) { stable = true; stable_at = first }; world = w } in
      let (now, w') = W.millis t.world in
      let u = record t { world = w' } in
      if leb 500 (sub32 now u.pd.stable_at)
      then update (λ d. record d { result = succeeded }) u
      else u

  unfoldable pub judge : System W → System W
  judge s =
      let t =
        if low_bits s.pd.reading.response 8 == 2
        then update (λ d. record d { response_ok = true }) s
        else s in
      if t.pd.response_ok && matches t.pd t.pd.reading
      then hold t
      else update (λ d. record d { stable = false }) t

  unfoldable pub sample_stage : ℕ → System W → System W
  sample_stage now s =
      if ltb (sub32 now s.pd.sample_at) 25
      then s
      else (let (done, t) = poll true (update (λ d. record d { sample_at = now }) s) in
          if done then judge t else update (λ d. record d { result = failed }) t)

  unfoldable pub run_stage : ℕ → System W → System W
  run_stage now s =
      if leb 5000 (sub32 now s.pd.start_at)
      then update (λ d. record d { error = budget_timeout; result = failed }) s
      else if s.pd.stage == 0
      then write_stage 0x1800 payload 1 s
      else if s.pd.stage == 1
      then write_stage 0x1005 (3 ∷ []) 2 s
      else sample_stage now s

  unfoldable pub service : System W → System W
  service s =
      if not (is_running s.pd.result)
      then s
      else (let (now, w) = W.millis s.world in run_stage now (record s { world = w }))

  unfoldable pub cancel : System W → System W
  cancel s = update (λ d. record d { result = idle }) s

  -- The clock is read only where the first two tests pass.
  unfoldable pub budget_valid : System W → Bool × System W
  budget_valid s =
      if is_succeeded s.pd.result && s.pd.reading.valid
      then (let (now, w) = W.millis s.world in
          (
            leb (sub32 now s.pd.reading.at_ms) 1500 && matches s.pd s.pd.reading,
            record s { world = w },
          ))
      else (false, s)
