-- ===== src/BoardHardware/Registers.antt =====
-- The transactions with the two expanders, and what is verified and forced through them.
use tankervision_pdb.Common.{
  ℕ, zero, suc, Bool, true, false, not, Floats, ◌+◌, ◌*◌, ◌^◌, ◌==◌, ◌&&◌, ◌||◌, if◌then◌else◌,
  List, [], ◌∷◌, u8, shr, low_bits, bit_xor,
}
use tankervision_pdb.Common.Act.{Act, pure, stop_here, call, gets, modify, ◌>>=◌, ◌>>◌}
use tankervision_pdb.BoardHardware.Bits.{any_high, lower_all, raise_all, ce}
use tankervision_pdb.BoardHardware.State.{
  Board, BoardHardware, System, Pair, ExpanderState, HardwareError, no_error, select_failed,
  short_read, write_failed, enable_mismatch, readback_mismatch, por_failed, not_low,
}

abbrev pub internal_address : ℕ
internal_address = 0x20

abbrev pub external_address : ℕ
external_address = 0x21

-- The unused pins of a control port are inputs.
abbrev pub unused_inputs : ℕ
unused_inputs = 0xe0

abbrev pub is_no_error : HardwareError → Bool
is_no_error no_error = true
is_no_error _ = false

module _ (F : Floats) (B : Board) where
  open B use {World}

  abbrev pub Method : Type 0 → Type 0
  Method = Act (System F B)

  -- A call of the world, with a result and without one.
  abbrev pub ask : {A : Type 0} → (World → A × World) → System F B → A × System F B
  ask f s = let (a, w) = f s.world in (a, record s { world = w })

  abbrev pub tell : (World → World) → System F B → System F B
  tell f s = record s { world = f s.world }

  abbrev pub set_hw : (BoardHardware F → BoardHardware F) → System F B → System F B
  set_hw f s = record s { hw = f s.hw }

  -- The first error stays.
  unfoldable pub note_error : HardwareError → System F B → System F B
  note_error e = set_hw (λ h. if is_no_error h.error then record h { error = e } else h)

  unfoldable pub fail : {A : Type 0} → HardwareError → Method A
  fail e s = stop_here (note_error e s)

  unfoldable pub guard : Bool → HardwareError → Method (Unit {0})
  guard b e = if b then pure tt else fail e

  -- `while (Wire.available()) Wire.read();`
  unfoldable pub drain_loop : ℕ → World → World
  drain_loop zero w = w
  drain_loop (suc n) w =
      let rest = drain_loop n (B.read_byte w).1 in if B.available w == 0 then w else rest

  unfoldable pub drain : System F B → System F B
  drain = tell (λ w. drain_loop (B.available w) w)

  unfoldable pub take_pair : Method Pair
  take_pair = do
    first ← call (ask B.read_byte)
    second ← call (ask B.read_byte)
    pure (record { low = u8 first; high_byte = u8 second })

  unfoldable pub short_answer : HardwareError → Method Pair
  short_answer e = do modify drain; fail e

  -- An answer of another length is thrown away.
  unfoldable pub read_answer : ℕ → ℕ → ℕ → Method Pair
  read_answer address reg count = do
    ready ← gets (λ s. B.available s.world)
    if count == 2 && ready == 2 then take_pair else short_answer (short_read address reg count)

  unfoldable pub read_pair : ℕ → ℕ → Method Pair
  read_pair address reg = do
    code ← call (ask (B.transmit address (reg ∷ []) false))
    guard (code == 0) (select_failed address reg code)
    count ← call (ask (B.request_from address 2))
    read_answer address reg count

  unfoldable pub write_register : ℕ → ℕ → ℕ → Method (Unit {0})
  write_register address reg value = do
    code ← call (ask (B.transmit address (reg ∷ value ∷ []) true))
    guard (code == 0) (write_failed address reg code)

  -- A whole state of an expander. The caller keeps the old bytes where this fails.
  unfoldable pub read_expander : ℕ → Method ExpanderState
  read_expander address = do
    input ← read_pair address 0
    output ← read_pair address 2
    polarity ← read_pair address 4
    config ← read_pair address 6
    now ← call (ask B.millis)
    pure (record {
      valid = true;
      at_ms = now;
      input = input;
      output = output;
      polarity = polarity;
      config = config;
      physical_inputs =
          bit_xor input.low polarity.low + bit_xor input.high_byte polarity.high_byte * 2 ^ 8;
    })

  -- The configuration in which the five enables are outputs with these values.
  unfoldable pub is_operational : ℕ → ExpanderState → Bool
  is_operational value s =
      s.config.low == 0xff
      && s.config.high_byte == unused_inputs
      && s.polarity.low == 0
      && s.polarity.high_byte == 0
      && s.output.low == 0
      && s.output.high_byte == value
      && low_bits (shr s.physical_inputs 8) 5 == low_bits value 5

  unfoldable pub verify_operational : Method (Unit {0})
  verify_operational = do
    internal ← read_expander internal_address
    external ← read_expander external_address
    hw ← gets (λ s. s.hw)
    guard (is_operational hw.expected_internal internal) (enable_mismatch internal_address)
    guard (is_operational hw.expected_external external) (enable_mismatch external_address)

  abbrev pub expect : ℕ → ℕ → System F B → System F B
  expect address value = set_hw (λ h.
      if address == internal_address
      then record h { expected_internal = value }
      else record h { expected_external = value })

  unfoldable pub write_control : ℕ → ℕ → Method (Unit {0})
  write_control address value = do
    write_register address 3 value
    modify (expect address value)
    state ← read_expander address
    guard (is_operational value state) (readback_mismatch address)

  unfoldable pub verify_control_low : List ℕ → Method (Unit {0})
  verify_control_low mask = do
    outputs ← read_pair internal_address 2
    polarity ← read_pair internal_address 4
    inputs ← read_pair internal_address 0
    modify (set_hw (λ h. record h { expected_internal = outputs.high_byte }))
    guard
        (not (
          any_high outputs.high_byte mask
          || any_high (bit_xor inputs.high_byte polarity.high_byte) mask))
        (not_low mask)

  -- CE goes low and is driven, whatever else the latch holds.
  unfoldable pub force_ce_low : Method (Unit {0})
  force_ce_low = do
    outputs ← read_pair internal_address 2
    write_register internal_address 3 (lower_all outputs.high_byte (ce ∷ []))
    config ← read_pair internal_address 6
    write_register internal_address 7
        (lower_all (raise_all config.high_byte (5 ∷ 6 ∷ 7 ∷ [])) (ce ∷ []))
    verify_control_low (ce ∷ [])
    now ← call (ask B.millis)
    modify (set_hw (λ h. record h { ce_off_at = now }))

  unfoldable pub is_por : ExpanderState → Bool
  is_por s =
      s.output.low == 0xff
      && s.output.high_byte == 0xff
      && s.config.low == 0xff
      && s.config.high_byte == 0xff
      && s.polarity.low == 0
      && s.polarity.high_byte == 0
      && low_bits (shr s.physical_inputs 8) 5 == 0

  unfoldable pub verify_por : ℕ → Method (Unit {0})
  verify_por address = do state ← read_expander address; guard (is_por state) (por_failed address)
