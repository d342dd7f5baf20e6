-- ===== src/PowerDelivery/Bus.antt =====
-- The I2C bus of the PD controller and the clock, as an interface, and the transactions on it.
-- `TwoWire` and `millis` are not the repository's: `World` is whatever they depend on.
use tankervision_pdb.Common.{
  ℕ, zero, suc, Bool, true, false, ◌==◌, if◌then◌else◌, List, [], ◌∷◌, length, Option, none, some,
  u8, shr,
}
use tankervision_pdb.PowerDelivery.Reading.{PdReading}

pub record Wire : Type 1 where
  pub World : Type 0
  pub begin_bus : World → Bool × World
  pub begin_transmission : ℕ → World → World
  pub write_byte : ℕ → World → World
  pub write_bytes : List ℕ → World → ℕ × World
  pub end_transmission : Bool → World → ℕ × World
  pub request_from : ℕ → ℕ → World → ℕ × World
  pub available : World → ℕ
  pub read_byte : World → Option ℕ × World
  pub millis : World → ℕ × World

pub data PdResult : Type 0 where
  idle running succeeded failed : PdResult

-- The texts of `error_`.
pub data PdError : Type 0 where
  no_error bus_begin_failed i2c_pointer_failed i2c_read_failed i2c_short_read : PdError
  i2c_buffer_failed i2c_write_failed source_unverified budget_timeout : PdError

pub record PowerDelivery : Type 0 where
  pub reading : PdReading
  pub begun : Bool
  pub wrote : Bool
  pub response_ok : Bool
  pub stable : Bool
  pub stage : ℕ
  pub start_at : ℕ
  pub sample_at : ℕ
  pub stable_at : ℕ
  pub original_pdo : ℕ
  pub original_object : ℕ
  pub result : PdResult
  pub error : PdError

module _ (W : Wire) where
  open W use {World}

  -- The object and what it talks to.
  pub record System : Type 0 where
    pub pd : PowerDelivery
    pub world : World

  -- A method that returns early with `false` ends in `none`.
  abbrev pub M : Type 0 → Type 0
  M A = System → Option A × System

  -- An early return skips what follows.
  unfoldable pub continue : {A B : Type 0} → (A → M B) → Option A × System → Option B × System
  continue f (none, t) = (none, t)
  continue f (some a, t) = f a t

  infixl 5 ◌>>=◌ ◌>>◌
  abbrev pub ◌>>=◌ : {A B : Type 0} → M A → (A → M B) → M B
  ◌>>=◌ m f s = continue f (m s)

  abbrev pub ◌>>◌ : {B : Type 0} → M (Unit {0}) → M B → M B
  m >> k = m >>= λ _. k

  abbrev pub pure : {A : Type 0} → A → M A
  pure a s = (some a, s)

  -- A change of the world that returns nothing, and one that returns a value.
  abbrev pub does : (World → World) → M (Unit {0})
  does f s = (some tt, record s { world = f s.world })

  abbrev pub asks : {A : Type 0} → (World → A × World) → M A
  asks f s = let (a, w) = f s.world in (some a, record s { world = w })

  unfoldable pub fail : {A : Type 0} → PdError → M A
  fail e s = (none, record s { pd = record (s.pd) { error = e } })

  abbrev pub guard : Bool → PdError → M (Unit {0})
  guard b e = if b then pure tt else fail e

  -- `while (bus_.available()) bus_.read();`: each read takes one byte off.
  unfoldable pub drain_loop : ℕ → World → World
  drain_loop zero w = w
  drain_loop (suc n) w =
      let rest = drain_loop n (W.read_byte w).1 in if W.available w == 0 then w else rest

  unfoldable pub drain : World → World
  drain w = drain_loop (W.available w) w

  -- A byte is -1, here `none`, where the driver has no more.
  unfoldable pub keep_byte : M (List ℕ) → Option ℕ → M (List ℕ)
  unfolding fail
  keep_byte rest none = fail i2c_short_read
  keep_byte rest (some b) = do bs ← rest; pure (u8 b ∷ bs)

  unfoldable pub read_loop : ℕ → M (List ℕ)
  unfolding keep_byte
  read_loop zero = pure []
  read_loop (suc n) = let rest = read_loop n in do value ← asks W.read_byte; keep_byte rest value

  unfoldable pub point_at : ℕ → M (Unit {0})
  point_at address = do
    does (W.begin_transmission 0x08)
    does (W.write_byte (u8 address))
    does (W.write_byte (u8 (shr address 8)))

  -- A short answer is thrown away.
  unfoldable pub read_counted : ℕ → ℕ → M (List ℕ)
  unfolding read_loop fail drain
  read_counted n count =
      if count == n then read_loop n else (does drain >>= λ _. fail i2c_read_failed)

  unfoldable pub read : ℕ → ℕ → M (List ℕ)
  unfolding point_at fail read_counted
  read address n = do
    point_at address
    code ← asks (W.end_transmission false)
    guard (code == 0) i2c_pointer_failed
    count ← asks (W.request_from 0x08 n)
    read_counted n count

  unfoldable pub write : ℕ → List ℕ → M (Unit {0})
  unfolding point_at fail
  write address bytes = do
    point_at address
    count ← asks (W.write_bytes bytes)
    guard (count == length bytes) i2c_buffer_failed
    code ← asks (W.end_transmission true)
    guard (code == 0) i2c_write_failed
