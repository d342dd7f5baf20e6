-- ===== src/PowerDelivery/Reading.antt =====
-- `PdReading`, the decoding of its words, and the tests on it. A mask of k low ones is `% 2 ^ k`,
-- and bytes that do not overlap are joined by `+`.
use tankervision_pdb.Common.{
  ℕ, Bool, false, not, ◌+◌, ◌*◌, ◌^◌, ◌==◌, ◌&&◌, ◌||◌, leb, List, [], ◌∷◌, replicate, shr,
  low_bits, get_or, u8,
}

pub record PdReading : Type 0 where
  pub valid : Bool
  pub at_ms : ℕ
  pub status : ℕ
  pub pdo : ℕ
  pub rdo : ℕ
  pub response : ℕ
  pub mode : ℕ
  pub type_c : ℕ
  pub interrupt : ℕ
  pub versions : List ℕ
  pub silicon : ℕ

abbrev pub no_reading : PdReading
no_reading = record {
  valid = false;
  at_ms = 0;
  status = 0;
  pdo = 0;
  rdo = 0;
  response = 0;
  mode = 0;
  type_c = 0;
  interrupt = 0;
  versions = replicate 16 0;
  silicon = 0;
}

-- Whether a bit is set.
abbrev pub bit : ℕ → ℕ → Bool
bit w k = low_bits (shr w k) 1 == 1

unfoldable pub attached : PdReading → Bool
attached r = bit r.type_c 0

unfoldable pub millivolts : PdReading → ℕ
millivolts r = low_bits (shr r.pdo 10) 10 * 50

unfoldable pub source_ma : PdReading → ℕ
source_ma r = low_bits r.pdo 10 * 10

unfoldable pub operating_ma : PdReading → ℕ
operating_ma r = low_bits (shr r.rdo 10) 10 * 10

unfoldable pub maximum_ma : PdReading → ℕ
maximum_ma r = low_bits r.rdo 10 * 10

-- The position of the source's object that the request names.
abbrev pub object_position : PdReading → ℕ
object_position r = low_bits (shr r.rdo 28) 3

abbrev pub requested_ma : ℕ
requested_ma = 3000

unfoldable pub sensible : PdReading → Bool
unfolding attached millivolts source_ma operating_ma maximum_ma
sensible r =
    r.valid
    && r.mode == 0x95
    && r.silicon == 0x2004
    && attached r
    && not (bit r.status 8)
    && shr r.pdo 30 == 0
    && millivolts r == 20000
    && leb requested_ma (source_ma r)
    && leb (source_ma r) 5000
    && not (object_position r == 0)
    && not (bit r.rdo 26 || bit r.rdo 27)
    && leb (operating_ma r) (source_ma r)
    && leb (operating_ma r) (maximum_ma r)
    && leb (maximum_ma r) (source_ma r)

-- Four bytes, the lowest first.
unfoldable pub le : List ℕ → ℕ
le bs = get_or bs 0 0 + get_or bs 1 0 * 2 ^ 8 + get_or bs 2 0 * 2 ^ 16 + get_or bs 3 0 * 2 ^ 24

-- The four bytes that `put` writes.
unfoldable pub put : ℕ → List ℕ
put v = u8 (shr v 0) ∷ u8 (shr v 8) ∷ u8 (shr v 16) ∷ u8 (shr v 24) ∷ []
