-- ===== src/PowerDelivery/Bytes.antt =====
-- The bytes of a word on the bus.
use tankervision_pdb.Common.{ℕ, ◌<◌, ◌≡◌, ◌+◌, ◌*◌, ◌/◌, ◌%◌, ◌^◌, arith}
use tankervision_pdb.PowerDelivery.Reading.{le, put}

word-bytes :
    (v : ℕ)
    → v < 2 ^ 32
    → (v % 256)
        + ((v / 2 ^ 8) % 256) * 2 ^ 8
        + ((v / 2 ^ 16) % 256) * 2 ^ 16
        + ((v / 2 ^ 24) % 256) * 2 ^ 24
      ≡ v
word-bytes v h = omega arith

-- A word of 32 bits that `put` lays out is the word that `le` reads back.
pub le-put : (v : ℕ) → v < 2 ^ 32 → le (put v) ≡ v
unfolding le put
le-put v h = grind arith
