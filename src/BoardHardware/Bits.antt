-- ===== src/BoardHardware/Bits.antt =====
-- The bits of a register. A mask is the list of its bits, so that `& mask`, `& ~mask` and `| mask` go
-- bit by bit.
use tankervision_pdb.Common.{
  ℕ, Bool, false, ◌+◌, ◌-◌, ◌/◌, ◌%◌, ◌^◌, ◌==◌, ◌||◌, ◌≡◌, if◌then◌else◌, List, [], ◌∷◌, arith,
}

abbrev pub high : ℕ → ℕ → Bool
high v k = v / 2 ^ k % 2 == 1

abbrev pub lower : ℕ → ℕ → ℕ
lower v k = if high v k then v - 2 ^ k else v

abbrev pub raise : ℕ → ℕ → ℕ
raise v k = if high v k then v else v + 2 ^ k

-- `v & mask` is not zero.
abbrev pub any_high : ℕ → List ℕ → Bool
any_high v [] = false
any_high v (k ∷ ks) = high v k || any_high v ks

-- `v & ~mask` and `v | mask`.
abbrev pub lower_all : ℕ → List ℕ → ℕ
lower_all v [] = v
lower_all v (k ∷ ks) = lower_all (lower v k) ks

abbrev pub raise_all : ℕ → List ℕ → ℕ
raise_all v [] = v
raise_all v (k ∷ ks) = raise_all (raise v k) ks

-- The bits of the internal control register.
abbrev pub boost : ℕ
boost = 0

abbrev pub ce : ℕ
ce = 1

abbrev pub high_current : ℕ
high_current = 2

abbrev pub ts_override : ℕ
ts_override = 3

abbrev pub buck : ℕ
buck = 4

pub high-lower_all_charge :
    (v : ℕ) → high (lower_all v (ce ∷ high_current ∷ ts_override ∷ [])) ce ≡ false
high-lower_all_charge v = ground arith

pub high-lower_all-boost : (v : ℕ) → high (lower_all v (ce ∷ boost ∷ [])) ce ≡ false
high-lower_all-boost v = ground arith

pub high-raise-boost : (v : ℕ) → high v ce ≡ false → high (raise v boost) ce ≡ false
high-raise-boost v h = ground arith

pub high-lower-ce : (v : ℕ) → high (lower v ce) ce ≡ false
high-lower-ce v = ground arith
