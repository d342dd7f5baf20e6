-- ===== src/Protocol/Numbers.antt =====
-- The decimal numbers that `number` reads.
use tankervision_pdb.Common.{
  ℕ, zero, suc, Bool, true, false, ◌+◌, ◌-◌, ◌*◌, ◌/◌, ◌%◌, ◌<◌, ◌≤◌, ◌≡◌, ltb, if◌then◌else◌, List,
  [], ◌∷◌, ◌++◌, arith, refl, is_digit, Bool-cases, inl, inr, ap, ◌∙◌,
}
use tankervision_pdb.Protocol.Lexer.{uint32_max, number_body, number, leading_zero}

-- A number in decimal, without leading zeros. The fuel bounds the digits.
digits_of : ℕ → ℕ → List ℕ
digits_of zero n = []
digits_of (suc fuel) n =
    let rest = digits_of fuel (n / 10) in
    if ltb n 10 then (b'0' + n) ∷ [] else rest ++ (b'0' + n % 10) ∷ []

unfoldable pub print : ℕ → List ℕ
unfolding digits_of
print n = digits_of (suc n) n

-- The value of digits behind others of value `v`.
unfoldable pub value_from : ℕ → List ℕ → ℕ
value_from v [] = v
value_from v (c ∷ cs) = value_from (v * 10 + (c - b'0')) cs

abbrev pub AllDigits : List ℕ → Type 0
AllDigits [] = Unit {0}
AllDigits (c ∷ cs) = (is_digit c ≡ true) × AllDigits cs

-- What stands behind a number begins with no digit.
abbrev pub starts_digit : List ℕ → Bool
starts_digit [] = false
starts_digit (c ∷ cs) = is_digit c

value_from-append :
    (v c : ℕ) (cs : List ℕ) → value_from v (cs ++ c ∷ []) ≡ value_from v cs * 10 + (c - b'0')
unfolding value_from
value_from-append v c [] = refl
value_from-append v c (d ∷ cs) = value_from-append (v * 10 + (d - b'0')) c cs

le-value_from : (v : ℕ) (cs : List ℕ) → v ≤ value_from v cs
unfolding value_from
le-value_from v [] = omega arith
le-value_from v (c ∷ cs) = omega (arith, le-value_from (v * 10 + (c - b'0')) cs)

AllDigits-append :
    (c : ℕ) (cs : List ℕ) → is_digit c ≡ true → AllDigits cs → AllDigits (cs ++ c ∷ [])
AllDigits-append c [] d a = (d, tt)
AllDigits-append c (x ∷ cs) d a = (a.0, AllDigits-append c cs d a.1)

-- The shape of a printed number: digits of that value, and a leading 0 stands alone.
record Prints (n : ℕ) (cs : List ℕ) : Type 0 where
  digits : AllDigits cs
  value : value_from 0 cs ≡ n
  first : ℕ
  others : List ℕ
  shape : cs ≡ first ∷ others
  alone : first ≡ b'0' → others ≡ []
  zero_only : first ≡ b'0' → n ≡ 0

digits_of-Prints : (fuel n : ℕ) → n < fuel → Prints n (digits_of fuel n)
unfolding digits_of
digits_of-Prints zero n h = absurd (omega arith)
digits_of-Prints (suc fuel) n h = elim (Bool-cases (ltb n 10)) [
  | inl small ↦ rw small (record {
    digits = (ground arith, tt);
    value = unfold value_from in omega arith;
    first = b'0' + n;
    others = [];
    shape = refl;
    alone = λ e. refl;
    zero_only = λ e. omega arith;
  })
  | inr large ↦ rw large (longer (digits_of-Prints fuel (n / 10) (ground arith)) (ground arith))
]
  where
    longer : {cs : List ℕ} → Prints (n / 10) cs → 10 ≤ n → Prints n (cs ++ (b'0' + n % 10) ∷ [])
    longer {cs} p l = record {
      digits = AllDigits-append (b'0' + n % 10) cs (ground arith) p.digits;
      value = value_from-append 0 (b'0' + n % 10) cs ∙ omega (arith, p.value);
      first = p.first;
      others = p.others ++ (b'0' + n % 10) ∷ [];
      shape = ap (λ (xs : List ℕ). xs ++ (b'0' + n % 10) ∷ []) p.shape;
      alone = λ e. absurd (omega (arith, p.zero_only e));
      zero_only = λ e. absurd (omega (arith, p.zero_only e));
    }

number_body-digits :
    (cs rest : List ℕ) (v : ℕ)
    → AllDigits cs
    → starts_digit rest ≡ false
    → value_from v cs ≤ uint32_max
    → number_body (cs ++ rest) v ≡ (true, value_from v cs, rest)
unfolding number_body value_from
number_body-digits [] [] v a s l = refl
number_body-digits [] (r ∷ rest) v a s l = ground arith
number_body-digits (c ∷ cs) rest v a s l = ground (
  arith,
  le-value_from (v * 10 + (c - b'0')) cs,
  number_body-digits cs rest (v * 10 + (c - b'0')),
)

leading_zero-none :
    (c : ℕ) (cs rest : List ℕ)
    → (c ≡ b'0' → cs ≡ [])
    → starts_digit rest ≡ false
    → leading_zero (c ∷ (cs ++ rest)) ≡ false
unfolding leading_zero
leading_zero-none c [] [] a s = refl
leading_zero-none c [] (r ∷ rest) a s = ground arith
leading_zero-none c (d ∷ cs) rest a s = ground arith

number-Prints :
    (n old : ℕ) (cs rest : List ℕ)
    → Prints n cs
    → n ≤ uint32_max
    → starts_digit rest ≡ false
    → number (cs ++ rest) old ≡ (true, n, rest)
unfolding number
number-Prints n old [] rest p l s = cc (p.shape)
number-Prints n old (c ∷ cs) rest p l s = ground (
  arith,
  p.digits,
  p.value,
  leading_zero-none c cs rest (λ e. ground (arith, p.shape, p.alone)) s,
  number_body-digits (c ∷ cs) rest 0 p.digits s,
)

-- A number up to the largest `uint32_t`, printed in decimal, is read back whatever follows it, if
-- that begins with no digit.
pub number-print :
    (n old : ℕ) (rest : List ℕ)
    → n ≤ uint32_max
    → starts_digit rest ≡ false
    → number (print n ++ rest) old ≡ (true, n, rest)
unfolding print
number-print n old rest l s =
    number-Prints n old (digits_of (suc n) n) rest (digits_of-Prints (suc n) n (omega arith)) l s

-- Digits whose value is too large for a `uint32_t` are refused.
pub number_body-overflow :
    (cs rest : List ℕ) (v : ℕ)
    → AllDigits cs
    → v ≤ uint32_max
    → uint32_max < value_from v cs
    → (number_body (cs ++ rest) v).0 ≡ false
unfolding number_body value_from
number_body-overflow [] rest v a b l = absurd (omega arith)
number_body-overflow (c ∷ cs) rest v a b l =
    ground (arith, number_body-overflow cs rest (v * 10 + (c - b'0')))
