-- ===== src/Protocol/Lexer.antt =====
-- `space`, `string` and `number` of Protocol.cpp. The pointer is the rest of the C string: an empty
-- list where it stands on the NUL.
use tankervision_pdb.Common.{
  ℕ, Bool, true, false, ◌+◌, ◌-◌, ◌*◌, ◌/◌, ◌==◌, ◌||◌, ◌&&◌, leb, ltb, if◌then◌else◌, List, [],
  ◌∷◌, set, is_digit,
}

unfoldable pub is_space : ℕ → Bool
is_space c = c == b' ' || c == 9 || c == 13

unfoldable pub space : List ℕ → List ℕ
unfolding is_space
space [] = []
space (c ∷ p) = let rest = space p in if is_space c then rest else c ∷ p

-- A character that `string` refuses: a control or non-ASCII one, or a backslash.
unfoldable pub refused : ℕ → Bool
refused c = ltb c 32 || ltb 126 c || c == b'\\'

-- The loop of `string` from the `n`-th character on: whether it succeeds, the array and the pointer.
unfoldable pub string_body : List ℕ → List ℕ → ℕ → ℕ → Bool × List ℕ × List ℕ
unfolding refused
string_body [] out n capacity = (false, out, [])
string_body (c ∷ p) out n capacity =
    let rest = string_body p (set out n c) (n + 1) capacity in
    if c == b'"'
    then (true, set out n 0, p)
    else if refused c || leb capacity (n + 1)
    then (false, out, p)
    else rest

unfoldable pub string : List ℕ → List ℕ → ℕ → Bool × List ℕ × List ℕ
unfolding string_body
string [] out capacity = (false, out, [])
string (c ∷ p) out capacity = if c == b'"' then string_body p out 0 capacity else (false, out, p)

abbrev pub uint32_max : ℕ
uint32_max = 4294967295

-- The loop of `number`: whether it succeeds, the value reached and the pointer.
unfoldable pub number_body : List ℕ → ℕ → Bool × ℕ × List ℕ
number_body [] value = (true, value, [])
number_body (c ∷ p) value =
    let digit = c - b'0' in
    let rest = number_body p (value * 10 + digit) in
    if is_digit c
    then (if ltb ((uint32_max - digit) / 10) value then (false, value, p) else rest)
    else (true, value, c ∷ p)

-- Two digits of which the first is 0.
unfoldable pub leading_zero : List ℕ → Bool
leading_zero [] = false
leading_zero (c ∷ []) = false
leading_zero (c ∷ d ∷ p) = c == b'0' && is_digit d

-- `value` is the out parameter: it keeps its value where no digit stands at the pointer.
unfoldable pub number : List ℕ → ℕ → Bool × ℕ × List ℕ
unfolding number_body leading_zero
number [] value = (false, value, [])
number (c ∷ p) value =
    if is_digit c
    then (if leading_zero (c ∷ p) then (false, value, c ∷ p) else number_body (c ∷ p) 0)
    else (false, value, c ∷ p)
