-- ===== src/Protocol/Total.antt =====
-- `parse` always ends: each round of its loop consumes at least one byte.
use tankervision_pdb.Common.{
  ℕ, zero, suc, Bool, ◌+◌, ◌-◌, ◌*◌, set, ◌<◌, ◌≤◌, ◌≡◌, ◌≢◌, List, [], ◌∷◌, length, length-drop,
  replicate, Option, none, some, arith, refl, Option-cases, inl, inr, ap, c_str, bit_or,
}
use tankervision_pdb.Protocol.Request.{Request, Code}
use tankervision_pdb.Protocol.Lexer.{space, string_body, string, number_body, number}
use tankervision_pdb.Protocol.Parser.{
  Parsing, begin, Key, key_bit, version_key, id_key, command_key, boot_id_key, ping_id_key,
  shutdown_id_key, port_key, enabled_key, boolean, field_value, Round, failed, finished, more,
  after_value, known_key, after_key, field_round, fields_loop, object, parse, find_key, all_keys,
}

length-space : (p : List ℕ) → length (space p) ≤ length p
unfolding space
length-space [] = omega arith
length-space (c ∷ p) = ground (arith, length-space p)

length-string_body :
    (p out : List ℕ) (n capacity : ℕ) → length (string_body p out n capacity).2 ≤ length p
unfolding string_body
length-string_body [] out n capacity = omega arith
length-string_body (c ∷ p) out n capacity =
    ground (arith, length-string_body p (set out n c) (n + 1) capacity)

length-string :
    (c : ℕ) (p out : List ℕ) (capacity : ℕ) → length (string (c ∷ p) out capacity).2 ≤ length p
unfolding string
length-string c p out capacity = ground (arith, length-string_body p out 0 capacity)

length-string_le : (p out : List ℕ) (capacity : ℕ) → length (string p out capacity).2 ≤ length p
unfolding string
length-string_le [] out capacity = omega arith
length-string_le (c ∷ p) out capacity = ground (arith, length-string_body p out 0 capacity)

length-number_body : (p : List ℕ) (value : ℕ) → length (number_body p value).2 ≤ length p
unfolding number_body
length-number_body [] value = omega arith
length-number_body (c ∷ p) value = ground (arith, length-number_body p (value * 10 + (c - b'0')))

length-number : (p : List ℕ) (value : ℕ) → length (number p value).2 ≤ length p
unfolding number
length-number [] value = omega arith
length-number (c ∷ p) value = ground (arith, length-number_body (c ∷ p) 0)

length-boolean : (p : List ℕ) (old : Bool) → length (boolean p old).2 ≤ length p
unfolding boolean
length-boolean p old = ground (arith, length-drop {0} 4 p, length-drop {0} 5 p)

length-field_value : (k : Key) (p : List ℕ) (s : Parsing) → length (field_value k p s).1 ≤ length p
unfolding field_value
length-field_value version_key p s = length-number p s.version
length-field_value id_key p s = length-number p s.out.id
length-field_value command_key p s = length-string_le p s.command 32
length-field_value boot_id_key p s = length-string_le p s.out.boot_id 9
length-field_value ping_id_key p s = length-number p s.out.ping_id
length-field_value shutdown_id_key p s = length-number p s.out.shutdown_id
length-field_value port_key p s = length-string_le p s.out.port 24
length-field_value enabled_key p s = length-boolean p s.out.enabled

-- What a round leaves for the next one.
abbrev left : Round → ℕ
left (more q s) = length q
left (finished q s) = 0
left (failed c s) = 0

left-after_value : (p : List ℕ) (s : Parsing) → left (after_value p s) ≤ length p
unfolding after_value
left-after_value [] s = omega arith
left-after_value (c ∷ p) s = ground (arith, length-space p)

left-known_key : (k : Key) (p : List ℕ) (s : Parsing) → left (known_key k p s) ≤ length p
unfolding known_key
left-known_key k p s =
    let t = record s { fields = bit_or s.fields (key_bit k) } in
    let v = field_value k p t in
    ground (arith, length-field_value k p t, length-space v.1, left-after_value (space v.1) v.2)

left-after_key : (name p : List ℕ) (s : Parsing) → left (after_key name p s) ≤ length p
unfolding after_key
left-after_key name [] s = omega arith
left-after_key name (c ∷ p) s = elim (Option-cases (find_key name all_keys)) [
  | inl e ↦ rw e (ground arith)
  | inr (k, e) ↦ rw e (ground (arith, length-space p, left-known_key k (space p) s))
]

left-field_round : (c : ℕ) (p : List ℕ) (s : Parsing) → left (field_round (c ∷ p) s) ≤ length p
unfolding field_round
left-field_round c p s =
    let v = string (c ∷ p) (replicate 32 0) 32 in
    ground (
      arith,
      length-string c p (replicate 32 0) 32,
      length-space v.2,
      left-after_key (c_str v.1) (space v.2) s,
    )

-- Each round leaves less than it is given.
left-round :
    (p : List ℕ) (s : Parsing) (q : List ℕ) (t : Parsing)
    → field_round (space p) s ≡ more q t
    → length q < length p
unfolding field_round
left-round p s q t e = elim_nil (space p) (length-space p) e
  where
    elim_nil : (r : List ℕ) → length r ≤ length p → field_round r s ≡ more q t → length q < length p
    elim_nil [] l e = cc
    elim_nil (c ∷ r) l e = omega (arith, left-field_round c r s, ap left e)

fields_loop-total :
    (fuel : ℕ) (p : List ℕ) (s : Parsing) → length p < fuel → fields_loop fuel p s ≢ none
unfolding fields_loop
fields_loop-total zero p s h = absurd (omega arith)
fields_loop-total (suc fuel) p s h =
    go (field_round (space p) s) (left-round p s) (fields_loop-total fuel)
  where
    go :
        (r : Round)
        → ((q : List ℕ) (t : Parsing) → r ≡ more q t → length q < length p)
        → ((q : List ℕ) (t : Parsing) → length q < fuel → fields_loop fuel q t ≢ none)
        → ◌≢◌ {A = Option Round}
            (elim r [
              | more q s' ↦ fields_loop fuel q s'
              | finished q s' ↦ some (finished q s')
              | failed c s' ↦ some (failed c s')
            ])
            none
    go (more q t) less ih = ih q t (omega (arith, less q t refl))
    go (finished q t) less ih = cc
    go (failed c t) less ih = cc

object-total : (p : List ℕ) → object p ≢ none
unfolding object
object-total [] = cc
object-total (c ∷ p) = elim (Option-cases (fields_loop (suc (length p)) p begin)) [
  | inl e ↦ absurd (fields_loop-total (suc (length p)) p begin (omega arith) e)
  | inr (r, e) ↦ rw e (ground arith)
]

parse-ne-none : (line : List ℕ) → parse line ≢ none
unfolding parse
parse-ne-none line = ground (arith, object-total (space line))

-- `parse` returns on every line: the fuel, one more than the line's length, never runs out.
pub parse-total : (line : List ℕ) → (r : Option Code × Request) × (parse line ≡ some r)
parse-total line = elim (Option-cases (parse line)) [
  | inl e ↦ absurd (parse-ne-none line e)
  | inr found ↦ found
]
