-- ===== src/ExpanderInterrupts/Pending.antt =====
-- Which acknowledgements leave a line pending.
use tankervision_pdb.Common.{
  ℕ, Bool, true, false, not, Floats, ◌≡◌, refl, ◌+◌, ◌%◌, ◌<◌, ◌&&◌, ◌||◌, if◌then◌else◌, ltb,
  subst, List, [], ◌∷◌, Option, none, some, arith, sym, ap, ◌∙◌, u32_mod,
}
use tankervision_pdb.BoardControl.{Status}
use tankervision_pdb.ExpanderInterrupts.{
  Line, LineSnapshot, Snapshot, ExpanderInterrupts, Side, internal, external, Edge, Sight, Schedule,
  edge_line, on_edge, on_edges, on_side, copy_line, snapshot, release_line, release, acknowledge,
}

abbrev pub line : Side → ExpanderInterrupts → Line
line internal s = s.internal
line external s = s.external

abbrev pub same_side : Side → Side → Bool
same_side internal internal = true
same_side external external = true
same_side _ _ = false

-- The falling edges of a side.
abbrev pub falls : Side → List Edge → ℕ
falls i [] = 0
falls i (e ∷ es) = if same_side i e.side && e.low then 1 + falls i es else falls i es

abbrev pub is_low : Side → Sight → Bool
is_low internal seen = seen.internal_low
is_low external seen = seen.external_low

abbrev is_read : {A : Type 0} → Option A → Bool
is_read none = false
is_read (some _) = true

-- What some falling edges have done to a line: `n` of them, on top of the line `l`.
record Fallen (n : ℕ) (l k : Line) : Type 0 where
  counted : k.falling_edges ≡ (l.falling_edges + n) % u32_mod
  flagged : k.pending ≡ (l.pending || ltb 0 n)

-- The edges of a side, at its line.
line_edges : Side → List Edge → Line → Line
line_edges i [] l = l
line_edges i (e ∷ es) l = line_edges i es (if same_side i e.side then edge_line e l else l)

pub line-on_side :
    (i k : Side) (f : Line → Line) (s : ExpanderInterrupts)
    → line i (on_side k f s) ≡ (if same_side i k then f (line i s) else line i s)
line-on_side internal internal f s = refl
line-on_side internal external f s = refl
line-on_side external internal f s = refl
line-on_side external external f s = refl

line-on_edges :
    (i : Side) (es : List Edge) (s : ExpanderInterrupts)
    → line i (on_edges es s) ≡ line_edges i es (line i s)
unfolding on_edges on_edge line_edges
line-on_edges i [] s = refl
line-on_edges i (e ∷ es) s =
    line-on_edges i es (on_edge e s) ∙ ap (line_edges i es) (line-on_side i e.side (edge_line e) s)

edge_line-Fallen :
    (b : Bool) (e : Edge) (l : Line)
    → l.falling_edges < u32_mod
    → let k = if b then edge_line e l else l in
      (k.falling_edges < u32_mod) × Fallen (if b && e.low then 1 else 0) l k
unfolding edge_line
edge_line-Fallen b e l h = ground arith

Fallen-trans : (a b : ℕ) (l k m : Line) → Fallen a l k → Fallen b k m → Fallen (a + b) l m
Fallen-trans a b l k m p q =
    let one = p.counted in
    let two = q.counted in
    let first = p.flagged in
    let second = q.flagged in record { counted = omega arith; flagged = ground arith }

below_u32 : {n : ℕ} {l k : Line} → Fallen n l k → k.falling_edges < u32_mod
below_u32 f = let c = f.counted in omega arith

falls-cons :
    (i : Side) (e : Edge) (es : List Edge)
    → falls i (e ∷ es) ≡ (if same_side i e.side && e.low then 1 else 0) + falls i es
falls-cons i e es = ground arith

line_edges-Fallen :
    (i : Side) (es : List Edge) (l : Line)
    → l.falling_edges < u32_mod
    → Fallen (falls i es) l (line_edges i es l)
unfolding line_edges
line_edges-Fallen i [] l h = record { counted = omega arith; flagged = ground arith }
line_edges-Fallen i (e ∷ es) l h =
    let k = if same_side i e.side then edge_line e l else l in
    let (below, one) = edge_line-Fallen (same_side i e.side) e l h in
    let rest = line_edges-Fallen i es k below in
    subst (λ n. Fallen n l (line_edges i es k)) (sym (falls-cons i e es))
      (Fallen-trans _ _ _ _ _ one rest)

on_edges-Fallen :
    (i : Side) (es : List Edge) (s : ExpanderInterrupts)
    → (line i s).falling_edges < u32_mod
    → Fallen (falls i es) (line i s) (line i (on_edges es s))
on_edges-Fallen i es s h =
    subst (Fallen (falls i es) (line i s)) (sym (line-on_edges i es s))
      (line_edges-Fallen i es (line i s) h)

-- The side of a snapshot, and of a release.
abbrev pub line_of : Side → Snapshot → LineSnapshot
line_of internal b = b.internal
line_of external b = b.external

pub line-release :
    (i : Side) (b : Snapshot) (seen : Sight) (s : ExpanderInterrupts)
    → line i (release b seen s) ≡ release_line (line_of i b) (is_low i seen) (line i s)
unfolding release
line-release internal b seen s = refl
line-release external b seen s = refl

counted_before :
    (i : Side) (seen : Sight) (s : ExpanderInterrupts)
    → (line_of i (snapshot seen s)).falling_edges ≡ (line i s).falling_edges
unfolding snapshot copy_line
counted_before internal seen s = refl
counted_before external seen s = refl

-- A line with `n` falling edges since the snapshot at its release.
release_line-pending :
    (n : ℕ) (b : LineSnapshot) (low : Bool) (l k : Line)
    → n < u32_mod
    → l.falling_edges < u32_mod
    → b.falling_edges ≡ l.falling_edges
    → Fallen n l k
    → ((release_line b low k).pending ≡ (ltb 0 n || (l.pending && low)))
      × ((release_line b low k).falling_edges < u32_mod)
unfolding release_line
release_line-pending n b low l k hn hl same f =
    let p = f.counted in let q = f.flagged in ground arith

module _ (F : Floats) where
  -- After an acknowledgement a line is pending exactly where a falling edge came during it, or where it was
  -- pending before and the status was not read or the line was low at the release. The falling
  -- edges up to the release are fewer than 2^32, and so is the count that it starts with.
  pub acknowledge-pending :
      (c : Schedule) (r : Option (Status F)) (i : Side) (s : ExpanderInterrupts)
      → (line i s).falling_edges < u32_mod
      → falls i c.during < u32_mod
      → (line i (acknowledge F c r s).1).pending ≡ (
          ltb 0 (falls i c.during)
          || (ltb 0 (falls i c.later)
              || ((line i s).pending && (not (is_read r) || is_low i c.releasing))))
  unfolding acknowledge
  acknowledge-pending c none i s h n =
      let one = on_edges-Fallen i c.during s h in
      let t = on_edges c.during s in
      let below : (line i t).falling_edges < u32_mod = below_u32 one in
      let rest = on_edges-Fallen i c.later t below in
      let first = one.flagged in let second = rest.flagged in ground arith
  acknowledge-pending c (some x) i s h n =
      let one = on_edges-Fallen i c.during s h in
      let t = on_edges c.during s in
      let b = snapshot c.before s in
      let u = release b c.releasing t in
      let (flag, below) =
        release_line-pending (falls i c.during) (line_of i b) (is_low i c.releasing) (line i s)
          (line i t) n h (counted_before i c.before s) one in
      let same = line-release i b c.releasing t in
      let flag = ap (λ l. l.pending) same ∙ flag in
      let below = subst (λ l. l.falling_edges < u32_mod) (sym same) below in
      let second = (on_edges-Fallen i c.later u below).flagged in ground arith
