-- ===== src/ExpanderInterrupts/History.antt =====
-- The counters of the lines as an account of the edges since `begin`.
use tankervision_pdb.Common.{
  ℕ, Bool, false, not, Floats, ◌≡◌, refl, ◌+◌, ◌%◌, ◌==◌, ◌&&◌, if◌then◌else◌, if_rule, List, [],
  ◌∷◌, Option, none, some, arith, subst, sym, u32_mod,
}
use tankervision_pdb.BoardControl.{Status}
use tankervision_pdb.ExpanderInterrupts.{
  Line, LineSnapshot, ExpanderInterrupts, Side, internal, external, Edge, Sight, Snapshot, Schedule,
  edge_line, on_edge, on_edges, snapshot, release_line, release, acknowledge, attach, begin,
}
use tankervision_pdb.ExpanderInterrupts.Pending.{
  line, line_of, is_low, same_side, line-on_side, line-release, falls,
}

-- What may follow `begin`.
pub data Event (F : Floats) : Type 0 where
  edge : Edge → Event F
  ack : Schedule → Option (Status F) → Event F

-- The edges of a list behind those of another; the newest comes first.
abbrev pub push : List Edge → List Edge → List Edge
push [] h = h
push (e ∷ es) h = push es (e ∷ h)

abbrev pub rises : Side → List Edge → ℕ
rises i [] = 0
rises i (e ∷ es) = if same_side i e.side && not e.low then 1 + rises i es else rises i es

-- The time of the newest edge of a side that falls, or that rises; 0 without one.
abbrev pub last_fall : Side → List Edge → ℕ
last_fall i [] = 0
last_fall i (e ∷ es) = if same_side i e.side && e.low then e.at else last_fall i es

abbrev pub last_rise : Side → List Edge → ℕ
last_rise i [] = 0
last_rise i (e ∷ es) = if same_side i e.side && not e.low then e.at else last_rise i es

module _ (F : Floats) where
  abbrev pub history : List (Event F) → List Edge → List Edge
  history [] h = h
  history (edge e ∷ vs) h = history vs (e ∷ h)
  history (ack c r ∷ vs) h = history vs (push c.later (push c.during h))

  unfoldable pub run : List (Event F) → ExpanderInterrupts → ExpanderInterrupts
  run [] s = s
  run (edge e ∷ vs) s = run vs (on_edge e s)
  run (ack c r ∷ vs) s = run vs (acknowledge F c r s).1

-- A line that has had the edges `h`.
pub record Counted (i : Side) (h : List Edge) (l : Line) : Type 0 where
  pub falling : l.falling_edges ≡ falls i h % u32_mod
  pub rising : l.rising_edges ≡ rises i h % u32_mod
  pub fell_at : l.last_falling_us ≡ last_fall i h
  pub rose_at : l.last_rising_us ≡ last_rise i h

edge_line-Counted :
    (i : Side) (h : List Edge) (e : Edge) (l : Line)
    → Counted i h l
    → Counted i (e ∷ h) (if same_side i e.side then edge_line e l else l)
unfolding edge_line
edge_line-Counted i h e l p =
    let a = p.falling in
    let b = p.rising in
    let c = p.fell_at in
    let d = p.rose_at in
    record {
      falling = ground arith;
      rising = ground arith;
      fell_at = ground arith;
      rose_at = ground arith;
    }

kept :
    {i : Side} {h : List Edge} {l : Line} (b : Bool)
    → Counted i h l
    → Counted i h (record l { pending = b })
kept b p = record {
  falling = p.falling;
  rising = p.rising;
  fell_at = p.fell_at;
  rose_at = p.rose_at;
}

release_line-Counted :
    (i : Side) (h : List Edge) (b : LineSnapshot) (low : Bool) (l : Line)
    → Counted i h l
    → Counted i h (release_line b low l)
unfolding release_line
release_line-Counted i h b low l p =
    if_rule (Counted i h) (l.falling_edges == b.falling_edges && not low) (λ _. kept false p)
      (λ _. p)

begin-Counted :
    (i : Side) (early : List Edge) (seen : Sight) (s : ExpanderInterrupts)
    → Counted i (push early []) (line i (on_edges early (attach s)))
    → Counted i (push early []) (line i (begin early seen s))
unfolding begin
begin-Counted internal early seen s p = kept _ p
begin-Counted external early seen s p = kept _ p

attach-Counted : (i : Side) (s : ExpanderInterrupts) → Counted i [] (line i (attach s))
unfolding attach
attach-Counted internal s = record { falling = refl; rising = refl; fell_at = refl; rose_at = refl }
attach-Counted external s = record { falling = refl; rising = refl; fell_at = refl; rose_at = refl }

module _ (i : Side) where
  on_edge-Counted :
      (e : Edge) (h : List Edge) (s : ExpanderInterrupts)
      → Counted i h (line i s)
      → Counted i (e ∷ h) (line i (on_edge e s))
  unfolding on_edge
  on_edge-Counted e h s p =
      subst (Counted i (e ∷ h)) (sym (line-on_side i e.side (edge_line e) s))
        (edge_line-Counted i h e (line i s) p)

  on_edges-Counted :
      (es h : List Edge) (s : ExpanderInterrupts)
      → Counted i h (line i s)
      → Counted i (push es h) (line i (on_edges es s))
  unfolding on_edges
  on_edges-Counted [] h s p = p
  on_edges-Counted (e ∷ es) h s p =
      on_edges-Counted es (e ∷ h) (on_edge e s) (on_edge-Counted e h s p)

  release-Counted :
      (b : Snapshot) (seen : Sight) (h : List Edge) (s : ExpanderInterrupts)
      → Counted i h (line i s)
      → Counted i h (line i (release b seen s))
  release-Counted b seen h s p =
      subst (Counted i h) (sym (line-release i b seen s))
        (release_line-Counted i h (line_of i b) (is_low i seen) (line i s) p)

  module _ (F : Floats) where
    acknowledge-Counted :
        (c : Schedule) (r : Option (Status F)) (h : List Edge) (s : ExpanderInterrupts)
        → Counted i h (line i s)
        → Counted i (push c.later (push c.during h)) (line i (acknowledge F c r s).1)
    unfolding acknowledge
    acknowledge-Counted c none h s p =
        on_edges-Counted c.later _ _ (on_edges-Counted c.during h s p)
    acknowledge-Counted c (some x) h s p =
        on_edges-Counted c.later _ _
          (release-Counted (snapshot c.before s) c.releasing _ _ (on_edges-Counted c.during h s p))

    events-Counted :
        (vs : List (Event F)) (h : List Edge) (s : ExpanderInterrupts)
        → Counted i h (line i s)
        → Counted i (history F vs h) (line i (run F vs s))
    unfolding run
    events-Counted [] h s p = p
    events-Counted (edge e ∷ vs) h s p =
        events-Counted vs (e ∷ h) (on_edge e s) (on_edge-Counted e h s p)
    events-Counted (ack c r ∷ vs) h s p =
        events-Counted vs _ (acknowledge F c r s).1 (acknowledge-Counted c r h s p)

-- After `begin`, and after any edges and acknowledgements that follow it, the counters of a line are
-- the numbers of its falling and rising edges since then modulo 2^32, and its times are those of the
-- newest ones, whatever the object was before.
pub run-Counted :
    (F : Floats) (i : Side) (early : List Edge) (seen : Sight) (vs : List (Event F))
    (s : ExpanderInterrupts)
    → Counted i (history F vs (push early [])) (line i (run F vs (begin early seen s)))
run-Counted F i early seen vs s =
    events-Counted i F vs (push early []) (begin early seen s)
      (begin-Counted i early seen s (on_edges-Counted i early [] (attach s) (attach-Counted i s)))
