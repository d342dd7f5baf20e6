-- ===== src/ExpanderInterrupts.antt =====
-- The capture of the expanders' interrupt lines (firmware/board_control_test/ExpanderInterrupts.h and
-- .cpp). A critical section is one step; the edges whose handler runs between two of them are lists.
mod Pending
mod History
mod Tests
use tankervision_pdb.Common.{
  ℕ, Bool, true, false, not, Floats, ◌+◌, ◌==◌, ◌&&◌, ◌||◌, if◌then◌else◌, List, [], ◌∷◌, Option,
  none, some, add32,
}
use tankervision_pdb.BoardControl.{Status}

abbrev pub internal_pin : ℕ
internal_pin = 15

abbrev pub external_pin : ℕ
external_pin = 16

pub record Line : Type 0 where
  pub falling_edges : ℕ
  pub rising_edges : ℕ
  pub last_falling_us : ℕ
  pub last_rising_us : ℕ
  pub pending : Bool

pub record LineSnapshot : Type 0 where
  pub falling_edges : ℕ
  pub rising_edges : ℕ
  pub last_falling_us : ℕ
  pub last_rising_us : ℕ
  pub active_low : Bool
  pub pending : Bool

pub record Snapshot : Type 0 where
  pub internal : LineSnapshot
  pub external : LineSnapshot
  pub captured_at_us : ℕ

pub record AckResult : Type 0 where
  pub before : Snapshot
  pub after : Snapshot

-- The calls that set up a pin and its handler.
pub data Call : Type 0 where
  pin_input attach_interrupt detach_interrupt : ℕ → Call

-- The newest call comes first.
pub record ExpanderInterrupts : Type 0 where
  pub internal : Line
  pub external : Line
  pub attached : Bool
  pub calls : List Call

pub data Side : Type 0 where
  internal external : Side

-- A run of the handler, with what `gpio_get_level` and `micros` return to it.
pub record Edge : Type 0 where
  pub side : Side
  pub low : Bool
  pub at : ℕ

-- What `gpio_get_level` and `micros` return in a critical section.
pub record Sight : Type 0 where
  pub internal_low : Bool
  pub external_low : Bool
  pub at : ℕ

abbrev pub reset_line : Line
reset_line = record {
  falling_edges = 0;
  rising_edges = 0;
  last_falling_us = 0;
  last_rising_us = 0;
  pending = false;
}

unfoldable pub end : ExpanderInterrupts → ExpanderInterrupts
end s =
    if s.attached
    then record s {
      attached = false;
      calls = detach_interrupt external_pin ∷ detach_interrupt internal_pin ∷ s.calls;
    }
    else s

unfoldable pub edge_line : Edge → Line → Line
edge_line e l =
    if e.low
    then record l {
      falling_edges = add32 l.falling_edges 1;
      last_falling_us = e.at;
      pending = true;
    }
    else record l { rising_edges = add32 l.rising_edges 1; last_rising_us = e.at }

abbrev pub on_side : Side → (Line → Line) → ExpanderInterrupts → ExpanderInterrupts
on_side internal f s = record s { internal = f s.internal }
on_side external f s = record s { external = f s.external }

-- `onEdge`
unfoldable pub on_edge : Edge → ExpanderInterrupts → ExpanderInterrupts
unfolding edge_line
on_edge e s = on_side e.side (edge_line e) s

unfoldable pub on_edges : List Edge → ExpanderInterrupts → ExpanderInterrupts
unfolding on_edge
on_edges [] s = s
on_edges (e ∷ es) s = on_edges es (on_edge e s)

abbrev pub raise_pending : Bool → Line → Line
raise_pending low l = record l { pending = l.pending || low }

-- The counters and the pins, up to the handlers.
unfoldable pub attach : ExpanderInterrupts → ExpanderInterrupts
unfolding end
attach s = record {
  internal = reset_line;
  external = reset_line;
  attached = true;
  calls =
      attach_interrupt external_pin
      ∷ attach_interrupt internal_pin
      ∷ pin_input external_pin
      ∷ pin_input internal_pin
      ∷ (end s).calls;
}

unfoldable pub begin : List Edge → Sight → ExpanderInterrupts → ExpanderInterrupts
unfolding attach on_edges
begin early seen s =
    let t = on_edges early (attach s) in
    record t {
      internal = raise_pending seen.internal_low t.internal;
      external = raise_pending seen.external_low t.external;
    }

unfoldable pub copy_line : Bool → Line → LineSnapshot
copy_line low l = record {
  falling_edges = l.falling_edges;
  rising_edges = l.rising_edges;
  last_falling_us = l.last_falling_us;
  last_rising_us = l.last_rising_us;
  active_low = low;
  pending = l.pending;
}

unfoldable pub snapshot : Sight → ExpanderInterrupts → Snapshot
unfolding copy_line
snapshot seen s = record {
  internal = copy_line seen.internal_low s.internal;
  external = copy_line seen.external_low s.external;
  captured_at_us = seen.at;
}

-- The flag goes where no falling edge came since the snapshot and the line is high.
unfoldable pub release_line : LineSnapshot → Bool → Line → Line
release_line before low l =
    if l.falling_edges == before.falling_edges && not low then record l { pending = false } else l

unfoldable pub release : Snapshot → Sight → ExpanderInterrupts → ExpanderInterrupts
unfolding release_line
release before seen s = record s {
  internal = release_line before.internal seen.internal_low s.internal;
  external = release_line before.external seen.external_low s.external;
}

-- What happens around the critical sections of `acknowledge`: the edges while the status is read and
-- those between the release and the last snapshot.
pub record Schedule : Type 0 where
  pub before : Sight
  pub during : List Edge
  pub releasing : Sight
  pub later : List Edge
  pub after : Sight

module _ (F : Floats) where
  -- With what `readStatus` returns; `none` is `false`, and leaves the caller's status as it was.
  unfoldable pub acknowledge :
      Schedule
      → Option (Status F)
      → ExpanderInterrupts
      → (Option (Status F) × AckResult) × ExpanderInterrupts
  unfolding snapshot release on_edges
  acknowledge c none s =
      let before = snapshot c.before s in
      let t = on_edges c.later (on_edges c.during s) in
      ((none, record { before = before; after = snapshot c.after t }), t)
  acknowledge c (some x) s =
      let before = snapshot c.before s in
      let t = on_edges c.later (release before c.releasing (on_edges c.during s)) in
      ((some x, record { before = before; after = snapshot c.after t }), t)
