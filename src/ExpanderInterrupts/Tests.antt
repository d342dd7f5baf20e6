-- ===== src/ExpanderInterrupts/Tests.antt =====
-- Edges on both lines, around acknowledgements.
use tankervision_pdb.Common.{true, false, ◌≡◌, List, [], ◌∷◌, some, arith}
use tankervision_pdb.BoardHardware.Tests.{tenths}
use tankervision_pdb.ChargerHold.Tests.{charging_status}
use tankervision_pdb.ExpanderInterrupts.{
  ExpanderInterrupts, Edge, Sight, Schedule, internal, reset_line, begin, acknowledge,
}
use tankervision_pdb.ExpanderInterrupts.Pending.{line, acknowledge-pending}
use tankervision_pdb.ExpanderInterrupts.History.{Counted, Event, edge, ack, run, run-Counted}

abbrev fell : Edge
fell = record { side = internal; low = true; at = 120 }

abbrev rose : Edge
rose = record { side = internal; low = false; at = 340 }

abbrev both_high : Sight
both_high = record { internal_low = false; external_low = false; at = 500 }

-- The line falls while the status is read, and is high again at the release.
abbrev short_pulse : Schedule
short_pulse = record {
  before = both_high;
  during = fell ∷ rose ∷ [];
  releasing = both_high;
  later = [];
  after = both_high;
}

abbrev blank : ExpanderInterrupts
blank = record { internal = reset_line; external = reset_line; attached = false; calls = [] }

acknowledge-pending_example :
    (line internal (acknowledge tenths short_pulse (some charging_status) blank).1).pending ≡ true
acknowledge-pending_example =
    acknowledge-pending tenths short_pulse (some charging_status) internal blank (omega arith)
      (omega arith)

abbrev events : List (Event tenths)
events = edge fell ∷ ack short_pulse (some charging_status) ∷ edge rose ∷ []

run-Counted_example :
    Counted internal
      (rose ∷ rose ∷ fell ∷ fell ∷ rose ∷ [])
      (line internal (run tenths events (begin (rose ∷ []) both_high blank)))
run-Counted_example = run-Counted tenths internal (rose ∷ []) both_high events blank
