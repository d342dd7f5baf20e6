-- ===== src/PowerDelivery/Runs.antt =====
-- A budget from its start, over any number of services.
use tankervision_pdb.Common.{ℕ, zero, suc, true, ◌≡◌, ◌≤◌, Option, none, some, sub32}
use tankervision_pdb.PowerDelivery.Reading.{sensible, object_position}
use tankervision_pdb.PowerDelivery.Bus.{Wire, PowerDelivery, System, running}
use tankervision_pdb.PowerDelivery.Budget.{note_write, service}

-- The source object that the budget started on.
record From (p o : ℕ) (d : PowerDelivery) : Type 0 where
  source : d.original_pdo ≡ p
  object : d.original_object ≡ o

module _ (W : Wire) where
  unfoldable pub serve : ℕ → System W → System W
  serve zero s = s
  serve (suc n) s = serve n (service W s)

  module _ (p o : ℕ) where
    abbrev Kept : System W → Type 0
    Kept s = From p o s.pd

    noted :
        (next : ℕ) (r : Option (Unit {0})) (t : System W) → Kept t → Kept (note_write W next (r, t))
    unfolding note_write
    noted next none t f = record { source = f.source; object = f.object }
    noted next (some _) t f = record { source = f.source; object = f.object }

  -- What a start has checked, and what it starts from.
  record Begun (s t : System W) : Type 0 where
    valid : s.pd.reading.valid ≡ true
    sound : sensible s.pd.reading ≡ true
    recent : sub32 (W.millis s.world).0 s.pd.reading.at_ms ≤ 1500
    runs_now : t.pd.result ≡ running
    kept : From s.pd.reading.pdo (object_position s.pd.reading) t.pd
