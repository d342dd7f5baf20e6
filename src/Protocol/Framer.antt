-- ===== src/Protocol/Framer.antt =====
-- `Protocol::Framer`: bytes to lines.
use tankervision_pdb.Common.{
  ℕ, Bool, true, false, ◌+◌, ◌==◌, if◌then◌else◌, List, [], ◌∷◌, set, replicate,
}

pub data FrameResult : Type 0 where
  no_result line too_long invalid : FrameResult

abbrev pub max_request : ℕ
max_request = 512

-- `data_` has room for the longest request and its NUL.
pub record Framer : Type 0 where
  pub buffer : List ℕ
  pub used : ℕ
  pub discard : Bool
  pub bad : Bool

abbrev pub new : Framer
new = record { buffer = replicate 513 0; used = 0; discard = false; bad = false }

unfoldable pub reset : Framer → Framer
reset f = record f { used = 0; discard = false; bad = false }

unfoldable pub end_line : Framer → FrameResult × Framer
end_line f = (
  if f.bad then invalid else if f.discard then too_long else line,
  record f { buffer = set f.buffer f.used 0; used = 0; discard = false; bad = false },
)

unfoldable pub note_nul : ℕ → Framer → Framer
note_nul byte f = if byte == 0 then record f { bad = true; discard = true } else f

unfoldable pub push : ℕ → Framer → FrameResult × Framer
unfolding end_line note_nul
push byte f =
    if byte == b'\n'
    then end_line f
    else (let g = note_nul byte f in
        if g.discard
        then (no_result, g)
        else if g.used == max_request
        then (no_result, record g { discard = true })
        else (no_result, record g { buffer = set g.buffer g.used byte; used = g.used + 1 }))

-- The framer after bytes that end no line.
unfoldable pub feed : List ℕ → Framer → Framer
feed [] f = f
feed (b ∷ bs) f = feed bs (push b f).1
