-- ===== src/UsbOutput/Message.antt =====
-- `JsonOutput`: one message, built by appends that either fit whole or spoil it. What `vsnprintf`
-- makes of a format is an argument: the bytes that it formats.
use tankervision_pdb.Common.{
  ℕ, Bool, true, false, not, ◌-◌, ◌||◌, ◌==◌, leb, ltb, if◌then◌else◌, List, [], ◌∷◌, ◌++◌, length,
}

abbrev pub max_message : ℕ
max_message = 8192

-- `bytes` are the first `size_` bytes of the buffer.
pub record JsonOutput : Type 0 where
  pub bytes : List ℕ
  pub fits : Bool

abbrev pub new : JsonOutput
new = record { bytes = []; fits = true }

unfoldable pub clear : JsonOutput → JsonOutput
clear m = new

unfoldable pub add : List ℕ → JsonOutput → JsonOutput
add formatted m =
    if not m.fits
    then m
    else if leb (max_message - length m.bytes) (length formatted)
    then record m { fits = false }
    else record m { bytes = m.bytes ++ formatted }

-- `hex4` is what the format `\u%04x` puts behind its `\u`.
module _ (hex4 : ℕ → List ℕ) where
  abbrev pub escaped : ℕ → List ℕ
  escaped c =
      if c == b'"' || c == b'\\'
      then b'\\' ∷ c ∷ []
      else if ltb c 32
      then b'\\' ∷ b'u' ∷ hex4 c
      else c ∷ []

  unfoldable pub add_all : List ℕ → JsonOutput → JsonOutput
  unfolding add
  add_all [] m = m
  add_all (c ∷ s) m = add_all s (add (escaped c) m)

  unfoldable pub quoted : List ℕ → JsonOutput → JsonOutput
  unfolding add add_all
  quoted s m = add (b'"' ∷ []) (add_all s (add (b'"' ∷ []) m))
