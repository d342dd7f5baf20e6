-- ===== src/UsbOutput/Tests.antt =====
-- The output queue on concrete messages.
use tankervision_pdb.Common.{ℕ, true, false, ◌≡◌, ◌≤◌, List, [], ◌∷◌, ◌++◌, arith, refl, codes, min}
use tankervision_pdb.UsbOutput.Message.{JsonOutput}
use tankervision_pdb.UsbOutput.Queue.{Slot, UsbOutput, UsbPort, enqueue, service, write_head, chunk}
use tankervision_pdb.UsbOutput.Queue
use tankervision_pdb.UsbOutput.Enqueue.{waiting, IsValid}
use tankervision_pdb.UsbOutput.Session.{Op, send, serve, StaysOpen, run, accepted, run-stream}

-- A connected queue whose separator is out.
abbrev connected : UsbOutput
connected = record (Queue.new) { connected = true; separator = false }

connected-IsValid : IsValid connected
connected-IsValid = ground arith

-- A port that takes two bytes at most.
abbrev slow : UsbPort
slow = record { connected = true; takes_separator = true; available = 64; takes = λ n. min 2 n }

slow-honest : (n : ℕ) → min 2 n ≤ n
slow-honest n = omega arith

slow-StaysOpen : StaysOpen slow
slow-StaysOpen = record { open_now = refl; honest = slow-honest }

abbrev hello : JsonOutput
hello = record { bytes = codes "abc"; fits = true }

abbrev ops : List Op
ops = send hello false ∷ serve slow ∷ send hello true ∷ serve slow ∷ serve slow ∷ []

run-stream_bytes :
    ((run ops connected).1 ≡ codes "abcab") × (accepted ops connected ≡ codes "abcabc")
unfolding run accepted enqueue service
run-stream_bytes = (refl, refl)

run-stream_example :
    (run ops connected).1 ++ waiting (run ops connected).0
    ≡ waiting connected ++ accepted ops connected
run-stream_example =
    run-stream ops connected connected-IsValid refl
      (slow-StaysOpen, (slow-StaysOpen, (slow-StaysOpen, tt)))
