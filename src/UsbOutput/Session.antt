-- ===== src/UsbOutput/Session.antt =====
-- A whole session on one connection: what the host reads is the accepted messages, in order.
use tankervision_pdb.Common.{
  ℕ, Bool, true, false, ◌≤◌, ◌≡◌, if◌then◌else◌, List, [], ◌∷◌, ◌++◌, arith, append_assoc,
  append-nil, sym, ◌∙◌, Bool-cases, inl, inr,
}
use tankervision_pdb.UsbOutput.Message.{JsonOutput}
use tankervision_pdb.UsbOutput.Queue.{UsbOutput, UsbPort, enqueue, service}
use tankervision_pdb.UsbOutput.Enqueue.{
  waiting, IsValid, waiting-enqueue, waiting-enqueue_refused, enqueue-IsValid,
}
use tankervision_pdb.UsbOutput.Service.{waiting-service, service-IsValid, service-open}

pub data Op : Type 0 where
  send : JsonOutput → Bool → Op
  serve : UsbPort → Op

-- The queue after the calls, and the bytes that the host has read.
unfoldable pub run : List Op → UsbOutput → UsbOutput × List ℕ
run [] u = (u, [])
run (send m t ∷ ops) u = run ops (enqueue m t u).1
run (serve p ∷ ops) u = let (v, out) = run ops (service p u).0 in (v, (service p u).1 ++ out)

-- The bytes of the messages that were accepted.
unfoldable pub accepted : List Op → UsbOutput → List ℕ
accepted [] u = []
accepted (send m t ∷ ops) u =
    let (took, v) = enqueue m t u in
    let rest = accepted ops v in if took then m.bytes ++ rest else rest
accepted (serve p ∷ ops) u = accepted ops (service p u).0

-- The host stays connected, and the port takes at most what it is given.
pub record StaysOpen (p : UsbPort) : Type 0 where
  pub open_now : p.connected ≡ true
  pub honest : (n : ℕ) → p.takes n ≤ n

abbrev pub AllOpen : List Op → Type 0
AllOpen [] = Unit {0}
AllOpen (send m t ∷ ops) = AllOpen ops
AllOpen (serve p ∷ ops) = StaysOpen p × AllOpen ops

enqueue-separator :
    (m : JsonOutput) (t : Bool) (u : UsbOutput) → (enqueue m t u).1.separator ≡ u.separator
unfolding enqueue
enqueue-separator m t u = ground arith

-- While a connection stays open and its separator is out, the bytes that the host has read and
-- those still waiting are together the bytes that waited before and the accepted messages, whole
-- and in the order of acceptance, whatever the port's answers.
pub run-stream :
    (ops : List Op) (u : UsbOutput)
    → IsValid u
    → u.separator ≡ false
    → AllOpen ops
    → (run ops u).1 ++ waiting (run ops u).0 ≡ waiting u ++ accepted ops u
unfolding run accepted
run-stream [] u v s o = sym (append-nil (waiting u))
run-stream (send m t ∷ ops) u v s o = elim (Bool-cases (enqueue m t u).0) [
  | inl e ↦ ground (
    arith,
    run-stream ops (enqueue m t u).1 (enqueue-IsValid m t u v) (enqueue-separator m t u ∙ s) o,
    waiting-enqueue m t u v e,
    append_assoc (waiting u) m.bytes (accepted ops (enqueue m t u).1),
  )
  | inr e ↦ ground (
    arith,
    run-stream ops (enqueue m t u).1 (enqueue-IsValid m t u v) (enqueue-separator m t u ∙ s) o,
    waiting-enqueue_refused m t u e,
  )
]
run-stream (serve p ∷ ops) u v s o =
    let w = (service p u).0 in
    ground (
      arith,
      run-stream ops w (service-IsValid p o.0.honest u v)
          (service-open p o.0.honest u v o.0.open_now s) o.1,
      waiting-service p o.0.honest u v o.0.open_now s,
      append_assoc (service p u).1 (run ops w).1 (waiting (run ops w).0),
      append_assoc (service p u).1 (waiting w) (accepted ops w),
    )
