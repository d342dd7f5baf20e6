-- ===== src/UsbOutput/Enqueue.antt =====
-- What `enqueue` does to the bytes that are waiting.
use tankervision_pdb.Common.{
  ℕ, Bool, true, false, ◌+◌, ◌%◌, ◌<◌, ◌≤◌, ◌≡◌, List, [], ◌∷◌, ◌++◌, length, add32, length-set,
  arith, refl, append-nil, Bool-cases, inl, inr,
}
use tankervision_pdb.UsbOutput.Message.{JsonOutput}
use tankervision_pdb.UsbOutput.Queue.{UsbOutput, enqueue}
use tankervision_pdb.UsbOutput.Window.{
  window, unsent, AllWithin, window-set_end, unsent-append, AllWithin-append,
}

-- The bytes that are waiting, oldest first.
unfoldable pub waiting : UsbOutput → List ℕ
waiting u = unsent (window u.slots u.head u.count)

pub record IsValid (u : UsbOutput) : Type 0 where
  pub slots_six : length u.slots ≡ 6
  pub head_in : u.head < 6
  pub count_in : u.count ≤ 6
  pub within : AllWithin (window u.slots u.head u.count)

enqueued-window :
    (m : JsonOutput) (t : Bool) (u : UsbOutput)
    → IsValid u
    → (enqueue m t u).0 ≡ true
    → let v = (enqueue m t u).1 in
      window v.slots v.head v.count
      ≡ window u.slots u.head u.count ++ record { message = m.bytes; at = 0 } ∷ []
unfolding enqueue
enqueued-window m t u v h = ground (
  arith,
  v,
  window-set_end u.slots ((u.head + u.count) % 6) u.count u.head
      (record { message = m.bytes; at = 0 }) v.slots_six v.head_in refl,
)

-- A message that is accepted joins the waiting bytes at their end, whole.
pub waiting-enqueue :
    (m : JsonOutput) (t : Bool) (u : UsbOutput)
    → IsValid u
    → (enqueue m t u).0 ≡ true
    → waiting (enqueue m t u).1 ≡ waiting u ++ m.bytes
unfolding waiting
waiting-enqueue m t u v h = rw (
  enqueued-window m t u v h,
  unsent-append (window u.slots u.head u.count) (record { message = m.bytes; at = 0 } ∷ []),
  append-nil,
)

enqueue-shape :
    (m : JsonOutput) (t : Bool) (u : UsbOutput)
    → IsValid u
    → let v = (enqueue m t u).1 in (length v.slots ≡ 6) × (v.head < 6) × (v.count ≤ 6)
unfolding enqueue
enqueue-shape m t u v = ground (
  arith,
  v,
  length-set {0} u.slots ((u.head + u.count) % 6) (record { message = m.bytes; at = 0 }),
)

enqueue-refused :
    (m : JsonOutput) (t : Bool) (u : UsbOutput)
    → (enqueue m t u).0 ≡ false
    → let v = (enqueue m t u).1 in (v.slots ≡ u.slots) × (v.head ≡ u.head) × (v.count ≡ u.count)
unfolding enqueue
enqueue-refused m t u h = ground arith

-- `enqueue` keeps the queue valid, whether it accepts the message or drops it.
pub enqueue-IsValid :
    (m : JsonOutput) (t : Bool) (u : UsbOutput) → IsValid u → IsValid (enqueue m t u).1
enqueue-IsValid m t u v = elim (Bool-cases (enqueue m t u).0) [
  | inl done ↦ ground (
    arith,
    v,
    enqueue-shape m t u v,
    enqueued-window m t u v done,
    AllWithin-append (window u.slots u.head u.count) (record { message = m.bytes; at = 0 })
        v.within,
  )
  | inr full ↦ ground (arith, v, enqueue-refused m t u full)
]

-- A refused message leaves what is waiting as it was, and is counted.
pub waiting-enqueue_refused :
    (m : JsonOutput) (t : Bool) (u : UsbOutput)
    → (enqueue m t u).0 ≡ false
    → (waiting (enqueue m t u).1 ≡ waiting u) × ((enqueue m t u).1.dropped ≡ add32 u.dropped 1)
unfolding waiting enqueue
waiting-enqueue_refused m t u h = ground arith
