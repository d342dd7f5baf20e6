-- ===== src/UsbOutput/Service.antt =====
-- What `service` does to the bytes that are waiting.
use tankervision_pdb.Common.{
  ℕ, true, false, ◌+◌, ◌-◌, ◌%◌, ◌<◌, ◌≤◌, ◌≡◌, ◌≢◌, ◌==◌, if◌then◌else◌, List, [], ◌∷◌, ◌++◌,
  length, take, drop, set, get_or, length-set, get_or-set_self, arith, refl, append_assoc,
  append-nil, ◌⊎◌, ◌∙◌, take-append-drop_add, drop-length, Bool-cases, inl, inr,
}
use tankervision_pdb.UsbOutput.Queue.{
  Slot, empty_slot, UsbOutput, UsbPort, chunk, write_head, service,
}
use tankervision_pdb.UsbOutput.Window.{window, unsent, window_of_ne_zero, window-set_outside}
use tankervision_pdb.UsbOutput.Enqueue.{waiting, IsValid}

module _ (p : UsbPort) (honest : (n : ℕ) → p.takes n ≤ n) where
  -- The head slot after a piece of it has gone out.
  piece : UsbOutput → ℕ
  unfolding chunk
  piece u = p.takes (chunk p (get_or u.slots u.head empty_slot))

  moved : UsbOutput → Slot
  moved u = let s = get_or u.slots u.head empty_slot in record s { at = s.at + piece u }

  piece-le :
      (u : UsbOutput)
      → let s = get_or u.slots u.head empty_slot in piece u ≤ length s.message - s.at
  unfolding piece chunk
  piece-le u = ground (arith, honest (chunk p (get_or u.slots u.head empty_slot)))

  rest : UsbOutput → List Slot
  rest u = window u.slots ((u.head + 1) % 6) (u.count - 1)

  window-head :
      (u : UsbOutput)
      → u.count ≢ 0
      → window u.slots u.head u.count ≡ get_or u.slots u.head empty_slot ∷ rest u
  unfolding rest
  window-head u n = window_of_ne_zero u.slots u.head u.count n

  -- Writing to the head slot does not touch the others.
  window-moved :
      (u : UsbOutput)
      → IsValid u
      → u.count ≢ 0
      → (get_or (set u.slots u.head (moved u)) u.head empty_slot ≡ moved u)
        × (window (set u.slots u.head (moved u)) ((u.head + 1) % 6) (u.count - 1) ≡ rest u)
  unfolding rest
  window-moved u v n = (
    get_or-set_self u.slots u.head (moved u) empty_slot (omega (arith, v)),
    window-set_outside u.slots u.head (u.count - 1) ((u.head + 1) % 6) 5 (moved u) (omega arith)
        v.head_in (omega (arith, v.head_in)) (omega (arith, v)) (omega arith),
  )

  written-window :
      (u : UsbOutput)
      → IsValid u
      → u.count ≢ 0
      → let w = (write_head p u).0 in
        window w.slots w.head w.count
        ≡ (if (moved u).at == length (moved u).message then rest u else moved u ∷ rest u)
  unfolding write_head moved piece
  written-window u v n =
      ground (
        arith,
        window-moved u v n,
        window_of_ne_zero (set u.slots u.head (moved u)) u.head u.count n,
      )

  write_head-shape :
      (u : UsbOutput)
      → IsValid u
      → u.count ≢ 0
      → let w = (write_head p u).0 in
        (length w.slots ≡ 6)
        × (w.head < 6)
        × (w.count ≤ 6)
        × (w.connected ≡ u.connected)
        × (w.separator ≡ u.separator)
  unfolding write_head moved piece
  write_head-shape u v n = ground (arith, v, length-set {0} u.slots u.head (moved u))

  write_head-IsValid : (u : UsbOutput) → IsValid u → u.count ≢ 0 → IsValid (write_head p u).0
  unfolding moved
  write_head-IsValid u v n =
      ground (arith, v, write_head-shape u v n, written-window u v n, window-head u n, piece-le u)

  write_head-out :
      (u : UsbOutput)
      → (write_head p u).1
        ≡ (let s = get_or u.slots u.head empty_slot in take (piece u) (drop s.at s.message))
  unfolding write_head piece
  write_head-out u = refl

  -- A piece of the oldest message goes out, and the rest stays in front.
  waiting-write_head :
      (u : UsbOutput)
      → IsValid u
      → u.count ≢ 0
      → (write_head p u).1 ++ waiting (write_head p u).0 ≡ waiting u
  unfolding waiting moved
  waiting-write_head u v n =
      let s = get_or u.slots u.head empty_slot in
      rw (write_head-out u, written-window u v n, window-head u n)
        (ground (
          arith,
          take-append-drop_add (piece u) s.at s.message,
          append_assoc (take (piece u) (drop s.at s.message)) (drop (s.at + piece u) s.message)
              (unsent (rest u)),
          drop-length (s.at + piece u) s.message,
          append-nil (take (piece u) (drop s.at s.message)),
        ))

  opened : UsbOutput → UsbOutput
  opened u = record u { connected = true }

  opened-separator : (u : UsbOutput) → (opened u).separator ≡ u.separator
  unfolding opened
  opened-separator u = refl

  opened-IsValid : (u : UsbOutput) → IsValid u → IsValid (opened u)
  unfolding opened
  opened-IsValid u v = ground (arith, v)

  -- `service` either writes a piece of the oldest message or leaves the queue as it is.
  service-cases :
      (u : UsbOutput)
      → p.connected ≡ true
      → u.separator ≡ false
      → ((service p u ≡ (opened u, [])) ⊎ ((u.count ≢ 0) × (service p u ≡ write_head p (opened u))))
  unfolding service opened
  service-cases u c s = ground arith

  waiting-opened : (u : UsbOutput) → waiting (opened u) ≡ waiting u
  unfolding waiting opened
  waiting-opened u = refl

  -- On an open connection whose separator is out, what `service` writes is exactly what leaves the
  -- front of the waiting bytes: no byte is lost, repeated or reordered.
  pub waiting-service :
      (u : UsbOutput)
      → IsValid u
      → p.connected ≡ true
      → u.separator ≡ false
      → (service p u).1 ++ waiting (service p u).0 ≡ waiting u
  waiting-service u v c s = elim (service-cases u c s) [
    | inl e ↦ rw e (waiting-opened u)
    | inr (n, e) ↦
        rw e (
          waiting-write_head (opened u) (opened-IsValid u v) (unfold opened in n)
          ∙ waiting-opened u)
  ]

  service-closed :
      (u : UsbOutput)
      → IsValid u
      → p.connected ≡ false
      → let w = (service p u).0 in
        (w.slots ≡ u.slots)
        × (w.head < 6)
        × ((w.count ≡ 0) ⊎ (w.connected ≡ false) × (w.count ≡ u.count) × (w.head ≡ u.head))
  unfolding service
  service-closed u v c = ground (arith, v)

  service-quiet :
      (u : UsbOutput)
      → p.connected ≡ true
      → u.separator ≡ true
      → let w = (service p u).0 in (w.slots ≡ u.slots) × (w.head ≡ u.head) × (w.count ≡ u.count)
  unfolding service
  service-quiet u c s = ground arith

  -- `service` keeps the queue valid, whatever the port answers.
  pub service-IsValid : (u : UsbOutput) → IsValid u → IsValid (service p u).0
  service-IsValid u v = elim (Bool-cases p.connected) [
    | inl c ↦ elim (Bool-cases u.separator) [
      | inl s ↦ ground (arith, v, service-quiet u c s)
      | inr s ↦ elim (service-cases u c s) [
        | inl e ↦ rw e (opened-IsValid u v)
        | inr (n, e) ↦
            rw e (write_head-IsValid (opened u) (opened-IsValid u v) (unfold opened in n))
      ]
    ]
    | inr c ↦ ground (arith, v, service-closed u v c)
  ]

  pub service-open :
      (u : UsbOutput)
      → IsValid u
      → p.connected ≡ true
      → u.separator ≡ false
      → (service p u).0.separator ≡ false
  service-open u v c s = elim (service-cases u c s) [
    | inl e ↦ rw e (unfold opened in s)
    | inr (n, e) ↦ rw e (
        ground (
          arith,
          write_head-shape (opened u) (opened-IsValid u v) (unfold opened in n),
          s,
          opened-separator u,
        ))
  ]
