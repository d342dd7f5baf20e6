-- ===== src/UsbOutput/Window.antt =====
-- The slots of the queue in use, as a list.
use tankervision_pdb.Common.{
  ℕ, zero, suc, ◌+◌, ◌-◌, ◌%◌, ◌<◌, ◌≤◌, ◌≡◌, ◌≢◌, List, [], ◌∷◌, ◌++◌, length, drop, set, get_or,
  get_or-set_self, get_or-set_ne, arith, refl, ap, ap₂, add-one, subst, append_assoc, sym,
}
use tankervision_pdb.UsbOutput.Queue.{Slot, empty_slot}

-- The `n` slots from index `h` on, going round.
abbrev pub window : List Slot → ℕ → ℕ → List Slot
window xs h zero = []
window xs h (suc n) = get_or xs h empty_slot ∷ window xs ((h + 1) % 6) n

-- The bytes of these slots that have not gone out.
abbrev pub unsent : List Slot → List ℕ
unsent [] = []
unsent (s ∷ ss) = drop s.at s.message ++ unsent ss

abbrev pub AllWithin : List Slot → Type 0
AllWithin [] = Unit {0}
AllWithin (s ∷ ss) = (s.at ≤ length s.message) × AllWithin ss

pub window_of_ne_zero :
    (xs : List Slot) (h n : ℕ)
    → n ≢ 0
    → window xs h n ≡ get_or xs h empty_slot ∷ window xs ((h + 1) % 6) (n - 1)
window_of_ne_zero xs h zero p = absurd (p refl)
window_of_ne_zero xs h (suc n) p = ap (λ k. window xs h (suc k)) (omega arith)

-- A write outside a window leaves it.
pub window-set_outside :
    (xs : List Slot) (i n h k : ℕ) (v : Slot)
    → h < 6
    → i < 6
    → (h + k) % 6 ≡ i
    → n ≤ k
    → k < 6
    → window (set xs i v) h n ≡ window xs h n
window-set_outside xs i zero h k v lh li e le lk = refl
window-set_outside xs i (suc n) h zero v lh li e le lk = absurd (omega arith)
window-set_outside xs i (suc n) h (suc k) v lh li e le lk =
    ap₂ ◌∷◌ (get_or-set_ne xs i h v empty_slot (omega arith)) (
      window-set_outside xs i n ((h + 1) % 6) k v (omega arith) li (omega arith) (omega arith)
        (omega arith))

-- Writing just past a window extends it.
pub window-set_end :
    (xs : List Slot) (i n h : ℕ) (v : Slot)
    → length xs ≡ 6
    → h < 6
    → (h + n) % 6 ≡ i
    → n < 6
    → window (set xs i v) h (n + 1) ≡ window xs h n ++ v ∷ []
window-set_end xs i n h v l lh e ln = rw add-one (go n h lh e ln)
  where
    go :
        (n h : ℕ)
        → h < 6
        → (h + n) % 6 ≡ i
        → n < 6
        → window (set xs i v) h (suc n) ≡ window xs h n ++ v ∷ []
    go zero h lh e ln =
        ap (λ (x : Slot). x ∷ [])
          (subst (λ j. get_or (set xs i v) j empty_slot ≡ v) (omega arith)
            (get_or-set_self xs i v empty_slot (omega arith)))
    go (suc n) h lh e ln =
        ap₂ ◌∷◌ (get_or-set_ne xs i h v empty_slot (omega arith))
          (go n ((h + 1) % 6) (omega arith) (omega arith) (omega arith))

pub unsent-append : (a b : List Slot) → unsent (a ++ b) ≡ unsent a ++ unsent b
unsent-append [] b = refl
unsent-append (s ∷ ss) b =
    rw (unsent-append ss b) (sym (append_assoc (drop s.at s.message) (unsent ss) (unsent b)))

pub AllWithin-append :
    (a : List Slot) (s : Slot) → AllWithin a → s.at ≤ length s.message → AllWithin (a ++ s ∷ [])
AllWithin-append [] s h l = (l, tt)
AllWithin-append (x ∷ xs) s h l = (h.0, AllWithin-append xs s h.1 l)
