-- ===== src/Protocol/Replay.antt =====
-- What the replay cache promises: a request is remembered until sixteen others have followed it.
use tankervision_pdb.Common.{
  ℕ, zero, suc, ◌+◌, ◌%◌, ◌<◌, ◌≤◌, ◌==◌, ◌≡◌, ◌≢◌, if◌then◌else◌, List, [], ◌∷◌, set, none, some,
  get_or, length, length-set, get_or-set_self, get_or-set_ne, arith, refl, u32_mod, subst, sym, ◌∙◌,
  get_or-set,
}
use native.Mathlib.Decide.{ℕ_discrete, dec_lt}
use tankervision_pdb.Protocol.Request.{Request, fingerprint}
use tankervision_pdb.Protocol.ReplayCache.{
  new, same, conflict, Reply, Entry, no_entry, ReplayCache, find, lookup, remember,
}

-- What `remember` writes.
abbrev entry_of : Request → Reply → Entry
entry_of r y = record { id = r.id; hash = fingerprint r; reply = y }

entry_at : List Entry → ℕ → Entry
entry_at xs i = get_or xs i no_entry

-- No entry, in use or not, has the id.
abbrev Absent : ℕ → List Entry → Type 0
Absent id xs = (i : ℕ) → (entry_at xs i).id ≢ id

-- The entry `e` stands at `j`, and no other has its id.
record OnlyAt (e : Entry) (xs : List Entry) (j : ℕ) : Type 0 where
  stands : entry_at xs j ≡ e
  alone : (i : ℕ) → i ≢ j → (entry_at xs i).id ≢ e.id

find-Absent : (id : ℕ) (xs : List Entry) → Absent id xs → find id xs ≡ none
unfolding find entry_at
find-Absent id [] h = refl
find-Absent id (x ∷ xs) h = ground (arith, h 0, find-Absent id xs (λ i. h (suc i)))

find-none : (id : ℕ) (xs : List Entry) → id ≢ 0 → find id xs ≡ none → Absent id xs
unfolding find entry_at
find-none id [] n h i = ground arith
find-none id (x ∷ xs) n h zero = ground arith
find-none id (x ∷ xs) n h (suc i) = find-none id xs n (ground arith) i

find-only : (e : Entry) (xs : List Entry) (j : ℕ) → e.id ≢ 0 → OnlyAt e xs j → find e.id xs ≡ some e
unfolding find entry_at
find-only e [] j n h = ground (arith, h.stands)
find-only e (x ∷ xs) zero n h = ground (arith, h.stands)
find-only e (x ∷ xs) (suc j) n h = ground (
  arith,
  h.alone 0,
  find-only e xs j n (record {
    stands = h.stands;
    alone = λ i ne. h.alone (suc i) (λ (p : suc i ≡ suc j). ne (omega arith));
  }),
)

OnlyAt-set_self :
    (e : Entry) (xs : List Entry) (j : ℕ) → j < length xs → Absent e.id xs → OnlyAt e (set xs j e) j
unfolding entry_at
OnlyAt-set_self e xs j h a = record {
  stands = get_or-set_self xs j e no_entry h;
  alone = λ i ne.
      subst (λ (t : Entry). t.id ≢ e.id) (sym (get_or-set_ne xs j i e no_entry (λ p. ne (sym p))))
        (a i);
}

OnlyAt-set_ne :
    (e d : Entry) (xs : List Entry) (j k : ℕ)
    → k ≢ j
    → d.id ≢ e.id
    → e.id ≢ 0
    → OnlyAt e xs j
    → OnlyAt e (set xs k d) j
unfolding entry_at
OnlyAt-set_ne e d xs j k ne h z o = record {
  stands = get_or-set_ne xs k j d no_entry ne ∙ o.stands;
  alone = λ i p. ground (arith, get_or-set xs k i d no_entry, o.alone i p);
}

Absent-set :
    (id : ℕ) (d : Entry) (xs : List Entry) (k : ℕ)
    → d.id ≢ id
    → Absent id xs
    → Absent id (set xs k d)
unfolding entry_at
Absent-set id d xs k h a i = ground (arith, get_or-set xs k i d no_entry, a i)

OnlyAt-overwritten :
    (e d : Entry) (xs : List Entry) (j : ℕ)
    → j < length xs
    → d.id ≢ e.id
    → OnlyAt e xs j
    → Absent e.id (set xs j d)
unfolding entry_at
OnlyAt-overwritten e d xs j l h o i = elim (ℕ_discrete j i) [
  | yes p ↦ ground (arith, get_or-set_self xs j d no_entry l)
  | no p ↦ ground (arith, get_or-set_ne xs j i d no_entry p, o.alone i)
]

pub record IsSized (c : ReplayCache) : Type 0 where
  pub slots : length c.entries ≡ 16
  pub in_range : c.next < u32_mod

remember-IsSized :
    (r : Request) (y : Reply) (c : ReplayCache) → IsSized c → IsSized (remember r y c)
unfolding remember
remember-IsSized r y c h = ground (arith, length-set {0} c.entries (c.next % 16) (entry_of r y))

-- Several requests remembered in turn.
unfoldable pub remember_all : List (Request × Reply) → ReplayCache → ReplayCache
remember_all [] c = c
remember_all ((r, y) ∷ rs) c = remember_all rs (remember r y c)

-- None of the requests has the id.
abbrev pub AllOther : ℕ → List (Request × Reply) → Type 0
AllOther id [] = Unit {0}
AllOther id ((r, y) ∷ rs) = (r.id ≢ id) × AllOther id rs

-- `e` was written `k` steps ago, into the slot `j`.
record Aged (e : Entry) (c : ReplayCache) (j k : ℕ) : Type 0 where
  sized : IsSized c
  only : OnlyAt e c.entries j
  slot : j < 16
  age : c.next % 16 ≡ (j + 1 + k) % 16

remember-Aged :
    (e : Entry) (r : Request) (y : Reply) (c : ReplayCache) (j k : ℕ)
    → k < 15
    → r.id ≢ e.id
    → e.id ≢ 0
    → Aged e c j k
    → Aged e (remember r y c) j (k + 1)
unfolding remember
remember-Aged e r y c j k l h n a = record {
  sized = remember-IsSized r y c a.sized;
  only =
      OnlyAt-set_ne e (entry_of r y) c.entries j (c.next % 16) (omega (arith, a.age, a.slot)) h n
        a.only;
  slot = a.slot;
  age = omega (arith, a.age, a.sized.in_range);
}

remember_all-Aged :
    (e : Entry) (rs : List (Request × Reply)) (c : ReplayCache) (j k : ℕ)
    → k + length rs ≤ 15
    → AllOther e.id rs
    → e.id ≢ 0
    → Aged e c j k
    → Aged e (remember_all rs c) j (k + length rs)
unfolding remember_all
remember_all-Aged e [] c j k l o n a = subst (Aged e c j) (omega arith) a
remember_all-Aged e ((r, y) ∷ rs) c j k l o n a =
    subst (Aged e (remember_all rs (remember r y c)) j) (omega arith) (
      remember_all-Aged e rs (remember r y c) j (k + 1) (omega arith) o.1 n
        (remember-Aged e r y c j k (omega arith) o.0 n a))

remember_new-Aged :
    (r : Request) (y : Reply) (c : ReplayCache)
    → r.id ≢ 0
    → IsSized c
    → find r.id c.entries ≡ none
    → Aged (entry_of r y) (remember r y c) (c.next % 16) 0
unfolding remember
remember_new-Aged r y c n s f = record {
  sized = remember-IsSized r y c s;
  only =
      OnlyAt-set_self (entry_of r y) c.entries (c.next % 16) (omega (arith, s.slots))
        (find-none r.id c.entries n f);
  slot = omega arith;
  age = omega (arith, s.in_range);
}

-- A new request that has been answered and remembered is found again until fifteen others with
-- other ids have followed: a request with its id gets its reply, as the same one if the
-- fingerprints agree and as a conflict if not.
pub lookup-remember_all :
    (r q : Request) (y out : Reply) (c : ReplayCache) (later : List (Request × Reply))
    → r.id ≢ 0
    → IsSized c
    → find r.id c.entries ≡ none
    → q.id ≡ r.id
    → length later ≤ 15
    → AllOther r.id later
    → lookup q out (remember_all later (remember r y c))
      ≡ (if fingerprint r == fingerprint q then same else conflict, y)
unfolding lookup
lookup-remember_all r q y out c later n s f e l o =
    let a =
      remember_all-Aged (entry_of r y) later (remember r y c) (c.next % 16) 0 (omega arith) o n
        (remember_new-Aged r y c n s f) in
    ground (
      arith,
      find-only (entry_of r y) (remember_all later (remember r y c)).entries (c.next % 16) n a.only,
    )

remember_all-Absent :
    (id : ℕ) (rs : List (Request × Reply)) (c : ReplayCache)
    → AllOther id rs
    → Absent id c.entries
    → Absent id (remember_all rs c).entries
unfolding remember_all remember
remember_all-Absent id [] c o a = a
remember_all-Absent id ((r, y) ∷ rs) c o a =
    remember_all-Absent id rs (remember r y c) o.1
      (Absent-set id (entry_of r y) c.entries (c.next % 16) o.0 a)

last_slot :
    (e : Entry) (r : Request) (y : Reply) (c : ReplayCache) (j k : ℕ)
    → k ≡ 15
    → r.id ≢ e.id
    → Aged e c j k
    → Absent e.id (remember r y c).entries
unfolding remember
last_slot e r y c j k l h a =
    subst (λ i. Absent e.id (set c.entries i (entry_of r y))) (omega (arith, a.age, a.slot))
      (OnlyAt-overwritten e (entry_of r y) c.entries j (omega (arith, a.slot, a.sized.slots)) h
        a.only)

remember_all-evicts :
    (e : Entry) (rs : List (Request × Reply)) (c : ReplayCache) (j k : ℕ)
    → k ≤ 15
    → 16 ≤ k + length rs
    → AllOther e.id rs
    → e.id ≢ 0
    → Aged e c j k
    → Absent e.id (remember_all rs c).entries
unfolding remember_all
remember_all-evicts e [] c j k m l o n a = absurd (omega arith)
remember_all-evicts e ((r, y) ∷ rs) c j k m l o n a = elim (dec_lt k 15) [
  | yes p ↦
      remember_all-evicts e rs (remember r y c) j (k + 1) (omega arith) (omega arith) o.1 n
        (remember-Aged e r y c j k p o.0 n a)
  | no p ↦
      remember_all-Absent e.id rs (remember r y c) o.1 (last_slot e r y c j k (omega arith) o.0 a)
]

-- Once sixteen or more other requests have followed, its slot has been reused: the id is new again,
-- so a repeated request would be carried out a second time.
pub lookup-evicted :
    (r q : Request) (y out : Reply) (c : ReplayCache) (later : List (Request × Reply))
    → r.id ≢ 0
    → IsSized c
    → find r.id c.entries ≡ none
    → q.id ≡ r.id
    → 16 ≤ length later
    → AllOther r.id later
    → lookup q out (remember_all later (remember r y c)) ≡ (new, out)
unfolding lookup
lookup-evicted r q y out c later n s f e l o =
    let a =
      remember_all-evicts (entry_of r y) later (remember r y c) (c.next % 16) 0 (omega arith)
        (omega arith) o n (remember_new-Aged r y c n s f) in
    ground (arith, find-Absent r.id (remember_all later (remember r y c)).entries a)
