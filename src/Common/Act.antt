-- ===== src/Common/Act.antt =====
-- Methods that change a state and may return early: `none` is a `false` that is returned at once.
-- Rules for what such a method keeps, and for what it ensures.
use mathlib.Core.Bool.{Bool, true, false}
use mathlib.Core.Path.{◌≡◌, refl, ap}
use mathlib.Core.Option.{Option, none, some}
use tankervision_pdb.Common.Tests.{if◌then◌else◌}

abbrev pub Act : Type 0 → Type 0 → Type 0
Act S A = S → Option A × S

module _ {S A : Type 0} where
  unfoldable pub pure : A → Act S A
  pure a s = (some a, s)

  unfoldable pub stop_here : Act S A
  stop_here s = (none, s)

  -- A call whose failure is a value, so that what follows goes on.
  unfoldable pub attempt : Act S A → Act S Bool
  attempt m s = let (r, t) = m s in (some (elim r [ none ↦ false | some _ ↦ true ]), t)

  unfoldable pub optional : Act S A → Act S (Option A)
  optional m s = let (r, t) = m s in (some r, t)

  -- A call that returns a value and a new state.
  unfoldable pub call : (S → A × S) → Act S A
  call f s = let (a, t) = f s in (some a, t)

  unfoldable pub gets : (S → A) → Act S A
  gets f s = (some (f s), s)

module _ {S : Type 0} where
  unfoldable pub modify : (S → S) → Act S (Unit {0})
  modify f s = (some tt, f s)

  -- The state after a method whose result is dropped.
  abbrev pub after : {A : Type 0} → Act S A → S → S
  after m s = (m s).1

module _ {S A B : Type 0} where
  unfoldable pub continue : (A → Act S B) → Option A → Act S B
  continue f none s = (none, s)
  continue f (some a) s = f a s

  infixl 10 ◌>>=◌ ◌>>◌
  unfoldable pub ◌>>=◌ : Act S A → (A → Act S B) → Act S B
  unfolding continue pure stop_here call gets modify
  ◌>>=◌ m f s = let (r, t) = m s in continue f r t

  abbrev pub ◌>>◌ : Act S A → Act S B → Act S B
  m >> k = m >>= λ _. k

-- Where `P` holds before the method it holds after it, also after an early return.
pub record Keeps {S A : Type 0} (P : S → Type 0) (m : Act S A) : Type 0 where
  pub holds : (s : S) → P s → P (after m s)

-- The rest may use how its value came about.
after-continue_from :
    {S A B : Type 0} (P : S → Type 0) (rest : A → Act S B) (o : Option A) (u : S)
    → ((a : A) → o ≡ some a → P (after (rest a) u))
    → P u
    → P (after (continue rest o) u)
unfolding continue
after-continue_from P rest none u each p = p
after-continue_from P rest (some a) u each p = each a refl

module _ {S : Type 0} {P : S → Type 0} where
  pub Keeps-pure : {A : Type 0} (a : A) → Keeps P (pure a)
  unfolding pure
  Keeps-pure a = record { holds = λ _ p. p }

  pub Keeps-gets : {A : Type 0} (f : S → A) → Keeps P (gets f)
  unfolding gets
  Keeps-gets f = record { holds = λ _ p. p }

  pub Keeps-stop : {A : Type 0} → Keeps P (stop_here {A = A})
  unfolding stop_here
  Keeps-stop = record { holds = λ _ p. p }

  pub Keeps-attempt : {A : Type 0} (m : Act S A) → Keeps P m → Keeps P (attempt m)
  unfolding attempt
  Keeps-attempt m k = record { holds = k.holds }

  pub Keeps-optional : {A : Type 0} (m : Act S A) → Keeps P m → Keeps P (optional m)
  unfolding optional
  Keeps-optional m k = record { holds = k.holds }

  -- Whichever branch is taken.
  pub Keeps-if :
      {A : Type 0} (b : Bool) (m n : Act S A) → Keeps P m → Keeps P n → Keeps P (if b then m else n)
  Keeps-if true m n yes_case no_case = yes_case
  Keeps-if false m n yes_case no_case = no_case

  pub after-continue :
      {A B : Type 0} (rest : A → Act S B)
      → ((a : A) → Keeps P (rest a))
      → (o : Option A) (u : S) → P u
      → P (after (continue rest o) u)
  unfolding continue
  after-continue rest each none u p = p
  after-continue rest each (some a) u p = (each a).holds u p

  -- One step and the rest, which may use the step's value.
  pub Keeps-bind :
      {A B : Type 0} (first : Act S A) (rest : A → Act S B)
      → Keeps P first
      → ((a : A) → Keeps P (rest a))
      → Keeps P (first >>= rest)
  unfolding ◌>>=◌
  Keeps-bind first rest k each = record {
    holds = λ s p. after-continue rest each (first s).0 (first s).1 (k.holds s p);
  }

  pub Keeps-bind_from :
      {A B : Type 0} (first : Act S A) (rest : A → Act S B)
      → Keeps P first
      → ((s : S) (a : A)
          → P s
          → (first s).0 ≡ some a
          → P (first s).1
          → P (after (rest a) (first s).1))
      → Keeps P (first >>= rest)
  unfolding ◌>>=◌
  Keeps-bind_from first rest k each = record {
    holds = λ s p.
        after-continue_from P rest (first s).0 (first s).1 (λ a e. each s a p e (k.holds s p))
          (k.holds s p);
  }

module _ {S A B : Type 0} (P : S → Type 0) where
  -- What is read is a value of the state that the rest starts in.
  pub gets_rule :
      (f : S → A) (k : A → Act S B) (s : S) → P (after (k (f s)) s) → P (after (gets f >>= k) s)
  unfolding ◌>>=◌
  gets_rule f k s h = h

-- A result that is no early return, in a state where `P` holds.
pub record Ended {S A : Type 0} (P : S → Type 0) (o : Option A × S) : Type 0 where
  pub value : A
  pub outcome : o.0 ≡ some value
  pub kept : P o.1

-- Where `P` holds before the method, the method returns a value and `P` holds after it.
pub record Ends {S A : Type 0} (P : S → Type 0) (m : Act S A) : Type 0 where
  pub ends : (s : S) → P s → Ended P (m s)

module _ {S : Type 0} {P : S → Type 0} where
  pub Ends-pure : {A : Type 0} (a : A) → Ends P (pure a)
  unfolding pure
  Ends-pure a = record { ends = λ _ p. record { value = a; outcome = refl; kept = p } }

  pub Ends-gets : {A : Type 0} (f : S → A) → Ends P (gets f)
  unfolding gets
  Ends-gets f = record { ends = λ s p. record { value = f s; outcome = refl; kept = p } }

  -- Whichever branch is taken.
  pub Ends-if :
      {A : Type 0} (b : Bool) (m n : Act S A) → Ends P m → Ends P n → Ends P (if b then m else n)
  Ends-if true m n yes_case no_case = yes_case
  Ends-if false m n yes_case no_case = no_case

  continue-Ended :
      {A B : Type 0} (rest : A → Act S B)
      → ((a : A) → Ends P (rest a))
      → (o : Option A) (u : S) → Ended P (o, u)
      → Ended P (continue rest o u)
  unfolding continue
  continue-Ended rest each none u e = cc
  continue-Ended rest each (some a) u e = (each a).ends u e.kept

  -- One step and the rest, which may use the step's value.
  pub Ends-bind :
      {A B : Type 0} (first : Act S A) (rest : A → Act S B)
      → Ends P first
      → ((a : A) → Ends P (rest a))
      → Ends P (first >>= rest)
  unfolding ◌>>=◌
  Ends-bind first rest k each = record {
    ends = λ s p. continue-Ended rest each (first s).0 (first s).1 (k.ends s p);
  }

continue-some :
    {S A B : Type 0} (k : A → Act S B) (o : Option A) (u : S) (b : B)
    → (continue k o u).0 ≡ some b
    → (a : A) × (o ≡ some a) × ((k a u).0 ≡ some b)
unfolding continue
continue-some k none u b e = cc
continue-some k (some a) u b e = (a, refl, e)

-- Both steps of a sequence that succeeds have succeeded.
pub bind_some :
    {S A B : Type 0} (m : Act S A) (k : A → Act S B) (s : S) (b : B)
    → ((m >>= k) s).0 ≡ some b
    → (a : A) × ((m s).0 ≡ some a) × ((k a (m s).1).0 ≡ some b)
unfolding ◌>>=◌
bind_some m k s b e = continue-some k (m s).0 (m s).1 b e

-- A step that succeeds is followed by the rest.
pub bind_value :
    {S A B : Type 0} (m : Act S A) (k : A → Act S B) (s : S) (a : A)
    → (m s).0 ≡ some a
    → (m >>= k) s ≡ k a (after m s)
unfolding ◌>>=◌ continue
bind_value m k s a e = ap (λ o. continue k o (after m s)) e

-- The first step of a sequence that succeeds, and the rest behind it.
pub bind_split :
    {S A B : Type 0} (m : Act S A) (k : A → Act S B) (s : S) (b : B)
    → ((m >>= k) s).0 ≡ some b
    → (a : A) × ((m s).0 ≡ some a)
      × ((k a (after m s)).0 ≡ some b)
      × ((m >>= k) s ≡ k a (after m s))
bind_split m k s b e =
    let (a, first, rest) = bind_some m k s b e in (a, first, rest, bind_value m k s a first)
