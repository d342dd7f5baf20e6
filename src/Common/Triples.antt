-- ===== src/Common/Triples.antt =====
-- What a method that changes a state ensures where it succeeds, by rules for its parts.
use mathlib.Core.Bool.{Bool, true, false}
use mathlib.Core.Option.{Option, none, some}
use mathlib.Core.Path.{◌≡◌, refl, subst}
use tankervision_pdb.Common.Tests.{if◌then◌else◌}
use tankervision_pdb.Common.Act.{
  Act, pure, stop_here, gets, modify, call, attempt, continue, after, ◌>>=◌, Keeps,
}

-- From a state in which `P` holds, a value that the method returns and the state behind it are in `Q`.
pub record Triple {S A : Type 0} (P : S → Type 0) (m : Act S A) (Q : A → S → Type 0) : Type 0 where
  pub ensured : (s : S) → P s → (a : A) → (m s).0 ≡ some a → Q a (m s).1

some-inj : {A : Type 0} (a b : A) → some a ≡ some b → a ≡ b
some-inj a b e = cc

continue_rule :
    {S A B : Type 0} {Q : A → S → Type 0} {U : B → S → Type 0} (rest : A → Act S B)
    → ((a : A) → Triple (Q a) (rest a) U)
    → (o : Option A) (u : S) → ((a : A) → o ≡ some a → Q a u)
    → (b : B) → (continue rest o u).0 ≡ some b
    → U b (continue rest o u).1
unfolding continue
continue_rule rest each none u q b e = cc
continue_rule rest each (some a) u q b e = (each a).ensured u (q a refl) b e

attempt_rule :
    {S A : Type 0} (Q : Bool → S → Type 0) (o : Option A) (u : S)
    → ((a : A) → o ≡ some a → Q true u)
    → Q false u
    → Q (elim o [ none ↦ false | some _ ↦ true ]) u
attempt_rule Q none u yes_case no_case = no_case
attempt_rule Q (some a) u yes_case no_case = yes_case a refl

module _ {S : Type 0} {P : S → Type 0} where
  pub Triple-pure :
      {A : Type 0} {Q : A → S → Type 0} (a : A) → ((s : S) → P s → Q a s) → Triple P (pure a) Q
  unfolding pure
  Triple-pure {Q = Q} a h = record {
    ensured = λ s p b e. subst (λ x. Q x s) (some-inj a b e) (h s p);
  }

  pub Triple-stop : {A : Type 0} {Q : A → S → Type 0} → Triple P (stop_here {A = A}) Q
  unfolding stop_here
  Triple-stop = record { ensured = λ s p a e. cc }

  pub Triple-gets :
      {A : Type 0} {Q : A → S → Type 0} (f : S → A)
      → ((s : S) → P s → Q (f s) s)
      → Triple P (gets f) Q
  unfolding gets
  Triple-gets {Q = Q} f h = record {
    ensured = λ s p b e. subst (λ x. Q x s) (some-inj (f s) b e) (h s p);
  }

  pub Triple-modify :
      {Q : Unit {0} → S → Type 0} (f : S → S) → ((s : S) → P s → Q tt (f s)) → Triple P (modify f) Q
  unfolding modify
  Triple-modify f h = record { ensured = λ s p a e. h s p }

  pub Triple-call :
      {A : Type 0} {Q : A → S → Type 0} (f : S → A × S)
      → ((s : S) → P s → Q (f s).0 (f s).1)
      → Triple P (call f) Q
  unfolding call
  Triple-call {Q = Q} f h = record {
    ensured = λ s p b e. subst (λ x. Q x (f s).1) (some-inj (f s).0 b e) (h s p);
  }

  -- Each branch under its test.
  pub Triple-if :
      {A : Type 0} {Q : A → S → Type 0} (b : Bool) (m n : Act S A)
      → (b ≡ true → Triple P m Q)
      → (b ≡ false → Triple P n Q)
      → Triple P (if b then m else n) Q
  Triple-if true m n yes_case no_case = yes_case refl
  Triple-if false m n yes_case no_case = no_case refl

  -- What is kept whatever happens is ensured.
  pub Triple-keep : {A : Type 0} (m : Act S A) → Keeps P m → Triple P m (λ _. P)
  Triple-keep m k = record { ensured = λ s p a e. k.holds s p }

  pub Triple-weaken :
      {A : Type 0} {Q U : A → S → Type 0} (m : Act S A)
      → Triple P m Q
      → ((a : A) (s : S) → Q a s → U a s)
      → Triple P m U
  Triple-weaken m t h = record { ensured = λ s p a e. h a (m s).1 (t.ensured s p a e) }

  pub Triple-before :
      {A : Type 0} {N : S → Type 0} {Q : A → S → Type 0} (m : Act S A)
      → ((s : S) → N s → P s)
      → Triple P m Q
      → Triple N m Q
  Triple-before m h t = record { ensured = λ s n a e. t.ensured s (h s n) a e }

  -- One step, and the rest for each value that it may return.
  pub Triple-bind :
      {A B : Type 0} {Q : A → S → Type 0} {U : B → S → Type 0} (first : Act S A)
      (rest : A → Act S B)
      → Triple P first Q
      → ((a : A) → Triple (Q a) (rest a) U)
      → Triple P (first >>= rest) U
  unfolding ◌>>=◌
  Triple-bind first rest t each = record {
    ensured = λ s p b e. continue_rule rest each (first s).0 (first s).1 (t.ensured s p) b e;
  }

  -- A failure that is caught ensures what the method keeps.
  pub Triple-attempt :
      {A : Type 0} {Q : Bool → S → Type 0} (m : Act S A)
      → Triple P m (λ _. Q true)
      → ((s : S) → P s → Q false (after m s))
      → Triple P (attempt m) Q
  unfolding attempt
  Triple-attempt {Q = Q} m t n = record {
    ensured = λ s p b e.
        subst (λ x. Q x (m s).1) (some-inj _ b e)
          (attempt_rule Q (m s).0 (m s).1 (t.ensured s p) (n s p));
  }

-- No condition.
pub record Any {S : Type 0} (s : S) : Type 0 where

-- A step that the claim says nothing about.
pub Triple-skip :
    {S A B : Type 0} {U : B → S → Type 0} (first : Act S A) (rest : A → Act S B)
    → ((a : A) → Triple Any (rest a) U)
    → Triple Any (first >>= rest) U
Triple-skip first rest each =
    Triple-bind {Q = λ _. Any} first rest (record { ensured = λ s p a e. record {} }) each
