-- ===== src/Prelude/Tables.antt =====
-- Rows of a table as a list: the first row that meets a test, the rows that do, a row put in by its
-- key, and sums over rows.
use Prim.Native.Nat.{ℕ, ◌+◌}
use mathlib.Core.Path.{◌≡◌, refl, ap, subst}
use mathlib.Core.Logic.{inl, inr}
use mathlib.Core.List.{List, [], ◌∷◌}
use mathlib.Core.Option.{Option, none, some}
use mathlib.Core.Bool.{Bool, true, false}
use native.Mathlib.Omega.{arith}
use wizdaa_takehome.Prelude.Tests.{if◌then◌else◌, Bool-cases}

module _ {ℓ} {Row : Type ℓ} where
  -- The first row that meets the test.
  abbrev pub first : (Row → Bool) → List Row → Option Row
  first p [] = none
  first p (x ∷ xs) = if p x then some x else first p xs

  -- Every row that meets the test, in order.
  abbrev pub select : (Row → Bool) → List Row → List Row
  select p [] = []
  select p (x ∷ xs) = if p x then x ∷ select p xs else select p xs

  -- The row takes the place of the first row with its key, or goes to the end.
  abbrev pub upsert : (Row → Row → Bool) → Row → List Row → List Row
  upsert key r [] = r ∷ []
  upsert key r (x ∷ xs) = if key r x then r ∷ xs else x ∷ upsert key r xs

  -- The sum of a number over the rows.
  abbrev pub total : (Row → ℕ) → List Row → ℕ
  total w [] = 0
  total w (x ∷ xs) = w x + total w xs

  -- A statement about every row.
  abbrev pub All {κ} : (Row → Type κ) → List Row → Type κ
  All P [] = Unit
  All P (x ∷ xs) = P x × All P xs

module _ {ℓ} {Row : Type ℓ} where
  pub first-holds : (p : Row → Bool) (xs : List Row) (r : Row) → first p xs ≡ some r → p r ≡ true
  first-holds p [] r h = cc
  first-holds p (x ∷ xs) r h = ground (arith, first-holds p xs r)

  pub All-first {κ} :
      (P : Row → Type κ) (p : Row → Bool) (xs : List Row) (r : Row)
      → All P xs
      → first p xs ≡ some r
      → P r
  All-first P p [] r a h = absurd (cc h)
  All-first P p (x ∷ xs) r a h = elim (Bool-cases (p x)) [
    | inl e ↦ subst P (ground arith) a.0
    | inr e ↦ All-first P p xs r a.1 (ground arith)
  ]

  pub first-upsert_self :
      (key : Row → Row → Bool) (r : Row) (xs : List Row)
      → key r r ≡ true
      → first (key r) (upsert key r xs) ≡ some r
  first-upsert_self key r [] h = rw h
  first-upsert_self key r (x ∷ xs) h = ground (arith, first-upsert_self key r xs h)

  -- A test that the written row and the rows of its key fail does not see the write.
  pub first-upsert_ne :
      (key : Row → Row → Bool) (p : Row → Bool) (r : Row) (xs : List Row)
      → p r ≡ false
      → ((x : Row) → key r x ≡ true → p x ≡ false)
      → first p (upsert key r xs) ≡ first p xs
  first-upsert_ne key p r [] h k = rw h
  first-upsert_ne key p r (x ∷ xs) h k = ground (arith, k x, first-upsert_ne key p r xs h k)

  pub total-upsert :
      (key : Row → Row → Bool) (w : Row → ℕ) (r old : Row) (xs : List Row)
      → first (key r) xs ≡ some old
      → total w (upsert key r xs) + w old ≡ total w xs + w r
  total-upsert key w r old [] h = cc
  total-upsert key w r old (x ∷ xs) h = ground (arith, total-upsert key w r old xs)

  pub total-upsert_new :
      (key : Row → Row → Bool) (w : Row → ℕ) (r : Row) (xs : List Row)
      → first (key r) xs ≡ none
      → total w (upsert key r xs) ≡ total w xs + w r
  total-upsert_new key w r [] h = omega arith
  total-upsert_new key w r (x ∷ xs) h = ground (arith, total-upsert_new key w r xs)

  pub All-upsert {κ} :
      (P : Row → Type κ) (key : Row → Row → Bool) (r : Row) (xs : List Row)
      → P r
      → All P xs
      → All P (upsert key r xs)
  All-upsert P key r [] h a = (h, a)
  All-upsert P key r (x ∷ xs) h a = elim (Bool-cases (key r x)) [
    | inl e ↦ rw e (h, a.1)
    | inr e ↦ rw e (a.0, All-upsert P key r xs h a.1)
  ]

  -- The first of two writes of one row is lost.
  pub upsert_twice :
      (key : Row → Row → Bool) (a b : Row) (xs : List Row)
      → ((x : Row) → key b x ≡ key a x)
      → key a b ≡ true
      → upsert key a (upsert key b xs) ≡ upsert key a xs
  upsert_twice key a b [] e h = rw h refl
  upsert_twice key a b (x ∷ xs) e h = elim (Bool-cases (key a x)) [
    | inl hit ↦ rw (e x, hit, h) refl
    | inr miss ↦ rw (e x, miss) (rw miss (ap (◌∷◌ x) (upsert_twice key a b xs e h)))
  ]
