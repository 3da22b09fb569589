-- ===== src/Prelude/Text.antt =====
-- Texts (the source's strings): equality, and joining as a template literal does.
use Prim.Native.Nat.{ℕ, Ordering, compare as compare_ℕ}
use Prim.Native.Char.{Char, code}
use Prim.Native.String.compare
use Prim.Native.String.{String, ◌++◌, compare, count, then}
use text.Mathlib.Text.{◌==◌, is_lt, is_le}
use mathlib.Core.List.{List, [], ◌∷◌}
use text.Mathlib.TextEquality.{eq_iff}
use text.Mathlib.TextPositions.{eq_refl}
use text.Mathlib.TextLemmas.{append_cancel_left, length-append}
use mathlib.Core.Path.{◌≡◌, refl, sym, ap, ◌∙◌}
use mathlib.Core.Bool.{Bool, true, false}
use mathlib.Core.Logic.{inl, inr}
use native.Mathlib.Omega.{arith}
use wizdaa_takehome.Prelude.Tests.{Bool-cases}

-- `a === b`.
abbrev pub same : String → String → Bool
same a b = a == b

-- `${a}${b}`.
abbrev pub join : String → String → String
join a b = a ++ b

-- `a < b` and `a <= b`, in the order of the dictionary.
abbrev pub text_lt : String → String → Bool
text_lt a b = is_lt (compare a b)

abbrev pub text_le : String → String → Bool
text_le a b = is_le (compare a b)

-- The character codes.
abbrev pub codes : String → List ℕ
codes String.[] = []
codes (String.◌∷◌ c s) = code c ∷ codes s

pub same_refl : (s : String) → same s s ≡ true
same_refl s = eq_refl s

pub eq_of_same : (s t : String) → same s t ≡ true → s ≡ t
eq_of_same s t h = (eq_iff s t).0 h

pub same_iff : (s t : String) → (same s t ≡ true → s ≡ t) × (s ≡ t → same s t ≡ true)
same_iff s t = ((eq_iff s t).0, (eq_iff s t).1)

pub same-sym : (s t : String) → same s t ≡ same t s
same-sym s t = go (same s t) (same t s) refl refl
  where
    go : (a b : Bool) → same s t ≡ a → same t s ≡ b → a ≡ b
    go true true p q = refl
    go false false p q = refl
    go true false p q = ground (arith, same_iff s t, same_iff t s)
    go false true p q = ground (arith, same_iff s t, same_iff t s)

pub join_cancel_left : (s t u : String) → join s t ≡ join s u → t ≡ u
join_cancel_left s t u h = append_cancel_left s t u h

-- A text with a colon in it is not empty.
pub join_not_empty : (s t : String) → same (join s (join ":" t)) "" ≡ false
join_not_empty s t = elim (Bool-cases (same (join s (join ":" t)) "")) [
  | inr full ↦ full
  | inl empty ↦ absurd (
      omega (
        arith,
        ap count (eq_of_same (join s (join ":" t)) "" empty),
        length-append s (join ":" t),
        length-append ":" t,
      ))
]

-- The order of texts is transitive.
lex_trans :
    (a b c : ℕ) (o p q : Ordering)
    → (is_le o ≡ true → is_le p ≡ true → is_le q ≡ true)
    → is_le (then (compare_ℕ a b) o) ≡ true
    → is_le (then (compare_ℕ b c) p) ≡ true
    → is_le (then (compare_ℕ a c) q) ≡ true
lex_trans a b c o p q f h k = ground arith

le_cons :
    (c d : Char) (s t : String)
    → text_le (String.◌∷◌ c s) (String.◌∷◌ d t)
      ≡ is_le (then (compare_ℕ (code c) (code d)) (compare s t))
le_cons c d s t = ap is_le (compare.cons-cons c d s t)

pub text_le_trans : (s t u : String) → text_le s t ≡ true → text_le t u ≡ true → text_le s u ≡ true
text_le_trans String.[] t String.[] h k = ap is_le compare.nil-nil
text_le_trans String.[] t (String.◌∷◌ e u) h k = ap is_le (compare.nil-cons e u)
text_le_trans (String.◌∷◌ c s) String.[] u h k = absurd (cc (h, ap is_le (compare.cons-nil c s)))
text_le_trans (String.◌∷◌ c s) (String.◌∷◌ d t) String.[] h k =
    absurd (cc (k, ap is_le (compare.cons-nil d t)))
text_le_trans (String.◌∷◌ c s) (String.◌∷◌ d t) (String.◌∷◌ e u) h k =
    le_cons c e s u
    ∙ lex_trans (code c) (code d) (code e) (compare s t) (compare t u) (compare s u)
        (text_le_trans s t u) (sym (le_cons c d s t) ∙ h) (sym (le_cons d e t u) ∙ k)
