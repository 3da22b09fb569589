-- ===== src/Ledger/Respects.antt =====
-- Calls whose effect on the tables is in a reflexive and transitive relation, and how the ways in
-- which the services compose calls keep that.
use wizdaa_takehome.Prelude.{String, Option, none, some, List, [], ◌∷◌, inl, inr, Bool-cases}
use wizdaa_takehome.Database.{
  Tables, Outcome, ok, err, deadlock, Action, then_do, on_option, or_throw, settle, holds, pure,
  not_found, ◌>>=◌,
}
use wizdaa_takehome.Balances.{run_exclusive}
use wizdaa_takehome.Dispatcher.{for_each}
use wizdaa_takehome.Reaper.{swallow}

-- Every run of the call leads from tables to related tables.
abbrev pub Respects : (Tables → Tables → Type 0) → {A : Type 0} → Action A → Type 0
Respects R m = (locks : List String) (t : Tables) → R t (m locks t).1

module _ (R : Tables → Tables → Type 0) (stay : (t : Tables) → R t t)
    (trans : (t t' t'' : Tables) → R t t' → R t' t'' → R t t'') where
  pub pure-Respects : {A : Type 0} (a : A) → Respects R {A = A} (pure a)
  pure-Respects a locks t = stay t

  then_do-Respects :
      {A B : Type 0} (f : A → Action B)
      → ((a : A) → Respects R (f a))
      → (locks : List String) (t : Tables) (out : Outcome A × Tables) → R t out.1
      → R t (then_do f locks out).1
  then_do-Respects f k locks t (ok a, t') h = trans t t' (f a locks t').1 h (k a locks t')
  then_do-Respects f k locks t (err e, t') h = h
  then_do-Respects f k locks t (deadlock, t') h = h

  pub bind-Respects :
      {A B : Type 0} (m : Action A) (f : A → Action B)
      → Respects R m
      → ((a : A) → Respects R (f a))
      → Respects R (m >>= f)
  bind-Respects m f h k locks t = then_do-Respects f k locks t (m locks t) (h locks t)

  pub option-Respects :
      {A B : Type 0} (o : Option A) (missing : Action B) (f : A → Action B)
      → Respects R missing
      → ((a : A) → Respects R (f a))
      → Respects R (on_option o missing f)
  option-Respects none missing f h k = h
  option-Respects (some a) missing f h k = k a

  pub found-Respects :
      {A B : Type 0} (o : Option A) (f : A → Action B)
      → ((a : A) → Respects R (f a))
      → Respects R (or_throw o not_found >>= f)
  found-Respects none f k locks t = stay t
  found-Respects (some a) f k locks t = k a locks t

  pub exclusive-Respects :
      {A : Type 0} (key : String) (m : Action A) → Respects R m → Respects R (run_exclusive key m)
  exclusive-Respects key m h locks t = elim (Bool-cases (holds key locks)) [
    | inl mine ↦ rw mine (stay t)
    | inr other ↦ rw other (h (key ∷ locks) t)
  ]

  settle-Respects :
      {A : Type 0} (t : Tables) (out : Outcome A × Tables) → R t out.1 → R t (settle t out).1
  settle-Respects t (ok a, t') h = h
  settle-Respects t (err e, t') h = stay t
  settle-Respects t (deadlock, t') h = stay t

  pub transaction-Respects :
      {A : Type 0} (m : Action A) → Respects R m → Respects R (λ locks t. settle t (m locks t))
  transaction-Respects m h locks t = settle-Respects t (m locks t) (h locks t)

  swallowed :
      {A : Type 0} (t : Tables) (out : Outcome A × Tables)
      → R t out.1
      → R t (swallow (λ locks u. out) [] t).1
  swallowed t (ok a, t') h = h
  swallowed t (err e, t') h = h
  swallowed t (deadlock, t') h = h

  pub swallow-Respects : {A : Type 0} (m : Action A) → Respects R m → Respects R (swallow m)
  swallow-Respects m h locks t = swallowed t (m locks t) (h locks t)

  pub for_each-Respects :
      {A : Type 0} (f : A → Action (Unit {0})) (xs : List A)
      → ((a : A) → Respects R (f a))
      → Respects R (for_each f xs)
  for_each-Respects f [] h = pure-Respects tt
  for_each-Respects f (x ∷ xs) h =
      bind-Respects (f x) (λ _. for_each f xs) (h x) (λ _. for_each-Respects f xs h)
