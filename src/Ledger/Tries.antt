-- ===== src/Ledger/Tries.antt =====
-- The attempts that a row of the outbox counts, while dispatches are between their two transactions and
-- may end there.
use mathlib.Core.Option
use wizdaa_takehome.Prelude.{
  ℕ, ◌+◌, ◌≤◌, String, Bool, false, some, List, [], ◌∷◌, ◌≡◌, ◌==◌, ◌⊎◌, refl, sym, ◌∙◌, subst, inl,
  inr, first, upsert, same, same_refl, eq_of_same, first-upsert_self, first-upsert_ne, Bool-cases,
  Option-cases, arith, if◌then◌else◌,
}
use wizdaa_takehome.Entities.{TimeOffRequest, Outbox, outbox_id_is, is_waiting}
use wizdaa_takehome.Config.{AppConfig}
use wizdaa_takehome.Database.{Tables, outbox_key_is, update_where}
use wizdaa_takehome.Requests.{void, is_pending_file_of}
use wizdaa_takehome.Ledger.Walk.{Closed}
use wizdaa_takehome.Ledger.Flights.{Flights}
use wizdaa_takehome.Ledger.Counted.{most_attempts, attempts_due}

first-update {ℓ} :
    {Row : Type ℓ} (p q : Row → Bool) (f : Row → Row) (xs : List Row)
    → ((y : Row) → p (f y) ≡ p y)
    → first p (update_where q f xs) ≡ Option.map (λ x. if q x then f x else x) (first p xs)
first-update p q f [] h = refl
first-update p q f (y ∷ xs) h = ground (arith, h y, first-update p q f xs h)

-- Every row that is found by its id.
abbrev pub Each : (Outbox → Type 0) → List Outbox → Type 0
Each P rows = (id : String) (o : Outbox) → first (outbox_id_is id) rows ≡ some o → P o

-- A row written, where the other rows have what is asked for.
pub upsert-Each :
    (P : Outbox → Type 0) (o' : Outbox) (rows : List Outbox)
    → P o'
    → ((id : String) (o : Outbox)
        → same id o'.id ≡ false
        → first (outbox_id_is id) rows ≡ some o
        → P o)
    → Each P (upsert outbox_key_is o' rows)
upsert-Each P o' rows own others id o e = elim (Bool-cases (same id o'.id)) [
  | inl here ↦
      let found : some o' ≡ some o =
        sym (first-upsert_self outbox_key_is o' rows (same_refl o'.id))
        ∙ rw (eq_of_same id o'.id here) at e in
      let one : o' ≡ o = cc found in subst P one own
  | inr other ↦ others id o other (
      sym (
        first-upsert_ne outbox_key_is (outbox_id_is id) o' rows other
          (λ x e. rw (← eq_of_same o'.id x.id e) other))
      ∙ e)
]

module _ (config : AppConfig) where
  -- A dispatch has the row in memory.
  abbrev pub IsFlying : Flights → Outbox → Type 0
  IsFlying f o = (key : String) × (r : TimeOffRequest) × (f key ≡ some (o, r))

  -- The attempts that are counted, and the one to come, where `n` dispatches have ended between their
  -- transactions; for a row in flight the one to come is counted.
  abbrev pub IsDue : ℕ → Flights → Outbox → Type 0
  IsDue n f o =
      (attempts_due o ≤ most_attempts config + n)
      ⊎ (IsFlying f o × (o.attempts ≤ most_attempts config + n))

  abbrev pub AllDue : ℕ → Flights → Tables → Type 0
  AllDue n f t = Each (IsDue n f) t.outbox

  abbrev pub StaysDue : ℕ → Flights → Tables → Tables → Type 0
  StaysDue n f t t' = AllDue n f t → AllDue n f t'

  pub most-pos : 1 ≤ most_attempts config
  most-pos = elim (Bool-cases (config.hcm_retry_max_attempts == 0)) [
    | inl zero ↦ rw zero (omega arith)
    | inr pos ↦ rw pos (ground arith)
  ]

  pub counted-le :
      (n : ℕ) (f : Flights) (o : Outbox) → IsDue n f o → o.attempts ≤ most_attempts config + n
  counted-le n f o (inl h) = omega (arith, h)
  counted-le n f o (inr (fly, h)) = h

  -- A row that does not wait.
  pub stopped-IsDue :
      (n : ℕ) (f : Flights) (o : Outbox)
      → is_waiting o.status ≡ false
      → o.attempts ≤ most_attempts config + n
      → IsDue n f o
  stopped-IsDue n f o stop h = inl (rw stop (omega (arith, h)))

  pub fresh-IsDue : (n : ℕ) (f : Flights) (o : Outbox) → o.attempts ≡ 0 → IsDue n f o
  fresh-IsDue n f o zero = inl (elim (Bool-cases (is_waiting o.status)) [
    | inl wait ↦ rw wait (omega (arith, zero, most-pos))
    | inr stop ↦ rw stop (omega (arith, zero, most-pos))
  ])

  voided-AllDue :
      (n : ℕ) (f : Flights) (t : Tables) (id : String)
      → StaysDue n f t (record t { outbox = update_where (is_pending_file_of id) void t.outbox })
  voided-AllDue n f t done a id o e =
      let same_first =
        first-update (outbox_id_is id) (is_pending_file_of done) void t.outbox (λ y. refl) in
      elim (Option-cases (first (outbox_id_is id) t.outbox)) [
        | inl none_first ↦ absurd (cc (rw none_first at same_first, e))
        | inr (x, found) ↦
            let now_first : some (if is_pending_file_of done x then void x else x) ≡ some o =
              sym (rw found at same_first) ∙ e in
            let one : (if is_pending_file_of done x then void x else x) ≡ o = cc now_first in
            subst (IsDue n f) one (elim (Bool-cases (is_pending_file_of done x)) [
              | inl hit ↦ rw hit (stopped-IsDue n f (void x) refl (counted-le n f x (a id x found)))
              | inr miss ↦ rw miss (a id x found)
            ])
      ]

  pub due-Closed : (n : ℕ) (f : Flights) → Closed (StaysDue n f) (λ r. Unit {0}) (λ id. Unit {0})
  due-Closed n f = record {
    stay = λ t a. a;
    trans = λ t t' t'' g h a. h (g a);
    balances = λ t rows a. a;
    events = λ t rows a. a;
    batch_logs = λ t rows a. a;
    written = λ t r w a. a;
    created = λ t r fresh a. a;
    retired = λ t id a. a;
    voided = λ t id w. voided-AllDue n f t id;
    enqueued = λ t o fresh zero a.
        upsert-Each (IsDue n f) o t.outbox (fresh-IsDue n f o zero) (λ id x other e. a id x e);
  }
