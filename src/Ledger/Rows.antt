-- ===== src/Ledger/Rows.antt =====
-- Balances and requests looked up after a write.
use wizdaa_takehome.Prelude.{
  ℕ, ◌≤◌, String, Bool, true, false, Option, some, List, [], ◌∷◌, ◌≡◌, refl, sym, ap, subst, inl,
  inr, ◌&&◌, same_refl, eq_of_same, first, upsert, total, first-holds, first-upsert_self,
  first-upsert_ne, Bool-cases, Option-cases, arith,
}
use wizdaa_takehome.Entities.{
  Balance, TimeOffRequest, RequestStatus, balance_at, request_at, request_id_is,
}
use wizdaa_takehome.Database.{Tables, balance_key_is, request_key_is}
use wizdaa_takehome.Balances.{or_zero}

-- The balance of a key; a missing row counts as a zero row.
abbrev pub balance_of : String → String → Tables → Balance
balance_of employee location t =
    or_zero employee location (first (balance_at employee location) t.balances)

-- A request with another state, and the same key, range and days.
abbrev pub restate : RequestStatus → Option ℕ → Option ℕ → TimeOffRequest → TimeOffRequest
restate s c h r = record r { status = s; committed_at = c; hcm_ack_at = h }

pub and_true : (a b : Bool) → (a && b) ≡ true → (a ≡ true) × (b ≡ true)
and_true true true h = (refl, refl)
and_true true false h = cc
and_true false b h = cc

pub and_false : (a : Bool) → (a && false) ≡ false
and_false true = refl
and_false false = refl

pub at_own_key : (b : Balance) → balance_key_is b b ≡ true
at_own_key b = rw (same_refl b.employee_id, same_refl b.location_id)

pub at_own_request : (r : TimeOffRequest) → request_key_is r r ≡ true
at_own_request r = same_refl r.id

pub key_of_request_at :
    (employee location : String) (r : TimeOffRequest)
    → request_at employee location r ≡ true
    → (employee ≡ r.employee_id) × (location ≡ r.location_id)
key_of_request_at employee location r h =
    let both = and_true _ _ h in (eq_of_same _ _ both.0, eq_of_same _ _ both.1)

pub key_of_balance_at :
    (employee location : String) (b : Balance)
    → balance_at employee location b ≡ true
    → (employee ≡ b.employee_id) × (location ≡ b.location_id)
key_of_balance_at employee location b h =
    let both = and_true _ _ h in (eq_of_same _ _ both.0, eq_of_same _ _ both.1)

pub balance_of-key :
    (employee location : String) (t : Tables)
    → ((balance_of employee location t).employee_id ≡ employee)
      × ((balance_of employee location t).location_id ≡ location)
balance_of-key employee location t =
    elim (Option-cases (first (balance_at employee location) t.balances)) [
      | inl e ↦ rw e (refl, refl)
      | inr (b, e) ↦
          let both = and_true _ _ (first-holds (balance_at employee location) t.balances b e) in
          rw e (sym (eq_of_same _ _ both.0), sym (eq_of_same _ _ both.1))
    ]

-- The rows of a key are found under it, and under no other.
pub balance_of-upsert_self :
    (b : Balance) (t : Tables)
    → balance_of b.employee_id b.location_id
        (record t { balances = upsert balance_key_is b t.balances })
      ≡ b
balance_of-upsert_self b t = rw (first-upsert_self balance_key_is b t.balances (at_own_key b))

-- What a save of the balance of a key leaves there.
pub balance_of-saved :
    (employee location : String) (b : Balance) (t : Tables)
    → b.employee_id ≡ employee
    → b.location_id ≡ location
    → balance_of employee location (record t { balances = upsert balance_key_is b t.balances }) ≡ b
balance_of-saved employee location b t p q = rw (← p, ← q) (balance_of-upsert_self b t)

pub balance_of-upsert_ne :
    (employee location : String) (b : Balance) (t : Tables)
    → balance_at employee location b ≡ false
    → balance_of employee location (record t { balances = upsert balance_key_is b t.balances })
      ≡ balance_of employee location t
balance_of-upsert_ne employee location b t h =
    ap (or_zero employee location)
      (first-upsert_ne balance_key_is (balance_at employee location) b t.balances h other)
  where
    other : (x : Balance) → balance_key_is b x ≡ true → balance_at employee location x ≡ false
    other x e =
        let both = and_true _ _ e in
        let p = eq_of_same b.employee_id x.employee_id both.0 in
        let q = eq_of_same b.location_id x.location_id both.1 in rw (← p, ← q) h

-- The row of a request that was found by its id.
pub found_self :
    (id : String) (r : TimeOffRequest) (rows : List TimeOffRequest)
    → first (request_id_is id) rows ≡ some r
    → first (request_id_is r.id) rows ≡ some r
found_self id r rows e =
    subst (λ k. first (request_id_is k) rows ≡ some r)
      (eq_of_same id r.id (first-holds (request_id_is id) rows r e)) e

pub total-first-le {ℓ} :
    {Row : Type ℓ} (w : Row → ℕ) (p : Row → Bool) (rows : List Row) (r : Row)
    → first p rows ≡ some r
    → w r ≤ total w rows
total-first-le w p [] r h = absurd (cc h)
total-first-le w p (x ∷ xs) r h = elim (Bool-cases (p x)) [
  | inl e ↦ let q : x ≡ r = ground arith in omega (arith, ap w q)
  | inr e ↦ omega (arith, total-first-le w p xs r (ground arith))
]
