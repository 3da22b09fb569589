-- ===== src/Ledger/Created.antt =====
-- A new request, and a key that is renamed: the invariants stay.
use wizdaa_takehome.Prelude.{
  ℕ, ◌≤◌, String, Bool, true, Option, none, some, List, [], ◌∷◌, ◌≡◌, refl, ap, sym, ◌∙◌, subst,
  inl, inr, first, upsert, total, total-upsert_new, first-upsert_self, first-upsert_ne, eq_of_same,
  same, Bool-cases, same_refl, arith,
}
use wizdaa_takehome.Entities.{Balance, TimeOffRequest, request_id_is, request_at, is_pending}
use wizdaa_takehome.Database.{Tables, request_key_is, balance_key_is, update_where}
use wizdaa_takehome.Balances.{add_reserved}
use wizdaa_takehome.Requests.{SubmitArgs, overlaps, retire_key}
use wizdaa_takehome.Ledger.Rows.{
  balance_of, balance_of-key, balance_of-upsert_self, balance_of-upsert_ne, key_of_request_at,
}
use wizdaa_takehome.Ledger.Reserved.{IsReserved, held}
use wizdaa_takehome.Ledger.Filed.{file_row, sync_of, limit_of}
use wizdaa_takehome.Ledger.Apart.{Asks, created-AreApart, retire-AreApart}
use wizdaa_takehome.Ledger.Moves.{Inv, pending_only}

-- A change of rows that a sum does not see.
total-update {ℓ} :
    {Row : Type ℓ} (w : Row → ℕ) (p : Row → Bool) (f : Row → Row) (rows : List Row)
    → ((x : Row) → w (f x) ≡ w x)
    → total w (update_where p f rows) ≡ total w rows
total-update w p f [] h = refl
total-update w p f (x ∷ rows) h = ground (arith, h x, total-update w p f rows h)

-- A change of rows that neither a test nor a number of the row found sees.
first-update {ℓ} :
    {Row : Type ℓ} (v : Option Row → ℕ) (q p : Row → Bool) (f : Row → Row) (rows : List Row)
    → ((x : Row) → q (f x) ≡ q x)
    → ((x : Row) → v (some (f x)) ≡ v (some x))
    → v (first q (update_where p f rows)) ≡ v (first q rows)
first-update v q p f [] h k = refl
first-update v q p f (x ∷ rows) h k = elim (Bool-cases (q x)) [
  | inl hit ↦ elim (Bool-cases (p x)) [
    | inl change ↦ rw (hit, change, h x, hit) (k x)
    | inr keep ↦ rw (hit, keep, hit) refl
  ]
  | inr miss ↦ elim (Bool-cases (p x)) [
    | inl change ↦ rw (miss, change, h x, miss) (first-update v q p f rows h k)
    | inr keep ↦ rw (miss, keep, miss) (first-update v q p f rows h k)
  ]
]

pub retire-Inv :
    (id : String) (t : Tables)
    → Inv t
    → Inv (record t { requests = update_where (request_id_is id) retire_key t.requests })
retire-Inv id t inv = record {
  reserved = λ employee location.
      inv.reserved employee location
      ∙ sym (
          total-update (held employee location) (request_id_is id) retire_key t.requests
            (λ x. refl));
  filed = λ k.
      inv.filed k
      ∙ sym (
          first-update sync_of (request_id_is k) (request_id_is id) retire_key t.requests
            (λ x. refl) (λ x. refl));
  single = λ k.
      subst (λ n. total (file_row k) t.outbox ≤ n)
        (sym (
          first-update limit_of (request_id_is k) (request_id_is id) retire_key t.requests
            (λ x. refl) (λ x. refl)))
        (inv.single k);
  apart = retire-AreApart (request_id_is id) t.requests inv.apart;
}

module _ (t : Tables) (r : TimeOffRequest) (fresh : first (request_id_is r.id) t.requests ≡ none)
    (was : is_pending r.status ≡ true) where
  -- The new request, and its days reserved.
  abbrev created : Tables
  created = record t {
    balances =
        upsert balance_key_is (add_reserved r.days (balance_of r.employee_id r.location_id t))
          t.balances;
    requests = upsert request_key_is r t.requests;
  }

  created-IsReserved : IsReserved t → IsReserved created
  created-IsReserved inv employee location =
      let key = balance_of-key r.employee_id r.location_id t in
      let b = add_reserved r.days (balance_of r.employee_id r.location_id t) in
      let sum = total-upsert_new request_key_is (held employee location) r t.requests fresh in
      elim (Bool-cases (request_at employee location r)) [
        | inl here ↦
            let own = key_of_request_at employee location r here in
            let w : held employee location r ≡ r.days = rw (here, was) in
            let found : balance_of r.employee_id r.location_id created ≡ b =
              subst (λ k. balance_of k r.location_id created ≡ b) key.0
                (subst (λ k. balance_of b.employee_id k created ≡ b) key.1
                  (balance_of-upsert_self b t)) in
            let found' : balance_of employee location created ≡ b = rw (own.0, own.1) found in
            let before : (balance_of employee location t).reserved
                ≡ (balance_of r.employee_id r.location_id t).reserved =
              rw (own.0, own.1) refl in
            omega (
              arith,
              ap (λ (x : Balance). x.reserved) found',
              before,
              w,
              sum,
              inv employee location,
            )
        | inr other ↦
            let w : held employee location r ≡ 0 = rw other in
            let kept : balance_of employee location created ≡ balance_of employee location t =
              balance_of-upsert_ne employee location b t (rw (key.0, key.1) other) in
            omega (arith, ap (λ (x : Balance). x.reserved) kept, w, sum, inv employee location)
      ]

  created-first :
      (v : Option TimeOffRequest → ℕ) (id : String)
      → v (some r) ≡ v none
      → v (first (request_id_is id) (upsert request_key_is r t.requests))
        ≡ v (first (request_id_is id) t.requests)
  created-first v id e = elim (Bool-cases (same id r.id)) [
    | inl here ↦
        let key = eq_of_same id r.id here in
        rw (key, first-upsert_self request_key_is r t.requests (same_refl r.id), fresh) e
    | inr other ↦ rw (
        first-upsert_ne request_key_is (request_id_is id) r t.requests other
          (λ x k. rw (← eq_of_same r.id x.id k) other))
  ]

  pub created-Inv :
      (args : SubmitArgs)
      → Asks args r
      → first (overlaps args) t.requests ≡ none
      → Inv t
      → Inv created
  created-Inv args own clear inv = record {
    reserved = created-IsReserved inv.reserved;
    filed = λ id. inv.filed id ∙ sym (created-first sync_of id (rw (pending_only r.status was).0));
    single = λ id.
        subst (λ n. total (file_row id) t.outbox ≤ n) (sym (created-first limit_of id (rw was)))
          (inv.single id);
    apart = created-AreApart args r t.requests own clear fresh inv.apart;
  }
