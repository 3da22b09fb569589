-- ===== src/Ledger/Reserved.antt =====
-- The reserved days of a balance are the days of its pending requests.
use wizdaa_takehome.Prelude.{
  ℕ, ◌+◌, ◌≤◌, String, Option, some, List, ◌≡◌, refl, ap, inl, inr, same_refl, first, upsert, total,
  total-upsert, Bool-cases, arith, if◌then◌else◌,
}
use wizdaa_takehome.Entities.{
  Balance, TimeOffRequest, Outbox, RequestStatus, request_at, request_id_is, is_pending,
}
use wizdaa_takehome.Database.{Tables, balance_key_is, request_key_is}
use wizdaa_takehome.Ledger.Rows.{
  balance_of, restate, key_of_request_at, balance_of-upsert_self, balance_of-upsert_ne,
  total-first-le,
}

-- The days that a request holds.
abbrev pub pending_days_of : TimeOffRequest → ℕ
pending_days_of r = if is_pending r.status then r.days else 0

-- The days that it holds of one balance.
abbrev pub held : String → String → TimeOffRequest → ℕ
held employee location r = if request_at employee location r then pending_days_of r else 0

abbrev pub IsReserved : Tables → Type 0
IsReserved t =
    (employee location : String)
    → (balance_of employee location t).reserved ≡ total (held employee location) t.requests

-- One balance written, and one request with another state.
abbrev pub moved : Balance → TimeOffRequest → List Outbox → Tables → Tables
moved b r rows t = record t {
  balances = upsert balance_key_is b t.balances;
  requests = upsert request_key_is r t.requests;
  outbox = rows;
}

pub held-le :
    (r : TimeOffRequest) (t : Tables)
    → IsReserved t
    → first (request_id_is r.id) t.requests ≡ some r
    → pending_days_of r ≤ (balance_of r.employee_id r.location_id t).reserved
held-le r t inv found = rw (inv r.employee_id r.location_id) (
    let e : held r.employee_id r.location_id r ≡ pending_days_of r =
      rw (same_refl r.employee_id, same_refl r.location_id) in
    omega (
      arith,
      e,
      total-first-le (held r.employee_id r.location_id) (request_id_is r.id) t.requests r found,
    ))

module _ (t : Tables) (r : TimeOffRequest) (s : RequestStatus) (c h : Option ℕ) (b : Balance)
    (rows : List Outbox) (found : first (request_id_is r.id) t.requests ≡ some r)
    (employee_eq : b.employee_id ≡ r.employee_id) (location_eq : b.location_id ≡ r.location_id)
    (exact : b.reserved + pending_days_of r
      ≡ (balance_of r.employee_id r.location_id t).reserved
        + pending_days_of (restate s c h r)) where
  own_balance : balance_of r.employee_id r.location_id (moved b (restate s c h r) rows t) ≡ b
  own_balance = rw (← employee_eq, ← location_eq) (balance_of-upsert_self b t)

  own_total :
      (employee location : String)
      → total (held employee location) (moved b (restate s c h r) rows t).requests
          + held employee location r
        ≡ total (held employee location) t.requests + held employee location (restate s c h r)
  own_total employee location =
      total-upsert request_key_is (held employee location) (restate s c h r) r t.requests found

  -- A balance that changes by what its request holds stays exact.
  pub moved-IsReserved : IsReserved t → IsReserved (moved b (restate s c h r) rows t)
  moved-IsReserved inv employee location = elim (Bool-cases (request_at employee location r)) [
    | inl here ↦
        let key = key_of_request_at employee location r here in
        let balance_eq : balance_of employee location (moved b (restate s c h r) rows t) ≡ b =
          rw (key.0, key.1) own_balance in
        let before_eq : (balance_of employee location t).reserved
            ≡ (balance_of r.employee_id r.location_id t).reserved =
          rw (key.0, key.1) refl in
        let old_eq : held employee location r ≡ pending_days_of r = rw here in
        let new_eq : held employee location (restate s c h r) ≡ pending_days_of (restate s c h r) =
          rw here in
        omega (
          arith,
          ap (λ (x : Balance). x.reserved) balance_eq,
          before_eq,
          old_eq,
          new_eq,
          own_total employee location,
          inv employee location,
          exact,
        )
    | inr other ↦
        let same_eq : balance_of employee location (moved b (restate s c h r) rows t)
            ≡ balance_of employee location t =
          balance_of-upsert_ne employee location b t (rw (employee_eq, location_eq) other) in
        let old_eq : held employee location r ≡ 0 = rw other in
        let new_eq : held employee location (restate s c h r) ≡ 0 = rw other in
        omega (
          arith,
          ap (λ (x : Balance). x.reserved) same_eq,
          old_eq,
          new_eq,
          own_total employee location,
          inv employee location,
        )
  ]
