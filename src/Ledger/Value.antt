-- ===== src/Ledger/Value.antt =====
-- The available days of a balance with the days that are committed: approved, or on their way to HCM.
-- The methods that only move days between the two leave the sum as it is.
use wizdaa_takehome.Prelude.{
  ℕ, String, Option, some, List, ◌≡◌, refl, ap, inl, inr, first, total, total-upsert, Bool-cases,
  if◌then◌else◌,
}
use wizdaa_takehome.Prelude.Int.{ℤ, pos, pos_part, neg_part, ◌+ℤ◌, int_laws}
use wizdaa_takehome.Entities.{
  Balance, TimeOffRequest, Outbox, RequestStatus, request_at, request_id_is,
}
use wizdaa_takehome.Database.{Tables, request_key_is}
use wizdaa_takehome.Balances.{is_committed}
use wizdaa_takehome.Ledger.Rows.{
  balance_of, restate, key_of_request_at, balance_of-upsert_self, balance_of-upsert_ne,
}
use wizdaa_takehome.Ledger.Reserved.{moved}

abbrev pub committed_days_of : TimeOffRequest → ℕ
committed_days_of r = if is_committed r then r.days else 0

abbrev pub committed : String → String → TimeOffRequest → ℕ
committed employee location r = if request_at employee location r then committed_days_of r else 0

abbrev pub value_of : String → String → Tables → ℤ
value_of employee location t =
    (balance_of employee location t).available
    +ℤ pos (total (committed employee location) t.requests)

-- No balance gained or lost days.
abbrev pub SameValue : Tables → Tables → Type 0
SameValue t t' =
    (employee location : String) → value_of employee location t' ≡ value_of employee location t

module _ (t : Tables) (r : TimeOffRequest) (s : RequestStatus) (c h : Option ℕ) (b : Balance)
    (rows : List Outbox) (found : first (request_id_is r.id) t.requests ≡ some r)
    (employee_eq : b.employee_id ≡ r.employee_id) (location_eq : b.location_id ≡ r.location_id)
    (exact : b.available +ℤ pos (committed_days_of (restate s c h r))
      ≡ (balance_of r.employee_id r.location_id t).available +ℤ pos (committed_days_of r)) where
  own_balance : balance_of r.employee_id r.location_id (moved b (restate s c h r) rows t) ≡ b
  own_balance = rw (← employee_eq, ← location_eq) (balance_of-upsert_self b t)

  -- Days that the request gains are days that its balance loses.
  pub moved-SameValue : SameValue t (moved b (restate s c h r) rows t)
  moved-SameValue employee location = elim (Bool-cases (request_at employee location r)) [
    | inl here ↦
        let key = key_of_request_at employee location r here in
        let balance_eq : balance_of employee location (moved b (restate s c h r) rows t) ≡ b =
          rw (key.0, key.1) own_balance in
        let before_eq : (balance_of employee location t).available
            ≡ (balance_of r.employee_id r.location_id t).available =
          rw (key.0, key.1) refl in
        let old_eq : committed employee location r ≡ committed_days_of r = rw here in
        let new_eq : committed employee location (restate s c h r)
            ≡ committed_days_of (restate s c h r) =
          rw here in
        rw (balance_eq, before_eq)
          (omega (
            int_laws,
            old_eq,
            new_eq,
            total-upsert request_key_is (committed employee location) (restate s c h r) r t.requests
                found,
            ap pos_part exact,
            ap neg_part exact,
          ))
    | inr other ↦
        let same_eq : balance_of employee location (moved b (restate s c h r) rows t)
            ≡ balance_of employee location t =
          balance_of-upsert_ne employee location b t (rw (employee_eq, location_eq) other) in
        let old_eq : committed employee location r ≡ 0 = rw other in
        let new_eq : committed employee location (restate s c h r) ≡ 0 = rw other in
        rw same_eq (
          omega (
            int_laws,
            old_eq,
            new_eq,
            total-upsert request_key_is (committed employee location) (restate s c h r) r t.requests
                found,
          ))
  ]
