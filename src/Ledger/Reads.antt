-- ===== src/Ledger/Reads.antt =====
-- The reads of a balance, which may save a row: the invariants hold, and nothing else is written.
use wizdaa_takehome.Prelude.{
  ℕ, String, Option, none, some, List, ◌∷◌, ◌≡◌, refl, ap, inl, inr, first, upsert, Bool-cases,
  Option-cases,
}
use wizdaa_takehome.Entities.{Balance, TimeOffRequest, HcmBalance, balance_at}
use wizdaa_takehome.Config.{AppConfig}
use wizdaa_takehome.Database.{Tables, Database, memory_of, balance_key_is, holds}
use wizdaa_takehome.Balances.{
  HcmReply, hydrate_cold, snapshot, unavailable, broken, warm_row, balance_key, zero_balance,
  set_snapshot, hydrate, zero_on_miss, get_balance, apply_hcm_snapshot, change_balance,
  save_with_retry, save_attempts, BalanceView, check_view, validate_availability,
}
use wizdaa_takehome.Ledger.Rows.{
  balance_of, balance_of-key, key_of_balance_at, balance_of-upsert_self, balance_of-upsert_ne,
}
use wizdaa_takehome.Ledger.Reserved.{IsReserved}
use wizdaa_takehome.Ledger.Moves.{Inv}
use wizdaa_takehome.Ledger.Reject.{follow}

-- The tables are as before, but for the balances.
abbrev pub SameButBalances : Tables → Tables → Type 0
SameButBalances t t' = t' ≡ record t { balances = t'.balances }

-- A balance that is written with the reserved days that it had.
pub written-Inv :
    (t : Tables) (b : Balance)
    → b.reserved ≡ (balance_of b.employee_id b.location_id t).reserved
    → Inv t
    → Inv (record t { balances = upsert balance_key_is b t.balances })
written-Inv t b h inv = record {
  reserved = reserved;
  filed = inv.filed;
  single = inv.single;
  apart = inv.apart;
}
  where
    reserved : IsReserved (record t { balances = upsert balance_key_is b t.balances })
    reserved employee location = elim (Bool-cases (balance_at employee location b)) [
      | inl here ↦
          let key = key_of_balance_at employee location b here in
          rw (key.0, key.1)
            (rw (balance_of-upsert_self b t) (rw h (inv.reserved b.employee_id b.location_id)))
      | inr other ↦
          rw (balance_of-upsert_ne employee location b t other) (inv.reserved employee location)
    ]

module _ (db : Database) where
  pub apply_hcm_snapshot-Inv :
      (h : HcmBalance) (locks : List String) (t : Tables)
      → Inv t
      → Inv (apply_hcm_snapshot (memory_of db) h locks t).1
        × SameButBalances t (apply_hcm_snapshot (memory_of db) h locks t).1
  unfolding apply_hcm_snapshot change_balance save_with_retry save_attempts
  apply_hcm_snapshot-Inv h locks t inv =
      let b = balance_of h.employee_id h.location_id t in
      let key = balance_of-key h.employee_id h.location_id t in
      (written-Inv t (set_snapshot h b) (rw (key.0, key.1) refl) inv, refl)

  module _ (config : AppConfig) where
    -- What `hydrate` does with HCM's answer keeps the invariants.
    pub answer-Inv :
        (reply : HcmReply) (employee location : String) (locks : List String) (t : Tables)
        → Inv t
        → let t' = (hydrate_cold (memory_of db) reply employee location locks t).1 in
          Inv t' × SameButBalances t t'
    unfolding hydrate_cold apply_hcm_snapshot change_balance save_with_retry save_attempts
    answer-Inv (snapshot h) employee location locks t inv =
        let b = balance_of h.employee_id h.location_id t in
        let key = balance_of-key h.employee_id h.location_id t in
        (written-Inv t (set_snapshot h b) (rw (key.0, key.1) refl) inv, refl)
    answer-Inv unavailable employee location locks t inv = (inv, refl)
    answer-Inv broken employee location locks t inv = (inv, refl)

    zero-Inv :
        (employee location : String) (row : Option Balance) (locks : List String) (t : Tables)
        → first (balance_at employee location) t.balances ≡ row
        → Inv t
        → let t' = (zero_on_miss (memory_of db) employee location row locks t).1 in
          Inv t' × SameButBalances t t'
    unfolding zero_on_miss
    zero-Inv employee location (some b) locks t e inv = (inv, refl)
    zero-Inv employee location none locks t e inv =
        (written-Inv t (zero_balance employee location) (rw e refl) inv, refl)

    hydrate-Inv :
        (reply : HcmReply) (employee location : String) (locks : List String) (t : Tables)
        → Inv t
        → let t' = (hydrate (memory_of db) reply employee location locks t).1 in
          Inv t' × SameButBalances t t'
    unfolding hydrate
    hydrate-Inv reply employee location locks t inv =
        elim (Option-cases (warm_row (first (balance_at employee location) t.balances))) [
          | inr (b, e) ↦ rw (e, hydrate) (inv, refl)
          | inl e ↦ rw (e, hydrate) (answer-Inv reply employee location locks t inv)
        ]

    check_view-Inv :
        (days : ℕ) (locks : List String) (view : Option BalanceView) (t : Tables)
        → Inv t
        → Inv (check_view days view locks t).1
    check_view-Inv days locks none t inv = inv
    check_view-Inv days locks (some v) t inv = inv

    checked :
        (days : ℕ) (locks : List String) (rows : List TimeOffRequest) (view : Option BalanceView)
        (u : Tables)
        → u.requests ≡ rows
        → (check_view days view locks u).1.requests ≡ rows
    checked days locks rows none u e = e
    checked days locks rows (some v) u e = e

    -- A read keeps the invariants and the other tables, whatever HCM answers.
    pub get_balance-Inv :
        (reply : HcmReply) (employee location : String) (locks : List String) (t : Tables)
        → Inv t
        → let t' = (get_balance (memory_of db) config reply employee location locks t).1 in
          Inv t' × SameButBalances t t'
    unfolding get_balance
    get_balance-Inv reply employee location locks t inv =
        elim (Option-cases (warm_row (first (balance_at employee location) t.balances))) [
          | inr (b, e) ↦ rw (e, get_balance) (inv, refl)
          | inl e ↦ elim (Bool-cases config.balance_lazy_load_enabled) [
            | inr off ↦
                rw (e, off, get_balance)
                  (zero-Inv employee location (first (balance_at employee location) t.balances)
                    locks t refl inv)
            | inl on ↦ elim (Bool-cases (holds (balance_key employee location) locks)) [
              | inl mine ↦ rw (e, on, mine, get_balance) (inv, refl)
              | inr other ↦
                  rw (e, on, other, get_balance)
                    (hydrate-Inv reply employee location (balance_key employee location ∷ locks) t
                      inv)
            ]
          ]
        ]

    pub validate_availability-Inv :
        (reply : HcmReply) (employee location : String) (days : ℕ) (locks : List String)
        (t : Tables)
        → Inv t
        → Inv (validate_availability (memory_of db) config reply employee location days locks t).1
    unfolding validate_availability
    validate_availability-Inv reply employee location days locks t inv =
        follow Inv Inv (check_view days) locks
          (get_balance (memory_of db) config reply employee location locks t)
          (get_balance-Inv reply employee location locks t inv).0 (λ u i. i)
          (check_view-Inv days locks)

    -- The check of the free days writes no request.
    pub validate_availability-requests :
        (reply : HcmReply) (employee location : String) (days : ℕ) (locks : List String)
        (t : Tables)
        → Inv t
        → (validate_availability
            (memory_of db)
            config
            reply
            employee
            location
            days
            locks
            t).1.requests
          ≡ t.requests
    unfolding validate_availability
    validate_availability-requests reply employee location days locks t inv =
        follow (λ u. u.requests ≡ t.requests) (λ u. u.requests ≡ t.requests) (check_view days) locks
          (get_balance (memory_of db) config reply employee location locks t)
          (ap (λ (u : Tables). u.requests) (get_balance-Inv reply employee location locks t inv).1)
          (λ u e. e) (checked days locks t.requests)
