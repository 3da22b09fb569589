-- ===== src/Guarantees/Reconciling.antt =====
-- `reconcileBalance`, against sums over the tables.
use wizdaa_takehome.Calendar.{civil_date}
use wizdaa_takehome.Prelude.{
  text_lt, ℕ, String, Bool, true, false, not, same, ◌&&◌, ◌||◌, Option, none, List, [], ◌∷◌, ◌≡◌,
  refl, ap, ◌⊎◌, inl, inr, some, select, total, Bool-cases, arith, if◌then◌else◌,
}
use wizdaa_takehome.Prelude.Int.{ℤ, pos, ◌+ℤ◌, ◌-ℤ◌, ltb_ℤ}
use wizdaa_takehome.Entities.{
  Balance, TimeOffRequest, Outbox, HcmBalance, is_approved, is_pending_sync, is_cancelled, is_file,
  is_waiting,
}
use wizdaa_takehome.Database.{Tables, ok, Database, memory_of, engine-eq-memory}
use wizdaa_takehome.Balances.{
  reconcile_balance, save_with_retry, save_attempts, is_unacked, is_pending_reverse, is_reversed_by,
  days_of, unacked_days, reversed_days, pending_reverse_days, pending_days, set_reconciled,
}
use wizdaa_takehome.Ledger.Rows.{balance_of, balance_of-key, balance_of-saved}
use wizdaa_takehome.Ledger.Reserved.{held}
use wizdaa_takehome.Ledger.Reconcile.{pending_days-held}

-- HCM acknowledged on a later date than that of a time, or not at all.
abbrev pub is_later_or_missing : ℕ → Option ℕ → Bool
is_later_or_missing as_of none = true
is_later_or_missing as_of (some acked) = text_lt (civil_date as_of) (civil_date acked)

-- The days of the requests that are APPROVED or PENDING_SYNC and that HCM had not acknowledged by the
-- end of the date of a time.
abbrev pub unseen_days : String → String → ℕ → Tables → ℕ
unseen_days employee location as_of t =
    total
      (λ (r : TimeOffRequest).
        if (same employee r.employee_id && same location r.location_id)
          && (is_approved r.status || is_pending_sync r.status)
          && is_later_or_missing as_of r.hcm_ack_at
        then r.days
        else 0)
      t.requests

-- The days of the cancelled requests whose reversal waits in the outbox.
abbrev pub coming_days : String → String → Tables → ℕ
coming_days employee location t =
    total
      (λ (o : Outbox).
        if not (is_file o.operation) && is_waiting o.status
        then total
            (λ (r : TimeOffRequest).
              if same o.aggregate_id r.id
                && (same employee r.employee_id && same location r.location_id)
                && is_cancelled r.status
              then r.days
              else 0)
            t.requests
        else 0)
      t.outbox

total-select {ℓ} :
    {Row : Type ℓ} (w v : Row → ℕ) (p : Row → Bool) (rows : List Row)
    → ((x : Row) → w x ≡ v x)
    → total w (select p rows) ≡ total (λ x. if p x then v x else 0) rows
total-select w v p [] h = refl
total-select w v p (x ∷ rows) h = ground (arith, h x, total-select w v p rows h)

module _ (db : Database) (entry : HcmBalance) (as_of : ℕ) (locks : List String) (t : Tables) where
  unacked_days-eq :
      unacked_days (memory_of db) entry.employee_id entry.location_id as_of t
      ≡ unseen_days entry.employee_id entry.location_id as_of t
  unacked_days-eq =
      total-select days_of days_of
        (is_unacked (memory_of db) entry.employee_id entry.location_id as_of) t.requests (λ r. refl)

  pending_reverse_days-eq :
      pending_reverse_days (memory_of db) entry.employee_id entry.location_id t
      ≡ coming_days entry.employee_id entry.location_id t
  pending_reverse_days-eq =
      total-select (reversed_days (memory_of db) entry.employee_id entry.location_id t)
        (λ o.
          total
            (λ (r : TimeOffRequest).
              if is_reversed_by entry.employee_id entry.location_id o r then r.days else 0)
            t.requests)
        is_pending_reverse t.outbox
        (λ o.
          total-select days_of days_of (is_reversed_by entry.employee_id entry.location_id o)
            t.requests (λ r. refl))

  -- The balance that is written.
  reconciled_balance :
      balance_of entry.employee_id entry.location_id
        (reconcile_balance (memory_of db) entry as_of locks t).1
      ≡ set_reconciled
          (entry.balance
            -ℤ pos (unseen_days entry.employee_id entry.location_id as_of t)
            +ℤ pos (coming_days entry.employee_id entry.location_id t))
          (total (held entry.employee_id entry.location_id) t.requests)
          as_of
          (balance_of entry.employee_id entry.location_id t)
  unfolding reconcile_balance save_with_retry save_attempts
  reconciled_balance =
      let key = balance_of-key entry.employee_id entry.location_id t in
      rw
        (
          ← unacked_days-eq,
          ← pending_reverse_days-eq,
          ← pending_days-held entry.employee_id entry.location_id t.requests,
        )
        (balance_of-saved entry.employee_id entry.location_id
          (set_reconciled
            (entry.balance
              -ℤ pos (unacked_days (memory_of db) entry.employee_id entry.location_id as_of t)
              +ℤ pos (pending_reverse_days (memory_of db) entry.employee_id entry.location_id t))
            (pending_days (memory_of db) entry.employee_id entry.location_id t) as_of
            (balance_of entry.employee_id entry.location_id t))
          t key.0 key.1)

flagged_if_negative :
    (value : ℤ) (before : Bool)
    → (ltb_ℤ value (pos 0) ≡ false) ⊎ ((if ltb_ℤ value (pos 0) then true else before) ≡ true)
flagged_if_negative value before = elim (Bool-cases (ltb_ℤ value (pos 0))) [
  | inl low ↦ inr (rw low refl)
  | inr high ↦ inl high
]

-- A reconciliation of a balance returns, and leaves HCM's value less the days of the APPROVED and
-- PENDING_SYNC requests that HCM acknowledged on a later date than that of the snapshot, by UTC, or
-- not at all (one that it acknowledged after the snapshot on the same date counts as known to it),
-- plus the days of the cancelled requests whose reversal waits; its reserved days are those of its pending requests, whatever they were
-- before; and a negative balance is marked for review.
pub reconcile_replays_local :
    (db : Database) (entry : HcmBalance) (as_of : ℕ) (locks : List String) (t : Tables)
    → let employee = entry.employee_id in
      let location = entry.location_id in
      let out = reconcile_balance db.engine entry as_of locks t in
      let b = balance_of employee location out.1 in
      (out.0 ≡ ok tt)
      × (b.available
          ≡ entry.balance
            -ℤ pos (unseen_days employee location as_of t)
            +ℤ pos (coming_days employee location t))
      × (b.reserved ≡ total (held employee location) t.requests)
      × (b.last_hcm_as_of ≡ some as_of)
      × ((ltb_ℤ b.available (pos 0) ≡ false) ⊎ (b.needs_review ≡ true))
unfolding reconcile_balance save_with_retry save_attempts
reconcile_replays_local db entry as_of locks t =
    let e = reconciled_balance db entry as_of locks t in
    rw (engine-eq-memory db) (
      refl,
      ap (λ (b : Balance). b.available) e,
      ap (λ (b : Balance). b.reserved) e,
      ap (λ (b : Balance). b.last_hcm_as_of) e,
      rw e (
          flagged_if_negative
            (entry.balance
              -ℤ pos (unseen_days entry.employee_id entry.location_id as_of t)
              +ℤ pos (coming_days entry.employee_id entry.location_id t))
            (balance_of entry.employee_id entry.location_id t).needs_review),
    )
