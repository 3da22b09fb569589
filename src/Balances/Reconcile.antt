-- ===== src/Balances/Reconcile.antt =====
-- `reconcileBalance`: HCM's value, with the local effects replayed that it cannot know of yet.
use wizdaa_takehome.Prelude.{
  ℕ, String, Bool, true, not, Option, none, some, ◌&&◌, ◌||◌, ◌==◌, total, if◌then◌else◌,
}
use wizdaa_takehome.Prelude.Int.{ℤ, pos, ◌+ℤ◌, ◌-ℤ◌, ltb_ℤ, eqb_ℤ}
use wizdaa_takehome.Entities.{
  TimeOffRequest, Outbox, ReconResolution, HcmBalance, request_at, request_id_is, is_approved,
  is_pending_sync, is_pending, is_cancelled, is_file, is_waiting,
}
use wizdaa_takehome.Database.{Tables, Engine, Action, gets, modify, ◌>>=◌, ◌>>◌}
use wizdaa_takehome.Balances.Defs.{find_or_create, save_with_retry, set_reconciled}

abbrev pub days_of : TimeOffRequest → ℕ
days_of r = r.days

abbrev pub is_committed : TimeOffRequest → Bool
is_committed r = is_approved r.status || is_pending_sync r.status

-- A REVERSE row that is still to be sent.
abbrev pub is_pending_reverse : Outbox → Bool
is_pending_reverse o = not (is_file o.operation) && is_waiting o.status

abbrev pub is_pending_at : String → String → TimeOffRequest → Bool
is_pending_at employee location r = request_at employee location r && is_pending r.status

-- The cancelled request that a row belongs to, in the join of the two tables.
abbrev pub is_reversed_by : String → String → Outbox → TimeOffRequest → Bool
is_reversed_by employee location o r =
    request_id_is o.aggregate_id r && request_at employee location r && is_cancelled r.status

abbrev pub resolution_of : ℤ → Bool → ReconResolution
resolution_of value adjusted =
    if ltb_ℤ value (pos 0)
    then ReconResolution.flagged_negative
    else if adjusted
    then ReconResolution.replayed
    else ReconResolution.no_change

module _ (e : Engine) where
  -- `r.hcmAckAt IS NULL OR r.hcmAckAt > :asOf`.
  abbrev pub is_unseen : ℕ → Option ℕ → Bool
  is_unseen as_of none = true
  is_unseen as_of (some acked) = e.is_after acked as_of

  abbrev pub is_unacked : String → String → ℕ → TimeOffRequest → Bool
  is_unacked employee location as_of r =
      request_at employee location r && is_committed r && is_unseen as_of r.hcm_ack_at

  abbrev pub unacked_days : String → String → ℕ → Tables → ℕ
  unacked_days employee location as_of t =
      total days_of (e.find TimeOffRequest (is_unacked employee location as_of) t.requests)

  -- The days of one row of the outbox in the join.
  abbrev pub reversed_days : String → String → Tables → Outbox → ℕ
  reversed_days employee location t o =
      total days_of (e.find TimeOffRequest (is_reversed_by employee location o) t.requests)

  abbrev pub pending_reverse_days : String → String → Tables → ℕ
  pending_reverse_days employee location t =
      total (reversed_days employee location t) (e.find Outbox is_pending_reverse t.outbox)

  abbrev pub pending_days : String → String → Tables → ℕ
  pending_days employee location t =
      total days_of (e.find TimeOffRequest (is_pending_at employee location) t.requests)

  unfoldable pub reconcile_balance : HcmBalance → ℕ → Action (Unit {0})
  reconcile_balance entry as_of = do
    current ← find_or_create e entry.employee_id entry.location_id
    unacked ← gets (unacked_days entry.employee_id entry.location_id as_of)
    reversed ← gets (pending_reverse_days entry.employee_id entry.location_id)
    fresh ← gets (pending_days entry.employee_id entry.location_id)
    let value = entry.balance -ℤ pos unacked +ℤ pos reversed
    let adjusted =
        (not (unacked == 0)
          || not (reversed == 0)
          || not (eqb_ℤ value current.available)
          || not (fresh == current.reserved))
    save_with_retry e current (set_reconciled value fresh as_of)
    modify λ t. record t {
      events =
          e.save_event
            (record {
              employee_id = entry.employee_id;
              location_id = entry.location_id;
              local_value = current.available;
              hcm_value = entry.balance;
              resolution = resolution_of value adjusted;
            })
            t.events;
    }
