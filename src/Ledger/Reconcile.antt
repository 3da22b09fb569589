-- ===== src/Ledger/Reconcile.antt =====
-- The reconciliation with HCM: every balance that it writes has its reservations counted afresh.
use wizdaa_takehome.Prelude.{
  ℕ, ◌+◌, String, Bool, true, false, List, [], ◌∷◌, ◌≡◌, refl, ap, sym, ◌∙◌, inl, inr, select,
  upsert, total, Bool-cases, arith, if◌then◌else◌,
}
use wizdaa_takehome.Prelude.Int.{pos, ◌+ℤ◌, ◌-ℤ◌}
use wizdaa_takehome.Entities.{
  Balance, TimeOffRequest, HcmBalance, BatchCorpus, request_at, is_pending,
}
use wizdaa_takehome.Database.{Tables, Database, memory_of, balance_key_is, last_of, pure, ◌>>◌}
use wizdaa_takehome.Dispatcher.{for_each}
use wizdaa_takehome.Balances.{
  set_reconciled, clear_review, reconcile_balance, resolve_review, change_balance, save_with_retry,
  save_attempts, days_of, is_pending_at, pending_days, unacked_days, pending_reverse_days,
  balance_key,
}
use wizdaa_takehome.Reconciliation.{
  is_stale, sequence_guard, reconcile_entry, record_batch, ingest_batch,
}
use wizdaa_takehome.Ledger.Rows.{balance_of, balance_of-key}
use wizdaa_takehome.Ledger.Reserved.{held}
use wizdaa_takehome.Ledger.Moves.{Inv}
use wizdaa_takehome.Ledger.Reads.{written-Inv}
use wizdaa_takehome.Ledger.Respects.{
  Respects, bind-Respects, transaction-Respects, exclusive-Respects, for_each-Respects,
}

-- The sum over the pending requests that a query gives is what they hold.
pub pending_days-held :
    (employee location : String) (rs : List TimeOffRequest)
    → total days_of (select (is_pending_at employee location) rs)
      ≡ total (held employee location) rs
pending_days-held employee location [] = refl
pending_days-held employee location (r ∷ rs) = elim (Bool-cases (request_at employee location r)) [
  | inr other ↦ rw other (omega (arith, pending_days-held employee location rs))
  | inl here ↦ elim (Bool-cases (is_pending r.status)) [
    | inl p ↦ rw (here, p) (ap (◌+◌ r.days) (pending_days-held employee location rs))
    | inr p ↦ rw (here, p) (omega (arith, pending_days-held employee location rs))
  ]
]

-- A balance that is written with what its pending requests hold.
fresh-Inv :
    (t : Tables) (b : Balance)
    → b.reserved ≡ total (held b.employee_id b.location_id) t.requests
    → Inv t
    → Inv (record t { balances = upsert balance_key_is b t.balances })
fresh-Inv t b h inv = written-Inv t b (h ∙ sym (inv.reserved b.employee_id b.location_id)) inv

-- A call after which the invariants hold, if they held before.
abbrev pub StaysInv : Tables → Tables → Type 0
StaysInv t t' = Inv t → Inv t'

pub stay_Inv : (t : Tables) → StaysInv t t
stay_Inv t inv = inv

pub trans_Inv : (t t' t'' : Tables) → StaysInv t t' → StaysInv t' t'' → StaysInv t t''
trans_Inv t t' t'' f g inv = g (f inv)

module _ (db : Database) where
  pub reconcile_balance-Inv :
      (entry : HcmBalance) (as_of : ℕ)
      → Respects StaysInv (reconcile_balance (memory_of db) entry as_of)
  unfolding reconcile_balance save_with_retry save_attempts
  reconcile_balance-Inv entry as_of locks t inv =
      let employee = entry.employee_id in
      let location = entry.location_id in
      let b = balance_of employee location t in
      let key = balance_of-key employee location t in
      let value =
        entry.balance
        -ℤ pos (unacked_days (memory_of db) employee location as_of t)
        +ℤ pos (pending_reverse_days (memory_of db) employee location t) in
      let fresh = pending_days (memory_of db) employee location t in
      let written =
        fresh-Inv t (set_reconciled value fresh as_of b)
          (rw (key.0, key.1) (pending_days-held employee location t.requests)) inv in
      record {
        reserved = written.reserved;
        filed = written.filed;
        single = written.single;
        apart = written.apart;
      }

  pub resolve_review-Inv :
      (employee location : String)
      → Respects StaysInv (resolve_review (memory_of db) employee location)
  unfolding resolve_review change_balance save_with_retry save_attempts
  resolve_review-Inv employee location =
      exclusive-Respects StaysInv stay_Inv trans_Inv (balance_key employee location)
        (change_balance (memory_of db) employee location clear_review)
        (λ locks t inv.
          let b = balance_of employee location t in
          let key = balance_of-key employee location t in
          written-Inv t (clear_review b) (rw (key.0, key.1) refl) inv)

  pub sequence_guard-Inv :
      (corpus : BatchCorpus) → Respects StaysInv (sequence_guard (memory_of db) corpus)
  unfolding sequence_guard
  sequence_guard-Inv corpus locks t inv =
      elim (Bool-cases (is_stale corpus (last_of t.batch_logs))) [
        | inl stale ↦ rw stale (record {
          reserved = inv.reserved;
          filed = inv.filed;
          single = inv.single;
          apart = inv.apart;
        })
        | inr next ↦ rw next inv
      ]

  pub record_batch-Inv :
      (corpus : BatchCorpus) → Respects StaysInv (record_batch (memory_of db) corpus)
  unfolding record_batch
  record_batch-Inv corpus locks t inv = record {
    reserved = inv.reserved;
    filed = inv.filed;
    single = inv.single;
    apart = inv.apart;
  }

  pub reconcile_entry-Inv :
      (as_of : ℕ) (entry : HcmBalance)
      → Respects StaysInv (reconcile_entry (memory_of db) as_of entry)
  unfolding reconcile_entry
  reconcile_entry-Inv as_of entry =
      exclusive-Respects StaysInv stay_Inv trans_Inv
        (balance_key entry.employee_id entry.location_id)
        ((memory_of db).transaction (Unit {0}) (reconcile_balance (memory_of db) entry as_of))
        (transaction-Respects StaysInv stay_Inv trans_Inv
          (reconcile_balance (memory_of db) entry as_of) (reconcile_balance-Inv entry as_of))

  ingest_rest :
      (corpus : BatchCorpus) (stale : Bool)
      → Respects StaysInv (
          if stale
          then pure tt
          else (for_each (reconcile_entry (memory_of db) corpus.as_of) corpus.balances
              >> (memory_of db).transaction (Unit {0}) (record_batch (memory_of db) corpus)))
  ingest_rest corpus true locks t = stay_Inv t
  ingest_rest corpus false locks t =
      bind-Respects StaysInv stay_Inv trans_Inv
        (for_each (reconcile_entry (memory_of db) corpus.as_of) corpus.balances)
        (λ _. (memory_of db).transaction (Unit {0}) (record_batch (memory_of db) corpus))
        (for_each-Respects StaysInv stay_Inv trans_Inv (reconcile_entry (memory_of db) corpus.as_of)
          corpus.balances (reconcile_entry-Inv corpus.as_of))
        (λ _.
          transaction-Respects StaysInv stay_Inv trans_Inv (record_batch (memory_of db) corpus)
            (record_batch-Inv corpus))
        locks t

  pub ingest_batch-Inv :
      (corpus : BatchCorpus) → Respects StaysInv (ingest_batch (memory_of db) corpus)
  unfolding ingest_batch
  ingest_batch-Inv corpus =
      bind-Respects StaysInv stay_Inv trans_Inv
        ((memory_of db).transaction Bool (sequence_guard (memory_of db) corpus))
        (λ stale.
          if stale
          then pure tt
          else (for_each (reconcile_entry (memory_of db) corpus.as_of) corpus.balances
              >> (memory_of db).transaction (Unit {0}) (record_batch (memory_of db) corpus)))
        (transaction-Respects StaysInv stay_Inv trans_Inv (sequence_guard (memory_of db) corpus)
          (sequence_guard-Inv corpus))
        (ingest_rest corpus)
