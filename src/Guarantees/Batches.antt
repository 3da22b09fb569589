-- ===== src/Guarantees/Batches.antt =====
-- The sequence guard of the batch ingest.
use wizdaa_takehome.Prelude.{
  ◌≤◌, String, true, Option, none, some, List, [], ◌∷◌, ◌++◌, ◌≡◌, refl, ap, inl, inr, leb,
  Bool-cases, arith,
}
use wizdaa_takehome.Entities.{BatchCorpus, BatchSyncLog}
use wizdaa_takehome.Database.{
  Tables, Outcome, ok, err, deadlock, then_do, Database, memory_of, last_of, engine-eq-memory,
}
use wizdaa_takehome.Dispatcher.{for_each}
use wizdaa_takehome.Reconciliation.{
  stale_event, is_stale, sequence_guard, reconcile_entry, record_batch, ingest_batch,
}

-- A log at the end of the logs is not above the last one.
last-append :
    (l : BatchSyncLog) (logs : List BatchSyncLog)
    → (y : BatchSyncLog) × (last_of (logs ++ l ∷ []) ≡ some y) × (l.sequence ≤ y.sequence)
last-append l [] = (l, refl, omega arith)
last-append l (x ∷ logs) =
    let (y, e, le) = last-append l logs in
    elim (Bool-cases (leb y.sequence x.sequence)) [
      | inl up ↦ (x, rw (e, up) refl, ground arith)
      | inr keep ↦ (y, rw (e, keep) refl, le)
    ]

abbrev Refused : BatchCorpus → Tables → Type 0
Refused older t = is_stale older (last_of t.batch_logs) ≡ true

module _ (db : Database) (corpus older : BatchCorpus)
    (below : older.sequence ≤ corpus.sequence) where
  recorded :
      (locks : List String) (out : Outcome (Unit {0}) × Tables) (t' : Tables)
      → then_do
          (λ _. (memory_of db).transaction (Unit {0}) (record_batch (memory_of db) corpus))
          locks
          out
        ≡ (ok tt, t')
      → Refused older t'
  unfolding record_batch
  recorded locks (ok done, u) t' h =
      let l : BatchSyncLog = record { sequence = corpus.sequence; as_of = corpus.as_of } in
      let (y, e, le) = last-append l u.batch_logs in
      let logs_eq : u.batch_logs ++ l ∷ [] ≡ t'.batch_logs = ap (λ p. p.1.batch_logs) h in
      rw (← logs_eq, e) (ground arith)
  recorded locks (err x, u) t' h = absurd (cc h)
  recorded locks (deadlock, u) t' h = absurd (cc h)

  older_refused :
      (last : Option BatchSyncLog) → is_stale corpus last ≡ true → is_stale older last ≡ true
  older_refused none h = absurd (cc h)
  older_refused (some l) h = ground arith

  ingested :
      (locks : List String) (t t' : Tables)
      → ingest_batch (memory_of db) corpus locks t ≡ (ok tt, t')
      → Refused older t'
  unfolding ingest_batch sequence_guard
  ingested locks t t' h = elim (Bool-cases (is_stale corpus (last_of t.batch_logs))) [
    | inl stale ↦
        let logs_eq : t.batch_logs ≡ t'.batch_logs = ap (λ p. p.1.batch_logs) (rw stale at h) in
        rw (← logs_eq) (older_refused (last_of t.batch_logs) stale)
    | inr next ↦
        recorded locks
          (for_each (reconcile_entry (memory_of db) corpus.as_of) corpus.balances locks t) t'
          (rw next at h)
  ]

  refused :
      (locks : List String) (t : Tables)
      → Refused older t
      → ingest_batch (memory_of db) older locks t
        ≡ (ok tt, record t { events = t.events ++ stale_event ∷ [] })
  unfolding ingest_batch sequence_guard
  refused locks t stale = rw stale refl

-- After the ingest of a batch has returned, the same batch, and every batch of a lower sequence, is
-- refused: the ingest returns, and writes one STALE_REJECTED event and nothing else.
pub ingest_refuses_older :
    (db : Database) (corpus older : BatchCorpus) (locks : List String) (t t' : Tables)
    → older.sequence ≤ corpus.sequence
    → ingest_batch db.engine corpus locks t ≡ (ok tt, t')
    → ingest_batch db.engine older locks t'
      ≡ (ok tt, record t' { events = t'.events ++ stale_event ∷ [] })
ingest_refuses_older db corpus older locks t t' below h = rw (engine-eq-memory db) (
    refused db corpus older below locks t'
      (ingested db corpus older below locks t t' (rw (engine-eq-memory db) at h)))
