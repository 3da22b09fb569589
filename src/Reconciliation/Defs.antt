-- ===== src/Reconciliation/Defs.antt =====
-- The ingest of a batch, and the reconciliation of one balance.
use wizdaa_takehome.Prelude.{ℕ, String, Bool, true, false, Option, none, some, leb, if◌then◌else◌}
use wizdaa_takehome.Prelude.Int.{ℤ, pos}
use wizdaa_takehome.Entities.{
  ReconciliationEvent, ReconResolution, BatchSyncLog, BatchCorpus, HcmBalance,
}
use wizdaa_takehome.Database.{Engine, Action, pure, gets, modify, ◌>>=◌, ◌>>◌}
use wizdaa_takehome.Balances.{balance_key, run_exclusive, reconcile_balance}
use wizdaa_takehome.Dispatcher.{for_each}

-- The event of a batch that is refused, with '*' for employee and location.
abbrev pub stale_event : ReconciliationEvent
stale_event = record {
  employee_id = "*";
  location_id = "*";
  local_value = pos 0;
  hcm_value = pos 0;
  resolution = ReconResolution.stale_rejected;
}

-- `last !== null && corpus.sequence <= last.sequence`.
abbrev pub is_stale : BatchCorpus → Option BatchSyncLog → Bool
is_stale corpus none = false
is_stale corpus (some last) = leb corpus.sequence last.sequence

module _ (e : Engine) where
  -- Transaction 1.
  unfoldable pub sequence_guard : BatchCorpus → Action Bool
  sequence_guard corpus = do
    last ← gets λ t. e.last_batch t.batch_logs
    if is_stale corpus last
        then (do modify λ t. record t { events = e.save_event stale_event t.events }; pure true)
        else pure false

  -- Transaction 2, for each entry, under the lock of its key.
  unfoldable pub reconcile_entry : ℕ → HcmBalance → Action (Unit {0})
  reconcile_entry as_of entry =
      run_exclusive (balance_key entry.employee_id entry.location_id)
        (e.transaction (Unit {0}) (reconcile_balance e entry as_of))

  -- Transaction 3.
  unfoldable pub record_batch : BatchCorpus → Action (Unit {0})
  record_batch corpus = modify λ t. record t {
    batch_logs =
        e.save_batch_log (record { sequence = corpus.sequence; as_of = corpus.as_of }) t.batch_logs;
  }

  unfoldable pub ingest_batch : BatchCorpus → Action (Unit {0})
  ingest_batch corpus = do
    stale ← e.transaction Bool (sequence_guard corpus)
    if stale then pure tt else (do
      for_each (reconcile_entry corpus.as_of) corpus.balances
      e.transaction (Unit {0}) (record_batch corpus))

  -- `ReconciliationService.reconcileBalance`.
  unfoldable pub reconcile_one : String → String → ℤ → ℕ → Action (Unit {0})
  reconcile_one employee location value as_of =
      reconcile_entry as_of
        (record { employee_id = employee; location_id = location; balance = value; as_of = as_of })
