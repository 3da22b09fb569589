-- ===== src/Guarantees/Retries.antt =====
-- `saveWithRetry` over a database of which nothing is promised.
use wizdaa_takehome.Prelude.{
  ℕ, zero, suc, String, some, List, ◌≡◌, refl, sym, ap, ◌∙◌, subst, ◌⊎◌, inl, inr, Option-cases,
}
use wizdaa_takehome.Entities.{Balance, balance_at}
use wizdaa_takehome.Database.{
  Tables, Engine, Saved, saved, mismatch, failed, Outcome, ok, err, version_mismatch,
}
use wizdaa_takehome.Balances.{save_attempts, save_with_retry, max_optimistic_retries}

Saved-cases :
    (s : Saved)
    → ((rows : List Balance) × (s ≡ saved rows))
      ⊎ (((rows : List Balance) × (s ≡ mismatch rows)) ⊎ (s ≡ failed))
Saved-cases (saved rows) = inl (rows, refl)
Saved-cases (mismatch rows) = inr (inl (rows, refl))
Saved-cases failed = inr (inr refl)

module _ (e : Engine) (employee location : String) (mutate : Balance → Balance) where
  -- The save that went through: the change of the row that the caller had, on the rows that the
  -- caller had, or of a row that was read from the rows that the save then met.
  abbrev pub AppliedOnce : Balance → List Balance → List Balance → Type 0
  AppliedOnce b before result =
      (read : Balance) × (rows : List Balance) × (((read ≡ b) × (rows ≡ before))
        ⊎ (e.find_one Balance (balance_at employee location) rows ≡ some read))
      × (e.save_balance (mutate read) rows ≡ saved result)

  abbrev rows_after : Outcome (Unit {0}) × Tables → List Balance
  rows_after (out, t) = t.balances

  at_once :
      (b : Balance) (t t' : Tables) (rows : List Balance)
      → e.save_balance (mutate b) t.balances ≡ saved rows
      → rows ≡ t'.balances
      → AppliedOnce b t.balances t'.balances
  at_once b t t' rows s h = (b, t.balances, inl (refl, refl), s ∙ ap saved h)

  -- What a later round applied, as the round before it sees it.
  later :
      (b reloaded : Balance) (rows before result : List Balance)
      → e.find_one Balance (balance_at employee location) rows ≡ some reloaded
      → AppliedOnce reloaded rows result
      → AppliedOnce b before result
  later b reloaded rows before result f (read, rows', inl (p, q), s) = (
    read,
    rows',
    inr (
        subst (λ x. e.find_one Balance (balance_at employee location) x ≡ some read) (sym q)
          (f ∙ ap some (sym p))),
    s,
  )
  later b reloaded rows before result f (read, rows', inr g, s) = (read, rows', inr g, s)

  applied :
      (left : ℕ) (b : Balance) (locks : List String) (t t' : Tables)
      → save_attempts e employee location mutate left (mutate b) locks t ≡ (ok tt, t')
      → AppliedOnce b t.balances t'.balances
  unfolding save_attempts
  applied zero b locks t t' h = elim (Saved-cases (e.save_balance (mutate b) t.balances)) [
    | inl (rows, s) ↦ at_once b t t' rows s (ap rows_after (rw s at h))
    | inr (inl (rows, s)) ↦ absurd (cc (rw s at h))
    | inr (inr s) ↦ absurd (cc (rw s at h))
  ]
  applied (suc left) b locks t t' h = elim (Saved-cases (e.save_balance (mutate b) t.balances)) [
    | inl (rows, s) ↦ at_once b t t' rows s (ap rows_after (rw (s, save_attempts) at h))
    | inr (inr s) ↦ absurd (cc (rw (s, save_attempts) at h))
    | inr (inl (rows, s)) ↦
        elim (Option-cases (e.find_one Balance (balance_at employee location) rows)) [
          | inl f ↦ absurd (cc (rw (s, f, save_attempts) at h))
          | inr (reloaded, f) ↦ later b reloaded rows t.balances t'.balances f (
              applied left reloaded locks (record t { balances = rows }) t'
                (rw (s, f, save_attempts) at h))
        ]
  ]

  -- A row that is there after every save that met another writer.
  abbrev pub NeverSaved : List Balance → Type 0
  NeverSaved rows =
      (b : Balance)
      → (rows' : List Balance) × (e.save_balance b rows ≡ mismatch rows')
        × (row : Balance) × (e.find_one Balance (balance_at employee location) rows' ≡ some row)

  gives_up :
      (left : ℕ) (b : Balance) (locks : List String) (t : Tables)
      → ((rows : List Balance) → NeverSaved rows)
      → (save_attempts e employee location mutate left b locks t).0 ≡ err version_mismatch
  unfolding save_attempts
  gives_up zero b locks t never = rw ((never t.balances b).1) refl
  gives_up (suc left) b locks t never =
      let (rows, s, row, f) = never t.balances b in
      rw (s, f) (gives_up left (mutate row) locks (record t { balances = rows }) never)

-- Whatever the database does: if `saveWithRetry` returns, the last save that it made went through, and
-- it saved the change applied once, either to the row that the caller had read, with no other save
-- between, or to a row that was read again from the very rows that the save then met. So no change
-- of another writer is lost, and none is applied twice.
pub retry_applies_once :
    (e : Engine) (b : Balance) (mutate : Balance → Balance) (locks : List String) (t t' : Tables)
    → save_with_retry e b mutate locks t ≡ (ok tt, t')
    → AppliedOnce e b.employee_id b.location_id mutate b t.balances t'.balances
unfolding save_with_retry
retry_applies_once e b mutate locks t t' h =
    applied e b.employee_id b.location_id mutate max_optimistic_retries b locks t t' h

-- If every save meets another writer, and the row is always there to be read again, `saveWithRetry`
-- ends, after its last retry, with the version mismatch.
pub retry_gives_up :
    (e : Engine) (b : Balance) (mutate : Balance → Balance) (locks : List String) (t : Tables)
    → ((rows : List Balance) → NeverSaved e b.employee_id b.location_id mutate rows)
    → (save_with_retry e b mutate locks t).0 ≡ err version_mismatch
unfolding save_with_retry
retry_gives_up e b mutate locks t never =
    gives_up e b.employee_id b.location_id mutate max_optimistic_retries (mutate b) locks t never
