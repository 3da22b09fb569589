-- ===== src/Guarantees/Repeats.antt =====
-- A cancellation made twice.
use wizdaa_takehome.Prelude.{
  ℕ, String, true, some, List, ◌≡◌, refl, subst, inl, inr, ◌||◌, first, first-upsert_self,
  Bool-cases, Option-cases, same_refl,
}
use wizdaa_takehome.Entities.{
  TimeOffRequest, RequestStatus, request_id_is, is_pending, is_pending_sync, is_approved,
  is_cancelled,
}
use wizdaa_takehome.Config.{AppConfig}
use wizdaa_takehome.Database.{
  Tables, Outcome, ok, err, deadlock, settle, Database, memory_of, engine-eq-memory, request_key_is,
}
use wizdaa_takehome.Balances.{release, restore, change_balance, save_with_retry, save_attempts}
use wizdaa_takehome.Requests.{
  HcmReplies, set_status, file_sent, is_file_of, cancel_tx, cancel_synced, cancel_locked,
  void_pending_file_rows,
}
use wizdaa_takehome.Ledger.Reject.{found_id}

module _ (db : Database) (config : AppConfig) (hcm : HcmReplies) (now : ℕ) where
  -- The request that a call returned is a cancelled one, and is what the table has.
  abbrev Cancelled : String → Outcome TimeOffRequest × Tables → Type 0
  Cancelled id (ok r, t) =
      (first (request_id_is id) t.requests ≡ some r) × (is_cancelled r.status ≡ true)
  Cancelled id (err x, t) = Unit
  Cancelled id (deadlock, t) = Unit

  cancel_tx-Cancelled :
      (r : TimeOffRequest) (locks : List String) (t : Tables)
      → Cancelled r.id (settle t (cancel_tx (memory_of db) config hcm now r.id r locks t))
  unfolding cancel_tx cancel_synced release restore change_balance save_with_retry save_attempts
      void_pending_file_rows
  cancel_tx-Cancelled r locks t =
      let saved_eq =
        first-upsert_self request_key_is (set_status RequestStatus.cancelled r) t.requests
          (same_refl r.id) in
      elim (Bool-cases (is_pending r.status)) [
        | inl p ↦ rw p (saved_eq, refl)
        | inr p ↦ elim (Bool-cases (is_pending_sync r.status)) [
          | inr q ↦ rw (p, q) (saved_eq, refl)
          | inl q ↦ elim (Bool-cases (file_sent (first (is_file_of r.id) t.outbox))) [
            | inl sent ↦ rw (p, q, cancel_synced, sent) (saved_eq, refl)
            | inr waits ↦ rw (p, q, cancel_synced, waits) (saved_eq, refl)
          ]
        ]
      ]

  cancel_locked-Cancelled :
      (id : String) (locks : List String) (t : Tables)
      → Cancelled id (cancel_locked (memory_of db) config hcm now id locks t)
  unfolding cancel_locked
  cancel_locked-Cancelled id locks t = elim (Option-cases (first (request_id_is id) t.requests)) [
    | inl e ↦ rw e tt
    | inr (r, e) ↦ rw e (elim (Bool-cases (is_cancelled r.status)) [
      | inl already ↦ rw already (e, already)
      | inr active ↦
          elim (Bool-cases
            (is_pending r.status || is_pending_sync r.status || is_approved r.status)) [
              | inr h ↦ rw (active, h) tt
              | inl h ↦ rw (active, h, found_id id r t e) (cancel_tx-Cancelled r locks t)
            ]
    ])
  ]

  again :
      (id : String) (locks : List String) (r : TimeOffRequest) (t : Tables)
      → Cancelled id (ok r, t)
      → cancel_locked (memory_of db) config hcm now id locks t ≡ (ok r, t)
  unfolding cancel_locked
  again id locks r t (found, already) = rw (found, already) refl

-- A cancellation under the lock that returns a request has left it CANCELLED in the table, so that
-- the same cancellation made again, at any time and whatever HCM answers, returns the same request
-- and writes nothing.
pub cancel_twice_is_once :
    (db : Database) (config : AppConfig) (hcm hcm' : HcmReplies) (now later : ℕ) (id : String)
    (locks : List String) (t t' : Tables) (r : TimeOffRequest)
    → cancel_locked db.engine config hcm now id locks t ≡ (ok r, t')
    → cancel_locked db.engine config hcm' later id locks t' ≡ (ok r, t')
cancel_twice_is_once db config hcm hcm' now later id locks t t' r h = rw (engine-eq-memory db) (
    again db config hcm' later id locks r t' (
      subst (Cancelled db config hcm now id) (rw (engine-eq-memory db) at h)
        (cancel_locked-Cancelled db config hcm now id locks t)))
