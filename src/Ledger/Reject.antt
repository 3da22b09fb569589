-- ===== src/Ledger/Reject.antt =====
-- `reject` and `expire` under the lock.
use wizdaa_takehome.Prelude.{
  ℕ, String, true, some, List, ◌≡◌, refl, ◌∙◌, inl, inr, first, Bool-cases, Option-cases,
  eq_of_same, first-holds,
}
use wizdaa_takehome.Entities.{
  TimeOffRequest, RequestStatus, request_id_is, is_pending, is_pending_sync,
}
use wizdaa_takehome.Config.{AppConfig}
use wizdaa_takehome.Database.{
  Tables, Action, Outcome, then_do, ok, err, deadlock, settle, Database, memory_of,
}
use wizdaa_takehome.Balances.{release, restore, change_balance, save_with_retry, save_attempts}
use wizdaa_takehome.Requests.{
  HcmReplies, reject_tx, reject_locked, void_pending_file_rows, expire_tx, expire,
}
use wizdaa_takehome.Ledger.Rows.{found_self}
use wizdaa_takehome.Ledger.Value.{SameValue}
use wizdaa_takehome.Ledger.Filed.{voided_rows}
use wizdaa_takehome.Ledger.Moves.{
  Inv, pending_only, kept_rows, void_rows, RowsFor, sync_committed, released, restored,
}

-- The tables after a call keep the invariants, and no balance gained or lost days.
abbrev pub Kept : {A : Type 0} → Tables → Outcome A × Tables → Type 0
Kept t (_, t') = Inv t' × SameValue t t'

pub kept_refl : (t : Tables) → Inv t → Inv t × SameValue t t
kept_refl t inv = (inv, λ employee location. refl)

pub kept_trans :
    (t t' t'' : Tables) → SameValue t t' → Inv t'' × SameValue t' t'' → Inv t'' × SameValue t t''
kept_trans t t' t'' before (inv, after) =
    (inv, λ employee location. after employee location ∙ before employee location)

-- A transaction that is rolled back keeps everything.
pub settle-Kept :
    {A : Type 0} (t : Tables) (out : Outcome A × Tables)
    → Inv t
    → Kept t out
    → Kept t (settle t out)
settle-Kept t (ok a, t') inv kept = kept
settle-Kept t (err e, t') inv kept = kept_refl t inv
settle-Kept t (deadlock, t') inv kept = kept_refl t inv

-- A call, and then what follows it if it returns.
pub follow :
    {A B : Type 0} (P Q : Tables → Type 0) (f : A → Action B) (locks : List String)
    (out : Outcome A × Tables)
    → P out.1
    → ((t : Tables) → P t → Q t)
    → ((a : A) (t : Tables) → P t → Q (f a locks t).1)
    → Q (then_do f locks out).1
follow P Q f locks (ok a, t) p weaken k = k a t p
follow P Q f locks (err e, t) p weaken k = weaken t p
follow P Q f locks (deadlock, t) p weaken k = weaken t p

pub found_id :
    (id : String) (r : TimeOffRequest) (t : Tables)
    → first (request_id_is id) t.requests ≡ some r
    → id ≡ r.id
found_id id r t e = eq_of_same id r.id (first-holds (request_id_is id) t.requests r e)

pub no_rows :
    (t : Tables) (r : TimeOffRequest)
    → is_pending r.status ≡ true
    → Inv t
    → first (request_id_is r.id) t.requests ≡ some r
    → RowsFor t r t.outbox 0
no_rows t r was inv found =
    let kept = kept_rows t r inv found in rw (pending_only r.status was).0 at kept

module _ (db : Database) (config : AppConfig) (hcm : HcmReplies) (now : ℕ) where
  pub reject_locked-Kept :
      (id : String) (held : List String) (t : Tables)
      → Inv t
      → Kept t (reject_locked (memory_of db) config hcm now id held t)
  unfolding reject_locked reject_tx release restore change_balance save_with_retry save_attempts
      void_pending_file_rows
  reject_locked-Kept id held t inv = elim (Option-cases (first (request_id_is id) t.requests)) [
    | inl e ↦ rw e (kept_refl t inv)
    | inr (r, e) ↦
        let found = found_self id r t.requests e in
        rw e (elim (Bool-cases (is_pending r.status)) [
          | inl p ↦ rw p (
              released t r RequestStatus.rejected r.committed_at r.hcm_ack_at t.outbox found p refl
                refl refl (no_rows t r p inv found) inv)
          | inr p ↦ elim (Bool-cases (is_pending_sync r.status)) [
            | inl q ↦
                rw (p, q, found_id id r t e)
                  (restored t r RequestStatus.rejected r.committed_at r.hcm_ack_at
                    (voided_rows r.id t.outbox) found p (sync_committed r q) refl refl refl
                    (void_rows t r inv) inv)
            | inr q ↦ rw (p, q) (kept_refl t inv)
          ]
        ])
  ]

module _ (db : Database) where
  pub expire-Kept :
      (id : String) (held : List String) (t : Tables)
      → Inv t
      → Kept t (expire (memory_of db) id held t)
  unfolding expire expire_tx release restore change_balance save_with_retry save_attempts
      void_pending_file_rows
  expire-Kept id held t inv = elim (Option-cases (first (request_id_is id) t.requests)) [
    | inl e ↦ rw e (kept_refl t inv)
    | inr (r, e) ↦
        let found = found_self id r t.requests e in
        rw e (elim (Bool-cases (is_pending r.status)) [
          | inl p ↦
              rw (p, found_id id r t e)
                (released t r RequestStatus.expired r.committed_at r.hcm_ack_at
                  (voided_rows r.id t.outbox) found p refl refl refl (void_rows t r inv) inv)
          | inr p ↦ elim (Bool-cases (is_pending_sync r.status)) [
            | inl q ↦
                rw (p, q, found_id id r t e)
                  (restored t r RequestStatus.expired r.committed_at r.hcm_ack_at
                    (voided_rows r.id t.outbox) found p (sync_committed r q) refl refl refl
                    (void_rows t r inv) inv)
            | inr q ↦ rw (p, q) (kept_refl t inv)
          ]
        ])
  ]
