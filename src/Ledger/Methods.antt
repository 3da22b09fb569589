-- ===== src/Ledger/Methods.antt =====
-- The methods as their callers see them: the read before the lock, the lock, and the callback.
use wizdaa_takehome.Prelude.{ℕ, String, inl, inr, first, select, Bool-cases, Option-cases}
use wizdaa_takehome.Entities.{TimeOffRequest, Outbox, request_id_is, outbox_id_is, is_waiting}
use wizdaa_takehome.Config.{AppConfig}
use wizdaa_takehome.Database.{Tables, Action, Database, memory_of, pure, ◌>>◌}
use wizdaa_takehome.Balances.{HcmReply, balance_key, run_exclusive, get_balance}
use wizdaa_takehome.Requests.{
  HcmReplies, SubmitArgs, submit, submit_locked, approve, approve_locked, reject, reject_locked,
  cancel, cancel_locked, expire, on_request,
}
use wizdaa_takehome.Dispatcher.{HcmWrites, dispatch_locked, dispatch_one, dispatch_pending}
use wizdaa_takehome.Reaper.{swallow, is_overdue, expire_one, sweep}
use wizdaa_takehome.Ledger.Value.{SameValue}
use wizdaa_takehome.Ledger.Moves.{Inv}
use wizdaa_takehome.Ledger.Reject.{kept_refl, kept_trans, reject_locked-Kept, expire-Kept}
use wizdaa_takehome.Ledger.Cancel.{cancel_locked-Kept}
use wizdaa_takehome.Ledger.Reads.{get_balance-Inv}
use wizdaa_takehome.Ledger.Approve.{approve_locked-Inv}
use wizdaa_takehome.Ledger.Submit.{submit_locked-Inv}
use wizdaa_takehome.Ledger.Dispatch.{dispatch_locked-Kept}
use wizdaa_takehome.Ledger.Respects.{
  Respects, pure-Respects, bind-Respects, option-Respects, found-Respects, exclusive-Respects,
  swallow-Respects, for_each-Respects,
}
use wizdaa_takehome.Ledger.Reconcile.{StaysInv, stay_Inv, trans_Inv}

-- A call after which the invariants hold if they held before, and that moves days only between the
-- available days of a balance and the committed ones.
abbrev pub StaysKept : Tables → Tables → Type 0
StaysKept t t' = Inv t → Inv t' × SameValue t t'

pub stay_Kept : (t : Tables) → StaysKept t t
stay_Kept = kept_refl

pub trans_Kept : (t t' t'' : Tables) → StaysKept t t' → StaysKept t' t'' → StaysKept t t''
trans_Kept t t' t'' f g inv = kept_trans t t' t'' (f inv).1 (g (f inv).0)

module _ (db : Database) (config : AppConfig) where
  pub read-Inv :
      (reply : HcmReply) (employee location : String)
      → Respects StaysInv (get_balance (memory_of db) config reply employee location)
  read-Inv reply employee location locks t inv =
      (get_balance-Inv db config reply employee location locks t inv).0

  module _ (hcm : HcmReplies) (now : ℕ) where
    -- What a method does on a request that is there.
    warmed :
        (locked : String → Action TimeOffRequest) (id : String)
        → Respects StaysInv (locked id)
        → Respects StaysInv (on_request (memory_of db) config hcm now locked id)
    warmed locked id h locks t =
        found-Respects StaysInv stay_Inv trans_Inv (first (request_id_is id) t.requests)
          (λ (r : TimeOffRequest).
            get_balance (memory_of db) config hcm.prewarm r.employee_id r.location_id
            >> run_exclusive (balance_key r.employee_id r.location_id) (locked id))
          (λ r.
            bind-Respects StaysInv stay_Inv trans_Inv
              (get_balance (memory_of db) config hcm.prewarm r.employee_id r.location_id)
              (λ _. run_exclusive (balance_key r.employee_id r.location_id) (locked id))
              (read-Inv hcm.prewarm r.employee_id r.location_id)
              (λ _.
                exclusive-Respects StaysInv stay_Inv trans_Inv
                  (balance_key r.employee_id r.location_id) (locked id) h))
          locks t

    pub approve-Inv : (id : String) → Respects StaysInv (approve (memory_of db) config hcm now id)
    unfolding approve
    approve-Inv id =
        warmed (approve_locked (memory_of db) config hcm now) id
          (approve_locked-Inv db config hcm now id)

    pub reject-Inv : (id : String) → Respects StaysInv (reject (memory_of db) config hcm now id)
    unfolding reject
    reject-Inv id =
        warmed (reject_locked (memory_of db) config hcm now) id
          (λ locks t inv. (reject_locked-Kept db config hcm now id locks t inv).0)

    pub cancel-Inv : (id : String) → Respects StaysInv (cancel (memory_of db) config hcm now id)
    unfolding cancel
    cancel-Inv id =
        warmed (cancel_locked (memory_of db) config hcm now) id
          (λ locks t inv. (cancel_locked-Kept db config hcm now id locks t inv).0)

    pub submit-Inv :
        (args : SubmitArgs) → Respects StaysInv (submit (memory_of db) config hcm now args)
    unfolding submit
    submit-Inv args =
        bind-Respects StaysInv stay_Inv trans_Inv
          (get_balance (memory_of db) config hcm.prewarm args.employee_id args.location_id)
          (λ _.
            run_exclusive (balance_key args.employee_id args.location_id)
              (submit_locked (memory_of db) config hcm now args))
          (read-Inv hcm.prewarm args.employee_id args.location_id)
          (λ _.
            exclusive-Respects StaysInv stay_Inv trans_Inv
              (balance_key args.employee_id args.location_id)
              (submit_locked (memory_of db) config hcm now args)
              (submit_locked-Inv db config hcm now args))

  module _ (hcm : HcmWrites) (now : ℕ) where
    dispatch_request :
        (id : String) (r : TimeOffRequest)
        → Respects StaysKept (
            run_exclusive
              (balance_key r.employee_id r.location_id)
              (dispatch_locked (memory_of db) config hcm now id))
    dispatch_request id r =
        exclusive-Respects StaysKept stay_Kept trans_Kept (balance_key r.employee_id r.location_id)
          (dispatch_locked (memory_of db) config hcm now id)
          (λ locks t inv. dispatch_locked-Kept db config hcm now id locks t inv)

    pub dispatch_one-Kept :
        (id : String) → Respects StaysKept (dispatch_one (memory_of db) config hcm now id)
    unfolding dispatch_one
    dispatch_one-Kept id locks t = elim (Option-cases (first (outbox_id_is id) t.outbox)) [
      | inl e ↦ rw e (stay_Kept t)
      | inr (o, e) ↦ elim (Bool-cases (is_waiting o.status)) [
        | inr done ↦ rw (e, done) (stay_Kept t)
        | inl wait ↦
            rw (e, wait)
              (option-Respects StaysKept stay_Kept trans_Kept
                (first (request_id_is o.aggregate_id) t.requests) (pure tt)
                (λ (r : TimeOffRequest).
                  run_exclusive (balance_key r.employee_id r.location_id)
                    (dispatch_locked (memory_of db) config hcm now id))
                (pure-Respects StaysKept stay_Kept trans_Kept tt) (dispatch_request id) locks t)
      ]
    ]

    pub dispatch_pending-Kept : Respects StaysKept (dispatch_pending (memory_of db) config hcm now)
    unfolding dispatch_pending
    dispatch_pending-Kept locks t =
        for_each-Respects StaysKept stay_Kept trans_Kept
          (λ (o : Outbox). dispatch_one (memory_of db) config hcm now o.id)
          (db.oldest_first (select (λ (o : Outbox). is_waiting o.status) t.outbox))
          (λ o. dispatch_one-Kept o.id) locks t

module _ (db : Database) where
  expire_one-Kept : (r : TimeOffRequest) → Respects StaysKept (expire_one (memory_of db) r)
  unfolding expire_one
  expire_one-Kept r =
      exclusive-Respects StaysKept stay_Kept trans_Kept (balance_key r.employee_id r.location_id)
        (swallow (expire (memory_of db) r.id))
        (swallow-Respects StaysKept stay_Kept trans_Kept (expire (memory_of db) r.id)
          (λ locks t inv. expire-Kept db r.id locks t inv))

  pub sweep-Kept : (now : ℕ) → Respects StaysKept (sweep (memory_of db) now)
  unfolding sweep
  sweep-Kept now locks t =
      for_each-Respects StaysKept stay_Kept trans_Kept (expire_one (memory_of db))
        (select (is_overdue now) t.requests) expire_one-Kept locks t
