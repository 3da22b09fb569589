-- ===== src/Guarantees/Served.antt =====
-- The whole service: requests of people and of HCM, and the two timers, one after another.
use wizdaa_takehome.Prelude.{
  ℕ, String, Bool, true, Option, List, [], ◌∷◌, map, sym, subst, inl, inr,
}
use wizdaa_takehome.Entities.{BatchCorpus}
use wizdaa_takehome.Config.{AppConfig}
use wizdaa_takehome.Database.{Tables, Engine, Outcome, Database, memory_of, engine-eq-memory, pure}
use wizdaa_takehome.Balances.{HcmReply, unavailable, resolve_review}
use wizdaa_takehome.Requests.{HcmReplies}
use wizdaa_takehome.Reconciliation.{ingest_batch}
use wizdaa_takehome.Dispatcher.{HcmWrites, dispatch_pending}
use wizdaa_takehome.Reaper.{sweep}
use wizdaa_takehome.Http.{
  SubmitBody, submit_args, copy_entry, submit_route, post_approve, post_reject, post_cancel,
  get_balances, patch_resolve_review, post_batch,
}
use wizdaa_takehome.Ledger.Moves.{Inv}
use wizdaa_takehome.Ledger.Respects.{bind-Respects, pure-Respects}
use wizdaa_takehome.Ledger.Reconcile.{
  StaysInv, stay_Inv, trans_Inv, resolve_review-Inv, ingest_batch-Inv,
}
use wizdaa_takehome.Ledger.Methods.{
  read-Inv, submit-Inv, approve-Inv, reject-Inv, cancel-Inv, dispatch_pending-Kept, sweep-Kept,
}
use wizdaa_takehome.Ledger.Reached.{no_rows_yet, in_memory-Inv, start}
use wizdaa_takehome.Guarantees.Access.{
  Guarded, submit_is_own, managers_only, cancel_is_own, balance_is_own,
}

-- The headers of a request.
pub record Headers : Type 0 where
  pub principal : Option String
  pub role : Option String

-- One request, or one tick of a timer, with HCM's answers and the time.
pub data Call : Type 0 where
  submit_call : Headers → HcmReplies → ℕ → SubmitBody → Option String → Call
  approve_call reject_call cancel_call : Headers → HcmReplies → ℕ → String → Call
  balance_call : Headers → HcmReply → String → String → Call
  review_call : Headers → String → String → Call
  batch_call : BatchCorpus → Call
  dispatch_tick : HcmWrites → ℕ → Call
  sweep_tick : ℕ → Call

module _ (e : Engine) (config : AppConfig) (is_short is_uuid : String → Bool) where
  unfoldable pub serve : Call → Tables → Tables
  serve (submit_call h hcm now body key) t =
      (submit_route e config is_short h.principal h.role hcm now body key [] t).1
  serve (approve_call h hcm now id) t =
      (post_approve e config h.principal h.role hcm now is_uuid id [] t).1
  serve (reject_call h hcm now id) t =
      (post_reject e config h.principal h.role hcm now is_uuid id [] t).1
  serve (cancel_call h hcm now id) t =
      (post_cancel e config h.principal h.role hcm now is_uuid id [] t).1
  serve (balance_call h reply employee location) t =
      (get_balances e config h.principal h.role reply employee location [] t).1
  serve (review_call h employee location) t =
      (patch_resolve_review e config h.principal h.role employee location [] t).1
  serve (batch_call corpus) t = (post_batch e corpus [] t).1
  serve (dispatch_tick hcm now) t = (dispatch_pending e config hcm now [] t).1
  serve (sweep_tick now) t = (sweep e now [] t).1

  abbrev pub serve_all : List Call → Tables → Tables
  serve_all [] t = t
  serve_all (c ∷ cs) t = serve_all cs (serve c t)

-- Answers for a route that asks HCM nothing.
abbrev replies : HcmReplies
replies = record { prewarm = unavailable; refresh = unavailable; recheck = unavailable }

Guarded-Inv :
    {A : Type 0} (P : Type 0) (out inner : Outcome A × Tables) (t : Tables)
    → Guarded P out inner t
    → Inv t
    → (Inv t → Inv inner.1)
    → Inv out.1
Guarded-Inv P out inner t (inl (x, e)) inv h = subst (λ o. Inv o.1) (sym e) inv
Guarded-Inv P out inner t (inr (p, e)) inv h = subst (λ o. Inv o.1) (sym e) (h inv)

module _ (db : Database) (config : AppConfig) (is_short is_uuid : String → Bool) where
  serve-Inv :
      (c : Call) (t : Tables) → Inv t → Inv (serve (memory_of db) config is_short is_uuid c t)
  unfolding serve post_batch
  serve-Inv (submit_call h hcm now body key) t inv =
      Guarded-Inv _ _ _ t
        (submit_is_own (memory_of db) config is_short h.principal h.role hcm now body key [] t) inv
        (submit-Inv db config hcm now (submit_args body key) [] t)
  serve-Inv (approve_call h hcm now id) t inv =
      Guarded-Inv _ _ _ t
        (managers_only (memory_of db) config h.principal h.role hcm now is_uuid id "" "" [] t).0 inv
        (approve-Inv db config hcm now id [] t)
  serve-Inv (reject_call h hcm now id) t inv =
      Guarded-Inv _ _ _ t
        (managers_only (memory_of db) config h.principal h.role hcm now is_uuid id "" "" [] t).1 inv
        (reject-Inv db config hcm now id [] t)
  serve-Inv (cancel_call h hcm now id) t inv =
      Guarded-Inv _ _ _ t
        (cancel_is_own (memory_of db) config h.principal h.role hcm now is_uuid id [] t) inv
        (cancel-Inv db config hcm now id [] t)
  serve-Inv (balance_call h reply employee location) t inv =
      Guarded-Inv _ _ _ t
        (balance_is_own (memory_of db) config h.principal h.role reply employee location [] t) inv
        (read-Inv db config reply employee location [] t)
  serve-Inv (review_call h employee location) t inv =
      Guarded-Inv _ _ _ t
        (managers_only (memory_of db) config h.principal h.role replies 0 is_uuid "" employee
          location [] t).2
        inv
        (bind-Respects StaysInv stay_Inv trans_Inv (resolve_review (memory_of db) employee location)
          (λ _. pure true) (resolve_review-Inv db employee location)
          (λ _. pure-Respects StaysInv stay_Inv trans_Inv true) [] t)
  serve-Inv (batch_call corpus) t inv =
      bind-Respects StaysInv stay_Inv trans_Inv
        (ingest_batch (memory_of db) (record corpus { balances = map copy_entry corpus.balances }))
        (λ _. pure true)
        (ingest_batch-Inv db (record corpus { balances = map copy_entry corpus.balances }))
        (λ _. pure-Respects StaysInv stay_Inv trans_Inv true) [] t inv
  serve-Inv (dispatch_tick hcm now) t inv = (dispatch_pending-Kept db config hcm now [] t inv).0
  serve-Inv (sweep_tick now) t inv = (sweep-Kept db now [] t inv).0

  serve_all-Inv :
      (cs : List Call) (t : Tables)
      → Inv t
      → Inv (serve_all (memory_of db) config is_short is_uuid cs t)
  serve_all-Inv [] t inv = inv
  serve_all-Inv (c ∷ cs) t inv =
      serve_all-Inv cs (serve (memory_of db) config is_short is_uuid c t) (serve-Inv c t inv)

-- Whatever people, HCM and the timers ask of an empty service, in whatever order, its tables are
-- consistent after each answer.
pub service_stays_consistent :
    (db : Database) (config : AppConfig) (is_short is_uuid : String → Bool) (cs : List Call)
    → Inv (serve_all db.engine config is_short is_uuid cs no_rows_yet)
service_stays_consistent db config is_short is_uuid cs = rw (engine-eq-memory db) (
    serve_all-Inv db config is_short is_uuid cs no_rows_yet
      (in_memory-Inv db config no_rows_yet start))
