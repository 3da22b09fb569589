-- ===== src/Ledger/Reached.antt =====
-- The tables that the service can come to. The promise chain of `BalanceLockService` runs one
-- section of a key after another, so a run is a list of sections; the sections of different methods
-- follow each other in any order, and each has the answers of HCM and the time of its own.
use wizdaa_takehome.Prelude.{ℕ, String, List, [], refl, arith}
use wizdaa_takehome.Entities.{HcmBalance, BatchCorpus}
use wizdaa_takehome.Config.{AppConfig}
use wizdaa_takehome.Database.{Tables, Engine, Database, memory_of}
use wizdaa_takehome.Balances.{HcmReply, get_balance, resolve_review}
use wizdaa_takehome.Requests.{
  HcmReplies, SubmitArgs, submit_locked, approve_locked, reject_locked, cancel_locked, expire,
}
use wizdaa_takehome.Dispatcher.{HcmWrites, dispatch_locked}
use wizdaa_takehome.Reconciliation.{sequence_guard, reconcile_entry, record_batch}
use wizdaa_takehome.Ledger.Moves.{Inv}
use wizdaa_takehome.Ledger.Reject.{reject_locked-Kept, expire-Kept}
use wizdaa_takehome.Ledger.Cancel.{cancel_locked-Kept}
use wizdaa_takehome.Ledger.Approve.{approve_locked-Inv}
use wizdaa_takehome.Ledger.Submit.{submit_locked-Inv}
use wizdaa_takehome.Ledger.Dispatch.{dispatch_locked-Kept}
use wizdaa_takehome.Ledger.Reconcile.{
  resolve_review-Inv, sequence_guard-Inv, reconcile_entry-Inv, record_batch-Inv,
}
use wizdaa_takehome.Ledger.Methods.{read-Inv}

-- One stretch of a method that nothing else of its key comes between.
pub data Section : Type 0 where
  reading : HcmReply → String → String → Section
  submitting : HcmReplies → ℕ → SubmitArgs → Section
  approving rejecting cancelling : HcmReplies → ℕ → String → Section
  expiring : String → Section
  dispatching : HcmWrites → ℕ → String → Section
  resolving : String → String → Section
  guarding recording : BatchCorpus → Section
  reconciling : ℕ → HcmBalance → Section

abbrev pub no_rows_yet : Tables
no_rows_yet = record { balances = []; requests = []; outbox = []; events = []; batch_logs = [] }

module _ (e : Engine) (config : AppConfig) where
  unfoldable pub perform : Section → List String → Tables → Tables
  perform (reading reply employee location) locks t =
      (get_balance e config reply employee location locks t).1
  perform (submitting hcm now args) locks t = (submit_locked e config hcm now args locks t).1
  perform (approving hcm now id) locks t = (approve_locked e config hcm now id locks t).1
  perform (rejecting hcm now id) locks t = (reject_locked e config hcm now id locks t).1
  perform (cancelling hcm now id) locks t = (cancel_locked e config hcm now id locks t).1
  perform (expiring id) locks t = (expire e id locks t).1
  perform (dispatching hcm now id) locks t = (dispatch_locked e config hcm now id locks t).1
  perform (resolving employee location) locks t = (resolve_review e employee location locks t).1
  perform (guarding corpus) locks t = (sequence_guard e corpus locks t).1
  perform (recording corpus) locks t = (record_batch e corpus locks t).1
  perform (reconciling as_of entry) locks t = (reconcile_entry e as_of entry locks t).1

  pub data Reached : Tables → Type 0 where
    start : Reached no_rows_yet
    next :
        (s : Section) (locks : List String) (t : Tables) → Reached t → Reached (perform s locks t)

module _ (db : Database) (config : AppConfig) where
  pub perform-Inv :
      (s : Section) (locks : List String) (t : Tables)
      → Inv t
      → Inv (perform (memory_of db) config s locks t)
  unfolding perform
  perform-Inv (reading reply employee location) locks t =
      read-Inv db config reply employee location locks t
  perform-Inv (submitting hcm now args) locks t = submit_locked-Inv db config hcm now args locks t
  perform-Inv (approving hcm now id) locks t = approve_locked-Inv db config hcm now id locks t
  perform-Inv (rejecting hcm now id) locks t =
      λ inv. (reject_locked-Kept db config hcm now id locks t inv).0
  perform-Inv (cancelling hcm now id) locks t =
      λ inv. (cancel_locked-Kept db config hcm now id locks t inv).0
  perform-Inv (expiring id) locks t = λ inv. (expire-Kept db id locks t inv).0
  perform-Inv (dispatching hcm now id) locks t =
      λ inv. (dispatch_locked-Kept db config hcm now id locks t inv).0
  perform-Inv (resolving employee location) locks t =
      resolve_review-Inv db employee location locks t
  perform-Inv (guarding corpus) locks t = sequence_guard-Inv db corpus locks t
  perform-Inv (recording corpus) locks t = record_batch-Inv db corpus locks t
  perform-Inv (reconciling as_of entry) locks t = reconcile_entry-Inv db as_of entry locks t

  pub in_memory-Inv : (t : Tables) → Reached (memory_of db) config t → Inv t
  in_memory-Inv t start = record {
    reserved = λ employee location. refl;
    filed = λ id. refl;
    single = λ id. omega arith;
    apart = tt;
  }
  in_memory-Inv t (next s locks u reached) = perform-Inv s locks u (in_memory-Inv u reached)
