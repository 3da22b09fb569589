-- ===== src/Dispatcher/Defs.antt =====
-- One dispatch of an outbox row, and the tick that goes through the rows that wait.
use wizdaa_takehome.Prelude.{ℕ, ◌+◌, String, Option, none, some, List, [], ◌∷◌, ltb, if◌then◌else◌}
use wizdaa_takehome.Entities.{
  TimeOffRequest, Outbox, RequestStatus, OutboxOperation, OutboxStatus, FileTimeOffCommand,
  ReverseTimeOffCommand, TimeOffResult, outbox_id_is, is_file, is_waiting,
}
use wizdaa_takehome.Config.{AppConfig}
use wizdaa_takehome.Database.{Tables, Engine, Action, pure, gets, modify, on_option, ◌>>=◌, ◌>>◌}
use wizdaa_takehome.Balances.{balance_key, run_exclusive, restore}
use wizdaa_takehome.Requests.{set_status, find_request, save_request_row, save_new_row}

-- What a call of HCM comes to.
pub data Sent : Type 0 where
  answered : TimeOffResult → Sent
  threw : Sent

-- `HcmClient.fileTimeOff` and `reverseTimeOff`; the first argument is the number of the attempt, as
-- HCM may answer each attempt in another way.
pub record HcmWrites : Type 0 where
  pub file_time_off : ℕ → FileTimeOffCommand → Sent
  pub reverse_time_off : ℕ → ReverseTimeOffCommand → Sent

-- The time of the acknowledgement, if HCM accepted.
abbrev pub acked_at : ℕ → Sent → Option ℕ
acked_at now threw = none
acked_at now (answered r) =
    if r.is_ok then elim r.acked_at [ none ↦ some now | some time ↦ some time ] else none

abbrev pub call_hcm : HcmWrites → Outbox → Sent
call_hcm hcm o =
    if is_file o.operation
    then hcm.file_time_off o.attempts o.payload
    else hcm.reverse_time_off o.attempts o.payload

abbrev pub set_outbox_status : OutboxStatus → Outbox → Outbox
set_outbox_status status o = record o { status = status }

abbrev pub count_attempt : Outbox → Outbox
count_attempt o = record o { attempts = o.attempts + 1 }

-- The request after HCM took the row.
abbrev pub set_acked : ℕ → Outbox → TimeOffRequest → TimeOffRequest
set_acked time o r = record r {
  hcm_ack_at = some time;
  status = if is_file o.operation then RequestStatus.approved else r.status;
}

abbrev pub for_each {ℓ} : {A : Type ℓ} → (A → Action (Unit {0})) → List A → Action (Unit {0})
for_each f [] = pure tt
for_each f (x ∷ xs) = f x >> for_each f xs

module _ (e : Engine) where
  abbrev pub find_outbox : String → Tables → Option Outbox
  find_outbox id t = e.find_one Outbox (outbox_id_is id) t.outbox

  abbrev pub save_outbox_row : Outbox → Action (Unit {0})
  save_outbox_row o = modify λ t. record t { outbox = e.save_outbox o t.outbox }

  -- Transaction 1: the row read again, and the attempt counted. `none` is "do not proceed".
  unfoldable pub take_row : Outbox → Action (Option (Outbox × TimeOffRequest))
  take_row o = do
    request ← gets (find_request e o.aggregate_id)
    on_option request (do save_outbox_row (set_outbox_status OutboxStatus.failed o); pure none)
        (λ r. do save_outbox_row (count_attempt o); pure (some (count_attempt o, r)))

  unfoldable pub take_tx : String → Action (Option (Outbox × TimeOffRequest))
  take_tx id = do
    row ← gets (find_outbox id)
    on_option row (pure none) (λ o. if is_waiting o.status then take_row o else pure none)

  unfoldable pub success_tx : ℕ → Outbox → TimeOffRequest → Action (Unit {0})
  success_tx time o r = do
    save_outbox_row (set_outbox_status OutboxStatus.sent o)
    save_request_row e (set_acked time o r)

  -- The cap on a FILE: the days go back, the request is rejected, and a REVERSE is enqueued.
  unfoldable pub compensate_tx : Outbox → TimeOffRequest → Action (Unit {0})
  compensate_tx o r = do
    restore e r.employee_id r.location_id r.days
    save_outbox_row (set_outbox_status OutboxStatus.failed o)
    save_request_row e (set_status RequestStatus.rejected r)
    save_new_row e r OutboxOperation.reverse

  unfoldable pub failure_tx : AppConfig → Outbox → TimeOffRequest → Action (Unit {0})
  failure_tx config o r =
      if ltb o.attempts config.hcm_retry_max_attempts
      then save_outbox_row o
      else if is_file o.operation
      then compensate_tx o r
      else save_outbox_row (set_outbox_status OutboxStatus.failed o)

  -- Transaction 2.
  unfoldable pub reflect_tx : AppConfig → Option ℕ → Outbox → TimeOffRequest → Action (Unit {0})
  reflect_tx config (some time) o r = success_tx time o r
  reflect_tx config none o r = failure_tx config o r

  module _ (config : AppConfig) (hcm : HcmWrites) (now : ℕ) where
    unfoldable pub dispatch_locked : String → Action (Unit {0})
    dispatch_locked id = do
      taken ← e.transaction (Option (Outbox × TimeOffRequest)) (take_tx id)
      on_option taken (pure tt)
          λ (o, r). e.transaction (Unit {0}) (reflect_tx config (acked_at now (call_hcm hcm o)) o r)

    unfoldable pub dispatch_one : String → Action (Unit {0})
    dispatch_one id = do
      row ← gets (find_outbox id)
      on_option row (pure tt) λ o.
          if is_waiting o.status
          then (do
            request ← gets (find_request e o.aggregate_id)
            on_option request (pure tt)
                λ r. run_exclusive (balance_key r.employee_id r.location_id) (dispatch_locked id))
          else pure tt

    unfoldable pub dispatch_pending : Action (Unit {0})
    dispatch_pending = do
      rows ← gets λ t. e.oldest_first (e.find Outbox (λ o. is_waiting o.status) t.outbox)
      for_each (λ (o : Outbox). dispatch_one o.id) rows
