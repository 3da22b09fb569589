-- ===== src/Guarantees/Outcomes.antt =====
-- How a dispatch under the lock ends for the request.
use wizdaa_takehome.Prelude.{ℕ, String, Bool, true, false, Option, none, some, List, ◌≡◌, first}
use wizdaa_takehome.Prelude.Int.{pos, ◌+ℤ◌}
use wizdaa_takehome.Entities.{
  Balance, TimeOffRequest, Outbox, RequestStatus, request_id_is, outbox_id_is, is_file, is_waiting,
}
use wizdaa_takehome.Config.{AppConfig}
use wizdaa_takehome.Database.{Tables, Database}
use wizdaa_takehome.Dispatcher.{HcmWrites}
use wizdaa_takehome.Ledger.Rows.{balance_of}

-- The request and the balance that a FILE row leaves, by the acknowledgement and the attempts left.
abbrev pub filed_request : Option ℕ → Bool → TimeOffRequest → TimeOffRequest
filed_request (some time) again r = record r {
  status = RequestStatus.approved;
  hcm_ack_at = some time;
}
filed_request none true r = r
filed_request none false r = record r { status = RequestStatus.rejected }

abbrev pub filed_balance : Option ℕ → Bool → ℕ → Balance → Balance
filed_balance none false days b = record b { available = b.available +ℤ pos days }
filed_balance _ _ days b = b

module _ (db : Database) (config : AppConfig) (hcm : HcmWrites) (now : ℕ) (locks : List String)
    (t : Tables) (o : Outbox) (r : TimeOffRequest)
    (row : first (outbox_id_is o.id) t.outbox ≡ some o)
    (found : first (request_id_is o.aggregate_id) t.requests ≡ some r)
    (wait : is_waiting o.status ≡ true) (file : is_file o.operation ≡ true) where
  abbrev After : Option ℕ → Bool → Tables → Type 0
  After ack again t' =
      (first (request_id_is r.id) t'.requests ≡ some (filed_request ack again r))
      × (balance_of r.employee_id r.location_id t'
          ≡ filed_balance ack again r.days (balance_of r.employee_id r.location_id t))
