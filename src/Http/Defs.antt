-- ===== src/Http/Defs.antt =====
-- The routes. A header is `none` if the request has it not; `is_uuid` is the test of
-- `ParseUUIDPipe`, which runs before the handler.
use wizdaa_takehome.Prelude.{
  ℕ, String, Bool, true, false, not, Option, none, some, map, ◌&&◌, ◌||◌, same, codes, total, ltb,
  if◌then◌else◌,
}
use wizdaa_takehome.Entities.{TimeOffRequest, HcmBalance, BatchCorpus}
use wizdaa_takehome.Config.{AppConfig}
use wizdaa_takehome.Database.{
  Engine, Action, not_found, bad_request, forbidden, pure, throw_if, or_throw, ◌>>=◌, ◌>>◌,
}
use wizdaa_takehome.Balances.{HcmReply, BalanceView, get_balance, resolve_review}
use wizdaa_takehome.Requests.{HcmReplies, SubmitArgs, submit, approve, reject, cancel, find_by_id}
use wizdaa_takehome.Reconciliation.{ingest_batch}

-- `!header`.
abbrev pub is_missing : Option String → Bool
is_missing none = true
is_missing (some s) = same s ""

-- `header === text`.
abbrev pub header_is : Option String → String → Bool
header_is none text = false
header_is (some s) text = same s text

abbrev pub text_of : Option String → String
text_of none = ""
text_of (some s) = s

-- `text.length`: a character beyond the basic plane is two units.
unfoldable pub utf16_length : String → ℕ
utf16_length s = total (λ c. if ltb 65535 c then 2 else 1) (codes s)

-- What the handlers of people's requests check first.
unfoldable pub require_principal : Option String → Option String → Action (Unit {0})
require_principal principal role = do
  throw_if (is_missing principal) bad_request
  throw_if (not (header_is role "employee") && not (header_is role "manager")) bad_request

unfoldable pub require_manager : Option String → Option String → Action (Unit {0})
require_manager principal role = do
  require_principal principal role
  throw_if (not (header_is role "manager")) forbidden

-- `ParseUUIDPipe`.
abbrev pub require_uuid : (String → Bool) → String → Action (Unit {0})
require_uuid is_uuid id = throw_if (not (is_uuid id)) bad_request

-- The body of a submission; the key comes with the headers.
pub record SubmitBody : Type 0 where
  pub employee_id : String
  pub location_id : String
  pub start_date : String
  pub end_date : String

abbrev pub submit_args : SubmitBody → Option String → SubmitArgs
submit_args body key = record {
  employee_id = body.employee_id;
  location_id = body.location_id;
  start_date = body.start_date;
  end_date = body.end_date;
  idempotency_key = text_of key;
}

-- The entries are copied field by field.
abbrev pub copy_entry : HcmBalance → HcmBalance
copy_entry b = record {
  employee_id = b.employee_id;
  location_id = b.location_id;
  balance = b.balance;
  as_of = b.as_of;
}

module _ (e : Engine) (config : AppConfig) (principal role : Option String) where
  module _ (hcm : HcmReplies) (now : ℕ) where
    unfoldable pub post_submit : SubmitBody → Option String → Action TimeOffRequest
    post_submit body key = do
      require_principal principal role
      throw_if (is_missing key || ltb 200 (utf16_length (text_of key))) bad_request
      throw_if (not (header_is principal body.employee_id)) forbidden
      submit e config hcm now (submit_args body key)

    unfoldable pub post_approve : (String → Bool) → String → Action TimeOffRequest
    post_approve is_uuid id =
        require_uuid is_uuid id >> (require_manager principal role >> approve e config hcm now id)

    unfoldable pub post_reject : (String → Bool) → String → Action TimeOffRequest
    post_reject is_uuid id =
        require_uuid is_uuid id >> (require_manager principal role >> reject e config hcm now id)

    -- An employee's request is looked up, and is to be the employee's own.
    unfoldable pub require_own : String → Action (Unit {0})
    require_own id = do
      existing ← or_throw (← find_by_id e config hcm now id) not_found
      throw_if (not (header_is principal existing.employee_id)) forbidden

    unfoldable pub post_cancel : (String → Bool) → String → Action TimeOffRequest
    post_cancel is_uuid id = do
      require_uuid is_uuid id
      require_principal principal role
      if header_is role "manager" then pure tt else require_own id
      cancel e config hcm now id

  unfoldable pub get_balances : HcmReply → String → String → Action (Option BalanceView)
  get_balances reply employee location = do
    require_principal principal role
    throw_if (not (header_is role "manager") && not (header_is principal employee)) forbidden
    get_balance e config reply employee location

  unfoldable pub patch_resolve_review : String → String → Action Bool
  patch_resolve_review employee location = do
    require_manager principal role
    resolve_review e employee location
    pure true

module _ (e : Engine) where
  unfoldable pub post_batch : BatchCorpus → Action Bool
  post_batch corpus = do
    ingest_batch e (record corpus { balances = map copy_entry corpus.balances })
    pure true
