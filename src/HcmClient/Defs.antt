-- ===== src/HcmClient/Defs.antt =====
-- The attempts of one call, with the delays between them.
use wizdaa_takehome.Prelude.{
  ℕ, zero, suc, ◌+◌, ◌*◌, ◌^◌, String, Bool, true, false, Option, none, some, List, [], ◌∷◌, ◌++◌,
  leb, if◌then◌else◌,
}
use wizdaa_takehome.Entities.{HcmBalance, TimeOffResult}
use wizdaa_takehome.Config.{AppConfig}
use wizdaa_takehome.Balances.{HcmReply, snapshot, unavailable}

-- What an attempt throws: an `AxiosError` with a response (its status, and its message if that is a
-- text) or with none (its code), or an error of another kind.
pub data HttpError : Type 0 where
  with_response : ℕ → Option String → HttpError
  no_response : Option String → HttpError
  not_axios : HttpError

-- One attempt: the body of a 2xx response, or what was thrown.
pub data Attempt (Body : Type 0) : Type 0 where
  body : Body → Attempt Body
  raised : HttpError → Attempt Body

-- The body of an answer to a filing; `is_ok` is missing if the field is.
pub record PostBody : Type 0 where
  pub is_ok : Option Bool
  pub acked_at : Option ℕ
  pub error_hint : Option String

-- A result, with the requests that were sent and the delays, in milliseconds, in order.
pub record Called (A : Type 0) : Type 0 where
  pub result : A
  pub sent : ℕ
  pub delays : List ℕ

abbrev pub is_retryable : HttpError → Bool
is_retryable (with_response status message) = leb 500 status
is_retryable (no_response code) = true
is_retryable not_axios = true

abbrev pub or_text : Option String → String → String
or_text none other = other
or_text (some s) other = s

-- `http_status` writes the text of a status.
abbrev pub extract_error_hint : (ℕ → String) → HttpError → String
extract_error_hint http_status (with_response status message) = or_text message (http_status status)
extract_error_hint http_status (no_response code) = or_text code "network_error"
extract_error_hint http_status not_axios = "unknown_error"

-- `hcmRetryBackoffMs * Math.pow(2, attempt - 1)`, before every attempt but the first.
unfoldable pub backoff_delay : AppConfig → ℕ → List ℕ
backoff_delay config zero = []
backoff_delay config (suc n) = config.hcm_retry_backoff_ms * 2 ^ n ∷ []

abbrev pub refusal : String → TimeOffResult
refusal hint = record { is_ok = false; acked_at = none; error_hint = some hint }

abbrev pub time_or : Option ℕ → ℕ → ℕ
time_or none now = now
time_or (some time) now = time

-- The result of a 2xx response.
abbrev pub result_of : ℕ → PostBody → TimeOffResult
result_of now b = elim b.is_ok [
  | some false ↦ refusal (or_text b.error_hint "hcm-rejected")
  | _ ↦ record { is_ok = true; acked_at = some (time_or b.acked_at now); error_hint = none }
]

-- A call that sent one request more, after a delay.
abbrev pub after : {A : Type 0} → List ℕ → Called A → Called A
after delay c = record { result = c.result; sent = c.sent + 1; delays = delay ++ c.delays }

abbrev pub done : {A : Type 0} → List ℕ → A → Called A
done delay a = record { result = a; sent = 1; delays = delay }

module _ (config : AppConfig) (http_status : ℕ → String) where
  -- What follows an attempt to post: the result, or the attempts that are left.
  abbrev pub on_post :
      ℕ → ℕ → Attempt PostBody → (String → Called TimeOffResult) → Called TimeOffResult
  on_post now attempt (body b) rest = done (backoff_delay config attempt) (result_of now b)
  on_post now attempt (raised e) rest =
      if is_retryable e
      then after (backoff_delay config attempt) (rest (extract_error_hint http_status e))
      else done (backoff_delay config attempt) (refusal (extract_error_hint http_status e))

  -- The loop, on the attempts that are left, the number of the attempt, and the last hint.
  unfoldable pub post_attempts : (ℕ → Attempt PostBody) → ℕ → ℕ → ℕ → String → Called TimeOffResult
  post_attempts post now zero attempt hint = record { result = refusal hint; sent = 0; delays = [] }
  post_attempts post now (suc left) attempt hint =
      on_post now attempt (post attempt) (post_attempts post now left (attempt + 1))

  unfoldable pub post_with_retry : (ℕ → Attempt PostBody) → ℕ → Called TimeOffResult
  post_with_retry post now = post_attempts post now config.hcm_retry_max_attempts 0 "unreachable"

module _ (config : AppConfig) where
  -- The same for a read; every failure is the error that says that HCM is unavailable.
  abbrev pub on_get : ℕ → Attempt HcmBalance → Called HcmReply → Called HcmReply
  on_get attempt (body h) rest = done (backoff_delay config attempt) (snapshot h)
  on_get attempt (raised e) rest =
      if is_retryable e
      then after (backoff_delay config attempt) rest
      else done (backoff_delay config attempt) unavailable

  unfoldable pub get_attempts : (ℕ → Attempt HcmBalance) → ℕ → ℕ → Called HcmReply
  get_attempts get zero attempt = record { result = unavailable; sent = 0; delays = [] }
  get_attempts get (suc left) attempt =
      on_get attempt (get attempt) (get_attempts get left (attempt + 1))

  abbrev pub fast_reply : Attempt HcmBalance → HcmReply
  fast_reply (body h) = snapshot h
  fast_reply (raised e) = unavailable

  -- With `retry: false` there is one attempt.
  unfoldable pub get_hcm_balance : Bool → (ℕ → Attempt HcmBalance) → Called HcmReply
  get_hcm_balance true get = get_attempts get config.hcm_retry_max_attempts 0
  get_hcm_balance false get = done [] (fast_reply (get 0))
