-- ===== src/Guarantees/Attempts.antt =====
-- The retries of the client of HCM.
use wizdaa_takehome.Prelude.{
  ℕ, zero, suc, ◌+◌, ◌≤◌, String, Bool, true, false, ◌≡◌, refl, inl, inr, ◌⊎◌, Bool-cases, arith,
  if◌then◌else◌,
}
use wizdaa_takehome.Entities.{HcmBalance}
use wizdaa_takehome.Balances.{HcmReply, snapshot, unavailable}
use wizdaa_takehome.Config.{AppConfig}
use wizdaa_takehome.HcmClient.{
  HttpError, Attempt, body, raised, PostBody, Called, is_retryable, result_of, extract_error_hint,
  post_attempts, post_with_retry, get_attempts, get_hcm_balance,
}

Attempt-cases :
    {A : Type 0} (x : Attempt A) → ((b : A) × (x ≡ body b)) ⊎ ((e : HttpError) × (x ≡ raised e))
Attempt-cases (body b) = inl (b, refl)
Attempt-cases (raised e) = inr (e, refl)

module _ (config : AppConfig) (http_status : ℕ → String) (post : ℕ → Attempt PostBody)
    (now : ℕ) where
  sent-le :
      (left attempt : ℕ) (hint : String)
      → (post_attempts config http_status post now left attempt hint).sent ≤ left
  unfolding post_attempts
  sent-le zero attempt hint = omega arith
  sent-le (suc left) attempt hint = elim (Attempt-cases (post attempt)) [
    | inl (b, x) ↦ rw x (omega arith)
    | inr (e, x) ↦ elim (Bool-cases (is_retryable e)) [
      | inl again ↦
          rw (x, again)
            (omega (arith, sent-le left (attempt + 1) (extract_error_hint http_status e)))
      | inr stop ↦ rw (x, stop) (omega arith)
    ]
  ]

  -- An accepted filing was accepted by the last request that was sent.
  accepted :
      (left attempt : ℕ) (hint : String)
      → (post_attempts config http_status post now left attempt hint).result.is_ok ≡ true
      → (k : ℕ) × (b : PostBody) × (post k ≡ body b)
        × (k + 1 ≡ attempt + (post_attempts config http_status post now left attempt hint).sent)
        × (result_of now b ≡ (post_attempts config http_status post now left attempt hint).result)
  unfolding post_attempts
  accepted zero attempt hint h = absurd (cc h)
  accepted (suc left) attempt hint h = elim (Attempt-cases (post attempt)) [
    | inl (b, x) ↦ (attempt, b, x, rw x refl, rw x refl)
    | inr (e, x) ↦ elim (Bool-cases (is_retryable e)) [
      | inl again ↦
          let (k, b, p, n, q) =
            accepted left (attempt + 1) (extract_error_hint http_status e)
              (rw (x, again, post_attempts) at h) in
          (k, b, p, rw (x, again) (omega (arith, n)), rw (x, again) q)
      | inr stop ↦ absurd (cc (rw (x, stop, post_attempts) at h))
    ]
  ]

-- A filing or a reversal sends no more requests than the cap of attempts; if its result is `ok`, then
-- the last request that was sent was answered, and the result is that of the answer.
pub filing_is_bounded :
    (config : AppConfig) (http_status : ℕ → String) (post : ℕ → Attempt PostBody) (now : ℕ)
    → let c = post_with_retry config http_status post now in
      (c.sent ≤ config.hcm_retry_max_attempts)
      × ((c.result.is_ok ≡ false)
          ⊎ ((k : ℕ) × (b : PostBody) × (post k ≡ body b)
              × (k + 1 ≡ c.sent)
              × (result_of now b ≡ c.result)))
unfolding post_with_retry
filing_is_bounded config http_status post now = (
  sent-le config http_status post now config.hcm_retry_max_attempts 0 "unreachable",
  elim (Bool-cases (post_with_retry config http_status post now).result.is_ok) [
    | inr refused ↦ inl refused
    | inl taken ↦
        let (k, b, p, n, q) =
          accepted config http_status post now config.hcm_retry_max_attempts 0 "unreachable"
            taken in
        inr (k, b, p, omega (arith, n), q)
  ],
)

module _ (config : AppConfig) (get : ℕ → Attempt HcmBalance) where
  -- Where the answer to a read comes from: HCM's last answer, or nowhere.
  abbrev pub Answered : ℕ → Called HcmReply → Type 0
  Answered first c =
      (c.result ≡ unavailable)
      ⊎ ((k : ℕ) × (h : HcmBalance) × (get k ≡ body h)
          × (k + 1 ≡ first + c.sent)
          × (c.result ≡ snapshot h))

  read-Answered :
      (left attempt : ℕ)
      → ((get_attempts config get left attempt).sent ≤ left)
        × Answered attempt (get_attempts config get left attempt)
  unfolding get_attempts
  read-Answered zero attempt = (omega arith, inl refl)
  read-Answered (suc left) attempt = elim (Attempt-cases (get attempt)) [
    | inl (h, x) ↦ rw x (omega arith, inr (attempt, h, x, refl, refl))
    | inr (e, x) ↦ elim (Bool-cases (is_retryable e)) [
      | inr stop ↦ rw (x, stop) (omega arith, inl refl)
      | inl again ↦
          let (few, from) = read-Answered left (attempt + 1) in
          rw (x, again)
            (
              omega (arith, few),
              elim from [
                | inl down ↦ inl down
                | inr (k, h, p, n, q) ↦ inr (k, h, p, omega (arith, n), q)
              ],
            )
    ]
  ]

-- A read sends no more requests than the cap of attempts, and one if it is not to be tried again; it
-- gives the answer to the last request that it sent, or says that HCM is unavailable.
pub read_is_bounded :
    (config : AppConfig) (get : ℕ → Attempt HcmBalance) (again : Bool)
    → let c = get_hcm_balance config again get in
      (c.sent ≤ (if again then config.hcm_retry_max_attempts else 1)) × Answered config get 0 c
unfolding get_hcm_balance
read_is_bounded config get true = read-Answered config get config.hcm_retry_max_attempts 0
read_is_bounded config get false = elim (Attempt-cases (get 0)) [
  | inl (h, x) ↦ (omega arith, inr (0, h, x, refl, rw x refl))
  | inr (e, x) ↦ (omega arith, inl (rw x refl))
]
