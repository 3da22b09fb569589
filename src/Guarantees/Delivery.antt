-- ===== src/Guarantees/Delivery.antt =====
-- The client of HCM, a network that loses requests and answers, and the mock of HCM.
use wizdaa_takehome.Prelude.{
  ℕ, zero, suc, String, Bool, true, false, Option, none, some, ◌≡◌, refl, sym, ap, ◌∙◌, subst, ◌⊎◌,
  inl, inr, same, Bool-cases, arith,
}
use wizdaa_takehome.Entities.{FileTimeOffCommand, TimeOffResult}
use wizdaa_takehome.Config.{AppConfig}
use wizdaa_takehome.HcmClient.{
  with_response, no_response, Attempt, body, raised, PostBody, result_of, post_with_retry,
}
use wizdaa_takehome.MockHcm.{
  MockResult, AckText, blank, time_text, MockStore, Answer, gives, status, mock_file_time_off,
}
use wizdaa_takehome.Guarantees.Attempts.{filing_is_bounded}
use wizdaa_takehome.Guarantees.Keys.{Answers, next_filing}

-- What becomes of one request, and of its answer.
pub data Network : Type 0 where
  request_lost answer_lost passed : Network

-- A time that is the empty text is none to the client; it reads it of an accepted filing only.
abbrev pub read_time : Option AckText → Option ℕ
read_time none = none
read_time (some blank) = none
read_time (some (time_text time)) = some time

abbrev pub wire_body : MockResult → PostBody
wire_body r = record {
  is_ok = some r.is_ok;
  acked_at = read_time r.acked_at;
  error_hint = r.error_hint;
}

-- The answer as axios hands it on; `message` is the text that Nest writes for a status.
abbrev pub wire_answer : (ℕ → Option String) → Answer MockResult → Attempt PostBody
wire_answer message (gives r) = body (wire_body r)
wire_answer message (status n) = raised (with_response n (message n))

abbrev pub seen_answer : (ℕ → Option String) → Network → Answer MockResult → Attempt PostBody
seen_answer message request_lost a = raised (no_response none)
seen_answer message answer_lost a = raised (no_response none)
seen_answer message passed a = wire_answer message a

-- The store after one attempt.
abbrev pub store_after : Network → MockStore → MockStore → MockStore
store_after request_lost before after = before
store_after answer_lost before after = after
store_after passed before after = after

module _ (message : ℕ → Option String) (net : ℕ → Network) (time : ℕ → ℕ) (cmd : FileTimeOffCommand)
    (s : MockStore) where
  -- The filing, under the key of its command, that arrives at a time.
  abbrev pub arrives : ℕ → MockStore → Answer MockResult × MockStore
  arrives k = mock_file_time_off cmd.idempotency_key cmd (time k)

  -- The store after so many attempts, and what the client sees of each.
  unfoldable pub store_at : ℕ → MockStore
  store_at zero = s
  store_at (suc k) = store_after (net k) (store_at k) (arrives k (store_at k)).1

  unfoldable pub seen_at : ℕ → Attempt PostBody
  seen_at k = seen_answer message (net k) (arrives k (store_at k)).0

  -- The store is as it was, or as after one filing.
  abbrev pub FiledOnce : MockStore → Type 0
  FiledOnce u = (u ≡ s) ⊎ ((k : ℕ) × (u ≡ (arrives k s).1))

  -- The filing that a call of the client rests on.
  abbrev pub FiledAs : Bool → MockStore → Type 0
  FiledAs x u =
      (j : ℕ) × (r : MockResult) × (u ≡ (arrives j s).1)
      × ((arrives j s).0 ≡ gives r)
      × (r.is_ok ≡ x)

  module _ (named : same cmd.idempotency_key "" ≡ false) (answers : Answers s) where
    again :
        (j k : ℕ)
        → (r : MockResult) × (r' : MockResult) × ((arrives j s).0 ≡ gives r)
          × (arrives k (arrives j s).1 ≡ (gives r', (arrives j s).1))
          × (r'.is_ok ≡ r.is_ok)
          × ((r.is_ok ≡ false) ⊎ (r'.acked_at ≡ r.acked_at))
    again j k = next_filing cmd.idempotency_key cmd (time j) (time k) s named answers

    arrives-FiledOnce : (k : ℕ) (u : MockStore) → FiledOnce u → FiledOnce (arrives k u).1
    arrives-FiledOnce k u (inl e) = inr (k, ap (λ x. (arrives k x).1) e)
    arrives-FiledOnce k u (inr (j, e)) =
        let (r, r', gave, replay, ok_eq, time_eq) = again j k in
        inr (j, ap (λ x. (arrives k x).1) e ∙ ap (λ p. p.1) replay)

    step-FiledOnce :
        (n : Network) (k : ℕ) (u : MockStore)
        → FiledOnce u
        → FiledOnce (store_after n u (arrives k u).1)
    step-FiledOnce request_lost k u h = h
    step-FiledOnce answer_lost k u h = arrives-FiledOnce k u h
    step-FiledOnce passed k u h = arrives-FiledOnce k u h

    store_at-FiledOnce : (n : ℕ) → FiledOnce (store_at n)
    unfolding store_at
    store_at-FiledOnce zero = inl refl
    store_at-FiledOnce (suc k) = step-FiledOnce (net k) k (store_at k) (store_at-FiledOnce k)

    ok_of_body :
        (x : Bool) (now : ℕ) (acked : Option ℕ) (hint : Option String)
        → (result_of now (record { is_ok = some x; acked_at = acked; error_hint = hint })).is_ok ≡ x
    ok_of_body true now acked hint = refl
    ok_of_body false now acked hint = refl

    -- What an answer that the client sees was given for.
    abbrev body_or : PostBody → Attempt PostBody → PostBody
    body_or other (body b) = b
    body_or other (raised x) = other

    seen_body :
        (n : Network) (a : Answer MockResult) (b : PostBody)
        → seen_answer message n a ≡ body b
        → (n ≡ passed) × (r : MockResult) × (a ≡ gives r) × (b ≡ wire_body r)
    seen_body request_lost a b h = absurd (cc h)
    seen_body answer_lost a b h = absurd (cc h)
    seen_body passed (gives r) b h = (refl, r, refl, sym (ap (body_or (wire_body r)) h))
    seen_body passed (status n) b h = absurd (cc h)

    abbrev ok_or : MockResult → Answer MockResult → Bool
    ok_or other (gives r) = r.is_ok
    ok_or other (status n) = other.is_ok

    answered-FiledAs :
        (k : ℕ) (u : MockStore) (r : MockResult)
        → FiledOnce u
        → (arrives k u).0 ≡ gives r
        → FiledAs r.is_ok (arrives k u).1
    answered-FiledAs k u r (inl e) gave =
        (k, r, ap (λ x. (arrives k x).1) e, ap (λ x. (arrives k x).0) (sym e) ∙ gave, refl)
    answered-FiledAs k u r (inr (j, e)) gave =
        let (r0, r', gave0, replay, ok_eq, time_eq) = again j k in
        let same_answer : gives r ≡ gives r' =
          sym gave ∙ ap (λ x. (arrives k x).0) e ∙ ap (λ p. p.0) replay in
        (
          j,
          r0,
          ap (λ x. (arrives k x).1) e ∙ ap (λ p. p.1) replay,
          gave0,
          sym ok_eq ∙ ap (ok_or r') (sym same_answer),
        )

    seen-FiledAs :
        (k now : ℕ) (b : PostBody)
        → seen_at k ≡ body b
        → FiledAs (result_of now b).is_ok (store_at (suc k))
    unfolding seen_at store_at
    seen-FiledAs k now b h =
        let (through, r, gave, wire) = seen_body (net k) (arrives k (store_at k)).0 b h in
        let ok_eq : r.is_ok ≡ (result_of now b).is_ok =
          sym (ok_of_body r.is_ok now (read_time r.acked_at) r.error_hint)
          ∙ ap (λ x. (result_of now x).is_ok) (sym wire) in
        rw through (
          subst (λ x. FiledAs x (arrives k (store_at k)).1) ok_eq
            (answered-FiledAs k (store_at k) r (store_at-FiledOnce k) gave))

-- The client sends a filing under a key, again and again up to its cap, over a network that loses
-- requests and answers as it likes, to an HCM that answers and keeps to the keys. Then HCM's store is
-- as it was, or as one filing leaves it, however many arrived; and if the client's result is `ok`, it
-- is as one filing leaves it that HCM accepted.
pub retries_file_once :
    (config : AppConfig) (http_status : ℕ → String) (message : ℕ → Option String)
    (net : ℕ → Network) (time : ℕ → ℕ) (cmd : FileTimeOffCommand) (s : MockStore) (now : ℕ)
    → same cmd.idempotency_key "" ≡ false
    → Answers s
    → let c = post_with_retry config http_status (seen_at message net time cmd s) now in
      let after = store_at message net time cmd s c.sent in
      FiledOnce message net time cmd s after
      × ((c.result.is_ok ≡ false) ⊎ FiledAs message net time cmd s true after)
retries_file_once config http_status message net time cmd s now named answers =
    let c = post_with_retry config http_status (seen_at message net time cmd s) now in
    (
      store_at-FiledOnce message net time cmd s named answers c.sent,
      elim (Bool-cases c.result.is_ok) [
        | inr refused ↦ inl refused
        | inl taken ↦
            elim (filing_is_bounded config http_status (seen_at message net time cmd s) now).1 [
              | inl refused ↦ inl refused
              | inr (k, b, seen, last, result_eq) ↦ inr (
                  subst
                    (λ x. FiledAs message net time cmd s x (store_at message net time cmd s c.sent))
                    (ap (λ (x : TimeOffResult). x.is_ok) result_eq ∙ taken)
                    (subst
                      (λ n.
                        FiledAs message net time cmd s (result_of now b).is_ok
                          (store_at message net time cmd s n))
                      (omega (arith, last))
                      (seen-FiledAs message net time cmd s named answers k now b seen)))
            ]
      ],
    )
