-- ===== src/Http/Bodies.antt =====
-- What the other bodies and queries of the service have to be, as class-validator reads their
-- classes: src/reconciliation/dto/batch-corpus.dto.ts, src/balance/dto/get-balance.dto.ts and
-- src/balance/dto/resolve-review.dto.ts. `ValidationPipe` tests a body before the handler runs, and
-- takes no text for a number.
use wizdaa_takehome.Prelude.{
  ℕ, suc, String, Bool, not, Option, none, some, List, [], ◌∷◌, ◌&&◌, leb, same, if◌then◌else◌,
}
use wizdaa_takehome.Prelude.Int.{ℤ, pos}
use wizdaa_takehome.Entities.{HcmBalance, BatchCorpus}
use wizdaa_takehome.Config.{AppConfig}
use wizdaa_takehome.Database.{Engine, Action, bad_request, or_throw, ◌>>=◌}
use wizdaa_takehome.Balances.{HcmReply, BalanceView}
use wizdaa_takehome.Http.Defs.{get_balances, patch_resolve_review, post_batch}

-- A property of a body: a text, a whole number, something else, or nothing (or `null`).
pub data Field : Type 0 where
  text : String → Field
  whole : ℤ → Field
  odd missing : Field

-- `@IsString()`, with further tests of the text.
abbrev pub text_field : (String → Bool) → Field → Option String
text_field test (text s) = if test s then some s else none
text_field test _ = none

-- `@IsNotEmpty()`.
abbrev pub is_not_empty : String → Bool
is_not_empty s = not (same s "")

-- `@IsInt()`, and with `@IsPositive()` or `@Min(1)`.
abbrev pub int_field : Field → Option ℤ
int_field (whole n) = some n
int_field _ = none

abbrev pub positive_field : Field → Option ℕ
positive_field (whole (pos (suc n))) = some (suc n)
positive_field _ = none

-- Two parts that both have to be there.
abbrev pub both_given : {A B C : Type 0} → (A → B → C) → Option A → Option B → Option C
both_given f none b = none
both_given f (some a) none = none
both_given f (some a) (some b) = some (f a b)

-- `@ValidateNested({ each: true })`.
abbrev pub each_given : {A B : Type 0} → (A → Option B) → List A → Option (List B)
each_given f [] = some []
each_given f (x ∷ xs) = both_given (λ b bs. b ∷ bs) (f x) (each_given f xs)

abbrev pub count : {A : Type 0} → List A → ℕ
count [] = 0
count (x ∷ xs) = suc (count xs)

-- `HcmBalanceDto` and `BatchCorpusDto`, as they come.
pub record RawEntry : Type 0 where
  pub employee_id : Field
  pub location_id : Field
  pub balance : Field
  pub as_of : Field

pub record RawCorpus : Type 0 where
  pub sequence : Field
  pub as_of : Field
  pub balances : Option (List RawEntry)

abbrev pub make_entry : String × String → ℤ × ℕ → HcmBalance
make_entry (employee, location) (balance, as_of) = record {
  employee_id = employee;
  location_id = location;
  balance = balance;
  as_of = as_of;
}

abbrev pub make_corpus : ℕ × ℕ → List HcmBalance → BatchCorpus
make_corpus (sequence, as_of) entries = record {
  sequence = sequence;
  as_of = as_of;
  balances = entries;
}

abbrev pub max_batch : ℕ
max_batch = 10000

-- `@ArrayMaxSize(10000)`.
abbrev pub at_most : {A : Type 0} → ℕ → Option (List A) → Option (List A)
at_most n none = none
at_most n (some xs) = if leb (count xs) n then some xs else none

-- Class-validator says whether a text has at most 128 characters and whether it is a time of
-- ISO 8601; `time_of` is the time of such a text.
module _ (is_short is_iso : String → Bool) (time_of : String → ℕ) where
  -- The two ids, `@MaxLength(128)`.
  abbrev pub id_field : Field → Option String
  id_field = text_field (λ s. is_not_empty s && is_short s)

  abbrev pub time_field : Field → Option ℕ
  time_field (text s) = if is_iso s then some (time_of s) else none
  time_field _ = none

  unfoldable pub entry_of_body : RawEntry → Option HcmBalance
  entry_of_body raw =
      both_given make_entry
        (both_given (λ a b. (a, b)) (id_field raw.employee_id) (id_field raw.location_id))
        (both_given (λ a b. (a, b)) (int_field raw.balance) (time_field raw.as_of))

  abbrev pub entries_of_body : Option (List RawEntry) → Option (List HcmBalance)
  entries_of_body none = none
  entries_of_body (some xs) = each_given entry_of_body xs

  unfoldable pub corpus_of_body : RawCorpus → Option BatchCorpus
  corpus_of_body raw =
      both_given make_corpus
        (both_given (λ a b. (a, b)) (positive_field raw.sequence) (time_field raw.as_of))
        (at_most max_batch (entries_of_body raw.balances))

  module _ (e : Engine) where
    unfoldable pub batch_route : RawCorpus → Action Bool
    batch_route raw = or_throw (corpus_of_body raw) bad_request >>= post_batch e

    module _ (config : AppConfig) (principal role : Option String) where
      -- `GetBalanceDto` and `ResolveReviewDto`.
      abbrev pub ids_of : Field → Field → Option (String × String)
      ids_of employee location = both_given (λ a b. (a, b)) (id_field employee) (id_field location)

      unfoldable pub balance_route : HcmReply → Field → Field → Action (Option BalanceView)
      balance_route reply employee location =
          or_throw (ids_of employee location) bad_request >>= λ (a, b).
          get_balances e config principal role reply a b

      unfoldable pub resolve_route : Field → Field → Action Bool
      resolve_route employee location =
          or_throw (ids_of employee location) bad_request >>= λ (a, b).
          patch_resolve_review e config principal role a b
