-- ===== src/Ledger/Lifecycle.antt =====
-- How the requests change, whatever runs.
use wizdaa_takehome.Prelude.{
  String, Bool, true, false, none, some, ◌≡◌, refl, ap, inl, inr, first, upsert, same, same_refl,
  eq_of_same, first-upsert_ne, first-upsert_self, Bool-cases, arith,
}
use wizdaa_takehome.Entities.{TimeOffRequest, RequestStatus, request_id_is}
use wizdaa_takehome.Database.{Tables, request_key_is, update_where}
use wizdaa_takehome.Requests.{retire_key}
use wizdaa_takehome.Ledger.Walk.{Closed}
use wizdaa_takehome.Ledger.Carried.{first-update_found}

-- The diagram of the states, one step or none: a request is committed, then acknowledged; until then it
-- may be rejected, cancelled or expire, and then it may be cancelled.
abbrev pub can_step : RequestStatus → RequestStatus → Bool
can_step RequestStatus.draft RequestStatus.draft = true
can_step RequestStatus.pending RequestStatus.draft = false
can_step RequestStatus.pending RequestStatus.approved = false
can_step RequestStatus.pending _ = true
can_step RequestStatus.pending_sync RequestStatus.draft = false
can_step RequestStatus.pending_sync RequestStatus.pending = false
can_step RequestStatus.pending_sync _ = true
can_step RequestStatus.approved RequestStatus.approved = true
can_step RequestStatus.approved RequestStatus.cancelled = true
can_step RequestStatus.rejected RequestStatus.rejected = true
can_step RequestStatus.cancelled RequestStatus.cancelled = true
can_step RequestStatus.expired RequestStatus.expired = true
can_step _ _ = false

-- The request later on: nothing but its state, its idempotency key and the two times is written, and
-- the state is as before or the next one on an arrow of the diagram.
pub record Follows (r r' : TimeOffRequest) : Type 0 where
  pub as_was : r' ≡ record r {
    status = r'.status;
    idempotency_key = r'.idempotency_key;
    committed_at = r'.committed_at;
    hcm_ack_at = r'.hcm_ack_at;
  }
  pub reach : can_step r.status r'.status ≡ true

pub step_self : (s : RequestStatus) → can_step s s ≡ true
step_self s = ground arith

pub Follows-refl : (r : TimeOffRequest) → Follows r r
Follows-refl r = record { as_was = refl; reach = step_self r.status }

abbrev rekeyed : String → TimeOffRequest → TimeOffRequest
rekeyed key r = record r { idempotency_key = key }

module _ (id : String) (r : TimeOffRequest) where
  -- The request of the id is there, and is `r` later on.
  abbrev pub Lives : Tables → Type 0
  Lives t = (r' : TimeOffRequest) × (first (request_id_is id) t.requests ≡ some r') × Follows r r'

  abbrev pub StaysAlive : Tables → Tables → Type 0
  StaysAlive t t' = Lives t → Lives t'

  -- What may be written over a request.
  abbrev pub MayWrite : TimeOffRequest → Type 0
  MayWrite r' = same id r'.id ≡ true → Follows r r'

  pub rewritten-Lives :
      (t : Tables) (r' : TimeOffRequest)
      → MayWrite r'
      → StaysAlive t (record t { requests = upsert request_key_is r' t.requests })
  rewritten-Lives t r' may (x, found, follows) = elim (Bool-cases (same id r'.id)) [
    | inl here ↦ (
      r',
      rw (eq_of_same id r'.id here)
          (first-upsert_self request_key_is r' t.requests (same_refl r'.id)),
      may here,
    )
    | inr other ↦ (
      x,
      rw
          (first-upsert_ne request_key_is (request_id_is id) r' t.requests other
            (λ x e. rw (← eq_of_same r'.id x.id e) other))
          found,
      follows,
    )
  ]

  fresh_apart :
      (t : Tables) (r' : TimeOffRequest)
      → first (request_id_is r'.id) t.requests ≡ none
      → Lives t
      → MayWrite r'
  fresh_apart t r' fresh (x, found, follows) here =
      absurd (cc (rw (← eq_of_same id r'.id here) at fresh, found))

  retired-Lives :
      (t : Tables) (done : String)
      → StaysAlive t
          (record t { requests = update_where (request_id_is done) retire_key t.requests })
  retired-Lives t done (x, found, follows) =
      let e =
        first-update_found (request_id_is id) (request_id_is done) retire_key t.requests x
          (λ y. refl) found in
      elim (Bool-cases (same done x.id)) [
        | inl hit ↦ (
          retire_key x,
          rw hit at e,
          record {
            as_was = ap (rekeyed (retire_key x).idempotency_key) follows.as_was;
            reach = follows.reach;
          },
        )
        | inr miss ↦ (x, rw miss at e, follows)
      ]

  pub alive-Closed : Closed StaysAlive MayWrite (λ id. Unit {0})
  alive-Closed = record {
    stay = λ t a. a;
    trans = λ t t' t'' f g a. g (f a);
    balances = λ t rows a. a;
    events = λ t rows a. a;
    batch_logs = λ t rows a. a;
    written = rewritten-Lives;
    created = λ t r' fresh a. rewritten-Lives t r' (fresh_apart t r' fresh a) a;
    retired = retired-Lives;
    voided = λ t id w a. a;
    enqueued = λ t o fresh zero a. a;
  }
