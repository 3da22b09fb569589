-- ===== src/Ledger/Carried.antt =====
-- What a flight has in memory, while the sections of other keys run.
use wizdaa_takehome.Prelude.{
  String, Bool, true, false, none, some, List, [], ◌∷◌, ◌≡◌, refl, inl, inr, first, upsert, same,
  same-sym, join, eq_of_same, first-upsert_ne, Bool-cases, if◌then◌else◌, arith,
}
use wizdaa_takehome.Entities.{TimeOffRequest, Outbox, request_id_is, outbox_id_is, is_waiting}
use wizdaa_takehome.Database.{Tables, request_key_is, outbox_key_is, update_where}
use wizdaa_takehome.Requests.{is_pending_file_of, void, retire_key}
use wizdaa_takehome.Ledger.Walk.{Closed}

-- The row is as transaction 1 read it, and the request too, but for its idempotency key: a
-- submission of any key renames it on a request that is finished.
pub record Carried (o : Outbox) (r : TimeOffRequest) (t : Tables) : Type 0 where
  pub row : first (outbox_id_is o.id) t.outbox ≡ some o
  pub own : o.aggregate_id ≡ r.id
  pub wait : is_waiting o.status ≡ true
  pub key : String
  pub found : first (request_id_is r.id) t.requests ≡ some (record r { idempotency_key = key })

-- A row that is found, after a change of the rows that meet another test.
pub first-update_found {ℓ} :
    {Row : Type ℓ} (p q : Row → Bool) (f : Row → Row) (xs : List Row) (x : Row)
    → ((y : Row) → p (f y) ≡ p y)
    → first p xs ≡ some x
    → first p (update_where q f xs) ≡ some (if q x then f x else x)
first-update_found p q f [] x h e = cc e
first-update_found p q f (y ∷ xs) x h e = ground (arith, h y, first-update_found p q f xs x)

module _ (o : Outbox) (r : TimeOffRequest) where
  abbrev pub StaysCarried : Tables → Tables → Type 0
  StaysCarried t t' = Carried o r t → Carried o r t'

  -- A request of another id written.
  other_written :
      (t : Tables) (r' : TimeOffRequest)
      → same r.id r'.id ≡ false
      → StaysCarried t (record t { requests = upsert request_key_is r' t.requests })
  other_written t r' other k = record {
    row = k.row;
    own = k.own;
    wait = k.wait;
    key = k.key;
    found =
        rw
          (first-upsert_ne request_key_is (request_id_is r.id) r' t.requests other
            (λ x e. rw (← eq_of_same r'.id x.id e) other))
          k.found;
  }

  -- A row of another id written.
  pub other_row :
      (t : Tables) (o' : Outbox)
      → same o.id o'.id ≡ false
      → StaysCarried t (record t { outbox = upsert outbox_key_is o' t.outbox })
  other_row t o' other k = record {
    row =
        rw
          (first-upsert_ne outbox_key_is (outbox_id_is o.id) o' t.outbox other
            (λ x e. rw (← eq_of_same o'.id x.id e) other))
          k.row;
    own = k.own;
    wait = k.wait;
    key = k.key;
    found = k.found;
  }

  fresh_request :
      (t : Tables) (r' : TimeOffRequest)
      → first (request_id_is r'.id) t.requests ≡ none
      → Carried o r t
      → same r.id r'.id ≡ false
  fresh_request t r' fresh k = elim (Bool-cases (same r.id r'.id)) [
    | inr other ↦ other
    | inl here ↦ absurd (cc (rw (← eq_of_same r.id r'.id here) at fresh, k.found))
  ]

  fresh_row :
      (t : Tables) (o' : Outbox)
      → first (outbox_id_is o'.id) t.outbox ≡ none
      → Carried o r t
      → same o.id o'.id ≡ false
  fresh_row t o' fresh k = elim (Bool-cases (same o.id o'.id)) [
    | inr other ↦ other
    | inl here ↦ absurd (cc (rw (← eq_of_same o.id o'.id here) at fresh, k.row))
  ]

  own_retired :
      (t : Tables) (id : String)
      → StaysCarried t
          (record t { requests = update_where (request_id_is id) retire_key t.requests })
  own_retired t id k =
      let found_eq =
        first-update_found (request_id_is r.id) (request_id_is id) retire_key t.requests
          (record r { idempotency_key = k.key }) (λ x. refl) k.found in
      record {
        row = k.row;
        own = k.own;
        wait = k.wait;
        key = if same id r.id then join k.key (join ":terminal:" r.id) else k.key;
        found = elim (Bool-cases (same id r.id)) [
          | inl hit ↦ rw hit (rw hit at found_eq)
          | inr miss ↦ rw miss (rw miss at found_eq)
        ];
      }

  other_voided :
      (t : Tables) (id : String)
      → same r.id id ≡ false
      → StaysCarried t (record t { outbox = update_where (is_pending_file_of id) void t.outbox })
  other_voided t id other k =
      let miss : is_pending_file_of id o ≡ false = rw (k.own, same-sym id r.id, other) in
      record {
        row = rw miss at (
            first-update_found (outbox_id_is o.id) (is_pending_file_of id) void t.outbox o
              (λ x. refl) k.row);
        own = k.own;
        wait = k.wait;
        key = k.key;
        found = k.found;
      }

  pub carried-Closed :
      Closed StaysCarried (λ r'. same r.id r'.id ≡ false) (λ id. same r.id id ≡ false)
  carried-Closed = record {
    stay = λ t k. k;
    trans = λ t t' t'' f g k. g (f k);
    balances = λ t rows k. record {
      row = k.row;
      own = k.own;
      wait = k.wait;
      key = k.key;
      found = k.found;
    };
    events = λ t rows k. record {
      row = k.row;
      own = k.own;
      wait = k.wait;
      key = k.key;
      found = k.found;
    };
    batch_logs = λ t rows k. record {
      row = k.row;
      own = k.own;
      wait = k.wait;
      key = k.key;
      found = k.found;
    };
    written = other_written;
    created = λ t r' fresh k. other_written t r' (fresh_request t r' fresh k) k;
    retired = own_retired;
    voided = other_voided;
    enqueued = λ t o' fresh zero k. other_row t o' (fresh_row t o' fresh k) k;
  }
