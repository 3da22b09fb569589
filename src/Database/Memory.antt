-- ===== src/Database/Memory.antt =====
-- What the documentation of TypeORM promises of the calls that the services make, and tables in
-- memory that keep the promise. Every `Database` computes as those tables do.
use wizdaa_takehome.Prelude.{
  ℕ, String, Bool, Option, none, some, List, [], ◌∷◌, ◌++◌, ◌≡◌, leb, first, select, upsert,
  text_lt, if◌then◌else◌,
}
use wizdaa_takehome.Calendar.{civil_date}
use wizdaa_takehome.Entities.{
  Balance, TimeOffRequest, Outbox, ReconciliationEvent, BatchSyncLog, balance_at, request_id_is,
  outbox_id_is,
}
use wizdaa_takehome.Database.Defs.{Tables, Outcome, ok, err, deadlock, Action, saved, Engine}

-- Rows of one primary key.
abbrev pub balance_key_is : Balance → Balance → Bool
balance_key_is b = balance_at b.employee_id b.location_id

abbrev pub request_key_is : TimeOffRequest → TimeOffRequest → Bool
request_key_is r = request_id_is r.id

abbrev pub outbox_key_is : Outbox → Outbox → Bool
outbox_key_is o = outbox_id_is o.id

-- The change, made to the rows that meet the test.
abbrev pub update_where {ℓ} : {Row : Type ℓ} → (Row → Bool) → (Row → Row) → List Row → List Row
update_where p f [] = []
update_where p f (x ∷ xs) = (if p x then f x else x) ∷ update_where p f xs

abbrev pub last_of : List BatchSyncLog → Option BatchSyncLog
last_of [] = none
last_of (x ∷ xs) = elim (last_of xs) [
  | none ↦ some x
  | some y ↦ if leb y.sequence x.sequence then some x else some y
]

-- A transaction keeps what its body wrote only if the body returns.
abbrev pub settle : {A : Type 0} → Tables → Outcome A × Tables → Outcome A × Tables
settle before (ok a, after) = (ok a, after)
settle before (err e, after) = (err e, before)
settle before (deadlock, after) = (deadlock, before)

-- The date of a time, by UTC, is later than that of another.
abbrev pub is_later_day : ℕ → ℕ → Bool
is_later_day a b = text_lt (civil_date b) (civil_date a)

pub record Database : Type 1 where
  pub engine : Engine
  pub open engine use *
  pub find_one_lem :
      (Row : Type 0) (p : Row → Bool) (rows : List Row) → find_one Row p rows ≡ first p rows
  pub find_lem : (Row : Type 0) (p : Row → Bool) (rows : List Row) → find Row p rows ≡ select p rows
  pub update_lem :
      (Row : Type 0) (p : Row → Bool) (f : Row → Row) (rows : List Row)
      → update Row p f rows ≡ update_where p f rows
  -- Under the lock of a key no other writer touches its row, so the version never differs.
  pub save_balance_lem :
      (b : Balance) (rows : List Balance)
      → save_balance b rows ≡ saved (upsert balance_key_is b rows)
  pub save_request_lem :
      (r : TimeOffRequest) (rows : List TimeOffRequest)
      → save_request r rows ≡ upsert request_key_is r rows
  pub save_outbox_lem :
      (o : Outbox) (rows : List Outbox) → save_outbox o rows ≡ upsert outbox_key_is o rows
  pub save_event_lem :
      (v : ReconciliationEvent) (rows : List ReconciliationEvent)
      → save_event v rows ≡ rows ++ v ∷ []
  pub save_batch_log_lem :
      (l : BatchSyncLog) (rows : List BatchSyncLog) → save_batch_log l rows ≡ rows ++ l ∷ []
  pub last_batch_lem : (rows : List BatchSyncLog) → last_batch rows ≡ last_of rows
  pub transaction_lem :
      (A : Type 0) (body : Action A) (held : List String) (t : Tables)
      → transaction A body held t ≡ settle t (body held t)
  -- A column holds a time as the text of its date, a space and the time of day; the text that it is
  -- compared with has the same date, and a `T` for the space. A space is below a `T`, so the first
  -- text is above the second exactly if its date is.
  pub is_after_lem : (acked as_of : ℕ) → is_after acked as_of ≡ is_later_day acked as_of
  -- A key that the database hands out is that of no row.
  pub new_request_id_lem :
      (rows : List TimeOffRequest) → first (request_id_is (new_request_id rows)) rows ≡ none
  pub new_outbox_id_lem :
      (rows : List Outbox) → first (outbox_id_is (new_outbox_id rows)) rows ≡ none

-- Tables in memory; the order of the outbox and the fresh keys are still the engine's own.
module _ (oldest_first : List Outbox → List Outbox) (new_request_id : List TimeOffRequest → String)
    (new_outbox_id : List Outbox → String) (random_uuid : Tables → String) where
  abbrev pub memory : Engine
  memory = record {
    find_one = λ Row. first;
    find = λ Row. select;
    update = λ Row. update_where;
    save_balance = λ b rows. saved (upsert balance_key_is b rows);
    save_request = upsert request_key_is;
    save_outbox = upsert outbox_key_is;
    save_event = λ v rows. rows ++ v ∷ [];
    save_batch_log = λ l rows. rows ++ l ∷ [];
    is_after = is_later_day;
    last_batch = last_of;
    oldest_first = oldest_first;
    transaction = λ A body held t. settle t (body held t);
    new_request_id = new_request_id;
    new_outbox_id = new_outbox_id;
    random_uuid = random_uuid;
  }

abbrev pub memory_of : Database → Engine
memory_of db = memory db.oldest_first db.new_request_id db.new_outbox_id db.random_uuid

pub engine-eq-memory : (db : Database) → db.engine ≡ memory_of db
engine-eq-memory db i = record {
  find_one = λ Row p rows. db.find_one_lem Row p rows i;
  find = λ Row p rows. db.find_lem Row p rows i;
  update = λ Row p f rows. db.update_lem Row p f rows i;
  save_balance = λ b rows. db.save_balance_lem b rows i;
  save_request = λ r rows. db.save_request_lem r rows i;
  save_outbox = λ o rows. db.save_outbox_lem o rows i;
  save_event = λ v rows. db.save_event_lem v rows i;
  save_batch_log = λ l rows. db.save_batch_log_lem l rows i;
  is_after = λ acked as_of. db.is_after_lem acked as_of i;
  last_batch = λ rows. db.last_batch_lem rows i;
  oldest_first = db.oldest_first;
  transaction = λ A body held t. db.transaction_lem A body held t i;
  new_request_id = db.new_request_id;
  new_outbox_id = db.new_outbox_id;
  random_uuid = db.random_uuid;
}
