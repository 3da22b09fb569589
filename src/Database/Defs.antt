-- ===== src/Database/Defs.antt =====
-- Outcomes, actions on the tables, and the interface of the database.
use wizdaa_takehome.Prelude.{
  ℕ, String, Bool, false, Option, none, some, List, [], ◌∷◌, ◌||◌, same, if◌then◌else◌,
}
use wizdaa_takehome.Entities.{Balance, TimeOffRequest, Outbox, ReconciliationEvent, BatchSyncLog}

pub record Tables : Type 0 where
  pub balances : List Balance
  pub requests : List TimeOffRequest
  pub outbox : List Outbox
  pub events : List ReconciliationEvent
  pub batch_logs : List BatchSyncLog

-- What a method throws: the exceptions of NestJS, and the errors of the services.
pub data Exception : Type 0 where
  not_found bad_request conflict unprocessable forbidden : Exception
  hcm_unavailable version_mismatch row_vanished other_error : Exception

-- `deadlock`: the promise that the method returns never settles.
pub data Outcome (A : Type 0) : Type 0 where
  ok : A → Outcome A
  err : Exception → Outcome A
  deadlock : Outcome A

abbrev pub Action : Type 0 → Type 0
Action A = List String → Tables → Outcome A × Tables

module _ {A : Type 0} where
  abbrev pub pure : A → Action A
  pure a held t = (ok a, t)

  abbrev pub throw : Exception → Action A
  throw e held t = (err e, t)

  abbrev pub gets : (Tables → A) → Action A
  gets f held t = (ok (f t), t)

  abbrev pub or_throw : Option A → Exception → Action A
  or_throw none e = throw e
  or_throw (some a) e = pure a

-- What follows a call, by how the call ended.
abbrev pub then_do :
    {A B : Type 0} → (A → Action B) → List String → Outcome A × Tables → Outcome B × Tables
then_do f held (ok a, t) = f a held t
then_do f held (err e, t) = (err e, t)
then_do f held (deadlock, t) = (deadlock, t)

infixl 5 ◌>>=◌ ◌>>◌
abbrev pub ◌>>=◌ : {A B : Type 0} → Action A → (A → Action B) → Action B
◌>>=◌ m f held t = then_do f held (m held t)

abbrev pub ◌>>◌ : {A B : Type 0} → Action A → Action B → Action B
m >> k = m >>= λ _. k

-- A call that depends on whether a value is there.
abbrev pub on_option {ℓ} :
    {A : Type ℓ} {B : Type 0} → Option A → Action B → (A → Action B) → Action B
on_option none missing there = missing
on_option (some a) missing there = there a

abbrev pub throw_if : Bool → Exception → Action (Unit {0})
throw_if c e held t = (if c then err e else ok tt, t)

abbrev pub modify : (Tables → Tables) → Action (Unit {0})
modify f held t = (ok tt, f t)

-- What one save of a balance comes to: the rows after it, or, where another writer was first, the
-- rows that this writer left.
pub data Saved : Type 0 where
  saved : List Balance → Saved
  mismatch : List Balance → Saved
  failed : Saved

-- What follows a save, by what it came to.
abbrev pub on_saved {ℓ} : {X : Type ℓ} → Saved → (List Balance → X) → (List Balance → X) → X → X
on_saved (saved rows) done differs broken = done rows
on_saved (mismatch rows) done differs broken = differs rows
on_saved failed done differs broken = broken

pub record Engine : Type 1 where
  -- `findOne`, `getOne`: a row that meets the test; `find`, `getMany`: all of them.
  pub find_one : (Row : Type 0) → (Row → Bool) → List Row → Option Row
  pub find : (Row : Type 0) → (Row → Bool) → List Row → List Row
  -- `update(…).set(…).where(…)`.
  pub update : (Row : Type 0) → (Row → Bool) → (Row → Row) → List Row → List Row
  pub save_balance : Balance → List Balance → Saved
  pub save_request : TimeOffRequest → List TimeOffRequest → List TimeOffRequest
  pub save_outbox : Outbox → List Outbox → List Outbox
  pub save_event : ReconciliationEvent → List ReconciliationEvent → List ReconciliationEvent
  pub save_batch_log : BatchSyncLog → List BatchSyncLog → List BatchSyncLog
  -- `column > :parameter`, on a stored time and a time that is bound as an ISO text.
  pub is_after : ℕ → ℕ → Bool
  -- `findOne` with `order: { sequence: 'DESC' }`, and `find` with `order: { createdAt: 'ASC' }`.
  pub last_batch : List BatchSyncLog → Option BatchSyncLog
  pub oldest_first : List Outbox → List Outbox
  pub transaction : (A : Type 0) → Action A → Action A
  -- The key that the database gives a new row, and `randomUUID()`.
  pub new_request_id : List TimeOffRequest → String
  pub new_outbox_id : List Outbox → String
  pub random_uuid : Tables → String

-- A key is in the list of the locks held.
abbrev pub holds : String → List String → Bool
holds key [] = false
holds key (k ∷ ks) = same key k || holds key ks
