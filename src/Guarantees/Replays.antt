-- ===== src/Guarantees/Replays.antt =====
-- A submission that is sent again under its idempotency key.
use wizdaa_takehome.Prelude.{
  ℕ, String, true, none, some, List, ◌≡◌, refl, ap, sym, subst, inl, inr, first, Bool-cases,
  if◌then◌else◌,
}
use wizdaa_takehome.Entities.{TimeOffRequest, is_active}
use wizdaa_takehome.Config.{AppConfig}
use wizdaa_takehome.Database.{
  Tables, Engine, Database, memory_of, engine-eq-memory, ok, err, unprocessable,
}
use wizdaa_takehome.Requests.{
  HcmReplies, SubmitArgs, has_key, same_body, submit_with, submit_locked,
}
use wizdaa_takehome.Ledger.Moves.{Inv}
use wizdaa_takehome.Ledger.Reached.{Reached}
use wizdaa_takehome.Guarantees.Accounts.{Reached-Inv}
use wizdaa_takehome.Ledger.Added.{submitted-IsAdded, added_found}

module _ (e : Engine) (config : AppConfig) (hcm : HcmReplies) (now : ℕ) (args : SubmitArgs) where
  -- A submission under a key says what the tables have under it, or refuses, and changes nothing.
  abbrev Replayed : TimeOffRequest → List String → Tables → Type 0
  Replayed r locks t =
      submit_locked e config hcm now args locks t
      ≡ ((if same_body args r then ok r else err unprocessable), t)

key_in_use :
    (db : Database) (config : AppConfig) (hcm : HcmReplies) (now : ℕ) (args : SubmitArgs)
    (r : TimeOffRequest) (locks : List String) (t : Tables)
    → first (has_key args.idempotency_key) t.requests ≡ some r
    → is_active r.status ≡ true
    → Replayed (memory_of db) config hcm now args r locks t
unfolding submit_locked submit_with
key_in_use db config hcm now args r locks t found active = elim (Bool-cases (same_body args r)) [
  | inl agrees ↦ rw (found, active, agrees) refl
  | inr differs ↦ rw (found, active, differs) refl
]

-- In a state that sections lead to, a submission under a key that no row has returns a request. Its
-- employee, location and range are the submission's, it is active, and the key is its own. Whatever
-- happens then, in tables where the row of the key is still that request, as it was but for its state
-- and the times of its commit and of HCM's answer, and is still active, a submission of the same key,
-- at whatever time and whatever HCM says, changes nothing: it returns the request as it is by then if
-- it is of the same employee, location and range, and is refused with `unprocessable` if not.
pub submit_twice_is_once :
    (db : Database) (config : AppConfig) (hcm hcm' : HcmReplies) (now now' : ℕ)
    (args args' : SubmitArgs) (locks locks' : List String) (t t' u : Tables) (r r' : TimeOffRequest)
    → Reached db.engine config t
    → first (has_key args.idempotency_key) t.requests ≡ none
    → submit_locked db.engine config hcm now args locks t ≡ (ok r, t')
    → args'.idempotency_key ≡ args.idempotency_key
    → first (has_key args.idempotency_key) u.requests ≡ some r'
    → is_active r'.status ≡ true
    → r'
      ≡ record r { status = r'.status; committed_at = r'.committed_at; hcm_ack_at = r'.hcm_ack_at }
    → (same_body args r ≡ true)
      × (first (has_key args.idempotency_key) t'.requests ≡ some r)
      × (is_active r.status ≡ true)
      × (submit_locked db.engine config hcm' now' args' locks' u
          ≡ ((if same_body args' r then ok r' else err unprocessable), u))
submit_twice_is_once db config hcm hcm' now now' args args' locks locks' t t' u r r' reached new h
      key there live later =
    let inv : Inv t = Reached-Inv db config t reached in
    let (found, active, agrees) = added_found db config hcm now args r t t' new (
      submitted-IsAdded db config hcm now args locks t t' r inv new (
        subst (λ e. submit_locked e config hcm now args locks t ≡ (ok r, t')) (engine-eq-memory db)
          h)) in
    let same_args : same_body args' r' ≡ same_body args' r = ap (same_body args') later in
    let again : Replayed db.engine config hcm' now' args' r' locks' u =
      subst (λ e. Replayed e config hcm' now' args' r' locks' u) (sym (engine-eq-memory db))
        (key_in_use db config hcm' now' args' r' locks' u (rw key there) live) in
    (agrees, found, active, rw same_args at again)
