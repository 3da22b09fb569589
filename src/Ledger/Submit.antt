-- ===== src/Ledger/Submit.antt =====
-- `submit` under the lock.
use wizdaa_takehome.Prelude.{
  ℕ, String, Option, none, some, List, ◌≡◌, refl, ap, sym, ◌∙◌, subst, inl, inr, first, Bool-cases,
  Option-cases, arith,
}
use wizdaa_takehome.Prelude.Int.{pos, ltb_ℤ}
use wizdaa_takehome.Entities.{TimeOffRequest, request_id_is, is_terminal}
use wizdaa_takehome.Config.{AppConfig}
use wizdaa_takehome.Database.{
  Tables, Database, memory_of, update_where, settle, ◌>>=◌, err, conflict,
}
use wizdaa_takehome.Balances.{
  free_days, reserve, save_with_retry, save_attempts, validate_availability,
}
use wizdaa_takehome.Requests.{
  HcmReplies, SubmitArgs, KeyUse, free, replay, reused, key_use, has_key, overlaps, retire_key,
  new_request, create_tx, submit_tx, check_range, reload, submit_days, submit_new, submit_with,
  submit_locked,
}
use wizdaa_takehome.Ledger.Rows.{balance_of}
use wizdaa_takehome.Ledger.Apart.{retire_clear}
use wizdaa_takehome.Ledger.Moves.{Inv}
use wizdaa_takehome.Ledger.Reject.{follow}
use wizdaa_takehome.Ledger.Reads.{validate_availability-Inv, validate_availability-requests}
use wizdaa_takehome.Ledger.Created.{retire-Inv, created-Inv}

module _ (db : Database) (config : AppConfig) (hcm : HcmReplies) (now : ℕ) (args : SubmitArgs) where
  -- No active request meets the range that is asked for.
  abbrev IsClear : Tables → Type 0
  IsClear t = Inv t × (first (overlaps args) t.requests ≡ none)

  -- The transaction saves the request with its reservation, or nothing.
  create_tx-Inv :
      (days : ℕ) (locks : List String) (before t : Tables)
      → Inv before
      → first (overlaps args) t.requests ≡ none
      → Inv t
      → Inv (settle before (create_tx (memory_of db) config hcm now args days locks t)).1
  unfolding create_tx reserve save_with_retry save_attempts
  create_tx-Inv days locks before t inv0 clear inv =
      let b = balance_of args.employee_id args.location_id t in
      elim (Bool-cases (ltb_ℤ (free_days b) (pos days))) [
        | inl short ↦ rw short inv0
        | inr enough ↦ rw enough (
            created-Inv t
              (new_request config now args days (db.new_request_id t.requests) (db.random_uuid t))
              (db.new_request_id_lem t.requests) refl args (refl, refl, refl, refl) clear inv)
      ]

  submit_tx-Inv :
      (days : ℕ) (existing : Option TimeOffRequest) (locks : List String) (t : Tables)
      → IsClear t
      → Inv (settle t (submit_tx (memory_of db) config hcm now args days existing locks t)).1
  unfolding submit_tx
  submit_tx-Inv days none locks t (inv, clear) = create_tx-Inv days locks t t inv clear inv
  submit_tx-Inv days (some r) locks t (inv, clear) = elim (Bool-cases (is_terminal r.status)) [
    | inl done ↦ rw done (
        create_tx-Inv days locks t
          (record t { requests = update_where (request_id_is r.id) retire_key t.requests }) inv
          (retire_clear args (request_id_is r.id) t.requests clear) (retire-Inv r.id t inv))
    | inr active ↦ rw active (create_tx-Inv days locks t t inv clear inv)
  ]

  -- The checks of the range write nothing.
  pub check_range-same :
      (locks : List String) (t : Tables)
      → (check_range (memory_of db) config hcm now args locks t).1 ≡ t
  unfolding check_range
  check_range-same locks t = ground arith

  overlapped :
      (r : TimeOffRequest) (locks : List String) (t : Tables)
      → first (overlaps args) t.requests ≡ some r
      → check_range (memory_of db) config hcm now args locks t ≡ (err conflict, t)
  unfolding check_range
  overlapped r locks t met = rw met refl

  submit_days-Inv :
      (existing : Option TimeOffRequest) (days : ℕ) (locks : List String) (t : Tables)
      → IsClear t
      → Inv (submit_days (memory_of db) config hcm now args existing days locks t).1
  unfolding submit_days reload
  submit_days-Inv existing days locks t (inv, clear) =
      follow IsClear Inv
        (λ _.
          (memory_of db).transaction TimeOffRequest
            (submit_tx (memory_of db) config hcm now args days existing)
          >>= reload (memory_of db) config hcm now)
        locks
        (validate_availability (memory_of db) config hcm.recheck args.employee_id args.location_id
          days locks t)
        (
          validate_availability-Inv db config hcm.recheck args.employee_id args.location_id days
              locks t inv,
          ap (first (overlaps args)) (
                validate_availability-requests db config hcm.recheck args.employee_id
                  args.location_id days locks t inv)
              ∙ clear,
        )
        (λ t' inv'. inv'.0)
        (λ done t' inv'.
          follow Inv Inv (reload (memory_of db) config hcm now) locks
            (settle t' (submit_tx (memory_of db) config hcm now args days existing locks t'))
            (submit_tx-Inv days existing locks t' inv') (λ u i. i) (λ r u i. i))

  submit_new-Inv :
      (existing : Option TimeOffRequest) (locks : List String) (t : Tables)
      → Inv t
      → Inv (submit_new (memory_of db) config hcm now args existing locks t).1
  unfolding submit_new
  submit_new-Inv existing locks t inv = elim (Option-cases (first (overlaps args) t.requests)) [
    | inr (r, met) ↦ rw (overlapped r locks t met) inv
    | inl clear ↦
        follow IsClear Inv (submit_days (memory_of db) config hcm now args existing) locks
          (check_range (memory_of db) config hcm now args locks t)
          (subst IsClear (sym (check_range-same locks t)) (inv, clear)) (λ u i. i.0)
          (λ days u i. submit_days-Inv existing days locks u i)
  ]

  submit_with-Inv :
      (existing : Option TimeOffRequest) (use_of : KeyUse) (locks : List String) (t : Tables)
      → Inv t
      → Inv (submit_with (memory_of db) config hcm now args existing use_of locks t).1
  unfolding submit_with
  submit_with-Inv existing free locks t inv = submit_new-Inv existing locks t inv
  submit_with-Inv existing (replay r) locks t inv = inv
  submit_with-Inv existing reused locks t inv = inv

  pub submit_locked-Inv :
      (locks : List String) (t : Tables)
      → Inv t
      → Inv (submit_locked (memory_of db) config hcm now args locks t).1
  unfolding submit_locked
  submit_locked-Inv locks t inv =
      let existing = first (has_key args.idempotency_key) t.requests in
      submit_with-Inv existing (key_use args existing) locks t inv
