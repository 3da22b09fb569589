-- ===== src/Ledger/Added.antt =====
-- What a submission that returns has put into the tables.
use wizdaa_takehome.Prelude.{
  ℕ, String, Bool, true, false, none, some, List, [], ◌∷◌, ◌≡◌, refl, sym, ap, ◌∙◌, subst, inl, inr,
  same_refl, first, upsert, first-upsert_self, Bool-cases, arith,
}
use wizdaa_takehome.Prelude.Int.{pos, ltb_ℤ}
use wizdaa_takehome.Entities.{TimeOffRequest, request_id_is, is_active}
use wizdaa_takehome.Config.{AppConfig}
use wizdaa_takehome.Database.{
  Tables, Database, memory_of, request_key_is, Outcome, ok, err, deadlock, Exception, conflict,
  Action, then_do, settle, ◌>>=◌,
}
use wizdaa_takehome.Balances.{
  free_days, reserve, save_with_retry, save_attempts, validate_availability,
}
use wizdaa_takehome.Requests.{
  HcmReplies, SubmitArgs, has_key, or_else, same_body, new_request, create_tx, submit_tx,
  check_range, reload, submit_days, submit_new, submit_with, submit_locked,
}
use wizdaa_takehome.Ledger.Rows.{balance_of}
use wizdaa_takehome.Ledger.Moves.{Inv}
use wizdaa_takehome.Ledger.Reads.{validate_availability-requests}
use wizdaa_takehome.Ledger.Submit.{check_range-same}

-- A row that no test or key has met before, and that goes to the end.
first_new :
    (p : TimeOffRequest → Bool) (r : TimeOffRequest) (xs : List TimeOffRequest)
    → p r ≡ true
    → first p xs ≡ none
    → first (request_key_is r) xs ≡ none
    → first p (upsert request_key_is r xs) ≡ some r
first_new p r [] own none_p none_key = rw own refl
first_new p r (x ∷ xs) own none_p none_key =
    let miss : p x ≡ false = ground arith in
    let other : request_key_is r x ≡ false = ground arith in
    rw (other, miss) (first_new p r xs own (ground arith) (ground arith))

-- A call that returned, followed by another that did.
then_ok :
    {A B : Type 0} (f : A → Action B) (locks : List String) (out : Outcome A × Tables) (b : B)
    (t' : Tables)
    → then_do f locks out ≡ (ok b, t')
    → (a : A) × (u : Tables) × (out ≡ (ok a, u)) × (f a locks u ≡ (ok b, t'))
then_ok f locks (ok a, u) b t' h = (a, u, refl, h)
then_ok f locks (err e, u) b t' h = absurd (cc (ap (λ o. o.0) h))
then_ok f locks (deadlock, u) b t' h = absurd (cc (ap (λ o. o.0) h))

settle_ok :
    {A : Type 0} (before : Tables) (out : Outcome A × Tables) (a : A) (t' : Tables)
    → settle before out ≡ (ok a, t')
    → out ≡ (ok a, t')
settle_ok before (ok a', u) a t' h = h
settle_ok before (err e, u) a t' h = absurd (cc (ap (λ o. o.0) h))
settle_ok before (deadlock, u) a t' h = absurd (cc (ap (λ o. o.0) h))

ok_eq : {A : Type 0} (a b : A) → ok a ≡ ok b → a ≡ b
ok_eq a b h = cc

abbrev Fails : {A : Type 0} → Outcome A → Type 0
Fails (ok a) = ⊥
Fails _ = Unit

err_not_ok : {A : Type 0} (x : Exception) (a : A) → ◌≡◌ {A = Outcome A} (err x) (ok a) → ⊥
err_not_ok x a h = subst Fails h tt

module _ (db : Database) (config : AppConfig) (hcm : HcmReplies) (now : ℕ) (args : SubmitArgs) where
  -- A request as a submission makes it, put in after the others.
  abbrev pub IsAdded : TimeOffRequest → List TimeOffRequest → List TimeOffRequest → Type 0
  IsAdded r rows rows' =
      (days : ℕ) × (id : String) × (uuid : String) × (r ≡ new_request config now args days id uuid)
      × (first (request_id_is id) rows ≡ none)
      × (rows' ≡ upsert request_key_is r rows)

  abbrev made : ℕ → Tables → TimeOffRequest
  made days u = new_request config now args days (db.new_request_id u.requests) (db.random_uuid u)

  create_short :
      (days : ℕ) (locks : List String) (u : Tables)
      → ltb_ℤ (free_days (balance_of args.employee_id args.location_id u)) (pos days) ≡ true
      → (create_tx (memory_of db) config hcm now args days locks u).0 ≡ err conflict
  unfolding create_tx reserve save_with_retry save_attempts
  create_short days locks u short = rw short refl

  create_done :
      (days : ℕ) (locks : List String) (u : Tables)
      → ltb_ℤ (free_days (balance_of args.employee_id args.location_id u)) (pos days) ≡ false
      → ((create_tx (memory_of db) config hcm now args days locks u).0 ≡ ok (made days u))
        × ((create_tx (memory_of db) config hcm now args days locks u).1.requests
            ≡ upsert request_key_is (made days u) u.requests)
  unfolding create_tx reserve save_with_retry save_attempts
  create_done days locks u enough = (rw enough refl, rw enough refl)

  created-IsAdded :
      (days : ℕ) (locks : List String) (u u' : Tables) (r : TimeOffRequest)
      → create_tx (memory_of db) config hcm now args days locks u ≡ (ok r, u')
      → IsAdded r u.requests u'.requests
  created-IsAdded days locks u u' r h =
      let b = balance_of args.employee_id args.location_id u in
      let answer : (create_tx (memory_of db) config hcm now args days locks u).0 ≡ ok r =
        ap (λ (o : Outcome TimeOffRequest × Tables). o.0) h in
      elim (Bool-cases (ltb_ℤ (free_days b) (pos days))) [
        | inl short ↦
            absurd (err_not_ok conflict r (sym (create_short days locks u short) ∙ answer))
        | inr enough ↦
            let done = create_done days locks u enough in
            let r_eq : r ≡ made days u = ok_eq r (made days u) (sym answer ∙ done.0) in
            let rows_eq : u'.requests ≡ upsert request_key_is (made days u) u.requests =
              sym (ap (λ (o : Outcome TimeOffRequest × Tables). o.1.requests) h) ∙ done.1 in
            (
              days,
              db.new_request_id u.requests,
              db.random_uuid u,
              r_eq,
              db.new_request_id_lem u.requests,
              rows_eq ∙ ap (λ x. upsert request_key_is x u.requests) (sym r_eq),
            )
      ]

  -- A request that was put in is found again.
  reloaded :
      (r r0 : TimeOffRequest) (locks : List String) (rows : List TimeOffRequest) (u t' : Tables)
      → IsAdded r0 rows u.requests
      → reload (memory_of db) config hcm now r0 locks u ≡ (ok r, t')
      → (r ≡ r0) × (t' ≡ u)
  unfolding reload
  reloaded r r0 locks rows u t' (days, id, uuid, made_eq, fresh, rows_eq) h =
      let found : first (request_id_is r0.id) u.requests ≡ some r0 =
        ap (first (request_id_is r0.id)) rows_eq
        ∙ first-upsert_self request_key_is r0 rows (same_refl r0.id) in
      let answer : ok (or_else r0 (first (request_id_is r0.id) u.requests)) ≡ ok r =
        ap (λ (o : Outcome TimeOffRequest × Tables). o.0) h in
      (
        ok_eq r r0 (sym answer ∙ ap (λ o. ok (or_else r0 o)) found),
        sym (ap (λ (o : Outcome TimeOffRequest × Tables). o.1) h),
      )

  entered-IsAdded :
      (days : ℕ) (locks : List String) (u t' : Tables) (r : TimeOffRequest)
      → ((memory_of db).transaction TimeOffRequest
              (submit_tx (memory_of db) config hcm now args days none)
            >>= reload (memory_of db) config hcm now)
          locks u
        ≡ (ok r, t')
      → IsAdded r u.requests t'.requests
  unfolding submit_tx
  entered-IsAdded days locks u t' r h =
      let (r0, u2, ended, h3) =
        then_ok (reload (memory_of db) config hcm now) locks
          (settle u (submit_tx (memory_of db) config hcm now args days none locks u)) r t' h in
      let added : IsAdded r0 u.requests u2.requests =
        created-IsAdded days locks u u2 r0
          (settle_ok u (create_tx (memory_of db) config hcm now args days locks u) r0 u2 ended) in
      let (r_eq, t_eq) = reloaded r r0 locks u.requests u2 t' added h3 in
      subst (λ x. IsAdded x u.requests t'.requests) (sym r_eq)
        (subst (λ (x : Tables). IsAdded r0 u.requests x.requests) (sym t_eq) added)

  locked_new :
      (locks : List String) (t : Tables)
      → first (has_key args.idempotency_key) t.requests ≡ none
      → submit_locked (memory_of db) config hcm now args locks t
        ≡ submit_new (memory_of db) config hcm now args none locks t
  unfolding submit_locked submit_with
  locked_new locks t new = rw new refl

  -- What a submission that returned has done, where no row had its key.
  pub submitted-IsAdded :
      (locks : List String) (t t' : Tables) (r : TimeOffRequest)
      → Inv t
      → first (has_key args.idempotency_key) t.requests ≡ none
      → submit_locked (memory_of db) config hcm now args locks t ≡ (ok r, t')
      → IsAdded r t.requests t'.requests
  unfolding submit_new submit_days
  submitted-IsAdded locks t t' r inv new h =
      let (days, u, checked, h1) =
        then_ok (submit_days (memory_of db) config hcm now args none) locks
          (check_range (memory_of db) config hcm now args locks t) r t'
          (sym (locked_new locks t new) ∙ h) in
      let u_eq : u ≡ t =
        sym (ap (λ (o : Outcome ℕ × Tables). o.1) checked)
        ∙ check_range-same db config hcm now args locks t in
      let (done, u1, enough, h2) =
        then_ok
          (λ _.
            (memory_of db).transaction TimeOffRequest
              (submit_tx (memory_of db) config hcm now args days none)
            >>= reload (memory_of db) config hcm now)
          locks
          (validate_availability (memory_of db) config hcm.recheck args.employee_id args.location_id
            days locks u)
          r t' h1 in
      let rows_eq : u1.requests ≡ t.requests =
        sym (ap (λ (o : Outcome (Unit {0}) × Tables). o.1.requests) enough)
        ∙ ap
            (λ x.
              (validate_availability (memory_of db) config hcm.recheck args.employee_id
                args.location_id days locks x).1.requests)
            u_eq
        ∙ validate_availability-requests db config hcm.recheck args.employee_id args.location_id
            days locks t inv in
      subst (λ x. IsAdded r x t'.requests) rows_eq (entered-IsAdded days locks u1 t' r h2)

  -- The request is found under its key, and the key is in use.
  pub added_found :
      (r : TimeOffRequest) (t t' : Tables)
      → first (has_key args.idempotency_key) t.requests ≡ none
      → IsAdded r t.requests t'.requests
      → (first (has_key args.idempotency_key) t'.requests ≡ some r)
        × (is_active r.status ≡ true)
        × (same_body args r ≡ true)
  added_found r t t' new (days, id, uuid, made_eq, fresh, rows_eq) =
      let own : has_key args.idempotency_key r ≡ true =
        rw made_eq (same_refl args.idempotency_key) in
      let none_key : first (request_key_is r) t.requests ≡ none = rw made_eq fresh in
      (
        ap (first (has_key args.idempotency_key)) rows_eq
            ∙ first_new (has_key args.idempotency_key) r t.requests own new none_key,
        rw made_eq refl,
        rw made_eq (
            rw
              (
                same_refl args.employee_id,
                same_refl args.location_id,
                same_refl args.start_date,
                same_refl args.end_date,
              )
              refl),
      )
