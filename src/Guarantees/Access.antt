-- ===== src/Guarantees/Access.antt =====
-- Who may do what: a route refuses, and then nothing is written, or it is the caller's to use.
use wizdaa_takehome.Prelude.{
  ℕ, String, Bool, true, not, Option, none, some, List, ◌≡◌, refl, ap, ◌⊎◌, inl, inr, ◌&&◌, ◌||◌,
  ltb, Bool-cases, Option-cases, eq_of_same,
}
use wizdaa_takehome.Entities.{TimeOffRequest, request_id_is}
use wizdaa_takehome.Config.{AppConfig}
use wizdaa_takehome.Database.{
  Tables, Engine, Action, ◌>>◌, Exception, bad_request, forbidden, not_found, Outcome, ok, err,
  pure,
}
use wizdaa_takehome.Balances.{HcmReply, get_balance, resolve_review}
use wizdaa_takehome.Requests.{HcmReplies, submit, approve, reject, cancel, find_by_id}
use wizdaa_takehome.Http.{
  is_missing, require_uuid, header_is, text_of, utf16_length, require_principal, require_manager,
  SubmitBody, submit_args, post_submit, submit_route, is_valid_body, post_approve, post_reject,
  require_own, post_cancel, get_balances, patch_resolve_review,
}

abbrev pub Refused : {A : Type 0} → Outcome A × Tables → Tables → Type 0
Refused out t = (x : Exception) × (out ≡ (err x, t))

-- A call is refused, or a condition holds and the call is the service's.
abbrev pub Guarded :
    {A : Type 0} → Type 0 → Outcome A × Tables → Outcome A × Tables → Tables → Type 0
Guarded P out inner t = Refused out t ⊎ (P × (out ≡ inner))

header_is-eq : (h : Option String) (text : String) → header_is h text ≡ true → h ≡ some text
header_is-eq none text e = absurd (cc e)
header_is-eq (some s) text e = ap some (eq_of_same s text e)

module _ (principal role : Option String) (locks : List String) (t : Tables) where
  -- The first two checks write nothing.
  principal_checked :
      (require_principal principal role locks t ≡ (ok tt, t))
      ⊎ Refused (require_principal principal role locks t) t
  unfolding require_principal
  principal_checked = elim (Bool-cases (is_missing principal)) [
    | inl missing ↦ inr (bad_request, rw missing refl)
    | inr there ↦
        elim (Bool-cases (not (header_is role "employee") && not (header_is role "manager"))) [
          | inl unknown ↦ inr (bad_request, rw (there, unknown) refl)
          | inr known ↦ inl (rw (there, known) refl)
        ]
  ]

  manager_checked :
      ((require_manager principal role locks t ≡ (ok tt, t)) × (role ≡ some "manager"))
      ⊎ Refused (require_manager principal role locks t) t
  unfolding require_manager
  manager_checked = elim principal_checked [
    | inr (x, e) ↦ inr (x, rw e refl)
    | inl e ↦ elim (Bool-cases (header_is role "manager")) [
      | inl manager ↦ inl (rw (e, manager) refl, header_is-eq role "manager" manager)
      | inr other ↦ inr (forbidden, rw (e, other) refl)
    ]
  ]

module _ (e : Engine) (config : AppConfig) (principal role : Option String) where
  module _ (hcm : HcmReplies) (now : ℕ) where
    manager_route :
        (service : String → Action TimeOffRequest) (is_uuid : String → Bool) (id : String)
        (locks : List String) (t : Tables)
        → Guarded
            (role ≡ some "manager")
            ((require_uuid is_uuid id >> (require_manager principal role >> service id)) locks t)
            (service id locks t)
            t
    manager_route service is_uuid id locks t = elim (Bool-cases (is_uuid id)) [
      | inr other ↦ inl (bad_request, rw other refl)
      | inl uuid ↦ elim (manager_checked principal role locks t) [
        | inr (x, stops) ↦ inl (x, rw (uuid, stops) refl)
        | inl (passes, manager) ↦ inr (manager, rw (uuid, passes) refl)
      ]
    ]

    own_checked :
        (id : String) (locks : List String) (t : Tables)
        → ((require_own e config principal role hcm now id locks t ≡ (ok tt, t))
            × (r : TimeOffRequest) × (e.find_one TimeOffRequest (request_id_is id) t.requests
                ≡ some r)
            × (principal ≡ some r.employee_id))
          ⊎ Refused (require_own e config principal role hcm now id locks t) t
    unfolding require_own find_by_id
    own_checked id locks t =
        elim (Option-cases (e.find_one TimeOffRequest (request_id_is id) t.requests)) [
          | inl lost ↦ inr (not_found, rw lost refl)
          | inr (r, found) ↦ elim (Bool-cases (header_is principal r.employee_id)) [
            | inl own ↦
                inl (rw (found, own) refl, r, found, header_is-eq principal r.employee_id own)
            | inr other ↦ inr (forbidden, rw (found, other) refl)
          ]
        ]

own_submission :
    (e : Engine) (config : AppConfig) (principal role : Option String) (hcm : HcmReplies) (now : ℕ)
    (body : SubmitBody) (key : Option String) (locks : List String) (t : Tables)
    → Guarded
        (principal ≡ some body.employee_id)
        (post_submit e config principal role hcm now body key locks t)
        (submit e config hcm now (submit_args body key) locks t)
        t
unfolding post_submit
own_submission e config principal role hcm now body key locks t =
    elim (principal_checked principal role locks t) [
      | inr (x, stops) ↦ inl (x, rw stops refl)
      | inl passes ↦ elim (Bool-cases (is_missing key || ltb 200 (utf16_length (text_of key)))) [
        | inl bad ↦ inl (bad_request, rw (passes, bad) refl)
        | inr good ↦ elim (Bool-cases (header_is principal body.employee_id)) [
          | inl own ↦ inr (header_is-eq principal body.employee_id own, rw (passes, good, own) refl)
          | inr other ↦ inl (forbidden, rw (passes, good, other) refl)
        ]
      ]
    ]

-- A submission is refused, and nothing is written, or its body is one that the DTO lets through, it is
-- the caller's own (its employee is the principal of the request), and it is submitted as `submit`
-- does.
pub submit_is_own :
    (e : Engine) (config : AppConfig) (is_short : String → Bool) (principal role : Option String)
    (hcm : HcmReplies) (now : ℕ) (body : SubmitBody) (key : Option String) (locks : List String)
    (t : Tables)
    → Guarded
        ((is_valid_body is_short body ≡ true) × (principal ≡ some body.employee_id))
        (submit_route e config is_short principal role hcm now body key locks t)
        (submit e config hcm now (submit_args body key) locks t)
        t
unfolding submit_route
submit_is_own e config is_short principal role hcm now body key locks t =
    elim (Bool-cases (is_valid_body is_short body)) [
      | inr bad ↦ inl (bad_request, rw bad refl)
      | inl valid ↦ elim (own_submission e config principal role hcm now body key locks t) [
        | inl (x, stops) ↦ inl (x, rw (valid, stops) refl)
        | inr (own, passes) ↦ inr ((valid, own), rw (valid, passes) refl)
      ]
    ]

-- An approval, a rejection and the clearing of a review are refused, and nothing is written, or the
-- role of the request is that of a manager, and the method of the service runs.
pub managers_only :
    (e : Engine) (config : AppConfig) (principal role : Option String) (hcm : HcmReplies) (now : ℕ)
    (is_uuid : String → Bool) (id employee location : String) (locks : List String) (t : Tables)
    → Guarded
        (role ≡ some "manager")
        (post_approve e config principal role hcm now is_uuid id locks t)
        (approve e config hcm now id locks t)
        t
      × Guarded
          (role ≡ some "manager")
          (post_reject e config principal role hcm now is_uuid id locks t)
          (reject e config hcm now id locks t)
          t
      × Guarded
          (role ≡ some "manager")
          (patch_resolve_review e config principal role employee location locks t)
          ((resolve_review e employee location >> pure true) locks t)
          t
unfolding post_approve post_reject patch_resolve_review
managers_only e config principal role hcm now is_uuid id employee location locks t = (
  manager_route e config principal role hcm now (approve e config hcm now) is_uuid id locks t,
  manager_route e config principal role hcm now (reject e config hcm now) is_uuid id locks t,
  elim (manager_checked principal role locks t) [
    | inr (x, stops) ↦ inl (x, rw stops refl)
    | inl (passes, manager) ↦ inr (manager, rw passes refl)
  ],
)

-- A cancellation is refused, and nothing is written, or the role is that of a manager or the request
-- is there and its employee is the principal, and `cancel` runs.
pub cancel_is_own :
    (e : Engine) (config : AppConfig) (principal role : Option String) (hcm : HcmReplies) (now : ℕ)
    (is_uuid : String → Bool) (id : String) (locks : List String) (t : Tables)
    → Guarded
        ((role ≡ some "manager")
          ⊎ ((r : TimeOffRequest) × (e.find_one TimeOffRequest (request_id_is id) t.requests
                ≡ some r)
              × (principal ≡ some r.employee_id)))
        (post_cancel e config principal role hcm now is_uuid id locks t)
        (cancel e config hcm now id locks t)
        t
unfolding post_cancel
cancel_is_own e config principal role hcm now is_uuid id locks t = elim (Bool-cases (is_uuid id)) [
  | inr other ↦ inl (bad_request, rw other refl)
  | inl uuid ↦ elim (principal_checked principal role locks t) [
    | inr (x, stops) ↦ inl (x, rw (uuid, stops) refl)
    | inl passes ↦ elim (Bool-cases (header_is role "manager")) [
      | inl manager ↦
          inr (inl (header_is-eq role "manager" manager), rw (uuid, passes, manager) refl)
      | inr employee ↦ elim (own_checked e config principal role hcm now id locks t) [
        | inr (x, stops) ↦ inl (x, rw (uuid, passes, employee, stops) refl)
        | inl (own, r, found, mine) ↦
            inr (inr (r, found, mine), rw (uuid, passes, employee, own) refl)
      ]
    ]
  ]
]

-- A read of a balance is refused, and nothing is written, or the role is that of a manager or the
-- employee is the principal, and `getBalance` runs.
pub balance_is_own :
    (e : Engine) (config : AppConfig) (principal role : Option String) (reply : HcmReply)
    (employee location : String) (locks : List String) (t : Tables)
    → Guarded
        ((role ≡ some "manager") ⊎ (principal ≡ some employee))
        (get_balances e config principal role reply employee location locks t)
        (get_balance e config reply employee location locks t)
        t
unfolding get_balances
balance_is_own e config principal role reply employee location locks t =
    elim (principal_checked principal role locks t) [
      | inr (x, stops) ↦ inl (x, rw stops refl)
      | inl passes ↦ elim (Bool-cases (header_is role "manager")) [
        | inl manager ↦ inr (inl (header_is-eq role "manager" manager), rw (passes, manager) refl)
        | inr other ↦ elim (Bool-cases (header_is principal employee)) [
          | inl own ↦ inr (inr (header_is-eq principal employee own), rw (passes, other, own) refl)
          | inr not_own ↦ inl (forbidden, rw (passes, other, not_own) refl)
        ]
      ]
    ]
