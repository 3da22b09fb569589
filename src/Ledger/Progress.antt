-- ===== src/Ledger/Progress.antt =====
-- The rows of the outbox are never lost, and a row that does not wait any more stays as it is.
use wizdaa_takehome.Prelude.{
  ℕ, ◌≤◌, String, true, none, some, ◌≡◌, refl, ap, ◌∙◌, sym, subst, inl, inr, ◌⊎◌, first, upsert,
  same, same_refl, eq_of_same, first-upsert_ne, first-upsert_self, Bool-cases, arith,
}
use wizdaa_takehome.Entities.{Outbox, OutboxStatus, outbox_id_is, is_waiting}
use wizdaa_takehome.Database.{Tables, outbox_key_is, update_where}
use wizdaa_takehome.Requests.{void, is_pending_file_of}
use wizdaa_takehome.Ledger.Sent.{resend}
use wizdaa_takehome.Ledger.Carried.{first-update_found}
use wizdaa_takehome.Ledger.Walk.{Closed}

-- A row, and the row of its id later: the same, or a row that waited, in another state or after
-- more attempts. What it says of the request and to HCM never changes.
abbrev pub Progress : Outbox → Outbox → Type 0
Progress o o' =
    (o' ≡ o)
    ⊎ ((is_waiting o.status ≡ true)
        × (s : OutboxStatus) × (n : ℕ) × (o.attempts ≤ n)
        × (o' ≡ resend s n o))

trans-Progress : (a b c : Outbox) → Progress a b → Progress b c → Progress a c
trans-Progress a b c (inl e) p = subst (λ o. Progress o c) e p
trans-Progress a b c (inr p) (inl e) = subst (Progress a) (sym e) (inr p)
trans-Progress a b c (inr (w, s, n, le, e)) (inr (w', s', n', le', e')) =
    let n_eq : b.attempts ≡ n = ap (λ (o : Outbox). o.attempts) e in
    inr (w, s', n', omega (arith, le, le', n_eq), e' ∙ ap (resend s' n') e)

-- Every row of the first tables is there in the second.
abbrev pub Progresses : Tables → Tables → Type 0
Progresses t t' =
    (id : String) (o : Outbox)
    → first (outbox_id_is id) t.outbox ≡ some o
    → (o' : Outbox) × (first (outbox_id_is id) t'.outbox ≡ some o') × Progress o o'

-- A row that is saved over a row of its id.
pub saved-Progress :
    (t : Tables) (o : Outbox) (s : OutboxStatus) (n : ℕ)
    → first (outbox_id_is o.id) t.outbox ≡ some o
    → is_waiting o.status ≡ true
    → o.attempts ≤ n
    → Progresses t (record t { outbox = upsert outbox_key_is (resend s n o) t.outbox })
saved-Progress t o s n row wait le id x found = elim (Bool-cases (same id o.id)) [
  | inl here ↦
      let id_eq : id ≡ o.id = eq_of_same id o.id here in
      let row' : first (outbox_id_is id) t.outbox ≡ some o = rw id_eq row in
      let x_eq : o ≡ x = cc (found, row') in
      (
        resend s n o,
        rw id_eq (first-upsert_self outbox_key_is (resend s n o) t.outbox (same_refl o.id)),
        subst (λ y. Progress y (resend s n o)) x_eq (inr (wait, s, n, le, refl)),
      )
  | inr other ↦ (
    x,
    rw
        (first-upsert_ne outbox_key_is (outbox_id_is id) (resend s n o) t.outbox other
          (λ y e. rw (← eq_of_same o.id y.id e) other))
        found,
    inl refl,
  )
]

waits_if_hit :
    (id : String) (o : Outbox) → is_pending_file_of id o ≡ true → is_waiting o.status ≡ true
waits_if_hit id o h = ground arith

voided-Progress :
    (t : Tables) (id : String)
    → Progresses t (record t { outbox = update_where (is_pending_file_of id) void t.outbox })
voided-Progress t id k o found =
    let found' =
      first-update_found (outbox_id_is k) (is_pending_file_of id) void t.outbox o (λ x. refl)
        found in
    elim (Bool-cases (is_pending_file_of id o)) [
      | inr miss ↦ (o, rw miss at found', inl refl)
      | inl hit ↦
          let wait = waits_if_hit id o hit in
          (void o, rw hit at found', inr (wait, OutboxStatus.voided, o.attempts, omega arith, refl))
    ]

pub enqueued-Progress :
    (t : Tables) (o : Outbox)
    → first (outbox_id_is o.id) t.outbox ≡ none
    → Progresses t (record t { outbox = upsert outbox_key_is o t.outbox })
enqueued-Progress t o fresh id x found = elim (Bool-cases (same id o.id)) [
  | inl here ↦ absurd (cc (rw (← eq_of_same id o.id here) at fresh, found))
  | inr other ↦ (
    x,
    rw
        (first-upsert_ne outbox_key_is (outbox_id_is id) o t.outbox other
          (λ y e. rw (← eq_of_same o.id y.id e) other))
        found,
    inl refl,
  )
]

pub trans-Progresses : (t t' t'' : Tables) → Progresses t t' → Progresses t' t'' → Progresses t t''
trans-Progresses t t' t'' f g id o e =
    let (o', e', p) = f id o e in
    let (o'', e'', q) = g id o' e' in (o'', e'', trans-Progress o o' o'' p q)

pub progress-Closed : Closed Progresses (λ r. Unit {0}) (λ id. Unit {0})
progress-Closed = record {
  stay = λ t id o e. (o, e, inl refl);
  trans = trans-Progresses;
  balances = λ t rows id o e. (o, e, inl refl);
  events = λ t rows id o e. (o, e, inl refl);
  batch_logs = λ t rows id o e. (o, e, inl refl);
  written = λ t r w id o e. (o, e, inl refl);
  created = λ t r fresh id o e. (o, e, inl refl);
  retired = λ t k id o e. (o, e, inl refl);
  voided = λ t id w. voided-Progress t id;
  enqueued = λ t o fresh zero. enqueued-Progress t o fresh;
}
