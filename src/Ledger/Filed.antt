-- ===== src/Ledger/Filed.antt =====
-- A request waits to be filed exactly if it has a FILE row that waits, and then it has one.
use wizdaa_takehome.Prelude.{
  ℕ, ◌+◌, ◌≤◌, String, true, false, Option, none, some, List, [], ◌∷◌, ◌≡◌, refl, ap, inl, inr,
  same, same_refl, eq_of_same, first, total, first-upsert_self, first-upsert_ne, Bool-cases, arith,
  if◌then◌else◌,
}
use wizdaa_takehome.Entities.{
  Balance, TimeOffRequest, Outbox, RequestStatus, request_id_is, is_pending, is_pending_sync,
}
use wizdaa_takehome.Database.{Tables, request_key_is, update_where}
use wizdaa_takehome.Requests.{is_file_of, is_pending_file_of, void}
use wizdaa_takehome.Ledger.Rows.{restate}
use wizdaa_takehome.Ledger.Reserved.{moved}

abbrev pub waiting : String → Outbox → ℕ
waiting id o = if is_pending_file_of id o then 1 else 0

abbrev pub sync_of : Option TimeOffRequest → ℕ
sync_of none = 0
sync_of (some r) = if is_pending_sync r.status then 1 else 0

abbrev pub IsFiled : Tables → Type 0
IsFiled t =
    (id : String) → total (waiting id) t.outbox ≡ sync_of (first (request_id_is id) t.requests)

-- The FILE rows of a request, of any state: none while it is pending, and one at most.
abbrev pub file_row : String → Outbox → ℕ
file_row id o = if is_file_of id o then 1 else 0

abbrev pub limit_of : Option TimeOffRequest → ℕ
limit_of none = 0
limit_of (some r) = if is_pending r.status then 0 else 1

abbrev pub IsSingle : Tables → Type 0
IsSingle t =
    (id : String) → total (file_row id) t.outbox ≤ limit_of (first (request_id_is id) t.requests)

module _ (t : Tables) (r : TimeOffRequest) (s : RequestStatus) (c h : Option ℕ) (b : Balance)
    (rows : List Outbox) (own : total (waiting r.id) rows ≡ sync_of (some (restate s c h r)))
    (others : (id : String)
      → same id r.id ≡ false
      → total (waiting id) rows ≡ total (waiting id) t.outbox) where
  pub moved-IsFiled : IsFiled t → IsFiled (moved b (restate s c h r) rows t)
  moved-IsFiled inv id = elim (Bool-cases (same id r.id)) [
    | inl here ↦
        let key = eq_of_same id r.id here in
        rw key
          (rw (first-upsert_self request_key_is (restate s c h r) t.requests (same_refl r.id)) own)
    | inr other ↦
        rw
          (
            first-upsert_ne request_key_is (request_id_is id) (restate s c h r) t.requests other
                (λ x e. rw (← eq_of_same r.id x.id e) other),
            others id other,
          )
          (inv id)
  ]

module _ (t : Tables) (r : TimeOffRequest) (s : RequestStatus) (c h : Option ℕ) (b : Balance)
    (rows : List Outbox) (own : total (file_row r.id) rows ≤ limit_of (some (restate s c h r)))
    (others : (id : String)
      → same id r.id ≡ false
      → total (file_row id) rows ≡ total (file_row id) t.outbox) where
  pub moved-IsSingle : IsSingle t → IsSingle (moved b (restate s c h r) rows t)
  moved-IsSingle inv id = elim (Bool-cases (same id r.id)) [
    | inl here ↦
        let key = eq_of_same id r.id here in
        rw key
          (rw (first-upsert_self request_key_is (restate s c h r) t.requests (same_refl r.id)) own)
    | inr other ↦
        rw
          (
            first-upsert_ne request_key_is (request_id_is id) (restate s c h r) t.requests other
                (λ x e. rw (← eq_of_same r.id x.id e) other),
            others id other,
          )
          (inv id)
  ]

-- The rows of the outbox after `voidPendingFileRows`.
abbrev pub voided_rows : String → List Outbox → List Outbox
voided_rows id = update_where (is_pending_file_of id) void

pub voided_rows-none :
    (id : String) (rows : List Outbox) → total (waiting id) (voided_rows id rows) ≡ 0
voided_rows-none id [] = refl
voided_rows-none id (o ∷ rows) = ground (arith, voided_rows-none id rows)

void_other :
    (id own : String) (o : Outbox)
    → same id own ≡ false
    → is_pending_file_of own o ≡ true
    → is_pending_file_of id o ≡ false
void_other id own o other hit = elim (Bool-cases (same own o.aggregate_id)) [
  | inl here ↦ rw (← eq_of_same own o.aggregate_id here, other)
  | inr miss ↦ absurd (cc (rw miss at hit))
]

pub voided_rows-others :
    (id own : String) (rows : List Outbox)
    → same id own ≡ false
    → total (waiting id) (voided_rows own rows) ≡ total (waiting id) rows
voided_rows-others id own [] other = refl
voided_rows-others id own (o ∷ rows) other = elim (Bool-cases (is_pending_file_of own o)) [
  | inl hit ↦ ground (arith, void_other id own o other hit, voided_rows-others id own rows other)
  | inr miss ↦ rw miss (ap (◌+◌ (waiting id o)) (voided_rows-others id own rows other))
]

pub voided_rows-files :
    (id own : String) (rows : List Outbox)
    → total (file_row id) (voided_rows own rows) ≡ total (file_row id) rows
voided_rows-files id own [] = refl
voided_rows-files id own (o ∷ rows) = elim (Bool-cases (is_pending_file_of own o)) [
  | inl hit ↦ rw hit (ap (◌+◌ (file_row id o)) (voided_rows-files id own rows))
  | inr miss ↦ rw miss (ap (◌+◌ (file_row id o)) (voided_rows-files id own rows))
]

pub miss_waits :
    (id : String) (o : Outbox) → is_file_of id o ≡ false → is_pending_file_of id o ≡ false
miss_waits id o h = ground arith

pub waiting-le :
    (id : String) (rows : List Outbox) → total (waiting id) rows ≤ total (file_row id) rows
waiting-le id [] = omega arith
waiting-le id (o ∷ rows) = ground (arith, waiting-le id rows, miss_waits id o)

-- If the first FILE row of a request does not wait, and there is one at most, none waits.
pub waiting-none :
    (id : String) (rows : List Outbox) (o : Outbox)
    → first (is_file_of id) rows ≡ some o
    → is_pending_file_of id o ≡ false
    → total (file_row id) rows ≤ 1
    → total (waiting id) rows ≡ 0
waiting-none id [] o e sent one = cc
waiting-none id (x ∷ rows) o e sent one = elim (Bool-cases (is_file_of id x)) [
  | inl hit ↦
      let q : x ≡ o = ground arith in
      let w : waiting id x ≡ 0 = rw (q, sent) in
      let f : file_row id x ≡ 1 = rw hit in omega (arith, w, f, waiting-le id rows)
  | inr miss ↦
      let w : waiting id x ≡ 0 = rw (miss_waits id x miss) in
      omega (arith, w, waiting-none id rows o (ground arith) sent (omega arith))
]
