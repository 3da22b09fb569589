-- ===== src/Ledger/Apart.antt =====
-- The ranges of the active requests of one employee at one location do not meet.
use wizdaa_takehome.Prelude.{
  ℕ, Bool, true, false, not, Option, none, some, List, [], ◌∷◌, ◌≡◌, refl, subst, inl, inr, ◌&&◌,
  same, same-sym, first, upsert, All, All-first, All-upsert, Bool-cases, arith, text_le,
}
use wizdaa_takehome.Entities.{TimeOffRequest, RequestStatus, is_terminal, request_id_is, request_at}
use wizdaa_takehome.Database.{request_key_is, update_where}
use wizdaa_takehome.Requests.{SubmitArgs, overlaps, retire_key}
use wizdaa_takehome.Ledger.Rows.{restate}

-- Two active requests of one key whose ranges meet.
abbrev pub clash : TimeOffRequest → TimeOffRequest → Bool
clash r x =
    not (is_terminal r.status)
    && not (is_terminal x.status)
    && request_at r.employee_id r.location_id x
    && text_le x.start_date r.end_date
    && text_le r.start_date x.end_date

abbrev pub AreApart : List TimeOffRequest → Type 0
AreApart [] = Unit
AreApart (r ∷ rs) = All (λ (x : TimeOffRequest). clash r x ≡ false) rs × AreApart rs

-- A request that takes the place of another clashes with no more than it.
pub record Narrows (r' r : TimeOffRequest) : Type 0 where
  pub first_one : (x : TimeOffRequest) → clash r x ≡ false → clash r' x ≡ false
  pub second_one : (x : TimeOffRequest) → clash x r ≡ false → clash x r' ≡ false

All-map :
    (P Q : TimeOffRequest → Type 0) (xs : List TimeOffRequest)
    → ((x : TimeOffRequest) → P x → Q x)
    → All P xs
    → All Q xs
All-map P Q [] f a = tt
All-map P Q (x ∷ xs) f a = (f x a.0, All-map P Q xs f a.1)

pub upsert-AreApart :
    (r' r : TimeOffRequest) (xs : List TimeOffRequest)
    → Narrows r' r
    → first (request_key_is r') xs ≡ some r
    → AreApart xs
    → AreApart (upsert request_key_is r' xs)
upsert-AreApart r' r [] n found a = absurd (cc found)
upsert-AreApart r' r (x ∷ xs) n found a = elim (Bool-cases (request_key_is r' x)) [
  | inl here ↦
      let x_eq : x ≡ r = ground arith in
      rw here (
        All-map (λ y. clash r y ≡ false) (λ y. clash r' y ≡ false) xs n.first_one
            (subst (λ y. All (λ (z : TimeOffRequest). clash y z ≡ false) xs) x_eq a.0),
        a.1,
      )
  | inr other ↦
      let later : first (request_key_is r') xs ≡ some r = ground arith in
      rw other (
        All-upsert (λ (y : TimeOffRequest). clash x y ≡ false) request_key_is r' xs
            (n.second_one x (
              All-first (λ (y : TimeOffRequest). clash x y ≡ false) (request_key_is r') xs r a.0
                later))
            a.0,
        upsert-AreApart r' r xs n later a.1,
      )
]

-- A change of state that makes no request active.
restate-Narrows :
    (s : RequestStatus) (c h : Option ℕ) (r : TimeOffRequest)
    → (is_terminal s ≡ false → is_terminal r.status ≡ false)
    → Narrows (restate s c h r) r
restate-Narrows s c h r live = record {
  first_one = λ x apart. elim (Bool-cases (is_terminal s)) [
    | inl done ↦ rw done refl
    | inr active ↦ rw active (
        subst
          (λ b.
            (not b
              && not (is_terminal x.status)
              && request_at r.employee_id r.location_id x
              && text_le x.start_date r.end_date
              && text_le r.start_date x.end_date)
            ≡ false)
          (live active) apart)
  ];
  second_one = λ x apart. elim (Bool-cases (is_terminal s)) [
    | inl done ↦ rw done (ground arith)
    | inr active ↦ rw active (
        subst
          (λ b.
            (not (is_terminal x.status)
              && not b
              && request_at x.employee_id x.location_id r
              && text_le r.start_date x.end_date
              && text_le x.start_date r.end_date)
            ≡ false)
          (live active) apart)
  ];
}

pub restated-AreApart :
    (s : RequestStatus) (c h : Option ℕ) (r : TimeOffRequest) (rows : List TimeOffRequest)
    → (is_terminal s ≡ false → is_terminal r.status ≡ false)
    → first (request_id_is r.id) rows ≡ some r
    → AreApart rows
    → AreApart (upsert request_key_is (restate s c h r) rows)
restated-AreApart s c h r rows live found a =
    upsert-AreApart (restate s c h r) r rows (restate-Narrows s c h r live) found a

-- A key that is renamed.
All-retire :
    (p : TimeOffRequest → Bool) (y : TimeOffRequest) (xs : List TimeOffRequest)
    → All (λ (x : TimeOffRequest). clash y x ≡ false) xs
    → All (λ (x : TimeOffRequest). clash y x ≡ false) (update_where p retire_key xs)
All-retire p y [] a = tt
All-retire p y (x ∷ xs) a = elim (Bool-cases (p x)) [
  | inl hit ↦ rw hit (a.0, All-retire p y xs a.1)
  | inr miss ↦ rw miss (a.0, All-retire p y xs a.1)
]

pub retire-AreApart :
    (p : TimeOffRequest → Bool) (xs : List TimeOffRequest)
    → AreApart xs
    → AreApart (update_where p retire_key xs)
retire-AreApart p [] a = tt
retire-AreApart p (x ∷ xs) a = elim (Bool-cases (p x)) [
  | inl hit ↦ rw hit (All-retire p x xs a.0, retire-AreApart p xs a.1)
  | inr miss ↦ rw miss (All-retire p x xs a.0, retire-AreApart p xs a.1)
]

pub retire_clear :
    (args : SubmitArgs) (p : TimeOffRequest → Bool) (xs : List TimeOffRequest)
    → first (overlaps args) xs ≡ none
    → first (overlaps args) (update_where p retire_key xs) ≡ none
retire_clear args p [] e = refl
retire_clear args p (x ∷ xs) e =
    let miss : overlaps args x ≡ false = ground arith in
    let later : first (overlaps args) xs ≡ none = ground arith in
    elim (Bool-cases (p x)) [
      | inl hit ↦ rw (hit, miss) (retire_clear args p xs later)
      | inr keep ↦ rw (keep, miss) (retire_clear args p xs later)
    ]

-- A new request whose range meets no active one's.
abbrev pub Asks : SubmitArgs → TimeOffRequest → Type 0
Asks args r =
    (r.employee_id ≡ args.employee_id)
    × (r.location_id ≡ args.location_id)
    × (r.start_date ≡ args.start_date)
    × (r.end_date ≡ args.end_date)

none_of :
    (p : TimeOffRequest → Bool) (xs : List TimeOffRequest)
    → first p xs ≡ none
    → All (λ (x : TimeOffRequest). p x ≡ false) xs
none_of p [] e = tt
none_of p (x ∷ xs) e = (ground arith, none_of p xs (ground arith))

and_swap :
    (a b c d e f : Bool)
    → ((a && b) && c && d && e) ≡ false
    → (c && f && (a && b) && e && d) ≡ false
and_swap true true true true true f h = absurd (cc h)
and_swap true true true true false f h = ground arith
and_swap true true true false e f h = ground arith
and_swap true true false d e f h = refl
and_swap true false true d e f h = ground arith
and_swap true false false d e f h = refl
and_swap false b true d e f h = ground arith
and_swap false b false d e f h = refl

clear_clash :
    (args : SubmitArgs) (r x : TimeOffRequest)
    → Asks args r
    → overlaps args x ≡ false
    → clash x r ≡ false
clear_clash args r x own h =
    rw
      (
        own.0,
        own.1,
        own.2,
        own.3,
        same-sym x.employee_id args.employee_id,
        same-sym x.location_id args.location_id,
      )
      (and_swap (same args.employee_id x.employee_id) (same args.location_id x.location_id)
        (not (is_terminal x.status)) (text_le x.start_date args.end_date)
        (text_le args.start_date x.end_date) (not (is_terminal r.status)) h)

pub created-AreApart :
    (args : SubmitArgs) (r : TimeOffRequest) (xs : List TimeOffRequest)
    → Asks args r
    → first (overlaps args) xs ≡ none
    → first (request_id_is r.id) xs ≡ none
    → AreApart xs
    → AreApart (upsert request_key_is r xs)
created-AreApart args r [] own clear fresh a = (tt, tt)
created-AreApart args r (x ∷ xs) own clear fresh a =
    let other : request_key_is r x ≡ false = ground arith in
    let apart : clash x r ≡ false =
      clear_clash args r x own (none_of (overlaps args) (x ∷ xs) clear).0 in
    rw other (
      All-upsert (λ (y : TimeOffRequest). clash x y ≡ false) request_key_is r xs apart a.0,
      created-AreApart args r xs own (ground arith) (ground arith) a.1,
    )
