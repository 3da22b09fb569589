-- ===== src/Guarantees/Overlaps.antt =====
-- The ranges of the requests of one employee at one location.
use wizdaa_takehome.Prelude.{
  String, true, false, some, List, [], ◌∷◌, ◌≡◌, refl, sym, subst, ◌⊎◌, inl, inr, same, same-sym,
  same_refl, text_le, text_le_trans, first, All, All-first, Bool-cases, arith,
}
use wizdaa_takehome.Entities.{TimeOffRequest, is_terminal, request_id_is}
use wizdaa_takehome.Config.{AppConfig}
use wizdaa_takehome.Database.{Tables, Database}
use wizdaa_takehome.Ledger.Apart.{clash, AreApart}
use wizdaa_takehome.Ledger.Reached.{Reached}
use wizdaa_takehome.Guarantees.Accounts.{Reached-Inv}

-- Of two rows with different ids one stands before the other.
one_first :
    (r x : TimeOffRequest) (rows : List TimeOffRequest)
    → AreApart rows
    → same r.id x.id ≡ false
    → first (request_id_is r.id) rows ≡ some r
    → first (request_id_is x.id) rows ≡ some x
    → (clash r x ≡ false) ⊎ (clash x r ≡ false)
one_first r x [] a ne f g = absurd (cc f)
one_first r x (y ∷ rows) a ne f g = elim (Bool-cases (request_id_is r.id y)) [
  | inl here ↦
      let y_eq : y ≡ r = ground arith in
      let other : request_id_is x.id y ≡ false = rw (y_eq, same-sym x.id r.id) ne in
      let later : first (request_id_is x.id) rows ≡ some x = ground arith in
      inl (
        All-first (λ (z : TimeOffRequest). clash r z ≡ false) (request_id_is x.id) rows x
          (subst (λ w. All (λ (z : TimeOffRequest). clash w z ≡ false) rows) y_eq a.0) later)
  | inr far ↦ elim (Bool-cases (request_id_is x.id y)) [
    | inl here ↦
        let y_eq : y ≡ x = ground arith in
        let later : first (request_id_is r.id) rows ≡ some r = ground arith in
        inr (
          All-first (λ (z : TimeOffRequest). clash x z ≡ false) (request_id_is r.id) rows r
            (subst (λ w. All (λ (z : TimeOffRequest). clash w z ≡ false) rows) y_eq a.0) later)
    | inr off ↦ one_first r x rows a.1 ne (ground arith) (ground arith)
  ]
]

-- A day in both ranges is a clash.
shared_day :
    (r x : TimeOffRequest) (day : String)
    → is_terminal r.status ≡ false
    → is_terminal x.status ≡ false
    → r.employee_id ≡ x.employee_id
    → r.location_id ≡ x.location_id
    → text_le r.start_date day ≡ true
    → text_le day r.end_date ≡ true
    → text_le x.start_date day ≡ true
    → text_le day x.end_date ≡ true
    → clash r x ≡ true
shared_day r x day active active' employee location from to from' to' =
    rw
      (
        active,
        active',
        employee,
        same_refl x.employee_id,
        location,
        same_refl x.location_id,
        text_le_trans x.start_date day r.end_date from' to,
        text_le_trans r.start_date day x.end_date from to',
      )
      refl

-- In every state that sections lead to: if two requests of one employee at one location, with
-- different ids, are both neither rejected nor cancelled nor expired, no day is in the ranges of both.
pub no_day_twice :
    (db : Database) (config : AppConfig) (t : Tables) (r x : TimeOffRequest) (day : String)
    → Reached db.engine config t
    → first (request_id_is r.id) t.requests ≡ some r
    → first (request_id_is x.id) t.requests ≡ some x
    → same r.id x.id ≡ false
    → is_terminal r.status ≡ false
    → is_terminal x.status ≡ false
    → r.employee_id ≡ x.employee_id
    → r.location_id ≡ x.location_id
    → ¬ (
        (text_le r.start_date day ≡ true)
        × (text_le day r.end_date ≡ true)
        × (text_le x.start_date day ≡ true)
        × (text_le day x.end_date ≡ true))
no_day_twice db config t r x day reached f g ne active active' employee location
      (from, to, from', to') =
    elim (one_first r x t.requests (Reached-Inv db config t reached).apart ne f g) [
      | inl apart ↦
          cc (apart, shared_day r x day active active' employee location from to from' to')
      | inr apart ↦
          cc (
            apart,
            shared_day x r day active' active (sym employee) (sym location) from' to' from to,
          )
    ]
