-- ===== src/Guarantees/MockRestored.antt =====
-- A filing that is reversed in the mock of HCM, and the sequence of its batches.
use wizdaa_takehome.Prelude.{
  ℕ, String, Bool, true, false, Option, none, some, ◌≡◌, refl, sym, ap, ◌∙◌, subst, inl, inr, same,
  same_refl, eq_of_same, first, upsert, first-upsert_self, first-upsert_ne, Bool-cases,
}
use wizdaa_takehome.Prelude.Int.{ℤ, pos, ◌+ℤ◌, ◌-ℤ◌, ltb_ℤ, int_laws}
use wizdaa_takehome.Entities.{FileTimeOffCommand}
use wizdaa_takehome.MockHcm.{
  AckText, time_text, BalanceEntry, BalanceSlot, ResultSlot, MockStore, store_key, slot_is,
  slot_key_is, result_is, result_key_is, get_entry, entry_of, set_entry, set_result, gives,
  is_silent, accepts, deduplicated, mock_file_time_off, mock_reverse_time_off,
}
use wizdaa_takehome.Guarantees.Keys.{Answers}

-- The days that the mock has for a place.
abbrev pub days_at : Option BalanceEntry → Option ℤ
days_at none = none
days_at (some entry) = some entry.balance

abbrev pub New : String → MockStore → Type 0
New key s = first (result_is key) s.results ≡ none

sub_add : (z : ℤ) (n : ℕ) → z -ℤ pos n +ℤ pos n ≡ z
sub_add z n = omega int_laws

found_after :
    (place : String) (entry : BalanceEntry) (s : MockStore)
    → get_entry place (set_entry place entry s) ≡ some entry
found_after place entry s = ap entry_of (
    first-upsert_self slot_key_is (record { key = place; entry = entry }) s.balances
      (same_refl place))

other_after :
    (place other : String) (entry : BalanceEntry) (s : MockStore)
    → same other place ≡ false
    → get_entry other (set_entry place entry s) ≡ get_entry other s
other_after place other entry s ne = ap entry_of (
    first-upsert_ne slot_key_is (slot_is other) (record { key = place; entry = entry }) s.balances
      ne
      (λ (x : BalanceSlot) (e : same place x.key ≡ true).
        subst (λ k. same other k ≡ false) (eq_of_same place x.key e) ne))

still-New :
    (key other : String) (ok : Bool) (acked : AckText) (s : MockStore)
    → same other key ≡ false
    → New other s
    → first
        (result_is other)
        (upsert result_key_is (record { key = key; is_ok = ok; acked_at = acked }) s.results)
      ≡ none
still-New key other ok acked s ne fresh =
    first-upsert_ne result_key_is (result_is other)
      (record { key = key; is_ok = ok; acked_at = acked }) s.results ne
      (λ (x : ResultSlot) (e : same key x.key ≡ true).
        subst (λ k. same other k ≡ false) (eq_of_same key x.key e) ne)
    ∙ fresh

module _ (key : String) (cmd : FileTimeOffCommand) (now : ℕ) (s : MockStore)
    (entry : BalanceEntry) where
  abbrev place : String
  place = store_key cmd.employee_id cmd.location_id

  -- The store after a filing of a new key that is accepted, and after such a reversal.
  abbrev filed_store : MockStore
  filed_store =
      set_result key true (time_text now)
        (set_entry place (record entry { balance = entry.balance -ℤ pos cmd.days; as_of = now }) s)

  abbrev reversed_store : MockStore
  reversed_store =
      set_result key true (time_text now)
        (set_entry place (record entry { balance = entry.balance +ℤ pos cmd.days; as_of = now }) s)

  module _ (named : same key "" ≡ false) (answers : Answers s) (new : New key s)
      (found : get_entry place s ≡ some entry) where
    filed_new :
        is_silent s.scenario ≡ false
        → ltb_ℤ entry.balance (pos cmd.days) ≡ false
        → mock_file_time_off key cmd now s ≡ (gives (accepts now), filed_store)
    unfolding mock_file_time_off deduplicated
    filed_new loud enough =
        rw (named, answers.0, answers.1, new, loud, found, enough, answers.1) refl

    reversed_new : mock_reverse_time_off key cmd now s ≡ (gives (accepts now), reversed_store)
    unfolding mock_reverse_time_off deduplicated
    reversed_new = rw (named, answers.0, answers.1, new, found, answers.1) refl

restored_at :
    (cmd : FileTimeOffCommand) (now now' : ℕ) (s : MockStore) (entry : BalanceEntry)
    → get_entry (store_key cmd.employee_id cmd.location_id) s ≡ some entry
    → (p : String)
    → let place = store_key cmd.employee_id cmd.location_id in
      let e1 : BalanceEntry = record entry {
        balance = entry.balance -ℤ pos cmd.days;
        as_of = now;
      } in
      let e2 : BalanceEntry = record e1 { balance = e1.balance +ℤ pos cmd.days; as_of = now' } in
      days_at (get_entry p (set_entry place e2 (set_entry place e1 s))) ≡ days_at (get_entry p s)
restored_at cmd now now' s entry found p =
    let place : String = store_key cmd.employee_id cmd.location_id in
    let e1 : BalanceEntry = record entry { balance = entry.balance -ℤ pos cmd.days; as_of = now } in
    let e2 : BalanceEntry = record e1 { balance = e1.balance +ℤ pos cmd.days; as_of = now' } in
    elim (Bool-cases (same p place)) [
      | inl e ↦
          subst
            (λ x.
              days_at (get_entry x (set_entry place e2 (set_entry place e1 s)))
              ≡ days_at (get_entry x s))
            (sym (eq_of_same p place e))
            (ap days_at (found_after place e2 (set_entry place e1 s))
              ∙ ap some (sub_add entry.balance cmd.days)
              ∙ sym (ap days_at found))
      | inr e ↦
          ap days_at (other_after place p e2 (set_entry place e1 s) e ∙ other_after place p e1 s e)
    ]

-- A place has a balance, and the mock answers, keeps to the keys and is not silent. A filing of no more
-- days than the balance, under a new key, is accepted and takes its days off the balance; its reversal
-- under another new key is accepted, and after it every place has the balance that it had before.
pub filing_and_reversal :
    (key key' : String) (cmd : FileTimeOffCommand) (now now' : ℕ) (s : MockStore)
    (entry : BalanceEntry)
    → same key "" ≡ false
    → same key' "" ≡ false
    → same key' key ≡ false
    → Answers s
    → is_silent s.scenario ≡ false
    → New key s
    → New key' s
    → get_entry (store_key cmd.employee_id cmd.location_id) s ≡ some entry
    → ltb_ℤ entry.balance (pos cmd.days) ≡ false
    → let filed = mock_file_time_off key cmd now s in
      let reversed = mock_reverse_time_off key' cmd now' filed.1 in
      (filed.0 ≡ gives (accepts now))
      × (days_at (get_entry (store_key cmd.employee_id cmd.location_id) filed.1)
          ≡ some (entry.balance -ℤ pos cmd.days))
      × (reversed.0 ≡ gives (accepts now'))
      × ((p : String) → days_at (get_entry p reversed.1) ≡ days_at (get_entry p s))
filing_and_reversal key key' cmd now now' s entry named named' ne answers loud new new' found
      enough =
    let e1 : BalanceEntry = record entry { balance = entry.balance -ℤ pos cmd.days; as_of = now } in
    let place : String = store_key cmd.employee_id cmd.location_id in
    let u : MockStore = filed_store key cmd now s entry in
    let filed_eq : mock_file_time_off key cmd now s ≡ (gives (accepts now), u) =
      filed_new key cmd now s entry named answers new found loud enough in
    let there : get_entry place u ≡ some e1 = found_after place e1 s in
    let reversed_eq : mock_reverse_time_off key' cmd now' u
        ≡ (gives (accepts now'), reversed_store key' cmd now' u e1) =
      reversed_new key' cmd now' u e1 named' answers
        (still-New key key' true (time_text now) s ne new') there in
    (
      rw filed_eq refl,
      rw filed_eq (ap days_at there),
      rw (filed_eq, reversed_eq) refl,
      λ p. rw (filed_eq, reversed_eq) (restored_at cmd now now' s entry found p),
    )
